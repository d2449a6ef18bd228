-- ===== src/Idempotency/Examples.antt =====
-- A counter behind the middleware; the theorems applied to it.
use pikship.Prelude.{ℕ, ◌+◌, String, some, []}
use pikship.Idempotency.Middleware.{Method, Request, Response, State}

-- Creates one thing more and says so.
abbrev create : Request → ℕ → Response × ℕ
create req n = (record { status = 201; content_type = "application/json"; body = "{}" }, n + 1)

abbrev same : String → String
same s = s

abbrev order : Request
order = record { method = Method.post; key = "k1"; seller_id = some 7; body = "a" }

abbrev start : State create same
start = record { keys = []; world = 0 }
