-- ===== src/Idempotency/Replay.antt =====
-- Which requests the middleware (backend/internal/idempotency/idempotency.go) answers again without
-- the handler.
use pikship.Prelude.{
  ℕ, String, ◌≡◌, refl, sym, ap, ◌∙◌, inl, inr, Bool, true, false, ◌||◌, not, none, some, List, [],
  ◌∷◌, arith, ◌==◌, ==-self, str_eq, str_eq_self, if◌then◌else◌, Bool-cases, Option-cases,
}
use mathlib.Core.Path.{subst}
use pikship.Prelude.Table.{select, any, any_of_none}
use pikship.Idempotency.Middleware.{
  app, bypass, Request, Response, Reply, KeyRow, is_key, get_cached, set_cached, is_write,
  is_success, State, pass_on, answer, look_up, for_principal, serve,
}

module _ {World : Type 0} (handler : Request → World → Response × World)
    (hash : String → String) where
  -- Under the role `app` the handler answers each request, and no key is kept.
  pub app_never_replays :
      (kept : Bool) (req : Request) (s : State handler hash)
      → serve handler hash app false kept req s ≡ (
        record { response = (handler req s.world).0; replayed = false },
        record s { world = (handler req s.world).1 },
      )
  unfolding serve get_cached set_cached
  app_never_replays kept req s = ground arith

  -- Requests in turn, on the pool of the application, each with whether its store would be kept.
  unfoldable pub served :
      List (Bool × Request) → State handler hash → List Reply × State handler hash
  served [] s = ([], s)
  served ((kept, req) ∷ rs) s =
      let (reply, t) = serve handler hash app false kept req s in
      let (replies, u) = served rs t in (reply ∷ replies, u)

  -- The handler alone, without the middleware.
  unfoldable pub handled : List (Bool × Request) → World → List Reply × World
  handled [] w = ([], w)
  handled ((kept, req) ∷ rs) w =
      let (r, v) = handler req w in
      let (replies, u) = handled rs v in (record { response = r; replayed = false } ∷ replies, u)

  kept_row :
      (seller : ℕ) (key : String) (row : KeyRow) (rows : List KeyRow)
      → row.seller_id ≡ seller
      → row.key ≡ key
      → get_cached bypass seller key rows ≡ none
      → get_cached bypass seller key (set_cached bypass row rows) ≡ some row.cached
  unfolding get_cached set_cached
  kept_row seller key row rows a b new = elim (Option-cases (select (is_key seller key) rows)) [
    | inr (r, found) ↦ absurd (ground arith)
    | inl gone ↦ elim (Bool-cases (any (is_key row.seller_id row.key) rows)) [
      | inl there ↦ absurd (ground (arith, any_of_none (is_key seller key) rows gone))
      | inr fresh ↦ rw (fresh, a, b, ==-self seller, str_eq_self key) refl
    ]
  ]

  -- A keyed write of a seller is looked up.
  serves_as :
      (seller : ℕ) (kept : Bool) (req : Request) (s : State handler hash)
      → req.seller_id ≡ some seller
      → (seller == 0) ≡ false
      → str_eq req.key "" ≡ false
      → is_write req.method ≡ true
      → serve handler hash bypass false kept req s
        ≡ answer handler hash bypass kept seller req (get_cached bypass seller req.key s.keys) s
  unfolding serve
  serves_as seller kept req s who scoped keyed write =
      ap
        (λ b.
          if b || not (is_write req.method)
          then pass_on handler hash req s
          else for_principal handler hash bypass false kept req.seller_id req s)
        keyed
      ∙ ap
          (λ b.
            if not b
            then pass_on handler hash req s
            else for_principal handler hash bypass false kept req.seller_id req s)
          write
      ∙ ap (λ o. for_principal handler hash bypass false kept o req s) who
      ∙ ap
          (λ b.
            if b
            then pass_on handler hash req s
            else look_up handler hash bypass false kept seller req s)
          scoped

  remembered :
      (seller : ℕ) (req : Request) (s : State handler hash)
      → is_success (handler req s.world).0.status ≡ true
      → (answer handler hash bypass true seller req none s).1.keys
        ≡ set_cached bypass
            (record {
              seller_id = seller;
              key = req.key;
              cached = (handler req s.world).0;
              body_hash = hash (handler req s.world).0.body;
            })
            s.keys
  remembered seller req s good = ground arith

  -- On a pool without row policies, after a POST or PATCH of a seller with a new key that the
  -- handler answered with success and that was stored, a later one of the seller with the same
  -- key, whatever its body, is answered with the same status and body, without the handler, and
  -- changes nothing.
  bypass_replays :
      (seller : ℕ) (again : Bool) (req later : Request) (s : State handler hash)
      → req.seller_id ≡ some seller
      → (seller == 0) ≡ false
      → later.seller_id ≡ some seller
      → later.key ≡ req.key
      → str_eq req.key "" ≡ false
      → is_write req.method ≡ true
      → is_write later.method ≡ true
      → get_cached bypass seller req.key s.keys ≡ none
      → is_success (handler req s.world).0.status ≡ true
      → let t = (serve handler hash bypass false true req s).1 in
        serve handler hash bypass false again later t
        ≡ (record { response = (handler req s.world).0; replayed = true }, t)
  bypass_replays seller again req later s who scoped who' key' keyed write write' new good =
      let first : serve handler hash bypass false true req s
          ≡ answer handler hash bypass true seller req none s =
        serves_as seller true req s who scoped keyed write
        ∙ ap (λ o. answer handler hash bypass true seller req o s) new in
      let t = (answer handler hash bypass true seller req none s).1 in
      let row : KeyRow = record {
        seller_id = seller;
        key = req.key;
        cached = (handler req s.world).0;
        body_hash = hash (handler req s.world).0.body;
      } in
      let held : get_cached bypass seller later.key t.keys ≡ some (handler req s.world).0 =
        ap (λ k. get_cached bypass seller k t.keys) key'
        ∙ ap (get_cached bypass seller req.key) (remembered seller req s good)
        ∙ kept_row seller req.key row s.keys refl refl new in
      let keyed' : str_eq later.key "" ≡ false = ap (λ k. str_eq k "") key' ∙ keyed in
      let second : serve handler hash bypass false again later t
          ≡ (record { response = (handler req s.world).0; replayed = true }, t) =
        serves_as seller again later t who' scoped keyed' write'
        ∙ ap (λ o. answer handler hash bypass again seller later o t) held in
      subst
        (λ (u : State handler hash).
          serve handler hash bypass false again later u
          ≡ (record { response = (handler req s.world).0; replayed = true }, u))
        (sym (ap (λ (x : Reply × State handler hash). x.1) first)) second
