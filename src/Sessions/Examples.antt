-- ===== src/Sessions/Examples.antt =====
-- One session, revoked; the theorem applied to it, and a request that a Revoke overtakes.
use pikship.Prelude.{ℕ, String, ◌≡◌, refl, true, false, Option, none, some, List, []}
use pikship.Prelude.Table.{select}
use pikship.Sessions.Service.{
  User, State, is_request, authenticate, read_session, finish, touch_session, issue_credentials,
  revoke,
}
use pikship.Sessions.Cache.{get, set, drop_hash}
use pikship.Sessions.Revoked.{is_accepted, accepts, here, touches, reads, revoked_stays_refused}

abbrev same : String → String
same s = s

abbrev users : ℕ → Option User
users n = some (record { kind = "seller"; status = "active" })

abbrev roles : ℕ → Option ℕ → List String
roles user seller = []

abbrev issued : State
issued =
    (issue_credentials same users roles false 10 100 "tok" 5 none
      (record { cache = []; sessions = []; loads = [] })).1

abbrev start : State
start = (authenticate same users roles false 20 1 "tok" issued).1

-- The session was in use, and in the cache.
was_accepted : is_accepted (authenticate same users roles false 30 2 "tok" start).0 ≡ true
unfolding authenticate read_session finish issue_credentials get set
was_accepted = refl

abbrev later_on : State
later_on =
    (read_session same users roles false 41 3 "tok" (
      touch_session same users roles 40 100 "tok"
        (revoke same users roles false 35 "tok" start).1)).1

revoked_stays_refused_example :
    (is_accepted (read_session same users roles false 42 3 "tok" later_on).0 ≡ false)
    × (accepts same users roles "tok" 42 3 (select (is_request 3) later_on.loads) later_on ≡ false)
unfolding authenticate read_session finish issue_credentials revoke get set
revoked_stays_refused_example =
    revoked_stays_refused same users roles false false 35 42 3 "tok" start later_on refl refl
      (reads false 41 3 "tok" (touches 40 100 "tok" here))

-- A request that has read its session before a Revoke, and goes on after it, puts the token back in
-- the cache: it is accepted, and the next request too.
abbrev overtaken : State
overtaken =
    (finish same users roles 36 1
      (revoke same users roles false 35 "tok"
        (read_session same users roles false 34 1 "tok" issued).1).1).1

still_accepted : is_accepted (authenticate same users roles false 37 2 "tok" overtaken).0 ≡ true
unfolding authenticate read_session finish issue_credentials revoke get set drop_hash
still_accepted = refl

-- Where the UPDATE of a Revoke fails, the token stays accepted.
revoke_failed :
    is_accepted
      (authenticate same users roles false 37 2 "tok"
        (revoke same users roles true 35 "tok" start).1).0
    ≡ true
unfolding authenticate read_session finish issue_credentials revoke get set
revoke_failed = refl
