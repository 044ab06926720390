-- ===== src/Knowledge/Tests.antt =====
-- knowledge/hybrid_store.py: the breaker on small inputs.
use proto_trader.Prelude.{
  ℕ, ◌+◌, ◌*◌, ◌≤◌, ◌≡◌, refl, Text, codes, max, Option, none, some, List, [], ◌∷◌, leb,
  if◌then◌else◌, arith,
}
use proto_trader.Knowledge.{new_breaker, record_failure, record_success, embed, calls_of}
use proto_trader.Knowledge.Outage.{calls_of_outage}

abbrev down : Text → ℕ → Option ℕ
down text now = none

-- A function that is down before time 400.
abbrev back : Text → ℕ → Option ℕ
back text now = if leb 400 now then some 7 else none

abbrev texts : List (Text × ℕ)
texts = (codes "a", 0) ∷ (codes "b", 1) ∷ (codes "c", 2) ∷ (codes "d", 301) ∷ (codes "e", 302) ∷ []

program : Unit {0}
unfolding new_breaker record_failure record_success embed calls_of
program = tt

breaker_runs :
    (calls_of down texts (new_breaker 2 300) ≡ 3)
    × ((embed back (codes "f") 401 (new_breaker 2 300)).1 ≡ some 7)
    × ((embed back
          (codes "f")
          401
          (record (new_breaker 2 300) { failures = 5; open_until = 402 })).1
        ≡ none)
    × ((embed back (codes "f") 401 (record (new_breaker 2 300) { failures = 1 })).0
        ≡ new_breaker 2 300)
unfolding program
breaker_runs = (refl, refl, refl, refl)

calls_of_outage_example : 300 * calls_of down texts (new_breaker 2 300) + 0 ≤ 300 * max 1 2 + 302
calls_of_outage_example = calls_of_outage down 2 300 0 302 texts (
  omega arith,
  refl,
  (omega arith, refl, (omega arith, refl, (omega arith, refl, (omega arith, refl, (omega arith))))),
)
