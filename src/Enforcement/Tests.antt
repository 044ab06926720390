-- ===== src/Enforcement/Tests.antt =====
-- Runs of the tool-call limiter on small inputs.
use proto_trader.Prelude.{
  ℕ, ◌≤◌, ◌≡◌, refl, ◌&&◌, Text, codes, true, false, List, [], ◌∷◌, arith, count, leb, ltb, Dict,
  lookup, insert, text_eq, some,
}
use proto_trader.Window.{admitted, decide_all}
use proto_trader.Enforcement.{Limit, init, window_of, inside, check_limit, check, check_all, reset}
use proto_trader.Enforcement.Rate.{
  times_of, decisions_of, check_all-eq-decide_all, check_all-le-max_calls,
}

abbrev search_limit : Limit
search_limit = record { max_calls = 2; window = 60 }

abbrev limits : Dict Limit
limits = (codes "web_search", search_limit) ∷ []

abbrev calls : List (Text × ℕ)
calls =
    (codes "web_search", 0)
    ∷ (codes "current_time", 1)
    ∷ (codes "web_search", 10)
    ∷ (codes "web_search", 59)
    ∷ (codes "web_search", 60)
    ∷ []

check_all_runs : check_all (init limits) calls ≡ true ∷ true ∷ true ∷ false ∷ true ∷ []
unfolding check_all check check_limit inside window_of init lookup insert text_eq
check_all_runs = refl

reset_runs : (reset (some []) (init limits)).windows ≡ []
unfolding reset init
reset_runs = refl

check_all-eq-decide_all_example :
    decisions_of (codes "web_search") calls (check_all (init limits) calls)
    ≡ decide_all (inside search_limit) 2 [] (times_of (codes "web_search") calls)
unfolding lookup text_eq
check_all-eq-decide_all_example =
    check_all-eq-decide_all (codes "web_search") search_limit limits calls refl (omega arith)

check_all-le-max_calls_example :
    count
      (λ t. ltb 5 t && leb t 65)
      (admitted
        (times_of (codes "web_search") calls)
        (decisions_of (codes "web_search") calls (check_all (init limits) calls)))
    ≤ 2
unfolding lookup text_eq
check_all-le-max_calls_example =
    check_all-le-max_calls (codes "web_search") search_limit limits calls 5 refl (omega arith)
