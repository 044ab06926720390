-- ===== src/Inbox/Storm/Tests.antt =====
-- Runs of the anti-storm guard on small inputs.
use proto_trader.Prelude.{ℕ, ◌≡◌, refl, true, false, List, [], ◌∷◌, arith}
use proto_trader.Window.{decide_all}
use proto_trader.Inbox.Storm.{init, expire, allow, allow_all}
use proto_trader.Inbox.Storm.Rate.{recent, allow_all-eq-decide_all}

abbrev posts : List ℕ
posts = 0 ∷ 10 ∷ 60 ∷ 61 ∷ 70 ∷ 71 ∷ []

allow_all_runs : allow_all (init 2 60) posts ≡ true ∷ true ∷ false ∷ true ∷ false ∷ true ∷ []
unfolding allow_all allow expire init
allow_all_runs = refl

allow_all-eq-decide_all_example : allow_all (init 2 60) posts ≡ decide_all (recent 60) 2 [] posts
allow_all-eq-decide_all_example = allow_all-eq-decide_all 2 60 posts (omega arith)
