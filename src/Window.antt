-- ===== src/Window.antt =====
-- The specification that the two sliding-window limiters share: a limiter that keeps the whole
-- history of admitted calls and counts those that are still inside the window.
use proto_trader.Prelude.{
  ℕ, ◌+◌, ◌≤◌, ◌≡◌, inl, inr, Bool, true, List, [], ◌∷◌, arith, ltb, Bool-cases, if◌then◌else◌,
  count, count_mono,
}

-- The times never go back, starting at `last`.
abbrev pub Ascends : ℕ → List ℕ → Type 0
Ascends last [] = Unit
Ascends last (t ∷ ts) = (last ≤ t) × Ascends t ts

-- The times whose call was admitted.
abbrev pub admitted : List ℕ → List Bool → List ℕ
admitted [] bs = []
admitted (t ∷ ts) [] = []
admitted (t ∷ ts) (b ∷ bs) = if b then t ∷ admitted ts bs else admitted ts bs

module _ (inside : ℕ → ℕ → Bool) (cap : ℕ) where
  -- The decisions on calls at the given times; `history` holds the admitted calls, newest first.
  unfoldable pub decide_all : List ℕ → List ℕ → List Bool
  decide_all history [] = []
  decide_all history (t ∷ ts) =
      let ok = ltb (count (inside t) history) cap in
      ok ∷ decide_all (if ok then t ∷ history else history) ts

  -- No admitted call sees more than `cap` admitted calls in its window, itself included.
  abbrev IsSpaced : List ℕ → Type 0
  IsSpaced [] = Unit
  IsSpaced (h ∷ hs) = (count (inside h) (h ∷ hs) ≤ cap) × IsSpaced hs

  module _ (span : ℕ → Bool)
      (fits : (h t : ℕ) → span h ≡ true → span t ≡ true → inside h t ≡ true) where
    count-le-cap_of_IsSpaced : (hs : List ℕ) → IsSpaced hs → count span hs ≤ cap
    count-le-cap_of_IsSpaced [] s = omega arith
    count-le-cap_of_IsSpaced (h ∷ hs) s = ground (
      arith,
      count-le-cap_of_IsSpaced hs s.1,
      λ (p : span h ≡ true). count_mono span (inside h) (λ t. fits h t p) (h ∷ hs),
    )

    count-decide_all-le :
        (history ts : List ℕ)
        → IsSpaced history
        → count span history + count span (admitted ts (decide_all history ts)) ≤ cap
    unfolding decide_all
    count-decide_all-le history [] s = omega (arith, count-le-cap_of_IsSpaced history s)
    count-decide_all-le history (t ∷ ts) s =
        elim (Bool-cases (ltb (count (inside t) history) cap)) [
          | inl ok ↦
              rw ok
                (ground (arith, ok, count-decide_all-le (t ∷ history) ts (ground (arith, ok), s)))
          | inr full ↦ rw full (count-decide_all-le history ts s)
        ]

    -- Any span of time whose instants see one another holds at most `cap` admitted calls.
    pub count-admitted-le : (ts : List ℕ) → count span (admitted ts (decide_all [] ts)) ≤ cap
    count-admitted-le ts = omega (arith, count-decide_all-le [] ts tt)
