-- ===== src/Telemetry/Percentile.antt =====
-- telemetry_store.py: what a percentile is.
use proto_trader.Prelude.{
  ℕ, zero, suc, ◌+◌, ◌*◌, ◌≤◌, ◌<◌, ◌≡◌, refl, true, List, [], ◌∷◌, length, count, ltb, leb, arith,
  IsOrdered, All,
}
use native.Mathlib.Nat.{mul-le-mul_right}
use proto_trader.Telemetry.{round_half_even, nth, rank_of, percentile}

-- Within a half of the fraction.
round_half_even-near :
    (a : ℕ) → (200 * round_half_even a 200 ≤ a + 100) × (a ≤ 200 * round_half_even a 200 + 100)
unfolding round_half_even
round_half_even-near a = ground arith

-- The rank is within the list, and no more than a place off the share `pct` of it.
rank_of-bounds :
    (pct n : ℕ)
    → 1 ≤ n
    → pct * n ≤ 100 * n
    → (rank_of pct n < n) × (100 * rank_of pct n ≤ pct * n) × (pct * n ≤ 100 * suc (rank_of pct n))
unfolding rank_of
rank_of-bounds pct n one le = let r = round_half_even-near (2 * pct * n + 100) in omega arith

-- No element of an ordered list is before its head.
head_first : (v : ℕ) (vs : List ℕ) → IsOrdered leb (v ∷ vs) → All (λ w. leb v w ≡ true) vs
head_first v [] o = tt
head_first v (w ∷ []) o = (o.0, tt)
head_first v (w ∷ x ∷ vs) (le, o) =
    (le, (ground (arith, le, o.0), (head_first v (x ∷ vs) (ground (arith, le, o.0), o.1)).1))

below_none : (v : ℕ) (vs : List ℕ) → All (λ w. leb v w ≡ true) vs → count (λ w. ltb w v) vs ≡ 0
below_none v [] h = refl
below_none v (w ∷ vs) (le, h) = ground (arith, le, below_none v vs h)

nth_above :
    (v k : ℕ) (vs : List ℕ) → k < length vs → All (λ w. leb v w ≡ true) vs → leb v (nth k vs) ≡ true
nth_above v k [] lt h = absurd (omega arith)
nth_above v zero (w ∷ vs) lt (le, h) = le
nth_above v (suc k) (w ∷ vs) lt (le, h) = nth_above v k vs (omega arith) h

IsOrdered-tail : (v : ℕ) (vs : List ℕ) → IsOrdered leb (v ∷ vs) → IsOrdered leb vs
IsOrdered-tail v [] o = tt
IsOrdered-tail v (w ∷ vs) o = o.1

nth-count :
    (k : ℕ) (l : List ℕ)
    → k < length l
    → IsOrdered leb l
    → (count (λ w. ltb w (nth k l)) l ≤ k) × (suc k ≤ count (λ w. leb w (nth k l)) l)
nth-count k [] lt o = absurd (omega arith)
nth-count zero (v ∷ vs) lt o = ground (arith, below_none v vs (head_first v vs o))
nth-count (suc k) (v ∷ vs) lt o =
    let rest = nth-count k vs (omega arith) (IsOrdered-tail v vs o) in
    ground (arith, rest, nth_above v k vs (omega arith) (head_first v vs o))

-- The percentile of an ordered list that is not empty divides it at the share: at most `pct` percent of
-- its values are below it, and at least `pct` percent are not above it.
pub percentile-divides :
    (v : ℕ) (vs : List ℕ) (pct : ℕ)
    → IsOrdered leb (v ∷ vs)
    → pct ≤ 100
    → (100 * count (λ w. ltb w (percentile (v ∷ vs) pct)) (v ∷ vs) ≤ pct * length (v ∷ vs))
      × (pct * length (v ∷ vs) ≤ 100 * count (λ w. leb w (percentile (v ∷ vs) pct)) (v ∷ vs))
unfolding percentile
percentile-divides v vs pct o le =
    let (within, low, high) =
      rank_of-bounds pct (length (v ∷ vs)) (omega arith) (mul-le-mul_right (length (v ∷ vs)) le) in
    let c = nth-count (rank_of pct (length (v ∷ vs))) (v ∷ vs) within o in
    (omega arith, omega arith)
