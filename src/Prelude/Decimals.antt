-- ===== src/Prelude/Decimals.antt =====
-- `str(n)` and `int(s)` on natural numbers in decimal.
use Prim.Native.Nat.{ℕ, zero, suc, ◌+◌, ◌-◌, ◌*◌, ◌/◌, ◌%◌, ◌<◌}
use mathlib.Core.Path.{◌≡◌, refl, ap, ◌∙◌}
use mathlib.Core.Logic.{inl, inr}
use mathlib.Core.Bool.{Bool, true, false, ◌&&◌}
use mathlib.Core.List.{[], ◌∷◌}
use native.Mathlib.Omega.{arith}
use proto_trader.Prelude.Tests.{leb, ltb, if◌then◌else◌, Bool-cases}
use proto_trader.Prelude.Lists.{all}
use proto_trader.Prelude.Texts.{Text, is_empty}

abbrev digit : ℕ → ℕ
digit n = b'0' + n % 10

-- The digits of `n` in front of `rest`; a number below `fuel` needs no more steps than that.
unfoldable pub show_onto : ℕ → ℕ → Text → Text
show_onto zero n rest = rest
show_onto (suc fuel) n rest =
    let more = show_onto fuel (n / 10) (digit n ∷ rest) in if ltb n 10 then digit n ∷ rest else more

-- `str(n)`.
unfoldable pub show : ℕ → Text
unfolding show_onto
show n = show_onto (suc n) n []

-- `c.isdigit()` on ASCII.
abbrev pub is_digit : ℕ → Bool
is_digit c = leb b'0' c && leb c b'9'

-- `int(s)` of a text of digits, after the digits that `acc` stands for.
unfoldable pub read_onto : ℕ → Text → ℕ
read_onto acc [] = acc
read_onto acc (c ∷ s) = read_onto (acc * 10 + (c - b'0')) s

abbrev pub read : Text → ℕ
read = read_onto 0

show_onto_digits :
    (fuel n : ℕ) (rest : Text)
    → all is_digit rest ≡ true
    → all is_digit (show_onto fuel n rest) ≡ true
unfolding show_onto
show_onto_digits zero n rest h = h
show_onto_digits (suc fuel) n rest h = elim (Bool-cases (ltb n 10)) [
  | inl last ↦ rw last (ground (arith, h))
  | inr more ↦ rw more (show_onto_digits fuel (n / 10) (digit n ∷ rest) (ground (arith, h)))
]

pub all-is_digit-show : (n : ℕ) → all is_digit (show n) ≡ true
unfolding show
all-is_digit-show n = show_onto_digits (suc n) n [] refl

-- Reading what was written in front of `rest` reads `rest` after `n`.
read-show_onto :
    (fuel n : ℕ) (rest : Text) → n < fuel → read (show_onto fuel n rest) ≡ read_onto n rest
unfolding show_onto read_onto
read-show_onto zero n rest h = elim h [ ]
read-show_onto (suc fuel) n rest h = elim (Bool-cases (ltb n 10)) [
  | inl last ↦ rw last (ap (λ (k : ℕ). read_onto k rest) (ground (arith, last)))
  | inr more ↦ rw more (
      read-show_onto fuel (n / 10) (digit n ∷ rest) (ground (arith, more))
      ∙ ap (λ (k : ℕ). read_onto k rest) (omega arith))
]

pub read-show : (n : ℕ) → read (show n) ≡ n
unfolding show read_onto
read-show n = read-show_onto (suc n) n [] (omega arith)

show_onto-ne-nil :
    (fuel n : ℕ) (c : ℕ) (rest : Text)
    → (d : ℕ) × (s : Text) × (show_onto fuel n (c ∷ rest) ≡ d ∷ s)
unfolding show_onto
show_onto-ne-nil zero n c rest = (c, rest, refl)
show_onto-ne-nil (suc fuel) n c rest = elim (Bool-cases (ltb n 10)) [
  | inl last ↦ (digit n, c ∷ rest, rw last)
  | inr more ↦ rw more (show_onto-ne-nil fuel (n / 10) (digit n) (c ∷ rest))
]

pub is_empty-show : (n : ℕ) → is_empty (show n) ≡ false
unfolding show show_onto
is_empty-show n = elim (Bool-cases (ltb n 10)) [
  | inl last ↦ rw last refl
  | inr more ↦ let (d, s, e) = show_onto-ne-nil n (n / 10) (digit n) [] in rw more (ap is_empty e)
]
