-- ===== src/Prelude/Texts.antt =====
-- Python's `str` as a list of code points, with the operations of `str` that the program uses.
use Prim.Native.Nat.{ℕ, ◌+◌}
use Prim.Native.Char.{code}
use Prim.Native.String.{String}
use mathlib.Core.Path.{◌≡◌, refl}
use mathlib.Core.Logic.{◌↔◌, ◌⊎◌, inl, inr}
use mathlib.Core.Bool.{Bool, true, false, ◌&&◌, ◌||◌}
use mathlib.Core.List.{List, [], ◌∷◌, ◌++◌, map, reverse}
use native.Mathlib.Omega.{arith}
use proto_trader.Prelude.Lists.{drop, length}
use proto_trader.Prelude.Tests.{◌==◌, ltb, leb, if◌then◌else◌}

abbrev pub Text : Type 0
Text = List ℕ

abbrev pub codes : String → Text
codes String.[] = []
codes (String.◌∷◌ c s) = code c ∷ codes s

-- `s == t`.
unfoldable pub text_eq : Text → Text → Bool
text_eq [] [] = true
text_eq [] (d ∷ t) = false
text_eq (c ∷ s) [] = false
text_eq (c ∷ s) (d ∷ t) = (c == d) && text_eq s t

text_eq→eq : (s t : Text) → text_eq s t ≡ true → s ≡ t
unfolding text_eq
text_eq→eq [] [] h = refl
text_eq→eq [] (d ∷ t) h = cc
text_eq→eq (c ∷ s) [] h = cc
text_eq→eq (c ∷ s) (d ∷ t) h = ground (arith, text_eq→eq s t)

pub text_eq_refl : (s : Text) → text_eq s s ≡ true
unfolding text_eq
text_eq_refl [] = refl
text_eq_refl (c ∷ s) = ground (arith, text_eq_refl s)

pub text_eq_iff : (s t : Text) → (text_eq s t ≡ true) ↔ (s ≡ t)
text_eq_iff s t = (text_eq→eq s t, λ e. rw e (text_eq_refl t))

-- `not s`.
abbrev pub is_empty : Text → Bool
is_empty [] = true
is_empty (c ∷ s) = false

-- The ASCII white space of `str.strip`.
unfoldable pub is_space : ℕ → Bool
is_space c = (leb 9 c && leb c 13) || (leb 28 c && leb c 32)

unfoldable pub lstrip : Text → Text
unfolding is_space
lstrip [] = []
lstrip (c ∷ s) = if is_space c then lstrip s else c ∷ s

-- `s.strip()`.
unfoldable pub strip : Text → Text
unfolding lstrip
strip s = reverse (lstrip (reverse (lstrip s)))

-- `s.lower()` on ASCII.
unfoldable pub lower : Text → Text
lower = map (λ c. if leb b'A' c && leb c b'Z' then c + 32 else c)

-- `s.startswith(p)`.
unfoldable pub starts_with : Text → Text → Bool
starts_with s [] = true
starts_with [] (d ∷ p) = false
starts_with (c ∷ s) (d ∷ p) = (c == d) && starts_with s p

-- `s in words`.
unfoldable pub mem_text : Text → List Text → Bool
unfolding text_eq
mem_text s [] = false
mem_text s (w ∷ ws) = text_eq s w || mem_text s ws

abbrev push_head : ℕ → List Text → List Text
push_head c [] = (c ∷ []) ∷ []
push_head c (w ∷ ws) = (c ∷ w) ∷ ws

-- The text is one of the words.
abbrev pub Has : Text → List Text → Type 0
Has s [] = ⊥
Has s (w ∷ ws) = (s ≡ w) ⊎ Has s ws

-- `s.split(d)` for a separator of one character.
unfoldable pub split : ℕ → Text → List Text
split d [] = [] ∷ []
split d (c ∷ s) = let rest = split d s in if c == d then [] ∷ rest else push_head c rest

-- `s.endswith(p)`.
unfoldable pub ends_with : Text → Text → Bool
unfolding starts_with
ends_with s p = starts_with (reverse s) (reverse p)

pub starts_with-append : (p rest : Text) → starts_with (p ++ rest) p ≡ true
unfolding starts_with
starts_with-append [] rest = refl
starts_with-append (d ∷ p) rest = ground (arith, starts_with-append p rest)

-- A text that starts with `p` is `p` and what is left when `p` is dropped.
pub starts_with→append : (s p : Text) → starts_with s p ≡ true → s ≡ p ++ drop (length p) s
unfolding starts_with
starts_with→append s [] h = refl
starts_with→append [] (d ∷ p) h = cc
starts_with→append (c ∷ s) (d ∷ p) h = ground (arith, starts_with→append s p)

pub mem_text_iff : (s : Text) (ws : List Text) → (mem_text s ws ≡ true) ↔ Has s ws
unfolding mem_text
mem_text_iff s [] = (λ h. cc, λ h. absurd h)
mem_text_iff s (w ∷ ws) = ground (arith, text_eq_iff s w, mem_text_iff s ws)

pub append-Has : (s : Text) (ws vs : List Text) → Has s ws ⊎ Has s vs → Has s (ws ++ vs)
append-Has s [] vs (inl h) = absurd h
append-Has s [] vs (inr h) = h
append-Has s (w ∷ ws) vs (inl (inl e)) = inl e
append-Has s (w ∷ ws) vs (inl (inr h)) = inr (append-Has s ws vs (inl h))
append-Has s (w ∷ ws) vs (inr h) = inr (append-Has s ws vs (inr h))

-- The order of SQLite and of Python: a test that the first text comes before the second.
unfoldable pub text_lt : Text → Text → Bool
text_lt [] [] = false
text_lt [] (d ∷ t) = true
text_lt (c ∷ s) [] = false
text_lt (c ∷ s) (d ∷ t) = ltb c d || ((c == d) && text_lt s t)
