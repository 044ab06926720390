-- ===== src/Tags.antt =====
-- Searches for literal tags without case, as the program's regular expressions do on ASCII.
use proto_trader.Prelude.{
  ℕ, Text, lower, starts_with, Bool, Option, none, some, [], ◌∷◌, if◌then◌else◌, length, drop,
}

-- The text starts with the tag, which is written in lower case.
unfoldable pub starts_ci : Text → Text → Bool
unfolding lower starts_with
starts_ci s tag = starts_with (lower s) tag

abbrev before_cons : ℕ → Option (Text × Text) → Option (Text × Text)
before_cons c none = none
before_cons c (some (before, after)) = some (c ∷ before, after)

-- What stands before and after the first occurrence of the tag, which is not empty.
unfoldable pub cut : Text → Text → Option (Text × Text)
unfolding starts_ci
cut tag [] = none
cut tag (c ∷ s) =
    let rest = before_cons c (cut tag s) in
    if starts_ci (c ∷ s) tag then some ([], drop (length tag) (c ∷ s)) else rest
