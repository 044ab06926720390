-- ===== src/Discord/Turns/Recent.antt =====
-- surfaces/discord/turn_log.py: the recent turns of a log.
use proto_trader.Prelude.{
  ℕ, zero, suc, ◌-◌, ◌*◌, ◌≤◌, ◌≡◌, refl, sym, ap, subst, ◌∙◌, inl, inr, Text, Bool, true, false,
  not, List, [], ◌∷◌, ◌++◌, reverse, reverse-cons, append-nil, append_assoc, reverse-reverse, take,
  drop, length, keep, keep-keep, All, All-append, All-keep, leb, ◌==◌, sort_by, insert_by, arith,
  Bool-cases, length-append,
}
use proto_trader.Discord.Turns.{
  Turn, is_silent, record_turn, is_recent, newer, get_recent_turns, prune_older_than, is_older,
}

-- The last `n` elements, or all.
abbrev pub newest {ℓ} : {A : Type ℓ} → ℕ → List A → List A
newest n l = drop (length l - n) l

-- Each turn is no later than those behind it.
abbrev pub IsAscending : List Turn → Type 0
IsAscending [] = Unit
IsAscending (t ∷ l) = All (λ (s : Turn). leb t.ts s.ts ≡ true) l × IsAscending l

module _ {ℓ} {A : Type ℓ} where
  All-reverse {κ} : (P : A → Type κ) (l : List A) → All P l → All P (reverse l)
  All-reverse P [] h = tt
  All-reverse P (x ∷ l) (p, h) =
      subst (All P) (sym (reverse-cons x l))
        (All-append P (reverse l) (x ∷ []) (All-reverse P l h) (p, tt))

  length-reverse : (l : List A) → length (reverse l) ≡ length l
  length-reverse [] = refl
  length-reverse (x ∷ l) =
      ap length (reverse-cons x l)
      ∙ length-append (reverse l) (x ∷ [])
      ∙ (let e = length-reverse l in omega arith)

  take-append : (n : ℕ) (xs ys : List A) → n ≤ length xs → take n (xs ++ ys) ≡ take n xs
  take-append zero xs ys le = refl
  take-append (suc n) [] ys le = absurd (omega arith)
  take-append (suc n) (x ∷ xs) ys le =
      ap (λ (l : List A). x ∷ l) (take-append n xs ys (omega arith))

  take_all : (n : ℕ) (l : List A) → length l ≤ n → take n l ≡ l
  take_all zero [] le = refl
  take_all (suc n) [] le = refl
  take_all zero (x ∷ l) le = absurd (omega arith)
  take_all (suc n) (x ∷ l) le = ap (λ (l' : List A). x ∷ l') (take_all n l (omega arith))

  reverse-take : (n : ℕ) (l : List A) → reverse (take n (reverse l)) ≡ newest n l
  reverse-take zero l =
      sym (
        subst (λ k. drop k l ≡ []) (let e : length l ≡ length l - 0 = omega arith in e)
          (drop_all l))
    where
      drop_all : (l : List A) → drop (length l) l ≡ []
      drop_all [] = refl
      drop_all (x ∷ l) = drop_all l
  reverse-take (suc n) [] = drop_none (0 - suc n)
    where
      drop_none : (k : ℕ) → [] ≡ drop {A = A} k []
      drop_none zero = refl
      drop_none (suc k) = refl
  reverse-take (suc n) (x ∷ l) = elim (Bool-cases (leb (suc n) (length l))) [
    | inl inner ↦
        let e : length (x ∷ l) - suc n ≡ suc (length l - suc n) = ground (arith, inner) in
        subst (λ k. reverse (take (suc n) (reverse (x ∷ l))) ≡ drop k (x ∷ l)) (sym e)
          (ap (λ (r : List A). reverse (take (suc n) r)) (reverse-cons x l)
            ∙ ap reverse (
                take-append (suc n) (reverse l) (x ∷ [])
                  (let k = length-reverse l in ground (arith, inner, k)))
            ∙ reverse-take (suc n) l)
    | inr whole ↦
        let e : length (x ∷ l) - suc n ≡ 0 = ground (arith, whole) in
        subst (λ k. reverse (take (suc n) (reverse (x ∷ l))) ≡ drop k (x ∷ l)) (sym e)
          (ap reverse (
              take_all (suc n) (reverse (x ∷ l))
                (let k = length-reverse (x ∷ l) in ground (arith, whole, k)))
            ∙ reverse-reverse (x ∷ l))
  ]

sort_by-append :
    (t : Turn) (l : List Turn)
    → All (λ s. newer s t ≡ true) l
    → sort_by newer (l ++ t ∷ []) ≡ sort_by newer l ++ t ∷ []
unfolding sort_by insert_by
sort_by-append t [] h = refl
sort_by-append t (s ∷ l) (e, h) =
    ap (insert_by newer s) (sort_by-append t l h) ∙ insert_by-append (sort_by newer l)
  where
    insert_by-append :
        (l : List Turn) → insert_by newer s (l ++ t ∷ []) ≡ insert_by newer s l ++ t ∷ []
    insert_by-append [] = rw e refl
    insert_by-append (r ∷ l) = elim (Bool-cases (newer s r)) [
      | inl here ↦ rw here refl
      | inr later ↦ rw later (ap (λ (l' : List Turn). r ∷ l') (insert_by-append l))
    ]

sort_by-reverse : (l : List Turn) → IsAscending l → sort_by newer (reverse l) ≡ reverse l
unfolding sort_by
sort_by-reverse [] h = refl
sort_by-reverse (t ∷ l) (h, asc) =
    ap (sort_by newer) (reverse-cons t l)
    ∙ sort_by-append t (reverse l) (All-reverse (λ s. newer s t ≡ true) l h)
    ∙ ap (λ (l' : List Turn). l' ++ t ∷ []) (sort_by-reverse l asc)
    ∙ sym (reverse-cons t l)

keep-IsAscending : (p : Turn → Bool) (l : List Turn) → IsAscending l → IsAscending (keep p l)
keep-IsAscending p [] h = tt
keep-IsAscending p (t ∷ l) (h, asc) = elim (Bool-cases (p t)) [
  | inl kept ↦ rw kept (All-keep (λ s. leb t.ts s.ts ≡ true) p l h, keep-IsAscending p l asc)
  | inr away ↦ rw away (keep-IsAscending p l asc)
]

positive : (n : ℕ) → (suc n == 0) ≡ false
positive n = ground arith

get_recent_turns-newest :
    (c u : Text) (limit hours now : ℕ) (rows : List Turn)
    → IsAscending rows
    → get_recent_turns c u limit hours now rows ≡ newest limit (keep (is_recent c u hours now) rows)
unfolding get_recent_turns
get_recent_turns-newest c u zero hours now rows asc =
    reverse-take 0 (keep (is_recent c u hours now) rows)
get_recent_turns-newest c u (suc n) hours now rows asc =
    rw (positive n) refl
    ∙ ap (λ (l : List Turn). reverse (take (suc n) l))
        (sort_by-reverse _ (keep-IsAscending (is_recent c u hours now) rows asc))
    ∙ reverse-take (suc n) (keep (is_recent c u hours now) rows)

unfoldable pub record_all : List Turn → List Turn → List Turn
record_all [] rows = rows
record_all (t ∷ turns) rows = record_all turns (record_turn t rows)

record_all-keep :
    (turns rows : List Turn) → record_all turns rows ≡ rows ++ keep (λ t. not (is_silent t)) turns
unfolding record_all record_turn
record_all-keep [] rows = sym (append-nil rows)
record_all-keep (t ∷ turns) rows = elim (Bool-cases (is_silent t)) [
  | inl blank ↦ rw (blank, record_all-keep turns rows) refl
  | inr said ↦ rw (said, record_all-keep turns (rows ++ t ∷ [])) (append_assoc rows (t ∷ []) _)
]

-- What is asked for after turns were logged in the order of their times, and the log then pruned, are
-- the newest turns of the channel and user within the hours, oldest first and at most as many as the
-- limit, without the blank ones: pruning takes none of them if it keeps as many days.
pub get_recent_turns-record_all :
    (c u : Text) (limit hours days now before : ℕ) (turns : List Turn)
    → IsAscending turns
    → hours ≤ 24 * days
    → before ≤ now
    → get_recent_turns c u limit hours now (prune_older_than days before (record_all turns [])).0
      ≡ newest limit (keep (is_recent c u hours now) (keep (λ t. not (is_silent t)) turns))
unfolding prune_older_than
get_recent_turns-record_all c u limit hours days now before turns asc wide le =
    ap
      (λ (rows : List Turn).
        get_recent_turns c u limit hours now (keep (λ t. not (is_older days before t)) rows))
      (record_all-keep turns [])
    ∙ get_recent_turns-newest c u limit hours now _ (
        keep-IsAscending (λ t. not (is_older days before t)) said
          (keep-IsAscending (λ t. not (is_silent t)) turns asc))
    ∙ ap (newest limit) (
        keep-keep (λ t. not (is_older days before t)) (is_recent c u hours now)
          (λ t h. ground (arith, h, wide, le)) said)
  where
    said : List Turn
    said = keep (λ t. not (is_silent t)) turns
