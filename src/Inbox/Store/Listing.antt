-- ===== src/Inbox/Store/Listing.antt =====
-- inbox/store.py: what `list` and `pending_count` return.
use mathlib.Core.List.{Perm}
use mathlib.Core.List.Perm
use proto_trader.Prelude.{
  ℕ, suc, inl, inr, sym, All, All-sort_by, subst, zero, not, drop, ◌++◌, append_assoc, Bool-cases,
  ◌≡◌, ◌∙◌, refl, ap, Text, Bool, false, List, [], ◌∷◌, arith, keep, count, take, length,
  length-take, length-keep, max, min, sort_by, sort_by-perm, sort_by-IsOrdered, insert_by,
}
use proto_trader.Inbox.Store.Shows.{Shown, InOrder, before_total, IsOrdered→InOrder, matches_iff}
use proto_trader.Inbox.Store.{Item, InboxStore, before, matches, list, pending_count}

take-drop : (n : ℕ) (rows : List Item) → take n rows ++ drop n rows ≡ rows
take-drop zero rows = refl
take-drop (suc n) [] = refl
take-drop (suc n) (r ∷ rows) = rw (take-drop n rows) refl

middle : (x : Item) (xs ys : List Item) → Perm (xs ++ x ∷ ys) (x ∷ (xs ++ ys))
middle x [] ys = Perm.refl _
middle x (y ∷ xs) ys = Perm.trans (Perm.cons y (middle x xs ys)) (Perm.swap x y (xs ++ ys))

keep_parts :
    (p : Item → Bool) (rows : List Item)
    → Perm (keep p rows ++ keep (λ item. not (p item)) rows) rows
keep_parts p [] = Perm.refl []
keep_parts p (r ∷ rows) = elim (Bool-cases (p r)) [
  | inl e ↦ rw e (Perm.cons r (keep_parts p rows))
  | inr n ↦ rw n (
      Perm.trans (middle r (keep p rows) (keep (λ item. not (p item)) rows))
        (Perm.cons r (keep_parts p rows)))
]

module _ (floor : Text) (include_delivered : Bool) where
  abbrev shows : Item → Bool
  shows = matches floor include_delivered

  All-Shown : (rows : List Item) → All (Shown floor include_delivered) (keep shows rows)
  All-Shown [] = tt
  All-Shown (r ∷ rows) = elim (Bool-cases (matches floor include_delivered r)) [
    | inl e ↦ rw e ((matches_iff floor include_delivered r).0 e, All-Shown rows)
    | inr n ↦ rw n (All-Shown rows)
  ]

  All-not-Shown :
      (rows : List Item)
      → All (λ item. ¬ (Shown floor include_delivered item)) (keep (λ item. not (shows item)) rows)
  All-not-Shown [] = tt
  All-not-Shown (r ∷ rows) = elim (Bool-cases (matches floor include_delivered r)) [
    | inl e ↦ rw e (All-not-Shown rows)
    | inr n ↦ rw n ((λ h. cc (n, (matches_iff floor include_delivered r).1 h)), All-not-Shown rows)
  ]

  -- The rows of the table are those that `list` returns, the ones it left off for the limit, and the
  -- hidden ones, each as often as the table holds it. Shown are the rows with a tier that the floor
  -- admits (only `now` for the floor `now`, every tier for `later`, `now` and `next` otherwise) that
  -- are not delivered, unless delivered rows are asked for; no hidden row is one of these. Of the
  -- shown ones, those returned stand first, and all stand in order: `now` before `next` before
  -- `later`, and in a tier no row stands behind a younger one. As many rows are returned as are
  -- shown, or `limit` (at least one) if that is less.
  pub list-Shown :
      (limit : ℕ) (s : InboxStore)
      → (rest : List Item) × (hidden : List Item) × Perm
          (list floor include_delivered limit s ++ (rest ++ hidden))
          s.rows
        × All (Shown floor include_delivered) (list floor include_delivered limit s ++ rest)
        × All (λ item. ¬ (Shown floor include_delivered item)) hidden
        × InOrder (list floor include_delivered limit s ++ rest)
        × (length (list floor include_delivered limit s)
            ≡ min (max 1 limit) (length (list floor include_delivered limit s ++ rest)))
  unfolding list
  list-Shown limit s =
      let found = keep shows s.rows in
      let hidden = keep (λ item. not (shows item)) s.rows in
      let sorted = sort_by before found in
      let n = max 1 limit in
      let parts : sorted ≡ take n sorted ++ drop n sorted = sym (take-drop n sorted) in
      (
        drop n sorted,
        hidden,
        subst (λ (rows : List Item). Perm rows s.rows)
            (ap (λ (rows : List Item). rows ++ hidden) parts
              ∙ append_assoc (take n sorted) (drop n sorted) hidden)
            (Perm.trans (Perm.append_right hidden (sort_by-perm before found))
              (keep_parts shows s.rows)),
        subst (All (Shown floor include_delivered)) parts
            (All-sort_by before (Shown floor include_delivered) found (All-Shown s.rows)),
        All-not-Shown s.rows,
        subst InOrder parts
            (IsOrdered→InOrder sorted (sort_by-IsOrdered before before_total found)),
        length-take n sorted ∙ ap (λ (rows : List Item). min n (length rows)) parts,
      )

length-insert_by : (x : Item) (l : List Item) → length (insert_by before x l) ≡ suc (length l)
unfolding insert_by
length-insert_by x [] = refl
length-insert_by x (y ∷ l) = ground (arith, length-insert_by x l)

length-sort_by : (l : List Item) → length (sort_by before l) ≡ length l
unfolding sort_by
length-sort_by [] = refl
length-sort_by (x ∷ l) = length-insert_by x (sort_by before l) ∙ ap suc (length-sort_by l)

-- `pending_count` is the number of undelivered rows at the floor, or a thousand where there are more.
pending_count-eq-min :
    (floor : Text) (s : InboxStore)
    → pending_count floor s ≡ min 1000 (count (matches floor false) s.rows)
unfolding pending_count list
pending_count-eq-min floor s =
    let found = keep (matches floor false) s.rows in
    omega (
      arith,
      length-take 1000 (sort_by before found),
      length-sort_by found,
      length-keep (matches floor false) s.rows,
    )
