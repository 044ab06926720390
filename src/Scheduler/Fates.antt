-- ===== src/Scheduler/Fates.antt =====
-- scheduler/local.py: what settling the due or stale jobs does to each row of the table.
use proto_trader.Prelude.{
  ℕ, ◌≡◌, refl, inl, inr, ◌∙◌, sym, Text, text_eq, text_eq_iff, text_eq_refl, Bool, true, false,
  ◌&&◌, Option, none, some, List, [], ◌∷◌, ◌++◌, append-nil, append_assoc, keep, any, All, arith,
  Bool-cases, sort_by, insert_by, subst, if◌then◌else◌,
}
use proto_trader.Scheduler.{Job, is_cron, delete_id, update_id}
use proto_trader.Scheduler.Rows.{Rolls, Distinct, any-insert_by}

-- The rows that come from each row of a table, in its order.
abbrev pub each : (Job → List Job) → List Job → List Job
each f [] = []
each f (r ∷ rows) = f r ++ each f rows

pub each-cong :
    (f g : Job → List Job) (rows : List Job) → All (λ r. f r ≡ g r) rows → each f rows ≡ each g rows
each-cong f g [] h = refl
each-cong f g (r ∷ rows) (e, h) = rw (e, each-cong f g rows h) refl

pub each-ext :
    (f g : Job → List Job) (rows : List Job) → ((r : Job) → f r ≡ g r) → each f rows ≡ each g rows
each-ext f g [] h = refl
each-ext f g (r ∷ rows) h = rw (h r, each-ext f g rows h) refl

each-append : (f : Job → List Job) (xs ys : List Job) → each f (xs ++ ys) ≡ each f xs ++ each f ys
each-append f [] ys = refl
each-append f (x ∷ xs) ys =
    rw (each-append f xs ys) (sym (append_assoc (f x) (each f xs) (each f ys)))

pub each-each :
    (f g : Job → List Job) (rows : List Job) → each g (each f rows) ≡ each (λ r. each g (f r)) rows
each-each f g [] = refl
each-each f g (r ∷ rows) = each-append g (f r) (each f rows) ∙ rw (each-each f g rows) refl

pub each-one : (rows : List Job) → each (λ r. r ∷ []) rows ≡ rows
each-one [] = refl
each-one (r ∷ rows) = rw (each-one rows) refl

pub delete_id-each :
    (id : Text) (rows : List Job)
    → delete_id id rows ≡ each (λ r. if text_eq id r.id then [] else r ∷ []) rows
unfolding delete_id
delete_id-each id [] = refl
delete_id-each id (r ∷ rows) = ground (arith, delete_id-each id rows)

-- A row moved to its next time, with its last fire if there is a new one.
abbrev pub moved : ℕ → Option ℕ → Job → Job
moved next last r = record r {
  next_fire = next;
  last_fire = elim last [ none ↦ r.last_fire | some t ↦ some t ];
}

pub update_id-each :
    (id : Text) (next : ℕ) (last : Option ℕ) (rows : List Job)
    → update_id id next last rows
      ≡ each (λ r. if text_eq id r.id then moved next last r ∷ [] else r ∷ []) rows
unfolding update_id
update_id-each id next last [] = refl
update_id-each id next last (r ∷ rows) = elim (Bool-cases (text_eq id r.id)) [
  | inl same ↦ rw (same, update_id-each id next last rows) refl
  | inr other ↦ rw (other, update_id-each id next last rows) refl
]

Distinct-insert_by :
    (le : Job → Job → Bool) (j : Job) (rows : List Job)
    → any (λ r. text_eq j.id r.id) rows ≡ false
    → Distinct rows
    → Distinct (insert_by le j rows)
unfolding insert_by
Distinct-insert_by le j [] new d = (refl, tt)
Distinct-insert_by le j (r ∷ rows) new d = elim (Bool-cases (le j r)) [
  | inl before ↦ rw before (new, d)
  | inr after ↦ rw after (
    ground (
      arith,
      any-insert_by (λ x. text_eq r.id x.id) le j rows,
      d.0,
      new,
      text_eq_iff r.id j.id,
      text_eq_iff j.id r.id,
    ),
    Distinct-insert_by le j rows (ground (arith, new)) d.1,
  )
]

any-sorted :
    (p : Job → Bool) (le : Job → Job → Bool) (rows : List Job)
    → any p rows ≡ false
    → any p (sort_by le rows) ≡ false
unfolding sort_by
any-sorted p le [] h = refl
any-sorted p le (r ∷ rows) h =
    ground (arith, any-insert_by p le r (sort_by le rows), any-sorted p le rows, h)

pub Distinct-sort_by :
    (le : Job → Job → Bool) (rows : List Job) → Distinct rows → Distinct (sort_by le rows)
unfolding sort_by
Distinct-sort_by le [] d = tt
Distinct-sort_by le (r ∷ rows) (new, d) =
    Distinct-insert_by le r (sort_by le rows) (any-sorted (λ x. text_eq r.id x.id) le rows new)
      (Distinct-sort_by le rows d)

any-kept : (p q : Job → Bool) (rows : List Job) → any p rows ≡ false → any p (keep q rows) ≡ false
any-kept p q [] h = refl
any-kept p q (r ∷ rows) h = ground (arith, any-kept p q rows, h)

pub Distinct-keep : (p : Job → Bool) (rows : List Job) → Distinct rows → Distinct (keep p rows)
Distinct-keep p [] d = tt
Distinct-keep p (r ∷ rows) (new, d) = elim (Bool-cases (p r)) [
  | inl e ↦ rw e (any-kept (λ x. text_eq r.id x.id) p rows new, Distinct-keep p rows d)
  | inr n ↦ rw n (Distinct-keep p rows d)
]

-- The rows of a list with the id of a row are that row.
abbrev pub Owns : List Job → Job → Type 0
Owns js r = All (λ j. text_eq j.id r.id ≡ true → j ≡ r) js

not_there : (r : Job) (rows : List Job) → any (λ x. text_eq r.id x.id) rows ≡ false → Owns rows r
not_there r [] h = tt
not_there r (j ∷ rows) h = (
  λ e. absurd (ground (arith, h, e, text_eq_iff j.id r.id, text_eq_iff r.id j.id)),
  not_there r rows (ground (arith, h)),
)

pub Distinct-Owns : (rows : List Job) → Distinct rows → All (Owns rows) rows
Distinct-Owns [] d = tt
Distinct-Owns (r ∷ rows) (new, d) =
    ((λ e. refl, not_there r rows new), go rows new (Distinct-Owns rows d))
  where
    go :
        (rs : List Job)
        → any (λ x. text_eq r.id x.id) rs ≡ false
        → All (Owns rows) rs
        → All (Owns (r ∷ rows)) rs
    go [] n h = tt
    go (x ∷ rs) n (o, h) = ((λ e. absurd (ground (arith, n, e)), o), go rs (ground (arith, n)) h)

-- What becomes of a row that was delivered or is stale: a cron job moves to its next time, any other
-- is gone.
abbrev pub settled : (Text → ℕ → Option ℕ) → ℕ → Option ℕ → Job → List Job
settled next_cron now last r =
    if is_cron r.schedule
    then (elim (next_cron r.schedule now) [ none ↦ [] | some next ↦ moved next last r ∷ [] ])
    else []

module _ (next_cron : Text → ℕ → Option ℕ) (fire : Job → Bool) (now : ℕ) (last : Option ℕ) where
  -- What settling one job makes of a row.
  abbrev pub one : Job → Job → List Job
  one j = λ r.
      if text_eq j.id r.id
      then (if is_cron j.schedule
          then (elim (next_cron j.schedule now) [ none ↦ [] | some next ↦ moved next last r ∷ [] ])
          else [])
      else r ∷ []

  -- What settling those of a list of jobs that `fire` picks makes of a row.
  abbrev pub all_of : List Job → Job → List Job
  all_of [] = λ r. r ∷ []
  all_of (j ∷ due) = λ r. if fire j then each (all_of due) (one j r) else all_of due r

  all_of-other :
      (due : List Job) (r : Job) → any (λ j. text_eq r.id j.id) due ≡ false → all_of due r ≡ r ∷ []
  all_of-other [] r h = refl
  all_of-other (j ∷ due) r h = elim (Bool-cases (fire j)) [
    | inl sent ↦
        let other : text_eq j.id r.id ≡ false =
          ground (arith, h, text_eq_iff j.id r.id, text_eq_iff r.id j.id) in
        rw (sent, other) (append-nil _ ∙ all_of-other due r (ground (arith, h)))
    | inr failed ↦ rw failed (all_of-other due r (ground (arith, h)))
  ]

  pub all_of-own :
      (due : List Job) (r : Job)
      → Distinct due
      → Owns due r
      → All (Rolls next_cron now) due
      → all_of due r ≡ (
          if any (λ j. fire j && text_eq j.id r.id) due
          then settled next_cron now last r
          else r ∷ [])
  all_of-own [] r d own rolls = refl
  all_of-own (j ∷ due) r (new, d) (mine, own) (roll, rolls) = elim (Bool-cases (fire j)) [
    | inl sent ↦ elim (Bool-cases (text_eq j.id r.id)) [
      | inl same ↦
          subst
            (λ x. all_of (j ∷ due) x ≡ (
              if any (λ i. fire i && text_eq i.id x.id) (j ∷ due)
              then settled next_cron now last x
              else x ∷ []))
            (mine same) (own_row j due sent new roll)
      | inr other ↦ rw (sent, other) (append-nil _ ∙ all_of-own due r d own rolls)
    ]
    | inr failed ↦ rw failed (all_of-own due r d own rolls)
  ]
    where
      own_row :
          (j : Job) (due : List Job)
          → fire j ≡ true
          → any (λ i. text_eq j.id i.id) due ≡ false
          → Rolls next_cron now j
          → all_of (j ∷ due) j ≡ (
              if any (λ i. fire i && text_eq i.id j.id) (j ∷ due)
              then settled next_cron now last j
              else j ∷ [])
      own_row j due sent new roll = elim (Bool-cases (is_cron j.schedule)) [
        | inl cron ↦
            let (next, e, lt) = roll cron in
            rw (sent, text_eq_refl j.id, cron, e)
              (append-nil _ ∙ all_of-other due (moved next last j) new)
        | inr once ↦ rw (sent, text_eq_refl j.id, once) refl
      ]
