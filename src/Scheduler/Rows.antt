-- ===== src/Scheduler/Rows.antt =====
-- scheduler/local.py: the rows of the table that are due, under the operations on it.
use proto_trader.Prelude.{
  ℕ, ◌<◌, ◌≡◌, refl, inl, inr, Text, text_eq, text_eq_iff, text_eq_refl, Bool, true, false, not,
  ◌&&◌, ◌||◌, Option, some, List, [], ◌∷◌, keep, any, All, arith, Bool-cases, sort_by, insert_by,
}
use proto_trader.Scheduler.{Job, is_cron, is_due, delete_id, update_id}

-- A cron job has a next time, after this one.
abbrev pub Rolls : (Text → ℕ → Option ℕ) → ℕ → Job → Type 0
Rolls next_cron now j =
    is_cron j.schedule ≡ true → (next : ℕ) × (next_cron j.schedule now ≡ some next) × (now < next)

-- No id stands in two rows.
abbrev pub Distinct : List Job → Type 0
Distinct [] = Unit
Distinct (j ∷ rows) = (any (λ r. text_eq j.id r.id) rows ≡ false) × Distinct rows

pub delete_id-due :
    (agent id : Text) (now : ℕ) (rows : List Job)
    → keep (is_due agent now) (delete_id id rows)
      ≡ keep (λ r. is_due agent now r && not (text_eq id r.id)) rows
unfolding delete_id
delete_id-due agent id now [] = refl
delete_id-due agent id now (r ∷ rows) = ground (arith, delete_id-due agent id now rows)

pub update_id-due :
    (agent id : Text) (now next : ℕ) (last : Option ℕ) (rows : List Job)
    → now < next
    → keep (is_due agent now) (update_id id next last rows)
      ≡ keep (λ r. is_due agent now r && not (text_eq id r.id)) rows
unfolding update_id
update_id-due agent id now next last [] lt = refl
update_id-due agent id now next last (r ∷ rows) lt = elim (Bool-cases (text_eq id r.id)) [
  | inl same ↦ rw same (ground (arith, lt, update_id-due agent id now next last rows lt))
  | inr other ↦ rw other (ground (arith, update_id-due agent id now next last rows lt))
]

pub both_not : (a b c : Bool) → ((a && not b) && not c) ≡ (a && not ((true && b) || c))
both_not a b c = ground arith

pub settle :
    (due sent : Bool) {found : Bool}
    → found ≡ (due && sent)
    → (due && not found) ≡ (due && not sent)
settle true true e = rw e refl
settle true false e = rw e refl
settle false sent e = refl

pub any_assoc :
    (p q s : Job → Bool) (rows : List Job)
    → any (λ j. p j && (q j && s j)) rows ≡ any (λ j. (p j && q j) && s j) rows
any_assoc p q s [] = refl
any_assoc p q s (r ∷ rows) = ground (arith, any_assoc p q s rows)

pub keep-both :
    (p q : Job → Bool) (rows : List Job) → keep q (keep p rows) ≡ keep (λ r. p r && q r) rows
keep-both p q [] = refl
keep-both p q (r ∷ rows) = ground (arith, keep-both p q rows)

pub keep-cong :
    (p q : Job → Bool) (rows : List Job) → All (λ r. p r ≡ q r) rows → keep p rows ≡ keep q rows
keep-cong p q [] h = refl
keep-cong p q (r ∷ rows) (e, h) = ground (arith, e, keep-cong p q rows h)

pub any-insert_by :
    (p : Job → Bool) (le : Job → Job → Bool) (j : Job) (rows : List Job)
    → any p (insert_by le j rows) ≡ (p j || any p rows)
unfolding insert_by
any-insert_by p le j [] = refl
any-insert_by p le j (r ∷ rows) = ground (arith, any-insert_by p le j rows)

pub any-sort_by :
    (p : Job → Bool) (le : Job → Job → Bool) (rows : List Job)
    → any p (sort_by le rows) ≡ any p rows
unfolding sort_by
any-sort_by p le [] = refl
any-sort_by p le (r ∷ rows) =
    ground (arith, any-insert_by p le r (sort_by le rows), any-sort_by p le rows)

pub any-keep :
    (p q : Job → Bool) (rows : List Job) → any p (keep q rows) ≡ any (λ r. q r && p r) rows
any-keep p q [] = refl
any-keep p q (r ∷ rows) = ground (arith, any-keep p q rows)

pub no_other :
    (p : Job → Bool) (id : Text) (rows : List Job)
    → any (λ r. text_eq id r.id) rows ≡ false
    → any (λ r. p r && text_eq r.id id) rows ≡ false
no_other p id [] h = refl
no_other p id (r ∷ rows) h =
    ground (arith, h, no_other p id rows, text_eq_iff id r.id, text_eq_iff r.id id)

-- With distinct ids, the rows with the id of a row are that row.
pub any-own :
    (p : Job → Bool) (rows : List Job)
    → Distinct rows
    → All (λ r. any (λ j. p j && text_eq j.id r.id) rows ≡ p r) rows
any-own p [] d = tt
any-own p (j ∷ rows) (new, d) =
    (ground (arith, no_other p j.id rows new, text_eq_refl j.id), go rows new (any-own p rows d))
  where
    go :
        (rs : List Job)
        → any (λ r. text_eq j.id r.id) rs ≡ false
        → All (λ r. any (λ x. p x && text_eq x.id r.id) rows ≡ p r) rs
        → All (λ r. any (λ x. p x && text_eq x.id r.id) (j ∷ rows) ≡ p r) rs
    go [] n h = tt
    go (r ∷ rs) n (e, h) = (ground (arith, n, e), go rs (ground (arith, n)) h)
