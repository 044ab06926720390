-- ===== src/Beads/Refine.antt =====
-- beads/store.py: the store as a function from ids to issues.
use proto_trader.Prelude.{
  ◌≡◌, refl, sym, subst, inl, inr, ap, Text, text_eq, text_eq_iff, is_empty, strip, Bool, true,
  false, not, Option, none, some, List, [], ◌∷◌, ◌++◌, keep, any, if◌then◌else◌, arith, Bool-cases,
}
use proto_trader.Beads.{
  Issue, new_issue, apply_fields, closing, Answer, title_required, id_required, unknown_issue,
  issue, deleted, get, next_id, create, set_rows, change, update, close, delete, Op, creates,
  updates, closes, deletes, after_op,
}
use proto_trader.Beads.Fresh.{get-next_id}

-- What `change` promises of the store as a function, before and after, by whether the id is empty and
-- what it stands for.
abbrev ChangedAs :
    Bool
    → Option Issue
    → Text
    → (Issue → Issue)
    → (Text → Option Issue)
    → (Text → Option Issue)
    → Answer
    → Type 0
ChangedAs true found id f v v' answer = (answer ≡ id_required) × ((k : Text) → v' k ≡ v k)
ChangedAs false none id f v v' answer = (answer ≡ unknown_issue id) × ((k : Text) → v' k ≡ v k)
ChangedAs false (some r) id f v v' answer =
    (answer ≡ issue (f r)) × ((k : Text) → v' k ≡ (if text_eq id k then some (f r) else v k))

abbrev Changed :
    Text → (Issue → Issue) → (Text → Option Issue) → (Text → Option Issue) → Answer → Type 0
Changed id f v v' answer = ChangedAs (is_empty id) (v id) id f v v' answer

-- What each operation promises: a new issue gets an id that no issue has, and every other issue stays
-- as it is.
abbrev pub Promises : Op → (Text → Option Issue) → (Text → Option Issue) → Answer → Type 0
Promises (creates new time) v v' answer =
    if is_empty (strip new.title)
    then (answer ≡ title_required) × ((k : Text) → v' k ≡ v k)
    else (id : Text) × (v id ≡ none)
      × (answer ≡ issue (new_issue id new time))
      × ((k : Text) → v' k ≡ (if text_eq id k then some (new_issue id new time) else v k))
Promises (updates id f time) v v' answer = Changed id (apply_fields f time) v v' answer
Promises (closes id reason time) v v' answer = Changed id (closing reason time) v v' answer
Promises (deletes id) v v' answer =
    (answer ≡ deleted (elim (v id) [ none ↦ false | some r ↦ true ]))
    × ((k : Text) → v' k ≡ (if text_eq id k then none else v k))

get-append :
    (k : Text) (rows : List Issue) (r : Issue)
    → get r.id rows ≡ none
    → get k (rows ++ r ∷ []) ≡ (if text_eq r.id k then some r else get k rows)
unfolding get
get-append k [] r new = refl
get-append k (s ∷ rows) r new =
    ground (
      arith,
      new,
      get-append k rows r,
      text_eq_iff s.id k,
      text_eq_iff r.id k,
      text_eq_iff s.id r.id,
    )

set_rows-at :
    (id : Text) (f : Issue → Issue) (rows : List Issue) (r : Issue)
    → ((s : Issue) → (f s).id ≡ s.id)
    → get id rows ≡ some r
    → get id (set_rows id f rows) ≡ some (f r)
unfolding get set_rows
set_rows-at id f [] r same h = cc h
set_rows-at id f (s ∷ rows) r same h = elim (Bool-cases (text_eq s.id id)) [
  | inl here ↦
      let own : text_eq (f s).id id ≡ true = subst (λ i. text_eq i id ≡ true) (sym (same s)) here in
      let found : some s ≡ some r =
        subst (λ b. (if b then some s else get id rows) ≡ some r) here h in
      rw (here, own) (ap (λ o. elim o [ none ↦ some (f s) | some x ↦ some (f x) ]) found)
  | inr later ↦ rw (later, later) (set_rows-at id f rows r same (ground (arith, h, later)))
]

set_rows-away :
    (k id : Text) (f : Issue → Issue) (rows : List Issue)
    → ((s : Issue) → (f s).id ≡ s.id)
    → text_eq id k ≡ false
    → get k (set_rows id f rows) ≡ get k rows
unfolding get set_rows
set_rows-away k id f [] same n = refl
set_rows-away k id f (s ∷ rows) same n = elim (Bool-cases (text_eq s.id id)) [
  | inl here ↦
      let other : text_eq s.id k ≡ false =
        subst (λ i. text_eq i k ≡ false) (sym ((text_eq_iff s.id id).0 here)) n in
      rw (here, same s, other) (set_rows-away k id f rows same n)
  | inr later ↦ rw later (ground (arith, set_rows-away k id f rows same n))
]

get-set_rows :
    (k id : Text) (f : Issue → Issue) (rows : List Issue) (r : Issue)
    → ((s : Issue) → (f s).id ≡ s.id)
    → get id rows ≡ some r
    → get k (set_rows id f rows) ≡ (if text_eq id k then some (f r) else get k rows)
get-set_rows k id f rows r same h = elim (Bool-cases (text_eq id k)) [
  | inl own ↦ rw own (
      subst (λ i. get i (set_rows id f rows) ≡ some (f r)) ((text_eq_iff id k).0 own)
        (set_rows-at id f rows r same h))
  | inr other ↦ rw other (set_rows-away k id f rows same other)
]

get-delete :
    (k id : Text) (rows : List Issue)
    → get k (keep (λ r. not (text_eq r.id id)) rows) ≡ (if text_eq id k then none else get k rows)
unfolding get
get-delete k id [] = ground arith
get-delete k id (r ∷ rows) =
    ground (arith, get-delete k id rows, text_eq_iff r.id id, text_eq_iff r.id k, text_eq_iff id k)

any-get :
    (id : Text) (rows : List Issue)
    → any (λ r. text_eq r.id id) rows ≡ elim (get id rows) [ none ↦ false | some r ↦ true ]
unfolding get
any-get id [] = refl
any-get id (r ∷ rows) = ground (arith, any-get id rows)

change_found :
    (id : Text) (f : Issue → Issue) (rows : List Issue) (r : Issue)
    → is_empty id ≡ false
    → get id rows ≡ some r
    → change id f rows ≡ (set_rows id f rows, issue (f r))
unfolding change
change_found id f rows r full e = rw (full, e, change) refl

change_absent :
    (id : Text) (f : Issue → Issue) (rows : List Issue)
    → is_empty id ≡ false
    → get id rows ≡ none
    → change id f rows ≡ (rows, unknown_issue id)
unfolding change
change_absent id f rows full e = rw (full, e, change) refl

change_empty :
    (id : Text) (f : Issue → Issue) (rows : List Issue)
    → is_empty id ≡ true
    → change id f rows ≡ (rows, id_required)
unfolding change
change_empty id f rows empty = rw empty refl

module _ (id : Text) (f : Issue → Issue) (rows : List Issue)
    (same : (s : Issue) → (f s).id ≡ s.id) where
  change-ChangedAs :
      (b : Bool) (found : Option Issue)
      → is_empty id ≡ b
      → get id rows ≡ found
      → ChangedAs b found id f
          (λ k. get k rows)
          (λ k. get k (change id f rows).0)
          (change id f rows).1
  change-ChangedAs true found e h = rw (change_empty id f rows e) (refl, λ k. refl)
  change-ChangedAs false none e h = rw (change_absent id f rows e h) (refl, λ k. refl)
  change-ChangedAs false (some r) e h =
      rw (change_found id f rows r e h) (refl, λ k. get-set_rows k id f rows r same h)

-- Every operation does what the store promises of it as a function from ids to issues: creating
-- refuses a blank title and else adds the issue under an id that no issue has; updating and closing
-- refuse an empty and an unknown id and else change that issue alone; deleting removes that issue
-- alone and says whether there was one.
pub after_op-Promises :
    (op : Op) (rows : List Issue)
    → Promises op (λ k. get k rows) (λ k. get k (after_op op rows).0) (after_op op rows).1
unfolding after_op
after_op-Promises (creates new time) rows =
    unfold create in
    elim (Bool-cases (is_empty (strip new.title))) [
      | inl blank ↦ rw blank (refl, λ k. refl)
      | inr filled ↦ rw filled (
        next_id rows,
        get-next_id rows,
        refl,
        λ k. get-append k rows (new_issue (next_id rows) new time) (get-next_id rows),
      )
    ]
after_op-Promises (updates id f time) rows =
    unfold update in
    change-ChangedAs id (apply_fields f time) rows (λ s. refl) (is_empty id) (get id rows) refl refl
after_op-Promises (closes id reason time) rows =
    unfold close in
    change-ChangedAs id (closing reason time) rows (λ s. refl) (is_empty id) (get id rows) refl refl
after_op-Promises (deletes id) rows =
    unfold delete in (ap deleted (any-get id rows), λ k. get-delete k id rows)
