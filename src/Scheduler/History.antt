-- ===== src/Scheduler/History.antt =====
-- scheduler/local.py: what each operation on the table does to its ids and to the jobs of other agents.
use proto_trader.Prelude.{
  ℕ, ◌≡◌, refl, inl, inr, ◌∙◌, subst, Text, text_eq, text_eq_iff, Bool, false, not, Option, none,
  some, List, [], ◌∷◌, ◌++◌, keep, any, All, arith, Bool-cases, Option-cases,
}
use proto_trader.Scheduler.{
  Job, is_cron, is_named, delete_id, update_id, compute_next_fire, reschedule_or_delete, fire_all,
  drop_stale, drop_all_stale,
}
use proto_trader.Scheduler.Rows.{Distinct}
use proto_trader.Scheduler.Isolation.{
  is_other, Own, Kept, All-Own, update_id-other, delete_id-other, update_id-Own, delete_id-Own,
}

abbrev pub has_id : Text → List Job → Bool
has_id id rows = any (λ r. text_eq id r.id) rows

has_id-update_id :
    (x id : Text) (next : ℕ) (last : Option ℕ) (rows : List Job)
    → has_id x (update_id id next last rows) ≡ has_id x rows
unfolding update_id
has_id-update_id x id next last [] = refl
has_id-update_id x id next last (r ∷ rows) = elim (Bool-cases (text_eq id r.id)) [
  | inl same ↦ rw same (ground (arith, has_id-update_id x id next last rows))
  | inr other ↦ rw other (ground (arith, has_id-update_id x id next last rows))
]

update_id-Distinct :
    (id : Text) (next : ℕ) (last : Option ℕ) (rows : List Job)
    → Distinct rows
    → Distinct (update_id id next last rows)
unfolding update_id
update_id-Distinct id next last [] d = tt
update_id-Distinct id next last (r ∷ rows) (new, d) = elim (Bool-cases (text_eq id r.id)) [
  | inl same ↦
      rw same
        (has_id-update_id r.id id next last rows ∙ new, update_id-Distinct id next last rows d)
  | inr other ↦
      rw other
        (has_id-update_id r.id id next last rows ∙ new, update_id-Distinct id next last rows d)
]

has_id-delete_id :
    (x id : Text) (rows : List Job) → has_id x rows ≡ false → has_id x (delete_id id rows) ≡ false
unfolding delete_id
has_id-delete_id x id [] h = refl
has_id-delete_id x id (r ∷ rows) h = ground (arith, h, has_id-delete_id x id rows)

delete_id-Distinct : (id : Text) (rows : List Job) → Distinct rows → Distinct (delete_id id rows)
unfolding delete_id
delete_id-Distinct id [] d = tt
delete_id-Distinct id (r ∷ rows) (new, d) = elim (Bool-cases (text_eq id r.id)) [
  | inl same ↦ rw same (delete_id-Distinct id rows d)
  | inr other ↦ rw other (has_id-delete_id r.id id rows new, delete_id-Distinct id rows d)
]

has_id-keep :
    (x : Text) (p : Job → Bool) (rows : List Job)
    → has_id x rows ≡ false
    → has_id x (keep p rows) ≡ false
has_id-keep x p [] h = refl
has_id-keep x p (r ∷ rows) h = ground (arith, h, has_id-keep x p rows)

pub keep-Distinct : (p : Job → Bool) (rows : List Job) → Distinct rows → Distinct (keep p rows)
keep-Distinct p [] d = tt
keep-Distinct p (r ∷ rows) (new, d) = elim (Bool-cases (p r)) [
  | inl kept ↦ rw kept (has_id-keep r.id p rows new, keep-Distinct p rows d)
  | inr gone ↦ rw gone (keep-Distinct p rows d)
]

has_id-append :
    (x : Text) (rows : List Job) (j : Job)
    → has_id x rows ≡ false
    → text_eq x j.id ≡ false
    → has_id x (rows ++ j ∷ []) ≡ false
has_id-append x [] j h n = ground (arith, n)
has_id-append x (r ∷ rows) j h n = ground (arith, h, n, has_id-append x rows j)

pub append-Distinct :
    (rows : List Job) (j : Job)
    → Distinct rows
    → has_id j.id rows ≡ false
    → Distinct (rows ++ j ∷ [])
append-Distinct [] j d n = (refl, tt)
append-Distinct (r ∷ rows) j (new, d) n = (
  has_id-append r.id rows j new (ground (arith, n, text_eq_iff r.id j.id, text_eq_iff j.id r.id)),
  append-Distinct rows j d (ground (arith, n)),
)

pub keep-append :
    (p : Job → Bool) (rows : List Job) (j : Job)
    → p j ≡ false
    → keep p (rows ++ j ∷ []) ≡ keep p rows
keep-append p [] j h = ground (arith, h)
keep-append p (r ∷ rows) j h = ground (arith, keep-append p rows j h)

pub cancel_other :
    (agent job_id : Text) (rows : List Job)
    → keep (is_other agent) (keep (λ j. not (is_named agent job_id j)) rows)
      ≡ keep (is_other agent) rows
cancel_other agent job_id [] = refl
cancel_other agent job_id (r ∷ rows) = ground (arith, cancel_other agent job_id rows)

module _ (next_cron : Text → ℕ → Option ℕ) (parse_iso : Text → Option ℕ) (agent : Text) where
  drop_stale-Kept :
      (j : Job) (now : ℕ) (rows rows' : List Job)
      → Own agent rows j.id
      → drop_stale next_cron parse_iso j now rows ≡ some rows'
      → Kept agent rows rows' × (Distinct rows → Distinct rows')
  unfolding drop_stale
  drop_stale-Kept j now rows rows' own e = elim (Bool-cases (is_cron j.schedule)) [
    | inl cron ↦ elim (Option-cases (compute_next_fire next_cron parse_iso j.schedule now)) [
      | inl raises ↦ absurd (ground (arith, e, cron, raises))
      | inr (next, n) ↦
          subst (λ (t : List Job). Kept agent rows t × (Distinct rows → Distinct t))
            (ground (arith, e, cron, n))
            (
              (
                update_id-other agent j.id next none rows own,
                λ k. update_id-Own agent j.id k next none rows,
              ),
              update_id-Distinct j.id next none rows,
            )
    ]
    | inr once ↦
        subst (λ (t : List Job). Kept agent rows t × (Distinct rows → Distinct t))
          (ground (arith, e, once))
          (
            (delete_id-other agent j.id rows own, λ k. delete_id-Own agent j.id k rows),
            delete_id-Distinct j.id rows,
          )
  ]

  pub drop_all_stale-Kept :
      (now : ℕ) (stale rows rows' : List Job)
      → All (λ j. Own agent rows j.id) stale
      → drop_all_stale next_cron parse_iso now stale rows ≡ some rows'
      → (keep (is_other agent) rows' ≡ keep (is_other agent) rows)
        × (Distinct rows → Distinct rows')
  unfolding drop_all_stale
  drop_all_stale-Kept now [] rows rows' own e =
      subst
        (λ (t : List Job).
          (keep (is_other agent) t ≡ keep (is_other agent) rows) × (Distinct rows → Distinct t))
        (ground (arith, e)) (refl, λ d. d)
  drop_all_stale-Kept now (j ∷ stale) rows rows' (mine, own) e =
      elim (Option-cases (drop_stale next_cron parse_iso j now rows)) [
        | inl raises ↦ absurd (ground (arith, e, raises))
        | inr (rows1, e1) ↦
            let ((same, keeps), d1) = drop_stale-Kept j now rows rows1 mine e1 in
            let (same2, d2) =
              drop_all_stale-Kept now stale rows1 rows' (All-Own agent rows rows1 stale keeps own)
                (ground (arith, e, e1)) in
            (same2 ∙ same, λ d. d2 (d1 d))
      ]

  reschedule-Distinct :
      (j : Job) (now : ℕ) (rows rows' : List Job)
      → reschedule_or_delete next_cron parse_iso j now rows ≡ some rows'
      → Distinct rows
      → Distinct rows'
  unfolding reschedule_or_delete
  reschedule-Distinct j now rows rows' e d = elim (Bool-cases (is_cron j.schedule)) [
    | inl cron ↦ elim (Option-cases (compute_next_fire next_cron parse_iso j.schedule now)) [
      | inl raises ↦ absurd (ground (arith, e, cron, raises))
      | inr (next, n) ↦
          subst Distinct (ground (arith, e, cron, n))
            (update_id-Distinct j.id next (some now) rows d)
    ]
    | inr once ↦ subst Distinct (ground (arith, e, once)) (delete_id-Distinct j.id rows d)
  ]

  pub fire_all-Distinct :
      (fire : Job → Bool) (now : ℕ) (due rows : List Job)
      → Distinct rows
      → Distinct (fire_all next_cron parse_iso fire now due rows).0
  unfolding fire_all
  fire_all-Distinct fire now [] rows d = d
  fire_all-Distinct fire now (j ∷ due) rows d = elim (Bool-cases (fire j)) [
    | inl sent ↦ elim (Option-cases (reschedule_or_delete next_cron parse_iso j now rows)) [
      | inl raises ↦ rw (sent, raises, fire_all) d
      | inr (rows', e) ↦
          rw (sent, e, fire_all)
            (fire_all-Distinct fire now due rows' (reschedule-Distinct j now rows rows' e d))
    ]
    | inr failed ↦ rw (failed, fire_all) (fire_all-Distinct fire now due rows d)
  ]
