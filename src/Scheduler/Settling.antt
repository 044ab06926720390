-- ===== src/Scheduler/Settling.antt =====
-- scheduler/local.py: a tick and the recovery of missed fires settle rows one by one.
use proto_trader.Prelude.{
  ℕ, ◌≡◌, refl, inl, inr, ◌∙◌, sym, ap, Text, Bool, true, Option, none, some, List, [], ◌∷◌, All,
  Bool-cases,
}
use proto_trader.Scheduler.{Job, is_cron, compute_next_fire, reschedule_or_delete, fire_all}
use proto_trader.Scheduler.Rows.{Rolls}
use proto_trader.Scheduler.{drop_stale, drop_all_stale}
use proto_trader.Scheduler.Fates.{
  each, each-ext, each-each, each-one, delete_id-each, update_id-each, one, all_of,
}

module _ (next_cron : Text → ℕ → Option ℕ) (parse_iso : Text → Option ℕ) (fire : Job → Bool)
    (now : ℕ) where
  abbrev delivery : Job → Job → List Job
  delivery = one next_cron fire now (some now)

  abbrev deliveries : List Job → Job → List Job
  deliveries = all_of next_cron fire now (some now)

  reschedule-each :
      (j : Job) (rows : List Job)
      → Rolls next_cron now j
      → reschedule_or_delete next_cron parse_iso j now rows ≡ some (each (delivery j) rows)
  unfolding reschedule_or_delete compute_next_fire
  reschedule-each j rows rolls = elim (Bool-cases (is_cron j.schedule)) [
    | inl cron ↦
        let (next, e, lt) = rolls cron in
        rw (cron, e)
          (ap some (
            update_id-each j.id next (some now) rows
            ∙ each-ext _ (delivery j) rows (λ r. rw (cron, e) refl)))
    | inr once ↦
        rw once
          (ap some (delete_id-each j.id rows ∙ each-ext _ (delivery j) rows (λ r. rw once refl)))
  ]

  pub fire_all-each :
      (due rows : List Job)
      → All (Rolls next_cron now) due
      → (fire_all next_cron parse_iso fire now due rows).0 ≡ each (deliveries due) rows
  unfolding fire_all
  fire_all-each [] rows rolls = sym (each-one rows)
  fire_all-each (j ∷ due) rows (roll, rolls) = elim (Bool-cases (fire j)) [
    | inl sent ↦
        rw (sent, reschedule-each j rows roll, fire_all)
          (fire_all-each due (each (delivery j) rows) rolls
            ∙ each-each (delivery j) (deliveries due) rows
            ∙ each-ext _ (deliveries (j ∷ due)) rows (λ r. rw sent refl))
    | inr failed ↦
        rw (failed, fire_all)
          (fire_all-each due rows rolls
            ∙ each-ext _ (deliveries (j ∷ due)) rows (λ r. rw failed refl))
  ]

module _ (next_cron : Text → ℕ → Option ℕ) (parse_iso : Text → Option ℕ) (now : ℕ) where
  abbrev removal : Job → Job → List Job
  removal = one next_cron (λ j. true) now none

  abbrev removals : List Job → Job → List Job
  removals = all_of next_cron (λ j. true) now none

  drop_stale-each :
      (j : Job) (rows : List Job)
      → Rolls next_cron now j
      → drop_stale next_cron parse_iso j now rows ≡ some (each (removal j) rows)
  unfolding drop_stale compute_next_fire
  drop_stale-each j rows rolls = elim (Bool-cases (is_cron j.schedule)) [
    | inl cron ↦
        let (next, e, lt) = rolls cron in
        rw (cron, e)
          (ap some (
            update_id-each j.id next none rows
            ∙ each-ext _ (removal j) rows (λ r. rw (cron, e) refl)))
    | inr once ↦
        rw once
          (ap some (delete_id-each j.id rows ∙ each-ext _ (removal j) rows (λ r. rw once refl)))
  ]

  pub drop_all_stale-each :
      (stale rows : List Job)
      → All (Rolls next_cron now) stale
      → drop_all_stale next_cron parse_iso now stale rows ≡ some (each (removals stale) rows)
  unfolding drop_all_stale
  drop_all_stale-each [] rows rolls = ap some (sym (each-one rows))
  drop_all_stale-each (j ∷ stale) rows (roll, rolls) =
      rw (drop_stale-each j rows roll, drop_all_stale)
        (drop_all_stale-each stale (each (removal j) rows) rolls
          ∙ ap some (
              each-each (removal j) (removals stale) rows
              ∙ each-ext _ (removals (j ∷ stale)) rows (λ r. refl)))
