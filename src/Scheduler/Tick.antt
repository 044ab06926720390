-- ===== src/Scheduler/Tick.antt =====
-- scheduler/local.py: the table after a tick, row by row, and what is due after it.
use proto_trader.Prelude.{
  All-keep, All-sort_by, ℕ, ◌≡◌, refl, inl, inr, ◌∙◌, sym, ap, Text, text_eq, Bool, true, false,
  not, ◌&&◌, ◌||◌, Option, some, List, [], keep, any, All, arith, Bool-cases, sort_by, ◌∷◌,
  if◌then◌else◌,
}
use proto_trader.Scheduler.{
  Job, is_cron, is_due, sooner, claim_due_jobs, delete_id, update_id, compute_next_fire,
  reschedule_or_delete, fire_all, tick,
}
use proto_trader.Scheduler.Rows.{
  Rolls, Distinct, delete_id-due, update_id-due, both_not, settle, any_assoc, keep-both, keep-cong,
  any-sort_by, any-keep, any-own,
}
use proto_trader.Scheduler.Fates.{
  each, each-cong, Distinct-sort_by, Distinct-keep, Owns, Distinct-Owns, settled, all_of,
  all_of-own,
}
use proto_trader.Scheduler.Settling.{fire_all-each}

module _ (next_cron : Text → ℕ → Option ℕ) (parse_iso : Text → Option ℕ) (agent : Text)
    (fire : Job → Bool) (now : ℕ) where
  -- Whether a job with this id was delivered.
  abbrev delivered : List Job → Text → Bool
  delivered due id = any (λ j. fire j && text_eq j.id id) due

  reschedule-due :
      (j : Job) (rows : List Job)
      → Rolls next_cron now j
      → (rows' : List Job) × (reschedule_or_delete next_cron parse_iso j now rows ≡ some rows')
        × (keep (is_due agent now) rows'
            ≡ keep (λ r. is_due agent now r && not (text_eq j.id r.id)) rows)
  unfolding reschedule_or_delete compute_next_fire
  reschedule-due j rows rolls = elim (Bool-cases (is_cron j.schedule)) [
    | inl cron ↦
        let (next, e, lt) = rolls cron in
        (
          update_id j.id next (some now) rows,
          rw (cron, e) refl,
          update_id-due agent j.id now next (some now) rows lt,
        )
    | inr once ↦ (delete_id j.id rows, rw once refl, delete_id-due agent j.id now rows)
  ]

  fire_all-due :
      (due rows : List Job)
      → All (Rolls next_cron now) due
      → ((fire_all next_cron parse_iso fire now due rows).1 ≡ false)
        × (keep (is_due agent now) (fire_all next_cron parse_iso fire now due rows).0
            ≡ keep (λ r. is_due agent now r && not (delivered due r.id)) rows)
  unfolding fire_all
  fire_all-due [] rows rolls = (refl, keep-cong _ _ rows (go rows))
    where
      go : (rs : List Job) → All (λ r. is_due agent now r ≡ (is_due agent now r && true)) rs
      go [] = tt
      go (r ∷ rs) = (ground arith, go rs)
  fire_all-due (j ∷ due) rows (roll, rolls) = elim (Bool-cases (fire j)) [
    | inl sent ↦
        let (rows', e, same) = reschedule-due j rows roll in
        let (quiet, rest) = fire_all-due due rows' rolls in
        rw (sent, e, fire_all)
          (
            quiet,
            rest
                ∙ sym (keep-both (is_due agent now) (λ r. not (delivered due r.id)) rows')
                ∙ ap (keep (λ r. not (delivered due r.id))) same
                ∙ keep-both (λ r. is_due agent now r && not (text_eq j.id r.id))
                    (λ r. not (delivered due r.id)) rows
                ∙ keep-cong _ _ rows (go rows),
          )
    | inr failed ↦ rw (failed, fire_all) (fire_all-due due rows rolls)
  ]
    where
      go :
          (rs : List Job)
          → All
              (λ r.
                ((is_due agent now r && not (text_eq j.id r.id)) && not (delivered due r.id))
                ≡ (is_due agent now r && not ((true && text_eq j.id r.id) || delivered due r.id)))
              rs
      go [] = tt
      go (r ∷ rs) = (both_not (is_due agent now r) (text_eq j.id r.id) (delivered due r.id), go rs)

  found_due :
      (rows : List Job) (r : Job)
      → any (λ j. (is_due agent now j && fire j) && text_eq j.id r.id) rows
        ≡ (is_due agent now r && fire r)
      → delivered (sort_by sooner (keep (is_due agent now) rows)) r.id
        ≡ (is_due agent now r && fire r)
  found_due rows r e =
      any-sort_by (λ j. fire j && text_eq j.id r.id) sooner (keep (is_due agent now) rows)
      ∙ any-keep (λ j. fire j && text_eq j.id r.id) (is_due agent now) rows
      ∙ any_assoc (is_due agent now) fire (λ j. text_eq j.id r.id) rows
      ∙ e

  -- If the ids are distinct and every due cron job of this agent has a next time after now, a tick is
  -- not left by an exception, and the table after it is known row by row: a due cron job that was
  -- delivered is moved to its next time with now as its last fire, a due one-shot that was delivered
  -- is gone, and every other row stands unchanged in its place. What is due after the tick is what was
  -- due before it and was not delivered.
  pub tick_due :
      (rows : List Job)
      → Distinct rows
      → All (Rolls next_cron now) (keep (is_due agent now) rows)
      → ((tick next_cron parse_iso agent fire now rows).1 ≡ false)
        × ((tick next_cron parse_iso agent fire now rows).0
            ≡ each
                (λ r.
                  if is_due agent now r && fire r
                  then settled next_cron now (some now) r
                  else r ∷ [])
                rows)
        × (keep (is_due agent now) (tick next_cron parse_iso agent fire now rows).0
            ≡ keep (λ r. is_due agent now r && not (fire r)) rows)
  unfolding tick claim_due_jobs
  tick_due rows distinct rolls =
      let due = sort_by sooner (keep (is_due agent now) rows) in
      let sorted_rolls =
        All-sort_by sooner (Rolls next_cron now) (keep (is_due agent now) rows) rolls in
      let (quiet, left) = fire_all-due due rows sorted_rolls in
      (
        quiet,
        fire_all-each next_cron parse_iso fire now due rows sorted_rolls
            ∙ each-cong _ _ rows (
                fates rows (Distinct-Owns rows distinct)
                  (any-own (λ r. is_due agent now r && fire r) rows distinct)),
        left
            ∙ keep-cong _ _ rows
                (go rows (any-own (λ r. is_due agent now r && fire r) rows distinct)),
      )
    where
      go :
          (rs : List Job)
          → All
              (λ r.
                any (λ j. (is_due agent now j && fire j) && text_eq j.id r.id) rows
                ≡ (is_due agent now r && fire r))
              rs
          → All
              (λ r.
                (is_due agent now r
                  && not (delivered (sort_by sooner (keep (is_due agent now) rows)) r.id))
                ≡ (is_due agent now r && not (fire r)))
              rs
      go [] h = tt
      go (r ∷ rs) (e, h) = (settle (is_due agent now r) (fire r) (found_due rows r e), go rs h)

      fates :
          (rs : List Job)
          → All (Owns rows) rs
          → All
              (λ r.
                any (λ j. (is_due agent now j && fire j) && text_eq j.id r.id) rows
                ≡ (is_due agent now r && fire r))
              rs
          → All
              (λ r.
                all_of next_cron fire now
                  (some now)
                  (sort_by sooner (keep (is_due agent now) rows))
                  r
                ≡ (if is_due agent now r && fire r
                    then settled next_cron now (some now) r
                    else r ∷ []))
              rs
      fates [] own h = tt
      fates (r ∷ rs) (mine, own) (e, h) = (
        all_of-own next_cron fire now (some now) (sort_by sooner (keep (is_due agent now) rows)) r
              (Distinct-sort_by sooner _ (Distinct-keep (is_due agent now) rows distinct))
              (All-sort_by sooner _ (keep (is_due agent now) rows)
                (All-keep _ (is_due agent now) rows mine))
              (All-sort_by sooner _ (keep (is_due agent now) rows) rolls)
            ∙ rw (found_due rows r e) refl,
        fates rs own h,
      )
