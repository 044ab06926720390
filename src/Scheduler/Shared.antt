-- ===== src/Scheduler/Shared.antt =====
-- scheduler/local.py: one table shared by several agents.
use proto_trader.Prelude.{
  ℕ, ◌-◌, ◌≡◌, refl, inl, inr, ◌∙◌, sym, ap, Text, text_eq, text_eq_refl, strip, is_empty, true,
  false, not, Option, List, [], ◌∷◌, keep, All, keep-keep, text_eq_iff, if◌then◌else◌, arith,
  Bool-cases, Option-cases,
}
use proto_trader.Scheduler.{
  Job, is_due, is_named, cancel_job, compute_next_fire, add_job, tick, recover_missed_fires,
  claim_due_jobs, Op, adds, cancels, ticks, recovers, after_op, run,
}
use proto_trader.Scheduler.Rows.{Distinct}
use proto_trader.Scheduler.Isolation.{is_other, claimed-Own, Distinct-Own, tick_others}
use proto_trader.Scheduler.History.{
  has_id, keep-Distinct, append-Distinct, keep-append, cancel_other, drop_all_stale-Kept,
  fire_all-Distinct,
}

module _ (next_cron : Text → ℕ → Option ℕ) (parse_iso : Text → Option ℕ) where
  abbrev Good : Text → List Job → List Job → Type 0
  Good agent rows rows' =
      (keep (is_other agent) rows' ≡ keep (is_other agent) rows) × Distinct rows'

  add_job-Good :
      (agent prompt schedule job_id fresh : Text) (now : ℕ) (rows : List Job)
      → Distinct rows
      → Good agent rows (add_job next_cron parse_iso agent prompt schedule job_id fresh now rows).0
  unfolding add_job
  add_job-Good agent prompt schedule job_id fresh now rows d =
      elim (Bool-cases (is_empty (strip prompt))) [
        | inl blank ↦ rw blank (refl, d)
        | inr filled ↦ elim (Option-cases (compute_next_fire next_cron parse_iso schedule now)) [
          | inl raises ↦ rw (filled, raises) (refl, d)
          | inr (next, e) ↦
              elim (Bool-cases (has_id (if is_empty job_id then fresh else job_id) rows)) [
                | inl taken ↦ rw (filled, e, taken) (refl, d)
                | inr free ↦
                    rw (filled, e, free)
                      (
                        keep-append (is_other agent) rows _ (ground (arith, text_eq_refl agent)),
                        append-Distinct rows _ d free,
                      )
              ]
        ]
      ]

  recover-Good :
      (agent : Text) (window now : ℕ) (rows : List Job)
      → Distinct rows
      → Good agent rows (after_op next_cron parse_iso agent rows (recovers window now))
  unfolding after_op recover_missed_fires
  recover-Good agent window now rows d =
      elim (Option-cases (recover_missed_fires next_cron parse_iso agent window now rows)) [
        | inl raises ↦ rw (raises, after_op) (refl, d)
        | inr (rows', e) ↦
            let (same, keeps) =
              drop_all_stale-Kept next_cron parse_iso agent now
                (keep (is_due agent (now - window)) rows) rows rows'
                (claimed-Own agent (is_due agent (now - window)) rows rows
                  (λ j h. ground (arith, h)) (Distinct-Own agent rows d))
                e in
            rw (e, after_op) (same, keeps d)
      ]

  after_op-Good :
      (agent : Text) (op : Op) (rows : List Job)
      → Distinct rows
      → Good agent rows (after_op next_cron parse_iso agent rows op)
  unfolding after_op
  after_op-Good agent (adds prompt schedule job_id fresh now) rows d =
      add_job-Good agent prompt schedule job_id fresh now rows d
  after_op-Good agent (cancels job_id) rows d = (
    unfold cancel_job in cancel_other agent job_id rows,
    unfold cancel_job in keep-Distinct (λ j. not (is_named agent job_id j)) rows d,
  )
  after_op-Good agent (ticks fire now) rows d = (
    tick_others agent next_cron parse_iso fire now rows d,
    unfold tick in
        fire_all-Distinct next_cron parse_iso agent fire now (claim_due_jobs agent now rows) rows d,
  )
  after_op-Good agent (recovers window now) rows d = recover-Good agent window now rows d

  run-Distinct :
      (rows : List Job) (ops : List (Text × Op))
      → Distinct rows
      → Distinct (run next_cron parse_iso rows ops)
  unfolding run
  run-Distinct rows [] d = d
  run-Distinct rows ((agent, op) ∷ ops) d =
      run-Distinct (after_op next_cron parse_iso agent rows op) ops
        (after_op-Good agent op rows d).1

  run-mine :
      (me : Text) (rs : List Job) (os : List (Text × Op))
      → Distinct rs
      → All (λ o. text_eq o.0 me ≡ false) os
      → keep (λ j. text_eq j.agent_name me) (run next_cron parse_iso rs os)
        ≡ keep (λ j. text_eq j.agent_name me) rs
  unfolding run
  run-mine me rs [] d a = refl
  run-mine me rs ((agent, op) ∷ os) d (away, a) =
      let mine = λ (j : Job). text_eq j.agent_name me in
      let theirs : (j : Job) → mine j ≡ true → is_other agent j ≡ true = λ j h. ground (
        arith,
        away,
        h,
        text_eq_iff j.agent_name me,
        text_eq_iff j.agent_name agent,
        text_eq_iff agent me,
      ) in
      let good = after_op-Good agent op rs d in
      run-mine me (after_op next_cron parse_iso agent rs op) os good.1 a
      ∙ sym (keep-keep (is_other agent) mine theirs (after_op next_cron parse_iso agent rs op))
      ∙ ap (keep mine) good.0
      ∙ keep-keep (is_other agent) mine theirs rs

  -- From a table with distinct ids, whatever other agents add, cancel, deliver and recover on the
  -- same table, in any order and with any ids, the ids stay distinct and an agent's rows stay as they
  -- are and in their order.
  pub run_shared :
      (me : Text) (rows : List Job) (ops : List (Text × Op))
      → Distinct rows
      → All (λ o. text_eq o.0 me ≡ false) ops
      → Distinct (run next_cron parse_iso rows ops)
        × (keep (λ j. text_eq j.agent_name me) (run next_cron parse_iso rows ops)
            ≡ keep (λ j. text_eq j.agent_name me) rows)
  run_shared me rows ops d others = (run-Distinct rows ops d, run-mine me rows ops d others)
