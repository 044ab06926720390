-- ===== src/Scheduler/Tests.antt =====
-- scheduler/local.py on a table with two agents: a cron job, a one-shot that fails, and a stranger's job.
use proto_trader.Prelude.{
  ℕ, ◌+◌, ◌-◌, ◌≡◌, refl, Text, codes, text_eq, strip, split, Bool, true, false, not, ◌&&◌, Option,
  none, some, List, [], ◌∷◌, keep, leb, arith, sort_by, insert_by, All, if◌then◌else◌,
}
use proto_trader.Scheduler.{
  Job, prompt_required, malformed_schedule, already_exists, words, looks_like_iso, is_cron, is_due,
  list_jobs, claim_due_jobs, cancel_job, delete_id, update_id, compute_next_fire, add_job,
  reschedule_or_delete, fire_all, tick, drop_stale, drop_all_stale, recover_missed_fires,
}
use proto_trader.Scheduler.Rows.{Rolls, Distinct}
use proto_trader.Scheduler.{Op, adds, cancels, ticks, run}
use proto_trader.Scheduler.Shared.{run_shared}
use proto_trader.Scheduler.Tick.{tick_due}
use proto_trader.Scheduler.Fates.{each, settled}
use proto_trader.Scheduler.Recover.{recover_missed_fires_due}

abbrev job : Text → Text → Text → ℕ → Job
job id agent schedule time = record {
  id = id;
  prompt = codes "go";
  schedule = schedule;
  agent_name = agent;
  created_at = 0;
  next_fire = time;
  last_fire = none;
  enabled = true;
}

abbrev cron : Job
cron = job (codes "c") (codes "me") (codes "0 9 * * *") 40

abbrev once : Job
once = job (codes "o") (codes "me") (codes "2026-05-01T15:00:00") 90

abbrev theirs : Job
theirs = job (codes "t") (codes "you") (codes "0 9 * * *") 10

abbrev table : List Job
table = cron ∷ once ∷ theirs ∷ []

-- Every hundred units; a date is unreadable.
abbrev next_cron : Text → ℕ → Option ℕ
next_cron schedule after = some (after + 100)

abbrev parse_iso : Text → Option ℕ
parse_iso schedule = none

abbrev fire : Job → Bool
fire j = not (text_eq j.id (codes "o"))

program : Unit {0}
unfolding words looks_like_iso is_cron strip split text_eq list_jobs claim_due_jobs cancel_job
    delete_id update_id compute_next_fire add_job reschedule_or_delete fire_all tick drop_stale
    drop_all_stale recover_missed_fires sort_by insert_by
program = tt

is_cron_runs :
    (is_cron (codes " 0 9  * * 1-5 ") ≡ true)
    × (is_cron (codes "0 9 * *") ≡ false)
    × (is_cron (codes "2026-05-01 a b c d") ≡ false)
    × (is_cron (codes "0 9 * * TUE") ≡ false)
unfolding program
is_cron_runs = (refl, refl, refl, refl)

tick_runs :
    tick next_cron parse_iso (codes "me") fire 95 table
    ≡ ((record cron { next_fire = 195; last_fire = some 95 }) ∷ once ∷ theirs ∷ [], false)
unfolding program
tick_runs = refl

recover_runs :
    recover_missed_fires next_cron parse_iso (codes "me") 50 95 table
    ≡ some ((record cron { next_fire = 195 }) ∷ once ∷ theirs ∷ [])
unfolding program
recover_runs = refl

add_job_runs :
    ((add_job next_cron parse_iso
        (codes "me")
        (codes " ")
        (codes "0 9 * * *")
        []
        (codes "x")
        1
        table).1
      ≡ prompt_required)
    × ((add_job next_cron parse_iso
          (codes "me")
          (codes "p")
          (codes "soon")
          []
          (codes "x")
          1
          table).1
        ≡ malformed_schedule)
    × ((add_job next_cron parse_iso
          (codes "me")
          (codes "p")
          (codes "0 9 * * *")
          (codes "t")
          (codes "x")
          1
          table).1
        ≡ already_exists)
    × ((cancel_job (codes "me") (codes "t") table) ≡ (table, false))
    × (list_jobs (codes "me") table ≡ cron ∷ once ∷ [])
unfolding program
add_job_runs = (refl, refl, refl, refl, refl)

table-Distinct : Distinct table
unfolding text_eq
table-Distinct = (refl, (refl, (refl, tt)))

due-Rolls : All (Rolls next_cron 95) (keep (is_due (codes "me") 95) table)
unfolding text_eq
due-Rolls = (λ h. (195, refl, omega arith), (λ h. (195, refl, omega arith), tt))

stale-Rolls : All (Rolls next_cron 95) (keep (is_due (codes "me") (95 - 50)) table)
unfolding text_eq
stale-Rolls = (λ h. (195, refl, omega arith), tt)

tick_due_example :
    ((tick next_cron parse_iso (codes "me") fire 95 table).1 ≡ false)
    × ((tick next_cron parse_iso (codes "me") fire 95 table).0
        ≡ each
            (λ r.
              if is_due (codes "me") 95 r && fire r
              then settled next_cron 95 (some 95) r
              else r ∷ [])
            table)
    × (keep (is_due (codes "me") 95) (tick next_cron parse_iso (codes "me") fire 95 table).0
        ≡ keep (λ r. is_due (codes "me") 95 r && not (fire r)) table)
tick_due_example = tick_due next_cron parse_iso (codes "me") fire 95 table table-Distinct due-Rolls

recover_missed_fires_due_example :
    (rows' : List Job) × (recover_missed_fires next_cron parse_iso (codes "me") 50 95 table
      ≡ some rows')
    × (rows'
        ≡ each
            (λ r. if is_due (codes "me") (95 - 50) r then settled next_cron 95 none r else r ∷ [])
            table)
    × (keep (is_due (codes "me") 95) rows'
        ≡ keep (λ r. is_due (codes "me") 95 r && not (leb r.next_fire (95 - 50))) table)
recover_missed_fires_due_example =
    recover_missed_fires_due next_cron parse_iso (codes "me") 95 50 table table-Distinct stale-Rolls

-- The other agent takes an id that is there, cancels a job of mine and ticks.
abbrev ops : List (Text × Op)
ops =
    (codes "you", adds (codes "p") (codes "0 9 * * *") (codes "c") (codes "x") 20)
    ∷ (codes "you", cancels (codes "o"))
    ∷ (codes "you", ticks fire 95)
    ∷ []

run_shared_example :
    Distinct (run next_cron parse_iso table ops)
    × (keep (λ j. text_eq j.agent_name (codes "me")) (run next_cron parse_iso table ops)
        ≡ keep (λ j. text_eq j.agent_name (codes "me")) table)
run_shared_example =
    run_shared next_cron parse_iso (codes "me") table ops table-Distinct
      (unfold text_eq in (refl, (refl, (refl, tt))))
