-- ===== src/Scheduler.antt =====
-- scheduler/local.py and scheduler/interface.py: `LocalScheduler` over its table of jobs. Timestamps are
-- whole numbers: the ISO texts of the code, all in UTC, compare as their times do. `next_cron` is
-- croniter's next time strictly after another, `parse_iso` is `parse_iso_to_utc`, each `none` where it
-- raises; delivering a job over HTTP is the argument `fire`, which says whether it succeeded. The table
-- may hold the jobs of other agents. What other tasks do to the table while a job is being delivered is
-- not modelled, nor are database errors.
pub mod Rows
pub mod Tick
pub mod Fates
pub mod Settling
pub mod Recover
pub mod Isolation
pub mod History
pub mod Shared
mod Tests
use proto_trader.Prelude.{
  ℕ, zero, suc, ◌-◌, Text, codes, text_eq, is_empty, is_space, is_digit, strip, mem_text, split,
  take, drop, Bool, true, false, not, ◌&&◌, ◌||◌, Option, none, some, List, [], ◌∷◌, ◌++◌, keep,
  any, length, leb, ◌==◌, if◌then◌else◌, sort_by,
}

pub record Job : Type 0 where
  pub id : Text
  pub prompt : Text
  pub schedule : Text
  pub agent_name : Text
  pub created_at : ℕ
  pub next_fire : ℕ
  pub last_fire : Option ℕ
  pub enabled : Bool

-- How many words `\S+` there are, `inside` telling that the text before ends in one.
unfoldable pub words : Bool → Text → ℕ
unfolding is_space
words inside [] = 0
words inside (c ∷ s) =
    if is_space c then words false s else if inside then words true s else suc (words true s)

-- `re.match(r"^\d{4}-\d{2}-\d{2}", head)`.
abbrev pub is_date : Text → Bool
is_date (a ∷ b ∷ c ∷ d ∷ e ∷ f ∷ g ∷ h ∷ i ∷ j ∷ s) =
    is_digit a
    && (is_digit b
        && (is_digit c
            && (is_digit d
                && ((e == b'-')
                    && (is_digit f
                        && (is_digit g && ((h == b'-') && (is_digit i && is_digit j))))))))
is_date s = false

-- `schedule.strip().split(" ", 1)[0]`.
abbrev pub head_of : List Text → Text
head_of [] = []
head_of (w ∷ ws) = w

unfoldable pub looks_like_iso : Text → Bool
unfolding strip split
looks_like_iso schedule =
    any (λ c. c == b'T') schedule || is_date (head_of (split b' ' (strip schedule)))

-- `is_cron`: the pattern asks for five words.
unfoldable pub is_cron : Text → Bool
unfolding words looks_like_iso
is_cron schedule = (words false schedule == 5) && not (looks_like_iso schedule)

-- Whether a job of this agent is due.
abbrev pub is_due : Text → ℕ → Job → Bool
is_due agent now j = text_eq j.agent_name agent && (j.enabled && leb j.next_fire now)

-- `ORDER BY next_fire ASC`.
abbrev pub sooner : Job → Job → Bool
sooner a b = leb a.next_fire b.next_fire

unfoldable pub list_jobs : Text → List Job → List Job
list_jobs agent rows = sort_by sooner (keep (λ j. text_eq j.agent_name agent) rows)

unfoldable pub claim_due_jobs : Text → ℕ → List Job → List Job
claim_due_jobs agent now rows = sort_by sooner (keep (is_due agent now) rows)

-- `cancel_job`: the rows left, and whether one was deleted.
abbrev pub is_named : Text → Text → Job → Bool
is_named agent job_id j = text_eq j.id job_id && text_eq j.agent_name agent

unfoldable pub cancel_job : Text → Text → List Job → List Job × Bool
cancel_job agent job_id rows =
    (keep (λ j. not (is_named agent job_id j)) rows, any (is_named agent job_id) rows)

-- `DELETE FROM jobs WHERE id = ?`.
unfoldable pub delete_id : Text → List Job → List Job
delete_id job_id [] = []
delete_id job_id (j ∷ rows) =
    let rest = delete_id job_id rows in if text_eq job_id j.id then rest else j ∷ rest

-- `UPDATE jobs SET next_fire = ?, last_fire = ? WHERE id = ?`; recovery keeps the last fire.
unfoldable pub update_id : Text → ℕ → Option ℕ → List Job → List Job
update_id job_id next last [] = []
update_id job_id next last (j ∷ rows) =
    (if text_eq job_id j.id
      then record j {
        next_fire = next;
        last_fire = elim last [ none ↦ j.last_fire | some t ↦ some t ];
      }
      else j)
    ∷ update_id job_id next last rows

pub data AddResult : Type 0 where
  prompt_required malformed_schedule already_exists : AddResult
  added : Job → AddResult

-- An operation of a scheduler, with its arguments, the deliveries of a tick, and the time.
pub data Op : Type 0 where
  adds : Text → Text → Text → Text → ℕ → Op
  cancels : Text → Op
  ticks : (Job → Bool) → ℕ → Op
  recovers : ℕ → ℕ → Op

module _ (next_cron : Text → ℕ → Option ℕ) (parse_iso : Text → Option ℕ) where
  -- `_compute_next_fire`.
  unfoldable pub compute_next_fire : Text → ℕ → Option ℕ
  compute_next_fire schedule after =
      if is_cron schedule then next_cron schedule after else parse_iso schedule

  -- `add_job`; `fresh` is the generated id.
  unfoldable pub add_job : Text → Text → Text → Text → Text → ℕ → List Job → List Job × AddResult
  add_job agent prompt schedule job_id fresh now rows =
      if is_empty (strip prompt)
      then (rows, prompt_required)
      else elim (compute_next_fire schedule now) [
        | none ↦ (rows, malformed_schedule)
        | some next ↦
            let job : Job = record {
              id = if is_empty job_id then fresh else job_id;
              prompt = prompt;
              schedule = schedule;
              agent_name = agent;
              created_at = now;
              next_fire = next;
              last_fire = none;
              enabled = true;
            } in
            if any (λ j. text_eq job.id j.id) rows
            then (rows, already_exists)
            else (rows ++ job ∷ [], added job)
      ]

  -- `_reschedule_or_delete`; `none` where computing the next fire raises.
  unfoldable pub reschedule_or_delete : Job → ℕ → List Job → Option (List Job)
  reschedule_or_delete job fired_at rows =
      if is_cron job.schedule
      then elim (compute_next_fire job.schedule fired_at) [
        | none ↦ none
        | some next ↦ some (update_id job.id next (some fired_at) rows)
      ]
      else some (delete_id job.id rows)

  -- The loop of `_tick` over the claimed jobs: the table, and whether it was left by an exception.
  unfoldable pub fire_all : (Job → Bool) → ℕ → List Job → List Job → List Job × Bool
  fire_all fire now [] rows = (rows, false)
  fire_all fire now (j ∷ due) rows = elim (fire j) [
    | false ↦ fire_all fire now due rows
    | true ↦ elim (reschedule_or_delete j now rows) [
      | none ↦ (rows, true)
      | some rows' ↦ fire_all fire now due rows'
    ]
  ]

  unfoldable pub tick : Text → (Job → Bool) → ℕ → List Job → List Job × Bool
  tick agent fire now rows = fire_all fire now (claim_due_jobs agent now rows) rows

  -- One stale job in `_recover_missed_fires`.
  unfoldable pub drop_stale : Job → ℕ → List Job → Option (List Job)
  drop_stale job now rows =
      if is_cron job.schedule
      then elim (compute_next_fire job.schedule now) [
        | none ↦ none
        | some next ↦ some (update_id job.id next none rows)
      ]
      else some (delete_id job.id rows)

  unfoldable pub drop_all_stale : ℕ → List Job → List Job → Option (List Job)
  drop_all_stale now [] rows = some rows
  drop_all_stale now (j ∷ stale) rows = elim (drop_stale j now rows) [
    | none ↦ none
    | some rows' ↦ drop_all_stale now stale rows'
  ]

  -- `_recover_missed_fires`; `none` where a next fire raises, and then nothing is committed. The stale
  -- jobs are those whose time is `window` or more in the past.
  unfoldable pub recover_missed_fires : Text → ℕ → ℕ → List Job → Option (List Job)
  recover_missed_fires agent window now rows =
      drop_all_stale now (keep (is_due agent (now - window)) rows) rows

  -- The table after an operation; a recovery that raises is rolled back.
  unfoldable pub after_op : Text → List Job → Op → List Job
  after_op agent rows (adds prompt schedule job_id fresh now) =
      (add_job agent prompt schedule job_id fresh now rows).0
  after_op agent rows (cancels job_id) = (cancel_job agent job_id rows).0
  after_op agent rows (ticks fire now) = (tick agent fire now rows).0
  after_op agent rows (recovers window now) = elim (recover_missed_fires agent window now rows) [
    | none ↦ rows
    | some rows' ↦ rows'
  ]

  -- Operations of several agents on one table, in order.
  unfoldable pub run : List Job → List (Text × Op) → List Job
  unfolding after_op
  run rows [] = rows
  run rows ((agent, op) ∷ ops) = run (after_op agent rows op) ops
