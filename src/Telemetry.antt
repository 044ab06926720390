-- ===== src/Telemetry.antt =====
-- telemetry_store.py: a row for each turn, and what is read from them. Costs are whole numbers of one unit,
-- times are numbers, and a multiple of a median is a fraction.
pub mod Percentile
pub mod Outliers
mod Tests
use proto_trader.Prelude.{
  ℕ, zero, suc, ◌+◌, ◌-◌, ◌*◌, ◌/◌, ◌%◌, min, max, Text, text_eq, is_empty, Bool, true, false, not,
  ◌&&◌, ◌||◌, Option, none, some, List, [], ◌∷◌, ◌++◌, keep, length, map, take, ltb, leb, ◌==◌,
  if◌then◌else◌, sort_by,
}

pub record Turn : Type 0 where
  pub task_id : Text
  pub session_id : Text
  pub state : Text
  pub success : Bool
  pub model : Text
  pub models : Text
  pub input_tokens : ℕ
  pub output_tokens : ℕ
  pub total_tokens : ℕ
  pub cache_read_input_tokens : ℕ
  pub cache_creation_input_tokens : ℕ
  pub cost_usd : ℕ
  pub duration_ms : ℕ
  pub llm_calls : ℕ
  pub tool_calls : ℕ
  pub created_at : ℕ
  pub ended_at : ℕ

abbrev pub put : Turn → List Turn → List Turn
put row [] = row ∷ []
put row (r ∷ rows) = if text_eq r.task_id row.task_id then row ∷ rows else r ∷ put row rows

-- `record`: a row without a task is left out, and a second row of a task replaces the first.
unfoldable pub record_turn : Turn → List Turn → List Turn
record_turn row rows = if is_empty row.task_id then rows else put row rows

-- `ORDER BY ended_at DESC`.
abbrev pub newer : Turn → Turn → Bool
newer s t = leb t.ended_at s.ended_at

unfoldable pub recent : ℕ → List Turn → List Turn
recent limit rows = take (max 1 limit) (sort_by newer rows)

-- `prune`, with the number of rows removed; `keep_for` is the time of `keep_days`.
unfoldable pub prune : ℕ → ℕ → List Turn → List Turn × ℕ
prune keep_for now rows =
    let old : Turn → Bool = λ r. ltb (r.ended_at + keep_for) now in
    (keep (λ r. not (old r)) rows, length (keep old rows))

-- Python's `round` of the fraction `a / b`: a half goes to the even neighbour.
unfoldable pub round_half_even : ℕ → ℕ → ℕ
round_half_even a b =
    if ltb (2 * (a % b)) b
    then a / b
    else if ltb b (2 * (a % b))
    then suc (a / b)
    else if (a / b) % 2 == 0
    then a / b
    else suc (a / b)

abbrev pub nth : ℕ → List ℕ → ℕ
nth k [] = 0
nth zero (v ∷ vs) = v
nth (suc k) (v ∷ vs) = nth k vs

-- `k` of `_percentile`: `round(pct / 100 * n + 0.5) - 1`, within the list.
unfoldable pub rank_of : ℕ → ℕ → ℕ
unfolding round_half_even
rank_of pct n = min (n - 1) (round_half_even (2 * pct * n + 100) 200 - 1)

unfoldable pub percentile : List ℕ → ℕ → ℕ
unfolding rank_of
percentile values pct = nth (rank_of pct (length values)) values

-- Twice the median, since the mean of the two middle values need not be whole.
unfoldable pub median_twice : List ℕ → ℕ
median_twice values =
    let s = sort_by leb values in
    let n = length s in
    if n == 0
    then 0
    else if n % 2 == 1
    then 2 * nth (n / 2) s
    else nth (n / 2 - 1) s + nth (n / 2) s

-- `med > 0 and value >= med * multiple`.
abbrev pub exceeds : ℕ → ℕ → ℕ → ℕ → Bool
exceeds med_twice num den value = ltb 0 med_twice && leb (med_twice * num) (2 * value * den)

pub record Limits : Type 0 where
  pub cost_num : ℕ
  pub cost_den : ℕ
  pub latency_num : ℕ
  pub latency_den : ℕ

pub record Flagged : Type 0 where
  pub turn : Turn
  pub cost_reason : Bool
  pub latency_reason : Bool

abbrev pub flag : Limits → ℕ → ℕ → Turn → Flagged
flag l med_cost med_dur r = record {
  turn = r;
  cost_reason = exceeds med_cost l.cost_num l.cost_den r.cost_usd;
  latency_reason = exceeds med_dur l.latency_num l.latency_den r.duration_ms;
}

-- The loop of `outliers`, with the turns flagged so far.
unfoldable pub flag_loop : Limits → ℕ → ℕ → ℕ → List Flagged → List Turn → List Flagged
flag_loop l limit med_cost med_dur flagged [] = flagged
flag_loop l limit med_cost med_dur flagged (r ∷ rows) =
    let f = flag l med_cost med_dur r in
    let flagged' = if f.cost_reason || f.latency_reason then flagged ++ f ∷ [] else flagged in
    let rest = flag_loop l limit med_cost med_dur flagged' rows in
    if leb limit (length flagged') then flagged' else rest

unfoldable pub outliers : Limits → ℕ → ℕ → List Turn → List Flagged
unfolding recent median_twice flag_loop
outliers l sample limit rows =
    let last = recent sample rows in
    flag_loop l limit (median_twice (map (λ (r : Turn). r.cost_usd) last))
      (median_twice (map (λ (r : Turn). r.duration_ms) last)) [] last
