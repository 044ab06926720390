-- ===== src/Checkpoints.antt =====
-- graph/checkpoint_prune.py over the tables `checkpoints` and `writes`. Reading a checkpoint id as a UUID
-- is the argument `parse_uuid`: the number and the version, `none` where Python's `uuid` raises. Times
-- are ticks of 100 ns since 1582, which the code shifts to 1970 and divides by 10^7 as floating-point
-- numbers before it compares them.
pub mod Ticks
pub mod Latest
pub mod Aged
mod Tests
use proto_trader.Prelude.{
  text_lt, ℕ, zero, suc, ◌+◌, ◌-◌, ◌*◌, ◌/◌, ◌%◌, ◌^◌, max, Text, text_eq, mem_text, Bool, true,
  false, not, ◌&&◌, ◌||◌, Option, none, some, List, [], ◌∷◌, ◌++◌, keep, any, map, length, drop,
  ltb, ◌==◌, if◌then◌else◌, sort_by,
}

pub record Uuid : Type 0 where
  pub int : ℕ
  pub version : ℕ

-- The fields of the number: `>>` divides, `&` with a run of ones takes the remainder. The fields do
-- not overlap, so `|` adds.
abbrev pub time_high : ℕ → ℕ
time_high i = (i / 2 ^ 96) % 2 ^ 32

abbrev pub time_mid : ℕ → ℕ
time_mid i = (i / 2 ^ 80) % 2 ^ 16

abbrev pub time_low : ℕ → ℕ
time_low i = (i / 2 ^ 64) % 2 ^ 12

unfoldable pub ticks : ℕ → ℕ
ticks i = time_high i * 2 ^ 28 + (time_mid i * 2 ^ 12 + time_low i)

pub record Row : Type 0 where
  pub thread_id : Text
  pub checkpoint_ns : Text
  pub checkpoint_id : Text

pub record Db : Type 0 where
  pub checkpoints : List Row
  pub writes : List Row

-- `ORDER BY checkpoint_id DESC`.
abbrev pub later : Text → Text → Bool
later s t = not (text_lt s t)

-- `SELECT DISTINCT` of a column, in the order of the first rows.
unfoldable pub distinct : List Text → List Text
distinct [] = []
distinct (s ∷ l) = s ∷ keep (λ t. not (text_eq s t)) (distinct l)

abbrev pub of_thread : Text → Row → Bool
of_thread t r = text_eq r.thread_id t

abbrev pub of_group : Text → Text → Row → Bool
of_group t ns r = text_eq r.thread_id t && text_eq r.checkpoint_ns ns

abbrev pub is_row : Text → Text → Text → Row → Bool
is_row t ns id r = of_group t ns r && text_eq r.checkpoint_id id

-- The two deletions of a set of rows.
abbrev pub delete_where : (Row → Bool) → Db → Db
delete_where p db = record {
  checkpoints = keep (λ r. not (p r)) db.checkpoints;
  writes = keep (λ r. not (p r)) db.writes;
}

module _ (parse_uuid : Text → Option Uuid) where
  -- `uuidv6_unix_seconds`, in ticks.
  unfoldable pub uuidv6_ticks : Text → Option ℕ
  unfolding ticks
  uuidv6_ticks id = elim (parse_uuid id) [
    | none ↦ none
    | some u ↦ if u.version == 6 then some (ticks u.int) else none
  ]

  -- `stamps`.
  unfoldable pub stamps : List Row → List ℕ
  stamps [] = []
  stamps (r ∷ rows) = elim (uuidv6_ticks r.checkpoint_id) [
    | none ↦ stamps rows
    | some t ↦ t ∷ stamps rows
  ]

  abbrev pub newest : ℕ → List ℕ → ℕ
  newest t [] = t
  newest t (u ∷ ts) = max t (newest u ts)

  -- `stamps and max(stamps) < cutoff`.
  abbrev pub all_old : ℕ → ℕ → List ℕ → Bool
  all_old max_age now [] = false
  all_old max_age now (t ∷ ts) = ltb (newest t ts + max_age) now

  unfoldable pub is_aged : ℕ → ℕ → List Row → Text → Bool
  unfolding stamps
  is_aged max_age now rows t = all_old max_age now (stamps (keep (of_thread t) rows))

  -- `find_aged_threads`.
  unfoldable pub find_aged_threads : ℕ → ℕ → Db → List Text
  find_aged_threads max_age now db =
      keep (is_aged max_age now db.checkpoints) (distinct (map (λ r. r.thread_id) db.checkpoints))

  -- The loop of the age limit: the database, and the threads that are left.
  unfoldable pub age_threads : ℕ → ℕ → List Text → Db → Db × List Text
  age_threads max_age now [] db = (db, [])
  age_threads max_age now (t ∷ threads) db =
      if is_aged max_age now db.checkpoints t
      then age_threads max_age now threads (delete_where (of_thread t) db)
      else let rest = age_threads max_age now threads db in (rest.0, t ∷ rest.1)

-- `delete_thread`: the database and the number of checkpoints removed.
unfoldable pub delete_thread : Text → Db → Db × ℕ
delete_thread t db = (delete_where (of_thread t) db, length (keep (of_thread t) db.checkpoints))

-- `stale`: the ids behind the latest `limit` of a group.
unfoldable pub stale : ℕ → Text → Text → Db → List Text
stale limit t ns db =
    drop limit (sort_by later (map (λ r. r.checkpoint_id) (keep (of_group t ns) db.checkpoints)))

unfoldable pub delete_ids : Text → Text → List Text → Db → Db
delete_ids t ns [] db = db
delete_ids t ns (id ∷ ids) db = delete_ids t ns ids (delete_where (is_row t ns id) db)

-- The loops of the cap, with the number of checkpoints removed.
unfoldable pub cap_groups : ℕ → Text → List Text → Db → Db × ℕ
unfolding stale delete_ids
cap_groups limit t [] db = (db, 0)
cap_groups limit t (ns ∷ more) db =
    let ids = stale limit t ns db in
    let rest = cap_groups limit t more (delete_ids t ns ids db) in (rest.0, length ids + rest.1)

unfoldable pub cap_threads : ℕ → List Text → Db → Db × ℕ
unfolding cap_groups
cap_threads limit [] db = (db, 0)
cap_threads limit (t ∷ threads) db =
    let spaces = distinct (map (λ r. r.checkpoint_ns) (keep (of_thread t) db.checkpoints)) in
    let capped = cap_groups limit t spaces db in
    let rest = cap_threads limit threads capped.0 in (rest.0, capped.1 + rest.1)

pub record Pruned : Type 0 where
  pub threads_deleted : ℕ
  pub checkpoints_deleted : ℕ

module _ (parse_uuid : Text → Option Uuid) where
  -- The age limit, when there is one.
  unfoldable pub apply_age : Option ℕ → ℕ → Db → Db × List Text
  unfolding age_threads
  apply_age max_age now db =
      let threads = distinct (map (λ r. r.thread_id) db.checkpoints) in
      elim max_age [ none ↦ (db, threads) | some age ↦ age_threads parse_uuid age now threads db ]

  -- A thread is counted as deleted when the age limit takes it off the list.
  unfoldable pub prune_checkpoints : ℕ → Option ℕ → ℕ → Db → Db × Pruned
  unfolding apply_age cap_threads
  prune_checkpoints keep_per_thread max_age now db =
      let aged = apply_age max_age now db in
      let capped = cap_threads (max 1 keep_per_thread) aged.1 aged.0 in
      (
        capped.0,
        record {
          threads_deleted =
              length (distinct (map (λ r. r.thread_id) db.checkpoints)) - length aged.1;
          checkpoints_deleted = capped.1;
        },
      )
