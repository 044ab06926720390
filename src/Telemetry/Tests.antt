-- ===== src/Telemetry/Tests.antt =====
-- telemetry_store.py on small inputs.
use proto_trader.Prelude.{
  ℕ, ◌*◌, ◌≤◌, ◌≡◌, refl, Text, codes, text_eq, true, List, [], ◌∷◌, length, count, map, ltb, leb,
  arith, insert_by, sort_by,
}
use proto_trader.Telemetry.{
  Turn, record_turn, recent, prune, round_half_even, rank_of, percentile, median_twice, Limits,
  Flagged, flag_loop, outliers,
}
use proto_trader.Telemetry.Percentile.{percentile-divides}

abbrev turn : Text → ℕ → ℕ → ℕ → Turn
turn id cost ms ended = record {
  task_id = id;
  session_id = codes "s";
  state = codes "completed";
  success = true;
  model = codes "m";
  models = codes "m";
  input_tokens = 1;
  output_tokens = 1;
  total_tokens = 2;
  cache_read_input_tokens = 0;
  cache_creation_input_tokens = 0;
  cost_usd = cost;
  duration_ms = ms;
  llm_calls = 1;
  tool_calls = 0;
  created_at = 0;
  ended_at = ended;
}

program : Unit {0}
unfolding record_turn recent prune round_half_even rank_of percentile median_twice flag_loop
    outliers text_eq insert_by sort_by
program = tt

-- Of two values, the 50th percentile by nearest rank is the first, and this is the second.
percentile_runs :
    (percentile (10 ∷ 90 ∷ []) 50 ≡ 90)
    × (percentile (1 ∷ 2 ∷ 3 ∷ 4 ∷ []) 50 ≡ 2)
    × (percentile [] 95 ≡ 0)
    × (median_twice (9 ∷ 1 ∷ 4 ∷ 2 ∷ []) ≡ 6)
unfolding program
percentile_runs = (refl, refl, refl, refl)

percentile-divides_example :
    (100 * count (λ w. ltb w (percentile (10 ∷ 20 ∷ 90 ∷ []) 95)) (10 ∷ 20 ∷ 90 ∷ []) ≤ 95 * 3)
    × (95 * 3 ≤ 100 * count (λ w. leb w (percentile (10 ∷ 20 ∷ 90 ∷ []) 95)) (10 ∷ 20 ∷ 90 ∷ []))
percentile-divides_example =
    percentile-divides 10 (20 ∷ 90 ∷ []) 95 (refl, (refl, tt)) (omega arith)

abbrev rows : List Turn
rows = record_turn (turn (codes "a") 3 200 5) (
    turn (codes "a") 9 9 1
    ∷ turn (codes "b") 2 100 2
    ∷ turn (codes "c") 40 100 3
    ∷ turn (codes "d") 2 900 4
    ∷ [])

abbrev five : Limits
five = record { cost_num = 5; cost_den = 1; latency_num = 5; latency_den = 1 }

table_runs :
    (length rows ≡ 4)
    × ((prune 1 5 rows).1 ≡ 2)
    × (length (record_turn (turn [] 1 1 1) []) ≡ 0)
    × (map (λ (f : Flagged). f.turn.task_id) (outliers five 200 20 rows)
        ≡ codes "d" ∷ codes "c" ∷ [])
unfolding program
table_runs = (refl, refl, refl, refl)
