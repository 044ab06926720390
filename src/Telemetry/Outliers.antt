-- ===== src/Telemetry/Outliers.antt =====
-- telemetry_store.py: which turns are flagged.
use proto_trader.Prelude.{ℕ, Bool, ◌||◌, List, keep, map}
use proto_trader.Telemetry.{Turn, Limits, Flagged, flag}

abbrev pub has_reason : Flagged → Bool
has_reason f = f.cost_reason || f.latency_reason

module _ (l : Limits) (limit med_cost med_dur : ℕ) where
  abbrev hits : List Turn → List Flagged
  hits rows = keep has_reason (map (flag l med_cost med_dur) rows)
