-- ===== src/Checkpoints/Ticks.antt =====
-- graph/checkpoint_prune.py: the time in a version-6 UUID.
use proto_trader.Prelude.{ℕ, ◌+◌, ◌*◌, ◌/◌, ◌%◌, ◌^◌, ◌≤◌, ◌<◌, ◌≡◌, arith}
use proto_trader.Checkpoints.{ticks}

-- The number of a version-6 UUID of a time in ticks, `rest` being the clock sequence and the node.
abbrev pub uuid_of : ℕ → ℕ → ℕ
uuid_of t rest =
    (t / 2 ^ 28) * 2 ^ 96
    + ((t / 2 ^ 12) % 2 ^ 16) * 2 ^ 80
    + 6 * 2 ^ 76
    + (t % 2 ^ 12) * 2 ^ 64
    + rest

-- The time that is read from a version-6 number is the one that the number was made of.
pub ticks-uuid_of : (t rest : ℕ) → t < 2 ^ 60 → rest < 2 ^ 64 → ticks (uuid_of t rest) ≡ t
unfolding ticks
ticks-uuid_of t rest ht hr = omega arith

-- Version-6 numbers of 128 bits are ordered by the time in them, which has 60 bits.
pub ticks_mono :
    (i j : ℕ)
    → (i / 2 ^ 76) % 16 ≡ 6
    → (j / 2 ^ 76) % 16 ≡ 6
    → j < 2 ^ 128
    → i ≤ j
    → (ticks i ≤ ticks j) × (ticks j < 2 ^ 60)
unfolding ticks
ticks_mono i j vi vj hj le = omega arith
