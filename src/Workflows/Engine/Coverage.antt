-- ===== src/Workflows/Engine/Coverage.antt =====
-- graph/workflows/engine.py: the loop ends by its own condition or its `break`, and every step gets an output.
use proto_trader.Prelude.{
  ℕ, zero, suc, ◌≤◌, ◌≡◌, ◌⊎◌, refl, sym, inl, inr, ap, Text, text_eq_iff, Has, true, false, ◌||◌,
  ◌∙◌, some, All, List, [], ◌∷◌, map, keep, length, arith, Dict, lookup, insert, Bool-cases,
}
use proto_trader.Workflows.Engine.{
  Step, Outcome, Pending, Execution, pending_of, by_id_of, has_key, is_ready, skipped, is_nil,
  record_one, run_one, record_all, round_with, round, rounds, start, execute_steps,
}
use proto_trader.Workflows.Engine.Skips.{
  has_key-insert, skip_all-broken, over_broken, over-cases, length-zero, nothing_waits, Covered,
  skip_all-done, has_key-keep, length-keep-not, record_one-done, record_one-broken, Skips,
  skip_all-Skips,
}

-- A step has an output, or it waits and the loop was not broken off; if it was, the waiting steps
-- were skipped.
abbrev Kept : Text → Execution → Type 0
Kept k e =
    ((has_key e.done k ≡ true) ⊎ ((has_key e.pending k ≡ true) × (e.broken ≡ false)))
    × ((e.broken ≡ false) ⊎ All (Skips e) e.pending)

module _ (run_step : Text → Text → Text → Outcome) (inputs : Dict Text) (by_id : Dict Step) where
  record_all-done :
      (k : Text) (before : Dict Text) (ready : Pending) (e : Execution)
      → Covered k ready e.done
      → has_key (record_all run_step inputs by_id before ready e).done k ≡ true
  unfolding record_all lookup
  record_all-done k before [] e c = ground (arith, c)
  record_all-done k before ((id, deps) ∷ ready) e c =
      record_all-done k before ready (record_one id (run_one run_step inputs by_id before id) e)
        (ground (arith, c, record_one-done k id (run_one run_step inputs by_id before id) e))

  pub round_with-Covered :
      (k : Text) (ready : Pending) (e : Execution)
      → ready ≡ keep (is_ready e.done) e.pending
      → Covered k e.pending e.done
      → Covered k
          (round_with run_step inputs by_id ready e).pending
          (round_with run_step inputs by_id ready e).done
  unfolding round_with
  round_with-Covered k [] e h c = inr (skip_all-done k e.pending e c)
  round_with-Covered k (r ∷ rs) e h c = elim c [
    | inl waits ↦ elim (has_key-keep k (is_ready e.done) e.pending waits) [
      | inl ready ↦ inr (record_all-done k e.done (r ∷ rs) e (inl (rw h ready)))
      | inr unready ↦ inl unready
    ]
    | inr there ↦ inr (record_all-done k e.done (r ∷ rs) e (inr there))
  ]

  length-round_with-le :
      (ready : Pending) (e : Execution) (n : ℕ)
      → ready ≡ keep (is_ready e.done) e.pending
      → length e.pending ≤ suc n
      → ((round_with run_step inputs by_id ready e).broken ≡ true)
        ⊎ (length (round_with run_step inputs by_id ready e).pending ≤ n)
  unfolding round_with
  length-round_with-le [] e n h le = inl (skip_all-broken e.pending e)
  length-round_with-le (r ∷ rs) e n h le =
      inr (omega (arith, length-keep-not (is_ready e.done) e.pending, ap length h))

  -- The loop is left because nothing waits, or by its `break`.
  pub rounds-over :
      (fuel : ℕ) (e : Execution)
      → (e.broken ≡ true) ⊎ (length e.pending ≤ fuel)
      → ((rounds run_step inputs by_id fuel e).pending ≡ [])
        ⊎ ((rounds run_step inputs by_id fuel e).broken ≡ true)
  unfolding rounds round
  rounds-over zero e (inl b) = inr b
  rounds-over zero e (inr le) = inl (length-zero e.pending le)
  rounds-over (suc fuel) e (inl b) = rw (over_broken e.pending e.broken b, rounds) (inr b)
  rounds-over (suc fuel) e (inr le) = elim (Bool-cases (is_nil e.pending || e.broken)) [
    | inl over ↦ rw (over, rounds) (over-cases e.pending e.broken over)
    | inr more ↦
        rw (more, rounds)
          (rounds-over fuel (round run_step inputs by_id e) (length-round_with-le _ e fuel refl le))
  ]

  record_all-broken :
      (before : Dict Text) (ready : Pending) (e : Execution)
      → (record_all run_step inputs by_id before ready e).broken ≡ e.broken
  unfolding record_all
  record_all-broken before [] e = refl
  record_all-broken before ((id, deps) ∷ ready) e =
      record_all-broken before ready (record_one id (run_one run_step inputs by_id before id) e)
      ∙ record_one-broken id (run_one run_step inputs by_id before id) e

  -- What one round keeps, when the loop was not left before it.
  round_with-Kept :
      (k : Text) (ready : Pending) (e : Execution)
      → ready ≡ keep (is_ready e.done) e.pending
      → e.broken ≡ false
      → Kept k e
      → Kept k (round_with run_step inputs by_id ready e)
  unfolding round_with
  round_with-Kept k [] e h fine (c, s) =
      (inl (skip_all-done k e.pending e (ground (arith, c))), inr (skip_all-Skips e))
  round_with-Kept k (r ∷ rs) e h fine (c, s) =
      let unbroken = record_all-broken e.done (r ∷ rs) e ∙ fine in
      (
        elim (round_with-Covered k (r ∷ rs) e h (ground (arith, c))) [
          | inl waits ↦ inr (waits, unbroken)
          | inr there ↦ inl there
        ],
        inl unbroken,
      )

  rounds-Kept :
      (k : Text) (fuel : ℕ) (e : Execution)
      → Kept k e
      → Kept k (rounds run_step inputs by_id fuel e)
  unfolding rounds round
  rounds-Kept k zero e c = c
  rounds-Kept k (suc fuel) e c = elim (Bool-cases (is_nil e.pending || e.broken)) [
    | inl over ↦ rw (over, rounds) c
    | inr more ↦
        rw (more, rounds)
          (rounds-Kept k fuel (round run_step inputs by_id e)
            (round_with-Kept k _ e refl (ground (arith, more)) c))
  ]

kept_done :
    (k : Text) (e : Execution)
    → (e.pending ≡ []) ⊎ (e.broken ≡ true)
    → (has_key e.done k ≡ true) ⊎ ((has_key e.pending k ≡ true) × (e.broken ≡ false))
    → has_key e.done k ≡ true
kept_done k e over (inl there) = there
kept_done k e (inl idle) (inr (waits, fine)) = absurd (nothing_waits k e.pending idle waits)
kept_done k e (inr b) (inr (waits, fine)) = absurd (ground (arith, b, fine))

over_Skips :
    (e : Execution)
    → (e.pending ≡ []) ⊎ (e.broken ≡ true)
    → (e.broken ≡ false) ⊎ All (Skips e) e.pending
    → All (Skips e) e.pending
over_Skips e over (inr skips) = skips
over_Skips e (inl idle) (inl fine) = rw idle tt
over_Skips e (inr b) (inl fine) = absurd (ground (arith, b, fine))

pub pending_of-keeps :
    (k : Text) (steps : List Step) (pending : Pending)
    → has_key pending k ≡ true
    → has_key (pending_of steps pending) k ≡ true
unfolding pending_of
pending_of-keeps k [] pending h = h
pending_of-keeps k (s ∷ steps) pending h =
    pending_of-keeps k steps (insert s.id s.depends_on pending)
      (ground (arith, h, has_key-insert k s.id s.depends_on pending))

pub pending_of-Has :
    (k : Text) (steps : List Step) (pending : Pending)
    → Has k (map (λ s. s.id) steps)
    → has_key (pending_of steps pending) k ≡ true
unfolding pending_of
pending_of-Has k [] pending h = absurd h
pending_of-Has k (s ∷ steps) pending (inl e) =
    pending_of-keeps k steps (insert s.id s.depends_on pending)
      (ground (arith, (text_eq_iff s.id k).1 (sym e), has_key-insert k s.id s.depends_on pending))
pending_of-Has k (s ∷ steps) pending (inr h) =
    pending_of-Has k steps (insert s.id s.depends_on pending) h

-- The loop is left by its own condition, because no step waits, or by its `break`; the bound on the
-- rounds is never what ends it. Then every step of the recipe has an output (its own, its error, or
-- that it was skipped), and each step that still waits, as in a cycle, is recorded as skipped and
-- among the failed ones. This holds whatever the steps return or raise and whatever the dependencies
-- are, cycles and unknown ids included.
pub execute_steps-covers :
    (run_step : Text → Text → Text → Outcome) (inputs : Dict Text) (steps : List Step) (k : Text)
    → Has k (map (λ s. s.id) steps)
    → (has_key (execute_steps run_step inputs steps).done k ≡ true)
      × (((execute_steps run_step inputs steps).pending ≡ [])
          ⊎ ((execute_steps run_step inputs steps).broken ≡ true))
      × All
          (λ p.
            (lookup p.0 (execute_steps run_step inputs steps).done ≡ some (skipped p.0))
            × Has p.0 (execute_steps run_step inputs steps).failed)
          (execute_steps run_step inputs steps).pending
unfolding execute_steps
execute_steps-covers run_step inputs steps k h =
    let by_id = by_id_of steps [] in
    let all_rounds = length (pending_of steps []) in
    let over = rounds-over run_step inputs by_id all_rounds (start steps) (inr (omega arith)) in
    let (kept, skips) =
      rounds-Kept run_step inputs by_id k all_rounds (start steps)
        (inr (pending_of-Has k steps [] h, refl), inl refl) in
    let e = rounds run_step inputs by_id all_rounds (start steps) in
    (kept_done k e over kept, over, over_Skips e over skips)
