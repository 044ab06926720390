-- ===== src/Workflows/Engine/Order.antt =====
-- graph/workflows/engine.py: the order in which the steps are started.
use mathlib.Core.List.{map-append}
use proto_trader.Prelude.{
  ℕ, zero, suc, ◌≡◌, ◌∙◌, ◌⊎◌, refl, inl, inr, Text, text_eq_iff, Has, true, false, ◌||◌, List, [],
  ◌∷◌, ◌++◌, subst, sym, map, keep, all, length, arith, Dict, lookup, All, Bool-cases, append-Has,
}
use proto_trader.Workflows.Engine.{
  Step, Outcome, output, raised, Pending, Execution, pending_of, by_id_of, has_key, is_ready,
  is_nil, skip_all, record_one, run_one, record_all, round_with, round, rounds, start,
  execute_steps,
}
use proto_trader.Workflows.Engine.Skips.{record_one-done, skip_all-broken}

abbrev pub ids : Pending → List Text
ids = map (λ p. p.0)

-- Each entry's dependencies are among `seen` and the ids of the entries before it.
abbrev pub Follows : List Text → Pending → Type 0
Follows seen [] = Unit
Follows seen ((id, deps) ∷ log) = All (λ d. Has d seen) deps × Follows (id ∷ seen) log

-- The dependencies of each entry are among two lists of ids.
abbrev Known : List Text → List Text → Pending → Type 0
Known seen others = All (λ p. All (λ d. Has d seen ⊎ Has d others) p.1)

Known-move :
    (seen others : List Text) (id : Text) (log : Pending)
    → Known seen (id ∷ others) log
    → Known (id ∷ seen) others log
Known-move seen others id [] k = tt
Known-move seen others id ((j, deps) ∷ log) k = (go deps k.0, Known-move seen others id log k.1)
  where
    go :
        (ds : List Text)
        → All (λ d. Has d seen ⊎ Has d (id ∷ others)) ds
        → All (λ d. Has d (id ∷ seen) ⊎ Has d others) ds
    go [] h = tt
    go (d ∷ ds) (inl s, h) = (inl (inr s), go ds h)
    go (d ∷ ds) (inr (inl e), h) = (inl (inl e), go ds h)
    go (d ∷ ds) (inr (inr o), h) = (inr o, go ds h)

weaken :
    (seen : List Text) (id : Text) (log : Pending) → Known seen [] log → Known (id ∷ seen) [] log
weaken seen id [] k = tt
weaken seen id ((j, deps) ∷ log) k = (go deps k.0, weaken seen id log k.1)
  where
    go :
        (ds : List Text)
        → All (λ d. Has d seen ⊎ Has d []) ds
        → All (λ d. Has d (id ∷ seen) ⊎ Has d []) ds
    go [] h = tt
    go (d ∷ ds) (inl s, h) = (inl (inr s), go ds h)
    go (d ∷ ds) (inr o, h) = absurd o

Known→Follows : (seen : List Text) (log : Pending) → Known seen [] log → Follows seen log
Known→Follows seen [] k = tt
Known→Follows seen ((id, deps) ∷ log) k =
    (go deps k.0, Known→Follows (id ∷ seen) log (weaken seen id log k.1))
  where
    go : (ds : List Text) → All (λ d. Has d seen ⊎ Has d []) ds → All (λ d. Has d seen) ds
    go [] h = tt
    go (d ∷ ds) (inl s, h) = (s, go ds h)
    go (d ∷ ds) (inr o, h) = absurd o

Follows-append :
    (seen : List Text) (log more : Pending)
    → Follows seen log
    → Known seen (ids log) more
    → Follows seen (log ++ more)
Follows-append seen [] more f k = Known→Follows seen more k
Follows-append seen ((id, deps) ∷ log) more f k =
    (f.0, Follows-append (id ∷ seen) log more f.1 (Known-move seen (ids log) id more k))

-- What the loop keeps: the log is in order, and until the `break` every output is that of a step
-- in the log.
record Inv (e : Execution) : Type 0 where
  order : Follows [] e.ran
  source : (e.broken ≡ true) ⊎ ((k : Text) → has_key e.done k ≡ true → Has k (ids e.ran))

ready-Known :
    (done : Dict Text) (log : List Text) (pending : Pending)
    → ((k : Text) → has_key done k ≡ true → Has k log)
    → Known [] log (keep (is_ready done) pending)
ready-Known done log [] src = tt
ready-Known done log ((id, deps) ∷ pending) src = elim (Bool-cases (is_ready done (id, deps))) [
  | inl ready ↦ rw ready (go deps ready, ready-Known done log pending src)
  | inr waits ↦ rw waits (ready-Known done log pending src)
]
  where
    go : (ds : List Text) → all (has_key done) ds ≡ true → All (λ d. Has d [] ⊎ Has d log) ds
    go [] h = tt
    go (d ∷ ds) h = (inr (src d (ground (arith, h))), go ds (ground (arith, h)))

record_one-ran : (id : Text) (o : Outcome) (e : Execution) → (record_one id o e).ran ≡ e.ran
unfolding record_one
record_one-ran id (output text) e = refl
record_one-ran id (raised message) e = refl

pub skip_all-ran : (waiting : Pending) (e : Execution) → (skip_all waiting e).ran ≡ e.ran
unfolding skip_all
skip_all-ran [] e = refl
skip_all-ran ((id, deps) ∷ waiting) e = skip_all-ran waiting _

module _ (run_step : Text → Text → Text → Outcome) (inputs : Dict Text) (by_id : Dict Step) where
  pub record_all-source :
      (k : Text) (before : Dict Text) (ready : Pending) (e : Execution)
      → has_key (record_all run_step inputs by_id before ready e).done k ≡ true
      → (has_key e.done k ≡ true) ⊎ Has k (ids ready)
  unfolding record_all
  record_all-source k before [] e h = inl h
  record_all-source k before ((id, deps) ∷ ready) e h =
      let one = record_one id (run_one run_step inputs by_id before id) e in
      elim (record_all-source k before ready one h) [
        | inl old ↦ ground (
          arith,
          old,
          text_eq_iff id k,
          record_one-done k id (run_one run_step inputs by_id before id) e,
        )
        | inr new ↦ inr (inr new)
      ]

  pub record_all-ran :
      (before : Dict Text) (ready : Pending) (e : Execution)
      → (record_all run_step inputs by_id before ready e).ran ≡ e.ran
  unfolding record_all
  record_all-ran before [] e = refl
  record_all-ran before ((id, deps) ∷ ready) e =
      record_all-ran before ready (record_one id (run_one run_step inputs by_id before id) e)
      ∙ record_one-ran id (run_one run_step inputs by_id before id) e

  round_with-Inv :
      (ready : Pending) (e : Execution)
      → ready ≡ keep (is_ready e.done) e.pending
      → e.broken ≡ false
      → Inv e
      → Inv (round_with run_step inputs by_id ready e)
  unfolding round_with
  round_with-Inv [] e h more inv = record {
    order = rw (skip_all-ran e.pending e) inv.order;
    source = inl (skip_all-broken e.pending e);
  }
  round_with-Inv (r ∷ rs) e h more inv = elim inv.source [
    | inl broken ↦ absurd (ground (arith, broken, more))
    | inr source ↦ record {
      order =
          Follows-append [] e.ran (r ∷ rs) inv.order (
            subst (Known [] (ids e.ran)) (sym h) (ready-Known e.done (ids e.ran) e.pending source));
      source = inr λ k p. rw map-append (
          append-Has k (ids e.ran) (ids (r ∷ rs)) (elim (record_all-source k e.done (r ∷ rs) e p) [
            | inl old ↦ inl (source k old)
            | inr new ↦ inr new
          ]));
    }
  ]

  rounds-Inv : (fuel : ℕ) (e : Execution) → Inv e → Inv (rounds run_step inputs by_id fuel e)
  unfolding rounds round
  rounds-Inv zero e inv = inv
  rounds-Inv (suc fuel) e inv = elim (Bool-cases (is_nil e.pending || e.broken)) [
    | inl done ↦ rw (done, rounds) inv
    | inr more ↦
        rw (more, rounds)
          (rounds-Inv fuel (round run_step inputs by_id e)
            (round_with-Inv _ e refl (ground (arith, more)) inv))
  ]

-- In the log of the steps started, each step stands behind all of its dependencies.
pub execute_steps-Follows :
    (run_step : Text → Text → Text → Outcome) (inputs : Dict Text) (steps : List Step)
    → Follows [] (execute_steps run_step inputs steps).ran
unfolding execute_steps lookup
execute_steps-Follows run_step inputs steps =
    (rounds-Inv run_step inputs (by_id_of steps []) (length (pending_of steps [])) (start steps)
      record { order = tt; source = inr λ k p. cc p }).order
