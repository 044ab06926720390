-- ===== src/Workflows/Engine/Skips.antt =====
-- graph/workflows/engine.py: what the `break` and the recording of one result leave.
use proto_trader.Prelude.{
  ◌+◌, ◌≤◌, ◌≡◌, ◌⊎◌, refl, inl, inr, ap, Text, text_eq, text_eq_iff, Has, Bool, text_eq_refl, true,
  not, ◌||◌, ◌∙◌, some, All, append-Has, List, [], ◌∷◌, keep, length, arith, if◌then◌else◌, Dict,
  lookup, insert, lookup-insert, Bool-cases,
}
use proto_trader.Workflows.Engine.{
  Outcome, output, raised, Pending, Execution, has_key, skipped, raised_text, is_nil, skip_all,
  record_one,
}

pub has_key-insert :
    {V : Type 0} (k j : Text) (v : V) (d : Dict V)
    → has_key (insert j v d) k ≡ (if text_eq j k then true else has_key d k)
has_key-insert k j v d = ground (arith, lookup-insert j k v d)

pub skip_all-broken : (waiting : Pending) (e : Execution) → (skip_all waiting e).broken ≡ true
unfolding skip_all
skip_all-broken [] e = refl
skip_all-broken ((id, deps) ∷ waiting) e = skip_all-broken waiting _

pub skip_all-pending :
    (waiting : Pending) (e : Execution) → (skip_all waiting e).pending ≡ e.pending
unfolding skip_all
skip_all-pending [] e = refl
skip_all-pending ((id, deps) ∷ waiting) e = skip_all-pending waiting _

pub over_broken :
    (pending : Pending) (broken : Bool) → broken ≡ true → (is_nil pending || broken) ≡ true
over_broken [] broken h = refl
over_broken (p ∷ ps) broken h = h

pub over-cases :
    (pending : Pending) (broken : Bool)
    → (is_nil pending || broken) ≡ true
    → (pending ≡ []) ⊎ (broken ≡ true)
over-cases [] broken h = inl refl
over-cases (p ∷ ps) broken h = inr h

pub is_nil→eq : (pending : Pending) → is_nil pending ≡ true → pending ≡ []
is_nil→eq [] h = refl
is_nil→eq (p ∷ ps) h = cc

pub length-zero : (pending : Pending) → length pending ≤ 0 → pending ≡ []
length-zero [] le = refl
length-zero (p ∷ ps) le = absurd (omega arith)

pub nothing_waits : (k : Text) (pending : Pending) → pending ≡ [] → ¬ (has_key pending k ≡ true)
unfolding lookup
nothing_waits k pending e h = cc (ap (λ (p : Pending). has_key p k) e)

-- Whether a step waits or has an output.
abbrev pub Covered : Text → Pending → Dict Text → Type 0
Covered k pending done = (has_key pending k ≡ true) ⊎ (has_key done k ≡ true)

pub skip_all-done :
    (k : Text) (waiting : Pending) (e : Execution)
    → Covered k waiting e.done
    → has_key (skip_all waiting e).done k ≡ true
unfolding skip_all lookup
skip_all-done k [] e c = ground (arith, c)
skip_all-done k ((id, deps) ∷ waiting) e c =
    skip_all-done k waiting _ (ground (arith, c, has_key-insert k id (skipped id) e.done))

pub has_key-keep :
    (k : Text) (p : Text × List Text → Bool) (pending : Pending)
    → has_key pending k ≡ true
    → (has_key (keep p pending) k ≡ true) ⊎ (has_key (keep (λ x. not (p x)) pending) k ≡ true)
unfolding lookup
has_key-keep k p [] h = inl h
has_key-keep k p ((id, deps) ∷ pending) h = ground (arith, h, has_key-keep k p pending)

pub length-keep-not :
    (p : Text × List Text → Bool) (pending : Pending)
    → length (keep p pending) + length (keep (λ x. not (p x)) pending) ≡ length pending
length-keep-not p [] = refl
length-keep-not p (x ∷ pending) = ground (arith, length-keep-not p pending)

pub record_one-done :
    (k id : Text) (o : Outcome) (e : Execution)
    → has_key (record_one id o e).done k ≡ (if text_eq id k then true else has_key e.done k)
unfolding record_one
record_one-done k id (output text) e = has_key-insert k id text e.done
record_one-done k id (raised message) e = has_key-insert k id (raised_text id message) e.done

pub record_one-broken :
    (id : Text) (o : Outcome) (e : Execution) → (record_one id o e).broken ≡ e.broken
unfolding record_one
record_one-broken id (output text) e = refl
record_one-broken id (raised message) e = refl

-- A step that is recorded as skipped, and among the failed ones.
abbrev pub Skips : Execution → Text × List Text → Type 0
Skips e p = (lookup p.0 e.done ≡ some (skipped p.0)) × Has p.0 e.failed

still_skipped :
    (j id : Text) (done : Dict Text)
    → lookup id done ≡ some (skipped id)
    → lookup id (insert j (skipped j) done) ≡ some (skipped id)
still_skipped j id done h = elim (Bool-cases (text_eq j id)) [
  | inl same ↦
      lookup-insert j id (skipped j) done
      ∙ rw same (ap (λ k. some (skipped k)) ((text_eq_iff j id).0 same))
  | inr other ↦ lookup-insert j id (skipped j) done ∙ rw other h
]

skip_all-stays :
    (id : Text) (waiting : Pending) (e : Execution)
    → lookup id e.done ≡ some (skipped id)
    → Has id e.failed
    → (lookup id (skip_all waiting e).done ≡ some (skipped id)) × Has id (skip_all waiting e).failed
unfolding skip_all
skip_all-stays id [] e h f = (h, f)
skip_all-stays id ((j, deps) ∷ waiting) e h f =
    skip_all-stays id waiting _ (still_skipped j id e.done h)
      (append-Has id e.failed (j ∷ []) (inl f))

skip_all-each :
    (waiting : Pending) (e : Execution)
    → All
        (λ p.
          (lookup p.0 (skip_all waiting e).done ≡ some (skipped p.0))
          × Has p.0 (skip_all waiting e).failed)
        waiting
unfolding skip_all
skip_all-each [] e = tt
skip_all-each ((id, deps) ∷ waiting) e = (
  skip_all-stays id waiting _ (lookup-insert id id (skipped id) e.done ∙ rw text_eq_refl refl)
      (append-Has id e.failed (id ∷ []) (inr (inl refl))),
  skip_all-each waiting _,
)

pub skip_all-Skips :
    (e : Execution) → All (Skips (skip_all e.pending e)) (skip_all e.pending e).pending
skip_all-Skips e = rw (skip_all-pending e.pending e) (skip_all-each e.pending e)
