-- ===== src/Workflows/Engine/Complete.antt =====
-- graph/workflows/engine.py: a recipe without unknown dependencies and without cycles is run whole.
use proto_trader.Prelude.{
  ℕ, zero, suc, ◌≤◌, ◌<◌, ◌≡◌, ◌⊎◌, refl, inl, inr, subst, sym, Text, text_eq, text_eq_iff,
  text_eq_refl, Has, Bool, true, false, some, List, [], ◌∷◌, map, keep, all, arith, Dict, lookup,
  insert, All, Bool-cases,
}
use proto_trader.Workflows.Engine.{Step, Pending, pending_of, has_key, is_ready, is_nil}
use proto_trader.Workflows.Engine.Skips.{Covered}

has_key→lookup :
    (k : Text) (pending : Pending)
    → has_key pending k ≡ true
    → (deps : List Text) × (lookup k pending ≡ some deps)
unfolding lookup
has_key→lookup k [] h = cc h
has_key→lookup k ((id, deps) ∷ pending) h = elim (Bool-cases (text_eq id k)) [
  | inl e ↦ (deps, rw e refl)
  | inr n ↦
      let found = has_key→lookup k pending (ground (arith, h, n)) in
      (found.0, ground (arith, n, found.1))
]

missing :
    {Q : Text → Type 0} (f : Text → Bool) (ds : List Text)
    → All Q ds
    → all f ds ≡ false
    → (d : Text) × Q d × (f d ≡ false)
missing f [] q h = cc h
missing f (d ∷ ds) (qd, q) h = elim (Bool-cases (f d)) [
  | inl e ↦ missing f ds q (ground (arith, h, e))
  | inr n ↦ (d, qd, n)
]

keep_ready :
    (done : Dict Text) (id : Text) (deps : List Text) (pending : Pending)
    → lookup id pending ≡ some deps
    → all (has_key done) deps ≡ true
    → is_nil (keep (is_ready done) pending) ≡ false
unfolding lookup
keep_ready done id deps [] h ready = cc h
keep_ready done id deps ((j, ds) ∷ pending) h ready = elim (Bool-cases (is_ready done (j, ds))) [
  | inl e ↦ rw e refl
  | inr n ↦ elim (Bool-cases (text_eq j id)) [
    | inl same ↦ absurd (ground (arith, h, same, n, ready))
    | inr other ↦ rw n (keep_ready done id deps pending (ground (arith, h, other)) ready)
  ]
]

module _ (rank : Text → ℕ) where
  -- Every dependency of the entries ranks below them, and waits or has an output.
  abbrev pub Sound : Pending → Dict Text → Pending → Type 0
  Sound pending done = All (λ p. All (λ d. (rank d < rank p.0) × Covered d pending done) p.1)

  Sound-at :
      (pending : Pending) (done : Dict Text) (id : Text) (deps : List Text) (entries : Pending)
      → Sound pending done entries
      → lookup id entries ≡ some deps
      → All (λ d. (rank d < rank id) × Covered d pending done) deps
  unfolding lookup
  Sound-at pending done id deps [] s h = cc h
  Sound-at pending done id deps ((j, ds) ∷ entries) s h = elim (Bool-cases (text_eq j id)) [
    | inl same ↦
        subst (λ k. All (λ d. (rank d < rank k) × Covered d pending done) deps)
          ((text_eq_iff j id).0 same)
          (subst (All (λ d. (rank d < rank j) × Covered d pending done)) (ground (arith, h, same))
            s.0)
    | inr other ↦ Sound-at pending done id deps entries s.1 (ground (arith, h, other))
  ]

  pub Sound-move :
      (pending pending' : Pending) (done done' : Dict Text) (p : Text × List Text → Bool)
      (entries : Pending)
      → ((d : Text) → Covered d pending done → Covered d pending' done')
      → Sound pending done entries
      → Sound pending' done' (keep p entries)
  Sound-move pending pending' done done' p [] f s = tt
  Sound-move pending pending' done done' p ((id, deps) ∷ entries) f s =
      elim (Bool-cases (p (id, deps))) [
        | inl e ↦ rw e (go deps s.0, Sound-move pending pending' done done' p entries f s.1)
        | inr n ↦ rw n (Sound-move pending pending' done done' p entries f s.1)
      ]
    where
      go :
          (ds : List Text)
          → All (λ d. (rank d < rank id) × Covered d pending done) ds
          → All (λ d. (rank d < rank id) × Covered d pending' done') ds
      go [] h = tt
      go (d ∷ ds) ((below, c), h) = ((below, f d c), go ds h)

  -- A waiting step is ready, or a step that ranks below it waits.
  descend :
      (pending : Pending) (done : Dict Text) (id : Text) (deps : List Text)
      → Sound pending done pending
      → lookup id pending ≡ some deps
      → (is_nil (keep (is_ready done) pending) ≡ false)
        ⊎ ((d : Text) × (ds : List Text) × (rank d < rank id) × (lookup d pending ≡ some ds))
  descend pending done id deps s h = elim (Bool-cases (all (has_key done) deps)) [
    | inl ready ↦ inl (keep_ready done id deps pending h ready)
    | inr waits ↦ go (missing (has_key done) deps (Sound-at pending done id deps pending s h) waits)
  ]
    where
      go :
          (d : Text) × ((rank d < rank id) × Covered d pending done) × (has_key done d ≡ false)
          → (is_nil (keep (is_ready done) pending) ≡ false)
            ⊎ ((d : Text) × (ds : List Text) × (rank d < rank id) × (lookup d pending ≡ some ds))
      go (d, (below, inr there), absent) = absurd (ground (arith, there, absent))
      go (d, (below, inl waits), absent) =
          let found = has_key→lookup d pending waits in inr (d, found.0, below, found.1)

  -- While a step waits, one is ready.
  some_ready :
      (n : ℕ) (pending : Pending) (done : Dict Text) (id : Text) (deps : List Text)
      → Sound pending done pending
      → lookup id pending ≡ some deps
      → rank id ≤ n
      → is_nil (keep (is_ready done) pending) ≡ false
  some_ready zero pending done id deps s h le = elim (descend pending done id deps s h) [
    | inl ready ↦ ready
    | inr (d, ds, below, found) ↦ absurd (omega (arith, below, le))
  ]
  some_ready (suc n) pending done id deps s h le = elim (descend pending done id deps s h) [
    | inl ready ↦ ready
    | inr (d, ds, below, found) ↦ some_ready n pending done d ds s found (omega (arith, below, le))
  ]

  pub waiting_ready :
      (pending entries : Pending) (done : Dict Text)
      → pending ≡ entries
      → Sound pending done pending
      → is_nil entries ≡ false
      → is_nil (keep (is_ready done) pending) ≡ false
  unfolding lookup
  waiting_ready pending [] done e s h = cc h
  waiting_ready pending ((id, deps) ∷ entries) done e s h =
      some_ready (rank id) pending done id deps s
        (subst (λ (p : Pending). lookup id p ≡ some deps) (sym e) (rw text_eq_refl refl))
        (omega arith)

  -- Every step's dependencies are steps, and rank below it: no dependency is unknown and none is in
  -- a cycle.
  abbrev pub Ranked : List Step → Type 0
  Ranked steps =
      All (λ s. All (λ d. (rank d < rank s.id) × Has d (map (λ t. t.id) steps)) s.depends_on) steps

  insert-Sound :
      (pending : Pending) (done : Dict Text) (id : Text) (deps : List Text) (entries : Pending)
      → All (λ d. (rank d < rank id) × Covered d pending done) deps
      → Sound pending done entries
      → Sound pending done (insert id deps entries)
  unfolding insert
  insert-Sound pending done id deps [] h s = (h, tt)
  insert-Sound pending done id deps ((j, ds) ∷ entries) h s = elim (Bool-cases (text_eq j id)) [
    | inl same ↦ rw same (
      subst (λ k. All (λ d. (rank d < rank k) × Covered d pending done) deps)
          (sym ((text_eq_iff j id).0 same)) h,
      s.1,
    )
    | inr other ↦ rw other (s.0, insert-Sound pending done id deps entries h s.1)
  ]

  pub pending_of-Sound :
      (pending : Pending) (done : Dict Text) (steps : List Step) (entries : Pending)
      → All (λ s. All (λ d. (rank d < rank s.id) × Covered d pending done) s.depends_on) steps
      → Sound pending done entries
      → Sound pending done (pending_of steps entries)
  unfolding pending_of
  pending_of-Sound pending done [] entries h s = s
  pending_of-Sound pending done (t ∷ steps) entries h s =
      pending_of-Sound pending done steps (insert t.id t.depends_on entries) h.1
        (insert-Sound pending done t.id t.depends_on entries h.0 s)
