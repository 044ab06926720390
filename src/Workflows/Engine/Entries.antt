-- ===== src/Workflows/Engine/Entries.antt =====
-- graph/workflows/engine.py: the waiting steps stand apart, and each is that of the step with its id.
use proto_trader.Prelude.{
  ◌≡◌, ◌∙◌, refl, inl, inr, Text, text_eq, text_eq_iff, text_eq_refl, Bool, true, false, not, some,
  List, [], ◌∷◌, subst, keep, arith, Dict, lookup, insert, lookup-insert, All, Bool-cases, All-keep,
}
use proto_trader.Workflows.Engine.{Step, Pending, pending_of, by_id_of, has_key}
use proto_trader.Workflows.Engine.Skips.{has_key-insert}

-- No id waits twice.
abbrev pub Apart : Pending → Type 0
Apart [] = Unit
Apart (p ∷ ps) = (has_key ps p.0 ≡ false) × Apart ps

-- An id with an output is not among entries that have none.
pub not_waiting :
    (k : Text) (done : Dict Text) (entries : Pending)
    → All (λ p. has_key done p.0 ≡ false) entries
    → has_key done k ≡ true
    → has_key entries k ≡ false
unfolding lookup
not_waiting k done [] h there = refl
not_waiting k done ((id, deps) ∷ entries) (absent, h) there = elim (Bool-cases (text_eq id k)) [
  | inl same ↦ absurd (
      ground (arith, subst (λ x. has_key done x ≡ false) ((text_eq_iff id k).0 same) absent, there))
  | inr other ↦ rw (other, has_key) (not_waiting k done entries h there)
]

head_apart :
    (k : Text) (entries : Pending)
    → has_key entries k ≡ false
    → All (λ p. text_eq k p.0 ≡ false) entries
unfolding lookup
head_apart k [] h = tt
head_apart k ((id, deps) ∷ entries) h = elim (Bool-cases (text_eq id k)) [
  | inl same ↦ absurd (ground (arith, h, same))
  | inr other ↦ (
    ground (arith, other, text_eq_iff id k, text_eq_iff k id),
    head_apart k entries (ground (arith, h, other)),
  )
]

has_key-kept :
    (k : Text) (f : Text × List Text → Bool) (entries : Pending)
    → has_key entries k ≡ false
    → has_key (keep f entries) k ≡ false
unfolding lookup
has_key-kept k f [] h = refl
has_key-kept k f ((id, deps) ∷ entries) h = ground (arith, h, has_key-kept k f entries)

pub Apart-keep :
    (f : Text × List Text → Bool) (entries : Pending) → Apart entries → Apart (keep f entries)
Apart-keep f [] a = tt
Apart-keep f (p ∷ entries) (new, a) = elim (Bool-cases (f p)) [
  | inl e ↦ rw e (has_key-kept p.0 f entries new, Apart-keep f entries a)
  | inr n ↦ rw n (Apart-keep f entries a)
]

-- The entries that are not kept are not among the kept ones.
pub split-Apart :
    (f : Text × List Text → Bool) (entries : Pending)
    → Apart entries
    → All (λ p. has_key (keep f entries) p.0 ≡ false) (keep (λ p. not (f p)) entries)
unfolding lookup
split-Apart f [] a = tt
split-Apart f ((id, deps) ∷ entries) (new, a) = elim (Bool-cases (f (id, deps))) [
  | inl e ↦ rw e (
      go (keep f entries) (keep (λ p. not (f p)) entries)
        (All-keep (λ p. text_eq id p.0 ≡ false) (λ p. not (f p)) entries
          (head_apart id entries new))
        (split-Apart f entries a))
  | inr n ↦ rw n (has_key-kept id f entries new, split-Apart f entries a)
]
  where
    go :
        (kept ps : Pending)
        → All (λ p. text_eq id p.0 ≡ false) ps
        → All (λ p. has_key kept p.0 ≡ false) ps
        → All (λ p. has_key ((id, deps) ∷ kept) p.0 ≡ false) ps
    go kept [] n h = tt
    go kept (p ∷ ps) (n, ns) (x, h) = (rw (n, has_key) x, go kept ps ns h)

insert-absent :
    (k id : Text) (deps : List Text) (entries : Pending)
    → text_eq id k ≡ false
    → has_key entries k ≡ false
    → has_key (insert id deps entries) k ≡ false
insert-absent k id deps entries other h = ground (arith, has_key-insert k id deps entries, other, h)

insert-Apart :
    (id : Text) (deps : List Text) (entries : Pending)
    → Apart entries
    → Apart (insert id deps entries)
unfolding insert lookup
insert-Apart id deps [] a = (refl, tt)
insert-Apart id deps ((j, ds) ∷ entries) (new, a) = elim (Bool-cases (text_eq j id)) [
  | inl same ↦ rw same (new, a)
  | inr other ↦ rw other (
    insert-absent j id deps entries (ground (arith, other, text_eq_iff j id, text_eq_iff id j)) new,
    insert-Apart id deps entries a,
  )
]

-- Each entry is that of the step with its id.
abbrev pub Agrees : Dict Step → Pending → Type 0
Agrees by_id = All (λ p. (s : Step) × (lookup p.0 by_id ≡ some s) × (s.depends_on ≡ p.1))

Agrees-other :
    (t : Step) (by_id : Dict Step) (entries : Pending)
    → All (λ p. text_eq t.id p.0 ≡ false) entries
    → Agrees by_id entries
    → Agrees (insert t.id t by_id) entries
Agrees-other t by_id [] n h = tt
Agrees-other t by_id (p ∷ entries) (n, ns) ((s, e, same), h) =
    ((s, lookup-insert t.id p.0 t by_id ∙ rw n e, same), Agrees-other t by_id entries ns h)

insert-Agrees :
    (t : Step) (by_id : Dict Step) (entries : Pending)
    → Apart entries
    → Agrees by_id entries
    → Agrees (insert t.id t by_id) (insert t.id t.depends_on entries)
unfolding insert
insert-Agrees t by_id [] a h =
    ((t, lookup-insert t.id t.id t by_id ∙ rw text_eq_refl refl, refl), tt)
insert-Agrees t by_id ((j, ds) ∷ entries) (new, a) ((s, e, same), h) =
    elim (Bool-cases (text_eq j t.id)) [
      | inl eq ↦ rw eq (
        (t, lookup-insert t.id j t by_id ∙ rw (flip_eq eq) refl, refl),
        Agrees-other t by_id entries
            (subst (λ k. All (λ p. text_eq k p.0 ≡ false) entries) ((text_eq_iff j t.id).0 eq)
              (head_apart j entries new))
            h,
      )
      | inr other ↦ rw other (
        (s, lookup-insert t.id j t by_id ∙ rw (flip_ne other) e, same),
        insert-Agrees t by_id entries a h,
      )
    ]
  where
    flip_eq : text_eq j t.id ≡ true → text_eq t.id j ≡ true
    flip_eq h = ground (arith, h, text_eq_iff j t.id, text_eq_iff t.id j)

    flip_ne : text_eq j t.id ≡ false → text_eq t.id j ≡ false
    flip_ne h = ground (arith, h, text_eq_iff j t.id, text_eq_iff t.id j)

pub pending_of-Agrees :
    (steps : List Step) (by_id : Dict Step) (entries : Pending)
    → Apart entries
    → Agrees by_id entries
    → Apart (pending_of steps entries) × Agrees (by_id_of steps by_id) (pending_of steps entries)
unfolding pending_of by_id_of
pending_of-Agrees [] by_id entries a h = (a, h)
pending_of-Agrees (t ∷ steps) by_id entries a h =
    pending_of-Agrees steps (insert t.id t by_id) (insert t.id t.depends_on entries)
      (insert-Apart t.id t.depends_on entries a) (insert-Agrees t by_id entries a h)

pub kept_pass :
    (f : Text × List Text → Bool) (entries : Pending) → All (λ p. f p ≡ true) (keep f entries)
kept_pass f [] = tt
kept_pass f (p ∷ entries) = elim (Bool-cases (f p)) [
  | inl e ↦ rw e (e, kept_pass f entries)
  | inr n ↦ rw n (kept_pass f entries)
]
