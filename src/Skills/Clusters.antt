-- ===== src/Skills/Clusters.antt =====
-- graph/skills/curator.py: deduplication keeps the best of each cluster.
use proto_trader.Prelude.{
  ℕ, zero, suc, ◌≤◌, ◌≡◌, refl, sym, subst, ap, ◌∙◌, inl, inr, ◌⊎◌, Text, Bool, true, false, not,
  List, [], ◌∷◌, keep, length, length-keep, count-le-length, ◌==◌, All-keep, arith, Bool-cases,
}
use proto_trader.Skills.{
  Skill, mem_id, best_of, losers, ids_to_remove, alike, clusters_on, cluster_skills, deduplicate,
}
use proto_trader.Skills.Ids.{
  Within, Apart, IsDistinct, IsDistinct-keep, Apart-Within, Within-keep, keep-Within, eq_swap,
  Apart-keep, mem_id-append, losers-Apart, losers-best_of, best_of-Within, best_of_le,
}

module _ (similar : Text → Text → Bool) where
  -- In the cluster of a first skill.
  abbrev pub Joins : Skill → Skill → Type 0
  Joins leader u = (u ≡ leader) ⊎ (alike similar leader u ≡ true)

  removed-Apart :
      (n k : ℕ) (l : List Skill)
      → Apart k l
      → mem_id k (ids_to_remove (clusters_on similar n l)) ≡ false
  unfolding clusters_on ids_to_remove mem_id
  removed-Apart zero k l h = refl
  removed-Apart (suc n) k [] h = refl
  removed-Apart (suc n) k (s ∷ l) (e, h) =
      mem_id-append k (losers (s ∷ keep (alike similar s) l)) _
      ∙ rw
          (
            losers-Apart k (s ∷ keep (alike similar s) l)
                (e, All-keep (λ (v : Skill). (k == v.id) ≡ false) (alike similar s) l h),
            removed-Apart n k (keep (λ t. not (alike similar s t)) l)
                (All-keep (λ (v : Skill). (k == v.id) ≡ false) (λ t. not (alike similar s t)) l h),
          )
          refl

  -- Each skill has one in its cluster that is no worse and is not removed.
  Better : ℕ → List Skill → Skill → Type 0
  Better n l s =
      (t : Skill) × Within t l
      × (mem_id t.id (ids_to_remove (clusters_on similar n l)) ≡ false)
      × (s.confidence ≤ t.confidence)
      × ((leader : Skill) × Joins leader s × Joins leader t)

  module _ (n : ℕ) (h : Skill) (l : List Skill) (new : Apart h.id l) (d : IsDistinct l) where
    abbrev joined : List Skill
    joined = keep (alike similar h) l

    abbrev others : List Skill
    others = keep (λ t. not (alike similar h t)) l

    removed-first :
        (k : ℕ)
        → mem_id k (losers (h ∷ joined)) ≡ false
        → mem_id k (ids_to_remove (clusters_on similar n others)) ≡ false
        → mem_id k (ids_to_remove (clusters_on similar (suc n) (h ∷ l))) ≡ false
    unfolding clusters_on ids_to_remove
    removed-first k e f = mem_id-append k (losers (h ∷ joined)) _ ∙ rw (e, f) refl

    joins : (s : Skill) → Within s (h ∷ joined) → Joins h s
    joins s (inl same) = inl same
    joins s (inr w) = inr (Within-keep (alike similar h) s l w).1

    best-Apart : (t : Skill) → Within t (h ∷ joined) → Within t (h ∷ l) × Apart t.id others
    best-Apart t (inl same) = (
      inl same,
      subst (λ (v : Skill). Apart v.id others) (sym same)
          (All-keep (λ (v : Skill). (h.id == v.id) ≡ false) (λ u. not (alike similar h u)) l new),
    )
    best-Apart t (inr w) =
        let (here, like) = Within-keep (alike similar h) t l w in
        (inr here, Apart-keep (λ u. not (alike similar h u)) t l d here (ap not like))

    first-Better : (s : Skill) → Within s (h ∷ joined) → Better (suc n) (h ∷ l) s
    unfolding Better
    first-Better s w =
        let best = best_of h joined in
        let inside = best_of-Within h joined in
        let (here, apart) = best-Apart best inside in
        (
          best,
          here,
          removed-first best.id (losers-best_of h joined) (removed-Apart n best.id others apart),
          best_of_le h s joined w,
          (h, joins s w, joins best inside),
        )

    later-Better : (s : Skill) → Better n others s → Better (suc n) (h ∷ l) s
    unfolding Better
    later-Better s (t, w, kept, le, same) =
        let (here, unlike) = Within-keep (λ u. not (alike similar h u)) t l w in
        (
          t,
          inr here,
          removed-first t.id
              (losers-Apart t.id (h ∷ joined) (
                eq_swap h.id t.id (Apart-Within h.id t l new here),
                Apart-keep (alike similar h) t l d here (ground (arith, unlike)),
              ))
              kept,
          le,
          same,
        )

  clusters_on-Better :
      (n : ℕ) (l : List Skill) (s : Skill) → length l ≤ n → IsDistinct l → Within s l → Better n l s
  clusters_on-Better n [] s le d w = absurd w
  clusters_on-Better zero (h ∷ l) s le d w = absurd (omega arith)
  clusters_on-Better (suc n) (h ∷ l) s le (new, d) (inl same) =
      first-Better n h l new d s (inl same)
  clusters_on-Better (suc n) (h ∷ l) s le (new, d) (inr w) = elim (Bool-cases (alike similar h s)) [
    | inl like ↦ first-Better n h l new d s (inr (keep-Within (alike similar h) s l like w))
    | inr unlike ↦
        let p : Skill → Bool = λ t. not (alike similar h t) in
        let fewer = length-keep p l in
        let most = count-le-length p l in
        later-Better n h l new d s (
          clusters_on-Better n (keep p l) s (omega arith) (IsDistinct-keep p l d)
            (keep-Within p s l (ap not unlike) w))
  ]

  -- Of the skills with distinct ids, each has one left by the deduplication that is no worse and in the
  -- cluster of the same skill.
  pub deduplicate-Better :
      (l : List Skill) (s : Skill)
      → IsDistinct l
      → Within s l
      → (t : Skill) × Within t (deduplicate similar l)
        × (s.confidence ≤ t.confidence)
        × ((leader : Skill) × Joins leader s × Joins leader t)
  unfolding deduplicate cluster_skills Better
  deduplicate-Better l s d w =
      let (t, here, kept, le, same) = clusters_on-Better (length l) l s (omega arith) d w in
      (
        t,
        keep-Within (λ u. not (mem_id u.id (ids_to_remove (clusters_on similar (length l) l)))) t l
            (ap not kept) here,
        le,
        same,
      )
