-- ===== src/Skills/Fate.antt =====
-- graph/skills/curator.py: what a run does to each row of the index.
use proto_trader.Prelude.{
  ℕ, ◌≤◌, ◌≡◌, refl, sym, subst, ap, ◌∙◌, inl, inr, Text, Bool, true, false, not, ◌||◌, Option,
  List, keep, map, ltb, ◌==◌, All, All-keep, arith, Bool-cases,
}
use proto_trader.Skills.{
  Skill, is_disk, mem_id, load_index, save_index, clamp, prune, deduplicate, idle, decay, curate,
  run, ids_to_remove, cluster_skills,
}
use proto_trader.Skills.Ids.{
  Within, Apart, IsDistinct, IsDistinct-keep, Within-keep, keep-Within, Apart-keep, mem_id-map,
}
use proto_trader.Skills.Clusters.{Joins, deduplicate-Better}
use proto_trader.Skills.Kept.{
  ids, update_row, update_all-map, update_row-id, update_row_none, update_row_some, map-Within,
  Within-map, Apart-map, IsDistinct-map, only_one, mem_id-Within,
}

module _ (parse_iso : Text → Option ℕ) (round4 : ℕ → ℕ) (decayed : ℕ → ℕ → ℕ) (whole : ℕ)
    (similar : Text → Text → Bool) (threshold now : ℕ) (index : List Skill) where
  abbrev pub faded : Skill → Skill
  faded r = decay parse_iso round4 decayed whole now r

  -- Not below the threshold of pruning.
  abbrev pub is_good : Skill → Bool
  is_good s = not (ltb (clamp whole s.confidence) threshold)

  abbrev pub after_run : List Skill
  after_run = run parse_iso round4 decayed whole similar threshold false now index

  -- What happens to a row, by whether it is pinned and whether it is good after the decay: a pinned row
  -- stays as it is; for a good one there is a good row with at least its decayed confidence in the cluster
  -- of the same skill; any other is gone.
  abbrev pub Fate : Bool → Bool → Skill → Type 0
  Fate true good r = Within r after_run
  Fate false true r =
      (t : Skill) × Within t after_run
      × (is_good t ≡ true)
      × ((faded r).confidence ≤ t.confidence)
      × ((leader : Skill) × Joins similar leader (faded r) × Joins similar leader t)
  Fate false false r = Apart r.id after_run

  loaded : List Skill
  loaded = keep (λ s. not (is_disk s)) index

  curated : List Skill
  curated = keep is_good (deduplicate similar (map faded loaded))

  faded_as : (r : Skill) → faded r ≡ record r { confidence = (faded r).confidence }
  unfolding decay
  faded_as r =
      elim (Bool-cases (
        (idle parse_iso round4 decayed whole now r == 0)
        || (round4 (
              clamp whole
                (decayed (clamp whole r.confidence) (idle parse_iso round4 decayed whole now r)))
            == round4 (clamp whole r.confidence)))) [
              | inl same ↦ rw same refl
              | inr other ↦ rw other refl
            ]

  id-faded : (r : Skill) → (faded r).id ≡ r.id
  id-faded r = ap (λ (s : Skill). s.id) (faded_as r)

  stays : Skill → Bool
  stays r = is_disk r || mem_id r.id (ids curated)

  after_run_eq : after_run ≡ map (update_row curated) (keep stays index)
  unfolding run curate prune load_index save_index loaded curated stays
  after_run_eq = update_all-map curated (keep stays index)

  run-stays :
      (r : Skill) → Within r index → stays r ≡ true → Within (update_row curated r) after_run
  run-stays r w e =
      subst (Within (update_row curated r)) (sym after_run_eq)
        (map-Within (update_row curated) r (keep stays index) (keep-Within stays r index e w))

  Apart-curated : (n : ℕ) → Apart n (map faded loaded) → Apart n curated
  unfolding curated deduplicate
  Apart-curated n h =
      All-keep (λ (v : Skill). (n == v.id) ≡ false) is_good _
        (All-keep (λ (v : Skill). (n == v.id) ≡ false)
          (λ s. not (mem_id s.id (ids_to_remove (cluster_skills similar (map faded loaded)))))
          (map faded loaded) h)

  module _ (d : IsDistinct index) where
    loaded-IsDistinct : IsDistinct (map faded loaded)
    unfolding loaded
    loaded-IsDistinct =
        IsDistinct-map faded id-faded _ (IsDistinct-keep (λ s. not (is_disk s)) index d)

    curated-IsDistinct : IsDistinct curated
    unfolding curated deduplicate
    curated-IsDistinct =
        IsDistinct-keep is_good _ (IsDistinct-keep _ (map faded loaded) loaded-IsDistinct)

    pinned_stays : (r : Skill) → Within r index → is_disk r ≡ true → Within r after_run
    unfolding loaded stays
    pinned_stays r w e =
        subst (λ (s : Skill). Within s after_run)
          (update_row_none curated r (
            mem_id-map r.id curated (
              Apart-curated r.id (
                Apart-map faded id-faded r.id _
                  (Apart-keep (λ s. not (is_disk s)) r index d w (ap not e))))))
          (run-stays r w (ground (arith, e)))

    -- A curated row is in the index after the run.
    curated_stays :
        (u : Skill) → Within u index → Within (faded u) curated → Within (faded u) after_run
    unfolding stays
    curated_stays u w here =
        let listed : mem_id u.id (ids curated) ≡ true =
          subst (λ n. mem_id n (ids curated) ≡ true) (id-faded u)
            (mem_id-Within (faded u) curated here) in
        let only =
          subst
            (λ n.
              All (λ (v : Skill). (n == v.id) ≡ true → v.confidence ≡ (faded u).confidence) curated)
            (id-faded u) (only_one (faded u) curated curated-IsDistinct here) in
        subst (λ (s : Skill). Within s after_run)
          (update_row_some curated u (faded u).confidence only listed ∙ sym (faded_as u))
          (run-stays u w (ground (arith, listed)))

    faded-Within :
        (r : Skill) → Within r index → is_disk r ≡ false → Within (faded r) (map faded loaded)
    unfolding loaded
    faded-Within r w e =
        map-Within faded r _ (keep-Within (λ s. not (is_disk s)) r index (ap not e) w)

    good_kept :
        (r : Skill)
        → Within r index
        → is_disk r ≡ false
        → is_good (faded r) ≡ true
        → Fate false true r
    unfolding curated deduplicate loaded
    good_kept r w e good =
        let (t, here, le, same) =
          deduplicate-Better similar (map faded loaded) (faded r) loaded-IsDistinct
            (faded-Within r w e) in
        let (u, hu, te) = Within-map faded t loaded (Within-keep _ t (map faded loaded) here).0 in
        let fine : is_good t ≡ true = ground (arith, good, le) in
        let in_curated = keep-Within is_good t _ fine here in
        (
          t,
          subst (λ (v : Skill). Within v after_run) (sym te)
              (curated_stays u (Within-keep (λ s. not (is_disk s)) u index hu).0
                (subst (λ (v : Skill). Within v curated) te in_curated)),
          fine,
          le,
          same,
        )

    bad_gone :
        (r : Skill)
        → Within r index
        → is_disk r ≡ false
        → is_good (faded r) ≡ false
        → Apart r.id after_run
    unfolding curated deduplicate stays
    bad_gone r w e bad =
        let stay_kept : Skill → Bool =
          λ s. not (mem_id s.id (ids_to_remove (cluster_skills similar (map faded loaded)))) in
        let inside = faded-Within r w e in
        let away : Apart (faded r).id curated = elim (Bool-cases (stay_kept (faded r))) [
          | inl left ↦
              Apart-keep is_good (faded r) _
                (IsDistinct-keep stay_kept (map faded loaded) loaded-IsDistinct)
                (keep-Within stay_kept (faded r) (map faded loaded) left inside) bad
          | inr removed ↦
              All-keep (λ (v : Skill). ((faded r).id == v.id) ≡ false) is_good _
                (Apart-keep stay_kept (faded r) (map faded loaded) loaded-IsDistinct inside removed)
        ] in
        let unlisted = mem_id-map r.id curated (subst (λ n. Apart n curated) (id-faded r) away) in
        subst (Apart r.id) (sym after_run_eq) (
          Apart-map (update_row curated) (update_row-id curated) r.id (keep stays index)
            (Apart-keep stays r index d w (ground (arith, e, unlisted))))

    -- What a run that writes does to any row of an index with distinct ids: a pinned row stays as it is; a
    -- row whose decayed confidence is below the threshold is gone; for any other there is a row that is
    -- not below the threshold, with at least its decayed confidence, and in the cluster of the same skill.
    pub run-Fate : (r : Skill) → Within r index → Fate (is_disk r) (is_good (faded r)) r
    run-Fate r w = elim (Bool-cases (is_disk r)) [
      | inl pinned ↦ rw pinned (pinned_stays r w pinned)
      | inr emitted ↦ elim (Bool-cases (is_good (faded r))) [
        | inl good ↦ rw (emitted, good) (good_kept r w emitted good)
        | inr bad ↦ rw (emitted, bad) (bad_gone r w emitted bad)
      ]
    ]
