-- ===== src/Skills.antt =====
-- graph/skills/curator.py: `SkillCurator` over the rows of the index (graph/skills/index.py). Confidences are
-- whole numbers of one unit, of which `whole` make 1.0, and times are seconds. Arguments are: the parser of
-- ISO times, `round(…, 4)`, the decayed confidence `old * 0.5 ** (days / half_life)` by the seconds idle,
-- and whether two texts reach the threshold of similarity (by embeddings or by their words).
pub mod Ids
pub mod Clusters
pub mod Kept
pub mod Fate
mod Tests
use proto_trader.Prelude.{
  ℕ, zero, suc, ◌-◌, min, Text, codes, text_eq, is_empty, Bool, true, false, not, ◌||◌, Option,
  none, some, List, [], ◌∷◌, ◌++◌, keep, length, map, ltb, leb, ◌==◌, if◌then◌else◌,
}

pub record Skill : Type 0 where
  pub id : ℕ
  pub name : Text
  pub description : Text
  pub prompt_template : Text
  pub tools_used : List Text
  pub created_at : Text
  pub confidence : ℕ
  pub last_used : Text
  pub source : Text

-- `_skill_text`.
abbrev pub skill_text : Skill → Text
skill_text s = s.name ++ codes " " ++ s.description

abbrev pub is_disk : Skill → Bool
is_disk s = text_eq s.source (codes "disk")

unfoldable pub mem_id : ℕ → List ℕ → Bool
mem_id n [] = false
mem_id n (m ∷ ms) = (n == m) || mem_id n ms

-- `all_skills` less the pinned ones: `_load_index`.
unfoldable pub load_index : List Skill → List Skill
load_index index = keep (λ s. not (is_disk s)) index

-- The first of the cluster with the highest confidence.
abbrev pub best_of : Skill → List Skill → Skill
best_of b [] = b
best_of b (s ∷ cluster) =
    if ltb b.confidence s.confidence then best_of s cluster else best_of b cluster

-- `removed_ids` of a cluster; a skill alone loses nothing.
unfoldable pub losers : List Skill → List ℕ
losers [] = []
losers (s ∷ []) = []
losers (s ∷ t ∷ cluster) =
    map (λ (u : Skill). u.id)
      (keep (λ u. not (u.id == (best_of s (t ∷ cluster)).id)) (s ∷ t ∷ cluster))

unfoldable pub ids_to_remove : List (List Skill) → List ℕ
unfolding losers
ids_to_remove [] = []
ids_to_remove (c ∷ clusters) = losers c ++ ids_to_remove clusters

-- `update_confidence` of a row.
abbrev pub update_confidence : ℕ → ℕ → List Skill → List Skill
update_confidence id confidence index =
    map (λ (r : Skill). if r.id == id then record r { confidence = confidence } else r) index

abbrev pub update_all : List Skill → List Skill → List Skill
update_all [] index = index
update_all (s ∷ kept) index = update_all kept (update_confidence s.id s.confidence index)

-- `_save_index`: rows that are neither pinned nor kept are deleted, the others get their confidence.
unfoldable pub save_index : List Skill → List Skill → List Skill
unfolding mem_id
save_index kept index =
    update_all kept (keep (λ r. is_disk r || mem_id r.id (map (λ (s : Skill). s.id) kept)) index)

module _ (whole : ℕ) where
  -- `_clamp` of a number that is not negative.
  abbrev pub clamp : ℕ → ℕ
  clamp value = min whole value

  -- `_prune`.
  unfoldable pub prune : ℕ → List Skill → List Skill
  prune threshold skills = keep (λ s. not (ltb (clamp s.confidence) threshold)) skills

module _ (similar : Text → Text → Bool) where
  -- `matrix[i][j] >= self.similarity_threshold`.
  abbrev pub alike : Skill → Skill → Bool
  alike s t = similar (skill_text s) (skill_text t)

  -- `_cluster_skills`: the first skill that is left takes those behind it that are like it. There are at
  -- most as many clusters as skills.
  unfoldable pub clusters_on : ℕ → List Skill → List (List Skill)
  clusters_on zero skills = []
  clusters_on (suc n) [] = []
  clusters_on (suc n) (s ∷ skills) =
      (s ∷ keep (alike s) skills) ∷ clusters_on n (keep (λ t. not (alike s t)) skills)

  unfoldable pub cluster_skills : List Skill → List (List Skill)
  unfolding clusters_on
  cluster_skills skills = clusters_on (length skills) skills

  -- `_deduplicate`.
  unfoldable pub deduplicate : List Skill → List Skill
  unfolding cluster_skills ids_to_remove mem_id
  deduplicate skills = keep (λ s. not (mem_id s.id (ids_to_remove (cluster_skills skills)))) skills

module _ (parse_iso : Text → Option ℕ) (round4 : ℕ → ℕ) (decayed : ℕ → ℕ → ℕ) (whole : ℕ) where
  -- `_days_idle`, in seconds.
  unfoldable pub idle : ℕ → Skill → ℕ
  idle now s =
      let ts = if is_empty s.last_used then s.created_at else s.last_used in
      if is_empty ts then 0 else elim (parse_iso ts) [ none ↦ 0 | some t ↦ now - t ]

  -- `_apply_decay` of one skill.
  unfoldable pub decay : ℕ → Skill → Skill
  unfolding idle
  decay now s =
      let old = clamp whole s.confidence in
      let new = clamp whole (decayed old (idle now s)) in
      if (idle now s == 0) || (round4 new == round4 old) then s else record s { confidence = new }

  module _ (similar : Text → Text → Bool) (threshold : ℕ) where
    -- What `run` does to the skills that it loads.
    unfoldable pub curate : ℕ → List Skill → List Skill
    unfolding decay deduplicate prune
    curate now skills = prune whole threshold (deduplicate similar (map (decay now) skills))

    -- `run`, by whether it only reports.
    unfoldable pub run : Bool → ℕ → List Skill → List Skill
    unfolding curate load_index save_index
    run true now index = index
    run false now index = save_index (curate now (load_index index)) index
