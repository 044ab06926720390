-- ===== src/Skills/Tests.antt =====
-- graph/skills/curator.py on a small index.
use proto_trader.Prelude.{
  ℕ, ◌/◌, ◌≡◌, refl, inl, inr, Text, codes, text_eq, false, Option, none, some, List, [], ◌∷◌, map,
  leb, if◌then◌else◌,
}
use proto_trader.Skills.{
  Skill, is_disk, mem_id, load_index, losers, ids_to_remove, save_index, prune, clusters_on,
  cluster_skills, deduplicate, idle, decay, curate, run,
}
use proto_trader.Skills.Fate.{faded, is_good, Fate, run-Fate}

abbrev parse : Text → Option ℕ
parse [] = none
parse (c ∷ s) = some c

abbrev round : ℕ → ℕ
round c = c

abbrev halved : ℕ → ℕ → ℕ
halved old days = if leb 90 days then old / 2 else old

abbrev skill : ℕ → Text → ℕ → Text → Text → Skill
skill id name confidence last_used source = record {
  id = id;
  name = name;
  description = [];
  prompt_template = [];
  tools_used = [];
  created_at = codes "A";
  confidence = confidence;
  last_used = last_used;
  source = source;
}

abbrev emitted : Text
emitted = codes "emitted"

abbrev mail : Skill
mail = skill 2 (codes "mail") 60 (codes "Z") emitted

abbrev index : List Skill
index =
    skill 1 (codes "mail") 50 (codes "Z") emitted
    ∷ mail
    ∷ skill 3 (codes "mail") 10 [] (codes "disk")
    ∷ skill 4 (codes "notes") 80 [] emitted
    ∷ skill 5 (codes "drafts") 30 [] emitted
    ∷ []

program : Unit {0}
unfolding text_eq mem_id load_index losers ids_to_remove save_index prune clusters_on cluster_skills
    deduplicate idle decay curate run
program = tt

abbrev run_at : ℕ → List Skill → List Skill
run_at now rows = run parse round halved 100 text_eq 20 false now rows

run_once :
    run_at 155 index
    ≡ mail
      ∷ skill 3 (codes "mail") 10 [] (codes "disk")
      ∷ skill 4 (codes "notes") 40 [] emitted
      ∷ []
unfolding program
run_once = refl

-- A second run at the same time decays again.
run_twice : map (λ (s : Skill). s.confidence) (run_at 155 (run_at 155 index)) ≡ 60 ∷ 10 ∷ 20 ∷ []
unfolding program
run_twice = refl

run-Fate_example :
    Fate parse round halved 100 text_eq 20 155 index
      (is_disk mail)
      (is_good parse round halved 100 text_eq 20 155 index
        (faded parse round halved 100 text_eq 20 155 index mail))
      mail
run-Fate_example =
    run-Fate parse round halved 100 text_eq 20 155 index
      (
        (refl, (refl, (refl, (refl, tt)))),
        ((refl, (refl, (refl, tt))), ((refl, (refl, tt)), ((refl, tt), (tt, tt)))),
      )
      mail (inr (inl refl))
