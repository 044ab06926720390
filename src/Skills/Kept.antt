-- ===== src/Skills/Kept.antt =====
-- graph/skills/curator.py: what the updates of the index do to its rows.
use proto_trader.Prelude.{
  ℕ, ◌≡◌, refl, sym, subst, ap, ◌∙◌, inl, inr, true, false, List, [], ◌∷◌, map, ◌==◌, if◌then◌else◌,
  All, arith, Bool-cases,
}
use proto_trader.Skills.{Skill, mem_id, update_confidence, update_all}
use proto_trader.Skills.Ids.{Within, Apart, IsDistinct, Apart-Within}

abbrev pub ids : List Skill → List ℕ
ids l = map (λ (s : Skill). s.id) l

-- What one update does to a row, and what all do.
abbrev update_one : Skill → Skill → Skill
update_one s r = if r.id == s.id then record r { confidence = s.confidence } else r

unfoldable pub update_row : List Skill → Skill → Skill
update_row [] r = r
update_row (s ∷ kept) r = update_row kept (update_one s r)

map_same : (l : List Skill) → map (λ (r : Skill). r) l ≡ l
map_same [] = refl
map_same (r ∷ l) = ap (λ (l' : List Skill). r ∷ l') (map_same l)

map-map : (f g : Skill → Skill) (l : List Skill) → map f (map g l) ≡ map (λ r. f (g r)) l
map-map f g [] = refl
map-map f g (r ∷ l) = ap (λ (l' : List Skill). f (g r) ∷ l') (map-map f g l)

pub update_all-map : (kept index : List Skill) → update_all kept index ≡ map (update_row kept) index
unfolding update_row
update_all-map [] index = sym (map_same index)
update_all-map (s ∷ kept) index =
    update_all-map kept (update_confidence s.id s.confidence index)
    ∙ map-map (update_row kept) (update_one s) index

update_one-id : (s r : Skill) → (update_one s r).id ≡ r.id
update_one-id s r = elim (Bool-cases (r.id == s.id)) [
  | inl same ↦ rw same refl
  | inr other ↦ rw other refl
]

pub update_row-id : (kept : List Skill) (r : Skill) → (update_row kept r).id ≡ r.id
unfolding update_row
update_row-id [] r = refl
update_row-id (s ∷ kept) r = update_row-id kept (update_one s r) ∙ update_one-id s r

pub update_row_none :
    (kept : List Skill) (r : Skill) → mem_id r.id (ids kept) ≡ false → update_row kept r ≡ r
unfolding update_row mem_id
update_row_none [] r h = refl
update_row_none (s ∷ kept) r h =
    let e : (r.id == s.id) ≡ false = ground (arith, h) in
    rw e (update_row_none kept r (ground (arith, h)))

pub update_row_some :
    (kept : List Skill) (r : Skill) (c : ℕ)
    → All (λ (s : Skill). (r.id == s.id) ≡ true → s.confidence ≡ c) kept
    → mem_id r.id (ids kept) ≡ true
    → update_row kept r ≡ record r { confidence = c }
unfolding update_row mem_id
update_row_some [] r c h m = cc m
update_row_some (s ∷ kept) r c (e, h) m = elim (Bool-cases (r.id == s.id)) [
  | inl same ↦
      rw (same, e same)
        (elim (Bool-cases (mem_id r.id (ids kept))) [
          | inl more ↦ update_row_some kept (record r { confidence = c }) c h more
          | inr last ↦ update_row_none kept (record r { confidence = c }) last
        ])
  | inr other ↦ rw other (update_row_some kept r c h (ground (arith, m, other)))
]

pub map-Within :
    (f : Skill → Skill) (t : Skill) (l : List Skill) → Within t l → Within (f t) (map f l)
map-Within f t [] w = absurd w
map-Within f t (u ∷ l) (inl e) = inl (ap f e)
map-Within f t (u ∷ l) (inr w) = inr (map-Within f t l w)

pub Within-map :
    (f : Skill → Skill) (t : Skill) (l : List Skill)
    → Within t (map f l)
    → (r : Skill) × Within r l × (t ≡ f r)
Within-map f t [] w = absurd w
Within-map f t (u ∷ l) (inl e) = (u, inl refl, e)
Within-map f t (u ∷ l) (inr w) = let (r, here, e) = Within-map f t l w in (r, inr here, e)

module _ (f : Skill → Skill) (same_id : (r : Skill) → (f r).id ≡ r.id) where
  pub Apart-map : (n : ℕ) (l : List Skill) → Apart n l → Apart n (map f l)
  Apart-map n [] h = tt
  Apart-map n (u ∷ l) (e, h) = (subst (λ k. (n == k) ≡ false) (sym (same_id u)) e, Apart-map n l h)

  pub IsDistinct-map : (l : List Skill) → IsDistinct l → IsDistinct (map f l)
  IsDistinct-map [] d = tt
  IsDistinct-map (u ∷ l) (new, d) =
      (subst (λ k. Apart k (map f l)) (sym (same_id u)) (Apart-map u.id l new), IsDistinct-map l d)

none_same :
    (n c : ℕ) (l : List Skill)
    → Apart n l
    → All (λ (v : Skill). (n == v.id) ≡ true → v.confidence ≡ c) l
none_same n c [] h = tt
none_same n c (v ∷ l) (e, h) = (λ same. absurd (cc (e, same)), none_same n c l h)

-- A row of a list with distinct ids is the only one with its id.
pub only_one :
    (t : Skill) (l : List Skill)
    → IsDistinct l
    → Within t l
    → All (λ (v : Skill). (t.id == v.id) ≡ true → v.confidence ≡ t.confidence) l
only_one t [] d w = tt
only_one t (u ∷ l) (new, d) (inl e) = (
  λ h. ap (λ (v : Skill). v.confidence) (sym e),
  none_same t.id t.confidence l (subst (λ (v : Skill). Apart v.id l) (sym e) new),
)
only_one t (u ∷ l) (new, d) (inr w) =
    (λ h. absurd (let n = Apart-Within u.id t l new w in ground (arith, n, h)), only_one t l d w)

pub mem_id-Within : (t : Skill) (l : List Skill) → Within t l → mem_id t.id (ids l) ≡ true
unfolding mem_id
mem_id-Within t [] w = absurd w
mem_id-Within t (u ∷ l) (inl e) = ground (arith, ap (λ (s : Skill). s.id) e)
mem_id-Within t (u ∷ l) (inr w) = ground (arith, mem_id-Within t l w)
