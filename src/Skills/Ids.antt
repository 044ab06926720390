-- ===== src/Skills/Ids.antt =====
-- graph/skills/curator.py: lists of skills with distinct ids, and the best of a cluster.
use proto_trader.Prelude.{
  ℕ, ◌≤◌, ◌≡◌, refl, sym, subst, ap, ◌∙◌, inl, inr, ◌⊎◌, Bool, true, false, not, ◌||◌, List, [],
  ◌∷◌, ◌++◌, keep, map, ltb, ◌==◌, if◌then◌else◌, All, All-keep, arith, Bool-cases,
}
use proto_trader.Skills.{Skill, mem_id, best_of, losers}

abbrev pub Within : Skill → List Skill → Type 0
Within s [] = ⊥
Within s (t ∷ l) = (s ≡ t) ⊎ Within s l

-- No skill of the list has the id.
abbrev pub Apart : ℕ → List Skill → Type 0
Apart n l = All (λ (t : Skill). (n == t.id) ≡ false) l

-- No two have the same id.
abbrev pub IsDistinct : List Skill → Type 0
IsDistinct [] = Unit
IsDistinct (s ∷ l) = Apart s.id l × IsDistinct l

pub IsDistinct-keep : (p : Skill → Bool) (l : List Skill) → IsDistinct l → IsDistinct (keep p l)
IsDistinct-keep p [] d = tt
IsDistinct-keep p (s ∷ l) (new, d) = elim (Bool-cases (p s)) [
  | inl kept ↦
      rw kept (All-keep (λ (t : Skill). (s.id == t.id) ≡ false) p l new, IsDistinct-keep p l d)
  | inr away ↦ rw away (IsDistinct-keep p l d)
]

pub Apart-Within :
    (n : ℕ) (t : Skill) (l : List Skill) → Apart n l → Within t l → (n == t.id) ≡ false
Apart-Within n t [] h w = absurd w
Apart-Within n t (u ∷ l) (h, hs) (inl e) = subst (λ (v : Skill). (n == v.id) ≡ false) (sym e) h
Apart-Within n t (u ∷ l) (h, hs) (inr w) = Apart-Within n t l hs w

step-Within :
    (p : Skill → Bool) (t u : Skill) (l : List Skill) (b : Bool)
    → p u ≡ b
    → Within t (if b then u ∷ keep p l else keep p l)
    → ((t ≡ u) × (b ≡ true)) ⊎ Within t (keep p l)
step-Within p t u l true e (inl same) = inl (same, refl)
step-Within p t u l true e (inr w) = inr w
step-Within p t u l false e w = inr w

pub Within-keep :
    (p : Skill → Bool) (t : Skill) (l : List Skill)
    → Within t (keep p l)
    → Within t l × (p t ≡ true)
Within-keep p t [] w = absurd w
Within-keep p t (u ∷ l) w = elim (step-Within p t u l (p u) refl w) [
  | inl (same, kept) ↦ (inl same, ap p same ∙ kept)
  | inr later ↦ let r = Within-keep p t l later in (inr r.0, r.1)
]

pub keep-Within :
    (p : Skill → Bool) (t : Skill) (l : List Skill) → p t ≡ true → Within t l → Within t (keep p l)
keep-Within p t [] e w = absurd w
keep-Within p t (u ∷ l) e (inl same) = rw (ap p (sym same) ∙ e) (inl same)
keep-Within p t (u ∷ l) e (inr w) = elim (Bool-cases (p u)) [
  | inl kept ↦ rw kept (inr (keep-Within p t l e w))
  | inr away ↦ rw away (keep-Within p t l e w)
]

pub eq_swap : (m n : ℕ) → (m == n) ≡ false → (n == m) ≡ false
eq_swap m n h = ground (arith, h)

-- A skill that fails a test is apart from those that pass it.
pub Apart-keep :
    (p : Skill → Bool) (t : Skill) (l : List Skill)
    → IsDistinct l
    → Within t l
    → p t ≡ false
    → Apart t.id (keep p l)
Apart-keep p t [] d w e = tt
Apart-keep p t (u ∷ l) (new, d) (inl same) e = rw (ap p (sym same) ∙ e) (
    subst (λ (v : Skill). Apart v.id (keep p l)) (sym same)
      (All-keep (λ (v : Skill). (u.id == v.id) ≡ false) p l new))
Apart-keep p t (u ∷ l) (new, d) (inr w) e =
    let rest = Apart-keep p t l d w e in
    elim (Bool-cases (p u)) [
      | inl kept ↦ rw kept (eq_swap u.id t.id (Apart-Within u.id t l new w), rest)
      | inr away ↦ rw away rest
    ]

pub mem_id-map :
    (n : ℕ) (l : List Skill) → Apart n l → mem_id n (map (λ (u : Skill). u.id) l) ≡ false
unfolding mem_id
mem_id-map n [] h = refl
mem_id-map n (u ∷ l) (e, h) = rw e (mem_id-map n l h)

pub mem_id-append : (n : ℕ) (xs ys : List ℕ) → mem_id n (xs ++ ys) ≡ (mem_id n xs || mem_id n ys)
unfolding mem_id
mem_id-append n [] ys = refl
mem_id-append n (x ∷ xs) ys = ground (arith, mem_id-append n xs ys)

pub losers-Apart : (n : ℕ) (c : List Skill) → Apart n c → mem_id n (losers c) ≡ false
unfolding losers mem_id
losers-Apart n [] h = refl
losers-Apart n (s ∷ []) h = refl
losers-Apart n (s ∷ t ∷ c) h = mem_id-map n _ (
    All-keep (λ (v : Skill). (n == v.id) ≡ false) (λ u. not (u.id == (best_of s (t ∷ c)).id))
      (s ∷ t ∷ c) h)

Apart-others : (n : ℕ) (l : List Skill) → Apart n (keep (λ u. not (u.id == n)) l)
Apart-others n [] = tt
Apart-others n (u ∷ l) = elim (Bool-cases (u.id == n)) [
  | inl same ↦ rw same (Apart-others n l)
  | inr other ↦ rw other (eq_swap u.id n other, Apart-others n l)
]

pub losers-best_of : (s : Skill) (c : List Skill) → mem_id (best_of s c).id (losers (s ∷ c)) ≡ false
unfolding losers mem_id
losers-best_of s [] = refl
losers-best_of s (t ∷ c) =
    mem_id-map (best_of s (t ∷ c)).id _ (Apart-others (best_of s (t ∷ c)).id (s ∷ t ∷ c))

best_better :
    (s t : Skill) (c : List Skill)
    → ltb s.confidence t.confidence ≡ true
    → best_of s (t ∷ c) ≡ best_of t c
best_better s t c h = rw h refl

best_worse :
    (s t : Skill) (c : List Skill)
    → ltb s.confidence t.confidence ≡ false
    → best_of s (t ∷ c) ≡ best_of s c
best_worse s t c h = rw h refl

pub best_of-Within : (s : Skill) (c : List Skill) → Within (best_of s c) (s ∷ c)
best_of-Within s [] = inl refl
best_of-Within s (t ∷ c) = elim (Bool-cases (ltb s.confidence t.confidence)) [
  | inl better ↦
      subst (λ (b : Skill). Within b (s ∷ t ∷ c)) (sym (best_better s t c better))
        (inr (best_of-Within t c))
  | inr worse ↦
      subst (λ (b : Skill). Within b (s ∷ t ∷ c)) (sym (best_worse s t c worse))
        (elim (best_of-Within s c) [ inl same ↦ inl same | inr w ↦ inr (inr w) ])
]

best_of_head : (s : Skill) (c : List Skill) → s.confidence ≤ (best_of s c).confidence
best_of_head s [] = omega arith
best_of_head s (t ∷ c) = ground (arith, best_of_head s c, best_of_head t c)

pub best_of_le :
    (s t : Skill) (c : List Skill) → Within t (s ∷ c) → t.confidence ≤ (best_of s c).confidence
best_of_le s t c (inl e) =
    subst (λ (u : Skill). u.confidence ≤ (best_of s c).confidence) (sym e) (best_of_head s c)
best_of_le s t [] (inr w) = absurd w
best_of_le s t (u ∷ c) (inr w) = elim (Bool-cases (ltb s.confidence u.confidence)) [
  | inl better ↦
      subst (λ (b : Skill). t.confidence ≤ b.confidence) (sym (best_better s u c better))
        (best_of_le u t c w)
  | inr worse ↦
      subst (λ (b : Skill). t.confidence ≤ b.confidence) (sym (best_worse s u c worse))
        (elim w [
          | inl same ↦
              let e = ap (λ (v : Skill). v.confidence) same in
              let top = best_of_head s c in ground (arith, e, top, worse)
          | inr later ↦ best_of_le s t c (inr later)
        ])
]
