-- ===== src/Inbox/Store/Shows.antt =====
-- inbox/store.py: the rows that a listing shows and their order, described by cases on the tiers.
use proto_trader.Prelude.{
  ℕ, ◌<◌, ◌≤◌, ◌⊎◌, ◌↔◌, inl, inr, codes, sym, Option, leb, ◌&&◌, ◌||◌, text_eq, text_eq_iff, none,
  some, All, Bool-cases, ◌≡◌, ◌∙◌, refl, Text, Bool, true, false, List, [], ◌∷◌, arith, IsOrdered,
}
use proto_trader.Inbox.Store.{
  Priority, now, next, later, rank, cutoff, parse_priority, in_floor_set, Item, before, matches,
}

-- A row is shown for a floor: only `now` for the floor `now`, every tier for the floor `later`, and
-- `now` and `next` for any other text.
abbrev pub Admits : Text → Priority → Type 0
Admits floor now = Unit
Admits floor next = ¬ (floor ≡ codes "now")
Admits floor later = floor ≡ codes "later"

abbrev pub Shown : Text → Bool → Item → Type 0
Shown floor include_delivered item =
    Admits floor item.priority × ((include_delivered ≡ true) ⊎ (item.delivered_at ≡ none))

-- A tier that stands before another.
abbrev pub Above : Priority → Priority → Type 0
Above now next = Unit
Above now later = Unit
Above next later = Unit
Above p q = ⊥

-- A row may stand before another: it has a higher tier, or the same tier and is no younger.
abbrev pub Comes : Item → Item → Type 0
Comes a b =
    Above a.priority b.priority ⊎ ((a.priority ≡ b.priority) × (a.created_at ≤ b.created_at))

-- Each row may stand before all the rows after it.
abbrev pub InOrder : List Item → Type 0
InOrder [] = Unit
InOrder (a ∷ rows) = All (Comes a) rows × InOrder rows

pub before_total : (a b : Item) → before a b ≡ false → before b a ≡ true
before_total a b h = ground arith

before_trans : (a b c : Item) → before a b ≡ true → before b c ≡ true → before a c ≡ true
before_trans a b c h k = ground (arith, h, k)

before-Comes : (a b : Item) → before a b ≡ true → Comes a b
before-Comes a b h = go a.priority b.priority (ground (arith, h))
  where
    go :
        (p q : Priority)
        → (rank p < rank q) ⊎ ((rank p ≡ rank q) × (a.created_at ≤ b.created_at))
        → Above p q ⊎ ((p ≡ q) × (a.created_at ≤ b.created_at))
    go now now h = inr (refl, ground (arith, h))
    go now next h = inl tt
    go now later h = inl tt
    go next now h = absurd (ground (arith, h))
    go next next h = inr (refl, ground (arith, h))
    go next later h = inl tt
    go later now h = absurd (ground (arith, h))
    go later next h = absurd (ground (arith, h))
    go later later h = inr (refl, ground (arith, h))

head-before :
    (a : Item) (rows : List Item) → IsOrdered before (a ∷ rows) → All (λ b. before a b ≡ true) rows
head-before a [] o = tt
head-before a (b ∷ rows) (ab, o) = (ab, go rows (head-before b rows o))
  where
    go : (rs : List Item) → All (λ c. before b c ≡ true) rs → All (λ c. before a c ≡ true) rs
    go [] h = tt
    go (c ∷ rs) (bc, h) = (before_trans a b c ab bc, go rs h)

tail-IsOrdered : (a : Item) (rows : List Item) → IsOrdered before (a ∷ rows) → IsOrdered before rows
tail-IsOrdered a [] o = tt
tail-IsOrdered a (b ∷ rows) (ab, o) = o

pub IsOrdered→InOrder : (rows : List Item) → IsOrdered before rows → InOrder rows
IsOrdered→InOrder [] o = tt
IsOrdered→InOrder (a ∷ rows) o =
    (go rows (head-before a rows o), IsOrdered→InOrder rows (tail-IsOrdered a rows o))
  where
    go : (rs : List Item) → All (λ b. before a b ≡ true) rs → All (Comes a) rs
    go [] h = tt
    go (b ∷ rs) (ab, h) = (before-Comes a b ab, go rs h)

not_equal : (s t : Text) → text_eq s t ≡ false → ¬ (s ≡ t)
not_equal s t h e = cc (h, (text_eq_iff s t).1 e)

now_not_later : ¬ (codes "now" ≡ codes "later")
now_not_later e = not_equal (codes "now") (codes "later") (unfold text_eq in refl) e

next_not_later : ¬ (codes "next" ≡ codes "later")
next_not_later e = not_equal (codes "next") (codes "later") (unfold text_eq in refl) e

-- What a floor cuts off.
abbrev Cuts : Text → ℕ → Type 0
Cuts floor n =
    ((floor ≡ codes "now") × (n ≡ 0))
    ⊎ ((floor ≡ codes "later") × (n ≡ 2))
    ⊎ ((¬ (floor ≡ codes "now")) × (¬ (floor ≡ codes "later")) × (n ≡ 1))

cutoff-Cuts : (floor : Text) → Cuts floor (cutoff floor)
unfolding cutoff parse_priority
cutoff-Cuts floor = elim (Bool-cases (text_eq floor (codes "now"))) [
  | inl is_now ↦
      inl ((text_eq_iff floor (codes "now")).0 is_now, rw (is_now, parse_priority, cutoff) refl)
  | inr not_now ↦ elim (Bool-cases (text_eq floor (codes "next"))) [
    | inl is_next ↦ inr (
        inr (
          not_equal floor (codes "now") not_now,
          (λ e. next_not_later (sym ((text_eq_iff floor (codes "next")).0 is_next) ∙ e)),
          rw (not_now, is_next, parse_priority, cutoff) refl,
        ))
    | inr not_next ↦ elim (Bool-cases (text_eq floor (codes "later"))) [
      | inl is_later ↦ inr (
          inl (
            (text_eq_iff floor (codes "later")).0 is_later,
            rw (not_now, not_next, is_later, parse_priority, cutoff) refl,
          ))
      | inr not_later ↦ inr (
          inr (
            not_equal floor (codes "now") not_now,
            not_equal floor (codes "later") not_later,
            rw (not_now, not_next, not_later, parse_priority, cutoff) refl,
          ))
    ]
  ]
]

leb_iff : (m n : ℕ) → (leb m n ≡ true) ↔ (m ≤ n)
leb_iff m n = (λ h. ground (arith, h), λ h. ground (arith, h))

in_floor_set_iff : (floor : Text) (p : Priority) → (in_floor_set floor p ≡ true) ↔ Admits floor p
unfolding in_floor_set
in_floor_set_iff floor p = (
  λ h. to p (cutoff-Cuts floor) ((leb_iff _ _).0 h),
  λ h. (leb_iff _ _).1 (from p (cutoff-Cuts floor) h),
)
  where
    to : (p : Priority) → {n : ℕ} → Cuts floor n → rank p ≤ n → Admits floor p
    to now c h = tt
    to next (inl (e, z)) h = absurd (omega (arith, z, h))
    to next (inr (inl (e, z))) h = λ k. now_not_later (sym k ∙ e)
    to next (inr (inr (a, b, z))) h = a
    to later (inl (e, z)) h = absurd (omega (arith, z, h))
    to later (inr (inl (e, z))) h = e
    to later (inr (inr (a, b, z))) h = absurd (omega (arith, z, h))

    from : (p : Priority) → {n : ℕ} → Cuts floor n → Admits floor p → rank p ≤ n
    from now c h = omega arith
    from next (inl (e, z)) h = absurd (h e)
    from next (inr (inl (e, z))) h = omega (arith, z)
    from next (inr (inr (a, b, z))) h = omega (arith, z)
    from later (inl (e, z)) h = absurd (now_not_later (sym e ∙ h))
    from later (inr (inl (e, z))) h = omega (arith, z)
    from later (inr (inr (a, b, z))) h = absurd (b h)

pub matches_iff :
    (floor : Text) (include_delivered : Bool) (item : Item)
    → (matches floor include_delivered item ≡ true) ↔ Shown floor include_delivered item
matches_iff floor include_delivered item = (
  λ h. (
    (in_floor_set_iff floor item.priority).0 (ground (arith, h)),
    shown include_delivered item.delivered_at (ground (arith, h)),
  ),
  λ h.
      both (in_floor_set floor item.priority) _ ((in_floor_set_iff floor item.priority).1 h.0)
        (flag include_delivered item.delivered_at h.1),
)
  where
    both : (a b : Bool) → a ≡ true → b ≡ true → (a && b) ≡ true
    both a b h k = rw (h, k) refl

    shown :
        (b : Bool) (at : Option ℕ)
        → (b || (elim at [ none ↦ true | some t ↦ false ])) ≡ true
        → (b ≡ true) ⊎ (at ≡ none)
    shown true at h = inl refl
    shown false none h = inr refl
    shown false (some t) h = absurd (cc h)

    flag :
        (b : Bool) (at : Option ℕ)
        → (b ≡ true) ⊎ (at ≡ none)
        → (b || (elim at [ none ↦ true | some t ↦ false ])) ≡ true
    flag true at h = refl
    flag false none h = refl
    flag false (some t) h = ground (arith, h)
