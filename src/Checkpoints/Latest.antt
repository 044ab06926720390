-- ===== src/Checkpoints/Latest.antt =====
-- graph/checkpoint_prune.py: pruning never takes the latest checkpoint of a conversation that is not aged.
use proto_trader.Prelude.{
  text_lt, ℕ, zero, suc, ◌≤◌, ◌≡◌, refl, inl, inr, sym, subst, ap, ◌∙◌, Text, text_eq, text_eq_iff,
  mem_text, Bool, true, false, not, ◌||◌, List, [], ◌∷◌, keep, All-keep, count, count-keep, map,
  drop, arith, Bool-cases, sort_by, insert_by, All-sort_by, All,
}
use proto_trader.Checkpoints.{
  Row, Db, later, of_thread, of_group, is_row, delete_where, stale, delete_ids, cap_groups,
  cap_threads, distinct,
}

text_lt_total : (s t : Text) → text_lt s t ≡ false → text_lt t s ≡ false → s ≡ t
unfolding text_lt
text_lt_total [] [] h k = refl
text_lt_total [] (d ∷ t) h k = cc h
text_lt_total (c ∷ s) [] h k = cc k
text_lt_total (c ∷ s) (d ∷ t) h k = ground (arith, h, k, text_lt_total s t)

strictly : (x m : Text) → text_lt m x ≡ false → text_eq x m ≡ false → text_lt x m ≡ true
strictly x m t other = elim (Bool-cases (text_lt x m)) [
  | inl yes_lt ↦ yes_lt
  | inr no_lt ↦ absurd (ground (arith, other, (text_eq_iff x m).1 (text_lt_total x m no_lt t)))
]

mem_text-insert_by :
    (m x : Text) (l : List Text) → mem_text m (insert_by later x l) ≡ (text_eq m x || mem_text m l)
unfolding mem_text insert_by
mem_text-insert_by m x [] = refl
mem_text-insert_by m x (y ∷ l) = ground (arith, mem_text-insert_by m x l)

mem_text-sort_by : (m : Text) (l : List Text) → mem_text m (sort_by later l) ≡ mem_text m l
unfolding mem_text sort_by
mem_text-sort_by m [] = refl
mem_text-sort_by m (x ∷ l) =
    ground (arith, mem_text-insert_by m x (sort_by later l), mem_text-sort_by m l)

abbrev occurs : Text → List Text → ℕ
occurs m l = count (λ x. text_eq x m) l

occurs-none : (m : Text) (l : List Text) → occurs m l ≡ 0 → mem_text m l ≡ false
unfolding mem_text
occurs-none m [] h = refl
occurs-none m (x ∷ l) h = ground (arith, h, occurs-none m l, text_eq_iff x m, text_eq_iff m x)

insert_top :
    (m : Text) (l : List Text) → All (λ x. text_lt m x ≡ false) l → insert_by later m l ≡ m ∷ l
unfolding insert_by
insert_top m [] h = refl
insert_top m (x ∷ l) (e, h) = rw e refl

-- The one text that no other is above comes first.
sort_by-top :
    (m : Text) (l : List Text)
    → occurs m l ≡ 1
    → All (λ x. text_lt m x ≡ false) l
    → (rest : List Text) × (sort_by later l ≡ m ∷ rest) × (mem_text m rest ≡ false)
unfolding sort_by insert_by
sort_by-top m [] one top = cc one
sort_by-top m (x ∷ l) one (t, top) = elim (Bool-cases (text_eq x m)) [
  | inl same ↦
      let e : x ≡ m = (text_eq_iff x m).0 same in
      (
        sort_by later l,
        subst (λ y. insert_by later y (sort_by later l) ≡ m ∷ sort_by later l) (sym e)
            (insert_top m (sort_by later l) (All-sort_by later (λ y. text_lt m y ≡ false) l top)),
        mem_text-sort_by m l ∙ occurs-none m l (ground (arith, one, same)),
      )
  | inr other ↦
      let (rest, e, out) = sort_by-top m l (ground (arith, one, other)) top in
      let above : text_lt x m ≡ true = strictly x m t other in
      (
        insert_by later x rest,
        ap (insert_by later x) e ∙ rw (above, insert_by) refl,
        ground (arith, out, mem_text-insert_by m x rest, text_eq_iff x m, text_eq_iff m x, other),
      )
]

mem_text-drop :
    (m : Text) (k : ℕ) (l : List Text) → mem_text m l ≡ false → mem_text m (drop k l) ≡ false
unfolding mem_text
mem_text-drop m zero l h = h
mem_text-drop m (suc k) [] h = h
mem_text-drop m (suc k) (x ∷ l) h = mem_text-drop m k l (ground (arith, h))

-- A row is in the table once and is the latest of its group.
abbrev pub IsLatest : Row → List Row → Type 0
IsLatest r rows =
    (count (is_row r.thread_id r.checkpoint_ns r.checkpoint_id) rows ≡ 1)
    × All
        (λ s.
          of_group r.thread_id r.checkpoint_ns s ≡ true
          → text_lt r.checkpoint_id s.checkpoint_id ≡ false)
        rows

module _ (r : Row) where
  abbrev pub is_r : Row → Bool
  is_r = is_row r.thread_id r.checkpoint_ns r.checkpoint_id

  abbrev Below : Row → Type 0
  Below s =
      of_group r.thread_id r.checkpoint_ns s ≡ true
      → text_lt r.checkpoint_id s.checkpoint_id ≡ false

  -- A test that does not hold of the row's own keys.
  abbrev pub Spares : (Row → Bool) → Type 0
  Spares p = (s : Row) → is_r s ≡ true → p s ≡ false

  pub keep-IsLatest :
      (p : Row → Bool) (rows : List Row)
      → Spares p
      → IsLatest r rows
      → IsLatest r (keep (λ s. not (p s)) rows)
  keep-IsLatest p rows spare (one, top) = (
    count-keep (λ s. not (p s)) is_r (λ s h. ap not (spare s h)) rows ∙ one,
    All-keep Below (λ s. not (p s)) rows top,
  )

  occurs-group :
      (rows : List Row)
      → occurs r.checkpoint_id
          (map (λ s. s.checkpoint_id) (keep (of_group r.thread_id r.checkpoint_ns) rows))
        ≡ count is_r rows
  occurs-group [] = refl
  occurs-group (s ∷ rows) = ground (arith, occurs-group rows)

  All-group :
      (rows : List Row)
      → All Below rows
      → All
          (λ x. text_lt r.checkpoint_id x ≡ false)
          (map (λ s. s.checkpoint_id) (keep (of_group r.thread_id r.checkpoint_ns) rows))
  All-group [] h = tt
  All-group (s ∷ rows) (b, h) = elim (Bool-cases (of_group r.thread_id r.checkpoint_ns s)) [
    | inl own ↦ rw own (b own, All-group rows h)
    | inr other ↦ rw other (All-group rows h)
  ]

  stale-Spares :
      (limit : ℕ) (rows : List Row) (writes : List Row)
      → 1 ≤ limit
      → IsLatest r rows
      → mem_text r.checkpoint_id
          (stale limit r.thread_id r.checkpoint_ns (record { checkpoints = rows; writes = writes }))
        ≡ false
  unfolding stale
  stale-Spares zero rows writes pos l = absurd (omega (arith, pos))
  stale-Spares (suc k) rows writes pos (one, top) =
      let ids = map (λ s. s.checkpoint_id) (keep (of_group r.thread_id r.checkpoint_ns) rows) in
      let (rest, e, out) =
        sort_by-top r.checkpoint_id ids (occurs-group rows ∙ one) (All-group rows top) in
      subst (λ (l : List Text). mem_text r.checkpoint_id (drop (suc k) l) ≡ false) (sym e)
        (mem_text-drop r.checkpoint_id k rest out)

  abbrev pub Holds : Db → Type 0
  Holds db = IsLatest r db.checkpoints

  delete_ids-Holds :
      (t ns : Text) (ids : List Text) (db : Db)
      → All (λ id. Spares (is_row t ns id)) ids
      → Holds db
      → Holds (delete_ids t ns ids db)
  unfolding delete_ids
  delete_ids-Holds t ns [] db a h = h
  delete_ids-Holds t ns (id ∷ ids) db (spare, a) h =
      delete_ids-Holds t ns ids (delete_where (is_row t ns id) db) a
        (keep-IsLatest (is_row t ns id) db.checkpoints spare h)

  other_ids :
      (t ns : Text) (ids : List Text)
      → of_group t ns r ≡ false
      → All (λ id. Spares (is_row t ns id)) ids
  other_ids t ns [] n = tt
  other_ids t ns (id ∷ ids) n = (
    λ s h. ground (
      arith,
      h,
      n,
      text_eq_iff s.thread_id r.thread_id,
      text_eq_iff s.thread_id t,
      text_eq_iff r.thread_id t,
      text_eq_iff s.checkpoint_ns r.checkpoint_ns,
      text_eq_iff s.checkpoint_ns ns,
      text_eq_iff r.checkpoint_ns ns,
    ),
    other_ids t ns ids n,
  )

  own_ids :
      (t ns : Text) (ids : List Text)
      → mem_text r.checkpoint_id ids ≡ false
      → All (λ id. Spares (is_row t ns id)) ids
  unfolding mem_text
  own_ids t ns [] n = tt
  own_ids t ns (id ∷ ids) n = (
    λ s h. ground (
      arith,
      h,
      n,
      text_eq_iff s.checkpoint_id r.checkpoint_id,
      text_eq_iff s.checkpoint_id id,
      text_eq_iff r.checkpoint_id id,
    ),
    own_ids t ns ids (ground (arith, n)),
  )

  same_group :
      (limit : ℕ) (t ns : Text) (db : Db)
      → 1 ≤ limit
      → Holds db
      → of_group t ns r ≡ true
      → mem_text r.checkpoint_id (stale limit t ns db) ≡ false
  same_group limit t ns db pos h own =
      let e : r.thread_id ≡ t = (text_eq_iff r.thread_id t).0 (ground (arith, own)) in
      let f : r.checkpoint_ns ≡ ns = (text_eq_iff r.checkpoint_ns ns).0 (ground (arith, own)) in
      subst (λ t'. mem_text r.checkpoint_id (stale limit t' ns db) ≡ false) e
        (subst (λ ns'. mem_text r.checkpoint_id (stale limit r.thread_id ns' db) ≡ false) f
          (stale-Spares limit db.checkpoints db.writes pos h))

  cap_groups-Holds :
      (limit : ℕ) (t : Text) (spaces : List Text) (db : Db)
      → 1 ≤ limit
      → Holds db
      → Holds (cap_groups limit t spaces db).0
  unfolding cap_groups
  cap_groups-Holds limit t [] db pos h = h
  cap_groups-Holds limit t (ns ∷ more) db pos h =
      cap_groups-Holds limit t more (delete_ids t ns (stale limit t ns db) db) pos (
        delete_ids-Holds t ns (stale limit t ns db) db
          (elim (Bool-cases (of_group t ns r)) [
            | inl own ↦ own_ids t ns (stale limit t ns db) (same_group limit t ns db pos h own)
            | inr other ↦ other_ids t ns (stale limit t ns db) other
          ])
          h)

  pub cap_threads-Holds :
      (limit : ℕ) (threads : List Text) (db : Db)
      → 1 ≤ limit
      → Holds db
      → Holds (cap_threads limit threads db).0
  unfolding cap_threads
  cap_threads-Holds limit [] db pos h = h
  cap_threads-Holds limit (t ∷ threads) db pos h =
      let spaces = distinct (map (λ s. s.checkpoint_ns) (keep (of_thread t) db.checkpoints)) in
      cap_threads-Holds limit threads (cap_groups limit t spaces db).0 pos
        (cap_groups-Holds limit t spaces db pos h)
