-- ===== src/Inbox/Store/Dedup.antt =====
-- inbox/store.py: no two undelivered items of one key lie within the window, and ids are unique.
use proto_trader.Prelude.{
  ℕ, suc, ◌+◌, ◌<◌, ◌≡◌, refl, inl, inr, Text, is_empty, strip, Bool, false, ◌&&◌, not, none, some,
  List, [], ◌∷◌, ◌++◌, arith, map, any, leb, All, All-append, Bool-cases, Option-cases,
}
use proto_trader.Inbox.Store.{
  Item, InboxStore, Priority, parse_priority, undelivered, has_key, is_dup, new_item, insert_item,
  add, deliver, mark_delivered,
}

-- The later row repeats the earlier one: both wait, with one key, and were made within the window.
abbrev pub repeats : ℕ → Item → Item → Bool
repeats window earlier later_row = elim later_row.dedup_key [
  | none ↦ false
  | some key ↦
      has_key key earlier
      && (undelivered earlier
          && (undelivered later_row && leb later_row.created_at (earlier.created_at + window)))
]

abbrev pub Apart : ℕ → List Item → Type 0
Apart window [] = Unit
Apart window (x ∷ rows) = All (λ y. repeats window x y ≡ false) rows × Apart window rows

-- The ids go up along the table, to below the counter.
abbrev pub Ascending : List Item → ℕ → Type 0
Ascending [] next_id = Unit
Ascending (x ∷ rows) next_id =
    (x.id < next_id) × All (λ y. x.id < y.id) rows × Ascending rows next_id

pub record IsValid (s : InboxStore) : Type 0 where
  pub apart : Apart s.dedup_window s.rows
  pub ascending : Ascending s.rows s.next_id

pub data Op : Type 0 where
  posting : (text priority source key : Text) (time : ℕ) → Op
  delivering : (ids : List ℕ) (time : ℕ) → Op

unfoldable pub step : Op → InboxStore → InboxStore
step (posting text priority source key time) s = (add text priority source key time s).0
step (delivering ids time) s = (mark_delivered ids time s).0

unfoldable pub run : List Op → InboxStore → InboxStore
unfolding step
run [] s = s
run (op ∷ ops) s = run ops (step op s)

Apart-append :
    (window : ℕ) (rows : List Item) (y : Item)
    → Apart window rows
    → All (λ x. repeats window x y ≡ false) rows
    → Apart window (rows ++ y ∷ [])
Apart-append window [] y a h = (tt, tt)
Apart-append window (x ∷ rows) y a h = (
  All-append (λ z. repeats window x z ≡ false) rows (y ∷ []) a.0 (h.0, tt),
  Apart-append window rows y a.1 h.1,
)

Ascending-append :
    (rows : List Item) (next_id : ℕ) (y : Item)
    → y.id ≡ next_id
    → Ascending rows next_id
    → Ascending (rows ++ y ∷ []) (suc next_id)
Ascending-append [] next_id y e a = (omega arith, tt, tt)
Ascending-append (x ∷ rows) next_id y e a = (
  omega arith,
  All-append (λ z. x.id < z.id) rows (y ∷ []) a.1 (omega arith, tt),
  Ascending-append rows next_id y e a.2,
)

-- A key that no waiting recent row has makes no repetition.
no_dup→no_repeat :
    (window : ℕ) (key : Text) (time id : ℕ) (text source : Text) (tier : Priority)
    (rows : List Item)
    → (not (is_empty key) && any (is_dup window key time) rows) ≡ false
    → All (λ x. repeats window x (new_item id text tier source key time) ≡ false) rows
no_dup→no_repeat window key time id text source tier [] h = tt
no_dup→no_repeat window key time id text source tier (x ∷ rows) h = (
  ground (arith, h),
  no_dup→no_repeat window key time id text source tier rows (ground (arith, h)),
)

insert_item-IsValid :
    (text source key : Text) (tier : Priority) (time : ℕ) (s : InboxStore)
    → IsValid s
    → IsValid (insert_item text tier source key time s).0
unfolding insert_item
insert_item-IsValid text source key tier time s v =
    elim (Bool-cases (not (is_empty key) && any (is_dup s.dedup_window key time) s.rows)) [
      | inl dup ↦ rw dup v
      | inr fresh ↦ rw fresh record {
        apart =
            Apart-append s.dedup_window s.rows _ v.apart
              (no_dup→no_repeat s.dedup_window key time s.next_id text source tier s.rows fresh);
        ascending = Ascending-append s.rows s.next_id _ refl v.ascending;
      }
    ]

add-IsValid :
    (text priority source key : Text) (time : ℕ) (s : InboxStore)
    → IsValid s
    → IsValid (add text priority source key time s).0
unfolding add
add-IsValid text priority source key time s v = elim (Bool-cases (is_empty (strip text))) [
  | inl blank ↦ rw blank v
  | inr filled ↦ elim (Option-cases (parse_priority priority)) [
    | inl unknown ↦ rw (filled, unknown, add) v
    | inr (tier, known) ↦
        rw (filled, known, add) (insert_item-IsValid (strip text) source key tier time s v)
  ]
]

repeats-deliver :
    (window : ℕ) (ids : List ℕ) (time : ℕ) (x : Item) (rows : List Item)
    → All (λ y. repeats window x y ≡ false) rows
    → All (λ y. repeats window (deliver ids time x) y ≡ false) (map (deliver ids time) rows)
repeats-deliver window ids time x [] h = tt
repeats-deliver window ids time x (y ∷ rows) h =
    (ground (arith, h.0), repeats-deliver window ids time x rows h.1)

Apart-deliver :
    (window : ℕ) (ids : List ℕ) (time : ℕ) (rows : List Item)
    → Apart window rows
    → Apart window (map (deliver ids time) rows)
Apart-deliver window ids time [] a = tt
Apart-deliver window ids time (x ∷ rows) a =
    (repeats-deliver window ids time x rows a.0, Apart-deliver window ids time rows a.1)

ids-deliver :
    (n : ℕ) (ids : List ℕ) (time : ℕ) (rows : List Item)
    → All (λ y. n < y.id) rows
    → All (λ y. n < y.id) (map (deliver ids time) rows)
ids-deliver n ids time [] h = tt
ids-deliver n ids time (y ∷ rows) h = (ground (arith, h.0), ids-deliver n ids time rows h.1)

same_id : (ids : List ℕ) (time : ℕ) (x : Item) → (deliver ids time x).id ≡ x.id
same_id ids time x = ground arith

Ascending-deliver :
    (ids : List ℕ) (time : ℕ) (rows : List Item) (next_id : ℕ)
    → Ascending rows next_id
    → Ascending (map (deliver ids time) rows) next_id
Ascending-deliver ids time [] next_id a = tt
Ascending-deliver ids time (x ∷ rows) next_id a =
    rw (same_id ids time x)
      (a.0, ids-deliver x.id ids time rows a.1, Ascending-deliver ids time rows next_id a.2)

mark_delivered-IsValid :
    (ids : List ℕ) (time : ℕ) (s : InboxStore) → IsValid s → IsValid (mark_delivered ids time s).0
unfolding mark_delivered
mark_delivered-IsValid [] time s v = v
mark_delivered-IsValid (i ∷ ids) time s v = record {
  apart = Apart-deliver s.dedup_window (i ∷ ids) time s.rows v.apart;
  ascending = Ascending-deliver (i ∷ ids) time s.rows s.next_id v.ascending;
}

step-IsValid : (op : Op) (s : InboxStore) → IsValid s → IsValid (step op s)
unfolding step
step-IsValid (posting text priority source key time) s v =
    add-IsValid text priority source key time s v
step-IsValid (delivering ids time) s v = mark_delivered-IsValid ids time s v

-- Whatever is posted and delivered, in whatever order and at whatever times, no two waiting items of
-- one key are made within the window of one another, and the ids go up along the table.
pub run-IsValid : (ops : List Op) (s : InboxStore) → IsValid s → IsValid (run ops s)
unfolding run
run-IsValid [] s v = v
run-IsValid (op ∷ ops) s v = run-IsValid ops (step op s) (step-IsValid op s v)
