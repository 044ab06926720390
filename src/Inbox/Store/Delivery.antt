-- ===== src/Inbox/Store/Delivery.antt =====
-- inbox/store.py: `mark_delivered`, and what it takes off the listings.
use proto_trader.Prelude.{
  ℕ, ◌≡◌, refl, ap, ap₂, inl, inr, some, Text, Bool, false, ◌&&◌, not, List, [], ◌∷◌, arith, keep,
  count, map, take, max, if◌then◌else◌, sort_by, Bool-cases,
}
use proto_trader.Inbox.Store.{
  Item, InboxStore, before, matches, list, has_id, to_deliver, deliver, mark_delivered,
}

-- Nothing is left to deliver in a delivered row.
to_deliver-deliver :
    (ids : List ℕ) (time : ℕ) (item : Item) → to_deliver ids (deliver ids time item) ≡ false
to_deliver-deliver ids time item = elim (Bool-cases (to_deliver ids item)) [
  | inl due ↦ ground (arith, due)
  | inr other ↦ ground (arith, other)
]

deliver_idem :
    (ids : List ℕ) (time later : ℕ) (item : Item)
    → deliver ids later (deliver ids time item) ≡ deliver ids time item
deliver_idem ids time later item =
    ap
      (λ (b : Bool).
        if b
        then record (deliver ids time item) { delivered_at = some later }
        else deliver ids time item)
      (to_deliver-deliver ids time item)

count-map-deliver :
    (ids : List ℕ) (time : ℕ) (rows : List Item)
    → count (to_deliver ids) (map (deliver ids time) rows) ≡ 0
count-map-deliver ids time [] = refl
count-map-deliver ids time (item ∷ rows) =
    rw (to_deliver-deliver ids time item) (count-map-deliver ids time rows)

map-deliver_idem :
    (ids : List ℕ) (time later : ℕ) (rows : List Item)
    → map (deliver ids later) (map (deliver ids time) rows) ≡ map (deliver ids time) rows
map-deliver_idem ids time later [] = refl
map-deliver_idem ids time later (item ∷ rows) =
    ap₂ (λ (x : Item) (l : List Item). x ∷ l) (deliver_idem ids time later item)
      (map-deliver_idem ids time later rows)

-- Marking the same items again changes nothing, returns 0 and keeps the first delivery time.
mark_delivered_again :
    (ids : List ℕ) (time later : ℕ) (s : InboxStore)
    → mark_delivered ids later (mark_delivered ids time s).0 ≡ ((mark_delivered ids time s).0, 0)
unfolding mark_delivered
mark_delivered_again [] time later s = refl
mark_delivered_again (i ∷ ids) time later s =
    ap₂ (λ (l : List Item) (n : ℕ). let r : InboxStore × ℕ = (record s { rows = l }, n) in r)
      (map-deliver_idem (i ∷ ids) time later s.rows) (count-map-deliver (i ∷ ids) time s.rows)

keep-map-deliver :
    (floor : Text) (ids : List ℕ) (time : ℕ) (rows : List Item)
    → keep (matches floor false) (map (deliver ids time) rows)
      ≡ keep (λ item. matches floor false item && not (has_id ids item.id)) rows
keep-map-deliver floor ids time [] = refl
keep-map-deliver floor ids time (item ∷ rows) = ground (arith, keep-map-deliver floor ids time rows)

keep_all :
    (floor : Text) (rows : List Item)
    → keep (matches floor false) rows
      ≡ keep (λ item. matches floor false item && not (has_id [] item.id)) rows
keep_all floor [] = refl
keep_all floor (item ∷ rows) = ground (arith, keep_all floor rows)

-- After `mark_delivered`, the default listing is what it would be of the table without the marked
-- ids: those items are gone, and no other item is.
pub list-mark_delivered :
    (floor : Text) (limit : ℕ) (ids : List ℕ) (time : ℕ) (s : InboxStore)
    → list floor false limit (mark_delivered ids time s).0
      ≡ take (max 1 limit) (
          sort_by before
            (keep (λ item. matches floor false item && not (has_id ids item.id)) s.rows))
unfolding list mark_delivered
list-mark_delivered floor limit [] time s =
    ap (λ (l : List Item). take (max 1 limit) (sort_by before l)) (keep_all floor s.rows)
list-mark_delivered floor limit (i ∷ ids) time s =
    ap (λ (l : List Item). take (max 1 limit) (sort_by before l))
      (keep-map-deliver floor (i ∷ ids) time s.rows)
