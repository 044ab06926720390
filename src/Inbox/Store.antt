-- ===== src/Inbox/Store.antt =====
-- inbox/store.py: `InboxStore`. The table is a list of rows in insertion order, and `next_id` is
-- SQLite's AUTOINCREMENT counter. A time is a whole number of microseconds: ISO texts in UTC compare
-- as the times do. `now` is an argument, as in the code.
pub mod Shows
pub mod Listing
pub mod Delivery
pub mod Dedup
mod Tests
use proto_trader.Prelude.{
  ℕ, zero, suc, ◌+◌, ◌-◌, max, Text, codes, strip, text_eq, is_empty, Bool, true, false, ◌&&◌, ◌||◌,
  not, Option, none, some, List, [], ◌∷◌, ◌++◌, map, keep, count, any, take, length, ltb, leb, ◌==◌,
  if◌then◌else◌, sort_by,
}

pub data Priority : Type 0 where
  now next later : Priority

pub record Item : Type 0 where
  pub id : ℕ
  pub created_at : ℕ
  pub priority : Priority
  pub source : Text
  pub text : Text
  pub dedup_key : Option Text
  pub delivered_at : Option ℕ

pub record InboxStore : Type 0 where
  pub rows : List Item
  pub next_id : ℕ
  pub dedup_window : ℕ

unfoldable pub init : ℕ → InboxStore
init dedup_window = record { rows = []; next_id = 1; dedup_window = dedup_window }

-- `priority in PRIORITIES`, as the tier that the text names.
unfoldable pub parse_priority : Text → Option Priority
parse_priority p =
    if text_eq p (codes "now")
    then some now
    else if text_eq p (codes "next")
    then some next
    else if text_eq p (codes "later")
    then some later
    else none

-- `_RANK`.
abbrev pub rank : Priority → ℕ
rank now = 0
rank next = 1
rank later = 2

-- `_RANK.get(priority_floor, 1)`.
unfoldable pub cutoff : Text → ℕ
unfolding parse_priority
cutoff floor = elim (parse_priority floor) [ none ↦ 1 | some p ↦ rank p ]

-- `priority IN (…)` over `_floor_set(priority_floor)`.
unfoldable pub in_floor_set : Text → Priority → Bool
unfolding cutoff
in_floor_set floor p = leb (rank p) (cutoff floor)

abbrev pub undelivered : Item → Bool
undelivered item = elim item.delivered_at [ none ↦ true | some t ↦ false ]

abbrev pub has_key : Text → Item → Bool
has_key key item = elim item.dedup_key [ none ↦ false | some k ↦ text_eq k key ]

-- A row that makes a new post with this key a duplicate.
abbrev pub is_dup : ℕ → Text → ℕ → Item → Bool
is_dup window key time item =
    has_key key item && (undelivered item && leb (time - window) item.created_at)

pub data Added : Type 0 where
  empty_text unknown_priority deduped : Added
  added : Item → Added

abbrev pub new_item : ℕ → Text → Priority → Text → Text → ℕ → Item
new_item id text priority source key time = record {
  id = id;
  created_at = time;
  priority = priority;
  source = source;
  text = text;
  dedup_key = if is_empty key then none else some key;
  delivered_at = none;
}

-- The part of `add` under the connection.
unfoldable pub insert_item : Text → Priority → Text → Text → ℕ → InboxStore → InboxStore × Added
insert_item text priority source key time s =
    if not (is_empty key) && any (is_dup s.dedup_window key time) s.rows
    then (s, deduped)
    else let item = new_item s.next_id text priority source key time in
      (record s { rows = s.rows ++ item ∷ []; next_id = suc s.next_id }, added item)

unfoldable pub add : Text → Text → Text → Text → ℕ → InboxStore → InboxStore × Added
unfolding insert_item
add text priority source key time s =
    if is_empty (strip text) then (s, empty_text) else elim (parse_priority priority) [
      | none ↦ (s, unknown_priority)
      | some tier ↦ insert_item (strip text) tier source key time s
    ]

-- `ORDER BY CASE priority …, created_at ASC`.
abbrev pub before : Item → Item → Bool
before a b =
    ltb (rank a.priority) (rank b.priority)
    || ((rank a.priority == rank b.priority) && leb a.created_at b.created_at)

abbrev pub matches : Text → Bool → Item → Bool
matches floor include_delivered item =
    in_floor_set floor item.priority && (include_delivered || undelivered item)

-- `list`.
unfoldable pub list : Text → Bool → ℕ → InboxStore → List Item
list floor include_delivered limit s =
    take (max 1 limit) (sort_by before (keep (matches floor include_delivered) s.rows))

abbrev pub has_id : List ℕ → ℕ → Bool
has_id ids i = any (λ j. j == i) ids

-- The rows of `WHERE id IN (…) AND delivered_at IS NULL`.
abbrev pub to_deliver : List ℕ → Item → Bool
to_deliver ids item = has_id ids item.id && undelivered item

abbrev pub deliver : List ℕ → ℕ → Item → Item
deliver ids time item =
    if to_deliver ids item then record item { delivered_at = some time } else item

-- `mark_delivered`: the new store and the row count.
unfoldable pub mark_delivered : List ℕ → ℕ → InboxStore → InboxStore × ℕ
mark_delivered [] time s = (s, 0)
mark_delivered (i ∷ ids) time s =
    (record s { rows = map (deliver (i ∷ ids) time) s.rows }, count (to_deliver (i ∷ ids)) s.rows)

unfoldable pub pending_count : Text → InboxStore → ℕ
unfolding list
pending_count floor s = length (list floor false 1000 s)
