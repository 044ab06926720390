-- ===== src/Beads.antt =====
-- beads/store.py: `BeadsStore` over its table of issues, in the order of insertion. A text argument that
-- is `None` is the empty text where the code treats the two alike. A priority is a whole number from 0.
pub mod Fresh
pub mod Refine
mod Tests
use proto_trader.Prelude.{
  ℕ, zero, suc, max, Text, codes, text_eq, is_empty, is_digit, strip, lower, drop, show, read, Bool,
  true, false, not, ◌&&◌, Option, none, some, List, [], ◌∷◌, ◌++◌, keep, all, any, leb,
  if◌then◌else◌, sort_by,
}
use proto_trader.Tags.{starts_ci}

-- `VALID_STATUSES`.
pub data Status : Type 0 where
  open_issue in_progress blocked deferred closed : Status

-- `_VALID_TYPES`.
pub data IssueType : Type 0 where
  task bug feature chore epic : IssueType

pub record Issue : Type 0 where
  pub id : Text
  pub title : Text
  pub description : Text
  pub status : Status
  pub priority : ℕ
  pub issue_type : IssueType
  pub assignee : Text
  pub created_at : ℕ
  pub updated_at : ℕ
  pub closed_at : Option ℕ
  pub close_reason : Option Text

abbrev norm : Text → Text
norm s = lower (strip s)

-- `_norm_status`.
unfoldable pub norm_status : Text → Status
unfolding strip lower text_eq
norm_status s =
    if text_eq (norm s) (codes "in_progress")
    then in_progress
    else if text_eq (norm s) (codes "blocked")
    then blocked
    else if text_eq (norm s) (codes "deferred")
    then deferred
    else if text_eq (norm s) (codes "closed")
    then closed
    else open_issue

-- `_norm_type`.
unfoldable pub norm_type : Text → IssueType
unfolding strip lower text_eq
norm_type t =
    if text_eq (norm t) (codes "bug")
    then bug
    else if text_eq (norm t) (codes "feature")
    then feature
    else if text_eq (norm t) (codes "chore")
    then chore
    else if text_eq (norm t) (codes "epic")
    then epic
    else task

-- The number of an id `bd-<digits>`; SQLite's LIKE ignores case.
unfoldable pub id_number : Text → Option ℕ
unfolding starts_ci
id_number id =
    if starts_ci id (codes "bd-") && (not (is_empty (drop 3 id)) && all is_digit (drop 3 id))
    then some (read (drop 3 id))
    else none

-- `nums`.
unfoldable pub numbers : List Issue → List ℕ
numbers [] = []
numbers (r ∷ rows) = elim (id_number r.id) [ none ↦ numbers rows | some n ↦ n ∷ numbers rows ]

abbrev pub max_of : ℕ → List ℕ → ℕ
max_of n [] = n
max_of n (m ∷ ms) = max n (max_of m ms)

-- `(max(nums) + 1) if nums else 1`.
abbrev pub next_number : List ℕ → ℕ
next_number [] = 1
next_number (n ∷ ns) = suc (max_of n ns)

-- `_next_id`.
unfoldable pub next_id : List Issue → Text
unfolding numbers
next_id rows = codes "bd-" ++ show (next_number (numbers rows))

-- What an operation returns, an exception included.
pub data Answer : Type 0 where
  title_required id_required : Answer
  unknown_issue : Text → Answer
  issue : Issue → Answer
  deleted : Bool → Answer

-- `_row`.
unfoldable pub get : Text → List Issue → Option Issue
get id [] = none
get id (r ∷ rows) = if text_eq r.id id then some r else get id rows

-- What the caller gives to `create`; a priority that is `None` is 2.
pub record NewIssue : Type 0 where
  pub title : Text
  pub description : Text
  pub priority : Option ℕ
  pub issue_type : Text
  pub assignee : Text

abbrev pub new_issue : Text → NewIssue → ℕ → Issue
new_issue id new time = record {
  id = id;
  title = strip new.title;
  description = new.description;
  status = open_issue;
  priority = elim new.priority [ none ↦ 2 | some p ↦ p ];
  issue_type = norm_type new.issue_type;
  assignee = new.assignee;
  created_at = time;
  updated_at = time;
  closed_at = none;
  close_reason = none;
}

unfoldable pub create : NewIssue → ℕ → List Issue → List Issue × Answer
create new time rows =
    if is_empty (strip new.title)
    then (rows, title_required)
    else let row = new_issue (next_id rows) new time in (rows ++ row ∷ [], issue row)

-- `ORDER BY created_at`.
abbrev pub older : Issue → Issue → Bool
older a b = leb a.created_at b.created_at

abbrev pub is_open : Issue → Bool
is_open r = elim r.status [
  | open_issue ↦ true
  | in_progress ↦ true
  | blocked ↦ true
  | deferred ↦ true
  | closed ↦ false
]

unfoldable pub list : Bool → List Issue → List Issue
list include_closed rows =
    if include_closed then sort_by older rows else sort_by older (keep is_open rows)

-- The keyword arguments of `update` that it reads; `none` is an absent key, and for the two keys whose
-- presence is tested, `some none` is a key with the value `None`.
pub record Fields : Type 0 where
  pub title : Option Text
  pub description : Option Text
  pub status : Option Text
  pub priority : Option ℕ
  pub assignee : Option Text
  pub type : Option (Option Text)
  pub issue_type : Option (Option Text)

abbrev or_old {ℓ} : {A : Type ℓ} → Option A → A → A
or_old none old = old
or_old (some new) old = new

-- The type given: `type` is an alias where `issue_type` is absent.
abbrev pub given_type : Fields → Option Text
given_type f = elim f.issue_type [ some t ↦ t | none ↦ elim f.type [ none ↦ none | some t ↦ t ] ]

abbrev pub apply_fields : Fields → ℕ → Issue → Issue
apply_fields f time r = record r {
  title = or_old f.title r.title;
  description = or_old f.description r.description;
  status = elim f.status [ none ↦ r.status | some s ↦ norm_status s ];
  priority = or_old f.priority r.priority;
  issue_type = elim (given_type f) [ none ↦ r.issue_type | some t ↦ norm_type t ];
  assignee = or_old f.assignee r.assignee;
  updated_at = time;
}

abbrev pub closing : Text → ℕ → Issue → Issue
closing reason time r = record r {
  status = closed;
  closed_at = some time;
  close_reason = some reason;
  updated_at = time;
}

-- `UPDATE issues SET … WHERE id = ?`.
unfoldable pub set_rows : Text → (Issue → Issue) → List Issue → List Issue
set_rows id f [] = []
set_rows id f (r ∷ rows) = (if text_eq r.id id then f r else r) ∷ set_rows id f rows

-- What `update` and `close` share: both refuse an empty and an unknown id.
unfoldable pub change : Text → (Issue → Issue) → List Issue → List Issue × Answer
change id f rows = if is_empty id then (rows, id_required) else elim (get id rows) [
  | none ↦ (rows, unknown_issue id)
  | some r ↦ (set_rows id f rows, issue (f r))
]

unfoldable pub update : Text → Fields → ℕ → List Issue → List Issue × Answer
unfolding change
update id f time rows = change id (apply_fields f time) rows

unfoldable pub close : Text → Text → ℕ → List Issue → List Issue × Answer
unfolding change
close id reason time rows = change id (closing reason time) rows

unfoldable pub delete : Text → List Issue → List Issue × Answer
delete id rows = (keep (λ r. not (text_eq r.id id)) rows, deleted (any (λ r. text_eq r.id id) rows))

pub data Op : Type 0 where
  creates : NewIssue → ℕ → Op
  updates : Text → Fields → ℕ → Op
  closes : Text → Text → ℕ → Op
  deletes : Text → Op

unfoldable pub after_op : Op → List Issue → List Issue × Answer
after_op (creates new time) rows = create new time rows
after_op (updates id f time) rows = update id f time rows
after_op (closes id reason time) rows = close id reason time rows
after_op (deletes id) rows = delete id rows
