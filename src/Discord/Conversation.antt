-- ===== src/Discord/Conversation.antt =====
-- surfaces/discord/conversation.py. The identifier that `uuid4` makes and the time of the monotonic clock
-- are arguments.
use proto_trader.Prelude.{
  ℕ, suc, ◌+◌, Text, codes, Bool, true, false, Option, none, some, List, [], ◌∷◌, ◌++◌, ltb,
  if◌then◌else◌, Dict, lookup, insert, remove,
}

pub record ConversationEntry : Type 0 where
  pub conversation_id : Text
  pub channel_id : Text
  pub user_id : Text
  pub started_at : ℕ
  pub last_activity : ℕ
  pub timeout_s : ℕ
  pub turn_number : ℕ

-- `_conversations`.
abbrev pub ConversationManager : Type 0
ConversationManager = Dict ConversationEntry

unfoldable pub key : Text → Text → Text
key channel user = channel ++ codes ":" ++ user

-- `(now - last_activity) < timeout_s`.
abbrev pub is_live : ℕ → ConversationEntry → Bool
is_live now entry = ltb now (entry.last_activity + entry.timeout_s)

-- `(conversation_id, is_new, turn_number)`.
pub record Talk : Type 0 where
  pub conversation_id : Text
  pub is_new : Bool
  pub turn_number : ℕ

abbrev pub started : Text → Text → Text → ℕ → ℕ → ConversationEntry
started fresh channel user timeout now = record {
  conversation_id = fresh;
  channel_id = channel;
  user_id = user;
  started_at = now;
  last_activity = now;
  timeout_s = timeout;
  turn_number = 1;
}

abbrev pub continued : ℕ → ConversationEntry → ConversationEntry
continued now entry = record entry { last_activity = now; turn_number = suc entry.turn_number }

-- The entry that `get_or_create` leaves under the key, and whether it is new.
unfoldable pub next_entry :
    Text → Text → Text → ℕ → ℕ → Option ConversationEntry → ConversationEntry × Bool
next_entry fresh channel user timeout now none = (started fresh channel user timeout now, true)
next_entry fresh channel user timeout now (some existing) =
    if is_live now existing
    then (continued now existing, false)
    else (started fresh channel user timeout now, true)

unfoldable pub get_or_create :
    Text → Text → Text → ℕ → ℕ → ConversationManager → ConversationManager × Talk
unfolding next_entry key
get_or_create fresh channel user timeout now m =
    let next = next_entry fresh channel user timeout now (lookup (key channel user) m) in
    (
      insert (key channel user) next.0 m,
      record {
        conversation_id = next.0.conversation_id;
        is_new = next.1;
        turn_number = next.0.turn_number;
      },
    )

unfoldable pub is_going : ℕ → Option ConversationEntry → Bool
is_going now none = false
is_going now (some entry) = is_live now entry

unfoldable pub has : Text → Text → ℕ → ConversationManager → Bool
unfolding is_going key
has channel user now m = is_going now (lookup (key channel user) m)

-- `end`, with what it returns.
unfoldable pub end : Text → Text → ConversationManager → ConversationManager × Bool
unfolding key
end channel user m = (
  remove (key channel user) m,
  elim (lookup (key channel user) m) [ none ↦ false | some entry ↦ true ],
)

unfoldable pub expired : ℕ → ConversationManager → List Text
expired now [] = []
expired now ((k, entry) ∷ m) =
    let rest = expired now m in if is_live now entry then rest else k ∷ rest

unfoldable pub pop_all : List Text → ConversationManager → ConversationManager
pop_all [] m = m
pop_all (k ∷ ks) m = pop_all ks (remove k m)

unfoldable pub sweep_once : ℕ → ConversationManager → ConversationManager
unfolding expired pop_all
sweep_once now m = pop_all (expired now m) m

-- The calls of the manager, and what they return.
pub data Op : Type 0 where
  message : (fresh channel user : Text) (timeout : ℕ) → Op
  asks : (channel user : Text) → Op
  ends : (channel user : Text) → Op
  sweep : Op

pub data Answer : Type 0 where
  talk : Talk → Answer
  going : Bool → Answer
  ended : Bool → Answer
  swept : Answer

unfoldable pub after_op : Op → ℕ → ConversationManager → ConversationManager × Answer
unfolding get_or_create has end sweep_once
after_op (message fresh channel user timeout) now m =
    let r = get_or_create fresh channel user timeout now m in (r.0, talk r.1)
after_op (asks channel user) now m = (m, going (has channel user now m))
after_op (ends channel user) now m = let r = end channel user m in (r.0, ended r.1)
after_op sweep now m = (sweep_once now m, swept)
