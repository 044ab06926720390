-- ===== src/Discord/Sessions.antt =====
-- surfaces/discord/conversation.py: the manager as one session per channel and user.
use proto_trader.Prelude.{
  ℕ, ◌≤◌, ◌≡◌, refl, inl, inr, sym, subst, ◌∙◌, Text, text_eq, text_eq_iff, mem_text, Bool, true,
  false, not, ◌&&◌, Option, none, some, List, [], ◌∷◌, any, ◌==◌, if◌then◌else◌, arith, Bool-cases,
  lookup, remove, lookup-remove, IsUnique, insert-IsUnique, remove-IsUnique,
}
use proto_trader.Discord.Conversation.{
  ConversationEntry, ConversationManager, key, is_live, next_entry, get_or_create, is_going, end,
  expired, pop_all, sweep_once, Op, message, asks, ends, sweep, Answer, talk, going, ended, swept,
  after_op,
}

-- A session is what the manager keeps for one channel and user; nothing sweeps it.
unfoldable pub session_op : Op → ℕ → Option ConversationEntry → Option ConversationEntry × Answer
session_op (message fresh channel user timeout) now s =
    let next = next_entry fresh channel user timeout now s in
    (
      some next.0,
      talk (record {
        conversation_id = next.0.conversation_id;
        is_new = next.1;
        turn_number = next.0.turn_number;
      }),
    )
session_op (asks channel user) now s = (s, going (is_going now s))
session_op (ends channel user) now s = (none, ended true)
session_op sweep now s = (s, swept)

-- Whether an ended conversation was there shows if a sweep has run, and is left out.
abbrev pub seen : Answer → Answer
seen (talk t) = talk t
seen (going b) = going b
seen (ended b) = ended true
seen swept = swept

abbrev pub has_colon : Text → Bool
has_colon s = any (λ c. c == 58) s

abbrev pub is_from : Text → Text → Op → Bool
is_from c u (message fresh channel user timeout) = text_eq channel c && text_eq user u
is_from c u (asks channel user) = text_eq channel c && text_eq user u
is_from c u (ends channel user) = text_eq channel c && text_eq user u
is_from c u sweep = false

abbrev pub plain : Op → Bool
plain (message fresh channel user timeout) = not (has_colon channel)
plain (asks channel user) = not (has_colon channel)
plain (ends channel user) = not (has_colon channel)
plain sweep = true

-- Calls in the order of time, from a time on, and with channels without a colon.
abbrev pub IsTimely : ℕ → List (Op × ℕ) → Type 0
IsTimely t [] = Unit
IsTimely t ((op, now) ∷ ops) = (t ≤ now) × (plain op ≡ true) × IsTimely now ops

unfoldable pub replies : Text → Text → List (Op × ℕ) → ConversationManager → List Answer
replies c u [] m = []
replies c u ((op, now) ∷ ops) m =
    let r = after_op op now m in
    let rest = replies c u ops r.0 in if is_from c u op then seen r.1 ∷ rest else rest

unfoldable pub session_replies : List (Op × ℕ) → Option ConversationEntry → List Answer
session_replies [] s = []
session_replies ((op, now) ∷ ops) s =
    let r = session_op op now s in seen r.1 ∷ session_replies ops r.0

pub text_eq-key :
    (c u d v : Text)
    → has_colon c ≡ false
    → has_colon d ≡ false
    → text_eq (key c u) (key d v) ≡ (text_eq c d && text_eq u v)
unfolding key text_eq
text_eq-key [] u [] v hc hd = refl
text_eq-key [] u (y ∷ d) v hc hd = ground (arith, hd)
text_eq-key (x ∷ c) u [] v hc hd = ground (arith, hc)
text_eq-key (x ∷ c) u (y ∷ d) v hc hd = ground (arith, hc, hd, text_eq-key c u d v)

unfoldable pub live : ℕ → Option ConversationEntry → Option ConversationEntry
live now none = none
live now (some entry) = if is_live now entry then some entry else none

pub live_later :
    (t now : ℕ) (o : Option ConversationEntry) → t ≤ now → live now (live t o) ≡ live now o
unfolding live
live_later t now none le = refl
live_later t now (some entry) le = elim (Bool-cases (is_live t entry)) [
  | inl going_on ↦ rw going_on refl
  | inr over ↦ let e : is_live now entry ≡ false = ground (arith, over, le) in rw (over, e) refl
]

lookup-pop_all :
    (k : Text) (ks : List Text) (m : ConversationManager)
    → lookup k (pop_all ks m) ≡ (if mem_text k ks then none else lookup k m)
unfolding pop_all mem_text
lookup-pop_all k [] m = refl
lookup-pop_all k (j ∷ ks) m =
    ground (
      arith,
      lookup-pop_all k ks (remove j m),
      lookup-remove j k m,
      text_eq_iff j k,
      text_eq_iff k j,
    )

mem_text-expired :
    (k : Text) (now : ℕ) (m : ConversationManager)
    → lookup k m ≡ none
    → mem_text k (expired now m) ≡ false
unfolding expired lookup mem_text
mem_text-expired k now [] h = refl
mem_text-expired k now ((j, entry) ∷ m) h =
    ground (arith, h, mem_text-expired k now m, text_eq_iff j k, text_eq_iff k j)

unexpired :
    (k : Text) (now : ℕ) (m : ConversationManager)
    → IsUnique m
    → (if mem_text k (expired now m) then none else lookup k m) ≡ live now (lookup k m)
unfolding expired lookup mem_text live
unexpired k now [] u = refl
unexpired k now ((j, entry) ∷ m) (new, u) = elim (Bool-cases (text_eq j k)) [
  | inl same ↦
      let e = subst (λ i. lookup i m ≡ none) ((text_eq_iff j k).0 same) new in
      let gone = mem_text-expired k now m e in
      elim (Bool-cases (is_live now entry)) [
        | inl going_on ↦ rw (same, going_on, gone) refl
        | inr over ↦ rw (same, over, (text_eq_iff k j).1 (sym ((text_eq_iff j k).0 same))) refl
      ]
  | inr other ↦
      let n : text_eq k j ≡ false = ground (arith, other, text_eq_iff j k, text_eq_iff k j) in
      elim (Bool-cases (is_live now entry)) [
        | inl going_on ↦ rw (other, going_on) (unexpired k now m u)
        | inr over ↦ rw (other, over, n) (unexpired k now m u)
      ]
]

pub lookup-sweep_once :
    (k : Text) (now : ℕ) (m : ConversationManager)
    → IsUnique m
    → lookup k (sweep_once now m) ≡ live now (lookup k m)
unfolding sweep_once
lookup-sweep_once k now m unique = lookup-pop_all k (expired now m) m ∙ unexpired k now m unique

pop_all-IsUnique : (ks : List Text) (m : ConversationManager) → IsUnique m → IsUnique (pop_all ks m)
unfolding pop_all
pop_all-IsUnique [] m u = u
pop_all-IsUnique (k ∷ ks) m u = pop_all-IsUnique ks (remove k m) (remove-IsUnique k m u)

pub after_op-IsUnique :
    (op : Op) (now : ℕ) (m : ConversationManager) → IsUnique m → IsUnique (after_op op now m).0
unfolding after_op get_or_create end sweep_once
after_op-IsUnique (message fresh c u timeout) now m unique = insert-IsUnique (key c u) _ m unique
after_op-IsUnique (asks c u) now m unique = unique
after_op-IsUnique (ends c u) now m unique = remove-IsUnique (key c u) m unique
after_op-IsUnique sweep now m unique = pop_all-IsUnique (expired now m) m unique

pub next_entry-live :
    (fresh c u : Text) (timeout now : ℕ) (o : Option ConversationEntry)
    → next_entry fresh c u timeout now (live now o) ≡ next_entry fresh c u timeout now o
unfolding next_entry live
next_entry-live fresh c u timeout now none = refl
next_entry-live fresh c u timeout now (some entry) = elim (Bool-cases (is_live now entry)) [
  | inl going_on ↦ rw (going_on, next_entry, going_on) refl
  | inr over ↦ rw (over, next_entry) refl
]

pub is_going-live :
    (now : ℕ) (o : Option ConversationEntry) → is_going now (live now o) ≡ is_going now o
unfolding is_going live
is_going-live now none = refl
is_going-live now (some entry) = elim (Bool-cases (is_live now entry)) [
  | inl going_on ↦ rw (going_on, is_going) going_on
  | inr over ↦ rw (over, is_going) refl
]
