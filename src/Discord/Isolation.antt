-- ===== src/Discord/Isolation.antt =====
-- surfaces/discord/conversation.py: what one channel and user is answered.
use proto_trader.Prelude.{
  ℕ, ◌≡◌, refl, inl, inr, sym, ap, ap₂, ◌∙◌, Text, text_eq, text_eq_iff, Bool, true, false, not,
  ◌&&◌, Option, none, some, List, [], ◌∷◌, keep, arith, Bool-cases, lookup, lookup-insert,
  lookup-remove, IsUnique,
}
use proto_trader.Discord.Conversation.{
  ConversationEntry, ConversationManager, key, next_entry, get_or_create, is_going, has, end, Op,
  message, asks, ends, sweep, Answer, talk, going, after_op,
}
use proto_trader.Discord.Sessions.{
  session_op, seen, has_colon, is_from, plain, IsTimely, replies, session_replies, text_eq-key,
  live, live_later, lookup-sweep_once, after_op-IsUnique, next_entry-live, is_going-live,
}

module _ (c u : Text) (colon : has_colon c ≡ false) where
  other_key :
      (d v : Text)
      → not (has_colon d) ≡ true
      → (text_eq d c && text_eq v u) ≡ false
      → text_eq (key d v) (key c u) ≡ false
  other_key d v p n = text_eq-key d v c u (ground (arith, p)) colon ∙ n

  -- A call of another channel or user leaves the entry, and a sweep leaves it if it is live.
  after_op-other :
      (op : Op) (now : ℕ) (m : ConversationManager)
      → IsUnique m
      → plain op ≡ true
      → is_from c u op ≡ false
      → live now (lookup (key c u) (after_op op now m).0) ≡ live now (lookup (key c u) m)
  unfolding after_op get_or_create end
  after_op-other (message fresh d v timeout) now m unique p n =
      ap (live now) (lookup-insert (key d v) (key c u) _ m ∙ rw (other_key d v p n) refl)
  after_op-other (asks d v) now m unique p n = refl
  after_op-other (ends d v) now m unique p n =
      ap (live now) (lookup-remove (key d v) (key c u) m ∙ rw (other_key d v p n) refl)
  after_op-other sweep now m unique p n =
      ap (live now) (lookup-sweep_once (key c u) now m unique)
      ∙ live_later now now (lookup (key c u) m) (omega arith)

  own_key : (d v : Text) → (text_eq d c && text_eq v u) ≡ true → key d v ≡ key c u
  own_key d v e =
      ap₂ key ((text_eq_iff d c).0 (ground (arith, e))) ((text_eq_iff v u).0 (ground (arith, e)))

  found : (d v : Text) → key d v ≡ key c u → text_eq (key d v) (key c u) ≡ true
  found d v = (text_eq_iff (key d v) (key c u)).1

  -- A call of this channel and user does to the entry what it does to the session.
  after_op-own :
      (op : Op) (now : ℕ) (m : ConversationManager) (s : Option ConversationEntry)
      → is_from c u op ≡ true
      → live now (lookup (key c u) m) ≡ live now s
      → (seen (after_op op now m).1 ≡ seen (session_op op now s).1)
        × (live now (lookup (key c u) (after_op op now m).0) ≡ live now (session_op op now s).0)
  unfolding after_op get_or_create has end session_op
  after_op-own (message fresh d v timeout) now m s own same =
      let k = own_key d v own in
      let e : next_entry fresh d v timeout now (lookup (key d v) m)
          ≡ next_entry fresh d v timeout now s =
        ap (λ (k' : Text). next_entry fresh d v timeout now (lookup k' m)) k
        ∙ sym (next_entry-live fresh d v timeout now (lookup (key c u) m))
        ∙ ap (next_entry fresh d v timeout now) same
        ∙ next_entry-live fresh d v timeout now s in
      (
        ap
            (λ (n : ConversationEntry × Bool). talk (record {
              conversation_id = n.0.conversation_id;
              is_new = n.1;
              turn_number = n.0.turn_number;
            }))
            e,
        ap (live now) (lookup-insert (key d v) (key c u) _ m ∙ rw (found d v k) refl)
            ∙ ap (λ (n : ConversationEntry × Bool). live now (some n.0)) e,
      )
  after_op-own (asks d v) now m s own same = (
    ap going (
        ap (λ (k' : Text). is_going now (lookup k' m)) (own_key d v own)
        ∙ sym (is_going-live now (lookup (key c u) m))
        ∙ ap (is_going now) same
        ∙ is_going-live now s),
    same,
  )
  after_op-own (ends d v) now m s own same = (
    refl,
    ap (live now) (lookup-remove (key d v) (key c u) m ∙ rw (found d v (own_key d v own)) refl),
  )
  after_op-own sweep now m s own same = cc own

  replies_from :
      (ops : List (Op × ℕ)) (t : ℕ) (m : ConversationManager) (s : Option ConversationEntry)
      → IsTimely t ops
      → IsUnique m
      → live t (lookup (key c u) m) ≡ live t s
      → replies c u ops m ≡ session_replies (keep (λ p. is_from c u p.0) ops) s
  unfolding replies session_replies
  replies_from [] t m s timely unique same = refl
  replies_from ((op, now) ∷ ops) t m s (le, p, timely) unique same =
      let same' =
        sym (live_later t now (lookup (key c u) m) le)
        ∙ ap (live now) same
        ∙ live_later t now s le in
      let unique' = after_op-IsUnique op now m unique in
      elim (Bool-cases (is_from c u op)) [
        | inl own ↦
            let step = after_op-own op now m s own same' in
            rw (own, session_replies)
              (ap₂ (λ (a : Answer) l. a ∷ l) step.0
                (replies_from ops now (after_op op now m).0 (session_op op now s).0 timely unique'
                  step.1))
        | inr other ↦ rw other (
            replies_from ops now (after_op op now m).0 s timely unique'
              (after_op-other op now m unique p other ∙ same'))
      ]

-- What a channel and user is told by any calls in the order of time, by its messages and by the
-- questions whether its conversation goes on, is what a session of its own would tell it, on which no
-- sweep runs and no other call works, if no channel has a colon in its name.
pub replies-session_replies :
    (c u : Text) (ops : List (Op × ℕ))
    → has_colon c ≡ false
    → IsTimely 0 ops
    → replies c u ops [] ≡ session_replies (keep (λ p. is_from c u p.0) ops) none
unfolding lookup
replies-session_replies c u ops colon timely = replies_from c u colon ops 0 [] none timely tt refl
