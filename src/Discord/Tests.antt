-- ===== src/Discord/Tests.antt =====
-- surfaces/discord on small inputs.
use proto_trader.Prelude.{
  ℕ, ◌≡◌, refl, Text, codes, text_eq, strip, lstrip, is_space, mem_text, lookup, insert, remove,
  insert_by, sort_by, true, false, none, List, [], ◌∷◌, arith, keep, not,
}
use proto_trader.Discord.Conversation.{
  key, next_entry, get_or_create, is_going, has, end, expired, pop_all, sweep_once, Op, message,
  asks, ends, sweep, talk, going, ended, swept, after_op,
}
use proto_trader.Discord.Sessions.{session_op, is_from, replies, session_replies}
use proto_trader.Discord.Isolation.{replies-session_replies}
use proto_trader.Discord.Turns.{
  Turn, from_user, from_assistant, is_silent, is_recent, record_turn, get_recent_turns,
  prune_older_than,
}
use proto_trader.Discord.Turns.Recent.{newest, record_all, get_recent_turns-record_all}

program : Unit {0}
unfolding key next_entry get_or_create is_going has end expired pop_all sweep_once after_op
    session_op replies session_replies record_turn get_recent_turns prune_older_than record_all
    text_eq strip lstrip is_space mem_text lookup insert remove insert_by sort_by
program = tt

abbrev chan : Text
chan = codes "7"

abbrev ann : Text
ann = codes "ann"

abbrev calls : List (Op × ℕ)
calls =
    (message (codes "t1") chan ann 300, 0)
    ∷ (message (codes "t2") chan (codes "bob") 300, 10)
    ∷ (message (codes "t3") chan ann 300, 200)
    ∷ (sweep, 450)
    ∷ (asks chan ann, 499)
    ∷ (sweep, 500)
    ∷ (message (codes "t4") chan ann 300, 501)
    ∷ (ends chan ann, 502)
    ∷ (asks chan ann, 503)
    ∷ []

replies_run :
    replies chan ann calls []
    ≡ talk (record { conversation_id = codes "t1"; is_new = true; turn_number = 1 })
      ∷ talk (record { conversation_id = codes "t1"; is_new = false; turn_number = 2 })
      ∷ going true
      ∷ talk (record { conversation_id = codes "t4"; is_new = true; turn_number = 1 })
      ∷ ended true
      ∷ going false
      ∷ []
unfolding program
replies_run = refl

end_run : ((after_op (ends chan ann) 9 []).1 ≡ ended false) × ((after_op sweep 9 []).1 ≡ swept)
unfolding program
end_run = (refl, refl)

replies-session_replies_example :
    replies chan ann calls [] ≡ session_replies (keep (λ p. is_from chan ann p.0) calls) none
replies-session_replies_example = replies-session_replies chan ann calls refl (
  omega arith,
  refl,
  (
    omega arith,
    refl,
    (
      omega arith,
      refl,
      (
        omega arith,
        refl,
        (
          omega arith,
          refl,
          (omega arith, refl, (omega arith, refl, (omega arith, refl, (omega arith, refl, tt)))),
        ),
      ),
    ),
  ),
)

abbrev say : ℕ → Text → Turn
say ts content = record {
  ts = ts;
  channel_id = chan;
  user_id = ann;
  role = from_user;
  content = content;
  conversation_id = none;
}

abbrev turns : List Turn
turns =
    say 100 (codes "a")
    ∷ record (say 100 (codes "b")) { role = from_assistant }
    ∷ say 150 (codes " ")
    ∷ say 200 (codes "c")
    ∷ []

recent_run :
    get_recent_turns chan ann 2 1 3600100 (prune_older_than 1 200 (record_all turns [])).0
    ≡ record (say 100 (codes "b")) { role = from_assistant } ∷ say 200 (codes "c") ∷ []
unfolding program
recent_run = refl

get_recent_turns-record_all_example :
    get_recent_turns chan ann 2 1 3600100 (prune_older_than 1 200 (record_all turns [])).0
    ≡ newest 2 (keep (is_recent chan ann 1 3600100) (keep (λ t. not (is_silent t)) turns))
get_recent_turns-record_all_example =
    get_recent_turns-record_all chan ann 2 1 1 3600100 200 turns
      ((refl, (refl, (refl, tt))), ((refl, (refl, tt)), ((refl, tt), (tt, tt)))) (omega arith)
      (omega arith)
