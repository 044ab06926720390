-- ===== src/Inbox/Store/Tests.antt =====
-- Runs of the inbox store on small inputs.
use mathlib.Core.List.{Perm}
use proto_trader.Prelude.{
  ◌≡◌, refl, codes, strip, lstrip, is_space, text_eq, false, not, ◌&&◌, List, [], ◌∷◌, keep, map,
  take, sort_by, insert_by, ◌++◌, All, length, min, max,
}
use proto_trader.Inbox.Store.{
  Item, init, parse_priority, cutoff, in_floor_set, insert_item, add, before, matches, list, has_id,
  mark_delivered, pending_count, empty_text, unknown_priority,
}
use proto_trader.Inbox.Store.Shows.{Shown, InOrder}
use proto_trader.Inbox.Store.Listing.{list-Shown}
use proto_trader.Inbox.Store.Delivery.{list-mark_delivered}
use proto_trader.Inbox.Store.Dedup.{Op, posting, delivering, step, run, IsValid, run-IsValid}

abbrev ops : List Op
ops =
    posting (codes " build red ") (codes "next") (codes "ci") (codes "b1") 100
    ∷ posting (codes "build red") (codes "next") (codes "ci") (codes "b1") 300
    ∷ posting (codes "disk full") (codes "now") (codes "ops") [] 310
    ∷ posting (codes "digest") (codes "later") (codes "cron") [] 320
    ∷ delivering (1 ∷ 9 ∷ []) 330
    ∷ posting (codes "build red") (codes "next") (codes "ci") (codes "b1") 340
    ∷ []

program : Unit {0}
unfolding run step add insert_item parse_priority strip lstrip is_space text_eq init list sort_by
    insert_by in_floor_set cutoff mark_delivered pending_count
program = tt

listed_ids :
    map (λ (i : Item). i.id) (list (codes "next") false 20 (run ops (init 300))) ≡ 2 ∷ 4 ∷ []
unfolding program
listed_ids = refl

add_refusals :
    ((add (codes "  ") (codes "next") [] [] 5 (init 300)).1 ≡ empty_text)
    × ((add (codes "x") (codes "soon") [] [] 5 (init 300)).1 ≡ unknown_priority)
    × (pending_count (codes "bogus") (run ops (init 300)) ≡ 2)
unfolding program
add_refusals = (refl, refl, refl)

-- Four rows: one is returned, one left off for the limit, one delivered, one below the floor.
list-Shown_example :
    (rest : List Item) × (hidden : List Item) × Perm
      (list (codes "next") false 1 (run ops (init 300)) ++ (rest ++ hidden))
      (run ops (init 300)).rows
    × All (Shown (codes "next") false) (list (codes "next") false 1 (run ops (init 300)) ++ rest)
    × All (λ item. ¬ (Shown (codes "next") false item)) hidden
    × InOrder (list (codes "next") false 1 (run ops (init 300)) ++ rest)
    × (length (list (codes "next") false 1 (run ops (init 300)))
        ≡ min (max 1 1) (length (list (codes "next") false 1 (run ops (init 300)) ++ rest)))
list-Shown_example = list-Shown (codes "next") false 1 (run ops (init 300))

list-mark_delivered_example :
    list (codes "next") false 20 (mark_delivered (2 ∷ []) 400 (run ops (init 300))).0
    ≡ take 20 (
        sort_by before (
          keep
            (λ item. matches (codes "next") false item && not (has_id (2 ∷ []) item.id))
            (run ops (init 300)).rows))
list-mark_delivered_example =
    list-mark_delivered (codes "next") 20 (2 ∷ []) 400 (run ops (init 300))

run-IsValid_example : IsValid (run ops (init 300))
unfolding init
run-IsValid_example = run-IsValid ops (init 300) (record { apart = tt; ascending = tt })
