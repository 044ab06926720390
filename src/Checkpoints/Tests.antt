-- ===== src/Checkpoints/Tests.antt =====
-- graph/checkpoint_prune.py on a table of three threads.
use proto_trader.Prelude.{
  text_lt, ℕ, ◌<◌, ◌≤◌, ◌≡◌, ◌^◌, subst, ap, refl, Text, codes, text_eq, mem_text, insert_by,
  sort_by, false, Option, none, some, [], ◌∷◌, arith,
}
use proto_trader.Checkpoints.{
  Uuid, Row, Db, ticks, distinct, uuidv6_ticks, stamps, is_aged, find_aged_threads, age_threads,
  delete_thread, stale, delete_ids, cap_groups, cap_threads, apply_age, prune_checkpoints,
}
use proto_trader.Checkpoints.Ticks.{uuid_of, ticks-uuid_of, ticks_mono}
use proto_trader.Checkpoints.Latest.{IsLatest}
use proto_trader.Checkpoints.Aged.{prune_checkpoints-IsLatest}

abbrev parse : Text → Option Uuid
parse [] = none
parse (c ∷ s) = some (record { int = uuid_of c 1; version = 6 })

abbrev row : Text → Text → Row
row t id = record { thread_id = t; checkpoint_ns = []; checkpoint_id = id }

abbrev db : Db
db = record {
  checkpoints =
      row (codes "chat") (codes "a")
      ∷ row (codes "chat") (codes "c")
      ∷ row (codes "chat") (codes "b")
      ∷ row (codes "idle") (codes "a")
      ∷ row (codes "odd") []
      ∷ [];
  writes = row (codes "idle") (codes "a") ∷ row (codes "chat") (codes "c") ∷ [];
}

program : Unit {0}
unfolding ticks text_lt distinct uuidv6_ticks stamps is_aged find_aged_threads age_threads
    delete_thread stale delete_ids cap_groups cap_threads apply_age prune_checkpoints text_eq
    mem_text insert_by sort_by
program = tt

prune_runs :
    (find_aged_threads parse 1 99 db ≡ codes "idle" ∷ [])
    × ((delete_thread (codes "chat") db).1 ≡ 3)
    × (prune_checkpoints parse 0 (some 1) 99 db ≡ (
      record {
        checkpoints = row (codes "chat") (codes "c") ∷ row (codes "odd") [] ∷ [];
        writes = row (codes "chat") (codes "c") ∷ [];
      },
      record { threads_deleted = 1; checkpoints_deleted = 2 },
    ))
unfolding program
prune_runs = (refl, refl, refl)

ticks-uuid_of_example : ticks (uuid_of 139 77) ≡ 139
ticks-uuid_of_example = ticks-uuid_of 139 77 (omega arith) (omega arith)

ticks_mono_example :
    (ticks (uuid_of 139000000000000000 77) ≤ ticks (uuid_of 139000000000000001 5))
    × (ticks (uuid_of 139000000000000001 5) < 2 ^ 60)
ticks_mono_example =
    ticks_mono (uuid_of 139000000000000000 77) (uuid_of 139000000000000001 5) refl refl
      (omega arith) (omega arith)

db-IsLatest : IsLatest (row (codes "chat") (codes "c")) db.checkpoints
unfolding program
db-IsLatest = (refl, ((λ h. refl), ((λ h. refl), ((λ h. refl), ((λ h. refl), ((λ h. refl), tt))))))

db_young :
    (age : ℕ) → some 1 ≡ some age → is_aged parse age 98 db.checkpoints (codes "chat") ≡ false
unfolding program
db_young age e =
    subst (λ a. is_aged parse a 98 db.checkpoints (codes "chat") ≡ false) (ap get_age e) refl
  where
    get_age : Option ℕ → ℕ
    get_age none = 0
    get_age (some a) = a

prune_checkpoints-IsLatest_example :
    IsLatest
      (row (codes "chat") (codes "c"))
      (prune_checkpoints parse 0 (some 1) 98 db).0.checkpoints
prune_checkpoints-IsLatest_example =
    prune_checkpoints-IsLatest parse (row (codes "chat") (codes "c")) 98 0 (some 1) db db-IsLatest
      db_young
