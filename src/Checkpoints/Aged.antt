-- ===== src/Checkpoints/Aged.antt =====
-- graph/checkpoint_prune.py: a prune with both limits.
use proto_trader.Prelude.{
  ℕ, ◌≡◌, max, refl, inl, inr, sym, subst, Text, text_eq, text_eq_iff, true, false, not, Option,
  none, some, List, [], ◌∷◌, keep-keep, arith, Bool-cases,
}
use proto_trader.Checkpoints.{
  Uuid, Row, Db, of_thread, delete_where, is_aged, stamps, all_old, age_threads, apply_age,
  prune_checkpoints,
}
use proto_trader.Checkpoints.Latest.{IsLatest, Spares, keep-IsLatest, Holds, cap_threads-Holds}

module _ (parse_uuid : Text → Option Uuid) (r : Row) (now : ℕ) where
  abbrev Young : ℕ → Db → Type 0
  Young age db = is_aged parse_uuid age now db.checkpoints r.thread_id ≡ false

  away :
      (age : ℕ) (t : Text) (db : Db)
      → Young age db
      → is_aged parse_uuid age now db.checkpoints t ≡ true
      → text_eq r.thread_id t ≡ false
  away age t db young old = elim (Bool-cases (text_eq r.thread_id t)) [
    | inl same ↦ absurd (
        let e =
          subst (λ t'. is_aged parse_uuid age now db.checkpoints t' ≡ false)
            ((text_eq_iff r.thread_id t).0 same) young in
        cc (e, old))
    | inr other ↦ other
  ]

  thread-Spares : (t : Text) → text_eq r.thread_id t ≡ false → Spares r (of_thread t)
  thread-Spares t n s h = ground (
    arith,
    h,
    n,
    text_eq_iff s.thread_id r.thread_id,
    text_eq_iff s.thread_id t,
    text_eq_iff r.thread_id t,
  )

  delete_where-Young :
      (age : ℕ) (t : Text) (db : Db)
      → text_eq r.thread_id t ≡ false
      → Young age db
      → Young age (delete_where (of_thread t) db)
  unfolding is_aged
  delete_where-Young age t db n young =
      subst (λ (rows : List Row). all_old parse_uuid age now (stamps parse_uuid rows) ≡ false)
        (sym (
          keep-keep (λ s. not (of_thread t s)) (of_thread r.thread_id)
            (λ s h. ground (
              arith,
              h,
              n,
              text_eq_iff s.thread_id r.thread_id,
              text_eq_iff s.thread_id t,
              text_eq_iff r.thread_id t,
            ))
            db.checkpoints))
        young

  age_threads-Holds :
      (age : ℕ) (threads : List Text) (db : Db)
      → Young age db
      → Holds r db
      → Holds r (age_threads parse_uuid age now threads db).0
  unfolding age_threads
  age_threads-Holds age [] db young h = h
  age_threads-Holds age (t ∷ threads) db young h =
      elim (Bool-cases (is_aged parse_uuid age now db.checkpoints t)) [
        | inl old ↦
            let n = away age t db young old in
            rw (old, age_threads)
              (age_threads-Holds age threads (delete_where (of_thread t) db)
                (delete_where-Young age t db n young)
                (keep-IsLatest r (of_thread t) db.checkpoints (thread-Spares t n) h))
        | inr fresh ↦ rw (fresh, age_threads) (age_threads-Holds age threads db young h)
      ]

  apply_age-Holds :
      (max_age : Option ℕ) (db : Db)
      → ((age : ℕ) → max_age ≡ some age → Young age db)
      → Holds r db
      → Holds r (apply_age parse_uuid max_age now db).0
  unfolding apply_age
  apply_age-Holds none db young h = h
  apply_age-Holds (some age) db young h = age_threads-Holds age _ db (young age refl) h

  -- The latest checkpoint of a namespace of a thread, if its key stands in one row, is still in the
  -- table after a prune and still the latest, whatever the cap and unless the thread is older than
  -- the age limit.
  pub prune_checkpoints-IsLatest :
      (keep_per_thread : ℕ) (max_age : Option ℕ) (db : Db)
      → IsLatest r db.checkpoints
      → ((age : ℕ)
          → max_age ≡ some age
          → is_aged parse_uuid age now db.checkpoints r.thread_id ≡ false)
      → IsLatest r (prune_checkpoints parse_uuid keep_per_thread max_age now db).0.checkpoints
  unfolding prune_checkpoints
  prune_checkpoints-IsLatest keep_per_thread max_age db latest young =
      cap_threads-Holds r (max 1 keep_per_thread) (apply_age parse_uuid max_age now db).1
        (apply_age parse_uuid max_age now db).0 (omega arith)
        (apply_age-Holds max_age db young latest)
