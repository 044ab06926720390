-- ===== src/Scheduler/Recover.antt =====
-- scheduler/local.py: the table after the recovery of missed fires, and what it leaves due.
use proto_trader.Prelude.{
  ℕ, ◌-◌, ◌≡◌, refl, inl, inr, ◌∙◌, sym, ap, Text, text_eq, true, not, ◌&&◌, ◌||◌, Option, none,
  some, List, [], ◌∷◌, keep, any, All, leb, arith, All-keep, Bool, Bool-cases, if◌then◌else◌,
}
use proto_trader.Scheduler.{
  Job, is_cron, is_due, delete_id, update_id, compute_next_fire, drop_stale, drop_all_stale,
  recover_missed_fires,
}
use proto_trader.Scheduler.Rows.{
  Rolls, Distinct, delete_id-due, update_id-due, keep-both, keep-cong, both_not, any-keep, any-own,
}
use proto_trader.Scheduler.Fates.{
  each, each-cong, Owns, Distinct-Owns, Distinct-keep, settled, all_of, all_of-own,
}
use proto_trader.Scheduler.Settling.{drop_all_stale-each}

some-inj : (xs ys : List Job) → some xs ≡ some ys → xs ≡ ys
some-inj xs ys h = cc h

module _ (next_cron : Text → ℕ → Option ℕ) (parse_iso : Text → Option ℕ) (agent : Text)
    (now : ℕ) where
  drop_stale-due :
      (j : Job) (rows : List Job)
      → Rolls next_cron now j
      → (rows' : List Job) × (drop_stale next_cron parse_iso j now rows ≡ some rows')
        × (keep (is_due agent now) rows'
            ≡ keep (λ r. is_due agent now r && not (text_eq j.id r.id)) rows)
  unfolding drop_stale compute_next_fire
  drop_stale-due j rows rolls = elim (Bool-cases (is_cron j.schedule)) [
    | inl cron ↦
        let (next, e, lt) = rolls cron in
        (
          update_id j.id next none rows,
          rw (cron, e) refl,
          update_id-due agent j.id now next none rows lt,
        )
    | inr once ↦ (delete_id j.id rows, rw once refl, delete_id-due agent j.id now rows)
  ]

  drop_all_stale-due :
      (stale rows : List Job)
      → All (Rolls next_cron now) stale
      → (rows' : List Job) × (drop_all_stale next_cron parse_iso now stale rows ≡ some rows')
        × (keep (is_due agent now) rows'
            ≡ keep (λ r. is_due agent now r && not (any (λ j. text_eq j.id r.id) stale)) rows)
  unfolding drop_all_stale
  drop_all_stale-due [] rows rolls = (rows, refl, keep-cong _ _ rows (go rows))
    where
      go : (rs : List Job) → All (λ r. is_due agent now r ≡ (is_due agent now r && true)) rs
      go [] = tt
      go (r ∷ rs) = (ground arith, go rs)
  drop_all_stale-due (j ∷ stale) rows (roll, rolls) =
      let (rows1, e, same) = drop_stale-due j rows roll in
      let (rows2, e2, rest) = drop_all_stale-due stale rows1 rolls in
      (
        rows2,
        rw (e, drop_all_stale) e2,
        rest
            ∙ sym
                (keep-both (is_due agent now) (λ r. not (any (λ i. text_eq i.id r.id) stale)) rows1)
            ∙ ap (keep (λ r. not (any (λ i. text_eq i.id r.id) stale))) same
            ∙ keep-both (λ r. is_due agent now r && not (text_eq j.id r.id))
                (λ r. not (any (λ i. text_eq i.id r.id) stale)) rows
            ∙ keep-cong _ _ rows (go rows),
      )
    where
      go :
          (rs : List Job)
          → All
              (λ r.
                ((is_due agent now r && not (text_eq j.id r.id))
                  && not (any (λ i. text_eq i.id r.id) stale))
                ≡ (is_due agent now r
                    && not (text_eq j.id r.id || any (λ i. text_eq i.id r.id) stale)))
              rs
      go [] = tt
      go (r ∷ rs) = (
        both_not (is_due agent now r) (text_eq j.id r.id) (any (λ i. text_eq i.id r.id) stale),
        go rs,
      )

  stale_fates :
      (old : Job → Bool) (rows rs : List Job)
      → Distinct rows
      → All (Rolls next_cron now) (keep old rows)
      → All (Owns rows) rs
      → All (λ r. any (λ j. old j && text_eq j.id r.id) rows ≡ old r) rs
      → All
          (λ r.
            all_of next_cron (λ j. true) now none (keep old rows) r
            ≡ (if old r then settled next_cron now none r else r ∷ []))
          rs
  stale_fates old rows [] distinct rolls own h = tt
  stale_fates old rows (r ∷ rs) distinct rolls (mine, own) (e, h) = (
    all_of-own next_cron (λ j. true) now none (keep old rows) r (Distinct-keep old rows distinct)
          (All-keep _ old rows mine) rolls
        ∙ rw (any-keep (λ j. text_eq j.id r.id) old rows ∙ e) refl,
    stale_fates old rows rs distinct rolls own h,
  )

  -- If the ids are distinct and every cron job among this agent's enabled stale ones (due at or before
  -- now less the window) has a next time after now, recovery is committed, and the table after it is
  -- known row by row: a stale cron job is moved to its next time and keeps its last fire, a stale
  -- one-shot is gone, and every other row stands unchanged in its place. What is due after it is
  -- exactly what was due before and is younger than the window.
  pub recover_missed_fires_due :
      (window : ℕ) (rows : List Job)
      → Distinct rows
      → All (Rolls next_cron now) (keep (is_due agent (now - window)) rows)
      → (rows' : List Job) × (recover_missed_fires next_cron parse_iso agent window now rows
          ≡ some rows')
        × (rows'
            ≡ each
                (λ r.
                  if is_due agent (now - window) r then settled next_cron now none r else r ∷ [])
                rows)
        × (keep (is_due agent now) rows'
            ≡ keep (λ r. is_due agent now r && not (leb r.next_fire (now - window))) rows)
  unfolding recover_missed_fires
  recover_missed_fires_due window rows distinct rolls =
      let old = is_due agent (now - window) in
      let (rows', e, left) = drop_all_stale-due (keep old rows) rows rolls in
      (
        rows',
        e,
        some-inj _ _
              (sym e ∙ drop_all_stale-each next_cron parse_iso now (keep old rows) rows rolls)
            ∙ each-cong _ _ rows (
                stale_fates old rows rows distinct rolls (Distinct-Owns rows distinct)
                  (any-own old rows distinct)),
        left ∙ keep-cong _ _ rows (go rows (any-own old rows distinct)),
      )
    where
      go :
          (rs : List Job)
          → All
              (λ r.
                any (λ j. is_due agent (now - window) j && text_eq j.id r.id) rows
                ≡ is_due agent (now - window) r)
              rs
          → All
              (λ r.
                (is_due agent now r
                  && not (any (λ j. text_eq j.id r.id) (keep (is_due agent (now - window)) rows)))
                ≡ (is_due agent now r && not (leb r.next_fire (now - window))))
              rs
      go [] h = tt
      go (r ∷ rs) (e, h) = (
        ground (arith, e, any-keep (λ j. text_eq j.id r.id) (is_due agent (now - window)) rows),
        go rs h,
      )
