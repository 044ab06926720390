-- ===== src/Scheduler/Isolation.antt =====
-- scheduler/local.py: an agent's operations leave the jobs of other agents alone.
use proto_trader.Prelude.{
  All-sort_by, ℕ, ◌≡◌, refl, inl, inr, ◌∙◌, subst, Text, text_eq, text_eq_iff, Bool, true, false,
  not, Option, some, List, [], ◌∷◌, keep, any, All, arith, Bool-cases, Option-cases,
}
use proto_trader.Scheduler.{
  Job, is_cron, is_due, sooner, claim_due_jobs, delete_id, update_id, compute_next_fire,
  reschedule_or_delete, fire_all, tick,
}
use proto_trader.Scheduler.Rows.{Distinct}

module _ (agent : Text) where
  abbrev pub is_other : Job → Bool
  is_other r = not (text_eq r.agent_name agent)

  -- The rows with this id are the agent's.
  abbrev pub Own : List Job → Text → Type 0
  Own rows id = All (λ r. text_eq id r.id ≡ true → text_eq r.agent_name agent ≡ true) rows

  pub update_id-other :
      (id : Text) (next : ℕ) (last : Option ℕ) (rows : List Job)
      → Own rows id
      → keep is_other (update_id id next last rows) ≡ keep is_other rows
  unfolding update_id
  update_id-other id next last [] own = refl
  update_id-other id next last (r ∷ rows) (mine, own) = elim (Bool-cases (text_eq id r.id)) [
    | inl same ↦ rw (same, mine same) (update_id-other id next last rows own)
    | inr other ↦ rw other (ground (arith, update_id-other id next last rows own))
  ]

  pub delete_id-other :
      (id : Text) (rows : List Job)
      → Own rows id
      → keep is_other (delete_id id rows) ≡ keep is_other rows
  unfolding delete_id
  delete_id-other id [] own = refl
  delete_id-other id (r ∷ rows) (mine, own) = ground (arith, mine, delete_id-other id rows own)

  pub update_id-Own :
      (id k : Text) (next : ℕ) (last : Option ℕ) (rows : List Job)
      → Own rows k
      → Own (update_id id next last rows) k
  unfolding update_id
  update_id-Own id k next last [] own = tt
  update_id-Own id k next last (r ∷ rows) (mine, own) = elim (Bool-cases (text_eq id r.id)) [
    | inl same ↦ rw same (mine, update_id-Own id k next last rows own)
    | inr other ↦ rw other (mine, update_id-Own id k next last rows own)
  ]

  pub delete_id-Own : (id k : Text) (rows : List Job) → Own rows k → Own (delete_id id rows) k
  unfolding delete_id
  delete_id-Own id k [] own = tt
  delete_id-Own id k (r ∷ rows) (mine, own) = elim (Bool-cases (text_eq id r.id)) [
    | inl same ↦ rw same (delete_id-Own id k rows own)
    | inr other ↦ rw other (mine, delete_id-Own id k rows own)
  ]

  -- With distinct ids, the id of an agent's row is the agent's own.
  pub Distinct-Own :
      (rows : List Job)
      → Distinct rows
      → All (λ j. text_eq j.agent_name agent ≡ true → Own rows j.id) rows
  Distinct-Own [] d = tt
  Distinct-Own (j ∷ rows) (new, d) =
      (λ mine. ((λ same. mine), away rows new), go rows new (Distinct-Own rows d))
    where
      away : (rs : List Job) → any (λ r. text_eq j.id r.id) rs ≡ false → Own rs j.id
      away [] n = tt
      away (r ∷ rs) n = ((λ same. absurd (ground (arith, n, same))), away rs (ground (arith, n)))

      go :
          (rs : List Job)
          → any (λ r. text_eq j.id r.id) rs ≡ false
          → All (λ k. text_eq k.agent_name agent ≡ true → Own rows k.id) rs
          → All (λ k. text_eq k.agent_name agent ≡ true → Own (j ∷ rows) k.id) rs
      go [] n h = tt
      go (k ∷ rs) n (own, h) = (
        λ mine. (
          λ same. absurd (ground (arith, n, same, text_eq_iff k.id j.id, text_eq_iff j.id k.id)),
          own mine,
        ),
        go rs (ground (arith, n)) h,
      )

  -- What an operation on a table leaves of it, as far as this agent's ids are concerned.
  abbrev pub Kept : List Job → List Job → Type 0
  Kept rows rows' =
      (keep is_other rows' ≡ keep is_other rows) × ((k : Text) → Own rows k → Own rows' k)

  pub All-Own :
      (rows rows' : List Job) (due : List Job)
      → ((k : Text) → Own rows k → Own rows' k)
      → All (λ j. Own rows j.id) due
      → All (λ j. Own rows' j.id) due
  All-Own rows rows' [] f h = tt
  All-Own rows rows' (j ∷ due) f (own, h) = (f j.id own, All-Own rows rows' due f h)

  pub claimed-Own :
      (p : Job → Bool) (rows js : List Job)
      → ((j : Job) → p j ≡ true → text_eq j.agent_name agent ≡ true)
      → All (λ j. text_eq j.agent_name agent ≡ true → Own rows j.id) js
      → All (λ j. Own rows j.id) (keep p js)
  claimed-Own p rows [] f h = tt
  claimed-Own p rows (j ∷ js) f (own, h) = elim (Bool-cases (p j)) [
    | inl claimed ↦ rw claimed (own (f j claimed), claimed-Own p rows js f h)
    | inr left ↦ rw left (claimed-Own p rows js f h)
  ]

  module _ (next_cron : Text → ℕ → Option ℕ) (parse_iso : Text → Option ℕ) where
    reschedule-Kept :
        (j : Job) (now : ℕ) (rows rows' : List Job)
        → Own rows j.id
        → reschedule_or_delete next_cron parse_iso j now rows ≡ some rows'
        → Kept rows rows'
    unfolding reschedule_or_delete
    reschedule-Kept j now rows rows' own e = elim (Bool-cases (is_cron j.schedule)) [
      | inl cron ↦ elim (Option-cases (compute_next_fire next_cron parse_iso j.schedule now)) [
        | inl raises ↦ absurd (ground (arith, e, cron, raises))
        | inr (next, n) ↦ subst (Kept rows) (ground (arith, e, cron, n)) (
          update_id-other j.id next (some now) rows own,
          λ k. update_id-Own j.id k next (some now) rows,
        )
      ]
      | inr once ↦
          subst (Kept rows) (ground (arith, e, once))
            (delete_id-other j.id rows own, λ k. delete_id-Own j.id k rows)
    ]

    fire_all-other :
        (fire : Job → Bool) (now : ℕ) (due rows : List Job)
        → All (λ j. Own rows j.id) due
        → keep is_other (fire_all next_cron parse_iso fire now due rows).0 ≡ keep is_other rows
    unfolding fire_all
    fire_all-other fire now [] rows own = refl
    fire_all-other fire now (j ∷ due) rows (mine, own) = elim (Bool-cases (fire j)) [
      | inl sent ↦ elim (Option-cases (reschedule_or_delete next_cron parse_iso j now rows)) [
        | inl raises ↦ rw (sent, raises, fire_all) refl
        | inr (rows', e) ↦
            let (same, keeps) = reschedule-Kept j now rows rows' mine e in
            rw (sent, e, fire_all)
              (fire_all-other fire now due rows' (All-Own rows rows' due keeps own) ∙ same)
      ]
      | inr failed ↦ rw (failed, fire_all) (fire_all-other fire now due rows own)
    ]

    -- If the ids are distinct, a tick leaves every row of every other agent as it is and in its
    -- place, whatever is delivered and whether or not a schedule raises.
    pub tick_others :
        (fire : Job → Bool) (now : ℕ) (rows : List Job)
        → Distinct rows
        → keep is_other (tick next_cron parse_iso agent fire now rows).0 ≡ keep is_other rows
    unfolding tick claim_due_jobs
    tick_others fire now rows distinct = fire_all-other fire now _ rows (
        All-sort_by sooner (λ j. Own rows j.id) (keep (is_due agent now) rows)
          (claimed-Own (is_due agent now) rows rows (λ j h. ground (arith, h))
            (Distinct-Own rows distinct)))
