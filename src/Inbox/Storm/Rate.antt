-- ===== src/Inbox/Storm/Rate.antt =====
-- inbox/store.py: `StormGuard` against the specification of `Window`.
use proto_trader.Prelude.{
  ℕ, ◌+◌, ◌≤◌, ◌≡◌, ◌∙◌, refl, ap, inl, inr, Bool, true, false, ◌&&◌, List, [], ◌∷◌, ◌++◌, arith,
  ltb, leb, if◌then◌else◌, count, length, count-append, Bool-cases,
}
use proto_trader.Window.{Ascends, admitted, decide_all, count-admitted-le}
use proto_trader.Inbox.Storm.{StormGuard, init, expire, allow, allow_all}

-- A fire at `t` still counts at `now`: it is not older than the window.
abbrev pub recent : ℕ → ℕ → ℕ → Bool
recent window now t = leb now (t + window)

-- The list ascends from `lo` on and ends at `hi` at the latest.
abbrev Between : ℕ → ℕ → List ℕ → Type 0
Between lo hi [] = lo ≤ hi
Between lo hi (t ∷ ts) = (lo ≤ t) × Between t hi ts

widen_from : (lo lo' hi : ℕ) (ts : List ℕ) → lo ≤ lo' → Between lo' hi ts → Between lo hi ts
widen_from lo lo' hi [] le b = omega arith
widen_from lo lo' hi (t ∷ ts) le b = (omega arith, b.1)

widen_to : (lo hi hi' : ℕ) (ts : List ℕ) → hi ≤ hi' → Between lo hi ts → Between lo hi' ts
widen_to lo hi hi' [] le b = omega arith
widen_to lo hi hi' (t ∷ ts) le b = (b.0, widen_to t hi hi' ts le b.1)

Between-append : (lo hi : ℕ) (ts : List ℕ) → Between lo hi ts → Between lo hi (ts ++ hi ∷ [])
Between-append lo hi [] b = omega arith
Between-append lo hi (t ∷ ts) b = (b.0, Between-append t hi ts b.1)

module _ (window : ℕ) where
  expire-Between :
      (now lo hi : ℕ) (ts : List ℕ) → Between lo hi ts → Between lo hi (expire window now ts)
  unfolding expire
  expire-Between now lo hi [] b = b
  expire-Between now lo hi (t ∷ ts) b = elim (Bool-cases (ltb (t + window) now)) [
    | inl old ↦ rw old (expire-Between now lo hi ts (widen_from lo t hi ts b.0 b.1))
    | inr new ↦ rw new b
  ]

  -- Expired fires are outside every later window.
  count-expire :
      (now later : ℕ) (ts : List ℕ)
      → now ≤ later
      → count (recent window later) (expire window now ts) ≡ count (recent window later) ts
  unfolding expire
  count-expire now later [] le = refl
  count-expire now later (t ∷ ts) le = ground (arith, count-expire now later ts le)

  count-recent_all :
      (now lo hi : ℕ) (ts : List ℕ)
      → now ≤ lo + window
      → Between lo hi ts
      → count (recent window now) ts ≡ length ts
  count-recent_all now lo hi [] le b = refl
  count-recent_all now lo hi (t ∷ ts) le b =
      ground (arith, b.0, count-recent_all now t hi ts (omega arith) b.1)

  -- In an ascending deque what is left counts, all of it.
  length-expire :
      (now lo hi : ℕ) (ts : List ℕ)
      → Between lo hi ts
      → length (expire window now ts) ≡ count (recent window now) ts
  unfolding expire
  length-expire now lo hi [] b = refl
  length-expire now lo hi (t ∷ ts) b = elim (Bool-cases (ltb (t + window) now)) [
    | inl old ↦ rw old (ground (arith, old, length-expire now t hi ts b.1))
    | inr new ↦ rw new (ground (arith, new, count-recent_all now t hi ts (ground (arith, new)) b.1))
  ]

  Agrees : ℕ → List ℕ → List ℕ → Type 0
  Agrees last kept history =
      (n : ℕ) → last ≤ n → count (recent window n) kept ≡ count (recent window n) history

-- What one call does, in terms of the history of admitted fires.
allow_lem :
    (last now : ℕ) (g : StormGuard) (history : List ℕ)
    → last ≤ now
    → Between 0 last g.fires
    → Agrees g.window last g.fires history
    → (b : Bool) × (b ≡ ltb (count (recent g.window now) history) g.max_fires)
      × ((allow now g).1 ≡ b)
      × Between 0 now (allow now g).0.fires
      × Agrees g.window now (allow now g).0.fires (if b then now ∷ history else history)
unfolding allow Agrees
allow_lem last now g history le sorted agrees = elim (Bool-cases (leb g.max_fires (length kept))) [
  | inl full ↦ (false, ground (arith, full, size), rw full, rw full sorted', rw full agrees')
  | inr room ↦ (
    true,
    ground (arith, room, size),
    rw room,
    rw room (Between-append 0 now kept sorted'),
    rw room (λ n later.
        ground (arith, count-append (recent g.window n) kept (now ∷ []), agrees' n later)),
  )
]
  where
    kept : List ℕ
    kept = expire g.window now g.fires

    sorted' : Between 0 now kept
    sorted' = widen_to 0 last now kept le (expire-Between g.window now 0 last g.fires sorted)

    agrees' : Agrees g.window now kept history
    agrees' n later = count-expire g.window now n g.fires later ∙ agrees n (omega arith)

    size : length kept ≡ count (recent g.window now) history
    size = length-expire g.window now 0 last g.fires sorted ∙ agrees now le

-- A call changes only the deque.
allow_fires :
    (now : ℕ) (g : StormGuard) → (allow now g).0 ≡ record g { fires = (allow now g).0.fires }
unfolding allow
allow_fires now g = elim (Bool-cases (leb g.max_fires (length (expire g.window now g.fires)))) [
  | inl full ↦ rw full
  | inr room ↦ rw room
]

module _ (max_fires window : ℕ) where
  guard : List ℕ → StormGuard
  guard fires = record { max_fires = max_fires; window = window; fires = fires }

  Refines-allow_all :
      (fires history times : List ℕ) (last : ℕ)
      → Between 0 last fires
      → Agrees window last fires history
      → Ascends last times
      → allow_all (guard fires) times ≡ decide_all (recent window) max_fires history times
  unfolding allow_all decide_all guard
  Refines-allow_all fires history [] last sorted agrees asc = refl
  Refines-allow_all fires history (now ∷ times) last sorted agrees asc =
      let (b, verdict, allowed, sorted', agrees') =
        allow_lem last now (guard fires) history asc.0 sorted agrees in
      rw (allow_fires now (guard fires), allowed, ← verdict)
        (ap (λ (bs : List Bool). b ∷ bs)
          (Refines-allow_all (allow now (guard fires)).0.fires
            (if b then now ∷ history else history) times now sorted' agrees' asc.1))

  -- For calls at times that never go back, a fresh guard decides on each call exactly as a limiter
  -- that keeps the whole history and allows a call while fewer than `max_fires` allowed ones are
  -- at most `window` old.
  pub allow_all-eq-decide_all :
      (times : List ℕ)
      → Ascends 0 times
      → allow_all (init max_fires window) times ≡ decide_all (recent window) max_fires [] times
  unfolding init Agrees guard
  allow_all-eq-decide_all times asc =
      Refines-allow_all [] [] times 0 (omega arith) (λ n le. refl) asc

  -- At most `max_fires` calls are allowed at times in any interval `[from, from + window]`, for
  -- calls at times that never go back.
  allow_all-le-max_fires :
      (times : List ℕ) (from : ℕ)
      → Ascends 0 times
      → count
          (λ t. leb from t && leb t (from + window))
          (admitted times (allow_all (init max_fires window) times))
        ≤ max_fires
  allow_all-le-max_fires times from asc = rw (allow_all-eq-decide_all times asc) (
      count-admitted-le (recent window) max_fires (λ t. leb from t && leb t (from + window))
        (λ h t p q. ground arith) times)
