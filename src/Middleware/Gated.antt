-- ===== src/Middleware/Gated.antt =====
-- graph/middleware/enforcement.py: which tool calls run.
use proto_trader.Prelude.{
  ℕ, ◌≡◌, refl, inl, inr, ap, ◌∙◌, Text, mem_text, Bool, true, false, not, ◌&&◌, Option, none, some,
  List, [], ◌∷◌, map, keep, All, if◌then◌else◌, Bool-cases, Option-cases,
}
use proto_trader.Enforcement.{RateLimiter, check}
use proto_trader.Middleware.Gate.{
  disabled, refused, ToolCall, Gate, Reply, blocked, handled, ask, ask_limiter, enforce,
  wrap_tool_call,
}

module _ {A : Type 0} where
  -- Neither on the deny list nor refused by the predicate.
  abbrev pub passes : Gate A → ToolCall A → Bool
  passes g call =
      not (mem_text call.name g.denied)
      && elim (ask g.predicate call) [ none ↦ true | some reason ↦ false ]

  abbrev pub named : List (ToolCall A × ℕ) → List (Text × ℕ)
  named calls = map (λ (c : ToolCall A × ℕ). (c.0.name, c.1)) calls

  unfoldable pub allowed_calls : RateLimiter → List (ToolCall A × ℕ) → List (ToolCall A × ℕ)
  allowed_calls l [] = []
  allowed_calls l ((call, now) ∷ calls) =
      let r = check call.name now l in
      let rest = allowed_calls r.0 calls in if r.1 then (call, now) ∷ rest else rest

  unfoldable pub allowed_by : Option RateLimiter → List (ToolCall A × ℕ) → List (ToolCall A × ℕ)
  allowed_by none calls = calls
  allowed_by (some l) calls = allowed_calls l calls

  module _ (denied : List Text) (predicate : Option (Text → A → Option Text)) where
    abbrev pub gate : Option RateLimiter → Gate A
    gate limiter = record { denied = denied; predicate = predicate; limiter = limiter }

    abbrev pub passing : List (ToolCall A × ℕ) → List (ToolCall A × ℕ)
    passing calls = keep (λ c. passes (gate none) c.0) calls

    pub passing-All :
        (calls : List (ToolCall A × ℕ)) → All (λ c. passes (gate none) c.0 ≡ true) (passing calls)
    passing-All [] = tt
    passing-All ((call, now) ∷ calls) = elim (Bool-cases (passes (gate none) call)) [
      | inl pass ↦ rw pass (pass, passing-All calls)
      | inr stop ↦ rw stop (passing-All calls)
    ]

  pub allowed_calls-All :
      (P : ToolCall A × ℕ → Type 0) (l : RateLimiter) (calls : List (ToolCall A × ℕ))
      → All P calls
      → All P (allowed_calls l calls)
  unfolding allowed_calls
  allowed_calls-All P l [] h = tt
  allowed_calls-All P l ((call, now) ∷ calls) (p, h) = elim (Bool-cases (check call.name now l).1) [
    | inl room ↦ rw room (p, allowed_calls-All P (check call.name now l).0 calls h)
    | inr full ↦ rw full (allowed_calls-All P (check call.name now l).0 calls h)
  ]

module _ {A R : Type 0} (handler : ToolCall A → R) where
  -- What the reply to the first call adds to the calls that run.
  unfoldable pub then_run : Reply R → ToolCall A × ℕ → List (ToolCall A × ℕ) → List (ToolCall A × ℕ)
  then_run (blocked reason id) c rest = rest
  then_run (handled result) c rest = c ∷ rest

  -- The calls of a sequence that reach the handler.
  unfoldable pub ran : Gate A → List (ToolCall A × ℕ) → List (ToolCall A × ℕ)
  ran g [] = []
  ran g ((call, now) ∷ calls) =
      let r = wrap_tool_call handler call now g in then_run r.1 (call, now) (ran r.0 calls)

  module _ (call : ToolCall A) (now : ℕ) (g : Gate A) where
    wrap_listed :
        mem_text call.name g.denied ≡ true
        → wrap_tool_call handler call now g ≡ (g, blocked (disabled call.name) call.id)
    unfolding wrap_tool_call enforce
    wrap_listed listed = rw listed refl

    wrap_refused :
        (reason : Text)
        → mem_text call.name g.denied ≡ false
        → ask g.predicate call ≡ some reason
        → wrap_tool_call handler call now g ≡ (g, blocked (refused reason) call.id)
    unfolding wrap_tool_call enforce
    wrap_refused reason free asked = rw (free, asked) refl

    wrap_free :
        mem_text call.name g.denied ≡ false
        → ask g.predicate call ≡ none
        → wrap_tool_call handler call now g ≡ (
          (ask_limiter call now g).0,
          elim (ask_limiter call now g).1 [
            | none ↦ handled (handler call)
            | some reason ↦ blocked reason call.id
          ],
        )
    unfolding wrap_tool_call enforce
    wrap_free free asked = rw (free, asked) refl

  ran_step :
      (call : ToolCall A) (now : ℕ) (g : Gate A) (calls : List (ToolCall A × ℕ))
      (r : Gate A × Reply R)
      → wrap_tool_call handler call now g ≡ r
      → ran g ((call, now) ∷ calls) ≡ then_run r.1 (call, now) (ran r.0 calls)
  unfolding ran
  ran_step call now g calls r e =
      ap (λ (q : Gate A × Reply R). then_run q.1 (call, now) (ran q.0 calls)) e

  module _ (denied : List Text) (predicate : Option (Text → A → Option Text)) where
    unfoldable pub Rest : List (ToolCall A × ℕ) → Type 0
    Rest calls =
        (limiter : Option RateLimiter)
        → ran (gate denied predicate limiter) calls
          ≡ allowed_by limiter (passing denied predicate calls)

    run_free :
        (limiter : Option RateLimiter) (call : ToolCall A) (now : ℕ) (calls : List (ToolCall A × ℕ))
        → Rest calls
        → then_run
            (elim (ask_limiter call now (gate denied predicate limiter)).1 [
              | none ↦ handled (handler call)
              | some reason ↦ blocked reason call.id
            ])
            (call, now)
            (ran (ask_limiter call now (gate denied predicate limiter)).0 calls)
          ≡ allowed_by limiter ((call, now) ∷ passing denied predicate calls)
    unfolding ask_limiter allowed_by allowed_calls then_run Rest
    run_free none call now calls rest =
        ap (λ (l : List (ToolCall A × ℕ)). (call, now) ∷ l) (rest none)
    run_free (some l) call now calls rest = elim (Bool-cases (check call.name now l).1) [
      | inl room ↦ rw room (
          ap (λ (l' : List (ToolCall A × ℕ)). (call, now) ∷ l')
            (rest (some (check call.name now l).0)))
      | inr full ↦ rw full (rest (some (check call.name now l).0))
    ]

    pub ran-passing : (calls : List (ToolCall A × ℕ)) → Rest calls
    unfolding ran then_run Rest allowed_by allowed_calls
    ran-passing [] none = refl
    ran-passing [] (some l) = refl
    ran-passing ((call, now) ∷ calls) limiter = elim (Bool-cases (mem_text call.name denied)) [
      | inl listed ↦
          ran_step call now (gate denied predicate limiter) calls _
            (wrap_listed call now (gate denied predicate limiter) listed)
          ∙ ran-passing calls limiter
          ∙ rw listed refl
      | inr free ↦ elim (Option-cases (ask predicate call)) [
        | inr (reason, asked) ↦
            ran_step call now (gate denied predicate limiter) calls _
              (wrap_refused call now (gate denied predicate limiter) reason free asked)
            ∙ ran-passing calls limiter
            ∙ rw (free, asked) refl
        | inl asked ↦
            ran_step call now (gate denied predicate limiter) calls _
              (wrap_free call now (gate denied predicate limiter) free asked)
            ∙ run_free limiter call now calls (ran-passing calls)
            ∙ rw (free, asked) refl
      ]
    ]
