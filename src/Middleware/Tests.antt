-- ===== src/Middleware/Tests.antt =====
-- graph/middleware on small inputs.
use proto_trader.Prelude.{
  ℕ, ◌≤◌, ◌≡◌, refl, ◌&&◌, Text, codes, text_eq, mem_text, lookup, insert, ◌==◌, if◌then◌else◌,
  true, false, Option, none, some, List, [], ◌∷◌, arith, All, count, leb, ltb,
}
use proto_trader.Prelude.{
  text_lt, lower, starts_with, is_space, show, insert_by, sort_by, map, inl, inr,
}
use proto_trader.Prelude.Decimals.{show_onto}
use proto_trader.Middleware.Search.{
  Pair, words_on, count_on, score, ranks, scored, shown_for, shown, render, search_tools,
}
use proto_trader.Middleware.Deferral.{
  Entry, base_tool, spec, tool_name, findall, activated_tool_names, is_kept, transform,
}
use proto_trader.Middleware.Readback.{IsPlain}
use proto_trader.Middleware.Loaded.{Within, search_result, transform-loads}
use proto_trader.Window.{admitted}
use proto_trader.Enforcement.{Limit, init, window_of, inside, check_limit, check, check_all}
use proto_trader.Enforcement.Rate.{times_of, decisions_of}
use proto_trader.Middleware.Gate.{
  disabled, refused, ToolCall, Gate, blocked, new_gate, ask, ask_limiter, enforce, wrap_tool_call,
}
use proto_trader.Middleware.Gated.{then_run, ran, passes, named}
use proto_trader.Middleware.Running.{limited_gate, admissible, ran_safe}

abbrev call : Text → ℕ → ToolCall ℕ
call name args = record { name = name; args = args; id = codes "c1" }

abbrev handler : ToolCall ℕ → ℕ
handler c = c.args

abbrev policy : Text → ℕ → Option Text
policy name n = if n == 0 then some (codes "empty request") else none

abbrev one : Limit
one = record { max_calls = 1; window = 60 }

abbrev calls : List (ToolCall ℕ × ℕ)
calls =
    (call (codes "rm") 1, 0)
    ∷ (call (codes "fetch") 0, 1)
    ∷ (call (codes "fetch") 5, 2)
    ∷ (call (codes "fetch") 6, 3)
    ∷ (call (codes "date") 1, 4)
    ∷ []

abbrev gate : Gate ℕ
gate = limited_gate (codes "rm" ∷ []) (codes "fetch", one) [] (some policy)

program : Unit {0}
unfolding window_of inside check_limit check check_all init new_gate ask ask_limiter enforce
    wrap_tool_call then_run ran text_eq mem_text lookup insert
program = tt

gate_runs :
    (ran handler gate calls ≡ (call (codes "fetch") 5, 2) ∷ (call (codes "date") 1, 4) ∷ [])
    × ((wrap_tool_call handler (call (codes "rm") 1) 0 gate).1
        ≡ blocked (disabled (codes "rm")) (codes "c1"))
    × ((wrap_tool_call handler (call (codes "fetch") 0) 0 gate).1
        ≡ blocked (refused (codes "empty request")) (codes "c1"))
unfolding program
gate_runs = (refl, refl, refl)

ran_safe_example :
    All (λ c. passes gate c.0 ≡ true) (ran handler gate calls)
    × ((j : Text)
        → times_of j (named (ran handler gate calls))
          ≡ admitted
              (times_of j
                (named (admissible (codes "rm" ∷ []) (codes "fetch", one) [] (some policy) calls)))
              (decisions_of j
                (named (admissible (codes "rm" ∷ []) (codes "fetch", one) [] (some policy) calls))
                (check_all (init ((codes "fetch", one) ∷ [])) (
                  named
                    (admissible (codes "rm" ∷ []) (codes "fetch", one) [] (some policy) calls)))))
    × (count (λ t. ltb 1 t && leb t 61) (times_of (codes "fetch") (named (ran handler gate calls)))
        ≤ 1)
unfolding lookup text_eq
ran_safe_example =
    ran_safe handler (codes "rm" ∷ []) (codes "fetch", one) [] (some policy) calls (codes "fetch")
      one 1 (omega arith) refl

abbrev catalog : List Pair
catalog =
    (codes "list_events", codes "Calendar events")
    ∷ (codes "send_mail", [])
    ∷ (codes "mail_search", codes "Find mail; mail only")
    ∷ []

abbrev entries : List Entry
entries =
    base_tool (some (codes "calculator"))
    ∷ base_tool (some (codes "send_mail"))
    ∷ base_tool none
    ∷ spec none (some (codes "list_events"))
    ∷ []

search_program : Unit {0}
unfolding words_on count_on score ranks scored shown_for shown render search_tools tool_name findall
    activated_tool_names is_kept transform text_eq mem_text text_lt lower starts_with is_space show
    show_onto insert_by sort_by
search_program = tt

search_runs :
    ((shown (codes "MAIL") 0 catalog).0
      ≡ (codes "mail_search", codes "Find mail; mail only") ∷ (codes "send_mail", []) ∷ [])
    × ((shown (codes "  ") 1 catalog).0 ≡ (codes "list_events", codes "Calendar events") ∷ [])
    × ((shown (codes "xyz") 2 catalog).1
        ≡ codes "No tool matched \"xyz\". Here are the available tools (now callable):")
    × (search_tools (codes "mail") 1 catalog
        ≡ codes
            "Found 1 tool(s) for \"mail\" — now available to call:\n- `mail_search` — Find mail; mail only")
unfolding search_program
search_runs = (refl, refl, refl, refl)

transform_runs :
    (transform (codes "calculator" ∷ []) [] entries
      ≡ base_tool (some (codes "calculator")) ∷ base_tool none ∷ [])
    × (transform
          (codes "calculator" ∷ [])
          (search_result (search_tools (codes "mail") 0 catalog) ∷ [])
          entries
        ≡ base_tool (some (codes "calculator"))
          ∷ base_tool (some (codes "send_mail"))
          ∷ base_tool none
          ∷ [])
    × (transform [] [] (spec none (some (codes "x")) ∷ []) ≡ spec none (some (codes "x")) ∷ [])
unfolding search_program
transform_runs = (refl, refl, refl)

-- A backtick in the query shifts the pairs of backticks, and the names that are listed are not read.
backtick_run :
    (mem_text (codes "list_events") (map (λ (p : Pair). p.0) (shown (codes "`") 0 catalog).0)
      ≡ true)
    × (mem_text (codes "list_events") (findall none (search_tools (codes "`") 0 catalog)) ≡ false)
unfolding search_program
backtick_run = (refl, refl)

catalog-IsPlain : All IsPlain catalog
catalog-IsPlain = ((refl, refl, refl), ((refl, refl, refl), ((refl, refl, refl), tt)))

listed :
    mem_text (codes "send_mail") (map (λ (p : Pair). p.0) (shown (codes "mail") 0 catalog).0) ≡ true
unfolding search_program
listed = refl

send_mail_name : tool_name (base_tool (some (codes "send_mail"))) ≡ some (codes "send_mail")
unfolding tool_name
send_mail_name = refl

transform-loads_example :
    Within
      (base_tool (some (codes "send_mail")))
      (transform [] (search_result (search_tools (codes "mail") 0 catalog) ∷ []) entries)
transform-loads_example =
    transform-loads (codes "mail") 0 catalog [] [] [] entries (base_tool (some (codes "send_mail")))
      (codes "send_mail") refl catalog-IsPlain listed send_mail_name (inr (inl refl))
