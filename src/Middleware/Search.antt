-- ===== src/Middleware/Search.antt =====
-- tools/lg_tools.py: the tool that loads deferred tools. A catalogue entry is the name of a tool and the
-- summary of its description.
use proto_trader.Prelude.{
  ℕ, zero, suc, ◌+◌, ◌-◌, min, max, Text, codes, text_lt, mem_text, is_empty, is_space, lower,
  starts_with, show, Bool, not, ◌&&◌, ◌||◌, List, [], ◌∷◌, ◌++◌, keep, take, length, ltb, ◌==◌,
  if◌then◌else◌, sort_by,
}

abbrev pub search_tools_name : Text
search_tools_name = codes "search_tools"

abbrev pub base_tool_names : List Text
base_tool_names =
    codes "current_time"
    ∷ codes "calculator"
    ∷ codes "web_search"
    ∷ codes "fetch_url"
    ∷ codes "ask_human"
    ∷ codes "request_user_input"
    ∷ codes "task"
    ∷ codes "task_batch"
    ∷ codes "run_workflow"
    ∷ codes "save_workflow"
    ∷ search_tools_name
    ∷ []

-- `resolve_deferred_keep`.
abbrev pub resolve_deferred_keep : List Text → List Text
resolve_deferred_keep [] = search_tools_name ∷ base_tool_names
resolve_deferred_keep (n ∷ configured) = search_tools_name ∷ n ∷ configured

abbrev pub Pair : Type 0
Pair = Text × Text

-- The tools that are not always shown.
abbrev pub catalog_of : List Text → List Pair → List Pair
catalog_of keep_names tools =
    keep (λ (p : Pair). not (is_empty p.0) && not (mem_text p.0 keep_names)) tools

abbrev pub line : Pair → Text
line (name, summary) =
    if is_empty summary
    then codes "- `" ++ (name ++ codes "`")
    else codes "- `" ++ (name ++ (codes "` — " ++ summary))

abbrev pub lines_after : List Pair → Text
lines_after [] = []
lines_after (p ∷ pairs) = codes "\n" ++ (line p ++ lines_after pairs)

-- `_render`.
unfoldable pub render : List Pair → Text → Text
render pairs header = header ++ lines_after pairs

-- `s.split()`, with the word that has begun.
unfoldable pub words_on : Text → Text → List Text
words_on w [] = if is_empty w then [] else w ∷ []
words_on w (c ∷ s) =
    let next = words_on [] s in
    let more = words_on (w ++ c ∷ []) s in
    if is_space c then (if is_empty w then next else w ∷ next) else more

-- `hay.count(term)`, with the characters still to skip.
unfoldable pub count_on : ℕ → Text → Text → ℕ
count_on k term [] = 0
count_on (suc k) term (c ∷ s) = count_on k term s
count_on zero term (c ∷ s) =
    let here = count_on (length term - 1) term s in
    let later = count_on 0 term s in if starts_with (c ∷ s) term then suc here else later

unfoldable pub score : List Text → Pair → ℕ
score [] p = 0
score (term ∷ terms) p = count_on 0 term (lower (p.0 ++ codes " " ++ p.1)) + score terms p

-- The order by `(-score, name)`.
unfoldable pub ranks : List Text → Pair → Pair → Bool
unfolding score
ranks terms p q =
    ltb (score terms q) (score terms p)
    || ((score terms p == score terms q) && not (text_lt q.0 p.0))

-- `max(1, min(int(limit or 10), 50))`.
abbrev pub clamp_limit : ℕ → ℕ
clamp_limit limit = max 1 (min (if limit == 0 then 10 else limit) 50)

unfoldable pub scored : List Text → List Pair → List Pair
unfolding score
scored terms catalog = keep (λ p. not (score terms p == 0)) catalog

-- What is listed, and the header of the list, by the terms of the query and the tools that they hit.
unfoldable pub shown_for : Text → ℕ → List Pair → List Text → List Pair → List Pair × Text
unfolding ranks
shown_for query limit catalog [] hits =
    (take limit catalog, codes "All additional tools — now available to call:")
shown_for query limit catalog (t ∷ terms) [] = (
  take limit catalog,
  codes "No tool matched \"" ++ (query ++ codes "\". Here are the available tools (now callable):"),
)
shown_for query limit catalog (t ∷ terms) (p ∷ hits) =
    let found = take limit (sort_by (ranks (t ∷ terms)) (p ∷ hits)) in
    (
      found,
      codes "Found "
          ++ (show (length found)
              ++ (codes " tool(s) for \"" ++ (query ++ codes "\" — now available to call:"))),
    )

unfoldable pub shown : Text → ℕ → List Pair → List Pair × Text
unfolding words_on scored shown_for
shown query limit catalog =
    let terms = words_on [] (lower query) in
    shown_for query (clamp_limit limit) catalog terms (scored terms catalog)

-- `search_tools`.
unfoldable pub search_tools : Text → ℕ → List Pair → Text
unfolding shown render
search_tools query limit [] =
    codes "No additional tools are available beyond the ones already shown."
search_tools query limit (p ∷ catalog) = let r = shown query limit (p ∷ catalog) in render r.0 r.1
