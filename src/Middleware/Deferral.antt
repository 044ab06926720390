-- ===== src/Middleware/Deferral.antt =====
-- graph/middleware/tool_deferral.py: which tools the model is given.
use proto_trader.Prelude.{
  Text, codes, text_eq, mem_text, is_empty, Bool, true, false, Option, none, some, List, [], ◌∷◌,
  ◌++◌, ◌&&◌, ◌||◌, keep, length, ◌==◌, if◌then◌else◌,
}
use proto_trader.Middleware.Search.{search_tools_name}

-- The content of a message: a text, or blocks, with `none` for a block that is no text block.
pub data Content : Type 0 where
  plain : Text → Content
  blocks : List (Option Text) → Content

pub record Message : Type 0 where
  pub type : Text
  pub name : Option Text
  pub content : Content

abbrev pub join_blocks : List (Option Text) → Text
join_blocks [] = []
join_blocks (none ∷ bs) = join_blocks bs
join_blocks (some t ∷ bs) = t ++ join_blocks bs

-- `_message_text`.
abbrev pub message_text : Message → Text
message_text m = elim m.content [ plain t ↦ t | blocks bs ↦ join_blocks bs ]

-- An entry of a request: a tool object with its name attribute, or a provider's specification with the
-- name and the name under `function`.
pub data Entry : Type 0 where
  base_tool : (name : Option Text) → Entry
  spec : (name function_name : Option Text) → Entry

abbrev pub or_else : Option Text → Option Text → Option Text
or_else none o = o
or_else (some n) o = if is_empty n then o else some n

-- `_tool_name`.
unfoldable pub tool_name : Entry → Option Text
tool_name (base_tool name) = or_else name none
tool_name (spec name function_name) = or_else name function_name

-- `_BACKTICKED.findall`, with what has been read since a backtick.
unfoldable pub findall : Option Text → Text → List Text
findall o [] = []
findall none (c ∷ s) =
    let inner = findall (some []) s in
    let outer = findall none s in if c == 96 then inner else outer
findall (some w) (c ∷ s) =
    let again = findall (some []) s in
    let found = findall none s in
    let more = findall (some (w ++ c ∷ [])) s in
    if c == 96 then (if is_empty w then again else w ∷ found) else more

abbrev pub is_search_result : Message → Bool
is_search_result m =
    text_eq m.type (codes "tool")
    && elim m.name [ none ↦ false | some n ↦ text_eq n search_tools_name ]

unfoldable pub activated_tool_names : List Message → List Text
unfolding findall
activated_tool_names [] = []
activated_tool_names (m ∷ messages) =
    let rest = activated_tool_names messages in
    if is_search_result m then findall none (message_text m) ++ rest else rest

-- `(_tool_name(t) or "") in allowed or _tool_name(t) is None`.
unfoldable pub is_kept : List Text → Entry → Bool
is_kept allowed t = elim (tool_name t) [ none ↦ true | some n ↦ mem_text n allowed ]

-- `_transform`: the tools of the request that goes on.
unfoldable pub transform : List Text → List Message → List Entry → List Entry
unfolding activated_tool_names is_kept
transform keep_names messages tools =
    let kept = keep (is_kept (keep_names ++ activated_tool_names messages)) tools in
    if (length kept == 0) || (length kept == length tools) then tools else kept
