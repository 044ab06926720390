-- ===== src/Middleware/Loaded.antt =====
-- graph/middleware/tool_deferral.py with tools/lg_tools.py: a tool that the search lists is given to the
-- model from then on.
use proto_trader.Prelude.{
  ℕ, ◌≡◌, refl, sym, subst, ◌∙◌, inl, inr, Text, codes, text_eq_refl, ◌⊎◌, mem_text, Bool, true,
  ◌||◌, none, some, List, [], ◌∷◌, ◌++◌, map, keep, length, All, ◌==◌, arith, Bool-cases,
}
use proto_trader.Middleware.Search.{Pair, search_tools_name, shown, search_tools}
use proto_trader.Middleware.Deferral.{
  Message, plain, Entry, message_text, tool_name, findall, is_search_result, activated_tool_names,
  is_kept, transform,
}
use proto_trader.Middleware.Readback.{is_clean, IsPlain, findall-search_tools}

-- The element is in the list.
abbrev pub Within : {A : Type 0} → A → List A → Type 0
Within x [] = ⊥
Within x (y ∷ l) = (x ≡ y) ⊎ Within x l

keep-Within :
    {A : Type 0} (p : A → Bool) (x : A) (l : List A) → p x ≡ true → Within x l → Within x (keep p l)
keep-Within p x [] e h = absurd h
keep-Within p x (y ∷ l) e (inl same) = rw (subst (λ z. p z ≡ true) same e) (inl same)
keep-Within p x (y ∷ l) e (inr h) = elim (Bool-cases (p y)) [
  | inl kept ↦ rw kept (inr (keep-Within p x l e h))
  | inr away ↦ rw away (keep-Within p x l e h)
]

mem_text-append :
    (n : Text) (xs ys : List Text) → mem_text n (xs ++ ys) ≡ (mem_text n xs || mem_text n ys)
unfolding mem_text
mem_text-append n [] ys = refl
mem_text-append n (x ∷ xs) ys = ground (arith, mem_text-append n xs ys)

abbrev pub search_result : Text → Message
search_result content = record {
  type = codes "tool";
  name = some search_tools_name;
  content = plain content;
}

mem_text-activated :
    (n content : Text) (before after : List Message)
    → mem_text n (findall none content) ≡ true
    → mem_text n (activated_tool_names (before ++ search_result content ∷ after)) ≡ true
unfolding activated_tool_names
mem_text-activated n content [] after h =
    rw (text_eq_refl (codes "tool"), text_eq_refl search_tools_name)
      (mem_text-append n (findall none content) (activated_tool_names after) ∙ rw h refl)
mem_text-activated n content (m ∷ before) after h =
    let rest = mem_text-activated n content before after h in
    elim (Bool-cases (is_search_result m)) [
      | inl is_one ↦
          rw is_one (mem_text-append n (findall none (message_text m)) _ ∙ ground (arith, rest))
      | inr no_one ↦ rw no_one rest
    ]

-- A tool of the request whose name was listed in a result of the search, anywhere in the conversation,
-- is among the tools that the model is given, if neither the query nor the catalogue has a backtick
-- in it.
pub transform-loads :
    (query : Text) (limit : ℕ) (catalog : List Pair) (before after : List Message)
    (keep_names : List Text) (tools : List Entry) (t : Entry) (n : Text)
    → is_clean query ≡ true
    → All IsPlain catalog
    → mem_text n (map (λ (q : Pair). q.0) (shown query limit catalog).0) ≡ true
    → tool_name t ≡ some n
    → Within t tools
    → Within t (
        transform keep_names
          (before ++ search_result (search_tools query limit catalog) ∷ after)
          tools)
unfolding transform is_kept
transform-loads query limit catalog before after keep_names tools t n clean h listed named here =
    elim (Bool-cases ((length kept == 0) || (length kept == length tools))) [
      | inl whole ↦ rw whole here
      | inr fewer ↦ rw fewer (keep-Within (is_kept allowed) t tools is_in here)
    ]
  where
    content : Text
    content = search_tools query limit catalog

    allowed : List Text
    allowed = keep_names ++ activated_tool_names (before ++ search_result content ∷ after)

    kept : List Entry
    kept = keep (is_kept allowed) tools

    is_in : is_kept allowed t ≡ true
    is_in =
        rw (named, is_kept)
          (mem_text-append n keep_names _
            ∙ (let found = mem_text-activated n content before after (
                  subst (λ ns. mem_text n ns ≡ true)
                    (sym (findall-search_tools query limit catalog clean h)) listed) in
                ground (arith, found)))
