-- ===== src/Middleware/Readback.antt =====
-- graph/middleware/tool_deferral.py: the names that are read back from a result of the search.
use proto_trader.Prelude.{
  ℕ, zero, suc, ◌≡◌, refl, sym, ap, ◌∙◌, inl, inr, Text, codes, is_empty, Bool, true, false, not,
  ◌&&◌, none, some, List, [], ◌∷◌, ◌++◌, append_assoc, append-nil, map, all, take, length, All,
  All-keep, All-sort_by, ◌==◌, arith, Bool-cases, show, lower, sort_by, is_digit, all-is_digit-show,
}
use proto_trader.Middleware.Search.{
  Pair, line, lines_after, render, clamp_limit, scored, shown_for, shown, search_tools, words_on,
  score, ranks,
}
use proto_trader.Middleware.Deferral.{findall}

-- Without a backtick.
abbrev pub is_clean : Text → Bool
is_clean s = all (λ c. not (c == 96)) s

clean-append : (s t : Text) → is_clean (s ++ t) ≡ (is_clean s && is_clean t)
clean-append [] t = refl
clean-append (c ∷ s) t = ground (arith, clean-append s t)

findall_outside : (s t : Text) → is_clean s ≡ true → findall none (s ++ t) ≡ findall none t
unfolding findall
findall_outside [] t h = refl
findall_outside (c ∷ s) t h = ground (arith, h, findall_outside s t)

findall_inside :
    (w s t : Text) → is_clean s ≡ true → findall (some w) (s ++ t) ≡ findall (some (w ++ s)) t
unfolding findall
findall_inside w [] t h = rw (append-nil w) refl
findall_inside w (c ∷ s) t h =
    ground (arith, h, findall_inside (w ++ c ∷ []) s t, append_assoc w (c ∷ []) s)

findall_close : (w t : Text) → is_empty w ≡ false → findall (some w) (96 ∷ t) ≡ w ∷ findall none t
unfolding findall
findall_close w t ne = rw ne refl

findall_open : (s t : Text) → is_clean s ≡ true → findall none (s ++ (96 ∷ t)) ≡ findall (some []) t
unfolding findall
findall_open s t clean = findall_outside s (96 ∷ t) clean

-- After an open backtick, a name that another closes.
findall_name :
    (n after : Text)
    → is_clean n ≡ true
    → is_empty n ≡ false
    → findall (some []) (n ++ (codes "`" ++ after)) ≡ n ∷ findall none after
findall_name n after hn ne = findall_inside [] n (codes "`" ++ after) hn ∙ findall_close n after ne

-- A name that can stand in backticks, and a summary that does not disturb them.
abbrev pub IsPlain : Pair → Type 0
IsPlain (name, summary) =
    (is_empty name ≡ false) × (is_clean name ≡ true) × (is_clean summary ≡ true)

findall-line :
    (p : Pair) (rest : Text)
    → IsPlain p
    → findall none (codes "\n" ++ (line p ++ rest)) ≡ p.0 ∷ findall none rest
findall-line (name, summary) rest (ne, clean, cs) = elim (Bool-cases (is_empty summary)) [
  | inl none_given ↦ rw none_given (
      findall_open (codes "\n- ") ((name ++ codes "`") ++ rest) refl
      ∙ ap (findall (some [])) (append_assoc name (codes "`") rest)
      ∙ findall_name name rest clean ne)
  | inr given ↦ rw given (
      findall_open (codes "\n- ") ((name ++ (codes "` — " ++ summary)) ++ rest) refl
      ∙ ap (findall (some [])) (append_assoc name (codes "` — " ++ summary) rest)
      ∙ findall_name name (codes " — " ++ (summary ++ rest)) clean ne
      ∙ ap (λ (ns : List Text). name ∷ ns)
          (findall_outside (codes " — ") (summary ++ rest) refl ∙ findall_outside summary rest cs))
]

findall-lines_after :
    (pairs : List Pair)
    → All IsPlain pairs
    → findall none (lines_after pairs) ≡ map (λ (p : Pair). p.0) pairs
unfolding findall
findall-lines_after [] h = refl
findall-lines_after (p ∷ pairs) (plain_one, h) =
    findall-line p (lines_after pairs) plain_one
    ∙ ap (λ (ns : List Text). p.0 ∷ ns) (findall-lines_after pairs h)

findall-render :
    (pairs : List Pair) (header : Text)
    → All IsPlain pairs
    → is_clean header ≡ true
    → findall none (render pairs header) ≡ map (λ (p : Pair). p.0) pairs
unfolding render
findall-render pairs header h clean =
    findall_outside header (lines_after pairs) clean ∙ findall-lines_after pairs h

digits_clean : (s : Text) → all is_digit s ≡ true → is_clean s ≡ true
digits_clean [] h = refl
digits_clean (c ∷ s) h = ground (arith, h, digits_clean s)

All-take {ℓ κ} : {A : Type ℓ} (P : A → Type κ) (n : ℕ) (l : List A) → All P l → All P (take n l)
All-take P zero l h = tt
All-take P (suc n) [] h = tt
All-take P (suc n) (x ∷ l) (p, h) = (p, All-take P n l h)

-- What is listed is plain, and so is the header.
shown_for-IsPlain :
    (query : Text) (limit : ℕ) (catalog : List Pair) (terms : List Text) (hits : List Pair)
    → is_clean query ≡ true
    → All IsPlain catalog
    → All IsPlain hits
    → All IsPlain (shown_for query limit catalog terms hits).0
      × (is_clean (shown_for query limit catalog terms hits).1 ≡ true)
unfolding shown_for
shown_for-IsPlain query limit catalog [] hits clean h k = (All-take IsPlain limit catalog h, refl)
shown_for-IsPlain query limit catalog (t ∷ terms) [] clean h k =
    (All-take IsPlain limit catalog h, clean-append query _ ∙ rw clean refl)
shown_for-IsPlain query limit catalog (t ∷ terms) (p ∷ hits) clean h k = (
  All-take IsPlain limit _ (All-sort_by (ranks (t ∷ terms)) IsPlain (p ∷ hits) k),
  clean-append (show (length found)) _
      ∙ rw (digits_clean (show (length found)) (all-is_digit-show (length found)))
          (clean-append query _ ∙ rw clean refl),
)
  where
    found : List Pair
    found = take limit (sort_by (ranks (t ∷ terms)) (p ∷ hits))

shown_for_none :
    (query : Text) (limit : ℕ) (terms : List Text) → (shown_for query limit [] terms []).0 ≡ []
unfolding shown_for
shown_for_none query zero [] = refl
shown_for_none query (suc limit) [] = refl
shown_for_none query zero (t ∷ terms) = refl
shown_for_none query (suc limit) (t ∷ terms) = refl

findall_nil : findall none [] ≡ []
unfolding findall
findall_nil = refl

-- The names that the deferral reads back from a result of the search are those of the tools that were
-- listed, in their order, if neither the query nor the catalogue has a backtick in it.
pub findall-search_tools :
    (query : Text) (limit : ℕ) (catalog : List Pair)
    → is_clean query ≡ true
    → All IsPlain catalog
    → findall none (search_tools query limit catalog)
      ≡ map (λ (q : Pair). q.0) (shown query limit catalog).0
unfolding search_tools shown scored
findall-search_tools query limit [] clean h =
    findall_outside (search_tools query limit []) [] refl
    ∙ findall_nil
    ∙ sym (
        ap (map (λ (q : Pair). q.0))
          (shown_for_none query (clamp_limit limit) (words_on [] (lower query))))
findall-search_tools query limit (p ∷ catalog) clean h =
    let terms = words_on [] (lower query) in
    let k =
      shown_for-IsPlain query (clamp_limit limit) (p ∷ catalog) terms (scored terms (p ∷ catalog))
        clean h (All-keep IsPlain (λ q. not (score terms q == 0)) (p ∷ catalog) h) in
    findall-render _ _ k.0 k.1
