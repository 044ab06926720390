-- ===== src/Egress/Allow.antt =====
-- egress.py: which hosts the guard lets through.
use mathlib.Core.List.{reverse-append, reverse-reverse}
use proto_trader.Prelude.{
  Text, codes, text_eq, text_eq_iff, is_empty, lower, starts_with, ends_with, starts_with-append,
  starts_with→append, true, false, Option, none, some, List, [], ◌∷◌, ◌++◌, drop, any, All, reverse,
  ◌≡◌, ◌↔◌, ◌⊎◌, refl, inl, inr, ◌∙◌, sym, ap, subst, length, arith, Bool-cases, Option-cases,
}
use proto_trader.Egress.{
  Address, internal, global, host_matches, host_allowed, first_blocked, passes, verdict, blocked_ip,
  check_host, check_url,
}

ends_with→append : (s p : Text) → ends_with s p ≡ true → (x : Text) × (s ≡ x ++ p)
unfolding ends_with
ends_with→append s p h =
    let rest = drop (length (reverse p)) (reverse s) in
    (
      reverse rest,
      sym (reverse-reverse s)
          ∙ ap reverse (starts_with→append (reverse s) (reverse p) h)
          ∙ reverse-append (reverse p) rest
          ∙ ap (λ (t : Text). reverse rest ++ t) (reverse-reverse p),
    )

ends_with-append : (x p : Text) → ends_with (x ++ p) p ≡ true
unfolding ends_with
ends_with-append x p =
    subst (λ (t : Text). starts_with t (reverse p) ≡ true) (sym (reverse-append x p))
      (starts_with-append (reverse p) (reverse x))

-- A pattern `*.d` covers the host d and every host that ends in `.d`; any other covers itself.
abbrev pub Covers : Text → Text → Type 0
Covers host pat =
    ((d : Text) × (pat ≡ codes "*." ++ d) × ((host ≡ d) ⊎ ((x : Text) × (host ≡ x ++ (b'.' ∷ d)))))
    ⊎ ((starts_with pat (codes "*.") ≡ false) × (host ≡ pat))

wildcard_iff :
    (host d : Text)
    → (host_matches host (codes "*." ++ d) ≡ true)
      ↔ ((host ≡ d) ⊎ ((x : Text) × (host ≡ x ++ (b'.' ∷ d))))
unfolding host_matches
wildcard_iff host d = (to, back)
  where
    to :
        host_matches host (codes "*." ++ d) ≡ true
        → (host ≡ d) ⊎ ((x : Text) × (host ≡ x ++ (b'.' ∷ d)))
    to h = elim (Bool-cases (text_eq host d)) [
      | inl same ↦ inl ((text_eq_iff host d).0 same)
      | inr other ↦ inr (ends_with→append host (b'.' ∷ d) (ground (arith, h, other)))
    ]

    back :
        (host ≡ d) ⊎ ((x : Text) × (host ≡ x ++ (b'.' ∷ d)))
        → host_matches host (codes "*." ++ d) ≡ true
    back (inl e) = ground (arith, (text_eq_iff host d).1 e)
    back (inr (x, e)) = ground (
      arith,
      subst (λ (t : Text). ends_with t (b'.' ∷ d) ≡ true) (sym e) (ends_with-append x (b'.' ∷ d)),
    )

host_matches_iff : (host pat : Text) → (host_matches host pat ≡ true) ↔ Covers host pat
host_matches_iff host pat = (to, back)
  where
    to : host_matches host pat ≡ true → Covers host pat
    to h = elim (Bool-cases (starts_with pat (codes "*."))) [
      | inl wild ↦
          let e = starts_with→append pat (codes "*.") wild in
          inl (
            drop 2 pat,
            e,
            (wildcard_iff host (drop 2 pat)).0
                (subst (λ (p : Text). host_matches host p ≡ true) e h),
          )
      | inr plain ↦
          inr (plain, (text_eq_iff host pat).0 (unfold host_matches in ground (arith, h, plain)))
    ]

    back : Covers host pat → host_matches host pat ≡ true
    back (inl (d, e, r)) =
        subst (λ (p : Text). host_matches host p ≡ true) (sym e) ((wildcard_iff host d).1 r)
    back (inr (plain, e)) = unfold host_matches in ground (arith, plain, (text_eq_iff host pat).1 e)

abbrev pub AnyCovers : Text → List Text → Type 0
AnyCovers host [] = ⊥
AnyCovers host (pat ∷ pats) = Covers host pat ⊎ AnyCovers host pats

any-Covers :
    (host : Text) (pats : List Text) → (any (host_matches host) pats ≡ true) ↔ AnyCovers host pats
any-Covers host [] = (λ h. cc h, λ h. absurd h)
any-Covers host (pat ∷ pats) = ground (arith, host_matches_iff host pat, any-Covers host pats)

lower_again : (s : Text) → lower (lower s) ≡ lower s
unfolding lower
lower_again [] = refl
lower_again (c ∷ s) = ground (arith, lower_again s)

module _ (address : Text → Option Address) (resolve : Text → Option (List Text)) where
  -- The host is an address that may be reached, or a name all of whose addresses are.
  abbrev pub Reachable : Text → Type 0
  Reachable host =
      (address host ≡ some global)
      ⊎ ((address host ≡ none)
          × ((found : List Text) × (resolve host ≡ some found)
              × All (λ a. address a ≡ some global) found))

  -- With an allowlist, some pattern covers the host; without, it is reachable.
  abbrev pub Permitted : List Text → Text → Type 0
  Permitted [] host = Reachable host
  Permitted (pat ∷ pats) host = AnyCovers host (pat ∷ pats)

  first_blocked_iff :
      (found : List Text)
      → (first_blocked address resolve found ≡ none) ↔ All (λ a. address a ≡ some global) found
  unfolding first_blocked
  first_blocked_iff [] = (λ h. tt, λ h. refl)
  first_blocked_iff (a ∷ found) = elim (Option-cases (address a)) [
    | inl absent ↦ ground (arith, absent)
    | inr (internal, e) ↦ ground (arith, e)
    | inr (global, e) ↦ ground (arith, e, first_blocked_iff found)
  ]

  verdict-passes : (o : Option Text) → (verdict address resolve o ≡ passes) ↔ (o ≡ none)
  verdict-passes none = (λ h. refl, λ h. refl)
  verdict-passes (some a) = (λ h. cc h, λ h. cc h)

  passes→Reachable : (host : Text) → blocked_ip address resolve host ≡ passes → Reachable host
  unfolding blocked_ip
  passes→Reachable host h = elim (Option-cases (address host)) [
    | inl name ↦ elim (Option-cases (resolve host)) [
      | inl lost ↦ absurd (ground (arith, h, name, lost))
      | inr (found, r) ↦
          let quiet =
            (verdict-passes (first_blocked address resolve found)).0 (ground (arith, h, name, r)) in
          inr (name, (found, r, (first_blocked_iff found).0 quiet))
    ]
    | inr (kind, e) ↦
        let quiet =
          (verdict-passes (first_blocked address resolve (host ∷ []))).0 (ground (arith, h, e)) in
        inl ((first_blocked_iff (host ∷ [])).0 quiet).0
  ]

  Reachable→passes : (host : Text) → Reachable host → blocked_ip address resolve host ≡ passes
  unfolding blocked_ip
  Reachable→passes host (inl e) =
      let quiet = (first_blocked_iff (host ∷ [])).1 (e, tt) in
      rw (e, blocked_ip) (ap (verdict address resolve) quiet)
  Reachable→passes host (inr (name, (found, r, a))) =
      rw (name, r, blocked_ip) (ap (verdict address resolve) ((first_blocked_iff found).1 a))

  check_host_iff :
      (allowed : List Text) (host : Text)
      → is_empty (lower host) ≡ false
      → (check_host address resolve allowed (lower host) ≡ none) ↔ Permitted allowed (lower host)
  unfolding check_host host_allowed
  check_host_iff [] host full = (λ h. passes→Reachable (lower host) (open_host h), λ h. shut_host h)
    where
      open_host :
          check_host address resolve [] (lower host) ≡ none
          → blocked_ip address resolve (lower host) ≡ passes
      open_host h = ground (arith, h)

      shut_host : Reachable (lower host) → check_host address resolve [] (lower host) ≡ none
      shut_host r = ground (arith, Reachable→passes (lower host) r)
  check_host_iff (pat ∷ pats) host full =
      ground (arith, full, lower_again host, any-Covers (lower host) (pat ∷ pats))

  -- A request may go out exactly when its URL has a host and, with an allowlist, a pattern covers the
  -- host (`*.d` covers d and what ends in `.d`, any other pattern itself), and without one, the host
  -- is an address that may be reached or a name all of whose addresses are.
  pub check_url_iff :
      (hostname : Text → Option (Option Text)) (allowed : List Text) (url : Text)
      → (check_url address resolve hostname allowed url ≡ none) ↔ (
          (host : Text) × (hostname url ≡ some (some host))
          × ((is_empty (lower host) ≡ false) × Permitted allowed (lower host)))
  unfolding check_url
  check_url_iff hostname allowed url = (to, back)
    where
      to :
          check_url address resolve hostname allowed url ≡ none
          → (host : Text) × (hostname url ≡ some (some host))
            × ((is_empty (lower host) ≡ false) × Permitted allowed (lower host))
      to h = elim (Option-cases (hostname url)) [
        | inl malformed ↦ absurd (ground (arith, h, malformed))
        | inr (none, e) ↦ absurd (ground (arith, h, e))
        | inr (some host, e) ↦ elim (Bool-cases (is_empty (lower host))) [
          | inl blank ↦ absurd (ground (arith, h, e, blank))
          | inr full ↦
              (host, e, (full, (check_host_iff allowed host full).0 (ground (arith, h, e, full))))
        ]
      ]

      back :
          (host : Text) × (hostname url ≡ some (some host))
            × ((is_empty (lower host) ≡ false) × Permitted allowed (lower host))
          → check_url address resolve hostname allowed url ≡ none
      back (host, e, (full, p)) = ground (arith, e, full, (check_host_iff allowed host full).1 p)
