-- ===== src/Callbacks/Permit.antt =====
-- security.py: which URLs `check_url` passes, given the networks.
use proto_trader.Prelude.{
  ◌≡◌, refl, inl, inr, sym, ap, ◌∙◌, ◌↔◌, ◌⊎◌, Text, codes, text_eq, is_empty, Bool, true, false,
  ◌||◌, Option, none, some, List, [], ◌∷◌, any, All, if◌then◌else◌, Bool-cases, Option-cases,
}
use proto_trader.Callbacks.{
  Refusal, resolve_ips, check_ips, check_host, check_url, malformed_url, not_http, no_host,
  unresolvable, unparseable, not_in_allowlist,
}

some-inj : (xs ys : List Text) → some xs ≡ some ys → xs ≡ ys
some-inj xs ys h = cc h

-- An address in one of the networks.
abbrev pub Listed : {N A : Type 0} → (Text → Option A) → (A → N → Bool) → List N → Text → Type 0
Listed {A = A} ip_address in_network cidrs addr =
    (ip : A) × (ip_address addr ≡ some ip) × (any (in_network ip) cidrs ≡ true)

module _ {N A : Type 0} (ip_address : Text → Option A) (in_network : A → N → Bool)
    (getaddrinfo : Text → Option (List Text)) (urlparse : Text → Option (Text × Text)) where
  -- The addresses of a host: a literal address is its own, any other name is looked up.
  abbrev pub Resolves : Text → List Text → Type 0
  Resolves host ips =
      ((ip : A) × (ip_address host ≡ some ip) × (ips ≡ host ∷ []))
      ⊎ ((ip_address host ≡ none) × (getaddrinfo host ≡ some ips))

  -- An HTTP URL with a host that has addresses, all of them good.
  abbrev pub Permitted : (Text → Type 0) → Text → Type 0
  Permitted Good url =
      (scheme : Text) × (host : Text) × (addr : Text) × (ips : List Text) × (urlparse url
        ≡ some (scheme, host))
      × ((text_eq scheme (codes "http") || text_eq scheme (codes "https")) ≡ true)
      × (is_empty host ≡ false)
      × Resolves host (addr ∷ ips)
      × All Good (addr ∷ ips)

  pub Permitted-map :
      (P Q : Text → Type 0) (url : Text)
      → ((addr : Text) → P addr → Q addr)
      → Permitted P url
      → Permitted Q url
  Permitted-map P Q url f (scheme, host, addr, ips, parsed, http, given, found, good) =
      (scheme, host, addr, ips, parsed, http, given, found, go (addr ∷ ips) good)
    where
      go : (xs : List Text) → All P xs → All Q xs
      go [] h = tt
      go (x ∷ xs) (p, h) = (f x p, go xs h)

  abbrev ips_check : List N → Text → List Text → Option Refusal
  ips_check = check_ips ip_address in_network getaddrinfo urlparse

  abbrev host_check : List N → Text → Option Refusal
  host_check = check_host ip_address in_network getaddrinfo urlparse

  abbrev pub url_check : List N → Text → Option Refusal
  url_check = check_url ip_address in_network getaddrinfo urlparse

  abbrev pub ips_of : Text → Option (List Text)
  ips_of = resolve_ips ip_address in_network getaddrinfo urlparse

  module _ (cidrs : List N) (host : Text) where
    ips_bad :
        (addr : Text) (ips : List Text)
        → ip_address addr ≡ none
        → ips_check cidrs host (addr ∷ ips) ≡ some (unparseable host addr)
    unfolding check_ips
    ips_bad addr ips e = rw (e, check_ips) refl

    ips_in :
        (addr : Text) (ips : List Text) (ip : A)
        → ip_address addr ≡ some ip
        → any (in_network ip) cidrs ≡ true
        → ips_check cidrs host (addr ∷ ips) ≡ ips_check cidrs host ips
    unfolding check_ips
    ips_in addr ips ip e f = rw (e, f, check_ips) refl

    ips_out :
        (addr : Text) (ips : List Text) (ip : A)
        → ip_address addr ≡ some ip
        → any (in_network ip) cidrs ≡ false
        → ips_check cidrs host (addr ∷ ips) ≡ some (not_in_allowlist host addr)
    unfolding check_ips
    ips_out addr ips ip e f = rw (e, f, check_ips) refl

    check_ips→Listed :
        (ips : List Text)
        → ips_check cidrs host ips ≡ none
        → All (Listed ip_address in_network cidrs) ips
    check_ips→Listed [] h = tt
    check_ips→Listed (addr ∷ ips) h = elim (Option-cases (ip_address addr)) [
      | inl absent ↦ absurd (let e = ips_bad addr ips absent in cc (e, h))
      | inr (ip, parsed) ↦ elim (Bool-cases (any (in_network ip) cidrs)) [
        | inl inside ↦ (
          (ip, parsed, inside),
          check_ips→Listed ips (sym (ips_in addr ips ip parsed inside) ∙ h),
        )
        | inr outside ↦ absurd (let e = ips_out addr ips ip parsed outside in cc (e, h))
      ]
    ]

    Listed→check_ips :
        (ips : List Text)
        → All (Listed ip_address in_network cidrs) ips
        → ips_check cidrs host ips ≡ none
    unfolding check_ips
    Listed→check_ips [] h = refl
    Listed→check_ips (addr ∷ ips) ((ip, parsed, inside), rest) =
        ips_in addr ips ip parsed inside ∙ Listed→check_ips ips rest

    host_unknown : ips_of host ≡ none → host_check cidrs host ≡ some (unresolvable host)
    unfolding check_host
    host_unknown e = rw (e, check_host) refl

    host_known :
        (found : List Text)
        → ips_of host ≡ some found
        → host_check cidrs host ≡ elim found [
          | [] ↦ some (unresolvable host)
          | a ∷ rest ↦ ips_check cidrs host (a ∷ rest)
        ]
    unfolding check_host
    host_known found e = rw (e, check_host) refl

  literal_ips : (host : Text) (ip : A) → ip_address host ≡ some ip → ips_of host ≡ some (host ∷ [])
  unfolding resolve_ips
  literal_ips host ip e = rw (e, resolve_ips) refl

  named_ips : (host : Text) → ip_address host ≡ none → ips_of host ≡ getaddrinfo host
  unfolding resolve_ips
  named_ips host e = rw (e, resolve_ips) refl

  ips_of→Resolves : (host : Text) (ips : List Text) → ips_of host ≡ some ips → Resolves host ips
  ips_of→Resolves host ips h = elim (Option-cases (ip_address host)) [
    | inl named ↦ inr (named, sym (named_ips host named) ∙ h)
    | inr (ip, literal) ↦ inl (ip, literal, some-inj _ _ (sym h ∙ literal_ips host ip literal))
  ]

  Resolves→ips_of : (host : Text) (ips : List Text) → Resolves host ips → ips_of host ≡ some ips
  Resolves→ips_of host ips (inl (ip, literal, e)) = literal_ips host ip literal ∙ ap some (sym e)
  Resolves→ips_of host ips (inr (named, e)) = named_ips host named ∙ e

  off : (url : Text) → url_check [] url ≡ none
  unfolding check_url
  off url = refl

  module _ (n : N) (cidrs : List N) (url : Text) where
    url_bad : urlparse url ≡ none → url_check (n ∷ cidrs) url ≡ some malformed_url
    unfolding check_url
    url_bad e = rw (e, check_url) refl

    url_other :
        (scheme host : Text)
        → urlparse url ≡ some (scheme, host)
        → (text_eq scheme (codes "http") || text_eq scheme (codes "https")) ≡ false
        → url_check (n ∷ cidrs) url ≡ some not_http
    unfolding check_url
    url_other scheme host e f = rw (e, f, check_url) refl

    url_http :
        (scheme host : Text)
        → urlparse url ≡ some (scheme, host)
        → (text_eq scheme (codes "http") || text_eq scheme (codes "https")) ≡ true
        → url_check (n ∷ cidrs) url
          ≡ (if is_empty host then some no_host else host_check (n ∷ cidrs) host)
    unfolding check_url
    url_http scheme host e f = rw (e, f, check_url) refl

    check_url→Permitted :
        url_check (n ∷ cidrs) url ≡ none → Permitted (Listed ip_address in_network (n ∷ cidrs)) url
    check_url→Permitted h = elim (Option-cases (urlparse url)) [
      | inl bad ↦ absurd (let e = url_bad bad in cc (e, h))
      | inr ((scheme, host), parsed) ↦
          elim (Bool-cases (text_eq scheme (codes "http") || text_eq scheme (codes "https"))) [
            | inr other ↦ absurd (let e = url_other scheme host parsed other in cc (e, h))
            | inl http ↦
                named scheme host parsed http (is_empty host) refl
                  (sym (url_http scheme host parsed http) ∙ h)
          ]
    ]
      where
        known :
            (scheme host : Text) (found : List Text)
            → urlparse url ≡ some (scheme, host)
            → (text_eq scheme (codes "http") || text_eq scheme (codes "https")) ≡ true
            → is_empty host ≡ false
            → ips_of host ≡ some found
            → (elim found [
              | [] ↦ some (unresolvable host)
              | a ∷ rest ↦ ips_check (n ∷ cidrs) host (a ∷ rest)
            ])
              ≡ none
            → Permitted (Listed ip_address in_network (n ∷ cidrs)) url
        known scheme host [] parsed http given e k = absurd (cc k)
        known scheme host (a ∷ ips) parsed http given e k = (
          scheme,
          host,
          a,
          ips,
          parsed,
          http,
          given,
          ips_of→Resolves host (a ∷ ips) e,
          check_ips→Listed (n ∷ cidrs) host (a ∷ ips) k,
        )

        named :
            (scheme host : Text)
            → urlparse url ≡ some (scheme, host)
            → (text_eq scheme (codes "http") || text_eq scheme (codes "https")) ≡ true
            → (b : Bool) → is_empty host ≡ b
            → (if b then some no_host else host_check (n ∷ cidrs) host) ≡ none
            → Permitted (Listed ip_address in_network (n ∷ cidrs)) url
        named scheme host parsed http true given k = absurd (cc k)
        named scheme host parsed http false given k = elim (Option-cases (ips_of host)) [
          | inl unknown ↦ absurd (let e = host_unknown (n ∷ cidrs) host unknown in cc (e, k))
          | inr (found, e) ↦
              known scheme host found parsed http given e
                (sym (host_known (n ∷ cidrs) host found e) ∙ k)
        ]

    Permitted→check_url :
        Permitted (Listed ip_address in_network (n ∷ cidrs)) url → url_check (n ∷ cidrs) url ≡ none
    Permitted→check_url (scheme, host, a, ips, parsed, http, given, e, listed) =
        url_http scheme host parsed http
        ∙ rw given (
            host_known (n ∷ cidrs) host (a ∷ ips) (Resolves→ips_of host (a ∷ ips) e)
            ∙ Listed→check_ips (n ∷ cidrs) host (a ∷ ips) listed)

  pub check_url-Permitted :
      (cidrs : List N) (url : Text)
      → (url_check cidrs url ≡ none)
        ↔ ((cidrs ≡ []) ⊎ Permitted (Listed ip_address in_network cidrs) url)
  check_url-Permitted [] url = (λ h. inl refl, λ h. off url)
  check_url-Permitted (n ∷ cidrs) url = (
    λ h. inr (check_url→Permitted n cidrs url h),
    λ h. elim h [ inl e ↦ absurd (cc e) | inr p ↦ Permitted→check_url n cidrs url p ],
  )
