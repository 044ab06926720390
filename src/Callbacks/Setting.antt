-- ===== src/Callbacks/Setting.antt =====
-- security.py: which URLs `check_url` passes under a setting.
use proto_trader.Prelude.{
  ◌≡◌, refl, inl, inr, sym, ap, ◌∙◌, ◌↔◌, ◌⊎◌, Text, is_empty, strip, Has, Bool, true, false, ◌||◌,
  arith, Option, none, some, List, [], ◌∷◌, any, All, Bool-cases, Option-cases, subst,
}
use proto_trader.Callbacks.{set_callback_allowlist, check_url}
use proto_trader.Callbacks.Permit.{Listed, Permitted, Permitted-map, check_url-Permitted}

module _ {N : Type 0} (ip_network : Text → Option N) where
  -- An entry of the setting that is a network.
  abbrev pub Reads : Text → N → Type 0
  Reads c n = (is_empty (strip c) ≡ false) × (ip_network (strip c) ≡ some n)

  -- Every entry of the setting is blank or no network.
  abbrev pub Unset : List Text → Type 0
  Unset = All (λ c. (is_empty (strip c) ≡ true) ⊎ (ip_network (strip c) ≡ none))

  abbrev networks : List Text → List N
  networks = set_callback_allowlist ip_network

  left_out :
      (c : Text) (config : List Text)
      → (is_empty (strip c) ≡ true) ⊎ (ip_network (strip c) ≡ none)
      → networks (c ∷ config) ≡ networks config
  unfolding set_callback_allowlist
  left_out c config (inl blank) = rw (blank, set_callback_allowlist) refl
  left_out c config (inr bad) = elim (Bool-cases (is_empty (strip c))) [
    | inl blank ↦ rw (blank, set_callback_allowlist) refl
    | inr given ↦ rw (given, bad, set_callback_allowlist) refl
  ]

  taken :
      (c : Text) (config : List Text) (n : N)
      → Reads c n
      → networks (c ∷ config) ≡ n ∷ networks config
  unfolding set_callback_allowlist
  taken c config n (given, e) = rw (given, e, set_callback_allowlist) refl

  entry-cases :
      (c : Text)
      → ((is_empty (strip c) ≡ true) ⊎ (ip_network (strip c) ≡ none)) ⊎ ((n : N) × Reads c n)
  entry-cases c = elim (Bool-cases (is_empty (strip c))) [
    | inl blank ↦ inl (inl blank)
    | inr given ↦ elim (Option-cases (ip_network (strip c))) [
      | inl bad ↦ inl (inr bad)
      | inr (n, e) ↦ inr (n, (given, e))
    ]
  ]

  Reads-not :
      (c : Text) (n : N)
      → Reads c n
      → ¬ ((is_empty (strip c) ≡ true) ⊎ (ip_network (strip c) ≡ none))
  Reads-not c n (given, e) (inl blank) = cc (given, blank)
  Reads-not c n (given, e) (inr bad) = cc (e, bad)

  networks→Unset : (config : List Text) → networks config ≡ [] → Unset config
  networks→Unset [] h = tt
  networks→Unset (c ∷ config) h = elim (entry-cases c) [
    | inl out ↦ (out, networks→Unset config (sym (left_out c config out) ∙ h))
    | inr (n, reads) ↦ absurd (let e = taken c config n reads in cc (e, h))
  ]

  Unset→networks : (config : List Text) → Unset config → networks config ≡ []
  unfolding set_callback_allowlist
  Unset→networks [] h = refl
  Unset→networks (c ∷ config) (out, h) = left_out c config out ∙ Unset→networks config h

module _ {N A : Type 0} (ip_network : Text → Option N) (ip_address : Text → Option A)
    (in_network : A → N → Bool) where
  -- An address that lies in the network of an entry of the setting.
  abbrev pub Within : List Text → Text → Type 0
  Within config addr =
      (ip : A) × (c : Text) × (n : N) × (ip_address addr ≡ some ip)
      × Has c config
      × Reads ip_network c n
      × (in_network ip n ≡ true)

  -- The address lies in the network of some entry.
  abbrev Covers : List Text → A → Type 0
  Covers config ip =
      (c : Text) × (n : N) × Has c config × Reads ip_network c n × (in_network ip n ≡ true)

  abbrev in_any : A → List Text → Bool
  in_any ip config = any (in_network ip) (set_callback_allowlist ip_network config)

  Covers-cons : (ip : A) (c : Text) (config : List Text) → Covers config ip → Covers (c ∷ config) ip
  Covers-cons ip c config (d, n, has, reads, e) = (d, n, inr has, reads, e)

  taken_in :
      (ip : A) (c : Text) (config : List Text) (n : N)
      → Reads ip_network c n
      → in_any ip (c ∷ config) ≡ (in_network ip n || in_any ip config)
  taken_in ip c config n reads = ap (any (in_network ip)) (taken ip_network c config n reads)

  out_in :
      (ip : A) (c : Text) (config : List Text)
      → (is_empty (strip c) ≡ true) ⊎ (ip_network (strip c) ≡ none)
      → in_any ip (c ∷ config) ≡ in_any ip config
  out_in ip c config out = ap (any (in_network ip)) (left_out ip_network c config out)

  any→Covers : (ip : A) (config : List Text) → in_any ip config ≡ true → Covers config ip
  unfolding set_callback_allowlist
  any→Covers ip [] h = absurd (cc h)
  any→Covers ip (c ∷ config) h = elim (entry-cases ip_network c) [
    | inl out ↦ Covers-cons ip c config (any→Covers ip config (sym (out_in ip c config out) ∙ h))
    | inr (n, reads) ↦ elim (Bool-cases (in_network ip n)) [
      | inl inside ↦ (c, n, inl refl, reads, inside)
      | inr outside ↦
          Covers-cons ip c config
            (any→Covers ip config (ground (arith, taken_in ip c config n reads, h, outside)))
    ]
  ]

  Covers→any :
      (ip : A) (config : List Text) (d : Text) (m : N)
      → Has d config
      → Reads ip_network d m
      → in_network ip m ≡ true
      → in_any ip config ≡ true
  Covers→any ip [] d m has reads inside = absurd has
  Covers→any ip (c ∷ config) d m (inl e) reads inside =
      taken_in ip c config m (subst (λ x. Reads ip_network x m) e reads) ∙ rw inside refl
  Covers→any ip (c ∷ config) d m (inr has) reads inside = elim (entry-cases ip_network c) [
    | inl out ↦ out_in ip c config out ∙ Covers→any ip config d m has reads inside
    | inr (n, taken) ↦
        ground (arith, taken_in ip c config n taken, Covers→any ip config d m has reads inside)
  ]

  Listed→Within :
      (config : List Text) (addr : Text)
      → Listed ip_address in_network (set_callback_allowlist ip_network config) addr
      → Within config addr
  Listed→Within config addr (ip, parsed, inside) =
      let (c, n, has, reads, e) = any→Covers ip config inside in (ip, c, n, parsed, has, reads, e)

  Within→Listed :
      (config : List Text) (addr : Text)
      → Within config addr
      → Listed ip_address in_network (set_callback_allowlist ip_network config) addr
  Within→Listed config addr (ip, c, n, parsed, has, reads, e) =
      (ip, parsed, Covers→any ip config c n has reads e)

-- After a setting, `check_url` gives no error for a URL if and only if every entry of the setting is
-- blank or no network, so that the allowlist is off, or the URL is an HTTP one with a host that has
-- addresses, each of which lies in the network of some entry of the setting, wherever in it that entry
-- stands and whatever the other entries are.
pub check_url-set_callback_allowlist :
    {N A : Type 0} (ip_network : Text → Option N) (ip_address : Text → Option A)
    (in_network : A → N → Bool) (getaddrinfo : Text → Option (List Text))
    (urlparse : Text → Option (Text × Text)) (config : List Text) (url : Text)
    → (check_url ip_address in_network getaddrinfo urlparse
          (set_callback_allowlist ip_network config)
          url
        ≡ none)
      ↔ (Unset ip_network config
          ⊎ Permitted ip_address in_network getaddrinfo urlparse
              (Within ip_network ip_address in_network config)
              url)
check_url-set_callback_allowlist ip_network ip_address in_network getaddrinfo urlparse config url =
    let networks = set_callback_allowlist ip_network config in
    let inside = Listed ip_address in_network networks in
    let (to, from) = check_url-Permitted ip_address in_network getaddrinfo urlparse networks url in
    (
      λ h. elim (to h) [
        | inl off ↦ inl (networks→Unset ip_network config off)
        | inr p ↦ inr (
            Permitted-map ip_address in_network getaddrinfo urlparse inside
              (Within ip_network ip_address in_network config) url
              (Listed→Within ip_network ip_address in_network config) p)
      ],
      λ h. elim h [
        | inl off ↦ from (inl (Unset→networks ip_network config off))
        | inr p ↦ from (
            inr (
              Permitted-map ip_address in_network getaddrinfo urlparse
                (Within ip_network ip_address in_network config) inside url
                (Within→Listed ip_network ip_address in_network config) p))
      ],
    )
