-- ===== src/Callbacks.antt =====
-- security.py: the allowlist of outbound callbacks. Networks and addresses with their parsers, whether an
-- address is in a network, the look-up of a host, and the scheme and host of a URL (`none` where parsing
-- raises) are arguments.
pub mod Permit
pub mod Setting
mod Tests
use proto_trader.Prelude.{
  Text, codes, text_eq, is_empty, strip, Bool, not, ◌||◌, Option, none, some, List, [], ◌∷◌, any,
  if◌then◌else◌,
}

pub data Refusal : Type 0 where
  malformed_url not_http no_host : Refusal
  unresolvable : Text → Refusal
  unparseable not_in_allowlist : (host addr : Text) → Refusal

module _ {N : Type 0} (ip_network : Text → Option N) where
  -- `set_callback_allowlist`: what is blank or no network is left out.
  unfoldable pub set_callback_allowlist : List Text → List N
  set_callback_allowlist [] = []
  set_callback_allowlist (c ∷ cidrs) =
      let rest = set_callback_allowlist cidrs in
      if is_empty (strip c)
      then rest
      else elim (ip_network (strip c)) [ none ↦ rest | some n ↦ n ∷ rest ]

module _ {N A : Type 0} (ip_address : Text → Option A) (in_network : A → N → Bool)
    (getaddrinfo : Text → Option (List Text)) (urlparse : Text → Option (Text × Text)) where
  -- `_resolve_ips`.
  unfoldable pub resolve_ips : Text → Option (List Text)
  resolve_ips host = elim (ip_address host) [ some ip ↦ some (host ∷ []) | none ↦ getaddrinfo host ]

  -- The loop over the addresses.
  unfoldable pub check_ips : List N → Text → List Text → Option Refusal
  check_ips cidrs host [] = none
  check_ips cidrs host (addr ∷ ips) =
      let rest = check_ips cidrs host ips in
      elim (ip_address addr) [
        | none ↦ some (unparseable host addr)
        | some ip ↦ if any (in_network ip) cidrs then rest else some (not_in_allowlist host addr)
      ]

  unfoldable pub check_host : List N → Text → Option Refusal
  unfolding resolve_ips check_ips
  check_host cidrs host = elim (resolve_ips host) [
    | none ↦ some (unresolvable host)
    | some ips ↦ elim ips [
      | [] ↦ some (unresolvable host)
      | a ∷ rest ↦ check_ips cidrs host (a ∷ rest)
    ]
  ]

  -- `check_url`; `none` is that it finds no error, which with no networks is the case for every URL: then
  -- `is_safe_webhook_url` of a2a_stores.py has its own test of a callback. A URL without a host has an empty one.
  unfoldable pub check_url : List N → Text → Option Refusal
  unfolding check_host
  check_url [] url = none
  check_url (n ∷ cidrs) url = elim (urlparse url) [
    | none ↦ some malformed_url
    | some (scheme, host) ↦
        if not (text_eq scheme (codes "http") || text_eq scheme (codes "https"))
        then some not_http
        else if is_empty host
        then some no_host
        else check_host (n ∷ cidrs) host
  ]
