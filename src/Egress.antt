-- ===== src/Egress.antt =====
-- egress.py: the guard of outbound requests. Taking the host out of a URL (`hostname`, `none` where
-- parsing raises), telling what kind of address a text is (`address`, `none` where it is none) and
-- looking a host up (`resolve`, `none` where it fails) are arguments.
pub mod Allow
mod Tests
use proto_trader.Prelude.{
  Text, codes, text_eq, is_empty, strip, lower, starts_with, ends_with, Bool, true, false, ◌||◌,
  Option, none, some, List, [], ◌∷◌, drop, any, if◌then◌else◌,
}

-- The test of an address: it is loopback, link-local, private, multicast, reserved or unspecified, or
-- may be reached.
pub data Address : Type 0 where
  internal global : Address

pub data Refusal : Type 0 where
  malformed_url no_host : Refusal
  not_allowed unresolvable : Text → Refusal
  internal_address : Text → Text → Refusal

-- `set_allowed_hosts`.
unfoldable pub set_allowed_hosts : List Text → List Text
unfolding strip lower
set_allowed_hosts [] = []
set_allowed_hosts (h ∷ hosts) =
    let rest = set_allowed_hosts hosts in
    if is_empty (strip h) then rest else lower (strip h) ∷ rest

-- The loop's test of one pattern.
unfoldable pub host_matches : Text → Text → Bool
unfolding starts_with ends_with text_eq
host_matches host pat =
    if starts_with pat (codes "*.")
    then text_eq host (drop 2 pat) || ends_with host (drop 1 pat)
    else text_eq host pat

-- `_host_allowed`.
unfoldable pub host_allowed : List Text → Text → Bool
host_allowed allowed host =
    if is_empty (lower host) then false else any (host_matches (lower host)) allowed

module _ (address : Text → Option Address) (resolve : Text → Option (List Text)) where
  -- The loop over the candidates: the first that is no address or an internal one.
  unfoldable pub first_blocked : List Text → Option Text
  first_blocked [] = none
  first_blocked (a ∷ addresses) = elim (address a) [
    | none ↦ some a
    | some internal ↦ some a
    | some global ↦ first_blocked addresses
  ]

  pub data Blocked : Type 0 where
    passes lookup_failed : Blocked
    blocked : Text → Blocked

  abbrev pub verdict : Option Text → Blocked
  verdict none = passes
  verdict (some a) = blocked a

  -- `_blocked_ip`; `lookup_failed` is its answer "unresolvable".
  unfoldable pub blocked_ip : Text → Blocked
  blocked_ip host = elim (address host) [
    | some kind ↦ verdict (first_blocked (host ∷ []))
    | none ↦ elim (resolve host) [
      | none ↦ lookup_failed
      | some found ↦ verdict (first_blocked found)
    ]
  ]

  -- `check_url` for a host; `none` is that the request may go out.
  unfoldable pub check_host : List Text → Text → Option Refusal
  check_host [] host = elim (blocked_ip host) [
    | passes ↦ none
    | lookup_failed ↦ some (unresolvable host)
    | blocked a ↦ some (internal_address host a)
  ]
  check_host (pat ∷ allowed) host =
      if host_allowed (pat ∷ allowed) host then none else some (not_allowed host)

  unfoldable pub check_url : (Text → Option (Option Text)) → List Text → Text → Option Refusal
  check_url hostname allowed url = elim (hostname url) [
    | none ↦ some malformed_url
    | some none ↦ some no_host
    | some (some host) ↦
        if is_empty (lower host) then some no_host else check_host allowed (lower host)
  ]
