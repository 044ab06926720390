-- ===== src/Egress/Tests.antt =====
-- egress.py on an allowlist with a wildcard, and without one.
use proto_trader.Prelude.{
  Text, codes, text_eq, is_empty, strip, lower, starts_with, ends_with, false, Option, none, some,
  List, [], ◌∷◌, ◌≡◌, ◌↔◌, refl, if◌then◌else◌,
}
use proto_trader.Egress.{
  Address, internal, global, no_host, not_allowed, unresolvable, internal_address,
  set_allowed_hosts, host_matches, host_allowed, first_blocked, blocked_ip, check_host, check_url,
}
use proto_trader.Egress.Allow.{Permitted, check_url_iff}

-- The host is the URL; "bad" is no URL and "none" has no host.
abbrev hostname : Text → Option (Option Text)
hostname url =
    if text_eq url (codes "bad")
    then none
    else if text_eq url (codes "none")
    then some none
    else some (some url)

abbrev address : Text → Option Address
address a =
    if text_eq a (codes "10.0.0.1")
    then some internal
    else if text_eq a (codes "9.9.9.9")
    then some global
    else none

abbrev resolve : Text → Option (List Text)
resolve host =
    if text_eq host (codes "x.org")
    then some (codes "9.9.9.9" ∷ [])
    else if text_eq host (codes "in.org")
    then some (codes "9.9.9.9" ∷ codes "10.0.0.1" ∷ [])
    else none

program : Unit {0}
unfolding set_allowed_hosts host_matches host_allowed first_blocked blocked_ip check_host check_url
    strip lower starts_with ends_with text_eq
program = tt

abbrev allowed : List Text
allowed = set_allowed_hosts (codes " *.Example.com" ∷ codes " " ∷ codes "a.org" ∷ [])

check_url_runs :
    (check_url address resolve hostname allowed (codes "API.example.com") ≡ none)
    × (check_url address resolve hostname allowed (codes "example.com") ≡ none)
    × (check_url address resolve hostname allowed (codes "notexample.com")
        ≡ some (not_allowed (codes "notexample.com")))
    × (check_url address resolve hostname [] (codes "x.org") ≡ none)
    × (check_url address resolve hostname [] (codes "in.org")
        ≡ some (internal_address (codes "in.org") (codes "10.0.0.1")))
    × (check_url address resolve hostname [] (codes "10.0.0.1")
        ≡ some (internal_address (codes "10.0.0.1") (codes "10.0.0.1")))
    × (check_url address resolve hostname [] (codes "y.org") ≡ some (unresolvable (codes "y.org")))
    × (check_url address resolve hostname [] (codes "none") ≡ some no_host)
unfolding program
check_url_runs = (refl, refl, refl, refl, refl, refl, refl, refl)

check_url_iff_example : (check_url address resolve hostname [] (codes "x.org") ≡ none) ↔ (
    (host : Text) × (hostname (codes "x.org") ≡ some (some host))
    × ((is_empty (lower host) ≡ false) × Permitted address resolve [] (lower host)))
check_url_iff_example = check_url_iff address resolve hostname [] (codes "x.org")
