-- ===== src/Callbacks/Tests.antt =====
-- security.py on small inputs: a network or an address is told by its first digit.
use proto_trader.Prelude.{
  ℕ, ◌≡◌, ◌↔◌, ◌⊎◌, refl, Text, codes, text_eq, strip, lstrip, is_space, Bool, Option, none, some,
  List, [], ◌∷◌, leb, ◌==◌, ◌&&◌, if◌then◌else◌,
}
use proto_trader.Callbacks.{
  Refusal, not_in_allowlist, unresolvable, malformed_url, not_http, set_callback_allowlist,
  resolve_ips, check_ips, check_host, check_url,
}
use proto_trader.Callbacks.Permit.{Permitted}
use proto_trader.Callbacks.Setting.{Unset, Within, check_url-set_callback_allowlist}

abbrev digit : Text → Option ℕ
digit [] = none
digit (c ∷ s) = if leb 48 c && leb c 57 then some c else none

abbrev same : ℕ → ℕ → Bool
same m n = m == n

abbrev look_up : Text → Option (List Text)
look_up host = if text_eq host (codes "peer") then some (codes "10.1" ∷ codes "20.1" ∷ []) else none

abbrev parse : Text → Option (Text × Text)
parse [] = none
parse (c ∷ url) = some ((if c == 33 then codes "ftp" else codes "http"), url)

program : Unit {0}
unfolding set_callback_allowlist resolve_ips check_ips check_host check_url text_eq strip lstrip
    is_space
program = tt

abbrev check : List Text → Text → Option Refusal
check config url = check_url digit same look_up parse (set_callback_allowlist digit config) url

check_runs :
    (check (codes " 1.0/8 " ∷ codes "2.0/8" ∷ []) (codes "/peer") ≡ none)
    × (check (codes "1.0/8" ∷ codes "bad" ∷ []) (codes "/peer")
        ≡ some (not_in_allowlist (codes "peer") (codes "20.1")))
    × (check (codes "1.0/8" ∷ []) (codes "/12.0") ≡ none)
    × (check (codes "1.0/8" ∷ []) (codes "/other") ≡ some (unresolvable (codes "other")))
    × (check (codes "1.0/8" ∷ []) (codes "!peer") ≡ some not_http)
    × (check (codes "1.0/8" ∷ []) [] ≡ some malformed_url)
unfolding program
check_runs = (refl, refl, refl, refl, refl, refl)

-- With a setting in which nothing can be read, the check finds no error in any URL.
misread_run : check (codes "bad" ∷ codes "  " ∷ []) (codes "!anywhere") ≡ none
unfolding program
misread_run = refl

-- The entry that cannot be read stands before the one that covers the address.
check_url-set_callback_allowlist_example :
    (check (codes "bad" ∷ codes " 1.0/8" ∷ []) (codes "/12.0") ≡ none) ↔ (
      Unset digit (codes "bad" ∷ codes " 1.0/8" ∷ [])
      ⊎ Permitted digit same look_up parse
          (Within digit digit same (codes "bad" ∷ codes " 1.0/8" ∷ []))
          (codes "/12.0"))
check_url-set_callback_allowlist_example =
    check_url-set_callback_allowlist digit digit same look_up parse
      (codes "bad" ∷ codes " 1.0/8" ∷ []) (codes "/12.0")
