-- ===== src/Auth.antt =====
-- a2a_auth.py: the request guard. The three module-level holders are the fields of `Guard`. A
-- request holds its path and the three headers that the guard reads (header names are matched
-- without case by the web framework); the response is the guard's own, or the next handler's.
pub mod Access
mod Tests
use proto_trader.Prelude.{
  ℕ, Text, codes, strip, lower, split, starts_with, text_eq, mem_text, is_empty, Bool, true, false,
  not, ◌&&◌, Option, none, some, List, [], ◌∷◌, map, keep, any, all, ltb, drop, if◌then◌else◌,
}

pub record Guard : Type 0 where
  pub bearer : Option Text
  pub api_key : Text
  pub allowed_origins : Option (List Text)

pub record Request : Type 0 where
  pub path : Text
  pub x_api_key : Option Text
  pub authorization : Option Text
  pub origin : Option Text

pub data Detail : Type 0 where
  bad_key no_bearer bad_bearer : Detail

-- `raised` is an exception on the way, which the framework turns into a server error.
pub data Answer : Type 0 where
  forwarded : Answer
  unauthorized : Detail → Answer
  forbidden raised : Answer

abbrev pub guarded_prefixes : List Text
guarded_prefixes = codes "/a2a" ∷ codes "/api/" ∷ codes "/v1/" ∷ []

abbrev pub guard_exempt : List Text
guard_exempt = codes "/api/events" ∷ []

abbrev pub bearer_prefix : Text
bearer_prefix = codes "Bearer "

-- `x or None` on a text.
unfoldable pub or_none : Text → Option Text
or_none s = if is_empty s then none else some s

unfoldable pub set_bearer_token : Option Text → Guard → Guard
unfolding or_none strip
set_bearer_token none g = record g { bearer = none }
set_bearer_token (some token) g = record g { bearer = or_none (strip token) }

unfoldable pub seed : Option Text → Text → Option Text
unfolding or_none strip
seed none env_token = or_none (strip env_token)
seed (some token) env_token = or_none (strip token)

unfoldable pub parse_origins : Text → Option (List Text)
unfolding strip split lower
parse_origins raw =
    if is_empty (strip raw)
    then none
    else if text_eq (strip raw) (codes "*")
    then none
    else some
        (map (λ o. lower (strip o)) (keep (λ o. not (is_empty (strip o))) (split b',' (strip raw))))

-- `configure`; `env_token` is `A2A_AUTH_TOKEN`, empty when unset.
unfoldable pub configure : Text → Option Text → Text → Text → Guard
unfolding seed parse_origins
configure env_token bearer_token api_key allowed_origins_raw = record {
  bearer = seed bearer_token env_token;
  api_key = api_key;
  allowed_origins = parse_origins allowed_origins_raw;
}

abbrev pub is_ascii : Text → Bool
is_ascii = all (λ c. ltb c 128)

-- `hmac.compare_digest` on two `str`: it raises on a character that is not ASCII.
unfoldable pub compare_digest : Text → Text → Option Bool
compare_digest a b = if is_ascii a && is_ascii b then some (text_eq a b) else none

unfoldable pub check_key : Guard → Request → Bool
check_key g r =
    if is_empty g.api_key
    then true
    else elim r.x_api_key [ none ↦ false | some k ↦ text_eq k g.api_key ]

-- The bearer block: `none` when the request may go on.
unfoldable pub check_header : Text → Text → Option Answer
check_header active header =
    if starts_with header bearer_prefix
    then elim (compare_digest (drop 7 header) active) [
      | none ↦ some raised
      | some true ↦ none
      | some false ↦ some (unauthorized bad_bearer)
    ]
    else some (unauthorized no_bearer)

unfoldable pub header_or_empty : Option Text → Text
header_or_empty none = []
header_or_empty (some header) = header

unfoldable pub check_bearer : Option Text → Request → Option Answer
unfolding check_header header_or_empty
check_bearer none r = none
check_bearer (some active) r =
    if is_empty active then none else check_header active (header_or_empty r.authorization)

unfoldable pub check_origin : Option (List Text) → Option Text → Bool
check_origin none origin = true
check_origin (some allowed) none = true
check_origin (some allowed) (some origin) = mem_text (lower origin) allowed

unfoldable pub dispatch : Guard → Request → Answer
unfolding check_key check_bearer check_origin
dispatch g r =
    if not (any (starts_with r.path) guarded_prefixes)
    then forwarded
    else if any (starts_with r.path) guard_exempt
    then forwarded
    else if not (check_key g r)
    then unauthorized bad_key
    else elim (check_bearer g.bearer r) [
      | some refused ↦ refused
      | none ↦ if check_origin g.allowed_origins r.origin then forwarded else forbidden
    ]
