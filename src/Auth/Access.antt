-- ===== src/Auth/Access.antt =====
-- a2a_auth.py: which requests the guard lets through.
use proto_trader.Prelude.{
  ◌≡◌, ◌≢◌, ◌⊎◌, ◌∙◌, ap, refl, inl, inr, Text, strip, lower, starts_with, text_eq, text_eq_iff,
  text_eq_refl, starts_with-append, starts_with→append, mem_text_iff, Has, is_empty, true, false,
  Option, none, some, List, [], ◌∷◌, ◌++◌, any, drop, arith, if◌then◌else◌, Bool-cases,
}
use proto_trader.Auth.{
  Guard, Request, forwarded, guarded_prefixes, guard_exempt, bearer_prefix, or_none, seed,
  parse_origins, configure, is_ascii, compare_digest, check_key, check_header, header_or_empty,
  check_bearer, check_origin, dispatch,
}

-- The path stands under a guarded prefix, and not under the exempt one.
pub record IsGuarded (r : Request) : Type 0 where
  pub covered : any (starts_with r.path) guarded_prefixes ≡ true
  pub not_exempt : any (starts_with r.path) guard_exempt ≡ false

-- The key check is off, or the header is the key.
abbrev pub KeyFits : Text → Option Text → Type 0
KeyFits key header = (key ≡ []) ⊎ (header ≡ some key)

-- Bearer is off, or the header is `Bearer ` and the token.
abbrev pub BearerFits : Option Text → Option Text → Type 0
BearerFits none header = Unit
BearerFits (some token) header = (token ≡ []) ⊎ (header ≡ some (bearer_prefix ++ token))

-- There is no allowlist, or no `Origin` header, or the origin is on the list.
abbrev pub OriginFits : Option (List Text) → Option Text → Type 0
OriginFits none origin = Unit
OriginFits (some allowed) none = Unit
OriginFits (some allowed) (some origin) = Has (lower origin) allowed

check_key→KeyFits : (g : Guard) (r : Request) → check_key g r ≡ true → KeyFits g.api_key r.x_api_key
unfolding check_key
check_key→KeyFits g r h = go g.api_key r.x_api_key h
  where
    go :
        (key : Text) (header : Option Text)
        → (if is_empty key then true else elim header [ none ↦ false | some k ↦ text_eq k key ])
          ≡ true
        → KeyFits key header
    go [] header e = inl refl
    go (c ∷ key) none e = cc
    go (c ∷ key) (some k) e = inr (ap some ((text_eq_iff k (c ∷ key)).0 e))

check_header→eq :
    (active header : Text) → check_header active header ≡ none → header ≡ bearer_prefix ++ active
unfolding check_header compare_digest
check_header→eq active header h = elim (Bool-cases (starts_with header bearer_prefix)) [
  | inl begins ↦
      starts_with→append header bearer_prefix begins
      ∙ ap (λ (t : Text). bearer_prefix ++ t)
          (ground (arith, begins, h, text_eq_iff (drop 7 header) active))
  | inr other ↦ ground (arith, other, h)
]

header→eq :
    (active : Text) (header : Option Text)
    → check_header active (header_or_empty header) ≡ none
    → header ≡ some (bearer_prefix ++ active)
unfolding header_or_empty check_header starts_with
header→eq active none h = cc
header→eq active (some header) h = ap some (check_header→eq active header h)

check_bearer→BearerFits :
    (bearer : Option Text) (r : Request)
    → check_bearer bearer r ≡ none
    → BearerFits bearer r.authorization
unfolding check_bearer header_or_empty
check_bearer→BearerFits none r h = tt
check_bearer→BearerFits (some []) r h = inl refl
check_bearer→BearerFits (some (c ∷ token)) r h = inr (header→eq (c ∷ token) r.authorization h)

check_origin→OriginFits :
    (allowed : Option (List Text)) (origin : Option Text)
    → check_origin allowed origin ≡ true
    → OriginFits allowed origin
unfolding check_origin
check_origin→OriginFits none origin h = tt
check_origin→OriginFits (some allowed) none h = tt
check_origin→OriginFits (some allowed) (some origin) h = (mem_text_iff (lower origin) allowed).0 h

-- A guarded request is let through only if the key, the bearer token and the origin all fit.
pub dispatch→fits :
    (g : Guard) (r : Request)
    → IsGuarded r
    → dispatch g r ≡ forwarded
    → KeyFits g.api_key r.x_api_key
      × BearerFits g.bearer r.authorization
      × OriginFits g.allowed_origins r.origin
unfolding dispatch
dispatch→fits g r guarded h = (
  check_key→KeyFits g r (ground (arith, guarded.covered, guarded.not_exempt, h)),
  check_bearer→BearerFits g.bearer r (ground (arith, guarded.covered, guarded.not_exempt, h)),
  check_origin→OriginFits g.allowed_origins r.origin
      (ground (arith, guarded.covered, guarded.not_exempt, h)),
)

-- A token that `hmac.compare_digest` can compare.
abbrev pub IsComparable : Option Text → Type 0
IsComparable none = Unit
IsComparable (some token) = is_ascii token ≡ true

KeyFits→check_key : (g : Guard) (r : Request) → KeyFits g.api_key r.x_api_key → check_key g r ≡ true
unfolding check_key
KeyFits→check_key g r (inl off) = rw off
KeyFits→check_key g r (inr same) = rw (same, check_key) (ground (arith, text_eq_refl g.api_key))

check_header_own :
    (token : Text) → is_ascii token ≡ true → check_header token (bearer_prefix ++ token) ≡ none
unfolding check_header compare_digest
check_header_own token ascii =
    ground (arith, ascii, starts_with-append bearer_prefix token, text_eq_refl token)

BearerFits→check_bearer :
    (bearer : Option Text) (r : Request)
    → IsComparable bearer
    → BearerFits bearer r.authorization
    → check_bearer bearer r ≡ none
unfolding check_bearer header_or_empty
BearerFits→check_bearer none r c f = refl
BearerFits→check_bearer (some token) r c (inl off) = rw off
BearerFits→check_bearer (some token) r c (inr same) =
    rw (same, check_bearer) (ground (arith, check_header_own token c))

OriginFits→check_origin :
    (allowed : Option (List Text)) (origin : Option Text)
    → OriginFits allowed origin
    → check_origin allowed origin ≡ true
unfolding check_origin
OriginFits→check_origin none origin f = refl
OriginFits→check_origin (some allowed) none f = refl
OriginFits→check_origin (some allowed) (some origin) f = (mem_text_iff (lower origin) allowed).1 f

-- A request whose key, bearer token and origin all fit is let through, if the configured token is
-- ASCII.
pub fits→dispatch :
    (g : Guard) (r : Request)
    → IsComparable g.bearer
    → KeyFits g.api_key r.x_api_key
    → BearerFits g.bearer r.authorization
    → OriginFits g.allowed_origins r.origin
    → dispatch g r ≡ forwarded
unfolding dispatch
fits→dispatch g r comparable key bearer origin = ground (
  arith,
  KeyFits→check_key g r key,
  BearerFits→check_bearer g.bearer r comparable bearer,
  OriginFits→check_origin g.allowed_origins r.origin origin,
)

BearerFits-or_none :
    (token : Text) (header : Option Text)
    → token ≢ []
    → BearerFits (or_none token) header
    → header ≡ some (bearer_prefix ++ token)
unfolding or_none
BearerFits-or_none [] header ne f = absurd (ne refl)
BearerFits-or_none (c ∷ token) header ne (inl e) = cc
BearerFits-or_none (c ∷ token) header ne (inr e) = e

-- With a configured token that is not blank, a guarded request is let through only if its
-- `Authorization` header is `Bearer ` and the stripped token, whatever the environment variable.
pub configure_token :
    (env_token token api_key origins : Text) (r : Request)
    → strip token ≢ []
    → IsGuarded r
    → dispatch (configure env_token (some token) api_key origins) r ≡ forwarded
    → r.authorization ≡ some (bearer_prefix ++ strip token)
unfolding configure seed
configure_token env_token token api_key origins r set guarded h =
    BearerFits-or_none (strip token) r.authorization set
      (dispatch→fits (configure env_token (some token) api_key origins) r guarded h).1

-- An explicitly empty token turns bearer off even where the environment variable is set: with no
-- key and no allowlist, every request is let through.
configure_off :
    (env_token : Text) (r : Request) → dispatch (configure env_token (some []) [] []) r ≡ forwarded
unfolding configure seed or_none parse_origins dispatch check_key check_bearer check_origin
configure_off env_token r = ground arith

check_header_non_ascii :
    (token header : Text) → is_ascii token ≡ false → check_header token header ≢ none
unfolding check_header compare_digest
check_header_non_ascii token header odd h = ground (arith, odd, h)

-- With a configured token that is not ASCII, no guarded request is let through, also with the right
-- token: `hmac.compare_digest` raises on it.
pub dispatch_non_ascii :
    (g : Guard) (r : Request) (token : Text)
    → IsGuarded r
    → g.bearer ≡ some token
    → token ≢ []
    → is_ascii token ≡ false
    → dispatch g r ≢ forwarded
unfolding dispatch check_bearer
dispatch_non_ascii g r [] guarded e set odd h = set refl
dispatch_non_ascii g r (c ∷ token) guarded e set odd h = ground (
  arith,
  guarded.covered,
  guarded.not_exempt,
  h,
  e,
  check_header_non_ascii (c ∷ token) (header_or_empty r.authorization) odd,
)
