-- ===== src/Auth/Tests.antt =====
-- Runs of the request guard on small inputs.
use proto_trader.Prelude.{
  ◌≡◌, ◌≢◌, refl, inr, inl, Text, codes, strip, lower, lstrip, is_space, split, starts_with,
  text_eq, mem_text, Option, none, some, [], ◌∷◌, ◌++◌,
}
use proto_trader.Auth.{
  Guard, Request, forwarded, unauthorized, forbidden, raised, bad_key, no_bearer, bad_bearer,
  bearer_prefix, or_none, seed, parse_origins, configure, compare_digest, check_header,
  header_or_empty, dispatch,
}
use proto_trader.Auth.Access.{
  IsGuarded, KeyFits, BearerFits, OriginFits, dispatch→fits, fits→dispatch, configure_token,
  dispatch_non_ascii,
}

abbrev request : Text → Option Text → Option Text → Option Text → Request
request path key authorization origin = record {
  path = path;
  x_api_key = key;
  authorization = authorization;
  origin = origin;
}

abbrev locked : Guard
locked = record {
  bearer = some (codes "s3cret");
  api_key = codes "key";
  allowed_origins = some (codes "https://a.example" ∷ []);
}

abbrev good : Request
good =
    request (codes "/a2a") (some (codes "key")) (some (codes "Bearer s3cret"))
      (some (codes "https://A.example"))

program : Unit {0}
unfolding dispatch starts_with text_eq mem_text lower compare_digest check_header header_or_empty
    configure seed or_none parse_origins strip lstrip is_space split
program = tt

dispatch-good : dispatch locked good ≡ forwarded
unfolding program
dispatch-good = refl

dispatch_runs :
    (dispatch locked (request (codes "/healthz") none none none) ≡ forwarded)
    × (dispatch locked (request (codes "/api/events") none none none) ≡ forwarded)
    × (dispatch locked (request (codes "/v1/x") none none none) ≡ unauthorized bad_key)
    × (dispatch locked (record good { authorization = some (codes "Basic s3cret") })
        ≡ unauthorized no_bearer)
    × (dispatch locked (record good { authorization = some (codes "Bearer nope") })
        ≡ unauthorized bad_bearer)
    × (dispatch locked (record good { origin = some (codes "https://b.example") }) ≡ forbidden)
    × (dispatch locked (record good { authorization = some (bearer_prefix ++ 233 ∷ []) }) ≡ raised)
unfolding program
dispatch_runs = (refl, refl, refl, refl, refl, refl, refl)

configure_runs : configure [] none [] (codes " https://A.example, ,https://b.example ") ≡ record {
  bearer = none;
  api_key = [];
  allowed_origins = some (codes "https://a.example" ∷ codes "https://b.example" ∷ []);
}
unfolding program
configure_runs = refl

good-IsGuarded : IsGuarded good
unfolding program
good-IsGuarded = record { covered = refl; not_exempt = refl }

dispatch→fits_example :
    KeyFits (codes "key") (some (codes "key"))
    × BearerFits (some (codes "s3cret")) (some (codes "Bearer s3cret"))
    × OriginFits (some (codes "https://a.example" ∷ [])) (some (codes "https://A.example"))
dispatch→fits_example = dispatch→fits locked good good-IsGuarded dispatch-good

fits→dispatch_example : dispatch locked good ≡ forwarded
unfolding program
fits→dispatch_example = fits→dispatch locked good refl (inr refl) (inr refl) (inl refl)

configure_token_example : good.authorization ≡ some (bearer_prefix ++ strip (codes " s3cret "))
unfolding program
configure_token_example =
    configure_token [] (codes " s3cret ") (codes "key") [] good (λ e. cc e) good-IsGuarded refl

dispatch_non_ascii_example : dispatch (record locked { bearer = some (233 ∷ []) }) good ≢ forwarded
dispatch_non_ascii_example =
    dispatch_non_ascii (record locked { bearer = some (233 ∷ []) }) good (233 ∷ []) good-IsGuarded
      refl (λ e. cc e) refl
