-- ===== src/Auth/Verifier/Requests/Examples.antt =====
-- The decisions of src/auth/Auth.cpp for one key, one token and one library that accepts it.
use moqx.Base.{
  ℕ, ◌≡◌, ◌≤◌, ◌↔◌, refl, inl, List, [], ◌∷◌, none, some, true, false, leb, length, arith,
}
use moqx.Auth.Cbor.{ℤ, pos}
use moqx.Auth.Grants.{
  client_setup, Grants, allows_impl, allows_namespace, allows_any_namespace, scope_allows,
  rules_match,
}
use moqx.Auth.Tokens.{
  CompoundMatch, CatToken, CwtResult, Library, AuthToken, Parameter, grants_from_token,
}
use moqx.Auth.Verifier.{
  forbidden, value, error, AuthConfig, AuthTokenVerifier, verify, with_kid, trial, try_verify,
  check_payload, is_final, find_auth_tokens,
}
use moqx.Auth.Verifier.Safety.{CheckedByOne, verify-Checked}
use moqx.Auth.Verifier.Requests.{
  authenticate_setup, setup_decision, verify_tokens, add_result, authorize, permitted,
  request_tokens, denial_error,
}
use moqx.Auth.Verifier.Requests.Decisions.{
  Verifies, tokens, Sources, authenticate_setup_safe, authorize_iff, authorize_forbidden,
}

abbrev anything : CompoundMatch
anything = record { is_empty = true; conditions = [] }

-- It grants client_setup and subscribe, everywhere.
abbrev cat : CatToken
cat = record {
  exp = some (pos 50);
  moqt_scopes = some (
      record { actions = pos 0 ∷ pos 4 ∷ []; namespace_match = anything; track_match = anything }
      ∷ []);
}

abbrev seconds : ℤ → ℕ
seconds (pos n) = n
seconds z = 0

abbrev library : Library ℕ
library = record {
  before_eq = leb;
  max_time = 1000;
  from_seconds = seconds;
  decode_header = λ t. some none;
  validate_cwt = λ key t. CwtResult.payload cat;
  derive_hmac_key = λ secret. secret;
  claim_exp = pos 4;
  claim_moqt = pos 7;
}

abbrev config : AuthConfig
config = record {
  enabled = true;
  token_type = 5;
  hmac_keys = record { id = 1 ∷ []; secret = 2 ∷ [] } ∷ [];
  require_setup_token = true;
  allow_request_token_override = true;
  strict_claims = false;
  anonymous_claim = [];
  max_tokens_per_message = 2;
}

abbrev verifier : AuthTokenVerifier ℕ
verifier = record {
  config = config;
  derived_keys = record { id = 1 ∷ []; key = 2 ∷ [] } ∷ [];
  key_id_index = (1 ∷ [], 0) ∷ [];
  anonymous_grants = record { expires_at = 1000; scopes = [] };
}

abbrev token : AuthToken
token = record { token_type = 5; token_value = 9 ∷ [] }

abbrev grants : Grants ℕ
grants = grants_from_token library cat

abbrev params : List Parameter
params = record { key = 3; as_auth_token = token } ∷ []

abbrev clock : ℕ → ℕ
clock n = 7

verified : verify library verifier 7 token ≡ value grants
unfolding verify with_kid trial try_verify check_payload is_final grants_from_token
verified = refl

verify_example :
    (token.token_type ≡ verifier.config.token_type) × CheckedByOne library verifier 7 token grants
verify_example = verify-Checked library verifier 7 token grants refl verified

accepted : authenticate_setup library verifier clock 3 params ≡ value (some (grants ∷ []))
unfolding authenticate_setup setup_decision verify_tokens add_result verify with_kid trial
    try_verify check_payload is_final grants_from_token allows_any_namespace allows_namespace
    allows_impl scope_allows rules_match find_auth_tokens
accepted = refl

authenticate_setup_example :
    (length (tokens library verifier clock 3 params) ≤ 2)
    × (g : Grants ℕ) × Verifies library verifier clock 3 0
        (tokens library verifier clock 3 params)
        g
    × (allows_namespace leb g client_setup [] 7 ≡ true)
authenticate_setup_example =
    authenticate_setup_safe library verifier clock 3 params (some (grants ∷ [])) refl refl accepted

authorize_example :
    (authorize library verifier clock 3 4 params ((97 ∷ []) ∷ []) [] none ≡ value tt) ↔ (
      (length (tokens library verifier clock 3 params) ≤ 2)
      × Sources library verifier clock 3 params 4 ((97 ∷ []) ∷ []) [] none)
authorize_example = authorize_iff library verifier clock 3 params 4 ((97 ∷ []) ∷ []) [] none refl

refused : authorize library verifier clock 3 6 params ((97 ∷ []) ∷ []) [] none ≡ error forbidden
unfolding authorize permitted request_tokens denial_error verify_tokens add_result verify with_kid
    trial try_verify check_payload is_final grants_from_token allows_any_namespace allows_namespace
    allows_impl scope_allows rules_match find_auth_tokens
refused = refl

authorize_forbidden_example : forbidden ≡ forbidden
unfolding find_auth_tokens
authorize_forbidden_example =
    authorize_forbidden library verifier clock 3 params 6 ((97 ∷ []) ∷ []) [] none forbidden grants
      refl refl (omega arith) (inl verified) refused
