-- ===== src/Config/Auth/Examples.antt =====
-- Auth settings that src/config/ConfigResolver.cpp lets pass.
use moqx.Base.{◌≡◌, refl, [], ◌∷◌, Option, none, some, true, false, all, Bytes}
use moqx.Auth.Grants.{Action, MatchRuleType}
use moqx.Auth.Verifier.{AuthConfig}
use moqx.Config.Auth.{
  ParsedAuthConfig, validate_auth, validate_enabled, validate_key_list, validate_max_tokens,
  validate_claim, validate_scopes, validate_scope, resolve_auth, resolve_claim, resolve_scopes,
  resolve_anonymous_scope, resolve_actions, with_actions, with_claim,
}
use moqx.Config.Auth.Anonymous.{harmless, resolve_auth-harmless}
use moqx.Config.Auth.Enabled.{Enforcing, resolve_auth-Enforcing}

abbrev numeric : Bytes → Option Action
numeric [] = none
numeric (c ∷ cs) = some c

abbrev auth : ParsedAuthConfig
auth = record {
  enabled = true;
  token_type = some 7;
  hmac_keys =
      some (record { id = 1 ∷ []; secret = 2 ∷ [] } ∷ record { id = 3 ∷ []; secret = 2 ∷ [] } ∷ []);
  require_setup_token = none;
  allow_request_token_override = none;
  strict_claims = none;
  anonymous_claim =
      some (record { actions = (4 ∷ []) ∷ []; namespace_match = none; track_match = none } ∷ []);
  max_tokens_per_message = some 2;
}

no_auth_problem : validate_auth numeric auth ≡ []
unfolding validate_auth validate_enabled validate_key_list validate_max_tokens validate_claim
    validate_scopes validate_scope
no_auth_problem = refl

anonymous_example :
    (c : AuthConfig) × (resolve_auth numeric (some auth) ≡ some c)
    × (all harmless c.anonymous_claim ≡ true)
anonymous_example = resolve_auth-harmless numeric auth no_auth_problem

abbrev resolved : AuthConfig
resolved = record {
  enabled = true;
  token_type = 7;
  hmac_keys =
      record { id = 1 ∷ []; secret = 2 ∷ [] } ∷ record { id = 3 ∷ []; secret = 2 ∷ [] } ∷ [];
  require_setup_token = true;
  allow_request_token_override = true;
  strict_claims = false;
  anonymous_claim =
      record {
        actions = 4 ∷ [];
        namespace_segments = none;
        namespace_match_mode = MatchRuleType.exact;
        track_name = none;
        track_match_mode = MatchRuleType.exact;
      }
      ∷ [];
  max_tokens_per_message = 2;
}

resolves : resolve_auth numeric (some auth) ≡ some resolved
unfolding resolve_auth resolve_claim resolve_scopes resolve_anonymous_scope resolve_actions
    with_actions with_claim
resolves = refl

resolve_auth-Enforcing_example : Enforcing resolved
resolve_auth-Enforcing_example =
    resolve_auth-Enforcing numeric auth resolved no_auth_problem refl resolves
