-- ===== src/Auth/Verifier.antt =====
-- AuthTokenVerifier of src/auth/Auth.h and src/auth/Auth.cpp. `verify` reads the clock once at most,
-- so it takes the reading.
pub mod Safety
pub mod Requests
use moqx.Base.{
  ℕ, suc, ◌+◌, List, [], ◌∷◌, ◌++◌, map, Option, none, some, Bool, true, false, ◌&&◌, ◌||◌, not,
  if◌then◌else◌, ltb, nat_eq, ◌==◌, ℕ_Eq, List_Eq, length, keep, get_elem?, Bytes, TrackNamespace,
}
use moqx.Base.Assoc
use moqx.Auth.Claims.{has_only_enforced_claims}
use moqx.Auth.Grants.{Action, MatchRuleType, MatchRule, Scope, Grants, canonical_namespace}
use moqx.Auth.Tokens.{
  CatToken, CwtResult, payload, crypto_error, cat_error, Library, AuthToken, Parameter,
  grants_from_token,
}

pub data AuthError : Type 0 where
  missing wrong_token_type malformed bad_signature expired forbidden too_many_tokens : AuthError

-- folly::Expected
pub data Expected (A : Type 0) : Type 0 where
  value : A → Expected A
  error : AuthError → Expected A

pub record HmacKey : Type 0 where
  pub id : Bytes
  pub secret : Bytes

pub record AnonymousScope : Type 0 where
  pub actions : List Action
  pub namespace_segments : Option TrackNamespace
  pub namespace_match_mode : MatchRuleType
  pub track_name : Option Bytes
  pub track_match_mode : MatchRuleType

pub record AuthConfig : Type 0 where
  pub enabled : Bool
  pub token_type : ℕ
  pub hmac_keys : List HmacKey
  pub require_setup_token : Bool
  pub allow_request_token_override : Bool
  pub strict_claims : Bool
  pub anonymous_claim : List AnonymousScope
  pub max_tokens_per_message : ℕ

-- buildAnonymousGrants, one scope
anonymous_scope : AnonymousScope → Scope
anonymous_scope s = record {
  actions = s.actions;
  namespace_matches = elim s.namespace_segments [
    | none ↦ []
    | some ns ↦ record { type = s.namespace_match_mode; value = canonical_namespace ns } ∷ []
  ];
  track_matches = elim s.track_name [
    | none ↦ []
    | some name ↦ record { type = s.track_match_mode; value = name } ∷ []
  ];
}

-- findAuthTokens; `authorization_token` is moxygen's parameter key.
pub find_auth_tokens : ℕ → List Parameter → ℕ → List AuthToken
find_auth_tokens authorization_token params token_type =
    map (λ p. p.as_auth_token)
      (keep (λ p. nat_eq p.key authorization_token && nat_eq p.as_auth_token.token_type token_type)
        params)

pub record DerivedKey : Type 0 where
  pub id : Bytes
  pub key : Bytes

pub record AuthTokenVerifier (Time : Type 0) : Type 0 where
  pub config : AuthConfig
  pub derived_keys : List DerivedKey
  pub key_id_index : List (Bytes × ℕ)
  pub anonymous_grants : Grants Time

-- std::unordered_map::emplace: a present key keeps its value.
emplace : Bytes → ℕ → List (Bytes × ℕ) → List (Bytes × ℕ)
emplace id idx m = elim (Assoc.find id m) [ none ↦ (id, idx) ∷ m | some _ ↦ m ]

-- derivedKeys_[i]; the indices of the map are in range.
key_at : List DerivedKey → ℕ → Option DerivedKey
key_at keys i = get_elem? keys i

module _ {Time : Type 0} (lib : Library Time) where
  -- the loop of the constructor
  add_keys : List HmacKey → List DerivedKey → List (Bytes × ℕ) → List DerivedKey × List (Bytes × ℕ)
  unfolding emplace
  add_keys [] keys index = (keys, index)
  add_keys (k ∷ ks) keys index =
      add_keys ks (keys ++ record { id = k.id; key = lib.derive_hmac_key k.secret } ∷ [])
        (if k.id == [] then index else emplace k.id (length keys) index)

  pub make_verifier : AuthConfig → AuthTokenVerifier Time
  unfolding add_keys anonymous_scope
  make_verifier config =
      let (keys, index) = add_keys config.hmac_keys [] [] in
      record {
        config = config;
        derived_keys = keys;
        key_id_index = index;
        anonymous_grants = record {
          expires_at = lib.max_time;
          scopes = map anonymous_scope config.anonymous_claim;
        };
      }

  module _ (verifier : AuthTokenVerifier Time) where
    -- the checks of `tryVerify` on a validated token: expired comes before malformed
    check_payload : Time → AuthToken → CatToken → Expected (Grants Time)
    check_payload now token p =
        let grants = grants_from_token lib p in
        if lib.before_eq grants.expires_at now
        then error expired
        else if verifier.config.strict_claims
            && not (has_only_enforced_claims lib.claim_exp lib.claim_moqt token.token_value)
        then error malformed
        else value grants

    try_verify : Time → AuthToken → DerivedKey → Expected (Grants Time)
    unfolding check_payload
    try_verify now token derived = elim (lib.validate_cwt derived.key token.token_value) [
      | payload p ↦ check_payload now token p
      | crypto_error ↦ error bad_signature
      | cat_error ↦ error malformed
    ]

    -- `result.hasValue() || result.error() != BadSignature`
    is_final : Expected (Grants Time) → Bool
    is_final (value g) = true
    is_final (error bad_signature) = false
    is_final (error e) = true

    trial : Time → AuthToken → List DerivedKey → Expected (Grants Time)
    unfolding is_final
    trial now token [] = error bad_signature
    trial now token (k ∷ ks) =
        let result = try_verify now token k in
        let rest = trial now token ks in if is_final result then result else rest

    with_kid : Time → AuthToken → Option Bytes → Expected (Grants Time)
    unfolding key_at
    with_kid now token none = trial now token verifier.derived_keys
    with_kid now token (some kid) = elim (Assoc.find kid verifier.key_id_index) [
      | none ↦ error bad_signature
      | some i ↦ elim (key_at verifier.derived_keys i) [
        | none ↦ error bad_signature
        | some k ↦ try_verify now token k
      ]
    ]

    -- An empty token value and a header that does not parse are malformed.
    pub verify : Time → AuthToken → Expected (Grants Time)
    unfolding trial with_kid
    verify now token =
        if not verifier.config.enabled
        then value (record { expires_at = lib.max_time; scopes = [] })
        else if not (nat_eq token.token_type verifier.config.token_type)
        then error wrong_token_type
        else if token.token_value == []
        then error malformed
        else elim (lib.decode_header token.token_value) [
          | none ↦ error malformed
          | some kid ↦ with_kid now token kid
        ]
