-- ===== src/Auth/Verifier/Requests.antt =====
-- authenticateSetup and authorize of src/auth/Auth.cpp. `clock n` is the reading of the n-th look at
-- the clock in a call, and `authorization_token` is moxygen's parameter key.
pub mod Decisions
pub mod Examples
use moqx.Base.{
  ℕ, suc, ◌+◌, List, [], ◌∷◌, ◌++◌, Option, none, some, Bool, true, false, ◌||◌, not, if◌then◌else◌,
  ltb, length, Bytes, TrackNamespace,
}
use moqx.Auth.Grants.{
  Action, client_setup, Grants, allows_namespace, allows_track, allows_any_namespace,
  allows_any_track,
}
use moqx.Auth.Tokens.{Library, AuthToken, Parameter}
use moqx.Auth.Verifier.{
  AuthError, missing, forbidden, too_many_tokens, Expected, value, error, AuthTokenVerifier, verify,
  find_auth_tokens,
}
use moqx.Base.{FullTrackName}

pub record VerifiedTokens (Time : Type 0) : Type 0 where
  pub grants : List (Grants Time)
  pub first_error : Option AuthError

-- `firstError.value_or(Forbidden)`
error_or_forbidden : Option AuthError → AuthError
error_or_forbidden none = forbidden
error_or_forbidden (some e) = e

denial_error {ℓ} : {A : Type ℓ} → List A → Option AuthError → AuthError
unfolding error_or_forbidden
denial_error [] first_error = error_or_forbidden first_error
denial_error (g ∷ gs) first_error = forbidden

-- `if (!result.firstError) result.firstError = ...`
keep_first : Option AuthError → AuthError → Option AuthError
keep_first none e = some e
keep_first (some first) e = some first

module _ {Time : Type 0} (lib : Library Time) (verifier : AuthTokenVerifier Time) (clock : ℕ → Time)
    (authorization_token : ℕ) where
  add_result : VerifiedTokens Time → Expected (Grants Time) → VerifiedTokens Time
  unfolding keep_first
  add_result res (value g) = record res { grants = res.grants ++ g ∷ [] }
  add_result res (error e) = record res { first_error = keep_first res.first_error e }

  pub verify_tokens : VerifiedTokens Time → ℕ → List AuthToken → VerifiedTokens Time
  unfolding add_result
  verify_tokens res n [] = res
  verify_tokens res n (t ∷ ts) =
      verify_tokens (add_result res (verify lib verifier (clock n) t)) (n + 1) ts

  abbrev pub no_tokens : VerifiedTokens Time
  no_tokens = record { grants = []; first_error = none }

  -- `allowsAny(verifiedGrants, Action::ClientSetup, TrackNamespace{})`
  setup_decision : List AuthToken → VerifiedTokens Time → Expected (Option (List (Grants Time)))
  setup_decision [] verified = error missing
  setup_decision (t ∷ ts) verified =
      if allows_any_namespace lib.before_eq verified.grants client_setup []
        (clock (length (t ∷ ts)))
      then value (some verified.grants)
      else error (denial_error verified.grants verified.first_error)

  pub authenticate_setup : List Parameter → Expected (Option (List (Grants Time)))
  unfolding setup_decision
  authenticate_setup setup_params =
      if not verifier.config.enabled
      then value none
      else let tokens =
          find_auth_tokens authorization_token setup_params verifier.config.token_type in
        if ltb verifier.config.max_tokens_per_message (length tokens)
        then error too_many_tokens
        else let verified = verify_tokens no_tokens 0 tokens in
          if verifier.config.require_setup_token
          then setup_decision tokens verified
          else value (some verified.grants)

  -- Any one of three sources is enough.
  permitted :
      List (Grants Time) → List (Grants Time) → Action → TrackNamespace → Option Bytes → Time → Bool
  permitted request session action ns none now =
      allows_any_namespace lib.before_eq request action ns now
      || allows_any_namespace lib.before_eq session action ns now
      || allows_namespace lib.before_eq verifier.anonymous_grants action ns now
  permitted request session action ns (some name) now =
      let ftn : FullTrackName = record { track_namespace = ns; track_name = name } in
      allows_any_track lib.before_eq request action ftn now
      || allows_any_track lib.before_eq session action ftn now
      || allows_track lib.before_eq verifier.anonymous_grants action ftn now

  -- The request's own grants: none with the override off.
  request_tokens : List AuthToken → VerifiedTokens Time
  request_tokens tokens =
      if verifier.config.allow_request_token_override
      then verify_tokens no_tokens 0 tokens
      else no_tokens

  pub authorize :
      Action
      → List Parameter
      → TrackNamespace
      → List (Grants Time)
      → Option Bytes
      → Expected (Unit {0})
  authorize action params ns session track_name =
      if not verifier.config.enabled
      then value tt
      else let tokens = find_auth_tokens authorization_token params verifier.config.token_type in
        if ltb verifier.config.max_tokens_per_message (length tokens)
        then error too_many_tokens
        else let request = request_tokens tokens in
          if permitted request.grants session action ns track_name (clock (length tokens))
          then value tt
          else error (denial_error request.grants request.first_error)
