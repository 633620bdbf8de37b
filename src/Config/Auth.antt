-- ===== src/Config/Auth.antt =====
-- The auth settings of a service: validateAuth, resolveAuth and what they call in
-- src/config/ConfigResolver.cpp, with ParsedAuthConfig of src/config/loader/ParsedConfig.h.
pub mod Anonymous
pub mod Enabled
pub mod Examples
use moqx.Base.{
  ℕ, zero, suc, ◌+◌, ◌^◌, List, [], ◌∷◌, ◌++◌, map, Option, none, some, Bool, true, false, ◌&&◌,
  ◌||◌, not, if◌then◌else◌, leb, nat_eq, ◌==◌, ℕ_Eq, List_Eq, contains, Bytes, TrackNamespace,
}
use moqx.Auth.Grants.{Action, client_setup, MatchRuleType}
use moqx.Auth.Verifier.{HmacKey, AnonymousScope, AuthConfig}

infixl 5 ◌>>=◌
abbrev pub ◌>>=◌ : {A B : Type 0} → Option A → (A → Option B) → Option B
none >>= f = none
some a >>= f = f a

abbrev pub server_setup : Action
server_setup = 1

-- rfl::Variant of the namespace and of the track matches
pub record Match (A : Type 0) : Type 0 where
  pub mode : MatchRuleType
  pub value : A

pub record ParsedAnonymousScope : Type 0 where
  pub actions : List Bytes
  pub namespace_match : Option (Match TrackNamespace)
  pub track_match : Option (Match Bytes)

pub record ParsedAuthConfig : Type 0 where
  pub enabled : Bool
  pub token_type : Option ℕ
  pub hmac_keys : Option (List HmacKey)
  pub require_setup_token : Option Bool
  pub allow_request_token_override : Option Bool
  pub strict_claims : Option Bool
  pub anonymous_claim : Option (List ParsedAnonymousScope)
  pub max_tokens_per_message : Option ℕ

pub data AuthProblem : Type 0 where
  keys_required token_type_too_large max_tokens_required max_tokens_zero : AuthProblem
  key_id_empty key_id_duplicate key_secret_empty : ℕ → AuthProblem
  actions_empty action_unknown action_setup : ℕ → AuthProblem

pub is_empty : {A : Type 0} → List A → Bool
is_empty [] = true
is_empty (x ∷ xs) = false

pub value_or : {A : Type 0} → Option A → A → A
value_or none d = d
value_or (some x) d = x

-- `seen` is keyIDs.
validate_key : ℕ → List Bytes → HmacKey → List AuthProblem
unfolding is_empty
validate_key i seen key =
    (if is_empty key.id
      then key_id_empty i ∷ []
      else if contains seen key.id
      then key_id_duplicate i ∷ []
      else [])
    ++ (if is_empty key.secret then key_secret_empty i ∷ [] else [])

validate_keys : ℕ → List Bytes → List HmacKey → List AuthProblem
unfolding validate_key
validate_keys i seen [] = []
validate_keys i seen (key ∷ keys) =
    validate_key i seen key
    ++ validate_keys (i + 1) (if is_empty key.id then seen else key.id ∷ seen) keys

validate_key_list : Option (List HmacKey) → List AuthProblem
unfolding validate_keys
validate_key_list none = keys_required ∷ []
validate_key_list (some []) = keys_required ∷ []
validate_key_list (some (key ∷ keys)) = validate_keys 0 [] (key ∷ keys)

validate_max_tokens : Option ℕ → List AuthProblem
validate_max_tokens none = max_tokens_required ∷ []
validate_max_tokens (some n) = if nat_eq n 0 then max_tokens_zero ∷ [] else []

-- kQuicVarintExclusiveUpperBound
abbrev pub varint_bound : ℕ
varint_bound = 2 ^ 62

validate_enabled : ParsedAuthConfig → List AuthProblem
unfolding value_or
validate_enabled auth =
    validate_key_list auth.hmac_keys
    ++ ((if leb varint_bound (value_or auth.token_type 0) then token_type_too_large ∷ [] else [])
        ++ validate_max_tokens auth.max_tokens_per_message)

-- `canonical_action` stands for auth::canonicalAction (Auth.Action), or any other function.
module _ (canonical_action : Bytes → Option Action) where
  check_action : ℕ → Option Action → List AuthProblem
  check_action i none = action_unknown i ∷ []
  check_action i (some a) =
      if a == client_setup || a == server_setup then action_setup i ∷ [] else []

  check_actions : ℕ → List Bytes → List AuthProblem
  unfolding check_action
  check_actions i [] = []
  check_actions i (name ∷ names) = check_action i (canonical_action name) ++ check_actions i names

  validate_scope : ℕ → ParsedAnonymousScope → List AuthProblem
  unfolding check_actions
  validate_scope i scope =
      if is_empty scope.actions then actions_empty i ∷ [] else check_actions i scope.actions

  validate_scopes : ℕ → List ParsedAnonymousScope → List AuthProblem
  validate_scopes i [] = []
  validate_scopes i (scope ∷ scopes) = validate_scope i scope ++ validate_scopes (i + 1) scopes

  validate_claim : Option (List ParsedAnonymousScope) → List AuthProblem
  validate_claim none = []
  validate_claim (some scopes) = validate_scopes 0 scopes

  -- validateAuth, its errors
  pub validate_auth : ParsedAuthConfig → List AuthProblem
  validate_auth auth =
      (if auth.enabled then validate_enabled auth else []) ++ validate_claim auth.anonymous_claim

  -- `none` is the dereference of an empty std::optional.
  resolve_actions : List Bytes → Option (List Action)
  resolve_actions [] = some []
  resolve_actions (name ∷ names) = do
    a ← canonical_action name
    rest ← resolve_actions names
    some (a ∷ rest)

  match_mode : {A : Type 0} → Option (Match A) → MatchRuleType
  match_mode none = MatchRuleType.exact
  match_mode (some m) = m.mode

  match_value : {A : Type 0} → Option (Match A) → Option A
  match_value none = none
  match_value (some m) = some m.value

  with_actions : ParsedAnonymousScope → List Action → AnonymousScope
  unfolding match_mode match_value
  with_actions scope actions = record {
    actions = actions;
    namespace_segments = match_value scope.namespace_match;
    namespace_match_mode = match_mode scope.namespace_match;
    track_name = match_value scope.track_match;
    track_match_mode = match_mode scope.track_match;
  }

  pub resolve_anonymous_scope : ParsedAnonymousScope → Option AnonymousScope
  resolve_anonymous_scope scope = do
    actions ← resolve_actions scope.actions
    some (with_actions scope actions)

  resolve_scopes : List ParsedAnonymousScope → Option (List AnonymousScope)
  resolve_scopes [] = some []
  resolve_scopes (scope ∷ scopes) = do
    s ← resolve_anonymous_scope scope
    ss ← resolve_scopes scopes
    some (s ∷ ss)

  resolve_claim : Option (List ParsedAnonymousScope) → Option (List AnonymousScope)
  resolve_claim none = some []
  resolve_claim (some scopes) = resolve_scopes scopes

  with_claim : ParsedAuthConfig → List AnonymousScope → AuthConfig
  unfolding value_or
  with_claim auth scopes = record {
    enabled = auth.enabled;
    token_type = value_or auth.token_type 0;
    hmac_keys = value_or auth.hmac_keys [];
    require_setup_token = value_or auth.require_setup_token true;
    allow_request_token_override = value_or auth.allow_request_token_override true;
    strict_claims = value_or auth.strict_claims false;
    anonymous_claim = scopes;
    max_tokens_per_message = value_or auth.max_tokens_per_message 0;
  }

  no_auth : AuthConfig
  no_auth = record {
    enabled = false;
    token_type = 0;
    hmac_keys = [];
    require_setup_token = true;
    allow_request_token_override = true;
    strict_claims = false;
    anonymous_claim = [];
    max_tokens_per_message = 0;
  }

  pub resolve_auth : Option ParsedAuthConfig → Option AuthConfig
  resolve_auth none = some no_auth
  resolve_auth (some auth) = do
    scopes ← resolve_claim auth.anonymous_claim
    some (with_claim auth scopes)
