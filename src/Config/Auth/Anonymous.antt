-- ===== src/Config/Auth/Anonymous.antt =====
-- The anonymous claim that src/config/ConfigResolver.cpp lets pass.
use moqx.Base.{
  ℕ, ◌+◌, ◌≡◌, refl, List, [], ◌∷◌, Option, none, some, Bool, true, ◌&&◌, ◌||◌, not, if◌then◌else◌,
  ◌==◌, ℕ_Eq, all, Bytes, Bool-cases, Option-cases, inl, inr, parts_nil,
}
use moqx.Auth.Grants.{Action, client_setup}
use moqx.Auth.Verifier.{AnonymousScope, AuthConfig}
use moqx.Config.Auth.{
  server_setup, ParsedAnonymousScope, ParsedAuthConfig, is_empty, check_action, check_actions,
  validate_scope, validate_scopes, validate_claim, validate_auth, validate_enabled, resolve_actions,
  with_actions, resolve_anonymous_scope, resolve_scopes, resolve_claim, with_claim, resolve_auth,
}

-- Neither kind of session setup is granted.
abbrev pub no_setup : List Action → Bool
no_setup actions = all (λ a. not (a == client_setup || a == server_setup)) actions

-- A scope that grants something, but no session setup.
abbrev pub harmless : AnonymousScope → Bool
harmless s = not (is_empty s.actions) && no_setup s.actions

module _ (canonical_action : Bytes → Option Action) where
  actions_lem :
      (i : ℕ) (names : List Bytes)
      → check_actions canonical_action i names ≡ []
      → (actions : List Action) × (resolve_actions canonical_action names ≡ some actions)
        × (no_setup actions ≡ true)
        × (is_empty actions ≡ is_empty names)
  unfolding check_actions resolve_actions is_empty
  actions_lem i [] e = ([], refl, refl, refl)
  actions_lem i (name ∷ names) e = elim (Option-cases (canonical_action name)) [
    | inl z ↦ cc (rw (z, check_action) at e)
    | inr (a, z) ↦
        let (e1, e2) = parts_nil (check_action canonical_action i (canonical_action name)) _ e in
        let (rest, r, n, _) = actions_lem i names e2 in
        elim (Bool-cases (a == client_setup || a == server_setup)) [
          | inl b ↦ cc (rw (z, check_action, b) at e1)
          | inr b ↦ (a ∷ rest, rw (z, r) refl, rw (b, n) refl, refl)
        ]
  ]

  scope_lem :
      (i : ℕ) (scope : ParsedAnonymousScope)
      → validate_scope canonical_action i scope ≡ []
      → (s : AnonymousScope) × (resolve_anonymous_scope canonical_action scope ≡ some s)
        × (harmless s ≡ true)
  unfolding validate_scope resolve_anonymous_scope with_actions
  scope_lem i scope e = elim (Bool-cases (is_empty scope.actions)) [
    | inl b ↦ cc (rw b at e)
    | inr b ↦
        let (actions, r, n, m) = actions_lem i scope.actions (rw b at e) in
        (with_actions canonical_action scope actions, rw r refl, rw (m, b, n) refl)
  ]

  scopes_lem :
      (i : ℕ) (scopes : List ParsedAnonymousScope)
      → validate_scopes canonical_action i scopes ≡ []
      → (ss : List AnonymousScope) × (resolve_scopes canonical_action scopes ≡ some ss)
        × (all harmless ss ≡ true)
  unfolding validate_scopes resolve_scopes
  scopes_lem i [] e = ([], refl, refl)
  scopes_lem i (scope ∷ scopes) e =
      let (e1, e2) = parts_nil (validate_scope canonical_action i scope) _ e in
      let (s, r, h) = scope_lem i scope e1 in
      let (ss, rs, hs) = scopes_lem (i + 1) scopes e2 in (s ∷ ss, rw (r, rs) refl, rw (h, hs) refl)

  claim_lem :
      (claim : Option (List ParsedAnonymousScope))
      → validate_claim canonical_action claim ≡ []
      → (ss : List AnonymousScope) × (resolve_claim canonical_action claim ≡ some ss)
        × (all harmless ss ≡ true)
  unfolding validate_claim resolve_claim
  claim_lem none e = ([], refl, refl)
  claim_lem (some scopes) e = scopes_lem 0 scopes e

  -- Auth settings without a reported error resolve without the dereference of an empty optional,
  -- whether auth is enabled or not, and no scope of the anonymous claim grants a session setup or
  -- nothing at all.
  pub resolve_auth-harmless :
      (auth : ParsedAuthConfig)
      → validate_auth canonical_action auth ≡ []
      → (c : AuthConfig) × (resolve_auth canonical_action (some auth) ≡ some c)
        × (all harmless c.anonymous_claim ≡ true)
  unfolding validate_auth resolve_auth with_claim
  resolve_auth-harmless auth e =
      let (_, e2) = parts_nil (if auth.enabled then validate_enabled auth else []) _ e in
      let (ss, r, h) = claim_lem auth.anonymous_claim e2 in
      (with_claim canonical_action auth ss, rw r refl, h)
