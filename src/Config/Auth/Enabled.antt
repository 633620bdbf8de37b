-- ===== src/Config/Auth/Enabled.antt =====
-- Enabled auth settings that src/config/ConfigResolver.cpp lets pass.
use moqx.Base.{
  ℕ, ◌+◌, ◌^◌, ◌≤◌, ◌<◌, ◌≡◌, refl, List, [], ◌∷◌, Option, none, some, true, false, if◌then◌else◌,
  ℕ_Eq, List_Eq, leb, nat_eq_iff, contains, Bytes, Bool-cases, Option-cases, inl, inr, arith,
  parts_nil, subst,
}
use moqx.Auth.Grants.{Action}
use moqx.Auth.Verifier.{HmacKey, AnonymousScope, AuthConfig}
use moqx.Config.Auth.{
  ParsedAuthConfig, is_empty, value_or, varint_bound, validate_key, validate_keys,
  validate_key_list, validate_max_tokens, token_type_too_large, validate_enabled, validate_auth,
  resolve_claim, with_claim, resolve_auth,
}

-- No key lacks an id or a secret, and no id stands twice or among those seen before.
abbrev pub AreSound : List Bytes → List HmacKey → Type 0
AreSound seen [] = Unit {0}
AreSound seen (k ∷ ks) =
    (is_empty k.id ≡ false)
    × (is_empty k.secret ≡ false)
    × (contains seen k.id ≡ false)
    × AreSound (k.id ∷ seen) ks

-- Settings under which a token can be told from a forgery, and few enough are looked at.
pub record Enforcing (c : AuthConfig) : Type 0 where
  pub on : c.enabled ≡ true
  pub some_key : is_empty c.hmac_keys ≡ false
  pub keys : AreSound [] c.hmac_keys
  pub token_type_fits : c.token_type < 2 ^ 62
  pub some_token : 1 ≤ c.max_tokens_per_message

key_lem :
    (i : ℕ) (seen : List Bytes) (k : HmacKey)
    → validate_key i seen k ≡ []
    → (is_empty k.id ≡ false) × (is_empty k.secret ≡ false) × (contains seen k.id ≡ false)
unfolding validate_key
key_lem i seen k e = elim (Bool-cases (is_empty k.id)) [
  | inl b ↦ cc (rw b at e)
  | inr b ↦ elim (Bool-cases (contains seen k.id)) [
    | inl c ↦ cc (rw (b, c) at e)
    | inr c ↦ elim (Bool-cases (is_empty k.secret)) [
      | inl d ↦ cc (rw (b, c, d) at e)
      | inr d ↦ (b, d, c)
    ]
  ]
]

keys_lem :
    (i : ℕ) (seen : List Bytes) (ks : List HmacKey)
    → validate_keys i seen ks ≡ []
    → AreSound seen ks
unfolding validate_keys
keys_lem i seen [] e = tt
keys_lem i seen (k ∷ ks) e =
    let (e1, e2) = parts_nil (validate_key i seen k) _ e in
    let (a, b, c) = key_lem i seen k e1 in (a, b, c, keys_lem (i + 1) (k.id ∷ seen) ks (rw a at e2))

key_list_lem :
    (o : Option (List HmacKey))
    → validate_key_list o ≡ []
    → (is_empty (value_or o []) ≡ false) × AreSound [] (value_or o [])
unfolding validate_key_list is_empty value_or
key_list_lem none e = cc
key_list_lem (some []) e = cc
key_list_lem (some (k ∷ ks)) e = (refl, keys_lem 0 [] (k ∷ ks) e)

max_tokens_lem : (o : Option ℕ) → validate_max_tokens o ≡ [] → 1 ≤ value_or o 0
unfolding validate_max_tokens value_or
max_tokens_lem none e = cc
max_tokens_lem (some n) e = ground (arith, nat_eq_iff n 0)

fits : (n : ℕ) → (if leb varint_bound n then token_type_too_large ∷ [] else []) ≡ [] → n < 2 ^ 62
fits n e = ground arith

module _ (canonical_action : Bytes → Option Action) where
  enforcing_lem :
      (auth : ParsedAuthConfig) (ss : List AnonymousScope)
      → auth.enabled ≡ true
      → validate_enabled auth ≡ []
      → Enforcing (with_claim canonical_action auth ss)
  unfolding validate_enabled with_claim
  enforcing_lem auth ss on e =
      let (e1, r1) = parts_nil (validate_key_list auth.hmac_keys) _ e in
      let (e2, e3) =
        parts_nil
          (if leb varint_bound (value_or auth.token_type 0) then token_type_too_large ∷ [] else [])
          _ r1 in
      let (nonempty, sound) = key_list_lem auth.hmac_keys e1 in
      record {
        on = on;
        some_key = nonempty;
        keys = sound;
        token_type_fits = fits (value_or auth.token_type 0) e2;
        some_token = max_tokens_lem auth.max_tokens_per_message e3;
      }

  -- Enabled auth settings without a reported error resolve, if they resolve, to a configuration
  -- with at least one signing key, whose keys all have an id of their own and a secret, whose token
  -- type fits a QUIC varint, and which looks at one token of a message or more.
  pub resolve_auth-Enforcing :
      (auth : ParsedAuthConfig) (c : AuthConfig)
      → validate_auth canonical_action auth ≡ []
      → auth.enabled ≡ true
      → resolve_auth canonical_action (some auth) ≡ some c
      → Enforcing c
  unfolding validate_auth resolve_auth
  resolve_auth-Enforcing auth c e on r =
      let (e1, _) = parts_nil (if auth.enabled then validate_enabled auth else []) _ e in
      elim (Option-cases (resolve_claim canonical_action auth.anonymous_claim)) [
        | inl z ↦ cc (rw z at r)
        | inr (ss, z) ↦
            let same : with_claim canonical_action auth ss ≡ c = cc (rw z at r) in
            subst Enforcing same (enforcing_lem auth ss on (simp on at e1))
      ]
