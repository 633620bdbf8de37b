-- ===== src/Auth/Verifier/Safety.antt =====
-- What `verify` of src/auth/Auth.cpp has checked when it returns grants.
use moqx.Base.{
  ◌≡◌, refl, ◌⊎◌, inl, inr, List, [], ◌∷◌, Option, none, some, true, false, nat_eq, ◌==◌, ℕ_Eq,
  List_Eq, get_elem?, get_elem?-Among, Among, Bytes, nat_eq_iff, arith, Option-cases, Bool-cases,
}
use moqx.Base.Assoc
use moqx.Auth.Claims.{has_only_enforced_claims}
use moqx.Auth.Grants.{Grants}
use moqx.Auth.Tokens.{
  CatToken, CwtResult, payload, crypto_error, cat_error, Library, AuthToken, grants_from_token,
}
use moqx.Auth.Verifier.{
  value, DerivedKey, AuthTokenVerifier, key_at, check_payload, try_verify, is_final, trial,
  with_kid, verify,
}

module _ {Time : Type 0} (lib : Library Time) (verifier : AuthTokenVerifier Time) where
  -- A key validates the token, the grants are those of its payload and have not expired, and under
  -- strict_claims there are only enforced claims.
  pub record Checked (now : Time) (token : AuthToken) (g : Grants Time) (k : DerivedKey)
      : Type 0 where
    pub token_payload : CatToken
    pub validated : lib.validate_cwt k.key token.token_value ≡ payload token_payload
    pub granted : g ≡ grants_from_token lib token_payload
    pub fresh : lib.before_eq g.expires_at now ≡ false
    pub strict :
        verifier.config.strict_claims ≡ true
        → has_only_enforced_claims lib.claim_exp lib.claim_moqt token.token_value ≡ true

  check_payload-Checked :
      (now : Time) (token : AuthToken) (g : Grants Time) (k : DerivedKey) (p : CatToken)
      → lib.validate_cwt k.key token.token_value ≡ payload p
      → check_payload lib verifier now token p ≡ value g
      → Checked now token g k
  unfolding check_payload
  check_payload-Checked now token g k p v e =
      let granted : g ≡ grants_from_token lib p = ground arith in
      record {
        token_payload = p;
        validated = v;
        granted = granted;
        fresh = rw granted (ground arith);
        strict = λ s. ground arith;
      }

  CwtResult-cases :
      (r : CwtResult) → ((p : CatToken) × (r ≡ payload p)) ⊎ ((r ≡ crypto_error) ⊎ (r ≡ cat_error))
  CwtResult-cases (payload p) = inl (p, refl)
  CwtResult-cases crypto_error = inr (inl refl)
  CwtResult-cases cat_error = inr (inr refl)

  try_verify-Checked :
      (now : Time) (token : AuthToken) (g : Grants Time) (k : DerivedKey)
      → try_verify lib verifier now token k ≡ value g
      → Checked now token g k
  unfolding try_verify
  try_verify-Checked now token g k e =
      elim (CwtResult-cases (lib.validate_cwt k.key token.token_value)) [
        | inl (p, v) ↦ check_payload-Checked now token g k p v (rw (v, try_verify) at e)
        | inr (inl v) ↦ cc (rw (v, try_verify) at e)
        | inr (inr v) ↦ cc (rw (v, try_verify) at e)
      ]

  abbrev pub CheckedByOne : Time → AuthToken → Grants Time → Type 0
  CheckedByOne now token g =
      (k : DerivedKey) × Among k verifier.derived_keys × Checked now token g k

  trial-Checked :
      (now : Time) (token : AuthToken) (g : Grants Time) (ks : List DerivedKey)
      → trial lib verifier now token ks ≡ value g
      → (k : DerivedKey) × Among k ks × Checked now token g k
  unfolding trial
  trial-Checked now token g [] e = cc
  trial-Checked now token g (k ∷ ks) e =
      elim (Bool-cases (is_final lib verifier (try_verify lib verifier now token k))) [
        | inl f ↦ (k, inl refl, try_verify-Checked now token g k (rw f at e))
        | inr f ↦ let (j, i, c) = trial-Checked now token g ks (rw f at e) in (j, inr i, c)
      ]

  with_kid-Checked :
      (now : Time) (token : AuthToken) (g : Grants Time) (kid : Option Bytes)
      → with_kid lib verifier now token kid ≡ value g
      → CheckedByOne now token g
  unfolding with_kid key_at
  with_kid-Checked now token g none e = trial-Checked now token g verifier.derived_keys e
  with_kid-Checked now token g (some kid) e =
      elim (Option-cases (Assoc.find kid verifier.key_id_index)) [
        | inl p ↦ cc (rw (p, with_kid) at e)
        | inr (i, p) ↦ elim (Option-cases (get_elem? verifier.derived_keys i)) [
          | inl q ↦ cc (rw (p, q, with_kid) at e)
          | inr (k, q) ↦ (
            k,
            get_elem?-Among verifier.derived_keys i k q,
            try_verify-Checked now token g k (rw (p, q, with_kid) at e),
          )
        ]
      ]

  -- With auth enabled, a token that verifies has the configured type, and one of the configured
  -- keys has validated it: its grants are those of the validated payload, they have not expired,
  -- and under strict_claims the token carries enforced claims only.
  pub verify-Checked :
      (now : Time) (token : AuthToken) (g : Grants Time)
      → verifier.config.enabled ≡ true
      → verify lib verifier now token ≡ value g
      → (token.token_type ≡ verifier.config.token_type) × CheckedByOne now token g
  unfolding verify
  verify-Checked now token g on e =
      let same = nat_eq token.token_type verifier.config.token_type in
      elim (Bool-cases same) [
        | inr a ↦ cc (rw (on, a) at e)
        | inl a ↦ elim (Bool-cases (token.token_value == [])) [
          | inl b ↦ cc (rw (on, a, b) at e)
          | inr b ↦ elim (Option-cases (lib.decode_header token.token_value)) [
            | inl c ↦ cc (rw (on, a, b, c, verify) at e)
            | inr (kid, c) ↦ (
              (nat_eq_iff token.token_type verifier.config.token_type).0 a,
              with_kid-Checked now token g kid (rw (on, a, b, c, verify) at e),
            )
          ]
        ]
      ]
