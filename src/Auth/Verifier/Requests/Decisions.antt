-- ===== src/Auth/Verifier/Requests/Decisions.antt =====
-- What authenticateSetup and authorize of src/auth/Auth.cpp decide.
use moqx.Base.{
  ℕ, ◌+◌, ◌≤◌, ◌≡◌, refl, sym, ap, ◌∙◌, ◌↔◌, ◌⊎◌, inl, inr, List, [], ◌∷◌, Option, none, some, Bool,
  true, ◌||◌, ltb, length, arith, any, any-Among, Among-any, Among, Among-append_left,
  Among-append_right, Among-append_elim, Bytes, TrackNamespace, Bool-cases,
}
use moqx.Auth.Grants.{
  Action, client_setup, Grants, allows_impl, allows_namespace, allows_track, allows_any_namespace,
  allows_any_track,
}
use moqx.Auth.Tokens.{Library, AuthToken, Parameter}
use moqx.Auth.Verifier.{
  AuthError, forbidden, Expected, value, error, AuthTokenVerifier, verify, find_auth_tokens,
}
use moqx.Auth.Verifier.Requests.{
  VerifiedTokens, denial_error, add_result, verify_tokens, no_tokens, setup_decision,
  authenticate_setup, permitted, request_tokens, authorize,
}

Expected-cases :
    {A : Type 0} (r : Expected A) → ((a : A) × (r ≡ value a)) ⊎ ((e : AuthError) × (r ≡ error e))
Expected-cases (value a) = inl (a, refl)
Expected-cases (error e) = inr (e, refl)

or_split : (a b c : Bool) → (a || b || c) ≡ true → (a ≡ true) ⊎ ((b ≡ true) ⊎ (c ≡ true))
or_split a b c h = ground arith

module _ {Time : Type 0} (lib : Library Time) (verifier : AuthTokenVerifier Time) (clock : ℕ → Time)
    (authorization_token : ℕ) where
  -- Some token of the list verifies to these grants; the first is verified at reading n.
  abbrev pub Verifies : ℕ → List AuthToken → Grants Time → Type 0
  Verifies n [] g = ⊥
  Verifies n (t ∷ ts) g = (verify lib verifier (clock n) t ≡ value g) ⊎ Verifies (n + 1) ts g

  add_result-Among :
      (res : VerifiedTokens Time) (r : Expected (Grants Time)) (g : Grants Time)
      → Among g (add_result lib verifier clock authorization_token res r).grants
        ↔ (Among g res.grants ⊎ (r ≡ value g))
  unfolding add_result
  add_result-Among res (error e) g = (inl, elim [ inl i ↦ i | inr x ↦ cc ])
  add_result-Among res (value h) g = (
    λ i. elim (Among-append_elim g res.grants (h ∷ []) i) [
      | inl j ↦ inl j
      | inr (inl x) ↦ inr (ap value (sym x))
      | inr (inr x) ↦ absurd x
    ],
    elim [
      | inl i ↦ Among-append_left g res.grants (h ∷ []) i
      | inr x ↦ Among-append_right g res.grants (h ∷ []) (inl (ground arith))
    ],
  )

  verify_tokens-Among :
      (ts : List AuthToken) (res : VerifiedTokens Time) (n : ℕ) (g : Grants Time)
      → Among g (verify_tokens lib verifier clock authorization_token res n ts).grants
        ↔ (Among g res.grants ⊎ Verifies n ts g)
  unfolding verify_tokens
  verify_tokens-Among [] res n g = (inl, elim [ inl i ↦ i | inr x ↦ absurd x ])
  verify_tokens-Among (t ∷ ts) res n g =
      let r = verify lib verifier (clock n) t in
      let one = add_result-Among res r g in
      let rest =
        verify_tokens-Among ts (add_result lib verifier clock authorization_token res r) (n + 1)
          g in
      (
        λ i. elim (rest.0 i) [
          | inr v ↦ inr (inr v)
          | inl j ↦ elim (one.0 j) [ inl k ↦ inl k | inr e ↦ inr (inl e) ]
        ],
        elim [
          | inl i ↦ rest.1 (inl (one.1 (inl i)))
          | inr (inl e) ↦ rest.1 (inl (one.1 (inr e)))
          | inr (inr v) ↦ rest.1 (inr v)
        ],
      )

  module _ (params : List Parameter) where
    abbrev pub tokens : List AuthToken
    tokens = find_auth_tokens authorization_token params verifier.config.token_type

    -- With auth enabled and a setup token required, a setup is accepted only if the message has no
    -- more tokens than the cap and one of them verifies to grants that allow client_setup. The
    -- anonymous claim does not count.
    pub authenticate_setup_safe :
        (s : Option (List (Grants Time)))
        → verifier.config.enabled ≡ true
        → verifier.config.require_setup_token ≡ true
        → authenticate_setup lib verifier clock authorization_token params ≡ value s
        → (length tokens ≤ verifier.config.max_tokens_per_message)
          × (g : Grants Time) × Verifies 0 tokens g
          × (allows_namespace lib.before_eq g client_setup [] (clock (length tokens)) ≡ true)
    unfolding authenticate_setup allows_any_namespace
    authenticate_setup_safe s on req e =
        let verified =
          verify_tokens lib verifier clock authorization_token
            (no_tokens lib verifier clock authorization_token) 0 tokens in
        elim (Bool-cases (ltb verifier.config.max_tokens_per_message (length tokens))) [
          | inl many ↦ absurd (ground arith)
          | inr few ↦
              let d : setup_decision lib verifier clock authorization_token tokens verified
                  ≡ value s =
                ground arith in
              let a = decision tokens verified s d in
              let (g, i, p) = any-Among _ verified.grants a in
              let v = (verify_tokens-Among tokens _ 0 g).0 i in
              (ground arith, g, elim v [ inl x ↦ absurd x | inr w ↦ w ], p)
        ]
      where
        decision :
            (ts : List AuthToken) (verified : VerifiedTokens Time) (s : Option (List (Grants Time)))
            → setup_decision lib verifier clock authorization_token ts verified ≡ value s
            → allows_any_namespace lib.before_eq verified.grants client_setup [] (clock (length ts))
              ≡ true
        decision [] verified s e = cc
        decision (t ∷ ts) verified s e = ground arith

    module _ (action : Action) (ns : TrackNamespace) (session : List (Grants Time))
        (track_name : Option Bytes) where
      -- Grants that allow the request, at the last reading of the clock.
      abbrev pub Permits : Grants Time → Type 0
      Permits g = allows_impl lib.before_eq g action ns track_name (clock (length tokens)) ≡ true

      abbrev pub Sources : Type 0
      Sources =
          ((verifier.config.allow_request_token_override ≡ true)
            × (g : Grants Time) × Verifies 0 tokens g
            × Permits g)
          ⊎ (((g : Grants Time) × Among g session × Permits g) ⊎ Permits verifier.anonymous_grants)

      permitted-any :
          (request : List (Grants Time)) (name : Option Bytes) (now : Time)
          → permitted lib verifier clock authorization_token request session action ns name now ≡ (
              any (λ g. allows_impl lib.before_eq g action ns name now) request
              || any (λ g. allows_impl lib.before_eq g action ns name now) session
              || allows_impl lib.before_eq verifier.anonymous_grants action ns name now)
      unfolding permitted allows_any_namespace allows_any_track allows_namespace allows_track
      permitted-any request none now = refl
      permitted-any request (some name) now = refl

      request_tokens-Among :
          (g : Grants Time)
          → Among g (request_tokens lib verifier clock authorization_token tokens).grants
            ↔ ((verifier.config.allow_request_token_override ≡ true) × Verifies 0 tokens g)
      unfolding request_tokens
      request_tokens-Among g =
          let each =
            verify_tokens-Among tokens (no_tokens lib verifier clock authorization_token) 0 g in
          elim (Bool-cases verifier.config.allow_request_token_override) [
            | inl on ↦ (
              λ i. (on, elim (each.0 (simp on at i)) [ inl x ↦ absurd x | inr v ↦ v ]),
              λ v. simp on (each.1 (inr v.1)),
            )
            | inr off ↦ (λ i. absurd (simp off at i), λ v. cc)
          ]

      denial_error-cons :
          (gs : List (Grants Time)) (first : Option AuthError) (g : Grants Time)
          → Among g gs
          → denial_error gs first ≡ forbidden
      unfolding denial_error
      denial_error-cons [] first g i = absurd i
      denial_error-cons (x ∷ gs) first g i = refl

      permitted_iff :
          (permitted lib verifier clock authorization_token
              (request_tokens lib verifier clock authorization_token tokens).grants
              session
              action
              ns
              track_name
              (clock (length tokens))
            ≡ true)
          ↔ Sources
      permitted_iff =
          let now = clock (length tokens) in
          let test : Grants Time → Bool =
            λ g. allows_impl lib.before_eq g action ns track_name now in
          let request = (request_tokens lib verifier clock authorization_token tokens).grants in
          let split = permitted-any request track_name now in
          (
            λ h.
                elim (or_split (any test request) (any test session)
                  (test verifier.anonymous_grants) (sym split ∙ h)) [
                    | inl a ↦
                        let (g, i, p) = any-Among test request a in
                        let (on, v) = (request_tokens-Among g).0 i in inl (on, g, v, p)
                    | inr (inl b) ↦ let (g, i, p) = any-Among test session b in inr (inl (g, i, p))
                    | inr (inr c) ↦ inr (inr c)
                  ],
            elim [
              | inl (on, g, v, p) ↦
                  split
                  ∙ rw (Among-any test g request ((request_tokens-Among g).1 (on, v)) p)
                      (ground arith)
              | inr (inl (g, i, p)) ↦ split ∙ rw (Among-any test g session i p) (ground arith)
              | inr (inr c) ↦ split ∙ rw c (ground arith)
            ],
          )

      -- With auth enabled, a request is authorized exactly when it carries no more tokens than the
      -- cap and one of the three sources permits it: one of its own tokens that verifies, if the
      -- override is on; the session's grants; the anonymous claim.
      pub authorize_iff :
          verifier.config.enabled ≡ true
          → (authorize lib verifier clock authorization_token action params ns session track_name
              ≡ value tt)
            ↔ ((length tokens ≤ verifier.config.max_tokens_per_message) × Sources)
      unfolding authorize
      authorize_iff on = (
        λ h. (ground arith, permitted_iff.0 (ground arith)),
        λ s. let p = permitted_iff.1 s.1 in ground (arith, s.0, p),
      )

      -- With auth enabled, the override on and no more tokens than the cap, a request that is
      -- refused although one of its tokens verified is refused as forbidden, whatever error its
      -- other tokens had.
      pub authorize_forbidden :
          (e : AuthError) (g : Grants Time)
          → verifier.config.enabled ≡ true
          → verifier.config.allow_request_token_override ≡ true
          → length tokens ≤ verifier.config.max_tokens_per_message
          → Verifies 0 tokens g
          → authorize lib verifier clock authorization_token action params ns session track_name
            ≡ error e
          → e ≡ forbidden
      unfolding authorize
      authorize_forbidden e g on over few v h =
          let i = (request_tokens-Among g).1 (over, v) in
          let d =
            denial_error-cons (request_tokens lib verifier clock authorization_token tokens).grants
              (request_tokens lib verifier clock authorization_token tokens).first_error g i in
          ground (arith, d)
