-- ===== src/Auth/Claims.antt =====
-- hasOnlyEnforcedClaims of src/auth/Auth.cpp, which strict_claims asks for. The claim keys are
-- catapult's, and parameters.
pub mod Examples
pub mod Enforced
use moqx.Base.{
  ℕ, zero, suc, ◌-◌, List, [], ◌∷◌, Bool, true, false, if◌then◌else◌, ltb, nat_eq, length, Bytes,
}
use moqx.Auth.Cbor.{
  Result, ok, malformed, exhausted, ◌>>=◌, ℤ, pos, negsuc, int64_max, read_uint, read_int,
  read_bytes, read_array_len, read_map_len, skip,
}

abbrev pub int_eq : ℤ → ℤ → Bool
int_eq (pos m) (pos n) = nat_eq m n
int_eq (pos m) (negsuc n) = false
int_eq (negsuc m) (pos n) = false
int_eq (negsuc m) (negsuc n) = nat_eq m n

module _ (claim_exp claim_moqt : ℤ) where
  -- One round of the loop: the claims left, the two flags and the unread bytes; `next` is the rest
  -- of the loop.
  claim : (Bool → Bool → Bytes → Result Bytes) → Bool → Bool → Bytes → Result Bytes
  claim next seen_exp seen_moqt r = do
    (key, r') ← read_int r
    if int_eq key claim_exp
        then if seen_exp
          then malformed
          else (read_uint r' >>= λ p.
              if ltb int64_max p.0 then malformed else next true seen_moqt p.1)
        else if int_eq key claim_moqt
        then if seen_moqt then malformed else (skip r' >>= λ r''. next seen_exp true r'')
        else malformed

  -- Each round reads a byte at least, so fuel above the length of the unread bytes is enough.
  pub claims_loop : ℕ → ℕ → Bool → Bool → Bytes → Result Bytes
  unfolding claim
  claims_loop zero n seen_exp seen_moqt r = exhausted
  claims_loop (suc fuel) n seen_exp seen_moqt r = elim (nat_eq n 0) [
    | true ↦ ok r
    | false ↦ claim (claims_loop fuel (n - 1)) seen_exp seen_moqt r
  ]

  -- The unread bytes of the claims once all have passed.
  pub enforced_claims : Bytes → Result Bytes
  enforced_claims cwt_bytes = do
    (cose_len, r) ← read_array_len cwt_bytes
    _ ← if nat_eq cose_len 4 then ok tt else malformed
    r' ← skip r
    r'' ← skip r'
    (payload, _) ← read_bytes r''
    (num_claims, claims) ← read_map_len payload
    claims_loop (suc (length claims)) num_claims false false claims

  -- `claims.eof()`
  at_eof : Result Bytes → Bool
  at_eof (ok []) = true
  at_eof (ok (c ∷ cs)) = false
  at_eof malformed = false
  at_eof exhausted = false

  pub has_only_enforced_claims : Bytes → Bool
  unfolding at_eof
  has_only_enforced_claims cwt_bytes = at_eof (enforced_claims cwt_bytes)
