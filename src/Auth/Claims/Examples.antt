-- ===== src/Auth/Claims/Examples.antt =====
-- strict_claims of src/auth/Auth.cpp at a concrete message.
use moqx.Base.{◌≡◌, List, [], ◌∷◌, ◌++◌, length, true, false, arith}
use moqx.Auth.Cbor.{ℤ, pos, negsuc}
use moqx.Auth.Cbor.Heads.{encode_head}
use moqx.Auth.Cbor.Items.{unsigned, byte_string, IsEncodable, encode}
use moqx.Auth.Claims.{int_eq, has_only_enforced_claims}
use moqx.Auth.Claims.Enforced.{
  Claim, encode_claims, encode_cose, only_enforced, has_only_enforced_claims-encode_cose,
}

abbrev claims : List Claim
claims = (pos 4, unsigned 1000) ∷ (pos 7, byte_string (1 ∷ [])) ∷ []

apart : (k : ℤ) → int_eq k (pos 4) ≡ true → int_eq k (pos 7) ≡ false
apart (pos n) h = ground arith
apart (negsuc n) h = cc

has_only_enforced_claims_example :
    has_only_enforced_claims (pos 4) (pos 7) (
      encode_cose
        (byte_string [])
        (unsigned 0)
        (encode_head 5 (length claims) ++ encode_claims claims)
        (byte_string (9 ∷ [])))
    ≡ only_enforced (pos 4) (pos 7) claims
unfolding IsEncodable encode
has_only_enforced_claims_example =
    has_only_enforced_claims-encode_cose (pos 4) (pos 7) (byte_string []) (unsigned 0)
      (byte_string (9 ∷ [])) claims apart (omega arith) (omega arith) (omega arith) (omega arith)
      (omega arith)
