-- ===== src/Auth/Claims/Enforced.antt =====
-- What strict_claims of src/auth/Auth.cpp accepts, on tokens that are encoded as CBOR.
use moqx.Base.{
  ℕ, zero, suc, ◌+◌, ◌-◌, ◌^◌, ◌≤◌, ◌<◌, ◌≡◌, refl, ◌∙◌, inl, inr, List, [], ◌∷◌, ◌++◌, Bool, true,
  false, ◌&&◌, ◌||◌, not, if◌then◌else◌, leb, ltb, nat_eq, length, length-append, all, arith, Bytes,
  Bool-cases,
}
use native.Mathlib.Nat.{zero-add}
use moqx.Auth.Cbor.{Result, ok, malformed, ◌>>=◌, ℤ, pos, negsuc, int64_max, read_uint, read_int}
use moqx.Auth.Cbor.Heads.{
  encode_head, encode_int, argument, read_int-encode_int, read_bytes-encode_head,
  read_array_len-encode_head, read_map_len-encode_head,
}
use moqx.Auth.Cbor.Items.{
  Item, unsigned, negative, byte_string, text_string, array, map_of, encode, IsEncodable,
  read_uint-encode, skip-encode,
}
use moqx.Auth.Claims.{int_eq, claim, claims_loop, enforced_claims, at_eof, has_only_enforced_claims}

-- A claim, by its key and its value.
abbrev pub Claim : Type 0
Claim = ℤ × Item

abbrev pub encode_claims : List Claim → Bytes
encode_claims [] = []
encode_claims ((k, x) ∷ cs) = encode_int k ++ (encode x ++ encode_claims cs)

abbrev pub AreClaims : List Claim → Type 0
AreClaims [] = Unit {0}
AreClaims ((k, x) ∷ cs) = (argument k ≤ int64_max) × IsEncodable x × AreClaims cs

-- An expiry is an unsigned integer that fits int64_t.
abbrev pub is_expiry : Item → Bool
is_expiry (unsigned n) = leb n int64_max
is_expiry x = false

-- A COSE message of two items, a payload and a tag.
abbrev pub encode_cose : Item → Item → Bytes → Item → Bytes
encode_cose a b payload c =
    encode_head 4 4
    ++ (encode a ++ (encode b ++ (encode_head 2 (length payload) ++ (payload ++ encode c))))

exp-encode :
    (x : Item) (r : Bytes) (next : Bytes → Result Bytes)
    → IsEncodable x
    → (read_uint (encode x ++ r) >>= λ p. if ltb int64_max p.0 then malformed else next p.1)
      ≡ (if is_expiry x then next r else malformed)
exp-encode (unsigned n) r next p = rw (read_uint-encode (unsigned n) r p) (ground arith)
exp-encode (negative n) r next p = rw (read_uint-encode (negative n) r p)
exp-encode (byte_string s) r next p = rw (read_uint-encode (byte_string s) r p)
exp-encode (text_string s) r next p = rw (read_uint-encode (text_string s) r p)
exp-encode (array xs) r next p = rw (read_uint-encode (array xs) r p)
exp-encode (map_of xs) r next p = rw (read_uint-encode (map_of xs) r p)

int-encode : (k : ℤ) (r : Bytes) → argument k ≤ int64_max → read_int (encode_int k ++ r) ≡ ok (k, r)
int-encode k r h = read_int-encode_int k r (omega arith) ∙ ground arith

module _ (claim_exp claim_moqt : ℤ) where
  claim-encode :
      (next : Bool → Bool → Bytes → Result Bytes) (e m : Bool) (k : ℤ) (x : Item) (r : Bytes)
      → argument k ≤ int64_max
      → IsEncodable x
      → claim claim_exp claim_moqt next e m (encode_int k ++ (encode x ++ r)) ≡ (
          if int_eq k claim_exp
          then if e then malformed else if is_expiry x then next true m r else malformed
          else if int_eq k claim_moqt
          then if m then malformed else next e true r
          else malformed)
  unfolding claim
  claim-encode next e m k x r h p =
      rw (int-encode k (encode x ++ r) h, exp-encode x r (next true m) p, skip-encode x r p)

  -- What the loop accepts, from the state of its flags.
  abbrev allowed : Bool → Bool → List Claim → Bool
  allowed e m [] = true
  allowed e m ((k, x) ∷ cs) =
      if int_eq k claim_exp
      then not e && (is_expiry x && allowed true m cs)
      else if int_eq k claim_moqt
      then not m && allowed e true cs
      else false

  claims_loop-suc :
      (fuel n : ℕ) (e m : Bool) (r : Bytes)
      → claims_loop claim_exp claim_moqt (suc fuel) (suc n) e m r
        ≡ claim claim_exp claim_moqt (claims_loop claim_exp claim_moqt fuel n) e m r
  unfolding claims_loop
  claims_loop-suc fuel n e m r =
      let a : nat_eq (suc n) 0 ≡ false = ground arith in
      let b : suc n - 1 ≡ n = omega arith in rw (a, b, claims_loop)

  encode_int-pos : (k : ℤ) → 0 < length (encode_int k)
  encode_int-pos (pos n) = ground arith
  encode_int-pos (negsuc n) = ground arith

  claims_loop-encode :
      (cs : List Claim) (fuel : ℕ) (e m : Bool)
      → AreClaims cs
      → length (encode_claims cs) < fuel
      → claims_loop claim_exp claim_moqt fuel (length cs) e m (encode_claims cs)
        ≡ (if allowed e m cs then ok [] else malformed)
  claims_loop-encode [] zero e m p h = absurd (omega arith)
  claims_loop-encode [] (suc fuel) e m p h = unfold claims_loop in refl
  claims_loop-encode ((k, x) ∷ cs) zero e m p h = absurd (omega arith)
  claims_loop-encode ((k, x) ∷ cs) (suc fuel) e m p h =
      let short : length (encode_claims cs) < fuel = omega (
        arith,
        length-append (encode_int k) (encode x ++ encode_claims cs),
        length-append (encode x) (encode_claims cs),
        encode_int-pos k,
      ) in
      claims_loop-suc fuel (length cs) e m (encode_claims ((k, x) ∷ cs))
      ∙ claim-encode (claims_loop claim_exp claim_moqt fuel (length cs)) e m k x (encode_claims cs)
          p.0 p.1
      ∙ ground (
        arith,
        claims_loop-encode cs fuel true m p.2 short,
        claims_loop-encode cs fuel e true p.2 short,
      )

  -- How many claims have the key.
  abbrev pub key_count : ℤ → List Claim → ℕ
  key_count key [] = 0
  key_count key ((k, x) ∷ cs) = (if int_eq k key then 1 else 0) + key_count key cs

  -- The claim is an expiry with a value that is one, or a moqt claim.
  abbrev pub is_enforced : Claim → Bool
  is_enforced (k, x) = (int_eq k claim_exp && is_expiry x) || int_eq k claim_moqt

  -- Every claim is enforced, and no key comes twice.
  abbrev pub only_enforced : List Claim → Bool
  only_enforced cs =
      all is_enforced cs && (leb (key_count claim_exp cs) 1 && leb (key_count claim_moqt cs) 1)

  abbrev as_count : Bool → ℕ
  as_count true = 1
  as_count false = 0

  exp_step :
      (e i a : Bool) (x w y : ℕ)
      → (not e && (i && (a && (leb (1 + x) 1 && leb (w + y) 1))))
        ≡ (((i || false) && a) && (leb (as_count e + (1 + x)) 1 && leb (w + (0 + y)) 1))
  exp_step true i a x w y = ground arith
  exp_step false i a x w y = ground arith

  moqt_step :
      (m a : Bool) (x w y : ℕ)
      → (not m && (a && (leb (w + x) 1 && leb (1 + y) 1)))
        ≡ (a && (leb (w + (0 + x)) 1 && leb (as_count m + (1 + y)) 1))
  moqt_step true a x w y = ground arith
  moqt_step false a x w y = ground arith

  allowed-lem :
      ((k : ℤ) → int_eq k claim_exp ≡ true → int_eq k claim_moqt ≡ false)
      → (cs : List Claim) (e m : Bool)
      → allowed e m cs ≡ (
          all is_enforced cs
          && (leb (as_count e + key_count claim_exp cs) 1
              && leb (as_count m + key_count claim_moqt cs) 1))
  allowed-lem apart [] e m = ground arith
  allowed-lem apart ((k, x) ∷ cs) e m = elim (Bool-cases (int_eq k claim_exp)) [
    | inl h ↦
        rw (h, apart k h, allowed-lem apart cs true m)
          (exp_step e (is_expiry x) (all is_enforced cs) (key_count claim_exp cs) (as_count m)
            (key_count claim_moqt cs))
    | inr h ↦ elim (Bool-cases (int_eq k claim_moqt)) [
      | inl g ↦
          rw (h, g, allowed-lem apart cs e true)
            (moqt_step m (all is_enforced cs) (key_count claim_exp cs) (as_count e)
              (key_count claim_moqt cs))
      | inr g ↦ rw (h, g)
    ]
  ]

  allowed-only_enforced :
      ((k : ℤ) → int_eq k claim_exp ≡ true → int_eq k claim_moqt ≡ false)
      → (cs : List Claim) → allowed false false cs ≡ only_enforced cs
  allowed-only_enforced apart cs = rw (allowed-lem apart cs false false) (simp zero-add)

  at_eof-if : (b : Bool) → at_eof claim_exp claim_moqt (if b then ok [] else malformed) ≡ b
  unfolding at_eof
  at_eof-if true = refl
  at_eof-if false = refl

  -- On a COSE message whose headers, claims and signature are items of the major types 0 to 5 with
  -- shortest heads, and whose claims have int64 keys, strict_claims accepts exactly the maps in which
  -- every claim is an expiry in range or a moqt claim, and neither comes twice, if the two claim keys
  -- are different and the lengths fit 64 bits.
  pub has_only_enforced_claims-encode_cose :
      (a b c : Item) (cs : List Claim)
      → ((k : ℤ) → int_eq k claim_exp ≡ true → int_eq k claim_moqt ≡ false)
      → IsEncodable a
      → IsEncodable b
      → AreClaims cs
      → length cs < 2 ^ 64
      → length (encode_head 5 (length cs) ++ encode_claims cs) < 2 ^ 64
      → has_only_enforced_claims claim_exp claim_moqt
          (encode_cose a b (encode_head 5 (length cs) ++ encode_claims cs) c)
        ≡ only_enforced cs
  unfolding has_only_enforced_claims enforced_claims
  has_only_enforced_claims-encode_cose a b c cs apart pa pb pc few short =
      let payload = encode_head 5 (length cs) ++ encode_claims cs in
      rw
        (
          read_array_len-encode_head 4
              (encode a ++ (encode b ++ (encode_head 2 (length payload) ++ (payload ++ encode c))))
              (omega arith),
          skip-encode a (encode b ++ (encode_head 2 (length payload) ++ (payload ++ encode c))) pa,
          skip-encode b (encode_head 2 (length payload) ++ (payload ++ encode c)) pb,
          read_bytes-encode_head payload (encode c) short,
          read_map_len-encode_head (length cs) (encode_claims cs) few,
          claims_loop-encode cs (suc (length (encode_claims cs))) false false pc (omega arith),
          allowed-only_enforced apart cs,
        )
        (at_eof-if (only_enforced cs))
