-- ===== src/Auth/Cbor/Heads.antt =====
-- The readers of src/auth/CborReader.h against the encoding of heads in RFC 8949, section 3.
use moqx.Base.{
  ℕ, zero, suc, ◌+◌, ◌*◌, ◌/◌, ◌%◌, ◌^◌, ◌<◌, ◌≡◌, [], ◌∷◌, ◌++◌, ltb, leb, nat_eq, if◌then◌else◌,
  length, length-append, take-append, drop-append, arith, Bytes, Bool-cases, inl, inr, ltb→lt,
}
use moqx.Auth.Cbor.{
  ok, malformed, ℤ, pos, negsuc, int64_max, read_big_endian, read_argument, read_type, read_uint,
  read_int, read_bytes, read_array_len, read_map_len,
}

-- n bytes of a number, most significant first.
abbrev pub big_endian : ℕ → ℕ → Bytes
big_endian zero v = []
big_endian (suc n) v = (v / 256 ^ n % 256) ∷ big_endian n v

-- The head of an item in its shortest form.
abbrev pub encode_head : ℕ → ℕ → Bytes
encode_head major v =
    if ltb v 24
    then (major * 32 + v) ∷ []
    else if ltb v (2 ^ 8)
    then (major * 32 + 24) ∷ big_endian 1 v
    else if ltb v (2 ^ 16)
    then (major * 32 + 25) ∷ big_endian 2 v
    else if ltb v (2 ^ 32)
    then (major * 32 + 26) ∷ big_endian 4 v
    else (major * 32 + 27) ∷ big_endian 8 v

argument_1 : (v : ℕ) (r : Bytes) → v < 2 ^ 8 → read_big_endian 1 0 (big_endian 1 v ++ r) ≡ ok (v, r)
unfolding read_big_endian
argument_1 v r h = ground arith

argument_2 :
    (v : ℕ) (r : Bytes) → v < 2 ^ 16 → read_big_endian 2 0 (big_endian 2 v ++ r) ≡ ok (v, r)
unfolding read_big_endian
argument_2 v r h = ground arith

argument_4 :
    (v : ℕ) (r : Bytes) → v < 2 ^ 32 → read_big_endian 4 0 (big_endian 4 v ++ r) ≡ ok (v, r)
unfolding read_big_endian
argument_4 v r h = ground arith

argument_8 :
    (v : ℕ) (r : Bytes) → v < 2 ^ 64 → read_big_endian 8 0 (big_endian 8 v ++ r) ≡ ok (v, r)
unfolding read_big_endian
argument_8 v r h = ground arith

-- Reading the shortest head of a major type and a 64-bit argument gives both back.
pub read_type-encode_head :
    (major v : ℕ) (r : Bytes)
    → major < 8
    → v < 2 ^ 64
    → read_type (encode_head major v ++ r) ≡ ok (record { major = major; value = v; rest = r })
unfolding read_type read_argument
read_type-encode_head major v r hm hv = elim (Bool-cases (ltb v 24)) [
  | inl a ↦ rw a (ground arith)
  | inr a ↦ elim (Bool-cases (ltb v (2 ^ 8))) [
    | inl b ↦ rw (a, b) (ground (arith, argument_1 v r (ltb→lt v _ b)))
    | inr b ↦ elim (Bool-cases (ltb v (2 ^ 16))) [
      | inl c ↦ rw (a, b, c) (ground (arith, argument_2 v r (ltb→lt v _ c)))
      | inr c ↦ elim (Bool-cases (ltb v (2 ^ 32))) [
        | inl d ↦ rw (a, b, c, d) (ground (arith, argument_4 v r (ltb→lt v _ d)))
        | inr d ↦ rw (a, b, c, d) (ground (arith, argument_8 v r hv))
      ]
    ]
  ]
]

-- An integer, -1 - n for `negsuc n`.
abbrev pub encode_int : ℤ → Bytes
encode_int (pos n) = encode_head 0 n
encode_int (negsuc n) = encode_head 1 n

abbrev pub argument : ℤ → ℕ
argument (pos n) = n
argument (negsuc n) = n

-- An integer whose 64-bit argument fits int64_t is read back; any other is refused.
pub read_int-encode_int :
    (z : ℤ) (r : Bytes)
    → argument z < 2 ^ 64
    → read_int (encode_int z ++ r) ≡ (if leb (argument z) int64_max then ok (z, r) else malformed)
unfolding read_int
read_int-encode_int (pos n) r h = rw (read_type-encode_head 0 n r (omega arith) h) (ground arith)
read_int-encode_int (negsuc n) r h = rw (read_type-encode_head 1 n r (omega arith) h) (ground arith)

-- A byte string behind its head is read back, whatever follows.
pub read_bytes-encode_head :
    (s r : Bytes)
    → length s < 2 ^ 64
    → read_bytes (encode_head 2 (length s) ++ (s ++ r)) ≡ ok (s, r)
unfolding read_bytes
read_bytes-encode_head s r h =
    rw
      (
        read_type-encode_head 2 (length s) (s ++ r) (omega arith) h,
        take-append s r,
        drop-append s r,
      )
      (ground (arith, length-append s r))

-- The length of an array or a map is read off its head.
pub read_array_len-encode_head :
    (n : ℕ) (r : Bytes) → n < 2 ^ 64 → read_array_len (encode_head 4 n ++ r) ≡ ok (n, r)
unfolding read_array_len
read_array_len-encode_head n r h = rw (read_type-encode_head 4 n r (omega arith) h)

pub read_map_len-encode_head :
    (n : ℕ) (r : Bytes) → n < 2 ^ 64 → read_map_len (encode_head 5 n ++ r) ≡ ok (n, r)
unfolding read_map_len
read_map_len-encode_head n r h = rw (read_type-encode_head 5 n r (omega arith) h)

-- Reading an unsigned integer looks at the head's major type.
pub read_uint-encode_head :
    (major n : ℕ) (s : Bytes)
    → major < 8
    → n < 2 ^ 64
    → read_uint (encode_head major n ++ s) ≡ (if nat_eq major 0 then ok (n, s) else malformed)
unfolding read_uint
read_uint-encode_head major n s h p = rw (read_type-encode_head major n s h p)
