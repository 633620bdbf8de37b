-- ===== src/Auth/Cbor.antt =====
-- src/auth/CborReader.h. A reader is the bytes that it has not read yet, data_ from pos_ on. A read
-- that the source answers by `false` is `malformed`; no caller reads on after one. `exhausted` is
-- the model's own: the fuel of `skip` ran out.
pub mod Examples
pub mod Heads
pub mod Items
pub mod Totality
use moqx.Base.{
  ℕ, zero, suc, ◌+◌, ◌*◌, ◌-◌, ◌/◌, ◌%◌, ◌^◌, List, [], ◌∷◌, Bool, true, false, ◌||◌, not,
  if◌then◌else◌, ltb, leb, nat_eq, length, take, drop, Bytes,
}

pub data Result (A : Type 0) : Type 0 where
  ok : A → Result A
  malformed : Result A
  exhausted : Result A

infixl 5 ◌>>=◌
abbrev pub ◌>>=◌ : {A B : Type 0} → Result A → (A → Result B) → Result B
ok a >>= f = f a
malformed >>= f = malformed
exhausted >>= f = exhausted

-- Out-parameters and the unread bytes.
pub record Head : Type 0 where
  pub major : ℕ
  pub value : ℕ
  pub rest : Bytes

pub data ℤ : Type 0 where
  pos : ℕ → ℤ
  negsuc : ℕ → ℤ

abbrev pub int64_max : ℕ
int64_max = 2 ^ 63 - 1

-- The argument bytes, most significant first: `value << 8 | byte`, where the shift has cleared the
-- low byte.
unfoldable pub read_big_endian : ℕ → ℕ → Bytes → Result (ℕ × Bytes)
read_big_endian zero value r = ok (value, r)
read_big_endian (suc n) value [] = malformed
read_big_endian (suc n) value (b ∷ r) = read_big_endian n (value * 256 % 2 ^ 64 + b) r

-- `bytes > data_.size() - pos_`
read_argument : ℕ → ℕ → Bytes → Result Head
unfolding read_big_endian
read_argument major n r = if ltb (length r) n then malformed else do
  (value, rest) ← read_big_endian n 0 r
  ok (record { major = major; value = value; rest = rest })

pub read_type : Bytes → Result Head
unfolding read_argument
read_type [] = malformed
read_type (first ∷ r) =
    let major = first / 2 ^ 5 in
    let addl = first % 32 in
    if ltb addl 24
    then ok (record { major = major; value = addl; rest = r })
    else if nat_eq addl 24
    then read_argument major 1 r
    else if nat_eq addl 25
    then read_argument major 2 r
    else if nat_eq addl 26
    then read_argument major 4 r
    else if nat_eq addl 27
    then read_argument major 8 r
    else malformed

pub read_uint : Bytes → Result (ℕ × Bytes)
read_uint r = do h ← read_type r; if nat_eq h.major 0 then ok (h.value, h.rest) else malformed

pub read_int : Bytes → Result (ℤ × Bytes)
read_int r = do
  h ← read_type r
  if nat_eq h.major 0
      then if ltb int64_max h.value then malformed else ok (pos h.value, h.rest)
      else if nat_eq h.major 1
      then if ltb int64_max h.value then malformed else ok (negsuc h.value, h.rest)
      else malformed

pub read_bytes : Bytes → Result (Bytes × Bytes)
read_bytes r = do
  h ← read_type r
  if (not (nat_eq h.major 2 || nat_eq h.major 3)) || ltb (length h.rest) h.value
      then malformed
      else ok (take h.value h.rest, drop h.value h.rest)

pub read_array_len : Bytes → Result (ℕ × Bytes)
read_array_len r = do h ← read_type r; if nat_eq h.major 4 then ok (h.value, h.rest) else malformed

pub read_map_len : Bytes → Result (ℕ × Bytes)
read_map_len r = do h ← read_type r; if nat_eq h.major 5 then ok (h.value, h.rest) else malformed

-- What `skip` does behind a head, where `items n r` skips n data items: the switch of the source.
skip_body : (ℕ → Bytes → Result Bytes) → Head → Result Bytes
skip_body items h =
    if nat_eq h.major 0 || nat_eq h.major 1
    then ok h.rest
    else if nat_eq h.major 2 || nat_eq h.major 3
    then if ltb (length h.rest) h.value then malformed else ok (drop h.value h.rest)
    else if nat_eq h.major 4
    then items h.value h.rest
    else if nat_eq h.major 5
    then items (h.value * 2 % 2 ^ 64) h.rest
    else malformed

-- n data items in turn, the loops of `skip` over arrays and maps. Each item reads a byte at least,
-- so fuel above the length of the unread bytes is enough.
pub skip_items : ℕ → ℕ → Bytes → Result Bytes
unfolding skip_body
skip_items zero n r = exhausted
skip_items (suc fuel) n r = elim (nat_eq n 0) [
  | true ↦ ok r
  | false ↦ do h ← read_type r; r' ← skip_body (skip_items fuel) h; skip_items fuel (n - 1) r'
]

pub skip : Bytes → Result Bytes
skip r = skip_items (suc (length r)) 1 r
