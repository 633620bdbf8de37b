-- ===== src/Auth/Cbor/Items.antt =====
-- `skip` of src/auth/CborReader.h on data items of the major types 0 to 5, and on a map head whose length wraps.
use moqx.Base.{
  ℕ, zero, suc, ◌*◌, ◌/◌, ◌%◌, ◌^◌, ◌<◌, ◌≡◌, refl, [], ◌++◌, nat_eq, if◌then◌else◌, length,
  length-append, drop-append, arith, Bytes, ap, sym,
}
use mathlib.Core.List.{append_assoc, append-nil}
use moqx.Auth.Cbor.{ok, malformed, Head, read_type, read_uint, skip_body, skip_items, skip}
use moqx.Auth.Cbor.Heads.{encode_head, read_type-encode_head, read_uint-encode_head}

-- The data items that the reader knows. The items of a map are its keys and values in turn.
mutual
  pub data Item : Type 0 where
    unsigned : ℕ → Item
    negative : ℕ → Item
    byte_string : Bytes → Item
    text_string : Bytes → Item
    array : Items → Item
    map_of : Items → Item

  pub data Items : Type 0 where
    nil : Items
    cons : Item → Items → Items

abbrev pub count : Items → ℕ
count nil = 0
count (cons x xs) = suc (count xs)

abbrev pub major : Item → ℕ
major (unsigned n) = 0
major (negative n) = 1
major (byte_string s) = 2
major (text_string s) = 3
major (array xs) = 4
major (map_of xs) = 5

abbrev pub argument : Item → ℕ
argument (unsigned n) = n
argument (negative n) = n
argument (byte_string s) = length s
argument (text_string s) = length s
argument (array xs) = count xs
argument (map_of xs) = count xs / 2

unfoldable mutual
  pub encode : Item → Bytes
  encode (unsigned n) = encode_head 0 n
  encode (negative n) = encode_head 1 n
  encode (byte_string s) = encode_head 2 (length s) ++ s
  encode (text_string s) = encode_head 3 (length s) ++ s
  encode (array xs) = encode_head 4 (count xs) ++ encode_items xs
  encode (map_of xs) = encode_head 5 (count xs / 2) ++ encode_items xs

  pub encode_items : Items → Bytes
  encode_items nil = []
  encode_items (cons x xs) = encode x ++ encode_items xs

-- Arguments fit 64 bits, and a map has a value for each key.
unfoldable mutual
  pub IsEncodable : Item → Type 0
  IsEncodable (unsigned n) = n < 2 ^ 64
  IsEncodable (negative n) = n < 2 ^ 64
  IsEncodable (byte_string s) = length s < 2 ^ 64
  IsEncodable (text_string s) = length s < 2 ^ 64
  IsEncodable (array xs) = (count xs < 2 ^ 64) × AreEncodable xs
  IsEncodable (map_of xs) = (count xs % 2 ≡ 0) × (count xs < 2 ^ 64) × AreEncodable xs

  pub AreEncodable : Items → Type 0
  AreEncodable nil = Unit {0}
  AreEncodable (cons x xs) = IsEncodable x × AreEncodable xs

abbrev pub payload : Item → Bytes
payload (unsigned n) = []
payload (negative n) = []
payload (byte_string s) = s
payload (text_string s) = s
payload (array xs) = encode_items xs
payload (map_of xs) = encode_items xs

encode-payload : (x : Item) → encode x ≡ encode_head (major x) (argument x) ++ payload x
unfolding encode
encode-payload (unsigned n) = sym (append-nil _)
encode-payload (negative n) = sym (append-nil _)
encode-payload (byte_string s) = refl
encode-payload (text_string s) = refl
encode-payload (array xs) = refl
encode-payload (map_of xs) = refl

major-lt : (x : Item) → major x < 8
major-lt (unsigned n) = omega arith
major-lt (negative n) = omega arith
major-lt (byte_string s) = omega arith
major-lt (text_string s) = omega arith
major-lt (array xs) = omega arith
major-lt (map_of xs) = omega arith

argument-lt : (x : Item) → IsEncodable x → argument x < 2 ^ 64
unfolding IsEncodable
argument-lt (unsigned n) p = p
argument-lt (negative n) p = p
argument-lt (byte_string s) p = p
argument-lt (text_string s) p = p
argument-lt (array xs) p = p.0
argument-lt (map_of xs) p = omega arith

encode_head-pos : (m v : ℕ) → 0 < length (encode_head m v)
encode_head-pos m v = ground arith

-- The item's head is read and its payload is left.
read_type-encode :
    (x : Item) (r : Bytes)
    → IsEncodable x
    → read_type (encode x ++ r)
      ≡ ok (record { major = major x; value = argument x; rest = payload x ++ r })
read_type-encode x r p =
    rw (encode-payload x, append_assoc)
      (read_type-encode_head (major x) (argument x) (payload x ++ r) (major-lt x) (argument-lt x p))

-- An unsigned item is read by `read_uint`, and any other is refused.
pub read_uint-encode :
    (x : Item) (r : Bytes)
    → IsEncodable x
    → read_uint (encode x ++ r)
      ≡ (if nat_eq (major x) 0 then ok (argument x, payload x ++ r) else malformed)
read_uint-encode x r p =
    rw (encode-payload x, append_assoc)
      (read_uint-encode_head (major x) (argument x) (payload x ++ r) (major-lt x) (argument-lt x p))

encode-pos : (x : Item) → 0 < length (encode x)
encode-pos x = rw (encode-payload x) (
    omega (
      arith,
      length-append (encode_head (major x) (argument x)) (payload x),
      encode_head-pos (major x) (argument x),
    ))

payload-shorter : (x : Item) (r : Bytes) → length (payload x ++ r) < length (encode x ++ r)
payload-shorter x r =
    rw (encode-payload x, append_assoc)
      (omega (
        arith,
        length-append (encode_head (major x) (argument x)) (payload x ++ r),
        encode_head-pos (major x) (argument x),
      ))

skip_items-suc :
    (fuel n : ℕ) (r s r' : Bytes) (h : Head)
    → read_type r ≡ ok h
    → skip_body (skip_items fuel) h ≡ ok s
    → skip_items fuel n s ≡ ok r'
    → skip_items (suc fuel) (suc n) r ≡ ok r'
unfolding skip_items
skip_items-suc fuel n r s r' h p q e = ground (arith, p, q, e)

-- One item behind its head, and items in a row, with fuel above the length of the unread bytes.
mutual
  unfolding skip_items skip_body IsEncodable encode encode_items

  body-lem :
      (x : Item) (fuel : ℕ) (r : Bytes)
      → IsEncodable x
      → length (payload x ++ r) < fuel
      → skip_body
          (skip_items fuel)
          (record { major = major x; value = argument x; rest = payload x ++ r })
        ≡ ok r
  body-lem (unsigned n) fuel r p h = refl
  body-lem (negative n) fuel r p h = refl
  body-lem (byte_string s) fuel r p h = rw (drop-append s r) (ground (arith, length-append s r))
  body-lem (text_string s) fuel r p h = rw (drop-append s r) (ground (arith, length-append s r))
  body-lem (array xs) fuel r p h = items-lem xs fuel r p.1 h
  body-lem (map_of xs) fuel r p h =
      let e : count xs / 2 * 2 % 2 ^ 64 ≡ count xs = omega (arith, p.0, p.1) in
      rw e (items-lem xs fuel r p.2 h)

  items-lem :
      (xs : Items) (fuel : ℕ) (r : Bytes)
      → AreEncodable xs
      → length (encode_items xs ++ r) < fuel
      → skip_items fuel (count xs) (encode_items xs ++ r) ≡ ok r
  items-lem nil zero r p h = absurd (omega arith)
  items-lem nil (suc fuel) r p h = refl
  items-lem (cons x xs) zero r p h = absurd (omega arith)
  items-lem (cons x xs) (suc fuel) r p h =
      let r' = encode_items xs ++ r in
      let short = payload-shorter x r' in
      let h' : length (encode x ++ r') < suc fuel = rw (append_assoc) at h in
      rw append_assoc (
        skip_items-suc fuel (count xs) (encode x ++ r') r' r _ (read_type-encode x r' p.0)
          (body-lem x fuel r' p.0 (omega arith))
          (items-lem xs fuel r p.1 (omega (arith, length-append (encode x) r', encode-pos x))))

-- `skip` takes exactly one item of the major types 0 to 5, with shortest heads that fit 64 bits, off
-- the unread bytes, whatever follows it.
pub skip-encode : (x : Item) (r : Bytes) → IsEncodable x → skip (encode x ++ r) ≡ ok r
unfolding skip
skip-encode x r p =
    let e : encode_items (cons x nil) ++ r ≡ encode x ++ r =
      unfold encode_items in ap (λ (s : Bytes). s ++ r) (append-nil (encode x)) in
    rw (← e) (
      items-lem (cons x nil) (suc (length (encode_items (cons x nil) ++ r))) r
        (unfold IsEncodable in (p, tt)) (omega arith))

-- The loop bound `value * 2` wraps: a map head that announces 2 ^ 63 pairs is skipped as a whole
-- item, with none of its pairs, whatever follows it.
pub skip-map_wraps : (r : Bytes) → skip (encode_head 5 (2 ^ 63) ++ r) ≡ ok r
unfolding skip skip_body skip_items
skip-map_wraps r =
    skip_items-suc (length (encode_head 5 (2 ^ 63) ++ r)) 0 _ r r _
      (read_type-encode_head 5 (2 ^ 63) r (omega arith) (omega arith)) refl refl
