-- ===== src/Auth/Cbor/Examples.antt =====
-- The theorems on src/auth/CborReader.h at concrete bytes.
use moqx.Base.{ℕ, ◌≡◌, ◌<◌, ◌^◌, ◌⊎◌, [], ◌∷◌, ◌++◌, Bytes, length, leb, if◌then◌else◌, arith}
use moqx.Auth.Cbor.{ok, malformed, negsuc, int64_max, read_int, skip}
use moqx.Auth.Cbor.Totality.{skip-total}
use moqx.Auth.Cbor.Heads.{encode_head, encode_int, argument, read_int-encode_int}
use moqx.Auth.Cbor.Items.{
  Item, unsigned, byte_string, array, nil, cons, encode, IsEncodable, AreEncodable, skip-encode,
  skip-map_wraps,
}

skip_total_example :
    (skip (130 ∷ 1 ∷ []) ≡ malformed)
    ⊎ ((r' : Bytes) × (skip (130 ∷ 1 ∷ []) ≡ ok r') × (length r' < length {A = ℕ} (130 ∷ 1 ∷ [])))
skip_total_example = skip-total (130 ∷ 1 ∷ [])

read_int_example :
    read_int (encode_int (negsuc 9) ++ (7 ∷ []))
    ≡ (if leb (argument (negsuc 9)) int64_max then ok (negsuc 9, 7 ∷ []) else malformed)
read_int_example = read_int-encode_int (negsuc 9) (7 ∷ []) (omega arith)

abbrev pair : Item
pair = array (cons (unsigned 500) (cons (byte_string (1 ∷ [])) nil))

skip-encode_example : skip (encode pair ++ (7 ∷ [])) ≡ ok (7 ∷ [])
unfolding IsEncodable AreEncodable
skip-encode_example = skip-encode pair (7 ∷ []) (omega arith)

skip_map_example : skip (encode_head 5 (2 ^ 63) ++ (7 ∷ [])) ≡ ok (7 ∷ [])
skip_map_example = skip-map_wraps (7 ∷ [])
