-- ===== src/SafeName/BytesRoundTrip.antt =====
-- parseSafeBytes of src/SafeTrackName.cpp undoes safeName on bytes.
use moqx.Base.{
  ℕ, ◌/◌, ◌%◌, ◌<◌, ◌≡◌, refl, [], ◌∷◌, some, true, arith, Bytes, Bool-cases, inl, inr, ◌∙◌,
}
use moqx.SafeName.{
  passes_through, hex_digit, decode_hex_pair, safe_bytes, prepend, parse_safe_bytes,
}

-- Each entry is a byte.
abbrev pub IsBytes : Bytes → Type 0
IsBytes [] = Unit {0}
IsBytes (c ∷ cs) = (c < 256) × IsBytes cs

decode-encode :
    (c : ℕ) → c < 256 → decode_hex_pair (hex_digit (c / 16)) (hex_digit (c % 16)) ≡ some c
unfolding decode_hex_pair hex_digit
decode-encode c h = ground arith

parse-passes :
    (c : ℕ) (cs : Bytes)
    → passes_through c ≡ true
    → parse_safe_bytes (c ∷ cs) ≡ prepend c (parse_safe_bytes cs)
unfolding parse_safe_bytes
parse-passes c [] h = rw h
parse-passes c (a ∷ []) h = rw h
parse-passes c (a ∷ b ∷ cs) h = rw h

parse-escape :
    (c : ℕ) (cs : Bytes)
    → c < 256
    → parse_safe_bytes (b'.' ∷ hex_digit (c / 16) ∷ hex_digit (c % 16) ∷ cs)
      ≡ prepend c (parse_safe_bytes cs)
unfolding parse_safe_bytes
parse-escape c cs h = rw (decode-encode c h)

-- Parsing the safe spelling of any bytes gives them back.
pub parse_safe_bytes-safe_bytes :
    (cs : Bytes) → IsBytes cs → parse_safe_bytes (safe_bytes cs) ≡ some cs
unfolding safe_bytes
parse_safe_bytes-safe_bytes [] p = unfold parse_safe_bytes in refl
parse_safe_bytes-safe_bytes (c ∷ cs) p = elim (Bool-cases (passes_through c)) [
  | inl h ↦ rw h (
      parse-passes c (safe_bytes cs) h
      ∙ rw (parse_safe_bytes-safe_bytes cs p.1) (unfold prepend in refl))
  | inr h ↦ rw h (
      parse-escape c (safe_bytes cs) p.0
      ∙ rw (parse_safe_bytes-safe_bytes cs p.1) (unfold prepend in refl))
]
