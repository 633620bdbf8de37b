-- ===== src/Auth/Cbor/Totality.antt =====
-- `skip` of src/auth/CborReader.h ends on every input.
use moqx.Base.{
  ◌⊎◌, ◌/◌, ℕ, zero, suc, ◌+◌, ◌-◌, ◌*◌, ◌%◌, ◌^◌, ◌≤◌, ◌<◌, ◌≡◌, ◌≢◌, refl, [], ◌∷◌, length,
  length-drop, arith, Bytes, inl, inr,
}
use moqx.Auth.Cbor.{
  Result, ok, malformed, exhausted, Head, read_big_endian, read_argument, read_type, skip_body,
  skip_items, skip,
}

read_big_endian-shorter :
    (n v : ℕ) (r : Bytes) (w : ℕ) (r' : Bytes)
    → read_big_endian n v r ≡ ok (w, r')
    → length r' ≤ length r
unfolding read_big_endian
read_big_endian-shorter zero v r w r' e = ground arith
read_big_endian-shorter (suc n) v [] w r' e = cc
read_big_endian-shorter (suc n) v (b ∷ r) w r' e =
    omega (arith, read_big_endian-shorter n (v * 256 % 2 ^ 64 + b) r w r' e)

read_big_endian-ends : (n v : ℕ) (r : Bytes) → read_big_endian n v r ≢ exhausted
unfolding read_big_endian
read_big_endian-ends zero v r e = cc
read_big_endian-ends (suc n) v [] e = cc
read_big_endian-ends (suc n) v (b ∷ r) e = read_big_endian-ends n (v * 256 % 2 ^ 64 + b) r e

Result-cases :
    {A : Type 0} (m : Result A) → ((a : A) × (m ≡ ok a)) ⊎ ((m ≡ malformed) ⊎ (m ≡ exhausted))
Result-cases (ok a) = inl (a, refl)
Result-cases malformed = inr (inl refl)
Result-cases exhausted = inr (inr refl)

read_argument-shorter :
    (major n : ℕ) (r : Bytes) (h : Head) → read_argument major n r ≡ ok h → length h.rest ≤ length r
unfolding read_argument
read_argument-shorter major n r h e = elim (Result-cases (read_big_endian n 0 r)) [
  | inl ((w, r'), p) ↦ ground (arith, p, read_big_endian-shorter n 0 r w r')
  | inr p ↦ ground (arith, p)
]

read_argument-ends : (major n : ℕ) (r : Bytes) → read_argument major n r ≢ exhausted
unfolding read_argument
read_argument-ends major n r e = ground (arith, read_big_endian-ends n 0 r)

-- A head that is read takes a byte at least.
pub read_type-shorter : (r : Bytes) (h : Head) → read_type r ≡ ok h → length h.rest < length r
unfolding read_type
read_type-shorter [] h e = cc
read_type-shorter (first ∷ r) h e =
    let major = first / 2 ^ 5 in
    ground (
      arith,
      read_argument-shorter major 1 r h,
      read_argument-shorter major 2 r h,
      read_argument-shorter major 4 r h,
      read_argument-shorter major 8 r h,
    )

read_type-ends : (r : Bytes) → read_type r ≢ exhausted
unfolding read_type
read_type-ends [] e = cc
read_type-ends (first ∷ r) e =
    let major = first / 2 ^ 5 in
    ground (
      arith,
      read_argument-ends major 1 r,
      read_argument-ends major 2 r,
      read_argument-ends major 4 r,
      read_argument-ends major 8 r,
    )

skip_body-shorter :
    (items : ℕ → Bytes → Result Bytes) (h : Head)
    → ((n : ℕ) (r r' : Bytes) → items n r ≡ ok r' → length r' ≤ length r)
    → (r' : Bytes) → skip_body items h ≡ ok r'
    → length r' ≤ length h.rest
unfolding skip_body
skip_body-shorter items h shorter r' e = ground (
  arith,
  shorter h.value h.rest r',
  shorter (h.value * 2 % 2 ^ 64) h.rest r',
  length-drop h.value h.rest,
)

-- The items that are skipped are taken off the unread bytes.
pub skip_items-shorter :
    (fuel n : ℕ) (r r' : Bytes) → skip_items fuel n r ≡ ok r' → length r' ≤ length r
unfolding skip_items
skip_items-shorter zero n r r' e = cc
skip_items-shorter (suc fuel) n r r' e = elim (Result-cases (read_type r)) [
  | inr p ↦ ground (arith, p)
  | inl (h, p) ↦ elim (Result-cases (skip_body (skip_items fuel) h)) [
    | inr q ↦ ground (arith, p, q)
    | inl (s, q) ↦ ground (
      arith,
      p,
      q,
      read_type-shorter r h p,
      skip_body-shorter (skip_items fuel) h (skip_items-shorter fuel) s q,
      skip_items-shorter fuel (n - 1) s r',
    )
  ]
]

skip_items-reads :
    (fuel n : ℕ) (r r' : Bytes) → 0 < n → skip_items fuel n r ≡ ok r' → length r' < length r
unfolding skip_items
skip_items-reads zero n r r' pos e = cc
skip_items-reads (suc fuel) n r r' pos e = elim (Result-cases (read_type r)) [
  | inr p ↦ ground (arith, p)
  | inl (h, p) ↦ elim (Result-cases (skip_body (skip_items fuel) h)) [
    | inr q ↦ ground (arith, p, q)
    | inl (s, q) ↦ ground (
      arith,
      p,
      q,
      read_type-shorter r h p,
      skip_body-shorter (skip_items fuel) h (skip_items-shorter fuel) s q,
      skip_items-shorter fuel (n - 1) s r',
    )
  ]
]

skip_body-ends :
    (items : ℕ → Bytes → Result Bytes) (h : Head)
    → ((n : ℕ) → items n h.rest ≢ exhausted)
    → skip_body items h ≢ exhausted
unfolding skip_body
skip_body-ends items h ends e = ground (arith, ends h.value, ends (h.value * 2 % 2 ^ 64))

skip_items-ends : (fuel n : ℕ) (r : Bytes) → length r < fuel → skip_items fuel n r ≢ exhausted
unfolding skip_items
skip_items-ends zero n r lt e = absurd (omega arith)
skip_items-ends (suc fuel) n r lt e = elim (Result-cases (read_type r)) [
  | inr p ↦ ground (arith, p, read_type-ends r)
  | inl (h, p) ↦
      let short = read_type-shorter r h p in
      elim (Result-cases (skip_body (skip_items fuel) h)) [
        | inr q ↦ ground (
          arith,
          p,
          q,
          skip_body-ends (skip_items fuel) h (λ m. skip_items-ends fuel m h.rest (omega arith)),
        )
        | inl (s, q) ↦
            let shorter = skip_body-shorter (skip_items fuel) h (skip_items-shorter fuel) s q in
            ground (arith, p, q, shorter, skip_items-ends fuel (n - 1) s (omega arith))
      ]
]

-- On every input `skip` ends: it answers false, or goes on with fewer unread bytes than before.
pub skip-total :
    (r : Bytes) → (skip r ≡ malformed) ⊎ ((r' : Bytes) × (skip r ≡ ok r') × (length r' < length r))
unfolding skip
skip-total r = elim (Result-cases (skip_items (suc (length r)) 1 r)) [
  | inl (r', e) ↦ inr (r', e, skip_items-reads (suc (length r)) 1 r r' (omega arith) e)
  | inr (inl e) ↦ inl e
  | inr (inr e) ↦ absurd (skip_items-ends (suc (length r)) 1 r (omega arith) e)
]
