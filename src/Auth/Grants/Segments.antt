-- ===== src/Auth/Grants/Segments.antt =====
-- canonicalNamespace of src/auth/Auth.h: match rules on it respect the segments of a namespace.
use moqx.Base.{
  ℕ, ◌%◌, ◌^◌, ◌<◌, ◌≡◌, refl, sym, ap, ◌∙◌, ◌↔◌, [], ◌∷◌, ◌++◌, Bool, true, false, ◌&&◌, nat_eq,
  ◌==◌, ℕ_Eq, List_Eq, list_eq_iff, length, arith, Bytes, TrackNamespace, Bool-cases, inl, inr,
}
use moqx.Auth.Cbor.Heads.{big_endian}
use moqx.Auth.Grants.{exact, prefix, starts_with, matches, canonical_namespace}

-- Segments below 2^32 bytes.
abbrev pub AreShort : TrackNamespace → Type 0
AreShort [] = Unit {0}
AreShort (f ∷ ns) = (length f < 2 ^ 32) × AreShort ns

-- The second namespace is a prefix of the first, segment by segment.
abbrev pub has_prefix : TrackNamespace → TrackNamespace → Bool
has_prefix ns [] = true
has_prefix [] (p ∷ ps) = false
has_prefix (f ∷ ns) (p ∷ ps) = f == p && has_prefix ns ps

starts_with-append : (x xs ys zs : Bytes) → starts_with (x ++ xs) (x ++ ys) ≡ starts_with xs ys
unfolding starts_with
starts_with-append [] xs ys zs = refl
starts_with-append (c ∷ x) xs ys zs = ground (arith, starts_with-append x xs ys zs)

starts_with-segment :
    (f p xs ys : Bytes)
    → length f ≡ length p
    → starts_with (f ++ xs) (p ++ ys) ≡ (f == p && starts_with xs ys)
unfolding starts_with
starts_with-segment [] [] xs ys e = refl
starts_with-segment [] (c ∷ p) xs ys e = absurd (omega arith)
starts_with-segment (c ∷ f) [] xs ys e = absurd (omega arith)
starts_with-segment (c ∷ f) (d ∷ p) xs ys e = ground (arith, starts_with-segment f p xs ys)

starts_with-length :
    (m n : ℕ) (xs ys : Bytes)
    → m < 2 ^ 32
    → n < 2 ^ 32
    → starts_with (big_endian 4 (m % 2 ^ 32) ++ xs) (big_endian 4 (n % 2 ^ 32) ++ ys)
      ≡ (nat_eq m n && starts_with xs ys)
unfolding starts_with
starts_with-length m n xs ys p q = ground arith

starts_with_self : (xs : Bytes) → starts_with xs xs ≡ true
unfolding starts_with
starts_with_self [] = refl
starts_with_self (x ∷ xs) = ground (arith, starts_with_self xs)

length-cong : (f p : Bytes) → f ≡ p → length f ≡ length p
length-cong f p e = ap {B = ℕ} length e

ne-of_length : (f p : Bytes) → nat_eq (length f) (length p) ≡ false → (f == p) ≡ false
ne-of_length f p h = elim (Bool-cases (f == p)) [
  | inl e ↦ absurd (ground (arith, length-cong f p ((list_eq_iff f p).0 e)))
  | inr e ↦ e
]

starts_with-canonical :
    (ns ps : TrackNamespace)
    → AreShort ns
    → AreShort ps
    → starts_with (canonical_namespace ns) (canonical_namespace ps) ≡ has_prefix ns ps
unfolding canonical_namespace
starts_with-canonical ns [] a b = unfold starts_with in refl
starts_with-canonical [] (p ∷ ps) a b = unfold starts_with in refl
starts_with-canonical (f ∷ ns) (p ∷ ps) a b =
    starts_with-length (length f) (length p) (f ++ canonical_namespace ns)
      (p ++ canonical_namespace ps) a.0 b.0
    ∙ elim (Bool-cases (nat_eq (length f) (length p))) [
      | inl e ↦ rw e (
          starts_with-segment f p (canonical_namespace ns) (canonical_namespace ps) (ground arith)
          ∙ rw (starts_with-canonical ns ps a.1 b.1) refl)
      | inr e ↦ rw (e, ne-of_length f p e)
    ]

has_prefix_antisymm :
    (ns ps : TrackNamespace) → has_prefix ns ps ≡ true → has_prefix ps ns ≡ true → ns ≡ ps
has_prefix_antisymm [] [] a b = refl
has_prefix_antisymm [] (p ∷ ps) a b = cc
has_prefix_antisymm (f ∷ ns) [] a b = cc
has_prefix_antisymm (f ∷ ns) (p ∷ ps) a b =
    ground (arith, list_eq_iff f p, has_prefix_antisymm ns ps)

-- For namespaces of segments below 2^32 bytes, a prefix rule on the canonical bytes matches exactly
-- when the rule's namespace is a prefix segment by segment.
pub matches-prefix :
    (ns ps : TrackNamespace)
    → AreShort ns
    → AreShort ps
    → matches (canonical_namespace ns) prefix (canonical_namespace ps) ≡ has_prefix ns ps
unfolding matches
matches-prefix ns ps a b = starts_with-canonical ns ps a b

-- For namespaces of segments below 2^32 bytes, an exact rule on the canonical bytes matches exactly
-- when the two namespaces are equal.
pub matches-exact :
    (ns ps : TrackNamespace)
    → AreShort ns
    → AreShort ps
    → (matches (canonical_namespace ns) exact (canonical_namespace ps) ≡ true) ↔ (ns ≡ ps)
unfolding matches
matches-exact ns ps a b = (
  λ h.
      let e = (list_eq_iff (canonical_namespace ns) (canonical_namespace ps)).0 h in
      has_prefix_antisymm ns ps
        (sym (starts_with-canonical ns ps a b) ∙ rw e (starts_with_self (canonical_namespace ps)))
        (sym (starts_with-canonical ps ns b a) ∙ rw e (starts_with_self (canonical_namespace ps))),
  λ e. (list_eq_iff (canonical_namespace ns) (canonical_namespace ps)).1 (ap canonical_namespace e),
)
