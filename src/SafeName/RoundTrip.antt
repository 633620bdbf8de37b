-- ===== src/SafeName/RoundTrip.antt =====
-- parseSafeNamespace and parseSafeFullTrackName of src/SafeTrackName.cpp undo safeName, but for the
-- namespace of one empty tuple.
use moqx.Base.{
  ℕ, ◌/◌, ◌%◌, ◌≡◌, ◌≢◌, refl, [], ◌∷◌, ◌++◌, none, some, true, false, nat_eq, arith, Bytes,
  TrackNamespace, Bool-cases, inl, inr, ap, ◌∙◌,
}
use mathlib.Core.List.{append-nil}
use moqx.Base.{FullTrackName}
use moqx.SafeName.{
  passes_through, hex_digit, safe_bytes, append_namespace, safe_namespace, safe_full_track_name,
  add_to_first, split_dash, decode_pieces, parse_safe_namespace, split_last, full_name, parse_split,
  parse_safe_full_track_name,
}
use moqx.SafeName.BytesRoundTrip.{IsBytes, parse_safe_bytes-safe_bytes}

abbrev NoDash : Bytes → Type 0
NoDash [] = Unit {0}
NoDash (c ∷ cs) = (nat_eq c b'-' ≡ false) × NoDash cs

passes-ne_dash : (c : ℕ) → passes_through c ≡ true → nat_eq c b'-' ≡ false
unfolding passes_through
passes-ne_dash c e = ground arith

digit-ne_dash : (i : ℕ) → nat_eq (hex_digit i) b'-' ≡ false
unfolding hex_digit
digit-ne_dash i = ground arith

-- The safe spelling of bytes has no '-'.
safe_bytes-NoDash : (cs : Bytes) → NoDash (safe_bytes cs)
unfolding safe_bytes
safe_bytes-NoDash [] = tt
safe_bytes-NoDash (c ∷ cs) = elim (Bool-cases (passes_through c)) [
  | inl h ↦ rw h (passes-ne_dash c h, safe_bytes-NoDash cs)
  | inr h ↦ rw h (refl, (digit-ne_dash (c / 16), (digit-ne_dash (c % 16), safe_bytes-NoDash cs)))
]

split_dash-end : (cs : Bytes) → NoDash cs → split_dash cs ≡ cs ∷ []
unfolding split_dash
split_dash-end [] p = refl
split_dash-end (c ∷ cs) p = rw (p.0, split_dash-end cs p.1) (unfold add_to_first in refl)

split_dash-append : (cs ds : Bytes) → NoDash cs → split_dash (cs ++ b'-' ∷ ds) ≡ cs ∷ split_dash ds
unfolding split_dash
split_dash-append [] ds p = refl
split_dash-append (c ∷ cs) ds p =
    rw (p.0, split_dash-append cs ds p.1) (unfold add_to_first in refl)

split_last-none : (c : ℕ) (cs : Bytes) → NoDash cs → split_last (c ∷ cs) ≡ none
unfolding split_last
split_last-none c [] p = refl
split_last-none c (d ∷ cs) p = ground (arith, split_last-none d cs p.1)

split_last-append :
    (xs ys : Bytes) → NoDash ys → split_last (xs ++ b'-' ∷ b'-' ∷ ys) ≡ some (xs, ys)
unfolding split_last
split_last-append [] ys p = rw (split_last-none b'-' ys p)
split_last-append (x ∷ []) ys p = rw (split_last-append [] ys p)
split_last-append (x ∷ y ∷ xs) ys p = rw (split_last-append (y ∷ xs) ys p)

abbrev pub AreBytes : TrackNamespace → Type 0
AreBytes [] = Unit {0}
AreBytes (t ∷ ts) = IsBytes t × AreBytes ts

decode-rest :
    (t : Bytes) (ts : TrackNamespace)
    → AreBytes (t ∷ ts)
    → decode_pieces (split_dash (safe_bytes t ++ append_namespace false ts)) ≡ some (t ∷ ts)
unfolding append_namespace decode_pieces
decode-rest t [] p = rw (
  append-nil,
  split_dash-end (safe_bytes t) (safe_bytes-NoDash t),
  parse_safe_bytes-safe_bytes t p.0,
)
decode-rest t (u ∷ ts) p = rw (
  split_dash-append (safe_bytes t) (safe_bytes u ++ append_namespace false ts)
      (safe_bytes-NoDash t),
  parse_safe_bytes-safe_bytes t p.0,
  decode-rest u ts p.1,
)

parse-decode :
    (text : Bytes) → text ≢ [] → parse_safe_namespace text ≡ decode_pieces (split_dash text)
unfolding parse_safe_namespace
parse-decode [] h = absurd (h refl)
parse-decode (c ∷ cs) h = refl

safe_bytes-ne_nil : (c : ℕ) (cs : Bytes) → safe_bytes (c ∷ cs) ≢ []
unfolding safe_bytes
safe_bytes-ne_nil c cs = ground arith

append-eq_nil : (xs ys : Bytes) → xs ++ ys ≡ [] → xs ≡ []
append-eq_nil [] ys e = refl
append-eq_nil (x ∷ xs) ys e = cc

-- Only the namespaces of no tuple and of one empty tuple are spelled by the empty text.
safe_namespace-ne_nil :
    (t : Bytes) (ts : TrackNamespace)
    → t ∷ ts ≢ [] ∷ []
    → safe_bytes t ++ append_namespace false ts ≢ []
unfolding append_namespace
safe_namespace-ne_nil [] [] h = absurd (h refl)
safe_namespace-ne_nil [] (u ∷ ts) h = unfold safe_bytes in ground arith
safe_namespace-ne_nil (c ∷ cs) ts h =
    λ e. safe_bytes-ne_nil c cs (append-eq_nil (safe_bytes (c ∷ cs)) (append_namespace false ts) e)

-- Parsing the safe spelling of a namespace gives it back, unless it is the namespace of one empty
-- tuple.
pub parse_safe_namespace-safe_namespace :
    (ns : TrackNamespace)
    → AreBytes ns
    → ns ≢ [] ∷ []
    → parse_safe_namespace (safe_namespace ns) ≡ some ns
unfolding safe_namespace append_namespace
parse_safe_namespace-safe_namespace [] p h = unfold parse_safe_namespace in refl
parse_safe_namespace-safe_namespace (t ∷ ts) p h =
    parse-decode (safe_bytes t ++ append_namespace false ts) (safe_namespace-ne_nil t ts h)
    ∙ decode-rest t ts p

-- Parsing the safe spelling of a full track name of bytes gives it back, unless its namespace is
-- that of one empty tuple.
pub parse_safe_full_track_name-safe_full_track_name :
    (ftn : FullTrackName)
    → AreBytes ftn.track_namespace
    → IsBytes ftn.track_name
    → ftn.track_namespace ≢ [] ∷ []
    → parse_safe_full_track_name (safe_full_track_name ftn) ≡ some ftn
unfolding parse_safe_full_track_name parse_split full_name safe_full_track_name
parse_safe_full_track_name-safe_full_track_name ftn p q h = rw (
  split_last-append (safe_namespace ftn.track_namespace) (safe_bytes ftn.track_name)
      (safe_bytes-NoDash ftn.track_name),
  parse_safe_namespace-safe_namespace ftn.track_namespace p h,
  parse_safe_bytes-safe_bytes ftn.track_name q,
)

-- The spelling is not injective: whatever the track name, the empty namespace and the namespace of
-- one empty tuple are two namespaces with one spelling, which is parsed as the empty namespace if
-- the track name is of bytes.
pub safe_full_track_name-collides :
    (name : Bytes)
    → IsBytes name
    → let a : FullTrackName = record { track_namespace = []; track_name = name } in
      let b : FullTrackName = record { track_namespace = [] ∷ []; track_name = name } in
      (a ≢ b)
      × (safe_full_track_name a ≡ safe_full_track_name b)
      × (parse_safe_full_track_name (safe_full_track_name b) ≡ some a)
unfolding safe_full_track_name safe_namespace append_namespace safe_bytes
safe_full_track_name-collides name q = (
  λ e. cc (ap (λ (x : FullTrackName). x.track_namespace) e),
  refl,
  parse_safe_full_track_name-safe_full_track_name
      (record { track_namespace = []; track_name = name }) tt q (λ e. cc),
)
