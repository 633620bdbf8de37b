-- ===== src/SafeName.antt =====
-- src/SafeTrackName.h and src/SafeTrackName.cpp: the moq-c4m spelling of names in URLs and logs.
-- A string is the list of its bytes; `reserve` and `rawSize` do not change a result.
pub mod Examples
pub mod BytesRoundTrip
pub mod RoundTrip
use moqx.Base.{
  ℕ, ◌+◌, ◌*◌, ◌/◌, ◌%◌, ◌-◌, List, [], ◌∷◌, ◌++◌, Option, none, some, Bool, true, false, ◌&&◌,
  ◌||◌, if◌then◌else◌, leb, nat_eq, get_elem?, Bytes, TrackNamespace, FullTrackName,
}

passes_through : ℕ → Bool
passes_through c =
    (leb b'a' c && leb c b'z')
    || (leb b'A' c && leb c b'Z')
    || (leb b'0' c && leb c b'9')
    || nat_eq c b'_'

-- kHexDigits[i]
hex_digit : ℕ → ℕ
hex_digit i = if leb i 9 then b'0' + i else b'a' + (i - 10)

-- One digit as std::from_chars reads it in base 16.
hex_value : ℕ → Option ℕ
hex_value c =
    if leb b'0' c && leb c b'9'
    then some (c - b'0')
    else if leb b'a' c && leb c b'f'
    then some (c - b'a' + 10)
    else if leb b'A' c && leb c b'F'
    then some (c - b'A' + 10)
    else none

decode_hex_pair : ℕ → ℕ → Option ℕ
unfolding hex_value
decode_hex_pair a b = elim (hex_value a) [
  | none ↦ none
  | some x ↦ elim (hex_value b) [ none ↦ none | some y ↦ some (16 * x + y) ]
]

-- safeName of bytes, by appendSafe
pub safe_bytes : Bytes → Bytes
unfolding passes_through hex_digit
safe_bytes [] = []
safe_bytes (c ∷ cs) =
    let rest = safe_bytes cs in
    if passes_through c then c ∷ rest else b'.' ∷ hex_digit (c / 16) ∷ hex_digit (c % 16) ∷ rest

-- appendSafe of a namespace; the flag is `first`.
append_namespace : Bool → TrackNamespace → Bytes
append_namespace first [] = []
append_namespace first (t ∷ ts) =
    (if first then [] else b'-' ∷ []) ++ (safe_bytes t ++ append_namespace false ts)

pub safe_namespace : TrackNamespace → Bytes
unfolding append_namespace
safe_namespace ns = append_namespace true ns

pub safe_full_track_name : FullTrackName → Bytes
safe_full_track_name ftn =
    safe_namespace ftn.track_namespace ++ (b'-' ∷ b'-' ∷ safe_bytes ftn.track_name)

prepend : ℕ → Option Bytes → Option Bytes
prepend c none = none
prepend c (some out) = some (c ∷ out)

-- What an escape appends, if its pair decodes.
unescape : Option ℕ → Option Bytes → Option Bytes
unfolding prepend
unescape none rest = none
unescape (some x) rest = prepend x rest

-- The loop of parseSafeBytes on what is left of the text. An escape needs two more characters.
pub parse_safe_bytes : Bytes → Option Bytes
unfolding passes_through prepend unescape
parse_safe_bytes [] = some []
parse_safe_bytes (c ∷ []) = if passes_through c then some (c ∷ []) else none
parse_safe_bytes (c ∷ a ∷ []) =
    let rest = prepend c (parse_safe_bytes (a ∷ [])) in if passes_through c then rest else none
parse_safe_bytes (c ∷ a ∷ b ∷ cs) =
    let rest = prepend c (parse_safe_bytes (a ∷ b ∷ cs)) in
    let escaped = unescape (decode_hex_pair a b) (parse_safe_bytes cs) in
    if passes_through c then rest else if nat_eq c b'.' then escaped else none

-- The pieces between the '-' characters of a text; there is always at least one.
add_to_first : ℕ → List Bytes → List Bytes
add_to_first c [] = (c ∷ []) ∷ []
add_to_first c (p ∷ ps) = (c ∷ p) ∷ ps

split_dash : Bytes → List Bytes
unfolding add_to_first
split_dash [] = [] ∷ []
split_dash (c ∷ cs) =
    let rest = split_dash cs in if nat_eq c b'-' then [] ∷ rest else add_to_first c rest

push_piece : Option Bytes → Option (List Bytes) → Option (List Bytes)
push_piece none rest = none
push_piece (some t) none = none
push_piece (some t) (some ts) = some (t ∷ ts)

-- Decodes the pieces in order, and fails if one does.
decode_pieces : List Bytes → Option (List Bytes)
unfolding push_piece
decode_pieces [] = some []
decode_pieces (p ∷ ps) = push_piece (parse_safe_bytes p) (decode_pieces ps)

pub parse_safe_namespace : Bytes → Option TrackNamespace
unfolding split_dash decode_pieces
parse_safe_namespace [] = some []
parse_safe_namespace (c ∷ cs) = decode_pieces (split_dash (c ∷ cs))

-- `text.rfind("--")`, as what stands before and behind it.
split_last : Bytes → Option (Bytes × Bytes)
split_last [] = none
split_last (c ∷ []) = none
split_last (c ∷ d ∷ cs) = elim (split_last (d ∷ cs)) [
  | some (before, behind) ↦ some (c ∷ before, behind)
  | none ↦ if nat_eq c b'-' && nat_eq d b'-' then some ([], cs) else none
]

-- `!ns || !track`
full_name : Option TrackNamespace → Option Bytes → Option FullTrackName
full_name none track = none
full_name (some ns) none = none
full_name (some ns) (some track) = some (record { track_namespace = ns; track_name = track })

parse_split : Option (Bytes × Bytes) → Option FullTrackName
unfolding full_name
parse_split none = none
parse_split (some (before, behind)) =
    full_name (parse_safe_namespace before) (parse_safe_bytes behind)

pub parse_safe_full_track_name : Bytes → Option FullTrackName
parse_safe_full_track_name text = parse_split (split_last text)
