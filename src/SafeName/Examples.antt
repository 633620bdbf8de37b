-- ===== src/SafeName/Examples.antt =====
-- The round trips of src/SafeTrackName.cpp at concrete names.
use moqx.Base.{◌≡◌, ◌≢◌, List, [], ◌∷◌, some, Bytes, FullTrackName, arith}
use moqx.SafeName.{
  safe_namespace, parse_safe_namespace, safe_full_track_name, parse_safe_full_track_name,
}
use moqx.SafeName.RoundTrip.{
  parse_safe_namespace-safe_namespace, parse_safe_full_track_name-safe_full_track_name,
  safe_full_track_name-collides,
}

-- "a-" and "b"
abbrev two : List Bytes
two = (97 ∷ 45 ∷ []) ∷ (98 ∷ []) ∷ []

safe_namespace_example : parse_safe_namespace (safe_namespace two) ≡ some two
safe_namespace_example = parse_safe_namespace-safe_namespace two (omega arith) (λ e. cc)

abbrev whole : FullTrackName
whole = record { track_namespace = two; track_name = 99 ∷ [] }

safe_full_track_name_example : parse_safe_full_track_name (safe_full_track_name whole) ≡ some whole
safe_full_track_name_example =
    parse_safe_full_track_name-safe_full_track_name whole (omega arith) (omega arith) (λ e. cc)

collides_example :
    let a : FullTrackName = record { track_namespace = []; track_name = 99 ∷ [] } in
    let b : FullTrackName = record { track_namespace = [] ∷ []; track_name = 99 ∷ [] } in
    (a ≢ b)
    × (safe_full_track_name a ≡ safe_full_track_name b)
    × (parse_safe_full_track_name (safe_full_track_name b) ≡ some a)
collides_example = safe_full_track_name-collides (99 ∷ []) (omega arith)
