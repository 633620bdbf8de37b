-- ===== src/Auth/Grants/Examples.antt =====
-- The matching of namespaces of src/auth/Auth.cpp at concrete namespaces.
use moqx.Base.{◌≡◌, ◌↔◌, [], ◌∷◌, true, arith, TrackNamespace}
use moqx.Auth.Grants.{prefix, exact, matches, canonical_namespace}
use moqx.Auth.Grants.Segments.{has_prefix, matches-prefix, matches-exact}

abbrev long : TrackNamespace
long = (97 ∷ []) ∷ (98 ∷ 99 ∷ []) ∷ []

abbrev short : TrackNamespace
short = (97 ∷ []) ∷ []

matches_prefix_example :
    matches (canonical_namespace long) prefix (canonical_namespace short) ≡ has_prefix long short
matches_prefix_example = matches-prefix long short (omega arith) (omega arith)

matches_exact_example :
    (matches (canonical_namespace long) exact (canonical_namespace short) ≡ true) ↔ (long ≡ short)
matches_exact_example = matches-exact long short (omega arith) (omega arith)
