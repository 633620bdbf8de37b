-- ===== src/Auth/Grants.antt =====
-- The match rules and grants of src/auth/Auth.h and src/auth/Auth.cpp. Times are a parameter: their
-- order `<=` is all that the code uses of std::chrono. An action is its number, since a token may
-- carry any; strings are bytes.
pub mod Examples
pub mod Segments
use moqx.Base.{
  ℕ, zero, suc, ◌+◌, ◌*◌, ◌-◌, ◌/◌, ◌%◌, ◌^◌, List, [], ◌∷◌, ◌++◌, Option, none, some, Bool, true,
  false, ◌&&◌, ◌||◌, not, if◌then◌else◌, leb, nat_eq, ◌==◌, ℕ_Eq, List_Eq, length, take, drop, any,
  all, contains, Bytes, TrackNamespace,
}
use moqx.Auth.Cbor.Heads.{big_endian}
use moqx.Base.{FullTrackName}

-- enum class Action
abbrev pub Action : Type 0
Action = ℕ

abbrev pub client_setup : Action
client_setup = 0

pub data MatchRuleType : Type 0 where
  exact prefix suffix contains_bytes : MatchRuleType

pub record MatchRule : Type 0 where
  pub type : MatchRuleType
  pub value : Bytes

pub record Scope : Type 0 where
  pub actions : List Action
  pub namespace_matches : List MatchRule
  pub track_matches : List MatchRule

pub record Grants (Time : Type 0) : Type 0 where
  pub expires_at : Time
  pub scopes : List Scope

-- std::string_view::starts_with
pub starts_with : Bytes → Bytes → Bool
starts_with xs [] = true
starts_with [] (y ∷ ys) = false
starts_with (x ∷ xs) (y ∷ ys) = x == y && starts_with xs ys

-- `find(expected) != npos`
find_bytes : Bytes → Bytes → Bool
find_bytes [] ys = starts_with [] ys
find_bytes (x ∷ xs) ys = starts_with (x ∷ xs) ys || find_bytes xs ys

pub matches : Bytes → MatchRuleType → Bytes → Bool
unfolding find_bytes
matches actual exact expected = actual == expected
matches actual prefix expected = starts_with actual expected
matches actual suffix expected =
    leb (length expected) (length actual)
    && drop (length actual - length expected) actual == expected
matches actual contains_bytes expected = find_bytes actual expected

unfoldable pub rules_match : Bytes → List MatchRule → Bool
rules_match actual rules = all (λ rule. matches actual rule.type rule.value) rules

-- A 32-bit big-endian length before each segment.
pub canonical_namespace : TrackNamespace → Bytes
canonical_namespace [] = []
canonical_namespace (field ∷ ns) =
    big_endian 4 (length field % 2 ^ 32) ++ (field ++ canonical_namespace ns)

-- The body of the loop over the scopes.
unfoldable pub scope_allows : Action → Bytes → Bytes → Scope → Bool
scope_allows action ns_bytes track_bytes scope =
    contains scope.actions action
    && (rules_match ns_bytes scope.namespace_matches && rules_match track_bytes scope.track_matches)

value_or_empty : Option Bytes → Bytes
value_or_empty none = []
value_or_empty (some name) = name

module _ {Time : Type 0} (before_eq : Time → Time → Bool) where
  unfoldable pub allows_impl : Grants Time → Action → TrackNamespace → Option Bytes → Time → Bool
  unfolding value_or_empty
  allows_impl grants action ns track_name now =
      if before_eq grants.expires_at now
      then false
      else any (scope_allows action (canonical_namespace ns) (value_or_empty track_name))
          grants.scopes

  -- `allows` of a namespace, and of a full track name
  unfoldable pub allows_namespace : Grants Time → Action → TrackNamespace → Time → Bool
  allows_namespace grants action ns now = allows_impl grants action ns none now

  unfoldable pub allows_track : Grants Time → Action → FullTrackName → Time → Bool
  allows_track grants action ftn now =
      allows_impl grants action ftn.track_namespace (some ftn.track_name) now

  unfoldable pub allows_any_namespace : List (Grants Time) → Action → TrackNamespace → Time → Bool
  allows_any_namespace grants_list action ns now =
      any (λ grants. allows_namespace grants action ns now) grants_list

  unfoldable pub allows_any_track : List (Grants Time) → Action → FullTrackName → Time → Bool
  allows_any_track grants_list action ftn now =
      any (λ grants. allows_track grants action ftn now) grants_list
