-- ===== src/ServiceMatcher.antt =====
-- src/ServiceMatcher.h and src/ServiceMatcher.cpp. `sort` is the call of std::sort on the prefix
-- rules, longest first; it is not stable, so its order of equal lengths is not known. The services
-- are listed in the order in which the map is walked.
pub mod Examples
pub mod LongestPrefix
use moqx.Base.{
  ℕ, List, [], ◌∷◌, ◌++◌, Option, none, some, Bool, true, false, ◌&&◌, if◌then◌else◌, leb, nat_eq,
  ◌==◌, ℕ_Eq, List_Eq, length, take, drop, contains, map, Bytes,
}
use moqx.Base.Assoc

pub data PathMatcher : Type 0 where
  exact_path prefix_path : Bytes → PathMatcher

pub data Authority : Type 0 where
  exact_authority wildcard_authority : Bytes → Authority
  any_authority : Authority

pub record MatchEntry : Type 0 where
  pub authority : Authority
  pub path : PathMatcher

pub record PrefixRule : Type 0 where
  pub prefix : Bytes
  pub service_name : Bytes

pub record PathRuleSet : Type 0 where
  pub exact_paths : List (Bytes × Bytes)
  pub prefix_paths : List PrefixRule

abbrev pub no_rules : PathRuleSet
no_rules = record { exact_paths = []; prefix_paths = [] }

-- F14FastMap::try_emplace: a present key keeps its value.
try_emplace : Bytes → Bytes → List (Bytes × Bytes) → List (Bytes × Bytes)
try_emplace k v [] = (k, v) ∷ []
try_emplace k v ((j, w) ∷ m) = if j == k then (j, w) ∷ m else (j, w) ∷ try_emplace k v m

pub add_rule : PathRuleSet → PathMatcher → Bytes → PathRuleSet
unfolding try_emplace
add_rule rs (exact_path val) name = record rs { exact_paths = try_emplace val name rs.exact_paths }
add_rule rs (prefix_path val) name = record rs {
  prefix_paths = rs.prefix_paths ++ record { prefix = val; service_name = name } ∷ [];
}

-- `path.size() >= prefix.size() && path.substr(0, prefix.size()) == prefix`
pub rule_applies : Bytes → PrefixRule → Bool
rule_applies path rule =
    leb (length rule.prefix) (length path) && take (length rule.prefix) path == rule.prefix

first_prefix : Bytes → List PrefixRule → Option Bytes
first_prefix path [] = none
first_prefix path (rule ∷ rules) =
    if rule_applies path rule then some rule.service_name else first_prefix path rules

-- PathRuleSet::match
pub match_path : PathRuleSet → Bytes → Option Bytes
unfolding first_prefix
match_path rs path = elim (Assoc.find path rs.exact_paths) [
  | some name ↦ some name
  | none ↦ first_prefix path rs.prefix_paths
]

pub record ServiceMatcher : Type 0 where
  pub exact_authority_rules : List (Bytes × PathRuleSet)
  pub wildcard_authority_rules : List (Bytes × PathRuleSet)
  pub any_authority_rules : PathRuleSet

-- `rules[key].addRule(path, name)`
add_under : Bytes → PathMatcher → Bytes → List (Bytes × PathRuleSet) → List (Bytes × PathRuleSet)
add_under key path name [] = (key, add_rule no_rules path name) ∷ []
add_under key path name ((j, rs) ∷ m) =
    if j == key then (j, add_rule rs path name) ∷ m else (j, rs) ∷ add_under key path name m

-- The body of the constructor's loop. `pattern.substr(1)` drops the '*'.
add_entry : ServiceMatcher → Authority → PathMatcher → Bytes → ServiceMatcher
unfolding add_under
add_entry m (exact_authority value) path name = record m {
  exact_authority_rules = add_under value path name m.exact_authority_rules;
}
add_entry m (wildcard_authority pattern_bytes) path name = record m {
  wildcard_authority_rules = add_under (drop 1 pattern_bytes) path name m.wildcard_authority_rules;
}
add_entry m any_authority path name = record m {
  any_authority_rules = add_rule m.any_authority_rules path name;
}

add_entries : ServiceMatcher → Bytes → List MatchEntry → ServiceMatcher
unfolding add_entry
add_entries m name [] = m
add_entries m name (e ∷ es) = add_entries (add_entry m e.authority e.path name) name es

add_services : ServiceMatcher → List (Bytes × List MatchEntry) → ServiceMatcher
unfolding add_entries
add_services m [] = m
add_services m ((name, es) ∷ services) = add_services (add_entries m name es) services

module _ (sort : List PrefixRule → List PrefixRule) where
  pub finalize : PathRuleSet → PathRuleSet
  finalize rs = record rs { prefix_paths = sort rs.prefix_paths }

  pub make_matcher : List (Bytes × List MatchEntry) → ServiceMatcher
  unfolding finalize add_services
  make_matcher services =
      let m =
        add_services
          (record {
            exact_authority_rules = [];
            wildcard_authority_rules = [];
            any_authority_rules = no_rules;
          })
          services in
      record {
        exact_authority_rules = map (λ e. (e.0, finalize e.1)) m.exact_authority_rules;
        wildcard_authority_rules = map (λ e. (e.0, finalize e.1)) m.wildcard_authority_rules;
        any_authority_rules = finalize m.any_authority_rules;
      }

-- `authority.substr(authority.find('.'))`, if there is a dot
pub from_first_dot : Bytes → Option Bytes
from_first_dot [] = none
from_first_dot (c ∷ cs) = if nat_eq c b'.' then some (c ∷ cs) else from_first_dot cs

-- A lookup of the authority, and of the path in its rules.
match_tier : Option PathRuleSet → Bytes → Option Bytes
match_tier none path = none
match_tier (some rs) path = match_path rs path

match_wildcard : List (Bytes × PathRuleSet) → Option Bytes → Bytes → Option Bytes
unfolding match_tier
match_wildcard rules none path = none
match_wildcard rules (some suffix) path = match_tier (Assoc.find suffix rules) path

or_next : Option Bytes → Option Bytes → Option Bytes
or_next (some name) next = some name
or_next none next = next

-- An empty path stands for "/".
effective_path : Bytes → Bytes
effective_path [] = b'/' ∷ []
effective_path (c ∷ cs) = c ∷ cs

-- ServiceMatcher::match
pub match_service : ServiceMatcher → Bytes → Bytes → Option Bytes
unfolding match_tier match_wildcard or_next effective_path
match_service m authority path =
    let p = effective_path path in
    or_next (match_tier (Assoc.find authority m.exact_authority_rules) p) (
      or_next (match_wildcard m.wildcard_authority_rules (from_first_dot authority) p)
        (match_path m.any_authority_rules p))

-- allExactPaths: each path once, where it is met first.
add_new_paths : List Bytes → List (Bytes × Bytes) → List Bytes
add_new_paths seen [] = seen
add_new_paths seen ((path, _) ∷ rest) =
    add_new_paths (if contains seen path then seen else seen ++ path ∷ []) rest

add_rule_sets : List Bytes → List (Bytes × PathRuleSet) → List Bytes
unfolding add_new_paths
add_rule_sets seen [] = seen
add_rule_sets seen ((_, rs) ∷ rest) = add_rule_sets (add_new_paths seen rs.exact_paths) rest

pub all_exact_paths : ServiceMatcher → List Bytes
unfolding add_rule_sets
all_exact_paths m =
    add_new_paths
      (add_rule_sets (add_rule_sets [] m.exact_authority_rules) m.wildcard_authority_rules)
      m.any_authority_rules.exact_paths
