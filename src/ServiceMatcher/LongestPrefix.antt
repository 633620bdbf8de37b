-- ===== src/ServiceMatcher/LongestPrefix.antt =====
-- PathRuleSet of src/ServiceMatcher.cpp: exact paths first, then the longest prefix.
use moqx.Base.{
  ℕ, ◌≤◌, ◌≡◌, refl, sym, ◌∙◌, ◌↔◌, ◌⊎◌, inl, inr, List, [], ◌∷◌, ◌++◌, Option, none, some, true,
  false, if◌then◌else◌, ◌==◌, ℕ_Eq, List_Eq, list_eq_iff, length, Among, arith, Bytes, Bool-cases,
}
use mathlib.Core.List.{append-nil, append_assoc}
use moqx.Base.Assoc
use moqx.ServiceMatcher.{
  PathMatcher, exact_path, prefix_path, PrefixRule, PathRuleSet, no_rules, try_emplace, add_rule,
  rule_applies, first_prefix, match_path, finalize,
}

-- What the code relies on of std::sort by descending length of the prefix.
abbrev pub Longest : ℕ → List PrefixRule → Type 0
Longest n [] = Unit {0}
Longest n (r ∷ rs) = (length r.prefix ≤ n) × Longest n rs

abbrev pub Descending : List PrefixRule → Type 0
Descending [] = Unit {0}
Descending (r ∷ rs) = Longest (length r.prefix) rs × Descending rs

pub record SortsDescending (sort : List PrefixRule → List PrefixRule) : Type 0 where
  pub same : (r : PrefixRule) (rs : List PrefixRule) → Among r (sort rs) ↔ Among r rs
  pub descending : (rs : List PrefixRule) → Descending (sort rs)

pub add_rules : PathRuleSet → List (PathMatcher × Bytes) → PathRuleSet
add_rules rs [] = rs
add_rules rs ((p, name) ∷ ps) = add_rules (add_rule rs p name) ps

-- The service that first registered the path as an exact one.
abbrev pub first_exact : Bytes → List (PathMatcher × Bytes) → Option Bytes
first_exact path [] = none
first_exact path ((exact_path val, name) ∷ ps) =
    if val == path then some name else first_exact path ps
first_exact path ((prefix_path val, name) ∷ ps) = first_exact path ps

-- The prefix rules among those added.
abbrev pub prefixes : List (PathMatcher × Bytes) → List PrefixRule
prefixes [] = []
prefixes ((exact_path val, name) ∷ ps) = prefixes ps
prefixes ((prefix_path val, name) ∷ ps) = record { prefix = val; service_name = name } ∷ prefixes ps

abbrev or_else : Option Bytes → Option Bytes → Option Bytes
or_else (some a) b = some a
or_else none b = b

find-try_emplace :
    (k v q : Bytes) (m : List (Bytes × Bytes))
    → Assoc.find q (try_emplace k v m) ≡ or_else (Assoc.find q m) (if k == q then some v else none)
unfolding try_emplace
find-try_emplace k v q [] = refl
find-try_emplace k v q ((j, w) ∷ m) = elim (Bool-cases (j == k)) [
  | inl h ↦ rw (h, (list_eq_iff j k).0 h) (ground arith)
  | inr h ↦ rw h (rw (find-try_emplace k v q m) (ground arith))
]

exact_paths-add_rules :
    (path : Bytes) (ps : List (PathMatcher × Bytes)) (rs : PathRuleSet)
    → Assoc.find path (add_rules rs ps).exact_paths
      ≡ or_else (Assoc.find path rs.exact_paths) (first_exact path ps)
unfolding add_rules add_rule
exact_paths-add_rules path [] rs = ground arith
exact_paths-add_rules path ((exact_path val, name) ∷ ps) rs =
    exact_paths-add_rules path ps (add_rule rs (exact_path val) name)
    ∙ rw (find-try_emplace val name path rs.exact_paths) (ground arith)
exact_paths-add_rules path ((prefix_path val, name) ∷ ps) rs =
    exact_paths-add_rules path ps (add_rule rs (prefix_path val) name)

prefix_paths-add_rules :
    (ps : List (PathMatcher × Bytes)) (rs : PathRuleSet)
    → (add_rules rs ps).prefix_paths ≡ rs.prefix_paths ++ prefixes ps
unfolding add_rules add_rule
prefix_paths-add_rules [] rs = sym (append-nil rs.prefix_paths)
prefix_paths-add_rules ((exact_path val, name) ∷ ps) rs =
    prefix_paths-add_rules ps (add_rule rs (exact_path val) name)
prefix_paths-add_rules ((prefix_path val, name) ∷ ps) rs =
    prefix_paths-add_rules ps (add_rule rs (prefix_path val) name)
    ∙ append_assoc rs.prefix_paths _ (prefixes ps)

Longest-Among :
    (n : ℕ) (rs : List PrefixRule) (r : PrefixRule)
    → Longest n rs
    → Among r rs
    → length r.prefix ≤ n
Longest-Among n [] r l i = absurd i
Longest-Among n (x ∷ rs) r l (inl e) = rw e l.0
Longest-Among n (x ∷ rs) r l (inr i) = Longest-Among n rs r l.1 i

-- Nothing applies, or a rule that applies, with no longer rule that does.
abbrev pub Best : Bytes → List PrefixRule → Option Bytes → Type 0
Best path rules found =
    ((found ≡ none) × ((r : PrefixRule) → Among r rules → rule_applies path r ≡ false))
    ⊎ ((r : PrefixRule) × Among r rules
        × (rule_applies path r ≡ true)
        × (found ≡ some r.service_name)
        × ((q : PrefixRule)
            → Among q rules
            → rule_applies path q ≡ true
            → length q.prefix ≤ length r.prefix))

first_prefix-Best :
    (path : Bytes) (rules : List PrefixRule)
    → Descending rules
    → Best path rules (first_prefix path rules)
unfolding first_prefix
first_prefix-Best path [] d = inl (refl, λ r i. absurd i)
first_prefix-Best path (r ∷ rules) d = elim (Bool-cases (rule_applies path r)) [
  | inl h ↦ inr (
    r,
    inl refl,
    h,
    rw h,
    λ q i a. elim i [
      | inl e ↦ rw e (omega arith)
      | inr j ↦ Longest-Among (length r.prefix) rules q d.0 j
    ],
  )
  | inr h ↦ elim (first_prefix-Best path rules d.1) [
    | inl (e, none_apply) ↦ inl (rw h e, λ q i. elim i [ inl x ↦ rw x h | inr j ↦ none_apply q j ])
    | inr (s, i, a, e, best) ↦ inr (
      s,
      inr i,
      a,
      rw h e,
      λ q j b. elim j [
        | inl x ↦ let b' : rule_applies path r ≡ true = rw x at b in cc
        | inr k ↦ best q k b
      ],
    )
  ]
]

Best-same :
    (path : Bytes) (rs qs : List PrefixRule) (found : Option Bytes)
    → ((r : PrefixRule) → Among r rs ↔ Among r qs)
    → Best path rs found
    → Best path qs found
Best-same path rs qs found same (inl (e, unmatched)) = inl (e, λ r i. unmatched r ((same r).1 i))
Best-same path rs qs found same (inr (r, i, a, e, best)) =
    inr (r, (same r).0 i, a, e, λ q j. best q ((same q).1 j))

-- For rules added in any order and sorted by descending length: a path that some rule names
-- exactly goes to the service that first registered it. Any other path goes to the service of a
-- longest prefix rule that applies, or to none if no prefix rule applies.
pub match_path-finalize :
    (sort : List PrefixRule → List PrefixRule)
    → SortsDescending sort
    → (ps : List (PathMatcher × Bytes)) (path : Bytes)
    → let found = match_path (finalize sort (add_rules no_rules ps)) path in
      ((name : Bytes) → first_exact path ps ≡ some name → found ≡ some name)
      × (first_exact path ps ≡ none → Best path (prefixes ps) found)
unfolding finalize match_path
match_path-finalize sort s ps path =
    let e = exact_paths-add_rules path ps no_rules in
    let rules = (add_rules no_rules ps).prefix_paths in
    let p : rules ≡ prefixes ps = prefix_paths-add_rules ps no_rules in
    (
      λ name h. rw (e, h, match_path),
      λ h.
          rw (e, h, match_path)
            (Best-same path (sort rules) (prefixes ps) (first_prefix path (sort rules))
              (λ r. rw (← p) (s.same r rules))
              (first_prefix-Best path (sort rules) (s.descending rules))),
    )
