-- ===== src/ServiceMatcher/Examples.antt =====
-- An insertion sort in the place of std::sort, and three rules of src/ServiceMatcher.cpp.
use moqx.Base.{
  ℕ, ◌≡◌, ◌≤◌, ◌↔◌, inl, inr, List, [], ◌∷◌, none, some, if◌then◌else◌, leb, leb→le, length, Among,
  Bytes, Bool-cases, arith,
}
use moqx.ServiceMatcher.{
  PathMatcher, exact_path, prefix_path, PrefixRule, no_rules, finalize, match_path,
}
use moqx.ServiceMatcher.LongestPrefix.{
  Longest, Descending, SortsDescending, add_rules, first_exact, prefixes, Best, match_path-finalize,
}

insert : PrefixRule → List PrefixRule → List PrefixRule
insert r [] = r ∷ []
insert r (q ∷ qs) = if leb (length q.prefix) (length r.prefix) then r ∷ q ∷ qs else q ∷ insert r qs

sort : List PrefixRule → List PrefixRule
sort [] = []
sort (r ∷ rs) = insert r (sort rs)

insert-Among : (a r : PrefixRule) (qs : List PrefixRule) → Among a (insert r qs) ↔ Among a (r ∷ qs)
unfolding insert
insert-Among a r [] = (λ i. i, λ i. i)
insert-Among a r (q ∷ qs) = elim (Bool-cases (leb (length q.prefix) (length r.prefix))) [
  | inl b ↦ rw b (λ i. i, λ i. i)
  | inr b ↦
      let rest = insert-Among a r qs in
      rw b (
        elim [
          | inl e ↦ inr (inl e)
          | inr i ↦ elim (rest.0 i) [ inl e ↦ inl e | inr j ↦ inr (inr j) ]
        ],
        elim [
          | inl e ↦ inr (rest.1 (inl e))
          | inr (inl e) ↦ inl e
          | inr (inr j) ↦ inr (rest.1 (inr j))
        ],
      )
]

sort-Among : (a : PrefixRule) (rs : List PrefixRule) → Among a (sort rs) ↔ Among a rs
unfolding sort
sort-Among a [] = (λ i. i, λ i. i)
sort-Among a (r ∷ rs) =
    let one = insert-Among a r (sort rs) in
    let rest = sort-Among a rs in
    (
      λ i. elim (one.0 i) [ inl e ↦ inl e | inr j ↦ inr (rest.0 j) ],
      elim [ inl e ↦ one.1 (inl e) | inr j ↦ one.1 (inr (rest.1 j)) ],
    )

Longest-le : (m n : ℕ) (rs : List PrefixRule) → m ≤ n → Longest m rs → Longest n rs
Longest-le m n [] h p = tt
Longest-le m n (r ∷ rs) h (l, p) = (omega (arith, l, h), Longest-le m n rs h p)

Longest-insert :
    (n : ℕ) (r : PrefixRule) (qs : List PrefixRule)
    → length r.prefix ≤ n
    → Longest n qs
    → Longest n (insert r qs)
unfolding insert
Longest-insert n r [] h p = (h, tt)
Longest-insert n r (q ∷ qs) h (l, p) = elim (Bool-cases (leb (length q.prefix) (length r.prefix))) [
  | inl b ↦ rw b (h, (l, p))
  | inr b ↦ rw b (l, Longest-insert n r qs h p)
]

insert-Descending :
    (r : PrefixRule) (qs : List PrefixRule) → Descending qs → Descending (insert r qs)
unfolding insert
insert-Descending r [] d = (tt, tt)
insert-Descending r (q ∷ qs) (l, d) = elim (Bool-cases (leb (length q.prefix) (length r.prefix))) [
  | inl b ↦
      let le = leb→le (length q.prefix) (length r.prefix) b in
      rw b ((le, Longest-le (length q.prefix) (length r.prefix) qs le l), (l, d))
  | inr b ↦
      rw b (Longest-insert (length q.prefix) r qs (ground (arith, b)) l, insert-Descending r qs d)
]

sort-Descending : (rs : List PrefixRule) → Descending (sort rs)
unfolding sort
sort-Descending [] = tt
sort-Descending (r ∷ rs) = insert-Descending r (sort rs) (sort-Descending rs)

sorts : SortsDescending sort
sorts = record { same = λ r rs. sort-Among r rs; descending = sort-Descending }

-- "/a" and "/" as prefixes, and "/b" itself
abbrev rules : List (PathMatcher × Bytes)
rules =
    (prefix_path (47 ∷ []), 1 ∷ [])
    ∷ (prefix_path (47 ∷ 97 ∷ []), 2 ∷ [])
    ∷ (exact_path (47 ∷ 98 ∷ []), 3 ∷ [])
    ∷ []

match_path_example :
    let found = match_path (finalize sort (add_rules no_rules rules)) (47 ∷ 97 ∷ 98 ∷ []) in
    ((name : Bytes) → first_exact (47 ∷ 97 ∷ 98 ∷ []) rules ≡ some name → found ≡ some name)
    × (first_exact (47 ∷ 97 ∷ 98 ∷ []) rules ≡ none
        → Best (47 ∷ 97 ∷ 98 ∷ []) (prefixes rules) found)
match_path_example = match_path-finalize sort sorts rules (47 ∷ 97 ∷ 98 ∷ [])
