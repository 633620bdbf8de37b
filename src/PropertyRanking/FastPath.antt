-- ===== src/PropertyRanking/FastPath.antt =====
-- The fast path of updateSortValue in src/relay/PropertyRanking.cpp: where crossesThreshold says no,
-- the recomputation would change nothing for a group of viewers.
use moqx.Base.{
  ℕ, ◌≤◌, ◌<◌, ◌≡◌, refl, subst, sym, ◌⊎◌, ◌↔◌, inl, inr, List, [], ◌∷◌, Bool, true, false, ◌&&◌,
  ◌||◌, not, if◌then◌else◌, ltb, leb, ◌==◌, ℕ_Eq, max, min, map, FullTrackName, Among, Bool-cases,
  arith,
}
use moqx.PropertyRanking.Tracks.{Ptr}
use moqx.PropertyRanking.Groups.{SessionInfo, TopNGroup, View, is_publisher, visit_sessions}
use moqx.PropertyRanking.Thresholds.{
  PropertyRanking, view, is_empty, upper_bound, at_most, crosses_threshold,
}
use moqx.PropertyRanking.Operations.{◌then_also◌}
use moqx.PropertyRanking.Moves.{
  recompute_state, recompute_sessions, recompute_displaced, recompute_as, recompute_group,
}

abbrev pub AtLeast : ℕ → List ℕ → Type 0
AtLeast n [] = Unit {0}
AtLeast n (m ∷ ms) = (n ≤ m) × AtLeast n ms

abbrev pub Ascending : List ℕ → Type 0
Ascending [] = Unit {0}
Ascending (n ∷ ns) = AtLeast n ns × Ascending ns

-- What the code relies on of std::sort.
pub record SortsAscending (sort : List ℕ → List ℕ) : Type 0 where
  pub same : (n : ℕ) (ns : List ℕ) → Among n (sort ns) ↔ Among n ns
  pub ascending : (ns : List ℕ) → Ascending (sort ns)

-- The thresholds are those of the groups: each N is listed, in order, and none exceeds the outer one.
pub record InSync (r : PropertyRanking) : Type 0 where
  pub outer : (n : ℕ) → Among n (map (λ e. e.0) r.top_n_groups) → n ≤ r.selection_threshold
  pub listed : (n : ℕ) → Among n (map (λ e. e.0) r.top_n_groups) → Among n r.sorted_thresholds
  pub ascending : Ascending r.sorted_thresholds

AtLeast-Among : (n m : ℕ) (ns : List ℕ) → AtLeast n ns → Among m ns → n ≤ m
AtLeast-Among n m [] a i = absurd i
AtLeast-Among n m (x ∷ ns) a (inl e) = rw e a.0
AtLeast-Among n m (x ∷ ns) a (inr i) = AtLeast-Among n m ns a.1 i

not_leb : (x high : ℕ) → leb x high ≡ false → high < x
not_leb x high h = ground arith

not_ltb : (low x : ℕ) → ltb low x ≡ false → x ≤ low
not_ltb low x h = ground arith

later : (x n high : ℕ) → high < x → x ≤ n → high < n
later x n high p q = omega arith

-- No threshold lies above the lower rank and within the higher.
upper_bound_none :
    (low high n : ℕ) (ns : List ℕ)
    → Ascending ns
    → at_most high (upper_bound low ns) ≡ false
    → Among n ns
    → (n ≤ low) ⊎ (high < n)
unfolding at_most upper_bound
upper_bound_none low high n [] a h i = absurd i
upper_bound_none low high n (x ∷ ns) a h i = elim (Bool-cases (ltb low x)) [
  | inl e ↦ elim i [
    | inl same ↦ inr (rw same (not_leb x high (rw e at h)))
    | inr j ↦ inr (later x n high (not_leb x high (rw e at h)) (AtLeast-Among x n ns a.0 j))
  ]
  | inr e ↦ elim i [
    | inl same ↦ inl (rw same (not_ltb low x e))
    | inr j ↦ upper_bound_none low high n ns a.1 (rw e at h) j
  ]
]

-- How crossesThreshold comes to say no.
says_no :
    (empty outside moved listed extended : Bool)
    → (if empty || outside then false else if moved then true else listed || extended) ≡ false
    → (empty ≡ true) ⊎ ((outside ≡ true) ⊎ (listed ≡ false))
says_no true outside moved listed extended h = inl refl
says_no false true moved listed extended h = inr (inl refl)
says_no false false true listed extended h = cc
says_no false false false false extended h = inr (inr refl)
says_no false false false true extended h = cc

no_groups :
    (n : ℕ) (gs : List (ℕ × TopNGroup)) → is_empty gs ≡ true → Among n (map (λ e. e.0) gs) → ⊥
no_groups n [] e i = i
no_groups n (g ∷ gs) e i = cc

both_outside :
    (old_rank new_rank n outer extended : ℕ)
    → n ≤ outer
    → (leb (max outer extended) old_rank && leb (max outer extended) new_rank) ≡ true
    → ltb old_rank n ≡ ltb new_rank n
both_outside old_rank new_rank n outer extended l h = ground arith

one_side :
    (old_rank new_rank n : ℕ)
    → (n ≤ min old_rank new_rank) ⊎ (max old_rank new_rank < n)
    → ltb old_rank n ≡ ltb new_rank n
one_side old_rank new_rank n (inl l) = ground arith
one_side old_rank new_rank n (inr l) = ground arith

-- No group's selection tells the two ranks apart.
same_side :
    (r : PropertyRanking) (old_rank new_rank n : ℕ)
    → InSync r
    → crosses_threshold r old_rank new_rank ≡ false
    → Among n (map (λ e. e.0) r.top_n_groups)
    → ltb old_rank n ≡ ltb new_rank n
unfolding crosses_threshold
same_side r old_rank new_rank n s c i = elim (says_no _ _ _ _ _ c) [
  | inl e ↦ absurd (no_groups n r.top_n_groups e i)
  | inr (inl e) ↦
      both_outside old_rank new_rank n r.selection_threshold r.publisher_extended_threshold
        (s.outer n i) e
  | inr (inr e) ↦ one_side old_rank new_rank n (
      upper_bound_none (min old_rank new_rank) (max old_rank new_rank) n r.sorted_thresholds
        s.ascending e (s.listed n i))
]

-- None of the sessions publishes a track.
abbrev pub Viewers : View → List (Ptr × SessionInfo) → Type 0
Viewers v [] = Unit {0}
Viewers v ((session, info) ∷ m) = (is_publisher v session ≡ false) × Viewers v m

visit_sessions-Viewers :
    (v : View) (visited : Ptr → Bool) (n : ℕ) (m : List (Ptr × SessionInfo))
    → Viewers v m
    → (viewers : List (Ptr × Bool)) × (visit_sessions v visited n m ≡ (m, viewers, []))
unfolding visit_sessions
visit_sessions-Viewers v visited n [] w = ([], refl)
visit_sessions-Viewers v visited n ((session, info) ∷ m) w =
    let (viewers, e) = visit_sessions-Viewers v visited n m w.1 in
    ((session, info.forward) ∷ viewers, rw (w.0, e) refl)

stays_inside :
    (v : View) (ftn : FullTrackName) (publisher : Ptr) (n : ℕ) (inside : Bool) (g : TopNGroup)
    → Viewers v g.sessions
    → recompute_as v ftn publisher n inside inside g ≡ (g, [])
unfolding recompute_as recompute_state recompute_sessions recompute_displaced ◌then_also◌
stays_inside v ftn publisher n true g w =
    let (viewers, e) = visit_sessions-Viewers v (λ s. not (s == publisher)) n g.sessions w in
    rw e refl
stays_inside v ftn publisher n false g w =
    let (viewers, e) = visit_sessions-Viewers v (λ s. not (s == publisher)) n g.sessions w in
    rw e refl

-- Where crossesThreshold says no, what updateSortValue then skips, recomputeTopNGroups, would change
-- nothing and call nobody back in any group whose sessions publish no track.
pub crosses_threshold-recompute_group :
    (r : PropertyRanking) (old_rank new_rank : ℕ) (ftn : FullTrackName) (publisher : Ptr) (n : ℕ)
    (g : TopNGroup)
    → InSync r
    → crosses_threshold r old_rank new_rank ≡ false
    → Among n (map (λ e. e.0) r.top_n_groups)
    → Viewers (view r) g.sessions
    → recompute_group (view r) ftn publisher old_rank new_rank n g ≡ (g, [])
unfolding recompute_group
crosses_threshold-recompute_group r old_rank new_rank ftn publisher n g s c i w =
    subst (λ was. recompute_as (view r) ftn publisher n was (ltb new_rank n) g ≡ (g, []))
      (sym (same_side r old_rank new_rank n s c i))
      (stays_inside (view r) ftn publisher n (ltb new_rank n) g w)
