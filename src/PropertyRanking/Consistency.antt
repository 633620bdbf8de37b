-- ===== src/PropertyRanking/Consistency.antt =====
-- Any operation of src/relay/PropertyRanking.cpp leaves a consistent ranking consistent.
use moqx.Base.{
  ℕ, ◌+◌, ◌%◌, ◌^◌, ◌≤◌, ◌<◌, ◌≡◌, ◌↔◌, ◌⊎◌, max, refl, ap, subst, inl, inr, List, [], ◌∷◌, true,
  false, ◌==◌, ℕ_Eq, map, FullTrackName, FullTrackName_Eq, Among, Bool-cases, arith,
}
use moqx.PropertyRanking.Tracks.{RankKey, RankedTrack, outranks, key_eq, emplace, erase_track}
use moqx.PropertyRanking.Groups.{TopNGroup, Event}
use moqx.PropertyRanking.Thresholds.{PropertyRanking}
use moqx.PropertyRanking.Operations.{over_groups, with_groups}
use moqx.PropertyRanking.Personal.{Behind, Descending}
use moqx.PropertyRanking.FastPath.{Ascending, InSync}
use moqx.PropertyRanking.Bounds.{Bounded}

abbrev pub AllBounded : ℕ → List (ℕ × TopNGroup) → Type 0
AllBounded n [] = Unit {0}
AllBounded n ((k, g) ∷ gs) = Bounded n g × AllBounded n gs

abbrev pub names : List (ℕ × TopNGroup) → List ℕ
names gs = map (λ e. e.0) gs

abbrev pub greatest : List ℕ → ℕ
greatest [] = 0
greatest (n ∷ ns) = max n (greatest ns)

-- The selection thresholds are those of the groups: the outer one is the sum of the largest N and
-- maxDeselected, which wraps, or 0 without groups; every N is listed in order, and nothing else.
pub record IsCurrent (r : PropertyRanking) : Type 0 where
  pub outer :
      ((names r.top_n_groups ≡ []) × (r.selection_threshold ≡ 0))
      ⊎ (r.selection_threshold ≡ (greatest (names r.top_n_groups) + r.max_deselected) % 2 ^ 64)
  pub listed : (n : ℕ) → Among n r.sorted_thresholds ↔ Among n (names r.top_n_groups)
  pub ascending : Ascending r.sorted_thresholds

-- The tracks are in order, best first and no two alike; no queue of a group exceeds maxDeselected;
-- the selection thresholds are those of the groups.
pub record IsConsistent (r : PropertyRanking) : Type 0 where
  pub ordered : Descending r.ranked_tracks
  pub bounded : AllBounded r.max_deselected r.top_n_groups
  pub current : IsCurrent r

Behind-emplace :
    (key : RankKey) (t : RankedTrack) (ts : List RankedTrack)
    → outranks key t.key ≡ true
    → Behind key ts
    → Behind key (emplace t ts)
unfolding emplace
Behind-emplace key t [] o b = (o, tt)
Behind-emplace key t (u ∷ us) o b = elim (Bool-cases (outranks t.key u.key)) [
  | inl h ↦ rw h (o, b)
  | inr h ↦ elim (Bool-cases (key_eq t.key u.key)) [
    | inl e ↦ rw (h, e) b
    | inr e ↦ rw (h, e) (b.0, Behind-emplace key t us o b.1)
  ]
]

outranks_trans : (a b c : RankKey) → outranks a b ≡ true → outranks b c ≡ true → outranks a c ≡ true
outranks_trans a b c p q = ground arith

outranked_by_better :
    (a b : RankKey) (ts : List RankedTrack) → outranks a b ≡ true → Behind b ts → Behind a ts
outranked_by_better a b [] o p = p
outranked_by_better a b (t ∷ ts) o p =
    (outranks_trans a b t.key o p.0, outranked_by_better a b ts o p.1)

outranked : (a b : RankKey) → outranks a b ≡ false → key_eq a b ≡ false → outranks b a ≡ true
outranked a b p q = ground arith

pub Descending-emplace :
    (t : RankedTrack) (ts : List RankedTrack) → Descending ts → Descending (emplace t ts)
unfolding emplace
Descending-emplace t [] d = (tt, tt)
Descending-emplace t (u ∷ us) d = elim (Bool-cases (outranks t.key u.key)) [
  | inl h ↦ rw h ((h, outranked_by_better t.key u.key us h d.0), d)
  | inr h ↦ elim (Bool-cases (key_eq t.key u.key)) [
    | inl e ↦ rw (h, e) d
    | inr e ↦
        rw (h, e)
          (Behind-emplace u.key t us (outranked t.key u.key h e) d.0, Descending-emplace t us d.1)
  ]
]

Behind-erase_track :
    (key : RankKey) (ftn : FullTrackName) (ts : List RankedTrack)
    → Behind key ts
    → Behind key (erase_track ftn ts)
unfolding erase_track
Behind-erase_track key ftn [] b = b
Behind-erase_track key ftn (t ∷ ts) b = elim (Bool-cases (t.ftn == ftn)) [
  | inl h ↦ rw h b.1
  | inr h ↦ rw h (b.0, Behind-erase_track key ftn ts b.1)
]

pub Descending-erase_track :
    (ftn : FullTrackName) (ts : List RankedTrack) → Descending ts → Descending (erase_track ftn ts)
unfolding erase_track
Descending-erase_track ftn [] d = d
Descending-erase_track ftn (t ∷ ts) d = elim (Bool-cases (t.ftn == ftn)) [
  | inl h ↦ rw h d.1
  | inr h ↦ rw h (Behind-erase_track t.key ftn ts d.0, Descending-erase_track ftn ts d.1)
]

-- Groups of the same N in other states.
pub same_names-IsCurrent :
    (r : PropertyRanking) (gs : List (ℕ × TopNGroup))
    → names gs ≡ names r.top_n_groups
    → IsCurrent r
    → IsCurrent (record r { top_n_groups = gs })
same_names-IsCurrent r gs same c = record {
  outer = rw same c.outer;
  listed = λ n. rw same (c.listed n);
  ascending = c.ascending;
}

greatest-Among : (n : ℕ) (ns : List ℕ) → Among n ns → n ≤ greatest ns
greatest-Among n [] i = absurd i
greatest-Among n (m ∷ ns) (inl e) = omega (arith, e)
greatest-Among n (m ∷ ns) (inr i) = omega (arith, greatest-Among n ns i)

-- Where nothing wraps, the fast path can rely on such thresholds.
IsCurrent-InSync :
    (r : PropertyRanking)
    → greatest (names r.top_n_groups) + r.max_deselected < 2 ^ 64
    → IsCurrent r
    → InSync r
IsCurrent-InSync r small c = record {
  outer = λ n i. within n i c.outer;
  listed = λ n i. (c.listed n).1 i;
  ascending = c.ascending;
}
  where
    within :
        (n : ℕ)
        → Among n (names r.top_n_groups)
        → ((names r.top_n_groups ≡ []) × (r.selection_threshold ≡ 0))
          ⊎ (r.selection_threshold ≡ (greatest (names r.top_n_groups) + r.max_deselected) % 2 ^ 64)
        → n ≤ r.selection_threshold
    within n i (inl (empty, e)) = absurd (subst (Among n) empty i)
    within n i (inr e) = omega (arith, greatest-Among n (names r.top_n_groups) i, e, small)

module _ (f : ℕ → TopNGroup → TopNGroup × List Event) where
  names-over_groups : (gs : List (ℕ × TopNGroup)) → names (over_groups f gs).0 ≡ names gs
  unfolding over_groups
  names-over_groups [] = refl
  names-over_groups ((n, g) ∷ gs) = ap (◌∷◌ n) (names-over_groups gs)

  AllBounded-over_groups :
      (m : ℕ) (gs : List (ℕ × TopNGroup))
      → ((n : ℕ) (g : TopNGroup) → Bounded m g → Bounded m (f n g).0)
      → AllBounded m gs
      → AllBounded m (over_groups f gs).0
  unfolding over_groups
  AllBounded-over_groups m [] k b = b
  AllBounded-over_groups m ((n, g) ∷ gs) k b = (k n g b.0, AllBounded-over_groups m gs k b.1)

  -- A loop over the groups, each change of which keeps its queue within the bound.
  pub with_groups-IsConsistent :
      (r : PropertyRanking)
      → ((n : ℕ) (g : TopNGroup) → Bounded r.max_deselected g → Bounded r.max_deselected (f n g).0)
      → IsConsistent r
      → IsConsistent (with_groups f r).0
  unfolding with_groups
  with_groups-IsConsistent r k c = record {
    ordered = c.ordered;
    bounded = AllBounded-over_groups r.max_deselected r.top_n_groups k c.bounded;
    current = same_names-IsCurrent r _ (names-over_groups r.top_n_groups) c.current;
  }
