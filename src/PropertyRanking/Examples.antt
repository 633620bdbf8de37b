-- ===== src/PropertyRanking/Examples.antt =====
-- Rankings of src/relay/PropertyRanking.cpp with two tracks, and a sort in place of std::sort.
use moqx.Base.{
  ℕ, ◌≤◌, ◌≡◌, refl, ◌↔◌, inl, inr, List, [], ◌∷◌, none, some, true, false, if◌then◌else◌, leb,
  leb→le, take, contains, FullTrackName, FullTrackName_Eq, Among, Bool-cases, arith,
}
use moqx.PropertyRanking.Tracks.{Ptr, RankedTrack}
use moqx.PropertyRanking.Groups.{
  SessionInfo, TopNGroup, is_publisher, reconcile_publisher_selection,
}
use moqx.PropertyRanking.Thresholds.{PropertyRanking, view, crosses_threshold}
use moqx.PropertyRanking.Moves.{recompute_group}
use moqx.PropertyRanking.FastPath.{
  AtLeast, Ascending, SortsAscending, InSync, Viewers, crosses_threshold-recompute_group,
}
use moqx.PropertyRanking.Personal.{others}
use moqx.PropertyRanking.Personal.Deliveries.{delivered_after, reconcile_publisher_selection-others}
use moqx.PropertyRanking.Consistency.{IsConsistent}
use moqx.PropertyRanking.Runs.{new_ranking}
use moqx.PropertyRanking.Runs.Sequences.{
  Operation, registers, updates, joins, leaves, run_all, run_all-IsConsistent,
}

insert : ℕ → List ℕ → List ℕ
insert n [] = n ∷ []
insert n (m ∷ ms) = if leb n m then n ∷ m ∷ ms else m ∷ insert n ms

sort : List ℕ → List ℕ
sort [] = []
sort (n ∷ ns) = insert n (sort ns)

lower_bound : (n m : ℕ) (ms : List ℕ) → n ≤ m → AtLeast m ms → AtLeast n ms
lower_bound n m [] l a = tt
lower_bound n m (x ∷ ms) l a = (omega (arith, a.0), lower_bound n m ms l a.1)

AtLeast-insert : (k n : ℕ) (ms : List ℕ) → k ≤ n → AtLeast k ms → AtLeast k (insert n ms)
unfolding insert
AtLeast-insert k n [] l a = (l, tt)
AtLeast-insert k n (m ∷ ms) l a = elim (Bool-cases (leb n m)) [
  | inl h ↦ rw h (l, a)
  | inr h ↦ rw h (a.0, AtLeast-insert k n ms l a.1)
]

Ascending-insert : (n : ℕ) (ms : List ℕ) → Ascending ms → Ascending (insert n ms)
unfolding insert
Ascending-insert n [] a = (tt, tt)
Ascending-insert n (m ∷ ms) a = elim (Bool-cases (leb n m)) [
  | inl h ↦ rw h ((leb→le n m h, lower_bound n m ms (leb→le n m h) a.0), a)
  | inr h ↦ rw h (AtLeast-insert m n ms (ground arith) a.0, Ascending-insert n ms a.1)
]

Among-insert : (k n : ℕ) (ms : List ℕ) → Among k (insert n ms) ↔ Among k (n ∷ ms)
unfolding insert
Among-insert k n [] = ((λ i. i), λ i. i)
Among-insert k n (m ∷ ms) = elim (Bool-cases (leb n m)) [
  | inl h ↦ rw h ((λ i. i), λ i. i)
  | inr h ↦
      let (into, back) = Among-insert k n ms in
      rw h (
        (λ i. elim i [
          | inl e ↦ inr (inl e)
          | inr j ↦ elim (into j) [ inl e ↦ inl e | inr l ↦ inr (inr l) ]
        ]),
        λ i. elim i [
          | inl e ↦ inr (back (inl e))
          | inr j ↦ elim j [ inl e ↦ inl e | inr l ↦ inr (back (inr l)) ]
        ],
      )
]

Ascending-sort : (ns : List ℕ) → Ascending (sort ns)
unfolding sort
Ascending-sort [] = tt
Ascending-sort (n ∷ ns) = Ascending-insert n (sort ns) (Ascending-sort ns)

Among-sort : (k : ℕ) (ns : List ℕ) → Among k (sort ns) ↔ Among k ns
unfolding sort
Among-sort k [] = ((λ i. i), λ i. i)
Among-sort k (n ∷ ns) =
    let (into, back) = Among-sort k ns in
    let (open_up, put_in) = Among-insert k n (sort ns) in
    (
      (λ i. elim (open_up i) [ inl e ↦ inl e | inr j ↦ inr (into j) ]),
      λ i. put_in (elim i [ inl e ↦ inl e | inr j ↦ inr (back j) ]),
    )

sort-SortsAscending : SortsAscending sort
sort-SortsAscending = record { same = Among-sort; ascending = Ascending-sort }

abbrev name : ℕ → FullTrackName
name n = record { track_namespace = []; track_name = n ∷ [] }

abbrev track : ℕ → ℕ → Ptr → RankedTrack
track n value publisher = record {
  key = record { value = value; arrival_seq = n };
  ftn = name n;
  publisher = publisher;
}

abbrev info : SessionInfo
info = record { forward = true; waterline_key = none; selected_tracks = name 2 ∷ [] }

abbrev group : TopNGroup
group = record {
  max_selected = 1;
  sessions = (9, info) ∷ [];
  track_states = [];
  deselected_queue = [];
}

abbrev ranking : PropertyRanking
ranking = record {
  max_deselected = 0;
  idle_timeout = 0;
  sweep_throttle = 0;
  last_sweep_time = none;
  ranked_tracks = track 1 8 5 ∷ track 2 6 6 ∷ track 3 4 7 ∷ [];
  top_n_groups = (1, group) ∷ [];
  publisher_track_count = [];
  next_seq = 4;
  selection_threshold = 1;
  publisher_extended_threshold = 0;
  sorted_thresholds = 1 ∷ [];
}

ranking-InSync : InSync ranking
ranking-InSync = record {
  outer = λ n i. elim i [ inl e ↦ omega (arith, e) | inr j ↦ absurd j ];
  listed = λ n i. i;
  ascending = (tt, tt);
}

not_crossed : crosses_threshold ranking 2 1 ≡ false
unfolding crosses_threshold
not_crossed = refl

no_publishers : Viewers (view ranking) group.sessions
unfolding is_publisher
no_publishers = (refl, tt)

crosses_threshold-recompute_group_example :
    recompute_group (view ranking) (name 3) 7 2 1 1 group ≡ (group, [])
crosses_threshold-recompute_group_example =
    crosses_threshold-recompute_group ranking 2 1 (name 3) 7 1 group ranking-InSync not_crossed
      (inl refl) no_publishers

reconcile_publisher_selection-others_example :
    ((reconcile_publisher_selection (view ranking) info 2 5).0.selected_tracks
      ≡ take 2 (others 5 (view ranking).tracks))
    × ((f : FullTrackName)
        → delivered_after 5 f
            (reconcile_publisher_selection (view ranking) info 2 5).1
            (contains info.selected_tracks f)
          ≡ contains (take 2 (others 5 (view ranking).tracks)) f)
reconcile_publisher_selection-others_example =
    reconcile_publisher_selection-others (view ranking) info 2 5 (omega arith)
      ((refl, (refl, tt)), ((refl, tt), (tt, tt)))

abbrev operations : List Operation
operations =
    registers (name 1) (some 8) 5
    ∷ joins 1 9 true
    ∷ joins 3 8 true
    ∷ registers (name 2) none 6
    ∷ updates 0 (λ f. none) (name 2) 9
    ∷ leaves 1 9
    ∷ []

run_all-IsConsistent_example : IsConsistent (run_all sort operations (new_ranking 2 0 0))
run_all-IsConsistent_example = run_all-IsConsistent sort operations 2 0 0 sort-SortsAscending
