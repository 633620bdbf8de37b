-- ===== src/PropertyRanking/Runs.antt =====
-- Any sequence of the operations of src/relay/PropertyRanking.cpp, from a new ranking.
pub mod Joins
pub mod Sequences
use moqx.Base.{
  ℕ, ◌+◌, ◌≤◌, ◌≡◌, refl, ap, subst, sym, ◌∙◌, List, [], ◌∷◌, ◌++◌, Option, none, some, Bool, true,
  false, ◌||◌, if◌then◌else◌, nat_eq, ◌==◌, ℕ_Eq, FullTrackName, FullTrackName_Eq, Bool-cases, inl,
  inr, arith,
}
use moqx.Base.Assoc
use moqx.PropertyRanking.Tracks.{Ptr, RankedTrack, find_track, cached_rank, emplace, erase_track}
use moqx.PropertyRanking.Groups.{TopNGroup, Event, is_some}
use moqx.PropertyRanking.Thresholds.{
  PropertyRanking, view, update_publisher_extended_threshold, crosses_threshold,
}
use moqx.PropertyRanking.Operations.{
  with_groups, register_track, register_new, add_track, or_zero, reconcile_publisher_in_all_groups,
  reconcile_in_group, register_in_group,
}
use moqx.PropertyRanking.Moves.{
  recompute_group, recompute_top_n_groups, sweep_idle, sweep_names, is_idle, selected_names,
  too_recent, move_track, update_found, update_sort_value, drop_track, remove_in_group,
  remove_found, remove_track,
}
use moqx.PropertyRanking.FastPath.{InSync}
use moqx.PropertyRanking.Bounds.{
  register_in_group-Keeps, reconcile_in_group-Keeps, recompute_group-Keeps, sweep_names-Keeps,
  remove_in_group-Keeps,
}
use moqx.PropertyRanking.Consistency.{
  IsConsistent, Descending-emplace, Descending-erase_track, with_groups-IsConsistent,
}

-- The constructor.
pub new_ranking : ℕ → ℕ → ℕ → PropertyRanking
new_ranking max_deselected idle_timeout sweep_throttle = record {
  max_deselected = max_deselected;
  idle_timeout = idle_timeout;
  sweep_throttle = sweep_throttle;
  last_sweep_time = none;
  ranked_tracks = [];
  top_n_groups = [];
  publisher_track_count = [];
  next_seq = 0;
  selection_threshold = 0;
  publisher_extended_threshold = 0;
  sorted_thresholds = [];
}

add_track-IsConsistent :
    (ftn : FullTrackName) (value : ℕ) (publisher : Ptr) (r : PropertyRanking)
    → IsConsistent r
    → IsConsistent (add_track ftn value publisher r)
unfolding add_track update_publisher_extended_threshold
add_track-IsConsistent ftn value publisher r c = record {
  ordered = Descending-emplace _ r.ranked_tracks c.ordered;
  bounded = c.bounded;
  current = record {
    outer = c.current.outer;
    listed = c.current.listed;
    ascending = c.current.ascending;
  };
}

register_new-IsConsistent :
    (ftn : FullTrackName) (value : Option ℕ) (publisher : Ptr) (r : PropertyRanking)
    → IsConsistent r
    → IsConsistent (register_new ftn value publisher r).0
unfolding register_new reconcile_publisher_in_all_groups
register_new-IsConsistent ftn value publisher r c =
    let added = add_track ftn (or_zero value) publisher r in
    let r' = (reconcile_publisher_in_all_groups publisher added).0 in
    with_groups-IsConsistent (register_in_group (view r') ftn (cached_rank ftn r'.ranked_tracks)) r'
      (λ n. register_in_group-Keeps (view r') ftn (cached_rank ftn r'.ranked_tracks) n)
      (with_groups-IsConsistent
        (λ n g. reconcile_in_group (view added) publisher n g (Assoc.find publisher g.sessions))
        added
        (λ n g b.
          reconcile_in_group-Keeps (view added) publisher n g (Assoc.find publisher g.sessions) b)
        (add_track-IsConsistent ftn (or_zero value) publisher r c))

pub register_track-IsConsistent :
    (ftn : FullTrackName) (value : Option ℕ) (publisher : Ptr) (r : PropertyRanking)
    → IsConsistent r
    → IsConsistent (register_track ftn value publisher r).0
unfolding register_track
register_track-IsConsistent ftn value publisher r c =
    elim (Bool-cases (is_some (find_track ftn r.ranked_tracks))) [
      | inl h ↦ rw h c
      | inr h ↦ rw h (register_new-IsConsistent ftn value publisher r c)
    ]

pub sweep_idle-IsConsistent :
    (now : ℕ) (activity : FullTrackName → Option ℕ) (r : PropertyRanking)
    → IsConsistent r
    → IsConsistent (sweep_idle now activity r).0
unfolding sweep_idle
sweep_idle-IsConsistent now activity r c =
    elim (Bool-cases
      (nat_eq r.idle_timeout 0 || too_recent r.sweep_throttle now r.last_sweep_time)) [
        | inl h ↦ rw h c
        | inr h ↦ rw h (
            with_groups-IsConsistent
              (λ n g.
                sweep_names (view r) (λ ftn. is_idle r.idle_timeout now (activity ftn))
                  (selected_names g.track_states) g)
              (record r { last_sweep_time = some now })
              (λ n g b.
                sweep_names-Keeps (view r) (λ ftn. is_idle r.idle_timeout now (activity ftn))
                  (selected_names g.track_states) g b)
              (record {
                ordered = c.ordered;
                bounded = c.bounded;
                current = record {
                  outer = c.current.outer;
                  listed = c.current.listed;
                  ascending = c.current.ascending;
                };
              }))
      ]

move_track-IsConsistent :
    (t : RankedTrack) (value : ℕ) (r : PropertyRanking)
    → IsConsistent r
    → IsConsistent (move_track t value r)
unfolding move_track
move_track-IsConsistent t value r c = record {
  ordered = Descending-emplace _ _ (Descending-erase_track t.ftn r.ranked_tracks c.ordered);
  bounded = c.bounded;
  current = record {
    outer = c.current.outer;
    listed = c.current.listed;
    ascending = c.current.ascending;
  };
}

update_found-IsConsistent :
    (now : ℕ) (activity : FullTrackName → Option ℕ) (ftn : FullTrackName) (value : ℕ)
    (r : PropertyRanking) (found : Option RankedTrack)
    → IsConsistent r
    → IsConsistent (update_found now activity ftn value r found).0
unfolding update_found recompute_top_n_groups
update_found-IsConsistent now activity ftn value r none c = c
update_found-IsConsistent now activity ftn value r (some t) c =
    let moved = move_track t value r in
    let old_rank = cached_rank ftn r.ranked_tracks in
    let new_rank = cached_rank ftn moved.ranked_tracks in
    let still = move_track-IsConsistent t value r c in
    elim (Bool-cases (nat_eq t.key.value value)) [
      | inl h ↦ rw h c
      | inr h ↦ elim (Bool-cases (crosses_threshold moved old_rank new_rank)) [
        | inl k ↦
            rw (h, k)
              (sweep_idle-IsConsistent now activity
                (recompute_top_n_groups ftn t.publisher old_rank new_rank moved).0
                (with_groups-IsConsistent
                  (recompute_group (view moved) ftn t.publisher old_rank new_rank) moved
                  (λ n. recompute_group-Keeps (view moved) ftn t.publisher old_rank new_rank n)
                  still))
        | inr k ↦ rw (h, k) still
      ]
    ]

pub update_sort_value-IsConsistent :
    (now : ℕ) (activity : FullTrackName → Option ℕ) (ftn : FullTrackName) (value : ℕ)
    (r : PropertyRanking)
    → IsConsistent r
    → IsConsistent (update_sort_value now activity ftn value r).0
unfolding update_sort_value
update_sort_value-IsConsistent now activity ftn value r c =
    update_found-IsConsistent now activity ftn value r (find_track ftn r.ranked_tracks) c

drop_track-IsConsistent :
    (t : RankedTrack) (r : PropertyRanking) → IsConsistent r → IsConsistent (drop_track t r)
unfolding drop_track update_publisher_extended_threshold
drop_track-IsConsistent t r c = record {
  ordered = Descending-erase_track t.ftn r.ranked_tracks c.ordered;
  bounded = c.bounded;
  current = record {
    outer = c.current.outer;
    listed = c.current.listed;
    ascending = c.current.ascending;
  };
}

remove_found-IsConsistent :
    (ftn : FullTrackName) (r : PropertyRanking) (found : Option RankedTrack)
    → IsConsistent r
    → IsConsistent (remove_found ftn r found).0
unfolding remove_found
remove_found-IsConsistent ftn r none c = c
remove_found-IsConsistent ftn r (some t) c =
    let r' = drop_track t r in
    with_groups-IsConsistent
      (λ n g. remove_in_group (view r') ftn g (Assoc.find ftn g.track_states)) r'
      (λ n g b. remove_in_group-Keeps (view r') ftn g (Assoc.find ftn g.track_states) b)
      (drop_track-IsConsistent t r c)

pub remove_track-IsConsistent :
    (ftn : FullTrackName) (r : PropertyRanking)
    → IsConsistent r
    → IsConsistent (remove_track ftn r).0
unfolding remove_track
remove_track-IsConsistent ftn r c =
    remove_found-IsConsistent ftn r (find_track ftn r.ranked_tracks) c
