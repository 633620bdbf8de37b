-- ===== src/PropertyRanking/Runs/Sequences.antt =====
-- Sequences of the operations of src/relay/PropertyRanking.cpp, from a new ranking.
use moqx.Base.{ℕ, refl, inl, List, [], ◌∷◌, Option, Bool, FullTrackName, ℕ_Eq}
use moqx.Base.Assoc
use moqx.PropertyRanking.Tracks.{Ptr}
use moqx.PropertyRanking.Thresholds.{PropertyRanking}
use moqx.PropertyRanking.Operations.{register_track}
use moqx.PropertyRanking.Moves.{update_sort_value, remove_track, sweep_idle}
use moqx.PropertyRanking.Sessions.{
  add_session_to_top_n_group, remove_session_from_top_n_group, update_session_forward,
}
use moqx.PropertyRanking.FastPath.{SortsAscending}
use moqx.PropertyRanking.Consistency.{IsConsistent}
use moqx.PropertyRanking.Runs.{
  new_ranking, register_track-IsConsistent, update_sort_value-IsConsistent,
  remove_track-IsConsistent, sweep_idle-IsConsistent,
}
use moqx.PropertyRanking.Runs.Joins.{
  add_session-IsConsistent, leave_group-IsConsistent, forward_in_group-IsConsistent,
}

-- The operations with their arguments; `now` and `activity` are the clock and getLastActivity.
pub data Operation : Type 0 where
  registers : FullTrackName → Option ℕ → Ptr → Operation
  updates : ℕ → (FullTrackName → Option ℕ) → FullTrackName → ℕ → Operation
  removes : FullTrackName → Operation
  joins : ℕ → Ptr → Bool → Operation
  forwards : ℕ → Ptr → Bool → Operation
  leaves : ℕ → Ptr → Operation
  sweeps : ℕ → (FullTrackName → Option ℕ) → Operation

module _ (sort : List ℕ → List ℕ) where
  pub run : Operation → PropertyRanking → PropertyRanking
  run (registers ftn value publisher) r = (register_track ftn value publisher r).0
  run (updates now activity ftn value) r = (update_sort_value now activity ftn value r).0
  run (removes ftn) r = (remove_track ftn r).0
  run (joins n session forward) r = (add_session_to_top_n_group sort n session forward r).0
  run (forwards n session forward) r = update_session_forward n session forward r
  run (leaves n session) r = remove_session_from_top_n_group sort n session r
  run (sweeps now activity) r = (sweep_idle now activity r).0

  pub run_all : List Operation → PropertyRanking → PropertyRanking
  unfolding run
  run_all [] r = r
  run_all (op ∷ ops) r = run_all ops (run op r)

  run-IsConsistent :
      (op : Operation) (r : PropertyRanking)
      → SortsAscending sort
      → IsConsistent r
      → IsConsistent (run op r)
  unfolding run remove_session_from_top_n_group update_session_forward
  run-IsConsistent (registers ftn value publisher) r s c =
      register_track-IsConsistent ftn value publisher r c
  run-IsConsistent (updates now activity ftn value) r s c =
      update_sort_value-IsConsistent now activity ftn value r c
  run-IsConsistent (removes ftn) r s c = remove_track-IsConsistent ftn r c
  run-IsConsistent (joins n session forward) r s c =
      add_session-IsConsistent sort s n session forward r c
  run-IsConsistent (forwards n session forward) r s c =
      forward_in_group-IsConsistent n session forward r (Assoc.find n r.top_n_groups) refl c
  run-IsConsistent (leaves n session) r s c =
      leave_group-IsConsistent sort s n session r (Assoc.find n r.top_n_groups) refl c
  run-IsConsistent (sweeps now activity) r s c = sweep_idle-IsConsistent now activity r c

  run_all-keeps :
      (ops : List Operation) (r : PropertyRanking)
      → SortsAscending sort
      → IsConsistent r
      → IsConsistent (run_all ops r)
  unfolding run_all
  run_all-keeps [] r s c = c
  run_all-keeps (op ∷ ops) r s c = run_all-keeps ops (run op r) s (run-IsConsistent op r s c)

new_ranking-IsConsistent : (d idle throttle : ℕ) → IsConsistent (new_ranking d idle throttle)
unfolding new_ranking
new_ranking-IsConsistent d idle throttle = record {
  ordered = tt;
  bounded = tt;
  current = record { outer = inl (refl, refl); listed = λ n. ((λ i. i), λ i. i); ascending = tt };
}

-- After any operations on a new ranking the tracks are in order, best first and no two alike, no
-- group's deselected queue exceeds maxDeselected, sortedThresholds_ lists the N of every group that
-- there is, in order, and no other number, and selectionThreshold_ is the sum of the largest N and
-- maxDeselected modulo 2^64, or 0 where there is no group, if std::sort puts numbers in order.
pub run_all-IsConsistent :
    (sort : List ℕ → List ℕ) (ops : List Operation) (max_deselected idle_timeout sweep_throttle : ℕ)
    → SortsAscending sort
    → IsConsistent (run_all sort ops (new_ranking max_deselected idle_timeout sweep_throttle))
run_all-IsConsistent sort ops max_deselected idle_timeout sweep_throttle s =
    run_all-keeps sort ops (new_ranking max_deselected idle_timeout sweep_throttle) s
      (new_ranking-IsConsistent max_deselected idle_timeout sweep_throttle)
