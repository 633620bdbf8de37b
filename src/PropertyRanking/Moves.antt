-- ===== src/PropertyRanking/Moves.antt =====
-- updateSortValue, removeTrack and sweepIdle of src/relay/PropertyRanking.cpp.
use moqx.Base.{
  ℕ, ◌-◌, List, [], ◌∷◌, ◌++◌, Option, none, some, Bool, true, false, ◌&&◌, ◌||◌, not,
  if◌then◌else◌, ltb, nat_eq, ◌==◌, ℕ_Eq, FullTrackName, FullTrackName_Eq, get_elem?,
}
use moqx.Base.Assoc
use moqx.PropertyRanking.Tracks.{
  Ptr, RankKey, RankedTrack, emplace, find_track, erase_track, cached_rank,
}
use moqx.PropertyRanking.Groups.{
  TrackState, selected, deselected, TopNGroup, Event, View, is_selected, visit_sessions, batch,
  notify_track_selected, remove_from_deselected_queue, set_state, demote_track,
  demote_track_at_rank, state_selected, promote, promote_next_available_track,
}
use moqx.PropertyRanking.Thresholds.{
  PropertyRanking, view, update_publisher_extended_threshold, crosses_threshold,
}
use moqx.PropertyRanking.Operations.{with_groups, ◌then_also◌}

-- The shared state of a group, for a track that is now inside or not.
unfoldable pub recompute_state :
    View → FullTrackName → Bool → Bool → TopNGroup → TopNGroup × List Event
unfolding set_state remove_from_deselected_queue demote_track
recompute_state v ftn was now g =
    if now && not was
    then (remove_from_deselected_queue (set_state ftn selected g) ftn, [])
    else if was && not now
    then demote_track v g ftn
    else (g, [])

-- The sessions of a group: the publishers but the track's own are reconciled, the viewers told.
unfoldable pub recompute_sessions :
    View → FullTrackName → Ptr → ℕ → Bool → Bool → TopNGroup → TopNGroup × List Event
unfolding visit_sessions batch
recompute_sessions v ftn publisher n was now g =
    let (sessions, viewers, events) = visit_sessions v (λ s. not (s == publisher)) n g.sessions in
    (record g { sessions = sessions }, events ++ (if not was && now then batch ftn viewers else []))

-- The track that has come to the last rank of the group's.
unfoldable pub promote_ranked : View → Option RankedTrack → TopNGroup → TopNGroup × List Event
unfolding promote state_selected
promote_ranked v none g = (g, [])
promote_ranked v (some t) g = if state_selected g t.ftn then (g, []) else promote v t.ftn g

unfoldable pub recompute_displaced : View → ℕ → Bool → Bool → TopNGroup → TopNGroup × List Event
unfolding demote_track_at_rank promote_ranked
recompute_displaced v n was now g =
    if not was && now
    then demote_track_at_rank v n g
    else if was && not now
    then promote_ranked v (get_elem? v.tracks (n - 1)) g
    else (g, [])

-- recomputeTopNGroups, for one group, of a track that was within the group's N or not, and is now.
unfoldable pub recompute_as :
    View → FullTrackName → Ptr → ℕ → Bool → Bool → TopNGroup → TopNGroup × List Event
unfolding recompute_state recompute_sessions recompute_displaced ◌then_also◌
recompute_as v ftn publisher n was now g =
    recompute_state v ftn was now g
    then_also recompute_sessions v ftn publisher n was now
    then_also recompute_displaced v n was now

unfoldable pub recompute_group :
    View → FullTrackName → Ptr → ℕ → ℕ → ℕ → TopNGroup → TopNGroup × List Event
unfolding recompute_as
recompute_group v ftn publisher old_rank new_rank n g =
    recompute_as v ftn publisher n (ltb old_rank n) (ltb new_rank n) g

unfoldable pub recompute_top_n_groups :
    FullTrackName → Ptr → ℕ → ℕ → PropertyRanking → PropertyRanking × List Event
unfolding recompute_group with_groups
recompute_top_n_groups ftn publisher old_rank new_rank r =
    with_groups (recompute_group (view r) ftn publisher old_rank new_rank) r

-- A track that never published, or not within the timeout; `none` is the default time_point.
unfoldable pub is_idle : ℕ → ℕ → Option ℕ → Bool
is_idle timeout now none = true
is_idle timeout now (some last) = ltb timeout (now - last)

unfoldable pub selected_names : List (FullTrackName × TrackState) → List FullTrackName
selected_names [] = []
selected_names ((ftn, selected) ∷ m) = ftn ∷ selected_names m
selected_names ((ftn, deselected) ∷ m) = selected_names m

-- sweepIdle's loop over the names that were selected when it started.
unfoldable pub sweep_names :
    View → (FullTrackName → Bool) → List FullTrackName → TopNGroup → TopNGroup × List Event
unfolding demote_track promote_next_available_track ◌then_also◌
sweep_names v idle [] g = (g, [])
sweep_names v idle (ftn ∷ ftns) g =
    (if idle ftn
      then (demote_track v g ftn) then_also (λ g'. promote_next_available_track v g' ftn)
      else (g, []))
    then_also sweep_names v idle ftns

unfoldable pub too_recent : ℕ → ℕ → Option ℕ → Bool
too_recent throttle now none = false
too_recent throttle now (some last) = ltb 0 throttle && ltb (now - last) throttle

-- `now` is the reading of the clock, and `activity` getLastActivity.
unfoldable pub sweep_idle :
    ℕ → (FullTrackName → Option ℕ) → PropertyRanking → PropertyRanking × List Event
unfolding sweep_names is_idle selected_names too_recent with_groups
sweep_idle now activity r =
    if nat_eq r.idle_timeout 0 || too_recent r.sweep_throttle now r.last_sweep_time
    then (r, [])
    else with_groups
        (λ n g.
          sweep_names (view r) (λ ftn. is_idle r.idle_timeout now (activity ftn))
            (selected_names g.track_states) g)
        (record r { last_sweep_time = some now })

-- The ranking after the move of a track to another value.
unfoldable pub move_track : RankedTrack → ℕ → PropertyRanking → PropertyRanking
unfolding emplace erase_track
move_track t value r =
    let key : RankKey = record { value = value; arrival_seq = t.key.arrival_seq } in
    record r {
      ranked_tracks = emplace (record t { key = key }) (erase_track t.ftn r.ranked_tracks);
    }

unfoldable pub update_found :
    ℕ
    → (FullTrackName → Option ℕ)
    → FullTrackName
    → ℕ
    → PropertyRanking
    → Option RankedTrack
    → PropertyRanking × List Event
unfolding move_track crosses_threshold recompute_top_n_groups sweep_idle cached_rank
update_found now activity ftn value r none = (r, [])
update_found now activity ftn value r (some t) =
    let moved = move_track t value r in
    let old_rank = cached_rank ftn r.ranked_tracks in
    let new_rank = cached_rank ftn moved.ranked_tracks in
    let (r', events) = recompute_top_n_groups ftn t.publisher old_rank new_rank moved in
    let (r'', more) = sweep_idle now activity r' in
    if nat_eq t.key.value value
    then (r, [])
    else if crosses_threshold moved old_rank new_rank
    then (r'', events ++ more)
    else (moved, [])

unfoldable pub update_sort_value :
    ℕ
    → (FullTrackName → Option ℕ)
    → FullTrackName
    → ℕ
    → PropertyRanking
    → PropertyRanking × List Event
unfolding update_found find_track
update_sort_value now activity ftn value r =
    update_found now activity ftn value r (find_track ftn r.ranked_tracks)

-- The publisher has one track less; a publisher without any is forgotten.
unfoldable pub discount : Ptr → List (Ptr × ℕ) → Option ℕ → List (Ptr × ℕ)
discount publisher counts none = counts
discount publisher counts (some n) =
    if nat_eq (n - 1) 0
    then Assoc.erase publisher counts
    else Assoc.insert_or_assign publisher (n - 1) counts

unfoldable pub drop_track : RankedTrack → PropertyRanking → PropertyRanking
unfolding discount erase_track update_publisher_extended_threshold
drop_track t r =
    let counted = update_publisher_extended_threshold (record r {
      publisher_track_count =
          discount t.publisher r.publisher_track_count
            (Assoc.find t.publisher r.publisher_track_count);
    }) in
    record counted { ranked_tracks = erase_track t.ftn r.ranked_tracks }

-- What takes the place of a selected track that is gone: the head of the queue, or the best track
-- that is not selected.
unfoldable pub refill :
    View → FullTrackName → List FullTrackName → TopNGroup → TopNGroup × List Event
unfolding notify_track_selected set_state promote_next_available_track
refill v ftn [] g = promote_next_available_track v g ftn
refill v ftn (promoted ∷ queue) g =
    notify_track_selected v promoted
      (set_state promoted selected (record g { deselected_queue = queue }))

unfoldable pub remove_in_group :
    View → FullTrackName → TopNGroup → Option TrackState → TopNGroup × List Event
unfolding refill remove_from_deselected_queue is_selected
remove_in_group v ftn g none = (g, [])
remove_in_group v ftn g (some state) =
    let g' =
      remove_from_deselected_queue (record g { track_states = Assoc.erase ftn g.track_states })
        ftn in
    if is_selected (some state) then refill v ftn g'.deselected_queue g' else (g', [])

unfoldable pub remove_found :
    FullTrackName → PropertyRanking → Option RankedTrack → PropertyRanking × List Event
unfolding drop_track remove_in_group with_groups
remove_found ftn r none = (r, [])
remove_found ftn r (some t) =
    let r' = drop_track t r in
    with_groups (λ n g. remove_in_group (view r') ftn g (Assoc.find ftn g.track_states)) r'

unfoldable pub remove_track : FullTrackName → PropertyRanking → PropertyRanking × List Event
unfolding remove_found find_track
remove_track ftn r = remove_found ftn r (find_track ftn r.ranked_tracks)
