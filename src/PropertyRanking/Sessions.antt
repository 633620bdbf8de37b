-- ===== src/PropertyRanking/Sessions.antt =====
-- The groups of src/relay/PropertyRanking.cpp, and the sessions in them. `sort` is std::sort.
use moqx.Base.{
  ℕ, List, [], ◌∷◌, Option, none, some, Bool, if◌then◌else◌, ℕ_Eq, FullTrackName, FullTrackName_Eq,
  take, map,
}
use moqx.Base.Assoc
use moqx.PropertyRanking.Tracks.{Ptr, RankedTrack}
use moqx.PropertyRanking.Groups.{
  TrackState, selected, SessionInfo, TopNGroup, Event, on_selected, is_publisher,
  reconcile_publisher_selection,
}
use moqx.PropertyRanking.Thresholds.{
  PropertyRanking, view, is_empty, update_publisher_extended_threshold, update_selection_threshold,
}

unfoldable pub select_all : List RankedTrack → List (FullTrackName × TrackState)
select_all [] = []
select_all (t ∷ ts) = Assoc.insert_or_assign t.ftn selected (select_all ts)

unfoldable pub new_group : ℕ → List RankedTrack → TopNGroup
unfolding select_all
new_group n ts = record {
  max_selected = n;
  sessions = [];
  track_states = select_all (take n ts);
  deselected_queue = [];
}

unfoldable pub put_session :
    ℕ → Ptr → SessionInfo → PropertyRanking → Option TopNGroup → PropertyRanking
put_session n session info r none = r
put_session n session info r (some g) = record r {
  top_n_groups =
      Assoc.insert_or_assign n
        (record g { sessions = Assoc.insert_or_assign session info g.sessions }) r.top_n_groups;
}

module _ (sort : List ℕ → List ℕ) where
  unfoldable pub create_if_missing : ℕ → PropertyRanking → Option TopNGroup → PropertyRanking
  unfolding new_group update_selection_threshold
  create_if_missing n r none =
      update_selection_threshold sort
        (record r { top_n_groups = (n, new_group n r.ranked_tracks) ∷ r.top_n_groups })
  create_if_missing n r (some g) = r

  unfoldable pub get_or_create_top_n_group : ℕ → PropertyRanking → PropertyRanking
  unfolding create_if_missing
  get_or_create_top_n_group n r = create_if_missing n r (Assoc.find n r.top_n_groups)

  unfoldable pub remove_top_n_group : ℕ → PropertyRanking → PropertyRanking
  unfolding update_selection_threshold
  remove_top_n_group n r =
      update_selection_threshold sort (record r { top_n_groups = Assoc.erase n r.top_n_groups })

  -- A publisher is reconciled, a viewer told of the first N tracks. The publishers' threshold is of
  -- the groups with the session in it.
  unfoldable pub add_session_to_top_n_group :
      ℕ → Ptr → Bool → PropertyRanking → PropertyRanking × List Event
  unfolding get_or_create_top_n_group put_session is_publisher reconcile_publisher_selection
      update_publisher_extended_threshold
  add_session_to_top_n_group n session forward r =
      let info : SessionInfo = record {
        forward = forward;
        waterline_key = none;
        selected_tracks = [];
      } in
      let created = get_or_create_top_n_group n r in
      let joined = put_session n session info created (Assoc.find n created.top_n_groups) in
      let (info', events) = reconcile_publisher_selection (view joined) info n session in
      if is_publisher (view joined) session
      then (
        put_session n session info' (update_publisher_extended_threshold joined)
            (Assoc.find n joined.top_n_groups),
        events,
      )
      else (joined, map (λ t. on_selected t.ftn session forward) (take n joined.ranked_tracks))

  unfoldable pub leave_group : ℕ → Ptr → PropertyRanking → Option TopNGroup → PropertyRanking
  unfolding remove_top_n_group update_publisher_extended_threshold is_publisher
  leave_group n session r none = r
  leave_group n session r (some g) =
      let left = Assoc.erase session g.sessions in
      let smaller = if is_empty left then remove_top_n_group n r else record r {
        top_n_groups = Assoc.insert_or_assign n (record g { sessions = left }) r.top_n_groups;
      } in
      if is_publisher (view r) session then update_publisher_extended_threshold smaller else smaller

  unfoldable pub remove_session_from_top_n_group : ℕ → Ptr → PropertyRanking → PropertyRanking
  unfolding leave_group
  remove_session_from_top_n_group n session r =
      leave_group n session r (Assoc.find n r.top_n_groups)

unfoldable pub set_forward : Ptr → Bool → TopNGroup → Option SessionInfo → TopNGroup
set_forward session forward g none = g
set_forward session forward g (some info) = record g {
  sessions = Assoc.insert_or_assign session (record info { forward = forward }) g.sessions;
}

unfoldable pub forward_in_group :
    ℕ → Ptr → Bool → PropertyRanking → Option TopNGroup → PropertyRanking
unfolding set_forward
forward_in_group n session forward r none = r
forward_in_group n session forward r (some g) = record r {
  top_n_groups =
      Assoc.insert_or_assign n (set_forward session forward g (Assoc.find session g.sessions))
        r.top_n_groups;
}

unfoldable pub update_session_forward : ℕ → Ptr → Bool → PropertyRanking → PropertyRanking
unfolding forward_in_group
update_session_forward n session forward r =
    forward_in_group n session forward r (Assoc.find n r.top_n_groups)
