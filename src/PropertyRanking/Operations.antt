-- ===== src/PropertyRanking/Operations.antt =====
-- The operations of src/relay/PropertyRanking.cpp: each gives the new state, and the callbacks made.
use moqx.Base.{
  ℕ, ◌+◌, ◌%◌, ◌^◌, List, [], ◌∷◌, ◌++◌, Option, none, some, true, ◌||◌, not, if◌then◌else◌, ltb,
  ℕ_Eq, FullTrackName, FullTrackName_Eq, take, map,
}
use moqx.Base.Assoc
use moqx.PropertyRanking.Tracks.{Ptr, RankKey, RankedTrack, emplace, find_track, cached_rank}
use moqx.PropertyRanking.Groups.{
  selected, SessionInfo, TopNGroup, Event, View, is_some, reconcile_publisher_selection,
  visit_sessions, notify_track_selected, set_state, demote_track_at_rank,
}
use moqx.PropertyRanking.Thresholds.{
  PropertyRanking, view, is_empty, update_publisher_extended_threshold,
}

-- One change after another, of one group.
infixl 20 ◌then_also◌
unfoldable pub ◌then_also◌ :
    TopNGroup × List Event → (TopNGroup → TopNGroup × List Event) → TopNGroup × List Event
(g, events) then_also f = let (g', more) = f g in (g', events ++ more)

-- A loop over the groups.
unfoldable pub over_groups :
    (ℕ → TopNGroup → TopNGroup × List Event)
    → List (ℕ × TopNGroup)
    → List (ℕ × TopNGroup) × List Event
over_groups f [] = ([], [])
over_groups f ((n, g) ∷ gs) =
    let (g', events) = f n g in
    let (gs', more) = over_groups f gs in ((n, g') ∷ gs', events ++ more)

unfoldable pub with_groups :
    (ℕ → TopNGroup → TopNGroup × List Event) → PropertyRanking → PropertyRanking × List Event
unfolding over_groups
with_groups f r =
    let (gs, events) = over_groups f r.top_n_groups in (record r { top_n_groups = gs }, events)

unfoldable pub or_zero : Option ℕ → ℕ
or_zero none = 0
or_zero (some n) = n

-- A viewer that becomes a publisher has what the group's viewers have; its own set is empty.
unfoldable pub seed : View → ℕ → SessionInfo → SessionInfo
unfolding is_some
seed v n info =
    if not (is_empty info.selected_tracks) || is_some info.waterline_key
    then info
    else record info { selected_tracks = map (λ t. t.ftn) (take n v.tracks) }

unfoldable pub reconcile_in_group :
    View → Ptr → ℕ → TopNGroup → Option SessionInfo → TopNGroup × List Event
unfolding seed reconcile_publisher_selection
reconcile_in_group v session n g none = (g, [])
reconcile_in_group v session n g (some info) =
    let (info', events) = reconcile_publisher_selection v (seed v n info) n session in
    (record g { sessions = Assoc.insert_or_assign session info' g.sessions }, events)

unfoldable pub reconcile_publisher_in_all_groups :
    Ptr → PropertyRanking → PropertyRanking × List Event
unfolding reconcile_in_group with_groups
reconcile_publisher_in_all_groups session r =
    with_groups (λ n g. reconcile_in_group (view r) session n g (Assoc.find session g.sessions)) r

-- registerTrack's loop, for one group.
unfoldable pub register_in_group : View → FullTrackName → ℕ → ℕ → TopNGroup → TopNGroup × List Event
unfolding set_state notify_track_selected demote_track_at_rank visit_sessions ◌then_also◌
register_in_group v ftn rank n g =
    if ltb rank n
    then (notify_track_selected v ftn (set_state ftn selected g)) then_also demote_track_at_rank v n
    else (let (sessions, viewers, events) = visit_sessions v (λ s. true) n g.sessions in
        (record g { sessions = sessions }, events))

unfoldable pub add_track : FullTrackName → ℕ → Ptr → PropertyRanking → PropertyRanking
unfolding emplace or_zero update_publisher_extended_threshold
add_track ftn value publisher r =
    let key : RankKey = record { value = value; arrival_seq = r.next_seq } in
    let track : RankedTrack = record { key = key; ftn = ftn; publisher = publisher } in
    let counted = update_publisher_extended_threshold (record r {
      next_seq = (r.next_seq + 1) % 2 ^ 64;
      publisher_track_count =
          Assoc.insert_or_assign publisher
            (or_zero (Assoc.find publisher r.publisher_track_count) + 1) r.publisher_track_count;
    }) in
    record counted { ranked_tracks = emplace track r.ranked_tracks }

unfoldable pub register_new :
    FullTrackName → Option ℕ → Ptr → PropertyRanking → PropertyRanking × List Event
unfolding add_track or_zero reconcile_publisher_in_all_groups register_in_group with_groups
    cached_rank
register_new ftn value publisher r =
    let added = add_track ftn (or_zero value) publisher r in
    let (r', events) = reconcile_publisher_in_all_groups publisher added in
    let (r'', more) =
      with_groups (register_in_group (view r') ftn (cached_rank ftn r'.ranked_tracks)) r' in
    (r'', events ++ more)

unfoldable pub register_track :
    FullTrackName → Option ℕ → Ptr → PropertyRanking → PropertyRanking × List Event
unfolding register_new is_some find_track
register_track ftn value publisher r =
    if is_some (find_track ftn r.ranked_tracks) then (r, []) else register_new ftn value publisher r
