-- ===== src/PropertyRanking/Groups.antt =====
-- The groups of subscribers of src/relay/PropertyRanking.h, and what src/relay/PropertyRanking.cpp
-- does to one of them. The callbacks, taken to be set, are the events that an operation emits, in
-- their order; what a callback does to the ranking is not modelled, nor the guard against it. The
-- order in which the hash maps are read is that of a list.
use moqx.Base.{
  ℕ, List, [], ◌∷◌, ◌++◌, Option, none, some, Bool, true, false, ◌||◌, not, if◌then◌else◌, ltb,
  ◌==◌, ℕ_Eq, FullTrackName, FullTrackName_Eq, keep, contains, length, get_elem?, map,
}
use moqx.Base.Assoc
use moqx.PropertyRanking.Tracks.{Ptr, RankKey, RankedTrack, compute_waterline_key, now_selected}

pub data TrackState : Type 0 where
  selected deselected : TrackState

pub record SessionInfo : Type 0 where
  pub forward : Bool
  pub waterline_key : Option RankKey
  pub selected_tracks : List FullTrackName

pub record TopNGroup : Type 0 where
  pub max_selected : ℕ
  pub sessions : List (Ptr × SessionInfo)
  pub track_states : List (FullTrackName × TrackState)
  pub deselected_queue : List FullTrackName

pub data Event : Type 0 where
  on_selected : FullTrackName → Ptr → Bool → Event
  on_evicted : FullTrackName → Ptr → Event
  on_batch_selected : FullTrackName → List (Ptr × Bool) → Event

-- What the groups read of the ranking.
pub record View : Type 0 where
  pub tracks : List RankedTrack
  pub publisher_track_count : List (Ptr × ℕ)
  pub max_deselected : ℕ

unfoldable pub is_some : {A : Type 0} → Option A → Bool
is_some none = false
is_some (some a) = true

unfoldable pub is_publisher : View → Ptr → Bool
unfolding is_some
is_publisher v session = is_some (Assoc.find session v.publisher_track_count)

-- reconcilePublisherSelection
unfoldable pub reconcile_publisher_selection :
    View → SessionInfo → ℕ → Ptr → SessionInfo × List Event
reconcile_publisher_selection v info max_selected session =
    let waterline = compute_waterline_key session max_selected v.tracks in
    let now = now_selected session waterline v.tracks in
    (
      record info { waterline_key = waterline; selected_tracks = now },
      map (λ ftn. on_evicted ftn session)
            (keep (λ ftn. not (contains now ftn)) info.selected_tracks)
          ++ map (λ ftn. on_selected ftn session info.forward)
              (keep (λ ftn. not (contains info.selected_tracks ftn)) now),
    )

-- A loop over the sessions: the publishers that pass a test are reconciled, the viewers gathered.
unfoldable pub visit_sessions :
    View
    → (Ptr → Bool)
    → ℕ
    → List (Ptr × SessionInfo)
    → List (Ptr × SessionInfo) × List (Ptr × Bool) × List Event
unfolding is_publisher reconcile_publisher_selection
visit_sessions v visited n [] = ([], [], [])
visit_sessions v visited n ((session, info) ∷ m) =
    let (m', viewers, events) = visit_sessions v visited n m in
    let (info', own) = reconcile_publisher_selection v info n session in
    if is_publisher v session
    then (if visited session
        then ((session, info') ∷ m', viewers, own ++ events)
        else ((session, info) ∷ m', viewers, events))
    else ((session, info) ∷ m', (session, info.forward) ∷ viewers, events)

unfoldable pub batch : FullTrackName → List (Ptr × Bool) → List Event
batch ftn [] = []
batch ftn (x ∷ viewers) = on_batch_selected ftn (x ∷ viewers) ∷ []

unfoldable pub notify_track_selected : View → FullTrackName → TopNGroup → TopNGroup × List Event
unfolding visit_sessions batch
notify_track_selected v ftn g =
    let (sessions, viewers, events) = visit_sessions v (λ s. true) g.max_selected g.sessions in
    (record g { sessions = sessions }, events ++ batch ftn viewers)

unfoldable pub evictions : FullTrackName → List (Ptr × SessionInfo) → List Event
evictions ftn m = map (λ e. on_evicted ftn e.0) m

-- The loop of trimDeselectedQueue, on the queue that is left.
unfoldable pub trim_from : ℕ → List FullTrackName → TopNGroup → TopNGroup × List Event
unfolding evictions
trim_from max_deselected [] g = (record g { deselected_queue = [] }, [])
trim_from max_deselected (ftn ∷ queue) g =
    let (g', events) =
      trim_from max_deselected queue (record g { track_states = Assoc.erase ftn g.track_states }) in
    if ltb max_deselected (length (ftn ∷ queue))
    then (g', evictions ftn g.sessions ++ events)
    else (record g { deselected_queue = ftn ∷ queue }, [])

unfoldable pub trim_deselected_queue : View → TopNGroup → TopNGroup × List Event
unfolding trim_from
trim_deselected_queue v g = trim_from v.max_deselected g.deselected_queue g

unfoldable pub remove_from_deselected_queue : TopNGroup → FullTrackName → TopNGroup
remove_from_deselected_queue g ftn = record g {
  deselected_queue = keep (λ f. not (f == ftn)) g.deselected_queue;
}

unfoldable pub set_state : FullTrackName → TrackState → TopNGroup → TopNGroup
set_state ftn s g = record g { track_states = Assoc.insert_or_assign ftn s g.track_states }

-- demoteTrack
unfoldable pub demote_track : View → TopNGroup → FullTrackName → TopNGroup × List Event
unfolding trim_deselected_queue set_state
demote_track v g ftn =
    let g' = set_state ftn deselected g in
    trim_deselected_queue v (record g' { deselected_queue = g'.deselected_queue ++ (ftn ∷ []) })

unfoldable pub is_selected : Option TrackState → Bool
is_selected none = false
is_selected (some selected) = true
is_selected (some deselected) = false

unfoldable pub state_selected : TopNGroup → FullTrackName → Bool
unfolding is_selected
state_selected g ftn = is_selected (Assoc.find ftn g.track_states)

-- demoteTrackAtRank, on the track that has the rank.
unfoldable pub demote_ranked : View → TopNGroup → Option RankedTrack → TopNGroup × List Event
unfolding demote_track state_selected
demote_ranked v g none = (g, [])
demote_ranked v g (some t) = if state_selected g t.ftn then demote_track v g t.ftn else (g, [])

unfoldable pub demote_track_at_rank : View → ℕ → TopNGroup → TopNGroup × List Event
unfolding demote_ranked
demote_track_at_rank v n g = demote_ranked v g (get_elem? v.tracks n)

-- A track becomes selected, out of the queue, and the sessions are told.
unfoldable pub promote : View → FullTrackName → TopNGroup → TopNGroup × List Event
unfolding set_state remove_from_deselected_queue notify_track_selected
promote v ftn g =
    notify_track_selected v ftn (remove_from_deselected_queue (set_state ftn selected g) ftn)

-- promoteNextAvailableTrack, over the tracks that are left.
unfoldable pub promote_among :
    View → FullTrackName → List RankedTrack → TopNGroup → TopNGroup × List Event
unfolding promote state_selected
promote_among v exclude [] g = (g, [])
promote_among v exclude (t ∷ ts) g =
    if t.ftn == exclude || state_selected g t.ftn
    then promote_among v exclude ts g
    else promote v t.ftn g

unfoldable pub promote_next_available_track :
    View → TopNGroup → FullTrackName → TopNGroup × List Event
unfolding promote_among
promote_next_available_track v g exclude = promote_among v exclude v.tracks g
