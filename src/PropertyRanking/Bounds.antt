-- ===== src/PropertyRanking/Bounds.antt =====
-- The deselected queues of src/relay/PropertyRanking.cpp keep within maxDeselected.
use moqx.Base.{
  ℕ, ◌-◌, ◌≤◌, inl, inr, List, [], ◌∷◌, Option, none, some, Bool, true, false, ◌||◌, not,
  if◌then◌else◌, ltb, ◌==◌, ℕ_Eq, keep, length, get_elem?, FullTrackName, FullTrackName_Eq,
  Bool-cases, arith,
}
use moqx.Base.Assoc
use moqx.PropertyRanking.Tracks.{Ptr, RankedTrack}
use moqx.PropertyRanking.Groups.{
  TrackState, selected, deselected, SessionInfo, TopNGroup, Event, View, notify_track_selected,
  trim_from, trim_deselected_queue, remove_from_deselected_queue, set_state, demote_track,
  is_selected, state_selected, demote_ranked, demote_track_at_rank, promote, promote_among,
  promote_next_available_track,
}
use moqx.PropertyRanking.Operations.{◌then_also◌, reconcile_in_group, register_in_group}
use moqx.PropertyRanking.Moves.{
  recompute_state, recompute_sessions, promote_ranked, recompute_displaced, recompute_as,
  recompute_group, sweep_names, refill, remove_in_group,
}

abbrev pub Bounded : ℕ → TopNGroup → Type 0
Bounded n g = length g.deselected_queue ≤ n

length-keep {ℓ} : {A : Type ℓ} (p : A → Bool) (xs : List A) → length (keep p xs) ≤ length xs
length-keep p [] = omega arith
length-keep p (x ∷ xs) = elim (Bool-cases (p x)) [
  | inl h ↦ rw h (omega (arith, length-keep p xs))
  | inr h ↦ rw h (omega (arith, length-keep p xs))
]

trim_from-Bounded :
    (n : ℕ) (queue : List FullTrackName) (g : TopNGroup) → Bounded n (trim_from n queue g).0
unfolding trim_from
trim_from-Bounded n [] g = omega arith
trim_from-Bounded n (ftn ∷ queue) g = elim (Bool-cases (ltb n (length (ftn ∷ queue)))) [
  | inl h ↦
      rw h (trim_from-Bounded n queue (record g { track_states = Assoc.erase ftn g.track_states }))
  | inr h ↦ rw h (ground arith)
]

module _ (v : View) where
  -- A change of a group that keeps its queue within the bound.
  abbrev pub Keeps : (TopNGroup → TopNGroup × List Event) → Type 0
  Keeps f = (g : TopNGroup) → Bounded v.max_deselected g → Bounded v.max_deselected (f g).0

  demote_track-Bounded :
      (g : TopNGroup) (ftn : FullTrackName) → Bounded v.max_deselected (demote_track v g ftn).0
  unfolding demote_track trim_deselected_queue
  demote_track-Bounded g ftn = trim_from-Bounded v.max_deselected _ _

  notify_track_selected-Keeps : (ftn : FullTrackName) → Keeps (notify_track_selected v ftn)
  unfolding notify_track_selected
  notify_track_selected-Keeps ftn g b = b

  demote_ranked-Keeps : (t : Option RankedTrack) → Keeps (λ g. demote_ranked v g t)
  unfolding demote_ranked
  demote_ranked-Keeps none g b = b
  demote_ranked-Keeps (some t) g b = elim (Bool-cases (state_selected g t.ftn)) [
    | inl h ↦ rw h (demote_track-Bounded g t.ftn)
    | inr h ↦ rw h b
  ]

  promote-Keeps : (ftn : FullTrackName) → Keeps (promote v ftn)
  unfolding promote set_state remove_from_deselected_queue notify_track_selected
  promote-Keeps ftn g b = omega (arith, length-keep (λ f. not (f == ftn)) g.deselected_queue)

  promote_among-Keeps :
      (exclude : FullTrackName) (ts : List RankedTrack) → Keeps (promote_among v exclude ts)
  unfolding promote_among
  promote_among-Keeps exclude [] g b = b
  promote_among-Keeps exclude (t ∷ ts) g b =
      elim (Bool-cases (t.ftn == exclude || state_selected g t.ftn)) [
        | inl h ↦ rw h (promote_among-Keeps exclude ts g b)
        | inr h ↦ rw h (promote-Keeps t.ftn g b)
      ]

  then_also-Keeps :
      (o : TopNGroup × List Event) (f : TopNGroup → TopNGroup × List Event)
      → Keeps f
      → Bounded v.max_deselected o.0
      → Bounded v.max_deselected (o then_also f).0
  unfolding ◌then_also◌
  then_also-Keeps o f k b = k o.0 b

  pub register_in_group-Keeps :
      (ftn : FullTrackName) (rank n : ℕ) → Keeps (register_in_group v ftn rank n)
  unfolding register_in_group demote_track_at_rank set_state
  register_in_group-Keeps ftn rank n g b = elim (Bool-cases (ltb rank n)) [
    | inl h ↦ rw h (
        then_also-Keeps (notify_track_selected v ftn (set_state ftn selected g))
          (demote_track_at_rank v n) (demote_ranked-Keeps (get_elem? v.tracks n))
          (notify_track_selected-Keeps ftn (set_state ftn selected g) b))
    | inr h ↦ rw h b
  ]

  pub reconcile_in_group-Keeps :
      (session : Ptr) (n : ℕ) (g : TopNGroup) (info : Option SessionInfo)
      → Bounded v.max_deselected g
      → Bounded v.max_deselected (reconcile_in_group v session n g info).0
  unfolding reconcile_in_group
  reconcile_in_group-Keeps session n g none b = b
  reconcile_in_group-Keeps session n g (some info) b = b

  recompute_state-Keeps :
      (ftn : FullTrackName) (was now : Bool) → Keeps (recompute_state v ftn was now)
  unfolding recompute_state remove_from_deselected_queue set_state
  recompute_state-Keeps ftn true true g b = b
  recompute_state-Keeps ftn true false g b = demote_track-Bounded g ftn
  recompute_state-Keeps ftn false true g b =
      omega (arith, length-keep (λ f. not (f == ftn)) g.deselected_queue)
  recompute_state-Keeps ftn false false g b = b

  promote_ranked-Keeps : (t : Option RankedTrack) → Keeps (promote_ranked v t)
  unfolding promote_ranked
  promote_ranked-Keeps none g b = b
  promote_ranked-Keeps (some t) g b = elim (Bool-cases (state_selected g t.ftn)) [
    | inl h ↦ rw h b
    | inr h ↦ rw h (promote-Keeps t.ftn g b)
  ]

  recompute_displaced-Keeps : (n : ℕ) (was now : Bool) → Keeps (recompute_displaced v n was now)
  unfolding recompute_displaced demote_track_at_rank
  recompute_displaced-Keeps n true true g b = b
  recompute_displaced-Keeps n true false g b = promote_ranked-Keeps (get_elem? v.tracks (n - 1)) g b
  recompute_displaced-Keeps n false true g b = demote_ranked-Keeps (get_elem? v.tracks n) g b
  recompute_displaced-Keeps n false false g b = b

  pub recompute_group-Keeps :
      (ftn : FullTrackName) (publisher : Ptr) (old_rank new_rank n : ℕ)
      → Keeps (recompute_group v ftn publisher old_rank new_rank n)
  unfolding recompute_group recompute_as recompute_sessions
  recompute_group-Keeps ftn publisher old_rank new_rank n g b =
      let was = ltb old_rank n in
      let now = ltb new_rank n in
      then_also-Keeps
        (recompute_state v ftn was now g then_also recompute_sessions v ftn publisher n was now)
        (recompute_displaced v n was now) (recompute_displaced-Keeps n was now)
        (then_also-Keeps (recompute_state v ftn was now g)
          (recompute_sessions v ftn publisher n was now) (λ g' b'. b')
          (recompute_state-Keeps ftn was now g b))

  pub sweep_names-Keeps :
      (idle : FullTrackName → Bool) (ftns : List FullTrackName) → Keeps (sweep_names v idle ftns)
  unfolding sweep_names promote_next_available_track
  sweep_names-Keeps idle [] g b = b
  sweep_names-Keeps idle (ftn ∷ ftns) g b =
      then_also-Keeps
        (if idle ftn
          then (demote_track v g ftn) then_also (λ g'. promote_next_available_track v g' ftn)
          else (g, []))
        (sweep_names v idle ftns) (sweep_names-Keeps idle ftns)
        (elim (Bool-cases (idle ftn)) [
          | inl h ↦ rw h (
              then_also-Keeps (demote_track v g ftn) (λ g'. promote_next_available_track v g' ftn)
                (promote_among-Keeps ftn v.tracks) (demote_track-Bounded g ftn))
          | inr h ↦ rw h b
        ])

  refill-Keeps :
      (ftn : FullTrackName) (queue : List FullTrackName) (g : TopNGroup)
      → length queue ≤ v.max_deselected
      → Bounded v.max_deselected g
      → Bounded v.max_deselected (refill v ftn queue g).0
  unfolding refill set_state promote_next_available_track notify_track_selected
  refill-Keeps ftn [] g l b = promote_among-Keeps ftn v.tracks g b
  refill-Keeps ftn (promoted ∷ queue) g l b = omega arith

  pub remove_in_group-Keeps :
      (ftn : FullTrackName) (g : TopNGroup) (state : Option TrackState)
      → Bounded v.max_deselected g
      → Bounded v.max_deselected (remove_in_group v ftn g state).0
  unfolding remove_in_group remove_from_deselected_queue is_selected
  remove_in_group-Keeps ftn g none b = b
  remove_in_group-Keeps ftn g (some deselected) b =
      omega (arith, length-keep (λ f. not (f == ftn)) g.deselected_queue)
  remove_in_group-Keeps ftn g (some selected) b =
      let shorter : length (keep (λ f. not (f == ftn)) g.deselected_queue) ≤ v.max_deselected =
        omega (arith, length-keep (λ f. not (f == ftn)) g.deselected_queue) in
      refill-Keeps ftn _ _ shorter shorter
