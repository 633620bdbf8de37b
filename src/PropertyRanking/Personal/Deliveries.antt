-- ===== src/PropertyRanking/Personal/Deliveries.antt =====
-- What a publishing subscriber is delivered after the callbacks of src/relay/PropertyRanking.cpp.
use moqx.Base.{
  ℕ, ◌<◌, ◌≡◌, refl, ap, ap₂, ◌∙◌, List, [], ◌∷◌, ◌++◌, Bool, true, false, ◌&&◌, ◌||◌, not,
  if◌then◌else◌, ==-self, ◌==◌, ℕ_Eq, keep, take, map, contains, contains-keep, FullTrackName,
  FullTrackName_Eq, arith,
}
use moqx.PropertyRanking.Tracks.{Ptr, compute_waterline_key, now_selected}
use moqx.PropertyRanking.Groups.{
  SessionInfo, View, Event, on_selected, on_evicted, on_batch_selected,
  reconcile_publisher_selection,
}
use moqx.PropertyRanking.Personal.{Descending, others, first_others}

-- Whether a session is being delivered a track, after the callbacks.
abbrev pub delivered_after : Ptr → FullTrackName → List Event → Bool → Bool
delivered_after session f [] b = b
delivered_after session f (on_selected g s forward ∷ events) b =
    delivered_after session f events (if g == f && s == session then true else b)
delivered_after session f (on_evicted g s ∷ events) b =
    delivered_after session f events (if g == f && s == session then false else b)
delivered_after session f (on_batch_selected g sessions ∷ events) b =
    delivered_after session f events b

delivered_after-append :
    (session : Ptr) (f : FullTrackName) (xs ys : List Event) (b : Bool)
    → delivered_after session f (xs ++ ys) b
      ≡ delivered_after session f ys (delivered_after session f xs b)
delivered_after-append session f [] ys b = refl
delivered_after-append session f (on_selected g s forward ∷ xs) ys b =
    delivered_after-append session f xs ys (if g == f && s == session then true else b)
delivered_after-append session f (on_evicted g s ∷ xs) ys b =
    delivered_after-append session f xs ys (if g == f && s == session then false else b)
delivered_after-append session f (on_batch_selected g sessions ∷ xs) ys b =
    delivered_after-append session f xs ys b

delivered_after-evicted :
    (session : Ptr) (f : FullTrackName) (gone : List FullTrackName) (b : Bool)
    → delivered_after session f (map (λ g. on_evicted g session) gone) b
      ≡ (b && not (contains gone f))
delivered_after-evicted session f [] b = ground arith
delivered_after-evicted session f (g ∷ gone) b =
    delivered_after-evicted session f gone (if g == f && session == session then false else b)
    ∙ ground (arith, ==-self session)

delivered_after-selected :
    (session : Ptr) (f : FullTrackName) (forward : Bool) (new : List FullTrackName) (b : Bool)
    → delivered_after session f (map (λ g. on_selected g session forward) new) b
      ≡ (b || contains new f)
delivered_after-selected session f forward [] b = ground arith
delivered_after-selected session f forward (g ∷ new) b =
    delivered_after-selected session f forward new
      (if g == f && session == session then true else b)
    ∙ ground (arith, ==-self session)

delta : (old new : Bool) → ((old && not (old && not new)) || (new && not old)) ≡ new
delta true true = refl
delta true false = refl
delta false true = refl
delta false false = refl

-- The callbacks take one list of names to the other.
kept_up :
    (session : Ptr) (f : FullTrackName) (forward : Bool) (old new : List FullTrackName)
    → delivered_after session f
        (map (λ g. on_evicted g session) (keep (λ g. not (contains new g)) old)
          ++ map (λ g. on_selected g session forward) (keep (λ g. not (contains old g)) new))
        (contains old f)
      ≡ contains new f
kept_up session f forward old new =
    let gone = keep (λ g. not (contains new g)) old in
    let come = keep (λ g. not (contains old g)) new in
    delivered_after-append session f (map (λ g. on_evicted g session) gone)
      (map (λ g. on_selected g session forward) come) (contains old f)
    ∙ delivered_after-selected session f forward come
        (delivered_after session f (map (λ g. on_evicted g session) gone) (contains old f))
    ∙ ap₂ ◌||◌
        (delivered_after-evicted session f gone (contains old f)
          ∙ ap (λ b. contains old f && not b) (contains-keep (λ g. not (contains new g)) old f))
        (contains-keep (λ g. not (contains old g)) new f)
    ∙ delta (contains old f) (contains new f)

-- reconcilePublisherSelection makes the session's selection the first N tracks, by rank, that it does
-- not publish itself, for N above 0; and its callbacks select and evict so that just those tracks are
-- delivered afterwards, if those of the selection before were.
pub reconcile_publisher_selection-others :
    (v : View) (info : SessionInfo) (n : ℕ) (session : Ptr)
    → 0 < n
    → Descending v.tracks
    → ((reconcile_publisher_selection v info n session).0.selected_tracks
        ≡ take n (others session v.tracks))
      × ((f : FullTrackName)
          → delivered_after session f
              (reconcile_publisher_selection v info n session).1
              (contains info.selected_tracks f)
            ≡ contains (take n (others session v.tracks)) f)
unfolding reconcile_publisher_selection
reconcile_publisher_selection-others v info n session p d = (
  first_others n session v.tracks p d,
  λ f.
      kept_up session f info.forward info.selected_tracks
        (now_selected session (compute_waterline_key session n v.tracks) v.tracks)
      ∙ ap (λ names. contains names f) (first_others n session v.tracks p d),
)
