-- ===== src/Rendezvous/Wakes.antt =====
-- Who waits after each operation of src/PendingRendezvousTree.cpp, and whom a wake-up hands out.
use moqx.Base.{
  ◌≡◌, subst, refl, ap, ◌∙◌, inl, inr, List, [], ◌∷◌, ◌++◌, Option, none, some, ◌&&◌, not,
  if◌then◌else◌, ◌==◌, ℕ_Eq, List_Eq, keep, Bytes, FullTrackName, FullTrackName_Eq, Bool-cases,
  Option-cases, arith,
}
use moqx.Base.Assoc
use moqx.Rendezvous.{
  Waiter, Waiters, Node, node, empty, find_child, new_node, or_new, push_waiter, add_at, add_waiter,
  apply_at, apply_below, put_waiters, drop_waiter, erase_here, erase_waiter, take_track,
  wake_for_track, parked, parked_below, list_or_empty, is_empty_list,
}
use moqx.Rendezvous.Lookup.{find_child-set_child, parked-empty, same_part}
use moqx.Rendezvous.Parked.{below, changed, parked-apply_at}

-- The lists that are not of the track keep their waiters.
abbrev pub at_track :
    Bytes → (List Waiter → List Waiter) → List Bytes → Bytes → List Waiter → List Waiter
at_track t f [] track ws = if t == track then f ws else ws
at_track t f (part ∷ rest) track ws = ws

-- One track of one namespace against another.
abbrev pub of_track :
    List Bytes
    → Bytes
    → (List Waiter → List Waiter)
    → List Bytes
    → Bytes
    → List Waiter
    → List Waiter
of_track ns0 t f ns track ws = if ns0 == ns && t == track then f ws else ws

changed-at_track :
    (ns0 ns : List Bytes) (t track : Bytes) (f : List Waiter → List Waiter) (ws : List Waiter)
    → changed (at_track t f) (below ns0 ns) track ws ≡ of_track ns0 t f ns track ws
changed-at_track [] [] t track f ws = refl
changed-at_track [] (q ∷ ns) t track f ws = refl
changed-at_track (part ∷ ns0) [] t track f ws = refl
changed-at_track (part ∷ ns0) (q ∷ ns) t track f ws = elim (Bool-cases (part == q)) [
  | inl b ↦ rw b (changed-at_track ns0 ns t track f ws)
  | inr b ↦ rw b refl
]

list-put_waiters :
    (t track : Bytes) (rest : List Waiter) (ws : Waiters)
    → list_or_empty (Assoc.find track (put_waiters t rest ws))
      ≡ (if t == track then rest else list_or_empty (Assoc.find track ws))
unfolding put_waiters list_or_empty is_empty_list
list-put_waiters t track [] ws = rw (Assoc.find-erase t track ws) (ground arith)
list-put_waiters t track (w ∷ rest) ws =
    rw (Assoc.find-insert_or_assign t track (w ∷ rest) ws) (ground arith)

at_track-none :
    (t : Bytes) (f : List Waiter → List Waiter) (rest : List Bytes) (track : Bytes)
    → f [] ≡ []
    → at_track t f rest track [] ≡ []
at_track-none t f [] track e = ground (arith, e)
at_track-none t f (part ∷ rest) track e = refl

parked-erase_here :
    (t : Bytes) (w : Waiter) (n : Node) (rest : List Bytes) (track : Bytes)
    → parked (erase_here t w n).0 rest track
      ≡ at_track t (keep (λ v. not (v == w))) rest track (parked n rest track)
unfolding erase_here drop_waiter parked list_or_empty
parked-erase_here t w (node cs ws) [] track = elim (Option-cases (Assoc.find t ws)) [
  | inl z ↦ elim (Bool-cases (t == track)) [
    | inl b ↦ rw (z, b, subst (λ k. Assoc.find k ws ≡ none) (same_part t track b) z) refl
    | inr b ↦ rw (z, b) refl
  ]
  | inr (listed, z) ↦ elim (Bool-cases (t == track)) [
    | inl b ↦
        rw (z, b, subst (λ k. Assoc.find k ws ≡ some listed) (same_part t track b) z)
          (list-put_waiters t track (keep (λ v. not (v == w)) listed) ws ∙ rw b refl)
    | inr b ↦ rw (z, b) (list-put_waiters t track (keep (λ v. not (v == w)) listed) ws ∙ rw b refl)
  ]
]
parked-erase_here t w (node cs ws) (part ∷ rest) track = refl

parked-take_track :
    (t : Bytes) (n : Node) (rest : List Bytes) (track : Bytes)
    → parked (take_track t n).0 rest track ≡ at_track t (λ ws. []) rest track (parked n rest track)
unfolding take_track parked list_or_empty
parked-take_track t (node cs ws) [] track = rw (Assoc.find-erase t track ws) (ground arith)
parked-take_track t (node cs ws) (part ∷ rest) track = refl

parked-new_node : (rest : List Bytes) (track : Bytes) → parked new_node rest track ≡ []
unfolding new_node empty
parked-new_node rest track = parked-empty new_node rest track refl

-- After eraseWaiter the waiter is off its track, and nobody else is.
pub parked-erase_waiter :
    (root : Node) (ftn : FullTrackName) (w : Waiter) (ns : List Bytes) (track : Bytes)
    → parked (erase_waiter root ftn w) ns track
      ≡ of_track ftn.track_namespace ftn.track_name
          (keep (λ v. not (v == w)))
          ns
          track
          (parked root ns track)
unfolding erase_waiter
parked-erase_waiter root ftn w ns track =
    parked-apply_at (erase_here ftn.track_name w)
      (at_track ftn.track_name (keep (λ v. not (v == w)))) ftn.track_namespace root ns track
      (
        parked-erase_here ftn.track_name w,
        λ rest track. at_track-none ftn.track_name _ rest track refl,
      )
    ∙ changed-at_track ftn.track_namespace ns ftn.track_name track (keep (λ v. not (v == w))) _

waiters_here : (t : Bytes) (n : Node) → (take_track t n).1 ≡ parked n [] t
unfolding take_track parked
waiters_here t (node cs ws) = refl

taken :
    (prefix : List Bytes) (t : Bytes) (n : Node)
    → (apply_at prefix (take_track t) n).1 ≡ parked n prefix t
unfolding apply_at parked
taken [] t n = waiters_here t n
taken (part ∷ prefix) t (node cs ws) = elim (Option-cases (find_child part cs)) [
  | inl z ↦ rw (z, apply_below, parked_below) refl
  | inr (n, z) ↦ rw (z, apply_below, parked_below) (taken prefix t n)
]

-- wakeForTrack hands out those who wait for the track, in the order in which they came, and all
-- others stay parked.
pub wake_for_track-parked :
    (root : Node) (ftn : FullTrackName)
    → ((wake_for_track root ftn).1 ≡ parked root ftn.track_namespace ftn.track_name)
      × ((ns : List Bytes) (track : Bytes)
          → parked (wake_for_track root ftn).0 ns track
            ≡ of_track ftn.track_namespace ftn.track_name
                (λ ws. [])
                ns
                track
                (parked root ns track))
unfolding wake_for_track
wake_for_track-parked root ftn = (
  taken ftn.track_namespace ftn.track_name root,
  λ ns track.
      parked-apply_at (take_track ftn.track_name) (at_track ftn.track_name (λ ws. []))
        ftn.track_namespace root ns track
        (
          parked-take_track ftn.track_name,
          λ rest track. at_track-none ftn.track_name (λ ws. []) rest track refl,
        )
      ∙ changed-at_track ftn.track_namespace ns ftn.track_name track (λ ws. []) _,
)

parked-push_waiter :
    (t : Bytes) (w : Waiter) (n : Node) (rest : List Bytes) (track : Bytes)
    → parked (push_waiter t w n) rest track
      ≡ of_track [] t (λ ws. ws ++ (w ∷ [])) rest track (parked n rest track)
unfolding push_waiter parked list_or_empty
parked-push_waiter t w (node cs ws) [] track = elim (Bool-cases (t == track)) [
  | inl b ↦
      rw
        (
          Assoc.find-insert_or_assign t track (list_or_empty (Assoc.find t ws) ++ (w ∷ [])) ws,
          b,
          same_part t track b,
        )
        refl
  | inr b ↦
      rw (Assoc.find-insert_or_assign t track (list_or_empty (Assoc.find t ws) ++ (w ∷ [])) ws, b)
        refl
]
parked-push_waiter t w (node cs ws) (part ∷ rest) track = refl

parked-or_new :
    (o : Option Node) (ns : List Bytes) (track : Bytes)
    → parked (or_new o) ns track ≡ parked_below (λ n. parked n ns track) o
unfolding or_new parked_below
parked-or_new none ns track = parked-new_node ns track
parked-or_new (some n) ns track = refl

parked-add_at :
    (prefix : List Bytes) (t : Bytes) (w : Waiter) (n : Node) (ns : List Bytes) (track : Bytes)
    → parked (add_at prefix t w n) ns track
      ≡ of_track prefix t (λ ws. ws ++ (w ∷ [])) ns track (parked n ns track)
unfolding add_at parked parked_below
parked-add_at [] t w n ns track = parked-push_waiter t w n ns track
parked-add_at (part ∷ prefix) t w (node cs ws) [] track = refl
parked-add_at (part ∷ prefix) t w (node cs ws) (q ∷ ns) track = elim (Bool-cases (part == q)) [
  | inl b ↦
      let below_it = parked-add_at prefix t w (or_new (find_child part cs)) ns track in
      let same =
        subst
          (λ k.
            parked (or_new (find_child part cs)) ns track
            ≡ parked_below (λ n. parked n ns track) (find_child k cs))
          (same_part part q b) (parked-or_new (find_child part cs) ns track) in
      rw (find_child-set_child part q (add_at prefix t w (or_new (find_child part cs))) cs, b)
        (below_it ∙ ap (of_track prefix t (λ ws. ws ++ (w ∷ [])) ns track) same)
  | inr b ↦
      rw (find_child-set_child part q (add_at prefix t w (or_new (find_child part cs))) cs, b) refl
]

-- addWaiter puts the waiter behind the others of its track.
pub parked-add_waiter :
    (root : Node) (ftn : FullTrackName) (w : Waiter) (ns : List Bytes) (track : Bytes)
    → parked (add_waiter root ftn w) ns track
      ≡ of_track ftn.track_namespace ftn.track_name
          (λ ws. ws ++ (w ∷ []))
          ns
          track
          (parked root ns track)
unfolding add_waiter
parked-add_waiter root ftn w ns track =
    parked-add_at ftn.track_namespace ftn.track_name w root ns track
