-- ===== src/Rendezvous/Examples.antt =====
-- The tree of src/PendingRendezvousTree.cpp with two waiters.
use moqx.Base.{◌≡◌, List, [], ◌∷◌, ◌++◌, not, ◌==◌, ℕ_Eq, keep, Bytes, Among, FullTrackName}
use moqx.Rendezvous.{
  Waiter, Node, new_node, add_waiter, erase_waiter, wake_for_track, wake_under_namespace, parked,
}
use moqx.Rendezvous.Parked.{below, changed}
use moqx.Rendezvous.Wakes.{of_track, parked-add_waiter, parked-erase_waiter, wake_for_track-parked}
use moqx.Rendezvous.Subtrees.{wake_under_namespace-parked}

abbrev ns : List Bytes
ns = (97 ∷ []) ∷ (98 ∷ []) ∷ []

abbrev ftn : FullTrackName
ftn = record { track_namespace = ns; track_name = 99 ∷ [] }

abbrev tree : Node
tree = add_waiter (add_waiter new_node ftn 1) ftn 2

add_waiter_example :
    parked (add_waiter tree ftn 3) ns (99 ∷ [])
    ≡ of_track ns (99 ∷ []) (λ ws. ws ++ (3 ∷ [])) ns (99 ∷ []) (parked tree ns (99 ∷ []))
add_waiter_example = parked-add_waiter tree ftn 3 ns (99 ∷ [])

erase_waiter_example :
    parked (erase_waiter tree ftn 1) ns (99 ∷ [])
    ≡ of_track ns (99 ∷ []) (keep (λ v. not (v == 1))) ns (99 ∷ []) (parked tree ns (99 ∷ []))
erase_waiter_example = parked-erase_waiter tree ftn 1 ns (99 ∷ [])

wake_for_track_example :
    ((wake_for_track tree ftn).1 ≡ parked tree ns (99 ∷ []))
    × ((ns' : List Bytes) (track : Bytes)
        → parked (wake_for_track tree ftn).0 ns' track
          ≡ of_track ns (99 ∷ []) (λ ws. []) ns' track (parked tree ns' track))
wake_for_track_example = wake_for_track-parked tree ftn

wake_under_namespace_example :
    ((w : Waiter) (rest : List Bytes) (track : Bytes)
      → Among w (parked tree (((97 ∷ []) ∷ []) ++ rest) track)
      → Among w (wake_under_namespace tree ((97 ∷ []) ∷ [])).1)
    × ((ns' : List Bytes) (track : Bytes)
        → parked (wake_under_namespace tree ((97 ∷ []) ∷ [])).0 ns' track
          ≡ changed (λ rest t ws. []) (below ((97 ∷ []) ∷ []) ns') track (parked tree ns' track))
wake_under_namespace_example = wake_under_namespace-parked tree ((97 ∷ []) ∷ [])
