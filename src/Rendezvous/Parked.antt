-- ===== src/Rendezvous/Parked.antt =====
-- The operations of src/PendingRendezvousTree.cpp, as a map from tracks to waiters shows them.
use moqx.Base.{
  ◌≡◌, subst, refl, sym, ◌∙◌, inl, inr, List, [], ◌∷◌, Option, none, some, if◌then◌else◌, ◌==◌,
  ℕ_Eq, List_Eq, Bytes, FullTrackName_Eq, Bool-cases, Option-cases,
}
use moqx.Rendezvous.{
  Waiter, Waiters, Node, node, Children, find_child, apply_at, apply_below, parked, parked_below,
}
use moqx.Rendezvous.Lookup.{parked_below-put_back, same_part}

-- What is left of a namespace below a prefix of it.
abbrev pub below : List Bytes → List Bytes → Option (List Bytes)
below [] ns = some ns
below (part ∷ prefix) [] = none
below (part ∷ prefix) (q ∷ ns) = if part == q then below prefix ns else none

-- What a change at the node of a prefix makes of the waiters of a track.
abbrev pub changed :
    (List Bytes → Bytes → List Waiter → List Waiter)
    → Option (List Bytes)
    → Bytes
    → List Waiter
    → List Waiter
changed g none track ws = ws
changed g (some rest) track ws = g rest track ws

pub changed-none :
    (g : List Bytes → Bytes → List Waiter → List Waiter) (o : Option (List Bytes)) (track : Bytes)
    → ((rest : List Bytes) (track : Bytes) → g rest track [] ≡ [])
    → changed g o track [] ≡ []
changed-none g none track z = refl
changed-none g (some rest) track z = z rest track

module _ (f : Node → Node × List Waiter) (g : List Bytes → Bytes → List Waiter → List Waiter) where
  -- What a change of a node does to each of the lists parked there and below.
  abbrev pub Changes : Type 0
  Changes =
      ((n : Node) (rest : List Bytes) (track : Bytes)
        → parked (f n).0 rest track ≡ g rest track (parked n rest track))
      × ((rest : List Bytes) (track : Bytes) → g rest track [] ≡ [])

  parked_here :
      (part : Bytes) (prefix : List Bytes) (cs : Children) (ws : Waiters) (track : Bytes)
      (o : Option Node)
      → parked (apply_below (λ n. apply_at prefix f n) part cs ws o).0 [] track
        ≡ parked (node cs ws) [] track
  unfolding apply_below parked
  parked_here part prefix cs ws track none = refl
  parked_here part prefix cs ws track (some n) = refl

  pub parked-apply_at :
      (prefix : List Bytes) (n : Node) (ns : List Bytes) (track : Bytes)
      → Changes
      → parked (apply_at prefix f n).0 ns track
        ≡ changed g (below prefix ns) track (parked n ns track)
  unfolding apply_at apply_below parked parked_below
  parked-apply_at [] n ns track c = c.0 n ns track
  parked-apply_at (part ∷ prefix) (node cs ws) [] track c =
      parked_here part prefix cs ws track (find_child part cs)
  parked-apply_at (part ∷ prefix) (node cs ws) (q ∷ ns) track c =
      elim (Option-cases (find_child part cs)) [
        | inl e ↦ elim (Bool-cases (part == q)) [
          | inl b ↦
              let there : find_child q cs ≡ none =
                subst (λ k. find_child k cs ≡ none) (same_part part q b) e in
              rw (e, there, apply_below, parked_below)
                (sym (changed-none g (below (part ∷ prefix) (q ∷ ns)) track c.1))
          | inr b ↦ rw (e, b)
        ]
        | inr (n, e) ↦ elim (Bool-cases (part == q)) [
          | inl b ↦
              let there : find_child q cs ≡ some n =
                subst (λ k. find_child k cs ≡ some n) (same_part part q b) e in
              rw (e, there, b)
                (parked_below-put_back part q (apply_at prefix f n).0 cs ns track
                  ∙ rw b (parked-apply_at prefix n ns track c))
          | inr b ↦
              rw (e, b)
                (parked_below-put_back part q (apply_at prefix f n).0 cs ns track ∙ rw b refl)
        ]
      ]
