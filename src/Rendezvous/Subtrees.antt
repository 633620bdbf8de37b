-- ===== src/Rendezvous/Subtrees.antt =====
-- wakeUnderNamespace of src/PendingRendezvousTree.cpp: nobody under the namespace is left behind.
use moqx.Base.{
  ◌≡◌, subst, refl, sym, inl, inr, List, [], ◌∷◌, ◌++◌, some, ◌==◌, ℕ_Eq, List_Eq, Bytes,
  TrackNamespace, Bool-cases, Option-cases, Among, Among-append_left, Among-append_right,
}
use moqx.Base.Assoc
use moqx.Rendezvous.{
  Waiter, Waiters, Node, node, Children, nil, child, find_child, apply_at, apply_below,
  collect_subtree, collected, collected_below, all_waiters, wake_under_namespace, parked,
  parked_below, list_or_empty, new_node, empty,
}
use moqx.Rendezvous.Lookup.{parked-empty}
use moqx.Rendezvous.Parked.{below, changed, parked-apply_at}

all_waiters-Among :
    (w : Waiter) (track : Bytes) (ws : Waiters)
    → Among w (list_or_empty (Assoc.find track ws))
    → Among w (all_waiters ws)
unfolding list_or_empty all_waiters
all_waiters-Among w track [] i = i
all_waiters-Among w track ((t, listed) ∷ ws) i = elim (Bool-cases (t == track)) [
  | inl b ↦ Among-append_left w listed (all_waiters ws) (rw b at i)
  | inr b ↦ Among-append_right w listed (all_waiters ws) (all_waiters-Among w track ws (rw b at i))
]

collected_below-Among :
    (w : Waiter) (part : Bytes) (cs : Children) (n : Node)
    → find_child part cs ≡ some n
    → Among w (collected n)
    → Among w (collected_below cs)
unfolding find_child collected_below
collected_below-Among w part nil n e i = cc
collected_below-Among w part (child k m cs) n e i = elim (Bool-cases (k == part)) [
  | inl b ↦
      let same : m ≡ n = cc (rw b at e) in
      Among-append_left w (collected m) (collected_below cs)
        (subst (λ x. Among w (collected x)) (sym same) i)
  | inr b ↦
      Among-append_right w (collected m) (collected_below cs)
        (collected_below-Among w part cs n (rw b at e) i)
]

collected-Among :
    (w : Waiter) (n : Node) (ns : List Bytes) (track : Bytes)
    → Among w (parked n ns track)
    → Among w (collected n)
unfolding parked collected
collected-Among w (node cs ws) [] track i =
    Among-append_left w (all_waiters ws) (collected_below cs) (all_waiters-Among w track ws i)
collected-Among w (node cs ws) (part ∷ ns) track i = elim (Option-cases (find_child part cs)) [
  | inl z ↦ absurd (rw (z, parked_below) at i)
  | inr (n, z) ↦ Among-append_right w (all_waiters ws) (collected_below cs) (
      collected_below-Among w part cs n z
        (collected-Among w n ns track (rw (z, parked_below) at i)))
]

handed_out :
    (w : Waiter) (prefix rest : List Bytes) (n : Node) (track : Bytes)
    → Among w (parked n (prefix ++ rest) track)
    → Among w (apply_at prefix collect_subtree n).1
unfolding apply_at parked collect_subtree
handed_out w [] rest n track i = collected-Among w n rest track i
handed_out w (part ∷ prefix) rest (node cs ws) track i = elim (Option-cases (find_child part cs)) [
  | inl z ↦ absurd (rw (z, parked_below) at i)
  | inr (n, z) ↦ rw (z, apply_below) (handed_out w prefix rest n track (rw (z, parked_below) at i))
]

-- wakeUnderNamespace hands out everybody who waits for a track at or under the namespace, leaves
-- nobody parked there, and all others stay parked.
pub wake_under_namespace-parked :
    (root : Node) (ns : TrackNamespace)
    → ((w : Waiter) (rest : List Bytes) (track : Bytes)
        → Among w (parked root (ns ++ rest) track)
        → Among w (wake_under_namespace root ns).1)
      × ((ns' : List Bytes) (track : Bytes)
          → parked (wake_under_namespace root ns).0 ns' track
            ≡ changed (λ rest t ws. []) (below ns ns') track (parked root ns' track))
unfolding wake_under_namespace collect_subtree new_node empty
wake_under_namespace-parked root ns = (
  (λ w rest track i. handed_out w ns rest root track i),
  λ ns' track.
      parked-apply_at collect_subtree (λ rest t ws. []) ns root ns' track
        ((λ n rest t. parked-empty new_node rest t refl), λ rest t. refl),
)
