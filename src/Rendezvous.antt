-- ===== src/Rendezvous.antt =====
-- src/PendingRendezvousTree.cpp. A waiter is the identity of its TimedBaton; signalling those that a
-- wake-up hands out is the caller's part.
pub mod Examples
pub mod Lookup
pub mod Parked
pub mod Wakes
pub mod Subtrees
pub mod Timeout
use moqx.Base.{
  ℕ, List, [], ◌∷◌, ◌++◌, Option, none, some, Bool, true, false, ◌&&◌, not, if◌then◌else◌, ◌==◌,
  ℕ_Eq, List_Eq, keep, Bytes, TrackNamespace, FullTrackName,
}
use moqx.Base.Assoc

abbrev pub Waiter : Type 0
Waiter = ℕ

abbrev pub Waiters : Type 0
Waiters = List (Bytes × List Waiter)

mutual
  pub data Node : Type 0 where
    node : Children → Waiters → Node

  pub data Children : Type 0 where
    nil : Children
    child : Bytes → Node → Children → Children

is_nil : Children → Bool
is_nil nil = true
is_nil (child k n cs) = false

is_empty_list : {A : Type 0} → List A → Bool
is_empty_list [] = true
is_empty_list (x ∷ xs) = false

-- Node::empty
pub empty : Node → Bool
unfolding is_nil is_empty_list
empty (node cs ws) = is_nil cs && is_empty_list ws

pub find_child : Bytes → Children → Option Node
find_child k nil = none
find_child k (child j n cs) = if j == k then some n else find_child k cs

pub set_child : Bytes → Node → Children → Children
set_child k n nil = child k n nil
set_child k n (child j m cs) = if j == k then child k n cs else child j m (set_child k n cs)

pub erase_child : Bytes → Children → Children
erase_child k nil = nil
erase_child k (child j m cs) = if j == k then erase_child k cs else child j m (erase_child k cs)

new_node : Node
new_node = node nil []

pub or_new : Option Node → Node
unfolding new_node
or_new none = new_node
or_new (some n) = n

pub list_or_empty : Option (List Waiter) → List Waiter
list_or_empty none = []
list_or_empty (some ws) = ws

pub push_waiter : Bytes → Waiter → Node → Node
push_waiter track w (node cs ws) =
    node cs (Assoc.insert_or_assign track (list_or_empty (Assoc.find track ws) ++ (w ∷ [])) ws)

-- addWaiter: findOrCreateNode, then the push at the node that it finds.
add_at : List Bytes → Bytes → Waiter → Node → Node
unfolding push_waiter
add_at [] track w n = push_waiter track w n
add_at (part ∷ ns) track w (node cs ws) =
    node (set_child part (add_at ns track w (or_new (find_child part cs))) cs) ws

pub add_waiter : Node → FullTrackName → Waiter → Node
add_waiter root ftn w = add_at ftn.track_namespace ftn.track_name w root

-- Puts a child back, unless it is empty by now.
pub put_back : Bytes → Node → Children → Children
put_back part n cs = if empty n then erase_child part cs else set_child part n cs

-- applyAtNamespaceNode: `f` at the node of the namespace, if there is one; on the way back up the
-- empty nodes are pruned, but never the root.
pub apply_below :
    (Node → Node × List Waiter) → Bytes → Children → Waiters → Option Node → Node × List Waiter
apply_below f part cs ws none = (node cs ws, [])
apply_below f part cs ws (some n) = let (n', out) = f n in (node (put_back part n' cs) ws, out)

pub apply_at : List Bytes → (Node → Node × List Waiter) → Node → Node × List Waiter
unfolding apply_below
apply_at [] f n = f n
apply_at (part ∷ ns) f (node cs ws) =
    apply_below (λ n. apply_at ns f n) part cs ws (find_child part cs)

-- What is left of a track's waiters; without any, the track goes.
put_waiters : Bytes → List Waiter → Waiters → Waiters
unfolding is_empty_list
put_waiters track rest ws =
    if is_empty_list rest then Assoc.erase track ws else Assoc.insert_or_assign track rest ws

drop_waiter : Bytes → Waiter → Waiters → Option (List Waiter) → Waiters
drop_waiter track w ws none = ws
drop_waiter track w ws (some listed) = put_waiters track (keep (λ v. not (v == w)) listed) ws

erase_here : Bytes → Waiter → Node → Node × List Waiter
erase_here track w (node cs ws) = (node cs (drop_waiter track w ws (Assoc.find track ws)), [])

pub erase_waiter : Node → FullTrackName → Waiter → Node
erase_waiter root ftn w = (apply_at ftn.track_namespace (erase_here ftn.track_name w) root).0

take_track : Bytes → Node → Node × List Waiter
take_track track (node cs ws) =
    (node cs (Assoc.erase track ws), list_or_empty (Assoc.find track ws))

-- The tree afterwards, and the waiters to signal.
pub wake_for_track : Node → FullTrackName → Node × List Waiter
wake_for_track root ftn = apply_at ftn.track_namespace (take_track ftn.track_name) root

all_waiters : Waiters → List Waiter
all_waiters [] = []
all_waiters ((track, ws) ∷ rest) = ws ++ all_waiters rest

mutual
  collected : Node → List Waiter
  collected (node cs ws) = all_waiters ws ++ collected_below cs

  collected_below : Children → List Waiter
  collected_below nil = []
  collected_below (child k n cs) = collected n ++ collected_below cs

-- collectSubtree: both maps of the node are cleared.
collect_subtree : Node → Node × List Waiter
unfolding collected new_node
collect_subtree n = (new_node, collected n)

pub wake_under_namespace : Node → TrackNamespace → Node × List Waiter
wake_under_namespace root ns = apply_at ns collect_subtree root

-- The waiters parked on a track.
pub parked_below : (Node → List Waiter) → Option Node → List Waiter
parked_below f none = []
parked_below f (some n) = f n

pub parked : Node → List Bytes → Bytes → List Waiter
unfolding parked_below list_or_empty
parked (node cs ws) [] track = list_or_empty (Assoc.find track ws)
parked (node cs ws) (part ∷ ns) track = parked_below (λ n. parked n ns track) (find_child part cs)
