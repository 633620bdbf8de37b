-- ===== src/NamespaceTree/Queries.antt =====
-- The lookups of src/NamespaceTree.cpp and src/NamespaceTree.h.
use moqx.Base.{
  ℕ, [], ◌∷◌, Option, none, some, Bool, false, ◌&&◌, ◌||◌, not, if◌then◌else◌, ◌==◌, ℕ_Eq, List_Eq,
  TrackNamespace,
}
use moqx.Base.Assoc
use moqx.Base.Trie.{node, nil, child, find_child}
use moqx.NamespaceTree.Routes.{Ptr, Route, cluster_path_contains, select_route, find_route, is_none}
use moqx.NamespaceTree.Nodes.{Tree, Below, NodeState, is_empty, at_child}

unfoldable pub deepest_so_far : Option NodeState → NodeState → Option NodeState
deepest_so_far deepest d = if is_empty d.routes then deepest else some d

-- The loop of findRouteNode, with the deepest node with routes above.
unfoldable pub find_route_from : Option NodeState → Tree → TrackNamespace → Option NodeState
unfolding deepest_so_far at_child
find_route_from deepest (node d cs) [] = deepest_so_far deepest d
find_route_from deepest (node d cs) (part ∷ ns) =
    at_child (deepest_so_far deepest d) (λ n. find_route_from (deepest_so_far deepest d) n ns)
      (find_child part cs)

unfoldable pub find_route_node : Tree → TrackNamespace → Option NodeState
unfolding find_route_from
find_route_node root ns = find_route_from none root ns

pub record RouteExclusion : Type 0 where
  pub session : Option ℕ
  pub hop : ℕ

unfoldable pub excludes_session : (Ptr → ℕ) → Option ℕ → Ptr → Bool
excludes_session session_id none s = false
excludes_session session_id (some id) s = session_id s == id

unfoldable pub may_use : (Ptr → ℕ) → RouteExclusion → Route → Bool
unfolding excludes_session
may_use session_id exclusion r =
    not (excludes_session session_id exclusion.session r.session)
    && not (cluster_path_contains r.path exclusion.hop)

unfoldable pub session_of : Option Route → Option Ptr
session_of none = none
session_of (some r) = some r.session

unfoldable pub select_at : (Route → Bool) → Option NodeState → Option Ptr
unfolding session_of
select_at eligible none = none
select_at eligible (some d) = session_of (select_route eligible d.routes)

unfoldable pub find_publisher_session :
    (Ptr → ℕ) → Tree → TrackNamespace → RouteExclusion → Option Ptr
unfolding may_use select_at
find_publisher_session session_id root ns exclusion =
    select_at (may_use session_id exclusion) (find_route_node root ns)

unfoldable pub route_passes : (Route → Bool) → Option Route → Bool
route_passes p none = false
route_passes p (some r) = p r

unfoldable pub has_route_along_path : (Ptr → ℕ) → Tree → TrackNamespace → ℕ → (Route → Bool) → Bool
unfolding route_passes at_child
has_route_along_path session_id (node d cs) [] id p =
    route_passes p (find_route session_id d.routes id)
has_route_along_path session_id (node d cs) (part ∷ ns) id p =
    route_passes p (find_route session_id d.routes id)
    || at_child false (λ n. has_route_along_path session_id n ns id p) (find_child part cs)

unfoldable pub subscribes_at : Ptr → NodeState → Bool
unfolding is_none
subscribes_at session d = not (is_none (Assoc.find session d.subscribers))

-- The nodes are visited from a stack in the source; the answer is the same in any order.
unfoldable mutual
  unfolding subscribes_at

  pub has_tracks_subscription_in_subtree : Ptr → Tree → Bool
  has_tracks_subscription_in_subtree session (node d cs) =
      subscribes_at session d || has_tracks_subscription_below session cs

  pub has_tracks_subscription_below : Ptr → Below → Bool
  has_tracks_subscription_below session nil = false
  has_tracks_subscription_below session (child part n cs) =
      has_tracks_subscription_in_subtree session n || has_tracks_subscription_below session cs

unfoldable pub has_overlapping_tracks_subscription : Ptr → Tree → TrackNamespace → Bool
unfolding has_tracks_subscription_in_subtree subscribes_at at_child
has_overlapping_tracks_subscription session n [] = has_tracks_subscription_in_subtree session n
has_overlapping_tracks_subscription session (node d cs) (part ∷ ns) =
    subscribes_at session d
    || at_child false (λ n. has_overlapping_tracks_subscription session n ns) (find_child part cs)
