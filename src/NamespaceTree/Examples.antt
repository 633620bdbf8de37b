-- ===== src/NamespaceTree/Examples.antt =====
-- The tree of src/NamespaceTree.cpp with two publishers of a namespace and a subscriber above it.
use moqx.Base.{
  ℕ, ◌+◌, ◌≡◌, refl, ◌⊎◌, List, [], ◌∷◌, Option, none, some, Bool, true, false, ltb, Among,
  TrackNamespace,
}
use moqx.NamespaceTree.Routes.{Ptr, Route, Announcement, select_route}
use moqx.NamespaceTree.Nodes.{Tree, SubscriberInfo}
use moqx.NamespaceTree.Operations.{NamespaceTree}
use moqx.NamespaceTree.Queries.{RouteExclusion, find_publisher_session}
use moqx.NamespaceTree.Contents.{contents_at}
use moqx.NamespaceTree.Runs.{
  Operation, sets_publisher, unpublishes_namespace, subscribes, unsubscribes,
}
use moqx.NamespaceTree.Refinement.{GoesThrough}
use moqx.NamespaceTree.Safety.{run_all, hold_all, no_holdings, empty_tree, run_all-Represents}
use moqx.NamespaceTree.Exclusive.{Exclusive}
use moqx.NamespaceTree.Exclusive.Sequences.{run_all-Exclusive}
use moqx.NamespaceTree.Selection.{Unbeaten, select_route-Unbeaten}
use moqx.NamespaceTree.Deepest.{
  Covers, Deepest, PublisherOf, routes_at, find_publisher_session-PublisherOf,
}

abbrev ns : TrackNamespace
ns = (97 ∷ []) ∷ (98 ∷ []) ∷ []

abbrev session_id : Ptr → ℕ
session_id s = s + 100

abbrev from_cluster : Ptr → Bool
from_cluster s = ltb s 10

abbrev announcement : Ptr → ℕ → Announcement
announcement s cost = record {
  session = s;
  callback = none;
  peer_id = [];
  request_id = 0;
  path = 5 ∷ [];
  cost = cost;
  from_cluster = from_cluster s;
}

abbrev info : SubscriberInfo
info = record {
  forward = true;
  options = 2;
  namespace_publish_handle = none;
  track_namespace_prefix = (97 ∷ []) ∷ [];
  track_filter = none;
  peer_id = [];
}

abbrev operations : List Operation
operations =
    sets_publisher ns (announcement 1 7)
    ∷ subscribes ((97 ∷ []) ∷ []) 20 info
    ∷ sets_publisher ns (announcement 2 3)
    ∷ unpublishes_namespace ns 101 none
    ∷ unsubscribes ((97 ∷ []) ∷ []) 20
    ∷ []

abbrev route : Ptr → ℕ → Route
route s cost = record {
  session = s;
  callback = none;
  peer_id = [];
  request_id = 0;
  path = 5 ∷ [];
  cost = cost;
  seq = 1;
  from_cluster = true;
}

abbrev root_of : Option NamespaceTree → Tree
root_of none = empty_tree.root
root_of (some t) = t.root

abbrev tree : Tree
tree = root_of (run_all session_id (sets_publisher ns (announcement 1 7) ∷ []) empty_tree)

run_all-Represents_example :
    GoesThrough
      (run_all session_id operations empty_tree)
      (hold_all session_id operations no_holdings)
run_all-Represents_example = run_all-Represents session_id operations

run_all-Exclusive_example :
    (t : NamespaceTree) × (run_all session_id operations empty_tree ≡ some t)
    × ((q : TrackNamespace) → Exclusive (contents_at t.root q).routes)
run_all-Exclusive_example =
    run_all-Exclusive session_id from_cluster operations (refl, (tt, (refl, (tt, (tt, tt)))))

select_route-Unbeaten_example :
    ((select_route (λ r. ltb r.session 5) (route 1 7 ∷ route 2 3 ∷ []) ≡ none)
      × ((q : Route) → Among q (route 1 7 ∷ route 2 3 ∷ []) → ltb q.session 5 ≡ false))
    ⊎ ((r : Route) × (select_route (λ r. ltb r.session 5) (route 1 7 ∷ route 2 3 ∷ []) ≡ some r)
        × Among r (route 1 7 ∷ route 2 3 ∷ [])
        × (ltb r.session 5 ≡ true)
        × Unbeaten (λ r. ltb r.session 5) r (route 1 7 ∷ route 2 3 ∷ []))
select_route-Unbeaten_example =
    select_route-Unbeaten (λ r. ltb r.session 5) (route 1 7 ∷ route 2 3 ∷ [])

abbrev exclusion : RouteExclusion
exclusion = record { session = some 102; hop = 9 }

find_publisher_session-PublisherOf_example :
    ((find_publisher_session session_id tree ns exclusion ≡ none)
      × ((q : TrackNamespace) → Covers q ns → routes_at tree q ≡ []))
    ⊎ ((p : TrackNamespace) × Deepest tree ns p
        × PublisherOf session_id exclusion
            (routes_at tree p)
            (find_publisher_session session_id tree ns exclusion))
find_publisher_session-PublisherOf_example =
    find_publisher_session-PublisherOf session_id tree ns exclusion
