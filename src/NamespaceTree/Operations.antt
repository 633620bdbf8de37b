-- ===== src/NamespaceTree/Operations.antt =====
-- The operations of src/NamespaceTree.cpp. An operation on a missing node, by a session that has no
-- such route or subscription, answers with the error of the source and changes nothing; `none` is
-- the failed XCHECK.
use moqx.Base.{
  ℕ, List, [], Option, none, some, Bool, ◌&&◌, if◌then◌else◌, ◌==◌, ℕ_Eq, List_Eq, find_if, Bytes,
  TrackNamespace,
}
use moqx.Base.Assoc
use moqx.Base.Trie.{label}
use moqx.NamespaceTree.Routes.{
  Ptr, Route, Announcement, RouteChange, place_route, revise_route, erase_first, replace_first,
}
use moqx.NamespaceTree.Nodes.{
  Tree, NodeState, SubscriberInfo, AdvertisementKey_Eq, Change, guarded, unguarded, update_at,
  at_child, find_node, covering_subscribers, new_state,
}

pub record NamespaceTree : Type 0 where
  pub root : Tree
  pub next_route_seq : ℕ

pub data Error : Type 0 where
  node_not_found not_owner not_subscribed : Error

-- folly::Expected
pub data Expected (A : Type 0) : Type 0 where
  value : A → Expected A
  unexpected : Error → Expected A

-- The tree after an update, if no check failed.
unfoldable pub put_root : ℕ → Option (Tree × Change) → Option NamespaceTree
put_root seq none = none
put_root seq (some (root, c)) = some (record { root = root; next_route_seq = seq })

unfoldable pub update :
    NamespaceTree → TrackNamespace → ℕ → (NodeState → NodeState × Change) → Option NamespaceTree
unfolding put_root
update t ns seq f = put_root seq (update_at f [] ns t.root)

unfoldable pub answer : {A : Type 0} → A → Option NamespaceTree → Option (A × NamespaceTree)
answer a none = none
answer a (some t) = some (a, t)

-- The state of a node, or of the new one.
unfoldable pub state_at : Tree → TrackNamespace → NodeState
unfolding new_state
state_at root ns = at_child (new_state ns) label (find_node root ns)

pub record SetPublisherResult : Type 0 where
  pub subscribers : List (Ptr × SubscriberInfo)
  pub replaced_session : Option Ptr
  pub cancelled : Option Ptr

-- setPublisher at its node; a route that is changed where it stands needs no guard.
unfoldable pub put_routes : TrackNamespace → RouteChange → NodeState → NodeState × Change
put_routes ns p =
    if p.guarded
    then guarded (λ d. record d { routes = p.routes; track_namespace = ns })
    else unguarded (λ d. record d { routes = p.routes })

unfoldable pub publish_here : TrackNamespace → Announcement → ℕ → NodeState → NodeState × Change
unfolding put_routes
publish_here ns a seq d = put_routes ns (place_route a d.routes seq) d

unfoldable pub set_publisher :
    NamespaceTree → TrackNamespace → Announcement → Option (SetPublisherResult × NamespaceTree)
unfolding update state_at publish_here answer
set_publisher t ns a =
    let p = place_route a (state_at t.root ns).routes t.next_route_seq in
    answer
      (record {
        subscribers = covering_subscribers t.root ns;
        replaced_session = p.replaced_session;
        cancelled = p.cancelled;
      })
      (update t ns p.next_route_seq (publish_here ns a t.next_route_seq))

-- The route of a session's request.
unfoldable pub names_route : (Ptr → ℕ) → ℕ → ℕ → Route → Bool
names_route session_id id request r = session_id r.session == id && r.request_id == request

unfoldable pub update_found :
    (Route → Bool)
    → NamespaceTree
    → TrackNamespace
    → List ℕ
    → ℕ
    → NodeState
    → Option Route
    → Option (Expected SetPublisherResult × NamespaceTree)
unfolding update answer
update_found named t ns path cost d none = some (unexpected not_owner, t)
update_found named t ns path cost d (some r) =
    let revised = revise_route r path cost t.next_route_seq in
    answer
      (value (record {
        subscribers = covering_subscribers t.root ns;
        replaced_session = revised.replaced_session;
        cancelled = none;
      }))
      (update t ns revised.next_route_seq
        (unguarded (λ d. record d { routes = replace_first named revised.route d.routes })))

-- An operation on an existing node.
unfoldable pub with_node :
    {A : Type 0}
    → NamespaceTree
    → (NodeState → Option (Expected A × NamespaceTree))
    → Option Tree
    → Option (Expected A × NamespaceTree)
with_node t f none = some (unexpected node_not_found, t)
with_node t f (some n) = f (label n)

unfoldable pub update_route :
    (Ptr → ℕ)
    → NamespaceTree
    → TrackNamespace
    → ℕ
    → ℕ
    → List ℕ
    → ℕ
    → Option (Expected SetPublisherResult × NamespaceTree)
unfolding update_found names_route with_node
update_route session_id t ns id request path cost =
    let named = names_route session_id id request in
    with_node t (λ d. update_found named t ns path cost d (find_if named d.routes))
      (find_node t.root ns)

pub record UnpublishNamespaceResult : Type 0 where
  pub subscribers : List (Ptr × SubscriberInfo)
  pub removed : Route

-- A session's route, of the request if one is given.
unfoldable pub unpublishes_route : (Ptr → ℕ) → ℕ → Option ℕ → Route → Bool
unpublishes_route session_id id none r = session_id r.session == id
unpublishes_route session_id id (some request) r =
    session_id r.session == id && r.request_id == request

unfoldable pub unpublish_found :
    (Route → Bool)
    → NamespaceTree
    → TrackNamespace
    → Option Route
    → Option (Expected UnpublishNamespaceResult × NamespaceTree)
unfolding update answer
unpublish_found named t ns none = some (unexpected not_owner, t)
unpublish_found named t ns (some r) =
    answer
      (value (record {
        subscribers = covering_subscribers t.root ns;
        removed = record r { callback = none };
      }))
      (update t ns t.next_route_seq
        (guarded (λ d. record d { routes = erase_first named d.routes })))

unfoldable pub unpublish_namespace :
    (Ptr → ℕ)
    → NamespaceTree
    → TrackNamespace
    → ℕ
    → Option ℕ
    → Option (Expected UnpublishNamespaceResult × NamespaceTree)
unfolding unpublish_found unpublishes_route with_node
unpublish_namespace session_id t ns id request =
    let named = unpublishes_route session_id id request in
    with_node t (λ d. unpublish_found named t ns (find_if named d.routes)) (find_node t.root ns)

unfoldable pub unpublish_track :
    NamespaceTree → TrackNamespace → Bytes → Option (Expected (Unit {0}) × NamespaceTree)
unfolding update answer with_node
unpublish_track t ns track =
    with_node t
      (λ d. answer (value tt) (
        update t ns t.next_route_seq
          (guarded (λ d. record d { publishes = Assoc.erase track d.publishes }))))
      (find_node t.root ns)
