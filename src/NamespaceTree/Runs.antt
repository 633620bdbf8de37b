-- ===== src/NamespaceTree/Runs.antt =====
-- Any sequence of the operations of src/NamespaceTree.cpp, against a flat map from namespaces to
-- what they hold.
use moqx.Base.{
  ℕ, List, Option, none, some, Bool, if◌then◌else◌, ◌==◌, ℕ_Eq, List_Eq, find_if, Bytes,
  TrackNamespace, FullTrackName,
}
use moqx.Base.Assoc
use moqx.NamespaceTree.Routes.{
  Ptr, Route, Announcement, place_route, revise_route, erase_first, replace_first,
}
use moqx.NamespaceTree.Nodes.{SubscriberInfo}
use moqx.NamespaceTree.Operations.{
  NamespaceTree, set_publisher, update_route, unpublish_namespace, unpublish_track, names_route,
  unpublishes_route,
}
use moqx.NamespaceTree.Subscriptions.{
  add_publish, add_namespace_subscriber, remove_namespace_subscriber, emplace,
}
use moqx.NamespaceTree.Contents.{Contents}

-- The operations that change what namespaces hold, with their arguments.
pub data Operation : Type 0 where
  sets_publisher : TrackNamespace → Announcement → Operation
  updates_route : TrackNamespace → ℕ → ℕ → List ℕ → ℕ → Operation
  unpublishes_namespace : TrackNamespace → ℕ → Option ℕ → Operation
  unpublishes_track : TrackNamespace → Bytes → Operation
  publishes : FullTrackName → Ptr → Operation
  subscribes : TrackNamespace → Ptr → SubscriberInfo → Operation
  unsubscribes : TrackNamespace → Ptr → Operation

abbrev pub tree_after : {A : Type 0} → Option (A × NamespaceTree) → Option NamespaceTree
tree_after none = none
tree_after (some (a, t)) = some t

-- The flat map, with the route counter.
pub record Holdings : Type 0 where
  pub at : TrackNamespace → Contents
  pub next_route_seq : ℕ

abbrev pub hold : Holdings → TrackNamespace → ℕ → Contents → Holdings
hold h ns seq c = record { at = λ q. if ns == q then c else h.at q; next_route_seq = seq }

-- A route with a new path and cost, in place of the one found.
abbrev pub revise_at :
    (Route → Bool) → Holdings → TrackNamespace → List ℕ → ℕ → Option Route → Holdings
revise_at named h ns path cost none = h
revise_at named h ns path cost (some r) =
    let revised = revise_route r path cost h.next_route_seq in
    hold h ns revised.next_route_seq
      (record (h.at ns) { routes = replace_first named revised.route (h.at ns).routes })

module _ (session_id : Ptr → ℕ) where
  unfoldable pub run : Operation → NamespaceTree → Option NamespaceTree
  run (sets_publisher ns a) t = tree_after (set_publisher t ns a)
  run (updates_route ns id request path cost) t =
      tree_after (update_route session_id t ns id request path cost)
  run (unpublishes_namespace ns id request) t =
      tree_after (unpublish_namespace session_id t ns id request)
  run (unpublishes_track ns track) t = tree_after (unpublish_track t ns track)
  run (publishes ftn session) t = tree_after (add_publish t ftn session)
  run (subscribes ns session info) t = add_namespace_subscriber t ns session info
  run (unsubscribes ns session) t = tree_after (remove_namespace_subscriber session_id t ns session)

  -- What each operation does to the flat map: it knows no nodes, counts or pruning, and no errors.
  unfoldable pub hold_after : Operation → Holdings → Holdings
  hold_after (sets_publisher ns a) h =
      let p = place_route a (h.at ns).routes h.next_route_seq in
      hold h ns p.next_route_seq (record (h.at ns) { routes = p.routes })
  hold_after (updates_route ns id request path cost) h =
      let named = names_route session_id id request in
      revise_at named h ns path cost (find_if named (h.at ns).routes)
  hold_after (unpublishes_namespace ns id request) h =
      hold h ns h.next_route_seq (record (h.at ns) {
        routes = erase_first (unpublishes_route session_id id request) (h.at ns).routes;
      })
  hold_after (unpublishes_track ns track) h =
      hold h ns h.next_route_seq
        (record (h.at ns) { publishes = Assoc.erase track (h.at ns).publishes })
  hold_after (publishes ftn session) h =
      let ns = ftn.track_namespace in
      hold h ns h.next_route_seq (record (h.at ns) {
        publishes = Assoc.insert_or_assign ftn.track_name session (h.at ns).publishes;
      })
  hold_after (subscribes ns session info) h =
      hold h ns h.next_route_seq
        (record (h.at ns) { subscribers = emplace session info (h.at ns).subscribers })
  hold_after (unsubscribes ns session) h =
      hold h ns h.next_route_seq
        (record (h.at ns) { subscribers = Assoc.erase session (h.at ns).subscribers })
