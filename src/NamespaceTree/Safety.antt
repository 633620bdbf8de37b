-- ===== src/NamespaceTree/Safety.antt =====
-- Sequences of the operations of src/NamespaceTree.cpp, from the empty tree.
use moqx.Base.{ℕ, refl, List, [], ◌∷◌, Option, none, some, arith}
use moqx.Base.Trie.{node, nil}
use moqx.NamespaceTree.Routes.{Ptr}
use moqx.NamespaceTree.Nodes.{new_state}
use moqx.NamespaceTree.Operations.{NamespaceTree}
use moqx.NamespaceTree.Counts.{Sound}
use moqx.NamespaceTree.Contents.{nothing, contents_at-new}
use moqx.NamespaceTree.Runs.{
  Operation, sets_publisher, updates_route, unpublishes_namespace, unpublishes_track, publishes,
  subscribes, unsubscribes, Holdings, run, hold_after,
}
use moqx.NamespaceTree.Refinement.{Represents, GoesThrough}
use moqx.NamespaceTree.Refinement.Publishers.{set_publisher_through}
use moqx.NamespaceTree.Refinement.Named.{update_route_through, unpublish_namespace_through}
use moqx.NamespaceTree.Refinement.Tracks.{
  unpublish_track_through, add_publish_through, add_namespace_subscriber_through,
  remove_namespace_subscriber_through,
}

abbrev pub empty_tree : NamespaceTree
empty_tree = record { root = node (new_state []) nil; next_route_seq = 0 }

abbrev pub no_holdings : Holdings
no_holdings = record { at = λ ns. nothing; next_route_seq = 0 }

abbrev pub and_then :
    Option NamespaceTree → (NamespaceTree → Option NamespaceTree) → Option NamespaceTree
and_then none f = none
and_then (some t) f = f t

module _ (session_id : Ptr → ℕ) where
  unfoldable pub run_all : List Operation → NamespaceTree → Option NamespaceTree
  run_all [] t = some t
  run_all (op ∷ ops) t = and_then (run session_id op t) (λ t'. run_all ops t')

  unfoldable pub hold_all : List Operation → Holdings → Holdings
  hold_all [] h = h
  hold_all (op ∷ ops) h = hold_all ops (hold_after session_id op h)

  run-GoesThrough :
      (op : Operation) (t : NamespaceTree) (h : Holdings)
      → Represents t h
      → GoesThrough (run session_id op t) (hold_after session_id op h)
  unfolding run
  run-GoesThrough (sets_publisher ns a) t h r = set_publisher_through t h r ns session_id a
  run-GoesThrough (updates_route ns id request path cost) t h r =
      update_route_through t h r ns session_id id request path cost
  run-GoesThrough (unpublishes_namespace ns id request) t h r =
      unpublish_namespace_through t h r ns session_id id request
  run-GoesThrough (unpublishes_track ns track) t h r =
      unpublish_track_through t h r session_id ns track
  run-GoesThrough (publishes ftn session) t h r = add_publish_through t h r session_id ftn session
  run-GoesThrough (subscribes ns session info) t h r =
      add_namespace_subscriber_through t h r session_id ns session info
  run-GoesThrough (unsubscribes ns session) t h r =
      remove_namespace_subscriber_through t h r session_id ns session

  then_GoesThrough :
      (ops : List Operation) (o : Option NamespaceTree) (h : Holdings)
      → ((t : NamespaceTree) → Represents t h → GoesThrough (run_all ops t) (hold_all ops h))
      → GoesThrough o h
      → GoesThrough (and_then o (λ t. run_all ops t)) (hold_all ops h)
  then_GoesThrough ops none h next g = absurd g
  then_GoesThrough ops (some t) h next g = next t g

  run_all-GoesThrough :
      (ops : List Operation) (t : NamespaceTree) (h : Holdings)
      → Represents t h
      → GoesThrough (run_all ops t) (hold_all ops h)
  unfolding run_all hold_all
  run_all-GoesThrough [] t h r = r
  run_all-GoesThrough (op ∷ ops) t h r =
      then_GoesThrough ops (run session_id op t) (hold_after session_id op h)
        (λ t' r'. run_all-GoesThrough ops t' (hold_after session_id op h) r')
        (run-GoesThrough op t h r)

  empty_tree-Represents : Represents empty_tree no_holdings
  unfolding Sound new_state
  empty_tree-Represents = record {
    sound = omega arith;
    shows = λ q. contents_at-new [] q;
    numbered = refl;
  }

  -- From the empty tree any sequence of operations goes through: no XCHECK fails, the counts stay
  -- sound, and each namespace holds exactly what a flat map from namespaces to routes, published
  -- tracks and subscribers, without nodes, counts or pruning, holds after the same operations.
  pub run_all-Represents :
      (ops : List Operation) → GoesThrough (run_all ops empty_tree) (hold_all ops no_holdings)
  run_all-Represents ops = run_all-GoesThrough ops empty_tree no_holdings empty_tree-Represents
