-- ===== src/NamespaceTree/Subscriptions.antt =====
-- The operations of src/NamespaceTree.cpp and src/NamespaceTree.h on published tracks, subscribers,
-- advertisements and rankings.
use moqx.Base.{
  ℕ, List, [], ◌∷◌, ◌++◌, Option, none, some, ℕ_Eq, List_Eq, length, Bytes, TrackNamespace,
  FullTrackName,
}
use moqx.Base.Assoc
use moqx.Base.Trie.{node, nil, child, find_child, set_child}
use moqx.NamespaceTree.Routes.{Ptr}
use moqx.NamespaceTree.Nodes.{
  Tree, Below, NodeState, SubscriberInfo, TrackFilter, Advertisement, AdvertisementKey,
  AdvertisementKey_Eq, guarded, at_child, find_node, covering_subscribers,
}
use moqx.NamespaceTree.Operations.{
  NamespaceTree, not_subscribed, Expected, value, unexpected, update, answer, with_node,
}

-- The rankings that are not null.
unfoldable pub live_rankings : List (ℕ × Option Ptr) → List (ℕ × Ptr)
live_rankings [] = []
live_rankings ((property_type, none) ∷ m) = live_rankings m
live_rankings ((property_type, some ranking) ∷ m) = (property_type, ranking) ∷ live_rankings m

-- Those of a node, then those of its parents.
unfoldable pub covering_rankings : Tree → TrackNamespace → List (ℕ × Ptr)
unfolding live_rankings at_child
covering_rankings (node d cs) [] = live_rankings d.rankings
covering_rankings (node d cs) (part ∷ ns) =
    at_child [] (λ n. covering_rankings n ns) (find_child part cs) ++ live_rankings d.rankings

pub record AddPublishResult : Type 0 where
  pub subscribers : List (Ptr × SubscriberInfo)
  -- the calls of onRanking, if one is given
  pub on_ranking : List (ℕ × Ptr)

unfoldable pub add_publish :
    NamespaceTree → FullTrackName → Ptr → Option (AddPublishResult × NamespaceTree)
unfolding update answer
add_publish t ftn session =
    answer
      (record {
        subscribers = covering_subscribers t.root ftn.track_namespace;
        on_ranking = covering_rankings t.root ftn.track_namespace;
      })
      (update t ftn.track_namespace t.next_route_seq (
        guarded (λ d. record d {
          publishes = Assoc.insert_or_assign ftn.track_name session d.publishes;
        })))

-- `emplace` leaves the entry of a present key as it is.
unfoldable pub emplace_over :
    Ptr
    → SubscriberInfo
    → List (Ptr × SubscriberInfo)
    → Option SubscriberInfo
    → List (Ptr × SubscriberInfo)
emplace_over session info m none = (session, info) ∷ m
emplace_over session info m (some old) = m

unfoldable pub emplace :
    Ptr → SubscriberInfo → List (Ptr × SubscriberInfo) → List (Ptr × SubscriberInfo)
unfolding emplace_over
emplace session info m = emplace_over session info m (Assoc.find session m)

unfoldable pub add_namespace_subscriber :
    NamespaceTree → TrackNamespace → Ptr → SubscriberInfo → Option NamespaceTree
unfolding update emplace
add_namespace_subscriber t ns session info =
    update t ns t.next_route_seq
      (guarded (λ d. record d { subscribers = emplace session info d.subscribers }))

-- A change of every node of a subtree, as forEachNodeInSubtree makes it.
unfoldable mutual
  pub relabel : (NodeState → NodeState) → Tree → Tree
  relabel f (node d cs) = node (f d) (relabel_below f cs)

  pub relabel_below : (NodeState → NodeState) → Below → Below
  relabel_below f nil = nil
  relabel_below f (child part n cs) = child part (relabel f n) (relabel_below f cs)

unfoldable pub put_found : Bytes → Below → Option Tree → Below
put_found part cs none = cs
put_found part cs (some n) = set_child part n cs

unfoldable pub relabel_at : (NodeState → NodeState) → TrackNamespace → Tree → Tree
unfolding relabel put_found at_child
relabel_at f [] n = relabel f n
relabel_at f (part ∷ ns) (node d cs) =
    node d (put_found part cs (at_child none (λ n. some (relabel_at f ns n)) (find_child part cs)))

unfoldable pub erase_subscriber_advertisement : AdvertisementKey → NodeState → NodeState
erase_subscriber_advertisement key d = record d {
  advertisements = Assoc.erase key d.advertisements;
}

unfoldable pub set_subscriber_advertisement :
    AdvertisementKey → Advertisement → NodeState → NodeState
set_subscriber_advertisement key a d = record d {
  advertisements = Assoc.insert_or_assign key a d.advertisements;
}

unfoldable pub find_subscriber_advertisement : AdvertisementKey → NodeState → Option Advertisement
find_subscriber_advertisement key d = Assoc.find key d.advertisements

unfoldable pub at_filter : ℕ → Option (Option Ptr) → Option (Option Ptr × ℕ)
at_filter max_selected none = none
at_filter max_selected (some ranking) = some (ranking, max_selected)

-- The ranking that is told removeSessionFromTopNGroup, and of which maxSelected.
unfoldable pub ranking_told : List (ℕ × Option Ptr) → Option TrackFilter → Option (Option Ptr × ℕ)
unfolding at_filter
ranking_told rankings none = none
ranking_told rankings (some filter) =
    at_filter filter.max_selected (Assoc.find filter.property_type rankings)

unfoldable pub remove_found :
    (Ptr → ℕ)
    → NamespaceTree
    → TrackNamespace
    → Ptr
    → NodeState
    → Option SubscriberInfo
    → Option (Expected (Option (Option Ptr × ℕ)) × NamespaceTree)
unfolding ranking_told relabel_at erase_subscriber_advertisement update answer
remove_found session_id t ns session d none = some (unexpected not_subscribed, t)
remove_found session_id t ns session d (some info) =
    let key : AdvertisementKey = record {
      session_id = session_id session;
      prefix_length = length ns;
    } in
    let t' = record t { root = relabel_at (erase_subscriber_advertisement key) ns t.root } in
    answer (value (ranking_told d.rankings info.track_filter)) (
      update t' ns t'.next_route_seq
        (guarded (λ d. record d { subscribers = Assoc.erase session d.subscribers })))

unfoldable pub remove_namespace_subscriber :
    (Ptr → ℕ)
    → NamespaceTree
    → TrackNamespace
    → Ptr
    → Option (Expected (Option (Option Ptr × ℕ)) × NamespaceTree)
unfolding remove_found with_node
remove_namespace_subscriber session_id t ns session =
    with_node t (λ d. remove_found session_id t ns session d (Assoc.find session d.subscribers))
      (find_node t.root ns)

-- `rankings_[propertyType]`: a null slot where there is none.
unfoldable pub insert_slot : ℕ → List (ℕ × Option Ptr) → Option (Option Ptr) → List (ℕ × Option Ptr)
insert_slot property_type m none = (property_type, none) ∷ m
insert_slot property_type m (some slot) = m

unfoldable pub get_or_insert_ranking : ℕ → NodeState → NodeState
unfolding insert_slot
get_or_insert_ranking property_type d = record d {
  rankings = insert_slot property_type d.rankings (Assoc.find property_type d.rankings);
}
