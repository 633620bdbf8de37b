-- ===== src/NamespaceTree/Nodes.antt =====
-- The nodes of src/NamespaceTree.h, and how src/NamespaceTree.cpp finds, creates, counts and prunes
-- them. A node has no pointer to its parent: what it tells the parent is the result of the change
-- below. The counts are numbers without a bound, where the source has size_t. The order in which
-- the hash maps are read is that of a list.
use moqx.Base.{
  ℕ, ◌+◌, ◌-◌, List, [], ◌∷◌, ◌++◌, Option, none, some, Bool, true, false, ◌&&◌, ◌||◌, not,
  if◌then◌else◌, ltb, nat_eq, Eq, ◌≡◌, ◌↔◌, arith, ◌==◌, ℕ_Eq, List_Eq, Bytes, TrackNamespace,
}
use moqx.Base.Trie.{Trie, Children, node, nil, find_child, set_child, erase_child}
use moqx.NamespaceTree.Routes.{Ptr, Route}

pub record TrackFilter : Type 0 where
  pub property_type : ℕ
  pub max_selected : ℕ

-- NamespaceSubscriberInfo; the options are SubscribeNamespaceOptions' number.
pub record SubscriberInfo : Type 0 where
  pub forward : Bool
  pub options : ℕ
  pub namespace_publish_handle : Option Ptr
  pub track_namespace_prefix : TrackNamespace
  pub track_filter : Option TrackFilter
  pub peer_id : Bytes

pub record Advertisement : Type 0 where
  pub route_seq : ℕ
  pub path : List ℕ
  pub cost : ℕ

-- A session's id, and the length of the prefix.
pub record AdvertisementKey : Type 0 where
  pub session_id : ℕ
  pub prefix_length : ℕ

abbrev pub key_eq : AdvertisementKey → AdvertisementKey → Bool
key_eq a b = a.session_id == b.session_id && a.prefix_length == b.prefix_length

pub key_eq_iff : (a b : AdvertisementKey) → (key_eq a b ≡ true) ↔ (a ≡ b)
key_eq_iff a b = ground arith

instance abbrev pub AdvertisementKey_Eq : Eq AdvertisementKey
AdvertisementKey_Eq = record { is_equal = key_eq; is_equal_iff = key_eq_iff }

-- NamespaceNode without its children; a null PropertyRanking is `none`.
pub record NodeState : Type 0 where
  pub track_namespace : TrackNamespace
  pub routes : List Route
  pub advertisements : List (AdvertisementKey × Advertisement)
  pub publishes : List (Bytes × Ptr)
  pub subscribers : List (Ptr × SubscriberInfo)
  pub rankings : List (ℕ × Option Ptr)
  pub active_child_count : ℕ

abbrev pub Tree : Type 0
Tree = Trie NodeState

abbrev pub Below : Type 0
Below = Children NodeState

abbrev pub is_empty : {A : Type 0} → List A → Bool
is_empty [] = true
is_empty (x ∷ xs) = false

unfoldable pub has_content : NodeState → Bool
has_content d =
    not (is_empty d.publishes) || not (is_empty d.subscribers) || not (is_empty d.routes)

unfoldable pub should_keep : NodeState → Bool
unfolding has_content
should_keep d = has_content d || ltb 0 d.active_child_count

unfoldable pub new_state : TrackNamespace → NodeState
new_state ns = record {
  track_namespace = ns;
  routes = [];
  advertisements = [];
  publishes = [];
  subscribers = [];
  rankings = [];
  active_child_count = 0;
}

-- A child, or the one that findNode creates for the namespace.
unfoldable pub or_new : TrackNamespace → Option Tree → Tree
unfolding new_state
or_new ns none = node (new_state ns) nil
or_new ns (some n) = n

-- What the parent of a changed node learns: nothing, one more active child, or that the child is
-- to be pruned.
pub data Change : Type 0 where
  still first_content emptied : Change

-- The destructor of NodeMutationGuard: notifyParentIfFirstContent, then tryPruneSelf.
unfoldable pub guard_change : NodeState → NodeState → Change
unfolding has_content should_keep
guard_change d d' =
    if not (has_content d) && has_content d'
    then first_content
    else if has_content d && not (should_keep d')
    then emptied
    else still

-- incrementActiveChildren, at one node.
unfoldable pub increment : NodeState → NodeState × Change
unfolding has_content
increment d =
    let d' = record d { active_child_count = d.active_child_count + 1 } in
    (d', if nat_eq d'.active_child_count 1 && not (has_content d) then first_content else still)

-- One round of tryPruneChild's loop; `none` is the failed XCHECK_GT, which aborts.
unfoldable pub decrement : NodeState → Option (NodeState × Change)
unfolding has_content
decrement d =
    let d' = record d { active_child_count = d.active_child_count - 1 } in
    if ltb 0 d.active_child_count
    then some (d', if has_content d || ltb 0 d'.active_child_count then still else emptied)
    else none

unfoldable pub prune : Bytes → Below → Option (NodeState × Change) → Option (Tree × Change)
prune part cs none = none
prune part cs (some (d, c)) = some (node d (erase_child part cs), c)

-- What a change of a child makes of its parent. A pruned child goes with all that is below it.
unfoldable pub settle : Bytes → NodeState → Below → Option (Tree × Change) → Option (Tree × Change)
unfolding prune
settle part d cs none = none
settle part d cs (some (m, still)) = some (node d (set_child part m cs), still)
settle part d cs (some (m, first_content)) =
    let (d', c) = increment d in some (node d' (set_child part m cs), c)
settle part d cs (some (m, emptied)) = prune part cs (decrement d)

-- A change at the node of a namespace, made where it is missing, of what the node holds; `at` is
-- the namespace of the root of the tree.
unfoldable pub update_at :
    (NodeState → NodeState × Change)
    → TrackNamespace
    → TrackNamespace
    → Tree
    → Option (Tree × Change)
unfolding settle or_new
update_at f at [] (node d cs) = let (d', c) = f d in some (node d' cs, c)
update_at f at (part ∷ ns) (node d cs) =
    let at' = at ++ (part ∷ []) in
    settle part d cs (update_at f at' ns (or_new at' (find_child part cs)))

unfoldable pub guarded : (NodeState → NodeState) → NodeState → NodeState × Change
unfolding guard_change
guarded f d = (f d, guard_change d (f d))

unfoldable pub unguarded : (NodeState → NodeState) → NodeState → NodeState × Change
unguarded f d = (f d, still)

-- What a function reads at a child, if there is one.
unfoldable pub at_child : {A : Type 0} → A → (Tree → A) → Option Tree → A
at_child missing f none = missing
at_child missing f (some n) = f n

-- findNode, without creation.
unfoldable pub find_node : Tree → TrackNamespace → Option Tree
unfolding at_child
find_node n [] = some n
find_node (node d cs) (part ∷ ns) = at_child none (λ n. find_node n ns) (find_child part cs)

-- The subscribers that findNode collects on its way, with those of the node itself: of every prefix
-- of the namespace.
unfoldable pub covering_subscribers : Tree → TrackNamespace → List (Ptr × SubscriberInfo)
unfolding at_child
covering_subscribers (node d cs) [] = d.subscribers
covering_subscribers (node d cs) (part ∷ ns) =
    d.subscribers ++ at_child [] (λ n. covering_subscribers n ns) (find_child part cs)
