-- ===== src/NamespaceTree/Refinement.antt =====
-- The tree of src/NamespaceTree.cpp implements the flat map, and no sequence of its operations
-- fails the check of a count.
pub mod Publishers
pub mod Named
pub mod Tracks
use moqx.Base.{
  ℕ, ◌≡◌, refl, ap, subst, sym, ◌∙◌, ◌⊎◌, inl, inr, List, [], ◌∷◌, ◌++◌, Option, none, some, Bool,
  true, false, ◌&&◌, ◌||◌, not, if◌then◌else◌, ◌==◌, ℕ_Eq, List_Eq, list_eq_iff, find_if, length,
  Bytes, TrackNamespace, FullTrackName, Bool-cases, Option-cases, arith,
}
use moqx.Base.Assoc
use moqx.Base.Trie.{Trie, Children, node, nil, child, label, find_child}
use moqx.NamespaceTree.Routes.{
  Ptr, Route, Announcement, RouteChange, place_route, place_over, repeat_route, push_route,
  revise_route, erase_first, replace_first, displaces,
}
use moqx.NamespaceTree.Nodes.{
  Tree, Below, NodeState, SubscriberInfo, AdvertisementKey, AdvertisementKey_Eq, has_content,
  should_keep, is_empty, new_state, Change, still, guard_change, guarded, unguarded, update_at,
  at_child, find_node,
}
use moqx.NamespaceTree.Operations.{
  NamespaceTree, put_root, update, answer, state_at, put_routes, publish_here, set_publisher,
  update_found, with_node, update_route, names_route, unpublish_found, unpublishes_route,
  unpublish_namespace, unpublish_track, Expected, value, unexpected,
}
use moqx.NamespaceTree.Subscriptions.{
  add_publish, emplace, add_namespace_subscriber, relabel_at, erase_subscriber_advertisement,
  remove_found, remove_namespace_subscriber,
}
use moqx.NamespaceTree.Counts.{Sound, Fine, Tells, Tells-guard_change, Faithful, Fine-update_at}
use moqx.NamespaceTree.Contents.{
  Contents, contents, nothing, contents_at, at_namespace, contents_at-update_at,
}
use moqx.NamespaceTree.Relabels.{Leaves, Sound-relabel_at, contents_at-relabel_at}
use moqx.NamespaceTree.Runs.{Operation, tree_after, Holdings, hold, revise_at, run, hold_after}

-- The tree keeps sound counts, and shows what the flat map holds.
pub record Represents (t : NamespaceTree) (h : Holdings) : Type 0 where
  pub sound : Sound t.root
  pub shows : (q : TrackNamespace) → contents_at t.root q ≡ h.at q
  pub numbered : t.next_route_seq ≡ h.next_route_seq

-- The operation goes through, and the tree shows what the flat map holds after it.
abbrev pub GoesThrough : Option NamespaceTree → Holdings → Type 0
GoesThrough none h = ⊥
GoesThrough (some t) h = Represents t h

guarded-Faithful :
    (f : NodeState → NodeState)
    → ((d : NodeState) → (f d).active_child_count ≡ d.active_child_count)
    → Faithful (guarded f)
unfolding guarded
guarded-Faithful f same d = (same d, Tells-guard_change d (f d) (same d))

unguarded_tells :
    (d d' : NodeState)
    → d'.active_child_count ≡ d.active_child_count
    → has_content d' ≡ has_content d
    → should_keep d' ≡ true
    → should_keep d ≡ true
unfolding should_keep
unguarded_tells d d' c e k = rw (c, e) at k

-- A node is found just where the namespace has one; elsewhere nothing is held.
found_contents :
    (root : Tree) (ns : TrackNamespace)
    → (find_node root ns ≡ none) × (contents_at root ns ≡ nothing)
      ⊎ ((n : Tree) × (find_node root ns ≡ some n) × (contents (label n) ≡ contents_at root ns))
unfolding find_node contents_at at_child
found_contents (node d cs) [] = inr (node d cs, refl, refl)
found_contents (node d cs) (part ∷ rest) = elim (Option-cases (find_child part cs)) [
  | inl z ↦ inl (rw z refl, rw z refl)
  | inr (n, z) ↦ rw z (found_contents n rest)
]

module _ (t : NamespaceTree) (h : Holdings) (r : Represents t h) (ns : TrackNamespace) where
  at_namespace_same :
      (changed : Contents → Contents) (q : TrackNamespace)
      → at_namespace ns q (changed (contents_at t.root q)) (contents_at t.root q)
        ≡ (if ns == q then changed (h.at ns) else h.at q)
  at_namespace_same changed q = elim (Bool-cases (ns == q)) [
    | inl e ↦ rw e (ap changed (r.shows q ∙ ap h.at (sym ((list_eq_iff ns q).0 e))))
    | inr e ↦ rw e (r.shows q)
  ]

  update-GoesThrough :
      (seq : ℕ) (f : NodeState → NodeState × Change) (changed : Contents → Contents)
      → Faithful f
      → ((d : NodeState) → contents (f d).0 ≡ changed (contents d))
      → GoesThrough (update t ns seq f) (hold h ns seq (changed (h.at ns)))
  unfolding update put_root
  update-GoesThrough seq f changed faithful agrees =
      elim (Option-cases (update_at f [] ns t.root)) [
        | inl fails ↦ absurd (rw fails at (Fine-update_at f [] ns t.root faithful r.sound))
        | inr ((n, c), went) ↦
            let fine : Fine (should_keep (label t.root)) (some (n, c)) =
              rw went at (Fine-update_at f [] ns t.root faithful r.sound) in
            rw went (record {
              sound = fine.0;
              shows = λ q.
                  contents_at-update_at f changed [] ns t.root n c faithful agrees r.sound went q
                  ∙ at_namespace_same changed q;
              numbered = refl;
            })
      ]

  answered :
      {A : Type 0} (a : A) (o : Option NamespaceTree) (h' : Holdings)
      → GoesThrough o h'
      → GoesThrough (tree_after (answer a o)) h'
  unfolding answer
  answered a none h' g = g
  answered a (some t') h' g = g

  -- An operation that changes nothing, where the flat map does not change either.
  unchanged : (c : Contents) → c ≡ h.at ns → Represents t (hold h ns h.next_route_seq c)
  unchanged c e = record {
    sound = r.sound;
    shows = λ q. elim (Bool-cases (ns == q)) [
      | inl b ↦ rw b (r.shows q ∙ ap h.at (sym ((list_eq_iff ns q).0 b)) ∙ sym e)
      | inr b ↦ rw b (r.shows q)
    ];
    numbered = r.numbered;
  }

  -- On a namespace that holds nothing, where the change makes nothing of nothing.
  missing :
      (changed : Contents → Contents)
      → contents_at t.root ns ≡ nothing
      → changed nothing ≡ nothing
      → Represents t (hold h ns h.next_route_seq (changed (h.at ns)))
  missing changed e z =
      let empty : h.at ns ≡ nothing = sym (r.shows ns) ∙ e in
      unchanged (changed (h.at ns)) (ap changed empty ∙ z ∙ sym empty)

  -- The flat map's counter is the tree's.
  renumbered :
      (o : Option NamespaceTree) (h' : ℕ → Holdings)
      → GoesThrough o (h' t.next_route_seq)
      → GoesThrough o (h' h.next_route_seq)
  renumbered o h' g = subst (λ s. GoesThrough o (h' s)) r.numbered g

  guarded_through :
      (f : NodeState → NodeState) (changed : Contents → Contents)
      → ((d : NodeState) → (f d).active_child_count ≡ d.active_child_count)
      → ((d : NodeState) → contents (f d) ≡ changed (contents d))
      → GoesThrough
          (update t ns t.next_route_seq (guarded f))
          (hold h ns h.next_route_seq (changed (h.at ns)))
  unfolding guarded
  guarded_through f changed same agrees =
      renumbered (update t ns t.next_route_seq (guarded f)) (λ s. hold h ns s (changed (h.at ns)))
        (update-GoesThrough t.next_route_seq (guarded f) changed (guarded-Faithful f same) agrees)
