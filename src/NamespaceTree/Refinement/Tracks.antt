-- ===== src/NamespaceTree/Refinement/Tracks.antt =====
-- The operations of src/NamespaceTree.cpp on tracks and subscribers against the flat map.
use moqx.Base.{
  ℕ, ◌≡◌, refl, ap, sym, ◌∙◌, inl, inr, List, [], ◌∷◌, Option, none, some, ℕ_Eq, List_Eq, length,
  Bytes, TrackNamespace, FullTrackName, arith,
}
use moqx.Base.Assoc
use moqx.Base.Trie.{label}
use moqx.NamespaceTree.Routes.{Ptr}
use moqx.NamespaceTree.Nodes.{NodeState, SubscriberInfo, AdvertisementKey, AdvertisementKey_Eq}
use moqx.NamespaceTree.Operations.{NamespaceTree, with_node, unpublish_track}
use moqx.NamespaceTree.Subscriptions.{
  add_publish, emplace, add_namespace_subscriber, relabel_at, erase_subscriber_advertisement,
  remove_found, remove_namespace_subscriber,
}
use moqx.NamespaceTree.Contents.{Contents}
use moqx.NamespaceTree.Relabels.{Sound-relabel_at, contents_at-relabel_at}
use moqx.NamespaceTree.Runs.{
  unpublishes_track, publishes, subscribes, unsubscribes, tree_after, Holdings, hold_after,
}
use moqx.NamespaceTree.Refinement.{
  Represents, GoesThrough, found_contents, answered, unchanged, missing, guarded_through,
}

erase_absent :
    (session : Ptr) (m : List (Ptr × SubscriberInfo))
    → Assoc.find session m ≡ none
    → Assoc.erase session m ≡ m
erase_absent session [] e = refl
erase_absent session ((k, v) ∷ m) e = ground (arith, erase_absent session m)

-- The tree without the advertisements of a subscription shows the same.
relabelled :
    (key : AdvertisementKey) (ns : TrackNamespace) (t : NamespaceTree) (h : Holdings)
    → Represents t h
    → Represents (record t { root = relabel_at (erase_subscriber_advertisement key) ns t.root }) h
unfolding erase_subscriber_advertisement
relabelled key ns t h r =
    let f = erase_subscriber_advertisement key in
    record {
      sound = Sound-relabel_at f (λ d. (refl, refl)) ns t.root r.sound;
      shows = λ q. contents_at-relabel_at f (λ d. (refl, refl)) ns t.root q ∙ r.shows q;
      numbered = r.numbered;
    }

module _ (t : NamespaceTree) (h : Holdings) (r : Represents t h) where
  pub unpublish_track_through :
      (session_id : Ptr → ℕ) (ns : TrackNamespace) (track : Bytes)
      → GoesThrough
          (tree_after (unpublish_track t ns track))
          (hold_after session_id (unpublishes_track ns track) h)
  unfolding unpublish_track hold_after with_node
  unpublish_track_through session_id ns track = elim (found_contents t.root ns) [
    | inl (z, e) ↦
        rw z (missing t h r ns (λ c. record c { publishes = Assoc.erase track c.publishes }) e refl)
    | inr (n, z, e) ↦ rw z (
        answered t h r ns _ _ _ (
          guarded_through t h r ns (λ d. record d { publishes = Assoc.erase track d.publishes })
            (λ c. record c { publishes = Assoc.erase track c.publishes }) (λ d. refl) (λ d. refl)))
  ]

  pub add_publish_through :
      (session_id : Ptr → ℕ) (ftn : FullTrackName) (session : Ptr)
      → GoesThrough
          (tree_after (add_publish t ftn session))
          (hold_after session_id (publishes ftn session) h)
  unfolding add_publish hold_after
  add_publish_through session_id ftn session =
      let put = λ (m : List (Bytes × Ptr)). Assoc.insert_or_assign ftn.track_name session m in
      answered t h r ftn.track_namespace _ _ _ (
        guarded_through t h r ftn.track_namespace (λ d. record d { publishes = put d.publishes })
          (λ c. record c { publishes = put c.publishes }) (λ d. refl) (λ d. refl))

  pub add_namespace_subscriber_through :
      (session_id : Ptr → ℕ) (ns : TrackNamespace) (session : Ptr) (info : SubscriberInfo)
      → GoesThrough
          (add_namespace_subscriber t ns session info)
          (hold_after session_id (subscribes ns session info) h)
  unfolding add_namespace_subscriber hold_after
  add_namespace_subscriber_through session_id ns session info =
      guarded_through t h r ns (λ d. record d { subscribers = emplace session info d.subscribers })
        (λ c. record c { subscribers = emplace session info c.subscribers }) (λ d. refl) (λ d. refl)

  remove_found_through :
      (session_id : Ptr → ℕ) (ns : TrackNamespace) (session : Ptr) (d : NodeState)
      (found : Option SubscriberInfo)
      → (found ≡ none → Assoc.erase session (h.at ns).subscribers ≡ (h.at ns).subscribers)
      → GoesThrough
          (tree_after (remove_found session_id t ns session d found))
          (hold_after session_id (unsubscribes ns session) h)
  unfolding remove_found hold_after
  remove_found_through session_id ns session d none z =
      unchanged t h r ns _ (ap (λ m. record (h.at ns) { subscribers = m }) (z refl))
  remove_found_through session_id ns session d (some info) z =
      let key : AdvertisementKey = record {
        session_id = session_id session;
        prefix_length = length ns;
      } in
      let t' = record t { root = relabel_at (erase_subscriber_advertisement key) ns t.root } in
      answered t h r ns _ _ _ (
        guarded_through t' h (relabelled key ns t h r) ns
          (λ d. record d { subscribers = Assoc.erase session d.subscribers })
          (λ c. record c { subscribers = Assoc.erase session c.subscribers }) (λ d. refl)
          (λ d. refl))

  pub remove_namespace_subscriber_through :
      (session_id : Ptr → ℕ) (ns : TrackNamespace) (session : Ptr)
      → GoesThrough
          (tree_after (remove_namespace_subscriber session_id t ns session))
          (hold_after session_id (unsubscribes ns session) h)
  unfolding remove_namespace_subscriber with_node hold_after
  remove_namespace_subscriber_through session_id ns session = elim (found_contents t.root ns) [
    | inl (z, e) ↦ rw z (
        missing t h r ns (λ c. record c { subscribers = Assoc.erase session c.subscribers }) e refl)
    | inr (n, z, e) ↦ rw z (
        remove_found_through session_id ns session (label n)
          (Assoc.find session (label n).subscribers)
          (λ f.
            erase_absent session (h.at ns).subscribers
              (ap (λ (c : Contents). Assoc.find session c.subscribers) (sym (e ∙ r.shows ns)) ∙ f)))
  ]
