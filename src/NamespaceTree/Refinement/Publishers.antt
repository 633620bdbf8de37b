-- ===== src/NamespaceTree/Refinement/Publishers.antt =====
-- setPublisher, updateRoute and unpublishNamespace of src/NamespaceTree.cpp against the flat map.
use moqx.Base.{
  ℕ, ◌≡◌, refl, ap, subst, sym, ◌∙◌, inl, inr, List, [], ◌∷◌, Option, none, some, Bool, false, ℕ_Eq,
  find_if, TrackNamespace, Bool-cases, arith,
}
use moqx.NamespaceTree.Routes.{
  Ptr, Route, Announcement, place_route, place_over, repeat_route, push_route, replace_first,
  displaces, repeats,
}
use moqx.NamespaceTree.Nodes.{
  NodeState, has_content, is_empty, guarded, unguarded, at_child, new_state,
}
use moqx.NamespaceTree.Operations.{
  NamespaceTree, update, state_at, put_routes, publish_here, set_publisher,
}
use moqx.NamespaceTree.Counts.{Faithful}
use moqx.NamespaceTree.Contents.{Contents, contents, contents_at}
use moqx.NamespaceTree.Runs.{sets_publisher, tree_after, Holdings, hold, hold_after}
use moqx.NamespaceTree.Refinement.{
  Represents, GoesThrough, guarded-Faithful, unguarded_tells, found_contents, update-GoesThrough,
  answered,
}

is_empty-replace_first :
    (p : Route → Bool) (new : Route) (rs : List Route)
    → is_empty (replace_first p new rs) ≡ is_empty rs
is_empty-replace_first p new [] = refl
is_empty-replace_first p new (r ∷ rs) = ground arith

-- Routes that are changed without a guard are there before and after.
place_over_unguarded :
    (a : Announcement) (rs : List Route) (seq : ℕ) (found : Option Route)
    → (place_over a rs seq found).guarded ≡ false
    → is_empty (place_over a rs seq found).routes ≡ is_empty rs
unfolding place_over repeat_route push_route
place_over_unguarded a rs seq none g = cc
place_over_unguarded a rs seq (some r) g = elim (Bool-cases (repeats a r)) [
  | inl h ↦ rw h (is_empty-replace_first (displaces a) _ rs)
  | inr h ↦ cc (rw h at g)
]

same_content :
    (d : NodeState) (rs : List Route)
    → is_empty rs ≡ is_empty d.routes
    → has_content (record d { routes = rs }) ≡ has_content d
unfolding has_content
same_content d rs e = rw e

publish_here-Faithful :
    (ns : TrackNamespace) (a : Announcement) (seq : ℕ) → Faithful (publish_here ns a seq)
unfolding publish_here put_routes unguarded place_route
publish_here-Faithful ns a seq d =
    let p = place_route a d.routes seq in
    elim (Bool-cases p.guarded) [
      | inl g ↦ rw g (
          guarded-Faithful (λ d. record d { routes = p.routes; track_namespace = ns }) (λ d. refl)
            d)
      | inr g ↦ rw g (
        refl,
        unguarded_tells d (record d { routes = p.routes }) refl
            (same_content d p.routes
              (place_over_unguarded a d.routes seq (find_if (displaces a) d.routes) g)),
      )
    ]

contents-publish_here :
    (ns : TrackNamespace) (a : Announcement) (seq : ℕ) (d : NodeState)
    → contents (publish_here ns a seq d).0
      ≡ record (contents d) { routes = (place_route a d.routes seq).routes }
unfolding publish_here put_routes guarded unguarded
contents-publish_here ns a seq d = elim (Bool-cases (place_route a d.routes seq).guarded) [
  | inl g ↦ rw g refl
  | inr g ↦ rw g refl
]

state_at-contents :
    (t : NamespaceTree) (ns : TrackNamespace)
    → contents (state_at t.root ns) ≡ contents_at t.root ns
unfolding state_at at_child new_state
state_at-contents t ns = elim (found_contents t.root ns) [
  | inl (z, e) ↦ rw z (sym e)
  | inr (n, z, e) ↦ rw z e
]

module _ (t : NamespaceTree) (h : Holdings) (r : Represents t h) (ns : TrackNamespace) where
  publish_through :
      (a : Announcement) (rs : List Route) (s s' : ℕ)
      → rs ≡ (h.at ns).routes
      → s ≡ s'
      → GoesThrough (update t ns (place_route a rs s).next_route_seq (publish_here ns a s)) (
          hold h ns
            (place_route a (h.at ns).routes s').next_route_seq
            (record (h.at ns) { routes = (place_route a (h.at ns).routes s').routes }))
  publish_through a rs s s' e n =
      subst
        (λ x. GoesThrough (update t ns (place_route a rs s).next_route_seq (publish_here ns a s)) (
          hold h ns (place_route a (h.at ns).routes x).next_route_seq
            (record (h.at ns) { routes = (place_route a (h.at ns).routes x).routes })))
        n
        (subst
          (λ x. GoesThrough (update t ns (place_route a x s).next_route_seq (publish_here ns a s)) (
            hold h ns (place_route a (h.at ns).routes s).next_route_seq
              (record (h.at ns) { routes = (place_route a (h.at ns).routes s).routes })))
          (sym e)
          (update-GoesThrough t h r ns (place_route a (h.at ns).routes s).next_route_seq
            (publish_here ns a s) (λ c. record c { routes = (place_route a c.routes s).routes })
            (publish_here-Faithful ns a s) (contents-publish_here ns a s)))

  pub set_publisher_through :
      (session_id : Ptr → ℕ) (a : Announcement)
      → GoesThrough
          (tree_after (set_publisher t ns a))
          (hold_after session_id (sets_publisher ns a) h)
  unfolding set_publisher hold_after
  set_publisher_through session_id a = answered t h r ns _ _ _ (
      publish_through a (state_at t.root ns).routes t.next_route_seq h.next_route_seq
        (ap (λ (c : Contents). c.routes) (state_at-contents t ns ∙ r.shows ns)) r.numbered)

  -- A change in place of the route that a test finds.
  pub replaced_through :
      (named : Route → Bool) (new : Route) (seq : ℕ)
      → GoesThrough
          (update t ns seq
            (unguarded (λ d. record d { routes = replace_first named new d.routes })))
          (hold h ns seq (record (h.at ns) { routes = replace_first named new (h.at ns).routes }))
  unfolding unguarded
  replaced_through named new seq =
      update-GoesThrough t h r ns seq
        (unguarded (λ d. record d { routes = replace_first named new d.routes }))
        (λ c. record c { routes = replace_first named new c.routes })
        (λ d. (
          refl,
          unguarded_tells d (record d { routes = replace_first named new d.routes }) refl
              (same_content d _ (is_empty-replace_first named new d.routes)),
        ))
        (λ d. refl)
