-- ===== src/NamespaceTree/Refinement/Named.antt =====
-- updateRoute and unpublishNamespace of src/NamespaceTree.cpp against the flat map.
use moqx.Base.{
  ℕ, ◌≡◌, refl, ap, subst, sym, ◌∙◌, inl, inr, List, [], ◌∷◌, Option, none, some, Bool, find_if,
  TrackNamespace, arith,
}
use moqx.Base.Trie.{label}
use moqx.NamespaceTree.Routes.{Ptr, Route, revise_route, erase_first, replace_first}
use moqx.NamespaceTree.Nodes.{Tree, NodeState, unguarded}
use moqx.NamespaceTree.Operations.{
  NamespaceTree, update, update_found, with_node, update_route, names_route, unpublish_found,
  unpublishes_route, unpublish_namespace,
}
use moqx.NamespaceTree.Contents.{Contents, contents, contents_at}
use moqx.NamespaceTree.Runs.{
  updates_route, unpublishes_namespace, tree_after, Holdings, hold, revise_at, hold_after,
}
use moqx.NamespaceTree.Refinement.{
  Represents, GoesThrough, found_contents, answered, unchanged, missing, renumbered,
  guarded_through,
}
use moqx.NamespaceTree.Refinement.Publishers.{replaced_through}

-- Nothing is found, and nothing goes.
erase_absent_route :
    (p : Route → Bool) (rs : List Route) → find_if p rs ≡ none → erase_first p rs ≡ rs
erase_absent_route p [] e = refl
erase_absent_route p (r ∷ rs) e = ground (arith, erase_absent_route p rs)

module _ (t : NamespaceTree) (h : Holdings) (r : Represents t h) (ns : TrackNamespace) where
  routes_held :
      (n : Tree) → contents (label n) ≡ contents_at t.root ns → (label n).routes ≡ (h.at ns).routes
  routes_held n e = ap (λ (c : Contents). c.routes) (e ∙ r.shows ns)

  update_found_through :
      (named : Route → Bool) (path : List ℕ) (cost : ℕ) (d : NodeState) (found : Option Route)
      → GoesThrough
          (tree_after (update_found named t ns path cost d found))
          (revise_at named h ns path cost found)
  unfolding update_found
  update_found_through named path cost d none = r
  update_found_through named path cost d (some x) =
      let now = revise_route x path cost t.next_route_seq in
      answered t h r ns _ _ _ (
        renumbered t h r ns
          (update t ns now.next_route_seq
            (unguarded (λ d. record d { routes = replace_first named now.route d.routes })))
          (λ s. revise_at named (record h { next_route_seq = s }) ns path cost (some x))
          (replaced_through t h r ns named now.route now.next_route_seq))

  pub update_route_through :
      (session_id : Ptr → ℕ) (id request : ℕ) (path : List ℕ) (cost : ℕ)
      → GoesThrough
          (tree_after (update_route session_id t ns id request path cost))
          (hold_after session_id (updates_route ns id request path cost) h)
  unfolding update_route hold_after with_node
  update_route_through session_id id request path cost =
      let named = names_route session_id id request in
      elim (found_contents t.root ns) [
        | inl (z, e) ↦ rw z (
            subst (λ rs. Represents t (revise_at named h ns path cost (find_if named rs)))
              (ap (λ (c : Contents). c.routes) (sym e ∙ r.shows ns)) r)
        | inr (n, z, e) ↦ rw z (
            subst
              (λ rs.
                GoesThrough
                  (tree_after
                    (update_found named t ns path cost (label n) (find_if named (label n).routes)))
                  (revise_at named h ns path cost (find_if named rs)))
              (routes_held n e)
              (update_found_through named path cost (label n) (find_if named (label n).routes)))
      ]

  unpublish_found_through :
      (named : Route → Bool) (found : Option Route)
      → (found ≡ none → erase_first named (h.at ns).routes ≡ (h.at ns).routes)
      → GoesThrough (tree_after (unpublish_found named t ns found)) (
          hold h ns h.next_route_seq
            (record (h.at ns) { routes = erase_first named (h.at ns).routes }))
  unfolding unpublish_found
  unpublish_found_through named none z =
      unchanged t h r ns _ (ap (λ rs. record (h.at ns) { routes = rs }) (z refl))
  unpublish_found_through named (some x) z = answered t h r ns _ _ _ (
      guarded_through t h r ns (λ d. record d { routes = erase_first named d.routes })
        (λ c. record c { routes = erase_first named c.routes }) (λ d. refl) (λ d. refl))

  pub unpublish_namespace_through :
      (session_id : Ptr → ℕ) (id : ℕ) (request : Option ℕ)
      → GoesThrough
          (tree_after (unpublish_namespace session_id t ns id request))
          (hold_after session_id (unpublishes_namespace ns id request) h)
  unfolding unpublish_namespace hold_after with_node
  unpublish_namespace_through session_id id request =
      let named = unpublishes_route session_id id request in
      elim (found_contents t.root ns) [
        | inl (z, e) ↦
            rw z (missing t h r ns (λ c. record c { routes = erase_first named c.routes }) e refl)
        | inr (n, z, e) ↦ rw z (
            unpublish_found_through named (find_if named (label n).routes) (λ f.
              erase_absent_route named (h.at ns).routes
                (ap (find_if named) (sym (routes_held n e)) ∙ f)))
      ]
