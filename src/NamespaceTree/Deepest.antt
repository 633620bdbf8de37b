-- ===== src/NamespaceTree/Deepest.antt =====
-- findPublisherSession of src/NamespaceTree.cpp asks the deepest node with routes, and no other.
use moqx.Base.{
  ℕ, ◌<◌, ◌≡◌, refl, ap, subst, sym, ◌∙◌, ◌⊎◌, inl, inr, List, [], ◌∷◌, Option, none, some, Bool,
  true, false, ◌&&◌, not, ℕ_Eq, List_Eq, length, Bytes, TrackNamespace, Among, Bool-cases,
  Option-cases, arith,
}
use moqx.Base.Trie.{node, find_child}
use moqx.NamespaceTree.Routes.{Ptr, Route, cluster_path_contains}
use moqx.NamespaceTree.Nodes.{Tree, Below, NodeState, is_empty, at_child}
use moqx.NamespaceTree.Queries.{
  deepest_so_far, find_route_from, find_route_node, RouteExclusion, excludes_session, may_use,
  session_of, select_at, find_publisher_session,
}
use moqx.NamespaceTree.Contents.{contents_at, is_empty_sound}
use moqx.NamespaceTree.Selection.{Unbeaten, select_route-Unbeaten}

-- The first is a prefix of the second.
abbrev pub Covers : TrackNamespace → TrackNamespace → Type 0
Covers [] ns = Unit {0}
Covers (x ∷ p) [] = ⊥
Covers (x ∷ p) (y ∷ ns) = (x ≡ y) × Covers p ns

-- The routes that a namespace holds.
abbrev pub routes_at : Tree → TrackNamespace → List Route
routes_at n ns = (contents_at n ns).routes

-- The longest prefix of the namespace that holds routes.
abbrev pub Deepest : Tree → TrackNamespace → TrackNamespace → Type 0
Deepest n ns p =
    Covers p ns
    × (is_empty (routes_at n p) ≡ false)
    × ((q : TrackNamespace) → Covers q ns → length p < length q → routes_at n q ≡ [])

abbrev NoneCovers : Tree → TrackNamespace → Type 0
NoneCovers n ns = (q : TrackNamespace) → Covers q ns → routes_at n q ≡ []

abbrev Reached : Option NodeState → Tree → TrackNamespace → Option NodeState → Type 0
Reached deepest n ns out =
    ((out ≡ deepest) × NoneCovers n ns)
    ⊎ ((d : NodeState) × (p : TrackNamespace) × (out ≡ some d)
        × (d.routes ≡ routes_at n p)
        × Deepest n ns p)

routes_child :
    (x part : Bytes) (d : NodeState) (cs : Below) (n : Tree) (q : TrackNamespace)
    → x ≡ part
    → find_child part cs ≡ some n
    → routes_at (node d cs) (x ∷ q) ≡ routes_at n q
unfolding contents_at
routes_child x part d cs n q e z =
    let there = subst (λ k. find_child k cs ≡ some n) (sym e) z in
    rw (routes_at, there, at_child) refl

routes_no_child :
    (x part : Bytes) (d : NodeState) (cs : Below) (q : TrackNamespace)
    → x ≡ part
    → find_child part cs ≡ none
    → routes_at (node d cs) (x ∷ q) ≡ []
unfolding contents_at
routes_no_child x part d cs q e z =
    let there = subst (λ k. find_child k cs ≡ none) (sym e) z in
    rw (routes_at, there, at_child) refl

-- Nothing below the node, on the way to the namespace, holds routes.
abbrev NoneBelow : NodeState → Below → TrackNamespace → Type 0
NoneBelow d cs ns =
    (x : Bytes) (q : TrackNamespace) → Covers (x ∷ q) ns → routes_at (node d cs) (x ∷ q) ≡ []

none_covers :
    (d : NodeState) (cs : Below) (ns : TrackNamespace)
    → NoneBelow d cs ns
    → is_empty d.routes ≡ true
    → NoneCovers (node d cs) ns
unfolding contents_at
none_covers d cs ns below h [] c = is_empty_sound d.routes h
none_covers d cs ns below h (x ∷ q) c = below x q c

longer :
    (d : NodeState) (cs : Below) (ns : TrackNamespace)
    → NoneBelow d cs ns
    → (q : TrackNamespace) → Covers q ns
    → 0 < length q
    → routes_at (node d cs) q ≡ []
longer d cs ns below [] c l = absurd (omega arith)
longer d cs ns below (x ∷ q) c l = below x q c

-- The node itself is the deepest, or it leaves what is above.
here :
    (deepest : Option NodeState) (d : NodeState) (cs : Below) (ns : TrackNamespace)
    → NoneBelow d cs ns
    → Reached deepest (node d cs) ns (deepest_so_far deepest d)
unfolding deepest_so_far contents_at
here deepest d cs ns below = elim (Bool-cases (is_empty d.routes)) [
  | inl h ↦ rw h (inl (refl, none_covers d cs ns below h))
  | inr h ↦ rw h (inr (d, [], refl, refl, (tt, h, longer d cs ns below)))
]

longer_below :
    (part : Bytes) (ns : TrackNamespace) (d : NodeState) (cs : Below) (n : Tree)
    → find_child part cs ≡ some n
    → (p : TrackNamespace)
    → ((q : TrackNamespace) → Covers q ns → length p < length q → routes_at n q ≡ [])
    → (q : TrackNamespace) → Covers q (part ∷ ns)
    → length (part ∷ p) < length q
    → routes_at (node d cs) q ≡ []
longer_below part ns d cs n z p last [] c l = absurd (omega arith)
longer_below part ns d cs n z p last (x ∷ q) c l =
    routes_child x part d cs n q c.0 z ∙ last q c.1 (omega arith)

-- A child's deepest node is its parent's.
below_here :
    (deepest : Option NodeState) (d : NodeState) (cs : Below) (part : Bytes) (ns : TrackNamespace)
    (n : Tree) (out : Option NodeState)
    → find_child part cs ≡ some n
    → Reached (deepest_so_far deepest d) n ns out
    → Reached deepest (node d cs) (part ∷ ns) out
below_here deepest d cs part ns n out z (inl (e, none_there)) =
    subst (Reached deepest (node d cs) (part ∷ ns)) (sym e) (
      here deepest d cs (part ∷ ns)
        (λ x q c. routes_child x part d cs n q c.0 z ∙ none_there q c.1))
below_here deepest d cs part ns n out z (inr (d', p, e, same, (covers, holds, last))) = inr (
  d',
  part ∷ p,
  e,
  same ∙ sym (routes_child part part d cs n p refl z),
  (
    (refl, covers),
    ap is_empty (routes_child part part d cs n p refl z) ∙ holds,
    λ q c l. longer_below part ns d cs n z p last q c l,
  ),
)

find_route_from-Reached :
    (deepest : Option NodeState) (n : Tree) (ns : TrackNamespace)
    → Reached deepest n ns (find_route_from deepest n ns)
unfolding find_route_from contents_at at_child
find_route_from-Reached deepest (node d cs) [] = here deepest d cs [] (λ x q c. absurd c)
find_route_from-Reached deepest (node d cs) (part ∷ ns) = elim (Option-cases (find_child part cs)) [
  | inl z ↦
      rw (z, at_child)
        (here deepest d cs (part ∷ ns) (λ x q c. routes_no_child x part d cs q c.0 z))
  | inr (n, z) ↦
      rw (z, at_child)
        (below_here deepest d cs part ns n _ z
          (find_route_from-Reached (deepest_so_far deepest d) n ns))
]

find_route_node-Deepest :
    (root : Tree) (ns : TrackNamespace)
    → ((find_route_node root ns ≡ none) × NoneCovers root ns)
      ⊎ ((d : NodeState) × (p : TrackNamespace) × (find_route_node root ns ≡ some d)
          × (d.routes ≡ routes_at root p)
          × Deepest root ns p)
unfolding find_route_node
find_route_node-Deepest root ns = find_route_from-Reached none root ns

-- The session of a best usable route of those that a namespace holds, or none where none is usable.
abbrev pub PublisherOf : (Ptr → ℕ) → RouteExclusion → List Route → Option Ptr → Type 0
PublisherOf session_id exclusion rs found =
    ((found ≡ none) × ((r : Route) → Among r rs → may_use session_id exclusion r ≡ false))
    ⊎ ((r : Route) × (found ≡ some r.session)
        × Among r rs
        × (excludes_session session_id exclusion.session r.session ≡ false)
        × (cluster_path_contains r.path exclusion.hop ≡ false)
        × Unbeaten (may_use session_id exclusion) r rs)

both : (a b : Bool) → (not a && not b) ≡ true → (a ≡ false) × (b ≡ false)
both true b h = cc
both false true h = cc
both false false h = (refl, refl)

may_use_parts :
    (session_id : Ptr → ℕ) (exclusion : RouteExclusion) (r : Route)
    → may_use session_id exclusion r ≡ true
    → (excludes_session session_id exclusion.session r.session ≡ false)
      × (cluster_path_contains r.path exclusion.hop ≡ false)
unfolding may_use
may_use_parts session_id exclusion r h =
    both (excludes_session session_id exclusion.session r.session)
      (cluster_path_contains r.path exclusion.hop) h

select_at-PublisherOf :
    (session_id : Ptr → ℕ) (exclusion : RouteExclusion) (d : NodeState)
    → PublisherOf session_id exclusion d.routes (select_at (may_use session_id exclusion) (some d))
unfolding select_at session_of
select_at-PublisherOf session_id exclusion d =
    elim (select_route-Unbeaten (may_use session_id exclusion) d.routes) [
      | inl (e, no_one) ↦ inl (rw e refl, no_one)
      | inr (r, e, i, t, unbeaten) ↦
          let (s, p) = may_use_parts session_id exclusion r t in
          inr (r, rw e refl, i, s, p, unbeaten)
    ]

-- findPublisherSession asks the longest prefix of the namespace that holds routes, and no other: the
-- session is that of a best route there whose session is not the excluded one and whose path lacks
-- the excluded hop, and null where there is no such route or no such prefix.
pub find_publisher_session-PublisherOf :
    (session_id : Ptr → ℕ) (root : Tree) (ns : TrackNamespace) (exclusion : RouteExclusion)
    → ((find_publisher_session session_id root ns exclusion ≡ none)
        × ((q : TrackNamespace) → Covers q ns → routes_at root q ≡ []))
      ⊎ ((p : TrackNamespace) × Deepest root ns p
          × PublisherOf session_id exclusion
              (routes_at root p)
              (find_publisher_session session_id root ns exclusion))
unfolding find_publisher_session select_at
find_publisher_session-PublisherOf session_id root ns exclusion =
    elim (find_route_node-Deepest root ns) [
      | inl (e, none_covers) ↦ inl (rw e refl, none_covers)
      | inr (d, p, e, same, deepest) ↦ inr (
        p,
        deepest,
        rw e (
            subst
              (λ rs.
                PublisherOf session_id exclusion rs
                  (select_at (may_use session_id exclusion) (some d)))
              same (select_at-PublisherOf session_id exclusion d)),
      )
    ]
