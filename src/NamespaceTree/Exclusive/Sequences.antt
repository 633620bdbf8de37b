-- ===== src/NamespaceTree/Exclusive/Sequences.antt =====
-- The routes of every namespace exclude one another, after any operations of src/NamespaceTree.cpp.
use moqx.Base.{
  ℕ, ◌≡◌, refl, subst, sym, inl, inr, List, [], ◌∷◌, Option, none, some, Bool, ◌==◌, ℕ_Eq, List_Eq,
  find_if, TrackNamespace, Bool-cases,
}
use moqx.NamespaceTree.Routes.{
  Ptr, Route, place_route, revise_route, erase_first, replace_first, displaces,
}
use moqx.NamespaceTree.Operations.{NamespaceTree, names_route, unpublishes_route}
use moqx.NamespaceTree.Contents.{Contents, contents_at}
use moqx.NamespaceTree.Runs.{
  Operation, sets_publisher, updates_route, unpublishes_namespace, unpublishes_track, publishes,
  subscribes, unsubscribes, Holdings, hold, hold_after, revise_at,
}
use moqx.NamespaceTree.Refinement.{GoesThrough}
use moqx.NamespaceTree.Safety.{run_all, hold_all, no_holdings, empty_tree, run_all-Represents}
use moqx.NamespaceTree.Exclusive.{
  Exclusive, Proper, Proper-erase_first, Proper-replace_first, Proper-place_over, revised_same,
}

module _ (cluster : Ptr → Bool) where
  -- Every namespace's routes are proper.
  abbrev AllProper : Holdings → Type 0
  AllProper h = (ns : TrackNamespace) → Proper cluster (h.at ns).routes

  -- The announcement, if the operation has one, says the truth about its session.
  abbrev pub Truthful : Operation → Type 0
  Truthful (sets_publisher ns a) = a.from_cluster ≡ cluster a.session
  Truthful (updates_route ns id request path cost) = Unit {0}
  Truthful (unpublishes_namespace ns id request) = Unit {0}
  Truthful (unpublishes_track ns track) = Unit {0}
  Truthful (publishes ftn session) = Unit {0}
  Truthful (subscribes ns session info) = Unit {0}
  Truthful (unsubscribes ns session) = Unit {0}

  abbrev pub AllTruthful : List Operation → Type 0
  AllTruthful [] = Unit {0}
  AllTruthful (op ∷ ops) = Truthful op × AllTruthful ops

  AllProper-hold :
      (h : Holdings) (ns : TrackNamespace) (seq : ℕ) (c : Contents)
      → AllProper h
      → Proper cluster c.routes
      → AllProper (hold h ns seq c)
  AllProper-hold h ns seq c p q other = elim (Bool-cases (ns == other)) [
    | inl e ↦ rw e q
    | inr e ↦ rw e (p other)
  ]

  AllProper-revise_at :
      (named : Route → Bool) (h : Holdings) (ns : TrackNamespace) (path : List ℕ) (cost : ℕ)
      (found : Option Route)
      → find_if named (h.at ns).routes ≡ found
      → AllProper h
      → AllProper (revise_at named h ns path cost found)
  AllProper-revise_at named h ns path cost none z p = p
  AllProper-revise_at named h ns path cost (some r) z p =
      let (e, c) = revised_same cluster r path cost h.next_route_seq in
      let now = revise_route r path cost h.next_route_seq in
      AllProper-hold h ns now.next_route_seq
        (record (h.at ns) { routes = replace_first named now.route (h.at ns).routes }) p
        (Proper-replace_first cluster named r now.route (h.at ns).routes z e c (p ns))

  AllProper-hold_after :
      (session_id : Ptr → ℕ) (op : Operation) (h : Holdings)
      → Truthful op
      → AllProper h
      → AllProper (hold_after session_id op h)
  unfolding hold_after place_route
  AllProper-hold_after session_id (sets_publisher ns a) h w p =
      let now = place_route a (h.at ns).routes h.next_route_seq in
      AllProper-hold h ns now.next_route_seq (record (h.at ns) { routes = now.routes }) p
        (Proper-place_over cluster a (h.at ns).routes h.next_route_seq
          (find_if (displaces a) (h.at ns).routes) refl w (p ns))
  AllProper-hold_after session_id (updates_route ns id request path cost) h w p =
      let named = names_route session_id id request in
      AllProper-revise_at named h ns path cost (find_if named (h.at ns).routes) refl p
  AllProper-hold_after session_id (unpublishes_namespace ns id request) h w p =
      let named = unpublishes_route session_id id request in
      AllProper-hold h ns h.next_route_seq
        (record (h.at ns) { routes = erase_first named (h.at ns).routes }) p
        (Proper-erase_first cluster named (h.at ns).routes (p ns))
  AllProper-hold_after session_id (unpublishes_track ns track) h w p =
      AllProper-hold h ns h.next_route_seq _ p (p ns)
  AllProper-hold_after session_id (publishes ftn session) h w p =
      AllProper-hold h ftn.track_namespace h.next_route_seq _ p (p ftn.track_namespace)
  AllProper-hold_after session_id (subscribes ns session info) h w p =
      AllProper-hold h ns h.next_route_seq _ p (p ns)
  AllProper-hold_after session_id (unsubscribes ns session) h w p =
      AllProper-hold h ns h.next_route_seq _ p (p ns)

  AllProper-hold_all :
      (session_id : Ptr → ℕ) (ops : List Operation) (h : Holdings)
      → AllTruthful ops
      → AllProper h
      → AllProper (hold_all session_id ops h)
  unfolding hold_all
  AllProper-hold_all session_id [] h w p = p
  AllProper-hold_all session_id (op ∷ ops) h w p =
      AllProper-hold_all session_id ops (hold_after session_id op h) w.1
        (AllProper-hold_after session_id op h w.0 p)

  AllProper-no_holdings : AllProper no_holdings
  AllProper-no_holdings ns = (tt, tt)

  the_tree :
      (o : Option NamespaceTree) (h : Holdings)
      → GoesThrough o h
      → AllProper h
      → (t : NamespaceTree) × (o ≡ some t)
        × ((ns : TrackNamespace) → Exclusive (contents_at t.root ns).routes)
  the_tree none h g p = absurd g
  the_tree (some t) h g p =
      (t, refl, λ ns. subst (λ (c : Contents). Exclusive c.routes) (sym (g.shows ns)) (p ns).0)

-- Where a session's announcements agree on whether it is from a cluster, any operations from the
-- empty tree go through, and leave at each namespace no two routes of one session and no two routes
-- that are not from a cluster.
pub run_all-Exclusive :
    (session_id : Ptr → ℕ) (cluster : Ptr → Bool) (ops : List Operation)
    → AllTruthful cluster ops
    → (t : NamespaceTree) × (run_all session_id ops empty_tree ≡ some t)
      × ((ns : TrackNamespace) → Exclusive (contents_at t.root ns).routes)
run_all-Exclusive session_id cluster ops w =
    the_tree cluster (run_all session_id ops empty_tree) (hold_all session_id ops no_holdings)
      (run_all-Represents session_id ops)
      (AllProper-hold_all cluster session_id ops no_holdings w (AllProper-no_holdings cluster))
