-- ===== src/NamespaceTree/Exclusive.antt =====
-- The routes of a node of src/NamespaceTree.cpp exclude one another: a session has one, and so have
-- all the sessions that are not of a cluster.
pub mod Sequences
use moqx.Base.{
  ℕ, ◌≡◌, ◌≢◌, refl, ap, subst, sym, ◌∙◌, ◌⊎◌, inl, inr, List, [], ◌∷◌, ◌++◌, Option, none, some,
  Bool, true, false, ◌&&◌, ◌||◌, not, if◌then◌else◌, ◌==◌, ℕ_Eq, nat_eq, nat_eq_iff, List_Eq,
  find_if, TrackNamespace, Bool-cases, Option-cases, arith,
}
use moqx.NamespaceTree.Routes.{
  Ptr, Route, Announcement, place_route, place_over, repeat_route, push_route, route_of,
  revise_route, erase_first, replace_first, displaces, repeats, next_seq, same_origin,
}
use moqx.NamespaceTree.Operations.{NamespaceTree}
use moqx.NamespaceTree.Contents.{Contents, contents_at}
use moqx.NamespaceTree.Runs.{
  Operation, sets_publisher, updates_route, unpublishes_namespace, unpublishes_track, publishes,
  subscribes, unsubscribes, Holdings, hold, hold_after, revise_at,
}
use moqx.NamespaceTree.Safety.{run_all, hold_all, no_holdings, empty_tree, run_all-Represents}

-- Two routes of a node: of different sessions, and one of them at least from a cluster.
abbrev pub Apart : Route → Route → Type 0
Apart r s = (r.session ≢ s.session) × (r.from_cluster ≡ false → s.from_cluster ≡ true)

abbrev pub ApartFrom : Route → List Route → Type 0
ApartFrom r [] = Unit {0}
ApartFrom r (s ∷ rs) = Apart r s × ApartFrom r rs

abbrev pub Exclusive : List Route → Type 0
Exclusive [] = Unit {0}
Exclusive (r ∷ rs) = ApartFrom r rs × Exclusive rs

new_apart : (y x : ℕ) (u v : Bool) → (nat_eq y x || not u && not v) ≡ false → v ≡ false → u ≡ true
new_apart y x true v d e = refl
new_apart y x false v d e = ground arith

one_clash :
    (x y z : ℕ) (u v w : Bool)
    → (y ≡ x → v ≡ u)
    → (z ≡ x → w ≡ u)
    → y ≢ z
    → (v ≡ false → w ≡ true)
    → (nat_eq y x || not u && not v) ≡ true
    → (nat_eq z x || not u && not w) ≡ false
one_clash x y z u true w p q r s d = ground arith
one_clash x y z u false true p q r s d = ground arith
one_clash x y z u false false p q r s d = cc (s refl)

module _ (cluster : Ptr → Bool) where
  -- Whether a route is from a cluster is a matter of its session.
  abbrev pub Labelled : List Route → Type 0
  Labelled [] = Unit {0}
  Labelled (r ∷ rs) = (r.from_cluster ≡ cluster r.session) × Labelled rs

  abbrev pub Proper : List Route → Type 0
  Proper rs = Exclusive rs × Labelled rs

  ApartFrom-erase_first :
      (p : Route → Bool) (r : Route) (rs : List Route)
      → ApartFrom r rs
      → ApartFrom r (erase_first p rs)
  ApartFrom-erase_first p r [] a = a
  ApartFrom-erase_first p r (s ∷ rs) a = elim (Bool-cases (p s)) [
    | inl h ↦ rw h a.1
    | inr h ↦ rw h (a.0, ApartFrom-erase_first p r rs a.1)
  ]

  pub Proper-erase_first :
      (p : Route → Bool) (rs : List Route) → Proper rs → Proper (erase_first p rs)
  Proper-erase_first p [] a = a
  Proper-erase_first p (s ∷ rs) (e, l) = elim (Bool-cases (p s)) [
    | inl h ↦ rw h (e.1, l.1)
    | inr h ↦
        let (e', l') = Proper-erase_first p rs (e.1, l.1) in
        rw h ((ApartFrom-erase_first p s rs e.0, e'), (l.0, l'))
  ]

  -- What is apart depends on the sessions and where they are from.
  alike_apart :
      (x new : Route) (rs : List Route)
      → new.session ≡ x.session
      → new.from_cluster ≡ x.from_cluster
      → ApartFrom x rs
      → ApartFrom new rs
  alike_apart x new [] e c a = a
  alike_apart x new (s ∷ rs) e c (a, as_well) =
      (((λ f. a.0 (sym e ∙ f)), λ f. a.1 (sym c ∙ f)), alike_apart x new rs e c as_well)

  ApartFrom-replace_first :
      (p : Route → Bool) (r found new : Route) (rs : List Route)
      → find_if p rs ≡ some found
      → new.session ≡ found.session
      → new.from_cluster ≡ found.from_cluster
      → ApartFrom r rs
      → ApartFrom r (replace_first p new rs)
  ApartFrom-replace_first p r found new [] z s c a = a
  ApartFrom-replace_first p r found new (x ∷ rs) z s c a = elim (Bool-cases (p x)) [
    | inl h ↦
        let same : x ≡ found = cc (rw h at z) in rw h (((λ e. a.0.0 (cc)), λ e. cc (a.0.1 e)), a.1)
    | inr h ↦ rw h (a.0, ApartFrom-replace_first p r found new rs (rw h at z) s c a.1)
  ]

  pub Proper-replace_first :
      (p : Route → Bool) (found new : Route) (rs : List Route)
      → find_if p rs ≡ some found
      → new.session ≡ found.session
      → new.from_cluster ≡ found.from_cluster
      → Proper rs
      → Proper (replace_first p new rs)
  Proper-replace_first p found new [] z s c a = a
  Proper-replace_first p found new (x ∷ rs) z s c (e, l) = elim (Bool-cases (p x)) [
    | inl h ↦
        let same : x ≡ found = cc (rw h at z) in
        rw h ((alike_apart x new rs (cc) (cc) e.0, e.1), (cc (l.0), l.1))
    | inr h ↦
        let (e', l') = Proper-replace_first p found new rs (rw h at z) s c (e.1, l.1) in
        rw h ((ApartFrom-replace_first p x found new rs (rw h at z) s c e.0, e'), (l.0, l'))
  ]

  -- None of the routes is in the way of the announcement.
  abbrev Free : Announcement → List Route → Type 0
  Free a [] = Unit {0}
  Free a (r ∷ rs) = (displaces a r ≡ false) × Free a rs

  Free-find_if : (a : Announcement) (rs : List Route) → find_if (displaces a) rs ≡ none → Free a rs
  Free-find_if a [] z = tt
  Free-find_if a (r ∷ rs) z = elim (Bool-cases (displaces a r)) [
    | inl h ↦ cc (rw h at z)
    | inr h ↦ (h, Free-find_if a rs (rw h at z))
  ]

  -- A route in the way, of two that are apart, keeps the other out of the way.
  one_in_the_way :
      (a : Announcement) (r s : Route)
      → a.from_cluster ≡ cluster a.session
      → r.from_cluster ≡ cluster r.session
      → s.from_cluster ≡ cluster s.session
      → displaces a r ≡ true
      → Apart r s
      → displaces a s ≡ false
  unfolding displaces
  one_in_the_way a r s la lr ls d apart =
      one_clash a.session r.session s.session a.from_cluster r.from_cluster s.from_cluster
        (λ e. lr ∙ ap cluster e ∙ sym la) (λ e. ls ∙ ap cluster e ∙ sym la) apart.0 apart.1 d

  rest_is_clear :
      (a : Announcement) (r : Route) (rs : List Route)
      → a.from_cluster ≡ cluster a.session
      → r.from_cluster ≡ cluster r.session
      → Labelled rs
      → displaces a r ≡ true
      → ApartFrom r rs
      → Free a rs
  rest_is_clear a r [] la lr l d p = tt
  rest_is_clear a r (s ∷ rs) la lr l d p =
      (one_in_the_way a r s la lr l.0 d p.0, rest_is_clear a r rs la lr l.1 d p.1)

  Free-erase_first :
      (a : Announcement) (rs : List Route)
      → a.from_cluster ≡ cluster a.session
      → Proper rs
      → Free a (erase_first (displaces a) rs)
  Free-erase_first a [] la p = tt
  Free-erase_first a (r ∷ rs) la (e, l) = elim (Bool-cases (displaces a r)) [
    | inl h ↦ rw h (rest_is_clear a r rs la l.0 l.1 h e.0)
    | inr h ↦ rw h (h, Free-erase_first a rs la (e.1, l.1))
  ]

  ApartFrom-route_of :
      (a : Announcement) (seq : ℕ) (r : Route) (rs : List Route)
      → displaces a r ≡ false
      → ApartFrom r rs
      → ApartFrom r (rs ++ (route_of a seq ∷ []))
  unfolding displaces route_of
  ApartFrom-route_of a seq r [] d p =
      ((ground arith, λ e. new_apart r.session a.session a.from_cluster r.from_cluster d e), tt)
  ApartFrom-route_of a seq r (s ∷ rs) d p = (p.0, ApartFrom-route_of a seq r rs d p.1)

  Proper-append :
      (a : Announcement) (seq : ℕ) (rs : List Route)
      → a.from_cluster ≡ cluster a.session
      → Free a rs
      → Proper rs
      → Proper (rs ++ (route_of a seq ∷ []))
  unfolding route_of
  Proper-append a seq [] la f p = ((tt, tt), (la, tt))
  Proper-append a seq (r ∷ rs) la f (e, l) =
      let (e', l') = Proper-append a seq rs la f.1 (e.1, l.1) in
      ((ApartFrom-route_of a seq r rs f.0 e.0, e'), (l.0, l'))

  Proper-push_route :
      (a : Announcement) (rs : List Route) (seq : ℕ) (replaced cancelled : Option Ptr)
      → a.from_cluster ≡ cluster a.session
      → Free a rs
      → Proper rs
      → Proper (push_route a rs seq replaced cancelled).routes
  unfolding push_route
  Proper-push_route a rs seq replaced cancelled la f p = Proper-append a (next_seq seq) rs la f p

  pub revised_same :
      (r : Route) (path : List ℕ) (cost seq : ℕ)
      → ((revise_route r path cost seq).route.session ≡ r.session)
        × ((revise_route r path cost seq).route.from_cluster ≡ r.from_cluster)
  unfolding revise_route
  revised_same r path cost seq = elim (Bool-cases (same_origin r.path path)) [
    | inl h ↦ rw h (refl, refl)
    | inr h ↦ rw h (refl, refl)
  ]

  pub Proper-place_over :
      (a : Announcement) (rs : List Route) (seq : ℕ) (found : Option Route)
      → find_if (displaces a) rs ≡ found
      → a.from_cluster ≡ cluster a.session
      → Proper rs
      → Proper (place_over a rs seq found).routes
  unfolding place_over repeat_route
  Proper-place_over a rs seq none z la p =
      Proper-push_route a rs seq none none la (Free-find_if a rs z) p
  Proper-place_over a rs seq (some r) z la p = elim (Bool-cases (repeats a r)) [
    | inl h ↦
        let (e, c) = revised_same (record r { peer_id = a.peer_id }) a.path a.cost seq in
        rw h (Proper-replace_first (displaces a) r _ rs z e c p)
    | inr h ↦ rw h (
        Proper-push_route a (erase_first (displaces a) rs) seq (some r.session) r.callback la
          (Free-erase_first a rs la p) (Proper-erase_first (displaces a) rs p))
  ]
