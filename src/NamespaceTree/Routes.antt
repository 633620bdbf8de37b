-- ===== src/NamespaceTree/Routes.antt =====
-- The routes of a node of src/NamespaceTree.h, and how src/NamespaceTree.cpp compares, selects,
-- replaces and revises them. A session is the identity of its MoQSession, and MoQSession::sessionId
-- a parameter where it is read.
use moqx.Base.{
  ℕ, ◌+◌, ◌-◌, ◌%◌, ◌^◌, List, [], ◌∷◌, ◌++◌, Option, none, some, Bool, true, false, ◌&&◌, ◌||◌,
  not, if◌then◌else◌, ltb, ◌==◌, ℕ_Eq, contains, length, find_if, Bytes,
}

abbrev pub Ptr : Type 0
Ptr = ℕ

-- A session holds at most one route of a node.
pub record Route : Type 0 where
  pub session : Ptr
  pub callback : Option Ptr
  pub peer_id : Bytes
  pub request_id : ℕ
  pub path : List ℕ
  pub cost : ℕ
  pub seq : ℕ
  pub from_cluster : Bool

-- clusterPathContains and clusterAddCost
unfoldable pub cluster_path_contains : List ℕ → ℕ → Bool
cluster_path_contains path hop = not (hop == 0) && contains path hop

unfoldable pub cluster_add_cost : ℕ → ℕ → ℕ
cluster_add_cost cost link =
    let top = 2 ^ 64 - 1 in if ltb (top - link) cost then top else cost + link

unfoldable pub has_anon : Route → Bool
has_anon r = contains r.path 0

-- One component of the comparison of two tuples: less, greater, or else what follows.
abbrev pub lex : Bool → Bool → Bool → Bool
lex less greater rest = less || (not greater && rest)

unfoldable pub better_route : Route → Route → Bool
unfolding has_anon
better_route a b = lex (not (has_anon a) && has_anon b) (has_anon a && not (has_anon b)) (
    lex (ltb a.cost b.cost) (ltb b.cost a.cost) (
      lex (ltb (length a.path) (length b.path)) (ltb (length b.path) (length a.path))
        (ltb b.seq a.seq)))

-- The candidate so far is null, or worse.
unfoldable pub improves : Route → Option Route → Bool
improves r none = true
improves r (some best) = better_route r best

unfoldable pub select_from : (Route → Bool) → Option Route → List Route → Option Route
unfolding improves
select_from eligible best [] = best
select_from eligible best (r ∷ rs) =
    select_from eligible (if eligible r && improves r best then some r else best) rs

unfoldable pub select_route : (Route → Bool) → List Route → Option Route
unfolding select_from
select_route eligible rs = select_from eligible none rs

unfoldable pub find_route : (Ptr → ℕ) → List Route → ℕ → Option Route
find_route session_id rs id = find_if (λ r. session_id r.session == id) rs

-- rankedRoutes; `sort` is std::sort by betterRoute.
unfoldable pub ranked_routes :
    ((Route → Route → Bool) → List Route → List Route) → List Route → List Route
ranked_routes sort rs = sort better_route rs

unfoldable pub next_seq : ℕ → ℕ
next_seq seq = (seq + 1) % 2 ^ 64

unfoldable pub same_origin : List ℕ → List ℕ → Bool
same_origin [] b = false
same_origin (x ∷ a) [] = false
same_origin (x ∷ a) (y ∷ b) = x == y

-- What a change of the routes of a node leaves: the routes, nextRouteSeq_, the session to report as
-- replaced, the callback that is told publishNamespaceCancel, and whether the routes were changed
-- under a guard.
pub record RouteChange : Type 0 where
  pub routes : List Route
  pub next_route_seq : ℕ
  pub replaced_session : Option Ptr
  pub cancelled : Option Ptr
  pub guarded : Bool

pub record Revised : Type 0 where
  pub route : Route
  pub next_route_seq : ℕ
  pub replaced_session : Option Ptr

unfoldable pub revise_route : Route → List ℕ → ℕ → ℕ → Revised
unfolding same_origin next_seq
revise_route r path cost seq =
    if same_origin r.path path
    then record {
      route = record r { path = path; cost = cost };
      next_route_seq = seq;
      replaced_session = none;
    }
    else record {
      route = record r { path = path; cost = cost; seq = next_seq seq };
      next_route_seq = next_seq seq;
      replaced_session = some r.session;
    }

-- `routes_.erase` and a change in place, of what std::find_if has found.
abbrev pub erase_first : (Route → Bool) → List Route → List Route
erase_first p [] = []
erase_first p (r ∷ rs) = if p r then rs else r ∷ erase_first p rs

abbrev pub replace_first : (Route → Bool) → Route → List Route → List Route
replace_first p new [] = []
replace_first p new (r ∷ rs) = if p r then new ∷ rs else r ∷ replace_first p new rs

-- The arguments of setPublisher that make up a route.
pub record Announcement : Type 0 where
  pub session : Ptr
  pub callback : Option Ptr
  pub peer_id : Bytes
  pub request_id : ℕ
  pub path : List ℕ
  pub cost : ℕ
  pub from_cluster : Bool

unfoldable pub is_none : {A : Type 0} → Option A → Bool
is_none none = true
is_none (some a) = false

-- The test of the route that an announcement takes the place of.
unfoldable pub displaces : Announcement → Route → Bool
displaces a r = r.session == a.session || (not a.from_cluster && not r.from_cluster)

-- A NAMESPACE repeated by its session.
unfoldable pub repeats : Announcement → Route → Bool
unfolding is_none
repeats a r = r.session == a.session && a.from_cluster && is_none r.callback && is_none a.callback

unfoldable pub route_of : Announcement → ℕ → Route
route_of a seq = record {
  session = a.session;
  callback = a.callback;
  peer_id = a.peer_id;
  request_id = a.request_id;
  path = a.path;
  cost = a.cost;
  seq = seq;
  from_cluster = a.from_cluster;
}

-- The session's own NAMESPACE, changed where it stands; `found` passes the test of the search.
unfoldable pub repeat_route : Announcement → List Route → ℕ → Route → RouteChange
unfolding displaces revise_route
repeat_route a rs seq found =
    let revised = revise_route (record found { peer_id = a.peer_id }) a.path a.cost seq in
    record {
      routes = replace_first (displaces a) revised.route rs;
      next_route_seq = revised.next_route_seq;
      replaced_session = revised.replaced_session;
      cancelled = none;
      guarded = false;
    }

-- The new route goes to the end.
unfoldable pub push_route : Announcement → List Route → ℕ → Option Ptr → Option Ptr → RouteChange
unfolding route_of next_seq
push_route a rs seq replaced cancelled = record {
  routes = rs ++ (route_of a (next_seq seq) ∷ []);
  next_route_seq = next_seq seq;
  replaced_session = replaced;
  cancelled = cancelled;
  guarded = true;
}

unfoldable pub place_over : Announcement → List Route → ℕ → Option Route → RouteChange
unfolding displaces repeats repeat_route push_route
place_over a rs seq none = push_route a rs seq none none
place_over a rs seq (some found) =
    if repeats a found
    then repeat_route a rs seq found
    else push_route a (erase_first (displaces a) rs) seq (some found.session) found.callback

-- setPublisher, at the routes of its node.
unfoldable pub place_route : Announcement → List Route → ℕ → RouteChange
unfolding place_over displaces
place_route a rs seq = place_over a rs seq (find_if (displaces a) rs)
