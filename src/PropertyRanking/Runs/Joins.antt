-- ===== src/PropertyRanking/Runs/Joins.antt =====
-- The sessions that come and go in src/relay/PropertyRanking.cpp, and sequences of all operations.
use moqx.Base.{
  ℕ, ◌+◌, ◌%◌, ◌^◌, ◌≡◌, refl, ap, subst, sym, inl, inr, List, [], ◌∷◌, Option, none, some, Bool,
  if◌then◌else◌, ◌==◌, ℕ_Eq, nat_eq_iff, max, Bool-cases, arith,
}
use moqx.Base.Assoc
use moqx.PropertyRanking.Tracks.{Ptr}
use moqx.PropertyRanking.Groups.{
  SessionInfo, TopNGroup, is_publisher, reconcile_publisher_selection,
}
use moqx.PropertyRanking.Thresholds.{
  PropertyRanking, view, is_empty, max_n, update_publisher_extended_threshold,
  update_selection_threshold,
}
use moqx.PropertyRanking.Sessions.{
  new_group, create_if_missing, get_or_create_top_n_group, remove_top_n_group, put_session,
  add_session_to_top_n_group, leave_group, set_forward, forward_in_group,
}
use moqx.PropertyRanking.FastPath.{SortsAscending}
use moqx.PropertyRanking.Bounds.{Bounded}
use moqx.PropertyRanking.Consistency.{
  AllBounded, names, greatest, IsConsistent, same_names-IsCurrent,
}

max_n-names : (gs : List (ℕ × TopNGroup)) → max_n gs ≡ greatest (names gs)
unfolding max_n
max_n-names [] = refl
max_n-names ((n, g) ∷ gs) = ap (max n) (max_n-names gs)

-- A group that is there takes another state.
names-replaced :
    (n : ℕ) (g h : TopNGroup) (gs : List (ℕ × TopNGroup))
    → Assoc.find n gs ≡ some g
    → names (Assoc.insert_or_assign n h gs) ≡ names gs
names-replaced n g h [] z = cc
names-replaced n g h ((k, x) ∷ gs) z = elim (Bool-cases (k == n)) [
  | inl b ↦ rw b (ap (λ m. m ∷ names gs) (sym ((nat_eq_iff k n).0 b)))
  | inr b ↦ rw b (ap (◌∷◌ k) (names-replaced n g h gs (rw b at z)))
]

AllBounded-insert_or_assign :
    (m n : ℕ) (h : TopNGroup) (gs : List (ℕ × TopNGroup))
    → Bounded m h
    → AllBounded m gs
    → AllBounded m (Assoc.insert_or_assign n h gs)
AllBounded-insert_or_assign m n h [] b a = (b, tt)
AllBounded-insert_or_assign m n h ((k, x) ∷ gs) b a = elim (Bool-cases (k == n)) [
  | inl e ↦ rw e (b, a.1)
  | inr e ↦ rw e (a.0, AllBounded-insert_or_assign m n h gs b a.1)
]

AllBounded-erase :
    (m n : ℕ) (gs : List (ℕ × TopNGroup)) → AllBounded m gs → AllBounded m (Assoc.erase n gs)
AllBounded-erase m n [] a = a
AllBounded-erase m n ((k, x) ∷ gs) a = elim (Bool-cases (k == n)) [
  | inl e ↦ rw e (AllBounded-erase m n gs a.1)
  | inr e ↦ rw e (a.0, AllBounded-erase m n gs a.1)
]

Bounded-find :
    (m n : ℕ) (g : TopNGroup) (gs : List (ℕ × TopNGroup))
    → Assoc.find n gs ≡ some g
    → AllBounded m gs
    → Bounded m g
Bounded-find m n g [] z a = cc
Bounded-find m n g ((k, x) ∷ gs) z a = elim (Bool-cases (k == n)) [
  | inl e ↦ let same : x ≡ g = cc (rw e at z) in subst (Bounded m) same a.0
  | inr e ↦ Bounded-find m n g gs (rw e at z) a.1
]

-- A group that is there, with other sessions.
replaced-IsConsistent :
    (n : ℕ) (g h : TopNGroup) (r : PropertyRanking)
    → Assoc.find n r.top_n_groups ≡ some g
    → (Bounded r.max_deselected g → Bounded r.max_deselected h)
    → IsConsistent r
    → IsConsistent (record r { top_n_groups = Assoc.insert_or_assign n h r.top_n_groups })
replaced-IsConsistent n g h r z k c =
    let same = names-replaced n g h r.top_n_groups z in
    record {
      ordered = c.ordered;
      bounded =
          AllBounded-insert_or_assign r.max_deselected n h r.top_n_groups
            (k (Bounded-find r.max_deselected n g r.top_n_groups z c.bounded)) c.bounded;
      current = same_names-IsCurrent r _ same c.current;
    }

extended-IsConsistent :
    (r : PropertyRanking) → IsConsistent r → IsConsistent (update_publisher_extended_threshold r)
unfolding update_publisher_extended_threshold
extended-IsConsistent r c = record {
  ordered = c.ordered;
  bounded = c.bounded;
  current = record {
    outer = c.current.outer;
    listed = c.current.listed;
    ascending = c.current.ascending;
  };
}

put_session-IsConsistent :
    (n : ℕ) (session : Ptr) (info : SessionInfo) (r : PropertyRanking) (found : Option TopNGroup)
    → Assoc.find n r.top_n_groups ≡ found
    → IsConsistent r
    → IsConsistent (put_session n session info r found)
unfolding put_session
put_session-IsConsistent n session info r none z c = c
put_session-IsConsistent n session info r (some g) z c = replaced-IsConsistent n g _ r z (λ b. b) c

set_forward-queue :
    (session : Ptr) (forward : Bool) (g : TopNGroup) (found : Option SessionInfo)
    → (set_forward session forward g found).deselected_queue ≡ g.deselected_queue
unfolding set_forward
set_forward-queue session forward g none = refl
set_forward-queue session forward g (some info) = refl

pub forward_in_group-IsConsistent :
    (n : ℕ) (session : Ptr) (forward : Bool) (r : PropertyRanking) (found : Option TopNGroup)
    → Assoc.find n r.top_n_groups ≡ found
    → IsConsistent r
    → IsConsistent (forward_in_group n session forward r found)
unfolding forward_in_group
forward_in_group-IsConsistent n session forward r none z c = c
forward_in_group-IsConsistent n session forward r (some g) z c =
    replaced-IsConsistent n g _ r z
      (λ b. rw (set_forward-queue session forward g (Assoc.find session g.sessions)) b) c

module _ (sort : List ℕ → List ℕ) (sorts : SortsAscending sort) where
  -- The thresholds are computed anew.
  resorted-IsConsistent :
      (r : PropertyRanking) (gs : List (ℕ × TopNGroup))
      → AllBounded r.max_deselected gs
      → IsConsistent r
      → IsConsistent (update_selection_threshold sort (record r { top_n_groups = gs }))
  unfolding update_selection_threshold
  resorted-IsConsistent r gs b c = record {
    ordered = c.ordered;
    bounded = b;
    current = record {
      outer = inr (ap (λ m. (m + r.max_deselected) % 2 ^ 64) (max_n-names gs));
      listed = λ n. sorts.same n (names gs);
      ascending = sorts.ascending (names gs);
    };
  }

  create_if_missing-IsConsistent :
      (n : ℕ) (r : PropertyRanking) (found : Option TopNGroup)
      → IsConsistent r
      → IsConsistent (create_if_missing sort n r found)
  unfolding create_if_missing new_group
  create_if_missing-IsConsistent n r none c =
      resorted-IsConsistent r ((n, new_group n r.ranked_tracks) ∷ r.top_n_groups)
        (omega arith, c.bounded) c
  create_if_missing-IsConsistent n r (some g) c = c

  pub add_session-IsConsistent :
      (n : ℕ) (session : Ptr) (forward : Bool) (r : PropertyRanking)
      → IsConsistent r
      → IsConsistent (add_session_to_top_n_group sort n session forward r).0
  unfolding add_session_to_top_n_group get_or_create_top_n_group
  add_session-IsConsistent n session forward r c =
      let info : SessionInfo = record {
        forward = forward;
        waterline_key = none;
        selected_tracks = [];
      } in
      let created = get_or_create_top_n_group sort n r in
      let joined = put_session n session info created (Assoc.find n created.top_n_groups) in
      let info' = (reconcile_publisher_selection (view joined) info n session).0 in
      let there =
        put_session-IsConsistent n session info created (Assoc.find n created.top_n_groups) refl
          (create_if_missing-IsConsistent n r (Assoc.find n r.top_n_groups) c) in
      elim (Bool-cases (is_publisher (view joined) session)) [
        | inl h ↦ rw h (
            put_session-IsConsistent n session info' (update_publisher_extended_threshold joined)
              (Assoc.find n joined.top_n_groups) refl (extended-IsConsistent joined there))
        | inr h ↦ rw h there
      ]

  smaller-IsConsistent :
      (n : ℕ) (g : TopNGroup) (left : List (Ptr × SessionInfo)) (r : PropertyRanking)
      → Assoc.find n r.top_n_groups ≡ some g
      → IsConsistent r
      → IsConsistent (
          if is_empty left then remove_top_n_group sort n r else record r {
            top_n_groups = Assoc.insert_or_assign n (record g { sessions = left }) r.top_n_groups;
          })
  unfolding remove_top_n_group
  smaller-IsConsistent n g left r z c = elim (Bool-cases (is_empty left)) [
    | inl h ↦ rw h (
        resorted-IsConsistent r (Assoc.erase n r.top_n_groups)
          (AllBounded-erase r.max_deselected n r.top_n_groups c.bounded) c)
    | inr h ↦ rw h (replaced-IsConsistent n g (record g { sessions = left }) r z (λ b. b) c)
  ]

  pub leave_group-IsConsistent :
      (n : ℕ) (session : Ptr) (r : PropertyRanking) (found : Option TopNGroup)
      → Assoc.find n r.top_n_groups ≡ found
      → IsConsistent r
      → IsConsistent (leave_group sort n session r found)
  unfolding leave_group
  leave_group-IsConsistent n session r none z c = c
  leave_group-IsConsistent n session r (some g) z c =
      let there = smaller-IsConsistent n g (Assoc.erase session g.sessions) r z c in
      elim (Bool-cases (is_publisher (view r) session)) [
        | inl h ↦ rw h (extended-IsConsistent _ there)
        | inr h ↦ rw h there
      ]
