-- ===== src/NamespaceTree/Contents.antt =====
-- What the namespaces hold after a change in the tree of src/NamespaceTree.cpp: only the changed one
-- holds anything else, whatever nodes are created or pruned on the way.
use moqx.Base.{
  ◌≡◌, ◌≤◌, refl, ap, subst, ◌∙◌, inl, inr, List, [], ◌∷◌, ◌++◌, some, true, false, if◌then◌else◌,
  ◌==◌, ℕ_Eq, List_Eq, Bytes, TrackNamespace, Bool-cases, Option-cases, arith,
}
use moqx.Base.Trie.{
  node, nil, child, find_child, set_child, erase_child, same_part, find_child-set_child,
  find_child-erase_child,
}
use moqx.NamespaceTree.Routes.{Ptr, Route}
use moqx.NamespaceTree.Nodes.{
  Tree, Below, NodeState, SubscriberInfo, has_content, should_keep, is_empty, new_state, or_new,
  Change, still, first_content, emptied, increment, decrement, prune, settle, update_at, at_child,
}
use moqx.NamespaceTree.Counts.{
  kept, kept_count, kept_child, as_number, Sound, Sound-find_child, Sound-or_new, Fine, Tells,
  Faithful, Fine-update_at,
}

-- What hasContent looks at.
pub record Contents : Type 0 where
  pub routes : List Route
  pub publishes : List (Bytes × Ptr)
  pub subscribers : List (Ptr × SubscriberInfo)

abbrev pub nothing : Contents
nothing = record { routes = []; publishes = []; subscribers = [] }

abbrev pub contents : NodeState → Contents
contents d = record { routes = d.routes; publishes = d.publishes; subscribers = d.subscribers }

unfoldable pub contents_at : Tree → TrackNamespace → Contents
unfolding at_child
contents_at (node d cs) [] = contents d
contents_at (node d cs) (part ∷ ns) = at_child nothing (λ n. contents_at n ns) (find_child part cs)

kept_child-le : (part : Bytes) (cs : Below) → kept_child (find_child part cs) ≤ kept_count cs
kept_child-le part nil = omega arith
kept_child-le part (child j m cs) = elim (Bool-cases (j == part)) [
  | inl h ↦ rw h (omega arith)
  | inr h ↦ rw h (omega (arith, kept_child-le part cs))
]

pub is_empty_sound : {A : Type 0} (xs : List A) → is_empty xs ≡ true → xs ≡ []
is_empty_sound [] h = refl
is_empty_sound (x ∷ xs) h = cc

nothing_here : (d : NodeState) → has_content d ≡ false → contents d ≡ nothing
unfolding has_content
nothing_here d h = cc (
  is_empty_sound d.publishes (ground arith),
  is_empty_sound d.subscribers (ground arith),
  is_empty_sound d.routes (ground arith),
)

none_counted : (d : NodeState) → should_keep d ≡ false → d.active_child_count ≡ 0
unfolding should_keep
none_counted d k = ground arith

no_content : (d : NodeState) → should_keep d ≡ false → has_content d ≡ false
unfolding should_keep
no_content d k = ground arith

-- A node that is not kept has nothing below it either.
contents_at-pruned :
    (n : Tree) (ns : TrackNamespace) → Sound n → kept n ≡ false → contents_at n ns ≡ nothing
unfolding contents_at Sound at_child
contents_at-pruned (node d cs) [] s k = nothing_here d (no_content d k)
contents_at-pruned (node d cs) (part ∷ ns) s k = elim (Option-cases (find_child part cs)) [
  | inl z ↦ rw z refl
  | inr (n, z) ↦
      let sound = Sound-find_child part cs n z s.1 in
      elim (Bool-cases (kept n)) [
        | inl h ↦ absurd (
            omega (arith, kept_child-le part cs, ap kept_child z, ap as_number h, none_counted d k))
        | inr h ↦ rw z (contents_at-pruned n ns sound h)
      ]
]

-- The change is for the namespace, or for another.
abbrev pub at_namespace : TrackNamespace → TrackNamespace → Contents → Contents → Contents
at_namespace ns q changed old = if ns == q then changed else old

contents-increment : (d : NodeState) → contents (increment d).0 ≡ contents d
unfolding increment
contents-increment d = refl

contents-decrement :
    (d d' : NodeState) (c : Change) → decrement d ≡ some (d', c) → contents d' ≡ contents d
unfolding decrement
contents-decrement d d' c e = ground arith

pub seen_set_child :
    (part q : Bytes) (d d' : NodeState) (m : Tree) (cs : Below) (ns : TrackNamespace)
    → contents_at (node d' (set_child part m cs)) (q ∷ ns)
      ≡ (if part == q then contents_at m ns else contents_at (node d cs) (q ∷ ns))
unfolding contents_at at_child
seen_set_child part q d d' m cs ns = elim (Bool-cases (part == q)) [
  | inl h ↦ rw (find_child-set_child part q m cs, h) refl
  | inr h ↦ rw (find_child-set_child part q m cs, h) refl
]

seen_erase_child :
    (part q : Bytes) (d d' : NodeState) (m : Tree) (cs : Below) (ns : TrackNamespace)
    → contents_at m ns ≡ nothing
    → contents_at (node d' (erase_child part cs)) (q ∷ ns)
      ≡ (if part == q then contents_at m ns else contents_at (node d cs) (q ∷ ns))
unfolding contents_at at_child
seen_erase_child part q d d' m cs ns e = elim (Bool-cases (part == q)) [
  | inl h ↦ rw (find_child-erase_child part q cs, h, e) refl
  | inr h ↦ rw (find_child-erase_child part q cs, h) refl
]

-- The changed child shows in its parent, and nothing else changes there.
abbrev Shows : Bytes → NodeState → Below → Tree → Tree → Type 0
Shows part d cs m n =
    (contents_at n [] ≡ contents d)
    × ((q : Bytes) (ns : TrackNamespace)
        → contents_at n (q ∷ ns)
          ≡ (if part == q then contents_at m ns else contents_at (node d cs) (q ∷ ns)))

settle-Shows :
    (part : Bytes) (d : NodeState) (cs : Below) (m : Tree) (c : Change) (n : Tree) (c' : Change)
    → settle part d cs (some (m, c)) ≡ some (n, c')
    → (c ≡ emptied → (ns : TrackNamespace) → contents_at m ns ≡ nothing)
    → Shows part d cs m n
unfolding settle contents_at
settle-Shows part d cs m still n c' e z =
    let same : node d (set_child part m cs) ≡ n = cc in
    subst (Shows part d cs m) same (refl, λ q ns. seen_set_child part q d d m cs ns)
settle-Shows part d cs m first_content n c' e z =
    let same : node (increment d).0 (set_child part m cs) ≡ n = cc in
    subst (Shows part d cs m) same
      (contents-increment d, λ q ns. seen_set_child part q d (increment d).0 m cs ns)
settle-Shows part d cs m emptied n c' e z = elim (Option-cases (decrement d)) [
  | inl fails ↦ cc (rw (fails, prune) at e)
  | inr ((d', c''), went) ↦
      let e' = rw (went, prune) at e in
      let same : node d' (erase_child part cs) ≡ n = cc in
      subst (Shows part d cs m) same
        (contents-decrement d d' c'' went, λ q ns. seen_erase_child part q d d' m cs ns (z refl ns))
]

pub contents_at-new : (at ns : TrackNamespace) → contents_at (node (new_state at) nil) ns ≡ nothing
unfolding contents_at new_state at_child
contents_at-new at [] = refl
contents_at-new at (part ∷ ns) = refl

contents_at-or_new :
    (at : TrackNamespace) (part q : Bytes) (d : NodeState) (cs : Below) (ns : TrackNamespace)
    → (part == q) ≡ true
    → contents_at (or_new at (find_child part cs)) ns ≡ contents_at (node d cs) (q ∷ ns)
unfolding contents_at or_new at_child
contents_at-or_new at part q d cs ns h =
    subst (λ k. contents_at (or_new at (find_child part cs)) ns ≡ contents_at (node d cs) (k ∷ ns))
      (same_part part q h)
      (elim (Option-cases (find_child part cs)) [
        | inl z ↦ rw z (contents_at-new at ns)
        | inr (n, z) ↦ rw z refl
      ])

seen_from :
    (part : Bytes) (ns : TrackNamespace) (d : NodeState) (cs : Below) (m n : Tree)
    (q : TrackNamespace) (old : Tree) (changed : Contents → Contents)
    → ((p : Bytes) (rest : TrackNamespace)
        → (part == p) ≡ true
        → contents_at old rest ≡ contents_at (node d cs) (p ∷ rest))
    → Shows part d cs m n
    → ((rest : TrackNamespace)
        → contents_at m rest
          ≡ at_namespace ns rest (changed (contents_at old rest)) (contents_at old rest))
    → contents_at n q
      ≡ at_namespace (part ∷ ns) q (changed (contents_at (node d cs) q)) (contents_at (node d cs) q)
unfolding contents_at
seen_from part ns d cs m n [] old changed same shows below = shows.0
seen_from part ns d cs m n (p ∷ q) old changed same shows below = elim (Bool-cases (part == p)) [
  | inl h ↦ shows.1 p q ∙ rw h (below q ∙ ap (λ o. at_namespace ns q (changed o) o) (same p q h))
  | inr h ↦ shows.1 p q ∙ rw h refl
]

-- A change at a namespace is the change of the contents of that namespace alone.
pub contents_at-update_at :
    (f : NodeState → NodeState × Change) (changed : Contents → Contents) (at ns : TrackNamespace)
    (n : Tree) (n' : Tree) (c : Change)
    → Faithful f
    → ((d : NodeState) → contents (f d).0 ≡ changed (contents d))
    → Sound n
    → update_at f at ns n ≡ some (n', c)
    → (q : TrackNamespace)
    → contents_at n' q ≡ at_namespace ns q (changed (contents_at n q)) (contents_at n q)
unfolding update_at contents_at Sound
contents_at-update_at f changed at [] (node d cs) n' c faithful agrees s e [] =
    let same : node (f d).0 cs ≡ n' = cc in
    subst (λ x. contents_at x [] ≡ changed (contents d)) same (agrees d)
contents_at-update_at f changed at [] (node d cs) n' c faithful agrees s e (q ∷ qs) =
    let same : node (f d).0 cs ≡ n' = cc in
    subst (λ x. contents_at x (q ∷ qs) ≡ contents_at (node d cs) (q ∷ qs)) same refl
contents_at-update_at f changed at (part ∷ ns) (node d cs) n' c faithful agrees s e q =
    let at' = at ++ (part ∷ []) in
    let old = or_new at' (find_child part cs) in
    let (sound, same) = Sound-or_new at' part cs s.1 in
    elim (Option-cases (update_at f at' ns old)) [
      | inl fails ↦ cc (rw (fails, settle) at e)
      | inr ((m, c'), went) ↦
          let fine : Fine (kept old) (some (m, c')) =
            rw went at (Fine-update_at f at' ns old faithful sound) in
          seen_from part ns d cs m n' q old changed
            (λ p rest h. contents_at-or_new at' part p d cs rest h)
            (settle-Shows part d cs m c' n' c (rw went at e) (λ gone rest.
              contents_at-pruned m rest fine.0 (subst (Tells (kept old) (kept m)) gone fine.1).1))
            (contents_at-update_at f changed at' ns old m c' faithful agrees sound went)
    ]
