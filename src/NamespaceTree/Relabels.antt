-- ===== src/NamespaceTree/Relabels.antt =====
-- A change of the nodes of a subtree that leaves what they hold and count, as the removal of a
-- subscriber's advertisements in src/NamespaceTree.cpp does.
use moqx.Base.{
  ◌≡◌, refl, ap, subst, ◌∙◌, inl, inr, [], ◌∷◌, none, some, ◌==◌, ℕ_Eq, List_Eq, Bytes,
  TrackNamespace, Bool-cases, Option-cases, arith,
}
use moqx.Base.Trie.{node, nil, child, find_child, same_part}
use moqx.NamespaceTree.Nodes.{Tree, Below, NodeState, has_content, should_keep, at_child}
use moqx.NamespaceTree.Subscriptions.{relabel, relabel_below, relabel_at, put_found}
use moqx.NamespaceTree.Counts.{
  kept, kept_count, kept_child, as_number, Sound, SoundBelow, Sound-find_child,
  SoundBelow-set_child, kept_count-set_child,
}
use moqx.NamespaceTree.Contents.{Contents, contents, contents_at, seen_set_child}

module _ (f : NodeState → NodeState) where
  -- The change is of neither contents nor counts.
  abbrev pub Leaves : Type 0
  Leaves =
      (d : NodeState)
      → (contents (f d) ≡ contents d) × ((f d).active_child_count ≡ d.active_child_count)

  should_keep_same : Leaves → (d : NodeState) → should_keep (f d) ≡ should_keep d
  unfolding should_keep has_content
  should_keep_same l d = cc (
    (l d).1,
    ap (λ (c : Contents). c.routes) (l d).0,
    ap (λ (c : Contents). c.publishes) (l d).0,
    ap (λ (c : Contents). c.subscribers) (l d).0,
  )

  kept-relabel : Leaves → (n : Tree) → kept (relabel f n) ≡ kept n
  unfolding relabel
  kept-relabel l (node d cs) = should_keep_same l d

  kept_count-relabel : Leaves → (cs : Below) → kept_count (relabel_below f cs) ≡ kept_count cs
  unfolding relabel
  kept_count-relabel l nil = refl
  kept_count-relabel l (child part n cs) =
      omega (arith, ap as_number (kept-relabel l n), kept_count-relabel l cs)

  mutual
    unfolding relabel Sound

    Sound-relabel : Leaves → (n : Tree) → Sound n → Sound (relabel f n)
    Sound-relabel l (node d cs) s =
        (omega (arith, (l d).1, kept_count-relabel l cs), SoundBelow-relabel l cs s.1)

    SoundBelow-relabel : Leaves → (cs : Below) → SoundBelow cs → SoundBelow (relabel_below f cs)
    SoundBelow-relabel l nil s = tt
    SoundBelow-relabel l (child part n cs) s = (Sound-relabel l n s.0, SoundBelow-relabel l cs s.1)

  find_child-relabel :
      (part : Bytes) (cs : Below)
      → find_child part (relabel_below f cs)
        ≡ at_child none (λ n. some (relabel f n)) (find_child part cs)
  unfolding relabel at_child
  find_child-relabel part nil = refl
  find_child-relabel part (child j n cs) = elim (Bool-cases (j == part)) [
    | inl h ↦ rw h refl
    | inr h ↦ rw h (find_child-relabel part cs)
  ]

  contents_at-relabel :
      Leaves → (n : Tree) (ns : TrackNamespace) → contents_at (relabel f n) ns ≡ contents_at n ns
  unfolding relabel contents_at at_child
  contents_at-relabel l (node d cs) [] = (l d).0
  contents_at-relabel l (node d cs) (part ∷ ns) = elim (Option-cases (find_child part cs)) [
    | inl z ↦ rw (find_child-relabel part cs, z) refl
    | inr (n, z) ↦ rw (find_child-relabel part cs, z) (contents_at-relabel l n ns)
  ]

  pub kept-relabel_at :
      Leaves → (ns : TrackNamespace) (n : Tree) → kept (relabel_at f ns n) ≡ kept n
  unfolding relabel_at
  kept-relabel_at l [] n = kept-relabel l n
  kept-relabel_at l (part ∷ ns) (node d cs) = refl

  pub Sound-relabel_at :
      Leaves → (ns : TrackNamespace) (n : Tree) → Sound n → Sound (relabel_at f ns n)
  unfolding relabel_at Sound put_found at_child
  Sound-relabel_at l [] n s = Sound-relabel l n s
  Sound-relabel_at l (part ∷ ns) (node d cs) s = elim (Option-cases (find_child part cs)) [
    | inl z ↦ rw z s
    | inr (n, z) ↦
        let sound = Sound-relabel_at l ns n (Sound-find_child part cs n z s.1) in
        rw z (
          omega (
            arith,
            kept_count-set_child part (relabel_at f ns n) cs,
            ap kept_child z,
            ap as_number (kept-relabel_at l ns n),
          ),
          SoundBelow-set_child part (relabel_at f ns n) cs sound s.1,
        )
  ]

  pub contents_at-relabel_at :
      Leaves
      → (ns : TrackNamespace) (n : Tree) (q : TrackNamespace)
      → contents_at (relabel_at f ns n) q ≡ contents_at n q
  unfolding relabel_at contents_at put_found at_child
  contents_at-relabel_at l [] n q = contents_at-relabel l n q
  contents_at-relabel_at l (part ∷ ns) (node d cs) [] = refl
  contents_at-relabel_at l (part ∷ ns) (node d cs) (p ∷ q) =
      elim (Option-cases (find_child part cs)) [
        | inl z ↦ rw z refl
        | inr (n, z) ↦ rw z (
            seen_set_child part p d d (relabel_at f ns n) cs q ∙ elim (Bool-cases (part == p)) [
              | inl h ↦
                  let there = subst (λ k. find_child k cs ≡ some n) (same_part part p h) z in
                  rw (h, there) (contents_at-relabel_at l ns n q)
              | inr h ↦ rw h refl
            ])
      ]
