-- ===== src/NamespaceTree/Counts.antt =====
-- The counts of active children in src/NamespaceTree.cpp: they never fall below the number of
-- children that are kept, and so the check of tryPruneChild never fails.
use moqx.Base.{
  ℕ, ◌+◌, ◌-◌, ◌≤◌, ◌≡◌, refl, ap, subst, inl, inr, [], ◌∷◌, ◌++◌, Option, none, some, Bool, true,
  false, ◌&&◌, ◌||◌, not, ltb, nat_eq, lt→ltb, ◌<◌, ◌==◌, ℕ_Eq, List_Eq, Bytes, TrackNamespace,
  Bool-cases, Option-cases, arith,
}
use moqx.Base.Trie.{node, nil, child, label, find_child, set_child, erase_child}
use moqx.NamespaceTree.Nodes.{
  Tree, Below, NodeState, has_content, should_keep, new_state, or_new, Change, still, first_content,
  emptied, guard_change, increment, decrement, prune, settle, update_at,
}

abbrev pub kept : Tree → Bool
kept n = should_keep (label n)

abbrev pub as_number : Bool → ℕ
as_number false = 0
as_number true = 1

abbrev pub kept_child : Option Tree → ℕ
kept_child none = 0
kept_child (some n) = as_number (kept n)

abbrev pub kept_count : Below → ℕ
kept_count nil = 0
kept_count (child part n cs) = as_number (kept n) + kept_count cs

-- Every count is at least the number of the children that are kept.
unfoldable mutual
  pub Sound : Tree → Type 0
  Sound (node d cs) = (kept_count cs ≤ d.active_child_count) × SoundBelow cs

  pub SoundBelow : Below → Type 0
  SoundBelow nil = Unit {0}
  SoundBelow (child part n cs) = Sound n × SoundBelow cs

pub kept_count-set_child :
    (part : Bytes) (n : Tree) (cs : Below)
    → kept_count (set_child part n cs) + kept_child (find_child part cs)
      ≡ kept_count cs + as_number (kept n)
kept_count-set_child part n nil = omega arith
kept_count-set_child part n (child j m cs) = elim (Bool-cases (j == part)) [
  | inl h ↦ rw h (omega arith)
  | inr h ↦ rw h (omega (arith, kept_count-set_child part n cs))
]

kept_count-erase_child :
    (part : Bytes) (cs : Below)
    → kept_count (erase_child part cs) + kept_child (find_child part cs) ≤ kept_count cs
kept_count-erase_child part nil = omega arith
kept_count-erase_child part (child j m cs) = elim (Bool-cases (j == part)) [
  | inl h ↦ rw h (omega (arith, kept_count-erase_child part cs))
  | inr h ↦ rw h (omega (arith, kept_count-erase_child part cs))
]

pub SoundBelow-set_child :
    (part : Bytes) (n : Tree) (cs : Below)
    → Sound n
    → SoundBelow cs
    → SoundBelow (set_child part n cs)
unfolding SoundBelow
SoundBelow-set_child part n nil s b = (s, tt)
SoundBelow-set_child part n (child j m cs) s b = elim (Bool-cases (j == part)) [
  | inl h ↦ rw h (s, b.1)
  | inr h ↦ rw h (b.0, SoundBelow-set_child part n cs s b.1)
]

SoundBelow-erase_child :
    (part : Bytes) (cs : Below) → SoundBelow cs → SoundBelow (erase_child part cs)
unfolding SoundBelow
SoundBelow-erase_child part nil b = tt
SoundBelow-erase_child part (child j m cs) b = elim (Bool-cases (j == part)) [
  | inl h ↦ rw h (SoundBelow-erase_child part cs b.1)
  | inr h ↦ rw h (b.0, SoundBelow-erase_child part cs b.1)
]

pub Sound-find_child :
    (part : Bytes) (cs : Below) (n : Tree) → find_child part cs ≡ some n → SoundBelow cs → Sound n
unfolding SoundBelow
Sound-find_child part nil n e b = cc
Sound-find_child part (child j m cs) n e b = elim (Bool-cases (j == part)) [
  | inl h ↦ let same : m ≡ n = cc (rw h at e) in subst Sound same b.0
  | inr h ↦ Sound-find_child part cs n (rw h at e) b.1
]

-- What a change tells the parent, against whether the child was kept and is.
abbrev pub Tells : Bool → Bool → Change → Type 0
Tells before after still = after ≡ true → before ≡ true
Tells before after first_content = Unit {0}
Tells before after emptied = (before ≡ true) × (after ≡ false)

pub Tells-guard_change :
    (d d' : NodeState)
    → d'.active_child_count ≡ d.active_child_count
    → Tells (should_keep d) (should_keep d') (guard_change d d')
unfolding should_keep guard_change
Tells-guard_change d d' e = elim (Bool-cases (has_content d)) [
  | inl h ↦ elim (Bool-cases (has_content d' || ltb 0 d'.active_child_count)) [
    | inl k ↦ rw (h, k) (λ x. refl)
    | inr k ↦ rw (h, k) (refl, refl)
  ]
  | inr h ↦ elim (Bool-cases (has_content d')) [
    | inl k ↦ rw (h, k) tt
    | inr k ↦ rw (h, k, e) (λ x. x)
  ]
]

increment-Tells :
    (d : NodeState)
    → ((increment d).0.active_child_count ≡ d.active_child_count + 1)
      × Tells (should_keep d) (should_keep (increment d).0) (increment d).1
unfolding increment should_keep has_content
increment-Tells d = elim (Bool-cases (nat_eq (d.active_child_count + 1) 1 && not (has_content d))) [
  | inl h ↦ (refl, rw h tt)
  | inr h ↦ (refl, rw h (λ k. ground arith))
]

decrement-Tells :
    (d : NodeState)
    → 0 < d.active_child_count
    → (d' : NodeState) × (c : Change) × (decrement d ≡ some (d', c))
      × (d'.active_child_count ≡ d.active_child_count - 1)
      × Tells (should_keep d) (should_keep d') c
unfolding decrement should_keep
decrement-Tells d p =
    let d' = record d { active_child_count = d.active_child_count - 1 } in
    elim (Bool-cases (has_content d || ltb 0 (d.active_child_count - 1))) [
      | inl h ↦ (d', still, rw (lt→ltb 0 d.active_child_count p, h), refl, λ k. ground arith)
      | inr h ↦ (d', emptied, rw (lt→ltb 0 d.active_child_count p, h), refl, (ground arith, h))
    ]

-- An update went through, its tree is sound, and the parent is told the truth.
abbrev pub Fine : Bool → Option (Tree × Change) → Type 0
Fine before none = ⊥
Fine before (some (n, c)) = Sound n × Tells before (kept n) c

fewer_kept :
    (part : Bytes) (m : Tree) (cs : Below) (before : Bool) (n : ℕ)
    → as_number before ≡ kept_child (find_child part cs)
    → Tells before (kept m) still
    → kept_count cs ≤ n
    → kept_count (set_child part m cs) ≤ n
fewer_kept part m cs true n e told l = elim (Bool-cases (kept m)) [
  | inl h ↦ omega (arith, kept_count-set_child part m cs, ap as_number h)
  | inr h ↦ omega (arith, kept_count-set_child part m cs, ap as_number h)
]
fewer_kept part m cs false n e told l = elim (Bool-cases (kept m)) [
  | inl h ↦ cc (told h)
  | inr h ↦ omega (arith, kept_count-set_child part m cs, ap as_number h)
]

one_more :
    (part : Bytes) (m : Tree) (cs : Below) (n : ℕ)
    → kept_count cs ≤ n
    → kept_count (set_child part m cs) ≤ n + 1
one_more part m cs n l = elim (Bool-cases (kept m)) [
  | inl h ↦ omega (arith, kept_count-set_child part m cs, ap as_number h)
  | inr h ↦ omega (arith, kept_count-set_child part m cs, ap as_number h)
]

one_kept :
    (part : Bytes) (cs : Below) (before : Bool) (n : ℕ)
    → as_number before ≡ kept_child (find_child part cs)
    → before ≡ true
    → kept_count cs ≤ n
    → (0 < n) × (kept_count (erase_child part cs) ≤ n - 1)
one_kept part cs before n e b l = omega (arith, kept_count-erase_child part cs, ap as_number b)

Fine-settle :
    (part : Bytes) (d : NodeState) (cs : Below) (out : Option (Tree × Change)) (before : Bool)
    → as_number before ≡ kept_child (find_child part cs)
    → Sound (node d cs)
    → Fine before out
    → Fine (should_keep d) (settle part d cs out)
unfolding settle Sound
Fine-settle part d cs none before e s f = absurd f
Fine-settle part d cs (some (m, still)) before e s (sound, told) = (
  (
    fewer_kept part m cs before d.active_child_count e told s.0,
    SoundBelow-set_child part m cs sound s.1,
  ),
  λ k. k,
)
Fine-settle part d cs (some (m, first_content)) before e s (sound, told) =
    let (grows, tells) = increment-Tells d in
    (
      (
        rw grows (one_more part m cs d.active_child_count s.0),
        SoundBelow-set_child part m cs sound s.1,
      ),
      tells,
    )
Fine-settle part d cs (some (m, emptied)) before e s (sound, told) =
    let least = one_kept part cs before d.active_child_count e told.0 s.0 in
    let (d', c, went, falls, tells) = decrement-Tells d least.0 in
    rw (went, prune) ((rw falls least.1, SoundBelow-erase_child part cs s.1), tells)

-- What the change of a node must keep.
abbrev pub Faithful : (NodeState → NodeState × Change) → Type 0
Faithful f =
    (d : NodeState)
    → ((f d).0.active_child_count ≡ d.active_child_count)
      × Tells (should_keep d) (should_keep (f d).0) (f d).1

pub Sound-or_new :
    (at : TrackNamespace) (part : Bytes) (cs : Below)
    → SoundBelow cs
    → Sound (or_new at (find_child part cs))
      × (as_number (kept (or_new at (find_child part cs))) ≡ kept_child (find_child part cs))
unfolding Sound or_new new_state should_keep has_content
Sound-or_new at part cs b = elim (Option-cases (find_child part cs)) [
  | inl z ↦ rw z (omega arith, refl)
  | inr (n, z) ↦ rw z (Sound-find_child part cs n z b, refl)
]

pub Fine-update_at :
    (f : NodeState → NodeState × Change) (at ns : TrackNamespace) (n : Tree)
    → Faithful f
    → Sound n
    → Fine (kept n) (update_at f at ns n)
unfolding update_at Sound
Fine-update_at f at [] (node d cs) faithful s = ((rw (faithful d).0 s.0, s.1), (faithful d).1)
Fine-update_at f at (part ∷ ns) (node d cs) faithful s =
    let at' = at ++ (part ∷ []) in
    let (sound, same) = Sound-or_new at' part cs s.1 in
    Fine-settle part d cs (update_at f at' ns (or_new at' (find_child part cs)))
      (kept (or_new at' (find_child part cs))) same s
      (Fine-update_at f at' ns (or_new at' (find_child part cs)) faithful sound)
