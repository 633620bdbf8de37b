-- ===== src/Rendezvous/Lookup.antt =====
-- The lookups in the tree of src/PendingRendezvousTree.cpp after its updates.
use moqx.Base.{
  ℕ, ◌≡◌, refl, inl, inr, List, [], ◌∷◌, none, some, true, if◌then◌else◌, ◌==◌, ℕ_Eq, List_Eq,
  Bytes, Bool-cases, arith,
}
use moqx.Rendezvous.{
  Node, node, Children, nil, child, empty, find_child, set_child, erase_child, put_back, parked,
  parked_below, list_or_empty,
}

pub same_part : (j k : Bytes) → (j == k) ≡ true → j ≡ k
same_part j k b = ((List_Eq {A = ℕ}).is_equal_iff j k).0 b

pub find_child-set_child :
    (k q : Bytes) (n : Node) (cs : Children)
    → find_child q (set_child k n cs) ≡ (if k == q then some n else find_child q cs)
unfolding find_child set_child
find_child-set_child k q n nil = refl
find_child-set_child k q n (child j m cs) = elim (Bool-cases (j == k)) [
  | inl h ↦ rw (h, same_part j k h) (ground arith)
  | inr h ↦ rw h (
      ground (
        arith,
        find_child-set_child k q n cs,
        same_part k q,
        same_part j q,
        ((List_Eq {A = ℕ}).is_equal_iff j k).1,
      ))
]

pub find_child-erase_child :
    (k q : Bytes) (cs : Children)
    → find_child q (erase_child k cs) ≡ (if k == q then none else find_child q cs)
unfolding find_child erase_child
find_child-erase_child k q nil = ground arith
find_child-erase_child k q (child j m cs) = ground (
  arith,
  find_child-erase_child k q cs,
  same_part k q,
  same_part j q,
  ((List_Eq {A = ℕ}).is_equal_iff j q).1,
  same_part j k,
  ((List_Eq {A = ℕ}).is_equal_iff j k).1,
)

pub parked-empty :
    (n : Node) (ns : List Bytes) (track : Bytes) → empty n ≡ true → parked n ns track ≡ []
unfolding empty parked parked_below find_child list_or_empty
parked-empty (node nil []) [] track e = refl
parked-empty (node nil []) (part ∷ ns) track e = refl
parked-empty (node nil (w ∷ ws)) ns track e = cc
parked-empty (node (child k n cs) ws) ns track e = cc

-- A child that is put back is found with its waiters, pruned or not.
pub parked_below-put_back :
    (k q : Bytes) (n : Node) (cs : Children) (ns : List Bytes) (track : Bytes)
    → parked_below (λ m. parked m ns track) (find_child q (put_back k n cs)) ≡ (
        if k == q
        then parked n ns track
        else parked_below (λ m. parked m ns track) (find_child q cs))
unfolding put_back parked_below
parked_below-put_back k q n cs ns track = elim (Bool-cases (empty n)) [
  | inl e ↦ rw (e, find_child-erase_child k q cs) (ground (arith, parked-empty n ns track e))
  | inr e ↦ rw (e, find_child-set_child k q n cs) (ground arith)
]
