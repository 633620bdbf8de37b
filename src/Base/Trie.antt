-- ===== src/Base/Trie.antt =====
-- Trees whose edges carry a part of a namespace; the children of a node are a map from parts.
use mathlib.Core.Bool.{true}
use mathlib.Core.Logic.{inl, inr}
use mathlib.Core.Option.{Option, none, some}
use mathlib.Core.Path.{◌≡◌, refl}
use native.Mathlib.Omega.{arith}
use moqx.Base.Tests.{if◌then◌else◌, ◌==◌, ℕ_Eq, List_Eq, list_eq_iff, Bool-cases}
use moqx.Base.Names.{Bytes}

mutual
  pub data Trie {ℓ} (A : Type ℓ) : Type ℓ where
    node : A → Children A → Trie A

  pub data Children {ℓ} (A : Type ℓ) : Type ℓ where
    nil : Children A
    child : Bytes → Trie A → Children A → Children A

pub same_part : (j k : Bytes) → (j == k) ≡ true → j ≡ k
same_part j k b = (list_eq_iff j k).0 b

module _ {ℓ} {A : Type ℓ} where
  abbrev pub label : Trie A → A
  label (node d cs) = d

  abbrev pub children : Trie A → Children A
  children (node d cs) = cs

  abbrev pub find_child : Bytes → Children A → Option (Trie A)
  find_child k nil = none
  find_child k (child j n cs) = if j == k then some n else find_child k cs

  abbrev pub set_child : Bytes → Trie A → Children A → Children A
  set_child k n nil = child k n nil
  set_child k n (child j m cs) = if j == k then child k n cs else child j m (set_child k n cs)

  abbrev pub erase_child : Bytes → Children A → Children A
  erase_child k nil = nil
  erase_child k (child j m cs) = if j == k then erase_child k cs else child j m (erase_child k cs)

  pub find_child-set_child :
      (k q : Bytes) (n : Trie A) (cs : Children A)
      → find_child q (set_child k n cs) ≡ (if k == q then some n else find_child q cs)
  find_child-set_child k q n nil = refl
  find_child-set_child k q n (child j m cs) = elim (Bool-cases (j == k)) [
    | inl h ↦ rw (h, same_part j k h) (ground arith)
    | inr h ↦ rw h (
        ground
          (arith, find_child-set_child k q n cs, same_part k q, same_part j q, (list_eq_iff j k).1))
  ]

  pub find_child-erase_child :
      (k q : Bytes) (cs : Children A)
      → find_child q (erase_child k cs) ≡ (if k == q then none else find_child q cs)
  find_child-erase_child k q nil = ground arith
  find_child-erase_child k q (child j m cs) = ground (
    arith,
    find_child-erase_child k q cs,
    same_part k q,
    same_part j q,
    (list_eq_iff j q).1,
    same_part j k,
    (list_eq_iff j k).1,
  )
