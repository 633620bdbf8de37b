-- ===== src/Base/Assoc.antt =====
-- Maps as association lists; a write to a present key replaces its value where it stands.
use mathlib.Core.List.{List, [], ◌∷◌}
use mathlib.Core.Logic.{inl, inr}
use mathlib.Core.Option.{Option, none, some}
use mathlib.Core.Path.{◌≡◌, refl}
use native.Mathlib.Omega.{arith}
use moqx.Base.Tests.{if◌then◌else◌, Eq, ◌==◌, Bool-cases}

module _ {ℓ κ} {K : Type ℓ} {V : Type κ} ⦃e : Eq K⦄ where
  abbrev pub find : K → List (K × V) → Option V
  find k [] = none
  find k ((j, v) ∷ m) = if j == k then some v else find k m

  abbrev pub insert_or_assign : K → V → List (K × V) → List (K × V)
  insert_or_assign k v [] = (k, v) ∷ []
  insert_or_assign k v ((j, w) ∷ m) = if j == k then (k, v) ∷ m else (j, w) ∷ insert_or_assign k v m

  -- every entry of the key goes
  abbrev pub erase : K → List (K × V) → List (K × V)
  erase k [] = []
  erase k ((j, w) ∷ m) = if j == k then erase k m else (j, w) ∷ erase k m

  pub find-insert_or_assign :
      (k q : K) (v : V) (m : List (K × V))
      → find q (insert_or_assign k v m) ≡ (if k == q then some v else find q m)
  find-insert_or_assign k q v [] = refl
  find-insert_or_assign k q v ((j, w) ∷ m) = elim (Bool-cases (j == k)) [
    | inl h ↦ rw (h, (e.is_equal_iff j k).0 h) (ground arith)
    | inr h ↦ rw h (
        ground (
          arith,
          find-insert_or_assign k q v m,
          (e.is_equal_iff k q).0,
          (e.is_equal_iff j q).0,
          (e.is_equal_iff j k).1,
        ))
  ]

  pub find-erase :
      (k q : K) (m : List (K × V)) → find q (erase k m) ≡ (if k == q then none else find q m)
  find-erase k q [] = ground arith
  find-erase k q ((j, w) ∷ m) = ground (
    arith,
    find-erase k q m,
    (e.is_equal_iff k q).0,
    (e.is_equal_iff j q).0,
    (e.is_equal_iff j q).1,
    (e.is_equal_iff j k).0,
    (e.is_equal_iff j k).1,
  )
