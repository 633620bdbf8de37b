-- ===== src/Base/Lists.antt =====
-- Lists measured and cut by native numbers, and the searches of <algorithm>.
use Prim.Native.Nat.{ℕ, zero, suc, ◌+◌, ◌-◌, min}
use mathlib.Core.Bool.{Bool, true, false, ◌&&◌, ◌||◌}
use mathlib.Core.List.{List, [], ◌∷◌, ◌++◌}
use mathlib.Core.Option.{Option, none, some}
use mathlib.Core.Path.{◌≡◌, refl, ap, sym, ◌∙◌}
use native.Mathlib.Omega.{arith}
use mathlib.Core.Logic.{◌⊎◌, inl, inr}
use moqx.Base.Tests.{if◌then◌else◌, Eq, ◌==◌, Bool-cases}

module _ {ℓ} {A : Type ℓ} where
  abbrev pub length : List A → ℕ
  length [] = 0
  length (x ∷ xs) = suc (length xs)

  abbrev pub get_elem? : List A → ℕ → Option A
  get_elem? [] i = none
  get_elem? (x ∷ xs) zero = some x
  get_elem? (x ∷ xs) (suc i) = get_elem? xs i

  abbrev pub take : ℕ → List A → List A
  take zero xs = []
  take (suc n) [] = []
  take (suc n) (x ∷ xs) = x ∷ take n xs

  abbrev pub drop : ℕ → List A → List A
  drop zero xs = xs
  drop (suc n) [] = []
  drop (suc n) (x ∷ xs) = drop n xs

  pub length-append : (xs ys : List A) → length (xs ++ ys) ≡ length xs + length ys
  length-append [] ys = omega arith
  length-append (x ∷ xs) ys = omega (arith, length-append xs ys)

  pub length-take : (n : ℕ) (xs : List A) → length (take n xs) ≡ min n (length xs)
  length-take zero xs = omega arith
  length-take (suc n) [] = omega arith
  length-take (suc n) (x ∷ xs) = omega (arith, length-take n xs)

  pub length-drop : (n : ℕ) (xs : List A) → length (drop n xs) ≡ length xs - n
  length-drop zero xs = omega arith
  length-drop (suc n) [] = omega arith
  length-drop (suc n) (x ∷ xs) = omega (arith, length-drop n xs)

  pub take-append : (xs ys : List A) → take (length xs) (xs ++ ys) ≡ xs
  take-append [] ys = refl
  take-append (x ∷ xs) ys = ap (◌∷◌ x) (take-append xs ys)

  pub drop-append : (xs ys : List A) → drop (length xs) (xs ++ ys) ≡ ys
  drop-append [] ys = refl
  drop-append (x ∷ xs) ys = drop-append xs ys

  -- std::any_of and std::all_of
  abbrev pub any : (A → Bool) → List A → Bool
  any p [] = false
  any p (x ∷ xs) = p x || any p xs

  abbrev pub all : (A → Bool) → List A → Bool
  all p [] = true
  all p (x ∷ xs) = p x && all p xs

  -- the elements that pass a test
  abbrev pub keep : (A → Bool) → List A → List A
  keep p [] = []
  keep p (x ∷ xs) = if p x then x ∷ keep p xs else keep p xs

  -- std::find_if: the first element that passes
  abbrev pub find_if : (A → Bool) → List A → Option A
  find_if p [] = none
  find_if p (x ∷ xs) = if p x then some x else find_if p xs

module _ {ℓ} {A : Type ℓ} ⦃e : Eq A⦄ where
  abbrev pub contains : List A → A → Bool
  contains xs a = any (λ x. x == a) xs

  pub contains-keep :
      (p : A → Bool) (xs : List A) (a : A) → contains (keep p xs) a ≡ (contains xs a && p a)
  contains-keep p [] a = refl
  contains-keep p (x ∷ xs) a = elim (Bool-cases (p x)) [
    | inl t ↦ elim (Bool-cases (x == a)) [
      | inl h ↦
          let there : p a ≡ true = ap p (sym ((e.is_equal_iff x a).0 h)) ∙ t in
          rw (t, h, there) refl
      | inr h ↦ rw (t, h) (contains-keep p xs a)
    ]
    | inr t ↦ elim (Bool-cases (x == a)) [
      | inl h ↦
          let there : p a ≡ false = ap p (sym ((e.is_equal_iff x a).0 h)) ∙ t in
          rw (t, h, there) (contains-keep p xs a ∙ rw there (ground arith))
      | inr h ↦ rw (t, h) (contains-keep p xs a)
    ]
  ]

-- The element stands in the list.
abbrev pub Among : {A : Type 0} → A → List A → Type 0
Among a [] = ⊥
Among a (x ∷ xs) = (a ≡ x) ⊎ Among a xs

pub any-Among :
    {A : Type 0} (p : A → Bool) (xs : List A)
    → any p xs ≡ true
    → (a : A) × Among a xs × (p a ≡ true)
any-Among p [] h = cc
any-Among p (x ∷ xs) h = elim (Bool-cases (p x)) [
  | inl e ↦ (x, inl refl, e)
  | inr e ↦ let (a, i, q) = any-Among p xs (rw e at h) in (a, inr i, q)
]

pub Among-any :
    {A : Type 0} (p : A → Bool) (a : A) (xs : List A) → Among a xs → p a ≡ true → any p xs ≡ true
Among-any p a [] i e = absurd i
Among-any p a (x ∷ xs) (inl q) e = rw (← q, e)
Among-any p a (x ∷ xs) (inr i) e = elim (Bool-cases (p x)) [
  | inl h ↦ rw h
  | inr h ↦ rw h (Among-any p a xs i e)
]

pub Among-append_left : {A : Type 0} (a : A) (xs ys : List A) → Among a xs → Among a (xs ++ ys)
Among-append_left a [] ys i = absurd i
Among-append_left a (x ∷ xs) ys (inl e) = inl e
Among-append_left a (x ∷ xs) ys (inr i) = inr (Among-append_left a xs ys i)

pub Among-append_right : {A : Type 0} (a : A) (xs ys : List A) → Among a ys → Among a (xs ++ ys)
Among-append_right a [] ys i = i
Among-append_right a (x ∷ xs) ys i = inr (Among-append_right a xs ys i)

pub Among-append_elim :
    {A : Type 0} (a : A) (xs ys : List A) → Among a (xs ++ ys) → Among a xs ⊎ Among a ys
Among-append_elim a [] ys i = inr i
Among-append_elim a (x ∷ xs) ys (inl e) = inl (inl e)
Among-append_elim a (x ∷ xs) ys (inr i) = elim (Among-append_elim a xs ys i) [
  | inl j ↦ inl (inr j)
  | inr j ↦ inr j
]

pub get_elem?-Among :
    {A : Type 0} (xs : List A) (i : ℕ) (a : A) → get_elem? xs i ≡ some a → Among a xs
get_elem?-Among [] i a e = cc
get_elem?-Among (x ∷ xs) zero a e = inl (cc)
get_elem?-Among (x ∷ xs) (suc i) a e = inr (get_elem?-Among xs i a e)

pub parts_nil : {A : Type 0} (xs ys : List A) → xs ++ ys ≡ [] → (xs ≡ []) × (ys ≡ [])
parts_nil [] ys e = (refl, e)
parts_nil (x ∷ xs) ys e = cc
