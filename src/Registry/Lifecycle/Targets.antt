-- ===== src/Registry/Lifecycle/Targets.antt =====
-- The activity targets that src/SubscriptionRegistry.cpp gives to TopNFilters, pointers into the
-- entries of its map.
use moqx.Base.{
  ℕ, ◌≡◌, sym, ap, ◌∙◌, ◌⊎◌, inl, inr, List, [], ◌∷◌, Option, none, some, Bool, ◌==◌, ℕ_Eq,
  FullTrackName, FullTrackName_Eq, Bool-cases, Among,
}
use moqx.Base.Assoc
use moqx.Registry.{
  Ptr, RelaySubscription, Subscriptions, SubscriptionRegistry, clear_target, erase_where,
}

abbrev pub Target : Type 0
Target = Ptr × ℕ

-- The target points into an entry that is still there, and that entry knows its filter.
abbrev pub Lives : Target → Subscriptions → Type 0
Lives t [] = ⊥
Lives t ((k, e) ∷ m) = ((e.top_n_filter ≡ some t.0) × (e.epoch ≡ t.1)) ⊎ Lives t m

-- No TopNFilter has a dangling activity target.
abbrev pub NoneDangles : SubscriptionRegistry → Type 0
NoneDangles r = (t : Target) → Among t r.targets → Lives t r.subscriptions

erase-Among : (f : Ptr) (t : Target) (ts : List Target) → Among t (Assoc.erase f ts) → Among t ts
erase-Among f t [] i = i
erase-Among f t ((g, e) ∷ ts) i = elim (Bool-cases (g == f)) [
  | inl b ↦ inr (erase-Among f t ts (rw b at i))
  | inr b ↦ elim (rw b at i) [ inl q ↦ inl q | inr j ↦ inr (erase-Among f t ts j) ]
]

erase-gone : (f : Ptr) (e : ℕ) (ts : List Target) → Among (f, e) (Assoc.erase f ts) → ⊥
erase-gone f e [] i = i
erase-gone f e ((g, d) ∷ ts) i = elim (Bool-cases (g == f)) [
  | inl b ↦ erase-gone f e ts (rw b at i)
  | inr b ↦ elim (rw b at i) [
    | inl q ↦ cc (b, q, (ℕ_Eq.is_equal_iff g f).1 (cc q))
    | inr j ↦ erase-gone f e ts j
  ]
]

clear_target-Among :
    (o : Option Ptr) (t : Target) (ts : List Target) → Among t (clear_target o ts) → Among t ts
unfolding clear_target
clear_target-Among none t ts i = i
clear_target-Among (some f) t ts i = erase-Among f t ts i

pub erase_where-Among :
    (p : FullTrackName → RelaySubscription → Bool) (m : Subscriptions) (ts : List Target)
    (t : Target)
    → Among t (erase_where p m ts).1
    → Among t ts
unfolding erase_where
erase_where-Among p [] ts t i = i
erase_where-Among p ((k, e) ∷ m) ts t i = elim (Bool-cases (p k e)) [
  | inl b ↦
      clear_target-Among e.top_n_filter t ts
        (erase_where-Among p m (clear_target e.top_n_filter ts) t (rw b at i))
  | inr b ↦ erase_where-Among p m ts t (rw b at i)
]

erase_where-gone :
    (p : FullTrackName → RelaySubscription → Bool) (m : Subscriptions) (ts : List Target)
    (o : Option Ptr) (t : Target)
    → o ≡ some t.0
    → Among t (erase_where p m (clear_target o ts)).1
    → ⊥
unfolding clear_target
erase_where-gone p m ts o t q i =
    erase-gone t.0 t.1 ts (rw (q, clear_target) at (erase_where-Among p m (clear_target o ts) t i))

pub erase_where-Lives :
    (p : FullTrackName → RelaySubscription → Bool) (m : Subscriptions) (ts : List Target)
    (t : Target)
    → Among t (erase_where p m ts).1
    → Lives t m
    → Lives t (erase_where p m ts).0
unfolding erase_where
erase_where-Lives p [] ts t i l = l
erase_where-Lives p ((k, e) ∷ m) ts t i (inl (q, c)) = elim (Bool-cases (p k e)) [
  | inl b ↦ absurd (erase_where-gone p m ts e.top_n_filter t q (rw b at i))
  | inr b ↦ rw b (inl (q, c))
]
erase_where-Lives p ((k, e) ∷ m) ts t i (inr l) = elim (Bool-cases (p k e)) [
  | inl b ↦ rw b (erase_where-Lives p m _ t (rw b at i) l)
  | inr b ↦ rw b (inr (erase_where-Lives p m ts t (rw b at i) l))
]

pub insert-Lives :
    (k : FullTrackName) (d d' : RelaySubscription) (m : Subscriptions) (t : Target)
    → Assoc.find k m ≡ some d
    → d'.top_n_filter ≡ d.top_n_filter
    → d'.epoch ≡ d.epoch
    → Lives t m
    → Lives t (Assoc.insert_or_assign k d' m)
insert-Lives k d d' [] t q a c l = absurd l
insert-Lives k d d' ((j, e) ∷ m) t q a c l = elim (Bool-cases (j == k)) [
  | inl b ↦
      let same : e ≡ d = cc (rw b at q) in
      elim l [
        | inl (x, y) ↦ rw b (
            inl (a ∙ ap (λ z. z.top_n_filter) (sym same) ∙ x, c ∙ ap (λ z. z.epoch) (sym same) ∙ y))
        | inr n ↦ rw b (inr n)
      ]
  | inr b ↦ elim l [
    | inl x ↦ rw b (inl x)
    | inr n ↦ rw b (inr (insert-Lives k d d' m t (rw b at q) a c n))
  ]
]

pub insert-Among :
    (f : Ptr) (e : ℕ) (t : Target) (ts : List Target)
    → Among t (Assoc.insert_or_assign f e ts)
    → (t ≡ (f, e)) ⊎ Among t ts
insert-Among f e t [] i = i
insert-Among f e t ((g, d) ∷ ts) i = elim (Bool-cases (g == f)) [
  | inl b ↦ elim (rw b at i) [ inl q ↦ inl q | inr j ↦ inr (inr j) ]
  | inr b ↦ elim (rw b at i) [
    | inl q ↦ inr (inl q)
    | inr j ↦ elim (insert-Among f e t ts j) [ inl q ↦ inl q | inr n ↦ inr (inr n) ]
  ]
]
