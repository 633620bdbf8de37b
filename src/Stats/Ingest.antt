-- ===== src/Stats/Ingest.antt =====
-- IngestCounters of src/SubscriptionRegistry.h. The order on moxygen's AbsoluteLocation is a
-- parameter, `lt`, of which the code relies on a strict weak order.
use moqx.Base.{
  ℕ, ◌+◌, ◌%◌, ◌<◌, ◌≡◌, refl, ◌∙◌, List, [], ◌∷◌, Option, none, some, Bool, true, false,
  if◌then◌else◌, length, arith, contains, take, ℕ_Eq, ◌⊎◌, inl, inr, Bool-cases,
}
use moqx.Stats.Histogram.{u64_mod, inc}
use moqx.Stats.Window.{RecentGroupWindow, admit, size}
use moqx.Stats.Window
use moqx.Stats.Window.Recency.{live, IsValid, touch, live-admit, new-IsValid}

pub record AbsoluteLocation : Type 0 where
  pub group : ℕ
  pub object : ℕ

pub record IngestCounters : Type 0 where
  pub largest : Option AbsoluteLocation
  pub groups : ℕ
  pub objects : ℕ
  pub recent_groups : RecentGroupWindow

pub new : IngestCounters
new = record { largest = none; groups = 0; objects = 0; recent_groups = Window.new }

-- What the code relies on of `operator<`.
pub record IsStrictWeakOrder {A : Type 0} (lt : A → A → Bool) : Type 0 where
  pub irrefl : (a : A) → lt a a ≡ false
  pub asymm : (a b : A) → lt a b ≡ true → lt b a ≡ false
  pub neg_trans : (a b c : A) → lt a b ≡ false → lt b c ≡ false → lt a c ≡ false

module _ (lt : AbsoluteLocation → AbsoluteLocation → Bool) where
  -- `!largest || *largest < loc`
  raise : Option AbsoluteLocation → AbsoluteLocation → Option AbsoluteLocation
  raise none loc = some loc
  raise (some l) loc = if lt l loc then some loc else some l

  -- `record` in the source
  pub record_object : IngestCounters → ℕ → ℕ → IngestCounters
  unfolding raise
  record_object c group object =
      let (w, fresh) = admit c.recent_groups group in
      record {
        largest = raise c.largest (record { group = group; object = object });
        groups = if fresh then inc c.groups else c.groups;
        objects = inc c.objects;
        recent_groups = w;
      }

  pub record_objects : IngestCounters → List AbsoluteLocation → IngestCounters
  record_objects c [] = c
  record_objects c (l ∷ ls) = record_objects (record_object c l.group l.object) ls

-- The location is in the list.
abbrev pub Among : AbsoluteLocation → List AbsoluteLocation → Type 0
Among m [] = ⊥
Among m (l ∷ ls) = (m ≡ l) ⊎ Among m ls

-- How many groups are new to the three most recent ones, starting from a recency list.
abbrev pub fresh_count : List ℕ → List AbsoluteLocation → ℕ
fresh_count seen [] = 0
fresh_count seen (l ∷ ls) =
    (if contains (take size seen) l.group then 0 else 1) + fresh_count (touch l.group seen) ls

module _ (lt : AbsoluteLocation → AbsoluteLocation → Bool) where
  counts :
      (c : IngestCounters) (seen : List ℕ) (ls : List AbsoluteLocation)
      → IsValid c.recent_groups
      → live c.recent_groups ≡ take size seen
      → c.objects < u64_mod
      → c.groups < u64_mod
      → ((record_objects lt c ls).objects ≡ (c.objects + length ls) % u64_mod)
        × ((record_objects lt c ls).groups ≡ (c.groups + fresh_count seen ls) % u64_mod)
  unfolding record_objects record_object
  counts c seen [] v e p q = (omega arith, omega arith)
  counts c seen (l ∷ ls) v e p q =
      let (f, b, v') = live-admit c.recent_groups seen l.group v e in
      let (o, g) =
        counts (record_object lt c l.group l.object) (touch l.group seen) ls v' f (omega arith)
          (ground arith) in
      (
        o ∙ omega arith,
        g
            ∙ rw b (elim (Bool-cases (contains (take size seen) l.group)) [
              | inl h ↦ rw h (omega arith)
              | inr h ↦ rw h (omega arith)
            ]),
      )

  -- From new counters, `objects` counts the objects recorded and `groups` those whose group was
  -- not among the first three of the recency list at that time, both modulo 2^64.
  pub record_objects-counts :
      (ls : List AbsoluteLocation)
      → ((record_objects lt new ls).objects ≡ length ls % u64_mod)
        × ((record_objects lt new ls).groups ≡ fresh_count [] ls % u64_mod)
  unfolding new
  record_objects-counts ls =
      let (o, g) = counts new [] ls new-IsValid.0 new-IsValid.1 (omega arith) (omega arith) in
      (o ∙ omega arith, g ∙ omega arith)

  -- No location of the list is above the first argument.
  abbrev pub IsAbove : AbsoluteLocation → List AbsoluteLocation → Type 0
  IsAbove m [] = Unit {0}
  IsAbove m (l ∷ ls) = (lt m l ≡ false) × IsAbove m ls

  largest-IsAbove :
      IsStrictWeakOrder lt
      → (c : IngestCounters) (m : AbsoluteLocation) (ls : List AbsoluteLocation)
      → c.largest ≡ some m
      → (n : AbsoluteLocation) × ((record_objects lt c ls).largest ≡ some n)
        × (lt n m ≡ false)
        × IsAbove n ls
        × ((n ≡ m) ⊎ Among n ls)
  unfolding record_objects record_object raise
  largest-IsAbove o c m [] e = (m, e, o.irrefl m, tt, inl refl)
  largest-IsAbove o c m (l ∷ ls) e =
      let loc : AbsoluteLocation = record { group = l.group; object = l.object } in
      elim (Bool-cases (lt m loc)) [
        | inl h ↦
            let (n, p, q, r, s) =
              largest-IsAbove o (record_object lt c l.group l.object) loc ls
                (rw (e, raise, h) refl) in
            (n, p, o.neg_trans n loc m q (o.asymm m loc h), (q, r), inr s)
        | inr h ↦
            let (n, p, q, r, s) =
              largest-IsAbove o (record_object lt c l.group l.object) m ls
                (rw (e, raise, h) refl) in
            (n, p, q, (o.neg_trans n m loc q h, r), elim s [ inl x ↦ inl x | inr x ↦ inr (inr x) ])
      ]

  -- With a strict weak order on locations, new counters that recorded at least one location have a
  -- largest one: it is among those recorded, and none of them is above it.
  pub record_objects-largest :
      IsStrictWeakOrder lt
      → (l : AbsoluteLocation) (ls : List AbsoluteLocation)
      → (n : AbsoluteLocation) × ((record_objects lt new (l ∷ ls)).largest ≡ some n)
        × IsAbove n (l ∷ ls)
        × Among n (l ∷ ls)
  unfolding record_objects record_object raise new
  record_objects-largest o l ls =
      let (n, p, q, r, s) = largest-IsAbove o (record_object lt new l.group l.object) l ls refl in
      (n, p, (q, r), s)
