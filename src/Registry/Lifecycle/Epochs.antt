-- ===== src/Registry/Lifecycle/Epochs.antt =====
-- What an entry's epoch is for: src/SubscriptionRegistry.cpp against a publisher that replaces the
-- entry while the first subscriber waits for its upstream.
use moqx.Base.{
  ℕ, ◌+◌, ◌^◌, ◌≤◌, ◌<◌, ◌≡◌, subst, inl, inr, List, [], ◌∷◌, Option, none, some, Bool, nat_eq,
  ◌==◌, FullTrackName, FullTrackName_Eq, arith, Bool-cases, Option-cases,
}
use moqx.Base.Assoc
use moqx.Registry.{
  Ptr, ForwarderRef, FilterChainResult, RelaySubscription, Subscriptions, SubscriptionRegistry,
  UpstreamSubscribePending, erase, erase_if, erase_where, create_first, subscribe_at,
  get_or_create_from_subscribe, complete, complete_at, complete_subscription, fail_at,
  fail_and_remove, destroy_pending, create_from_publish,
}
use moqx.Registry.Views.{entry_view}
use moqx.Registry.Lifecycle.{
  get_if_owned, terminate_owned, terminate_at, on_publisher_terminated, remove, remove_if, Step,
  Steps,
}

-- Of the entries of one name and one epoch.
module _ (ftn : FullTrackName) (epoch : ℕ) (Q : ForwarderRef → Type 0) where
  abbrev pub Holds : FullTrackName → RelaySubscription → Type 0
  Holds k e = k ≡ ftn → e.epoch ≡ epoch → Q e.forwarder

  abbrev pub HoldsAll : Subscriptions → Type 0
  HoldsAll [] = Unit
  HoldsAll ((k, e) ∷ m) = Holds k e × HoldsAll m

  pub HoldsAll-find :
      (k : FullTrackName) (m : Subscriptions) (e : RelaySubscription)
      → HoldsAll m
      → Assoc.find k m ≡ some e
      → Holds k e
  HoldsAll-find k [] e h q = cc
  HoldsAll-find k ((j, d) ∷ m) e (h, hs) q = elim (Bool-cases (j == k)) [
    | inl b ↦
        let same : d ≡ e = cc (rw b at q) in
        let named : j ≡ k = (FullTrackName_Eq.is_equal_iff j k).0 b in
        subst (λ x. Holds x e) named (subst (λ x. Holds j x) same h)
    | inr b ↦ HoldsAll-find k m e hs (rw b at q)
  ]

  HoldsAll-insert :
      (k : FullTrackName) (e : RelaySubscription) (m : Subscriptions)
      → HoldsAll m
      → Holds k e
      → HoldsAll (Assoc.insert_or_assign k e m)
  HoldsAll-insert k e [] h i = (i, tt)
  HoldsAll-insert k e ((j, d) ∷ m) (h, hs) i = elim (Bool-cases (j == k)) [
    | inl b ↦ rw b (i, hs)
    | inr b ↦ rw b (h, HoldsAll-insert k e m hs i)
  ]

  HoldsAll-erase_where :
      (p : FullTrackName → RelaySubscription → Bool) (m : Subscriptions) (ts : List (Ptr × ℕ))
      → HoldsAll m
      → HoldsAll (erase_where p m ts).0
  unfolding erase_where
  HoldsAll-erase_where p [] ts h = h
  HoldsAll-erase_where p ((k, e) ∷ m) ts (h, hs) = elim (Bool-cases (p k e)) [
    | inl b ↦ rw b (HoldsAll-erase_where p m _ hs)
    | inr b ↦ rw b (h, HoldsAll-erase_where p m _ hs)
  ]

-- What a step keeps: the property, and the counter between the epoch and a bound.
module _ (ftn : FullTrackName) (epoch : ℕ) (Q : ForwarderRef → Type 0) where
  abbrev pub Kept : ℕ → SubscriptionRegistry → Type 0
  Kept n r =
      HoldsAll ftn epoch Q r.subscriptions × ((epoch ≤ r.epoch_counter) × (r.epoch_counter ≤ n))

  Kept-create_first :
      (n : ℕ) (r : SubscriptionRegistry) (k : FullTrackName) (f : Ptr) (ref : Option ForwarderRef)
      (chain : FilterChainResult) (now : ℕ)
      → n + 1 < 2 ^ 64
      → Kept n r
      → Kept (n + 1) (create_first r k f ref chain now).1
  unfolding create_first
  Kept-create_first n r k f none chain now b (h, (l, u)) = (h, (l, omega (arith, u)))
  Kept-create_first n r k f (some ref) chain now b (h, (l, u)) = (
    (λ i c. absurd (omega (arith, c, b, l, u)), h),
    (omega (arith, b, l, u), omega (arith, b, u)),
  )

  Kept-erase_if :
      (n : ℕ) (p : FullTrackName → RelaySubscription → Bool) (r : SubscriptionRegistry)
      → Kept n r
      → Kept n (erase_if p r)
  unfolding erase_if
  Kept-erase_if n p r (h, l) = (HoldsAll-erase_where ftn epoch Q p r.subscriptions r.targets h, l)

  Kept-complete_at :
      (n : ℕ) (r : SubscriptionRegistry) (k : FullTrackName) (e : ℕ) (handle : Option Ptr)
      (request_id : ℕ) (upstream publisher : Option Ptr) (d : RelaySubscription)
      → Assoc.find k r.subscriptions ≡ some d
      → Kept n r
      → Kept n (complete_at r k e handle request_id upstream publisher (some d)).1
  unfolding complete_at
  Kept-complete_at n r k e handle request_id upstream publisher d q (h, l) =
      elim (Bool-cases (nat_eq d.epoch e)) [
        | inl b ↦ rw b (
          HoldsAll-insert ftn epoch Q k _ r.subscriptions h
              (HoldsAll-find ftn epoch Q k r.subscriptions d h q),
          l,
        )
        | inr b ↦ rw b (h, l)
      ]

  Kept-complete :
      (n : ℕ) (r : SubscriptionRegistry) (k : FullTrackName) (e : ℕ) (handle : Option Ptr)
      (request_id : ℕ) (upstream publisher : Option Ptr)
      → Kept n r
      → Kept n (complete_subscription r k e handle request_id upstream publisher).1
  unfolding complete_subscription
  Kept-complete n r k e handle request_id upstream publisher h =
      elim (Option-cases (Assoc.find k r.subscriptions)) [
        | inl z ↦ rw (z, complete_at) h
        | inr (d, q) ↦ rw q (Kept-complete_at n r k e handle request_id upstream publisher d q h)
      ]

  Kept-fail_at :
      (n : ℕ) (r : SubscriptionRegistry) (k : FullTrackName) (e : ℕ) (o : Option RelaySubscription)
      → Kept n r
      → Kept n (fail_at r k e o)
  unfolding fail_at erase
  Kept-fail_at n r k e none h = h
  Kept-fail_at n r k e (some d) h = elim (Bool-cases (nat_eq d.epoch e)) [
    | inl b ↦ rw b (Kept-erase_if n (λ j d. j == k) r h)
    | inr b ↦ rw b h
  ]

  Kept-destroy :
      (n : ℕ) (r : SubscriptionRegistry) (p : UpstreamSubscribePending)
      → Kept n r
      → Kept n (destroy_pending r p)
  unfolding destroy_pending fail_and_remove
  Kept-destroy n r p h = elim (Bool-cases p.active) [
    | inl b ↦ rw b (Kept-fail_at n r p.ftn p.epoch (Assoc.find p.ftn r.subscriptions) h)
    | inr b ↦ rw b h
  ]

  Kept-terminate_owned :
      (n : ℕ) (r : SubscriptionRegistry) (k : FullTrackName) (d : RelaySubscription)
      (is_empty : Ptr → Bool) (f : Ptr) (ref : ForwarderRef) (r' : SubscriptionRegistry)
      → Assoc.find k r.subscriptions ≡ some d
      → terminate_owned r k d is_empty (some f) ≡ some (ref, r')
      → Kept n r
      → Kept n r'
  unfolding terminate_owned erase
  Kept-terminate_owned n r k d is_empty f ref r' q e (h, l) =
      let d1 = record d { handle = none; upstream = none; publisher = none } in
      let r1 = record r { subscriptions = Assoc.insert_or_assign k d1 r.subscriptions } in
      let cleared : Kept n r1 = (
        HoldsAll-insert ftn epoch Q k d1 r.subscriptions h
            (HoldsAll-find ftn epoch Q k r.subscriptions d h q),
        l,
      ) in
      elim (Bool-cases (is_empty f)) [
        | inl b ↦
            let same : erase r1 k ≡ r' = cc (rw b at e) in
            subst (Kept n) same (Kept-erase_if n (λ j d. j == k) r1 cleared)
        | inr b ↦ let same : r1 ≡ r' = cc (rw b at e) in subst (Kept n) same cleared
      ]

  Kept-terminate :
      (n : ℕ) (r : SubscriptionRegistry) (k : FullTrackName) (is_empty : Ptr → Bool)
      (ref : ForwarderRef) (r' : SubscriptionRegistry)
      → on_publisher_terminated r k is_empty ≡ some (ref, r')
      → Kept n r
      → Kept n r'
  unfolding on_publisher_terminated terminate_at
  Kept-terminate n r k is_empty ref r' e h = elim (Option-cases (Assoc.find k r.subscriptions)) [
    | inl z ↦ let same : r ≡ r' = cc (rw (z, terminate_at) at e) in subst (Kept n) same h
    | inr (d, q) ↦ elim (Option-cases (get_if_owned d.forwarder)) [
      | inl z ↦ cc (rw (q, terminate_at, z, terminate_owned) at e)
      | inr (f, o) ↦
          Kept-terminate_owned n r k d is_empty f ref r' q (rw (q, terminate_at, o) at e) h
    ]
  ]

  Kept-publish :
      (n : ℕ) (r : SubscriptionRegistry) (k : FullTrackName) (f : ForwarderRef)
      (session publisher : Option Ptr) (request_id : ℕ) (handle : Option Ptr)
      (chain : FilterChainResult) (filter : Ptr) (now : ℕ)
      → n + 1 < 2 ^ 64
      → Kept n r
      → Kept
          (n + 1)
          (create_from_publish r k f session publisher request_id handle chain filter now).1
  unfolding create_from_publish erase erase_if
  Kept-publish n r k f session publisher request_id handle chain filter now b h =
      let (h', (l, u)) = Kept-erase_if n (λ j d. j == k) r h in
      (
        (λ i c. absurd (omega (arith, c, b, l, u)), h'),
        (omega (arith, b, l, u), omega (arith, b, u)),
      )

  Kept-more : (n : ℕ) (r : SubscriptionRegistry) → Kept n r → Kept (n + 1) r
  Kept-more n r (h, (l, u)) = (h, (l, omega (arith, u)))

  Kept-Step :
      (n : ℕ) (r s : SubscriptionRegistry) → Step r s → n + 1 < 2 ^ 64 → Kept n r → Kept (n + 1) s
  unfolding get_or_create_from_subscribe subscribe_at complete remove remove_if erase
  Kept-Step n _ _ (Step.subscribes r k f ref chain now) b h =
      elim (Option-cases (Assoc.find k r.subscriptions)) [
        | inl z ↦ rw z (Kept-create_first n r k f ref chain now b h)
        | inr (d, q) ↦ rw q (Kept-more n r h)
      ]
  Kept-Step n _ _ (Step.completes r p handle request_id upstream publisher) b h =
      Kept-more n (complete_subscription r p.ftn p.epoch handle request_id upstream publisher).1
        (Kept-complete n r p.ftn p.epoch handle request_id upstream publisher h)
  Kept-Step n _ _ (Step.abandons r p) b h = Kept-more n (destroy_pending r p) (Kept-destroy n r p h)
  Kept-Step n _ _ (Step.publishes r k f session publisher request_id handle chain filter now) b h =
      Kept-publish n r k f session publisher request_id handle chain filter now b h
  Kept-Step n _ _ (Step.terminates r s k is_empty ref e) b h =
      Kept-more n s (Kept-terminate n r k is_empty ref s e h)
  Kept-Step n _ _ (Step.removes r k) b h =
      Kept-more n (erase_if (λ j d. j == k) r) (Kept-erase_if n (λ j d. j == k) r h)
  Kept-Step n _ _ (Step.sweeps r counters p) b h =
      Kept-more n (erase_if (λ k e. p (entry_view counters k e)) r)
        (Kept-erase_if n (λ k e. p (entry_view counters k e)) r h)

  pub Kept-Steps :
      (n k : ℕ) (r s : SubscriptionRegistry)
      → Steps k r s
      → n + k < 2 ^ 64
      → Kept n r
      → Kept (n + k) s
  Kept-Steps n _ _ _ (Steps.stay r) b h = subst (λ m. Kept m r) (omega arith) h
  Kept-Steps n _ _ _ (Steps.then_step {n = k} {r = r} {s = s} {t = t} x xs) b h =
      subst (λ m. Kept m t) (omega arith)
        (Kept-Steps (n + 1) k s t xs (omega (arith, b)) (Kept-Step n r s x (omega (arith, b)) h))
