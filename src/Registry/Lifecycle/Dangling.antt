-- ===== src/Registry/Lifecycle/Dangling.antt =====
-- No operation of src/SubscriptionRegistry.cpp leaves a TopNFilter pointing at an entry that is gone.
use moqx.Base.{
  ℕ, ◌≡◌, subst, refl, sym, ap, inl, inr, Option, none, some, Bool, nat_eq, ◌==◌, ℕ_Eq,
  FullTrackName, FullTrackName_Eq, Bool-cases, Option-cases,
}
use moqx.Base.Assoc
use moqx.Registry.{
  Ptr, ForwarderRef, FilterChainResult, RelaySubscription, SubscriptionRegistry, new_entry,
  next_epoch, UpstreamSubscribePending, erase, erase_if, create_first, subscribe_at,
  get_or_create_from_subscribe, complete, complete_at, complete_subscription, fail_at,
  fail_and_remove, destroy_pending, create_from_publish,
}
use moqx.Registry.Views.{entry_view}
use moqx.Registry.Lifecycle.{
  get_if_owned, terminate_owned, terminate_at, on_publisher_terminated, remove, remove_if, Step,
  Steps,
}
use moqx.Registry.Lifecycle.Targets.{
  NoneDangles, erase_where-Lives, erase_where-Among, insert-Lives, insert-Among,
}

NoneDangles-erase_if :
    (p : FullTrackName → RelaySubscription → Bool) (r : SubscriptionRegistry)
    → NoneDangles r
    → NoneDangles (erase_if p r)
unfolding erase_if
NoneDangles-erase_if p r h t i =
    erase_where-Lives p r.subscriptions r.targets t i
      (h t (erase_where-Among p r.subscriptions r.targets t i))

NoneDangles-insert :
    (k : FullTrackName) (d d' : RelaySubscription) (r : SubscriptionRegistry)
    → Assoc.find k r.subscriptions ≡ some d
    → d'.top_n_filter ≡ d.top_n_filter
    → d'.epoch ≡ d.epoch
    → NoneDangles r
    → NoneDangles (record r { subscriptions = Assoc.insert_or_assign k d' r.subscriptions })
NoneDangles-insert k d d' r q a c h t i = insert-Lives k d d' r.subscriptions t q a c (h t i)

NoneDangles-create_first :
    (r : SubscriptionRegistry) (k : FullTrackName) (f : Ptr) (ref : Option ForwarderRef)
    (chain : FilterChainResult) (now : ℕ)
    → NoneDangles r
    → NoneDangles (create_first r k f ref chain now).1
unfolding create_first
NoneDangles-create_first r k f none chain now h = h
NoneDangles-create_first r k f (some ref) chain now h = λ t i. inr (h t i)

NoneDangles-complete :
    (r : SubscriptionRegistry) (k : FullTrackName) (e : ℕ) (handle : Option Ptr) (request_id : ℕ)
    (upstream publisher : Option Ptr)
    → NoneDangles r
    → NoneDangles (complete_subscription r k e handle request_id upstream publisher).1
unfolding complete_subscription complete_at
NoneDangles-complete r k e handle request_id upstream publisher h =
    elim (Option-cases (Assoc.find k r.subscriptions)) [
      | inl z ↦ rw z h
      | inr (d, q) ↦ elim (Bool-cases (nat_eq d.epoch e)) [
        | inl b ↦ rw (q, b) (NoneDangles-insert k d _ r q refl refl h)
        | inr b ↦ rw (q, b) h
      ]
    ]

NoneDangles-fail_at :
    (r : SubscriptionRegistry) (k : FullTrackName) (e : ℕ) (o : Option RelaySubscription)
    → NoneDangles r
    → NoneDangles (fail_at r k e o)
unfolding fail_at erase
NoneDangles-fail_at r k e none h = h
NoneDangles-fail_at r k e (some d) h = elim (Bool-cases (nat_eq d.epoch e)) [
  | inl b ↦ rw b (NoneDangles-erase_if (λ j d. j == k) r h)
  | inr b ↦ rw b h
]

NoneDangles-destroy :
    (r : SubscriptionRegistry) (p : UpstreamSubscribePending)
    → NoneDangles r
    → NoneDangles (destroy_pending r p)
unfolding destroy_pending fail_and_remove
NoneDangles-destroy r p h = elim (Bool-cases p.active) [
  | inl b ↦ rw b (NoneDangles-fail_at r p.ftn p.epoch (Assoc.find p.ftn r.subscriptions) h)
  | inr b ↦ rw b h
]

NoneDangles-publish :
    (r : SubscriptionRegistry) (k : FullTrackName) (f : ForwarderRef)
    (session publisher : Option Ptr) (request_id : ℕ) (handle : Option Ptr)
    (chain : FilterChainResult) (filter : Ptr) (now : ℕ)
    → NoneDangles r
    → NoneDangles (create_from_publish r k f session publisher request_id handle chain filter now).1
unfolding create_from_publish erase new_entry
NoneDangles-publish r k f session publisher request_id handle chain filter now h t i =
    let r' = erase r k in
    elim (insert-Among filter (next_epoch r') t r'.targets i) [
      | inl q ↦ inl (ap (λ x. some x.0) (sym q), ap (λ x. x.1) (sym q))
      | inr j ↦ inr (NoneDangles-erase_if (λ j d. j == k) r h t j)
    ]

NoneDangles-terminate :
    (r : SubscriptionRegistry) (k : FullTrackName) (is_empty : Ptr → Bool) (ref : ForwarderRef)
    (r' : SubscriptionRegistry)
    → on_publisher_terminated r k is_empty ≡ some (ref, r')
    → NoneDangles r
    → NoneDangles r'
unfolding on_publisher_terminated terminate_at terminate_owned erase
NoneDangles-terminate r k is_empty ref r' e h = elim (Option-cases (Assoc.find k r.subscriptions)) [
  | inl z ↦ let same : r ≡ r' = cc (rw z at e) in subst NoneDangles same h
  | inr (d, q) ↦ elim (Option-cases (get_if_owned d.forwarder)) [
    | inl z ↦ cc (rw (q, z) at e)
    | inr (f, o) ↦
        let d1 = record d { handle = none; upstream = none; publisher = none } in
        let r1 = record r { subscriptions = Assoc.insert_or_assign k d1 r.subscriptions } in
        let h1 : NoneDangles r1 = NoneDangles-insert k d d1 r q refl refl h in
        elim (Bool-cases (is_empty f)) [
          | inl b ↦
              let same : erase r1 k ≡ r' = cc (rw (q, o, b) at e) in
              subst NoneDangles same (NoneDangles-erase_if (λ j d. j == k) r1 h1)
          | inr b ↦ let same : r1 ≡ r' = cc (rw (q, o, b) at e) in subst NoneDangles same h1
        ]
  ]
]

NoneDangles-Step : (r s : SubscriptionRegistry) → Step r s → NoneDangles r → NoneDangles s
unfolding get_or_create_from_subscribe subscribe_at complete remove remove_if erase
NoneDangles-Step _ _ (Step.subscribes r k f ref chain now) h =
    elim (Option-cases (Assoc.find k r.subscriptions)) [
      | inl z ↦ rw z (NoneDangles-create_first r k f ref chain now h)
      | inr (d, q) ↦ rw q h
    ]
NoneDangles-Step _ _ (Step.completes r p handle request_id upstream publisher) h =
    NoneDangles-complete r p.ftn p.epoch handle request_id upstream publisher h
NoneDangles-Step _ _ (Step.abandons r p) h = NoneDangles-destroy r p h
NoneDangles-Step _ _ (Step.publishes r k f session publisher request_id handle chain filter now) h =
    NoneDangles-publish r k f session publisher request_id handle chain filter now h
NoneDangles-Step _ _ (Step.terminates r s k is_empty ref e) h =
    NoneDangles-terminate r k is_empty ref s e h
NoneDangles-Step _ _ (Step.removes r k) h = NoneDangles-erase_if (λ j d. j == k) r h
NoneDangles-Step _ _ (Step.sweeps r counters p) h =
    NoneDangles-erase_if (λ k e. p (entry_view counters k e)) r h

-- Every activity target that a TopNFilter holds points into an entry that is still in the map, if
-- this is so at the start, after any number of the registry's operations in any order.
pub Steps-NoneDangles :
    (n : ℕ) (r s : SubscriptionRegistry) → Steps n r s → NoneDangles r → NoneDangles s
Steps-NoneDangles _ _ _ (Steps.stay r) h = h
Steps-NoneDangles _ _ _ (Steps.then_step {n = n} {r = r} {s = s} {t = t} x xs) h =
    Steps-NoneDangles n s t xs (NoneDangles-Step r s x h)
