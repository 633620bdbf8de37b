-- ===== src/Registry/Lifecycle/Stale.antt =====
-- A first subscriber's UpstreamSubscribePending against whatever else src/SubscriptionRegistry.cpp
-- does while its upstream subscribe is in flight.
use moqx.Base.{
  ℕ, ◌+◌, ◌^◌, ◌≤◌, ◌<◌, ◌≡◌, subst, refl, ◌∙◌, inl, inr, List, [], ◌∷◌, Option, none, some, true,
  false, nat_eq, nat_eq_iff, ◌==◌, ==-self, FullTrackName, FullTrackName_Eq, arith, Bool-cases,
  Option-cases,
}
use moqx.Base.Assoc
use moqx.Registry.{
  Ptr, ForwarderRef, FilterChainResult, Subscriptions, SubscriptionRegistry, fulfilled, next_epoch,
  first_subscriber, UpstreamSubscribePending, erase, erase_if, erase_where, create_first,
  subscribe_at, get_or_create_from_subscribe, complete, complete_at, complete_subscription, fail_at,
  fail_and_remove, destroy_pending, create_from_publish,
}
use moqx.Registry.Views.{get_forwarder_ref, get_forwarder_ref-find}
use moqx.Registry.Lifecycle.{Steps}
use moqx.Registry.Lifecycle.Epochs.{HoldsAll, HoldsAll-find, Kept, Kept-Steps}

module _ (ftn : FullTrackName) (epoch : ℕ) (Q : ForwarderRef → Type 0) where
  HoldsAll-erased :
      (m : Subscriptions) (ts : List (Ptr × ℕ))
      → HoldsAll ftn epoch Q (erase_where (λ k e. k == ftn) m ts).0
  unfolding erase_where
  HoldsAll-erased [] ts = tt
  HoldsAll-erased ((k, e) ∷ m) ts = elim (Bool-cases (k == ftn)) [
    | inl b ↦ rw b (HoldsAll-erased m _)
    | inr b ↦ rw b ((λ i c. cc (b, (FullTrackName_Eq.is_equal_iff k ftn).1 i)), HoldsAll-erased m _)
  ]

  HoldsAll-absent : (m : Subscriptions) → Assoc.find ftn m ≡ none → HoldsAll ftn epoch Q m
  HoldsAll-absent [] z = tt
  HoldsAll-absent ((k, e) ∷ m) z = elim (Bool-cases (k == ftn)) [
    | inl b ↦ cc (rw b at z)
    | inr b ↦
        ((λ i c. cc (b, (FullTrackName_Eq.is_equal_iff k ftn).1 i)), HoldsAll-absent m (rw b at z))
  ]

abbrev pub Stale : UpstreamSubscribePending → SubscriptionRegistry → Type 0
Stale p s =
    ((handle : Option Ptr) (request_id : ℕ) (upstream publisher : Option Ptr)
      → complete s p handle request_id upstream publisher
        ≡ (false, (record p { active = false }, s)))
    × (destroy_pending s p ≡ s)

Stale-lem :
    (n : ℕ) (p : UpstreamSubscribePending) (s : SubscriptionRegistry)
    → Kept p.ftn p.epoch (λ f. ⊥) n s
    → Stale p s
unfolding complete complete_subscription destroy_pending fail_and_remove
Stale-lem n p s (h, _) = elim (Option-cases (Assoc.find p.ftn s.subscriptions)) [
  | inl z ↦ (
    (λ handle request_id upstream publisher. rw (z, complete_at)),
    rw (z, fail_at) (ground arith),
  )
  | inr (d, q) ↦ elim (Bool-cases (nat_eq d.epoch p.epoch)) [
    | inl b ↦ absurd (
        HoldsAll-find p.ftn p.epoch (λ f. ⊥) p.ftn s.subscriptions d h q refl
          ((nat_eq_iff d.epoch p.epoch).0 b))
    | inr b ↦ (
      (λ handle request_id upstream publisher. rw (q, complete_at, b)),
      rw (q, fail_at, b) (ground arith),
    )
  ]
]

-- Once a publisher has replaced the entry of a pending subscribe, then whatever the registry does
-- in fewer steps than the epoch counter has left, completing the pending reports failure, its
-- destructor does nothing, and neither touches the registry.
pub publish-Stale :
    (n : ℕ) (r s : SubscriptionRegistry) (p : UpstreamSubscribePending) (f : ForwarderRef)
    (session publisher : Option Ptr) (request_id : ℕ) (handle : Option Ptr)
    (chain : FilterChainResult) (filter : Ptr) (now : ℕ)
    → p.epoch ≤ r.epoch_counter
    → r.epoch_counter + 1 + n < 2 ^ 64
    → Steps n
        (create_from_publish r p.ftn f session publisher request_id handle chain filter now).1
        s
    → Stale p s
unfolding create_from_publish erase erase_if
publish-Stale n r s p f session publisher request_id handle chain filter now l b x =
    let start : Kept p.ftn p.epoch (λ f. ⊥) (r.epoch_counter + 1)
        (create_from_publish r p.ftn f session publisher request_id handle chain filter now).1 =
      (
        (
          (λ i c. omega (arith, c, b, l)),
          HoldsAll-erased p.ftn p.epoch (λ f. ⊥) r.subscriptions r.targets,
        ),
        (omega (arith, b, l), omega (arith, b)),
      ) in
    Stale-lem (r.epoch_counter + 1 + n) p s
      (Kept-Steps p.ftn p.epoch (λ f. ⊥) (r.epoch_counter + 1) n _ s x b start)

complete-Own :
    (n : ℕ) (p : UpstreamSubscribePending) (s : SubscriptionRegistry) (ref : ForwarderRef)
    (handle : Option Ptr) (request_id : ℕ) (upstream publisher : Option Ptr)
    → Kept p.ftn p.epoch (λ f. f ≡ ref) n s
    → (complete s p handle request_id upstream publisher).0 ≡ true
    → get_forwarder_ref (complete s p handle request_id upstream publisher).1.1 p.ftn ≡ ref
unfolding complete complete_subscription
complete-Own n p s ref handle request_id upstream publisher (h, _) e =
    elim (Option-cases (Assoc.find p.ftn s.subscriptions)) [
      | inl z ↦ cc (rw (z, complete_at) at e)
      | inr (d, q) ↦ elim (Bool-cases (nat_eq d.epoch p.epoch)) [
        | inr b ↦ cc (rw (q, complete_at, b) at e)
        | inl b ↦
            let own : d.forwarder ≡ ref =
              HoldsAll-find p.ftn p.epoch (λ f. f ≡ ref) p.ftn s.subscriptions d h q refl
                ((nat_eq_iff d.epoch p.epoch).0 b) in
            let d' = record d {
              handle = handle;
              request_id = request_id;
              upstream = upstream;
              publisher = publisher;
              promise = fulfilled;
            } in
            let s' = record s { subscriptions = Assoc.insert_or_assign p.ftn d' s.subscriptions } in
            rw (q, complete_at, b)
              (get_forwarder_ref-find s' p.ftn d' (
                  rw (Assoc.find-insert_or_assign p.ftn p.ftn d' s.subscriptions, ==-self p.ftn)
                    refl)
                ∙ own)
      ]
    ]

-- The pending of a first subscriber completes only its own entry: after whatever the registry does
-- in fewer steps than the epoch counter has left, if completing reports success, then the entry of
-- its name holds the forwarder that its own refMaker made.
pub complete-own_entry :
    (n : ℕ) (r r1 s : SubscriptionRegistry) (ftn : FullTrackName) (f consumer : Ptr)
    (ref : ForwarderRef) (chain : FilterChainResult) (now : ℕ) (p : UpstreamSubscribePending)
    (handle : Option Ptr) (request_id : ℕ) (upstream publisher : Option Ptr)
    → get_or_create_from_subscribe r ftn f (some ref) chain now
      ≡ (first_subscriber f consumer p, r1)
    → r.epoch_counter + 1 + n < 2 ^ 64
    → Steps n r1 s
    → (complete s p handle request_id upstream publisher).0 ≡ true
    → get_forwarder_ref (complete s p handle request_id upstream publisher).1.1 p.ftn ≡ ref
unfolding get_or_create_from_subscribe subscribe_at create_first next_epoch
complete-own_entry n r r1 s ftn f consumer ref chain now p handle request_id upstream publisher e b
      x t =
    elim (Option-cases (Assoc.find ftn r.subscriptions)) [
      | inr (d, q) ↦ cc (rw q at e)
      | inl z ↦
          let p0 : UpstreamSubscribePending = record {
            ftn = ftn;
            epoch = next_epoch r;
            active = true;
          } in
          let start : Kept p0.ftn p0.epoch (λ g. g ≡ ref) (r.epoch_counter + 1)
              (create_first r ftn f (some ref) chain now).1 =
            (
              ((λ i c. refl), HoldsAll-absent ftn (next_epoch r) (λ g. g ≡ ref) r.subscriptions z),
              (omega arith, omega (arith, b)),
            ) in
          let same : (create_first r ftn f (some ref) chain now).1 ≡ r1 = cc (rw z at e) in
          let made : p0 ≡ p = cc (rw z at e) in
          let start1 =
            subst (λ q. Kept q.ftn q.epoch (λ g. g ≡ ref) (r.epoch_counter + 1) r1) made
              (subst (Kept p0.ftn p0.epoch (λ g. g ≡ ref) (r.epoch_counter + 1)) same start) in
          complete-Own (r.epoch_counter + 1 + n) p s ref handle request_id upstream publisher
            (Kept-Steps p.ftn p.epoch (λ g. g ≡ ref) (r.epoch_counter + 1) n r1 s x b start1) t
    ]
