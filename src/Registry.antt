-- ===== src/Registry.antt =====
-- src/SubscriptionRegistry.h and src/SubscriptionRegistry.cpp, on the relay executor. A shared_ptr
-- to an object of moxygen or of a filter chain is the object's identity, a number, and a null one
-- is `none`. `targets` is what setActivityTarget has stored: the filters that point into an entry,
-- with the entry's epoch.
pub mod Views
pub mod Lifecycle
use moqx.Base.{
  ℕ, ◌+◌, ◌%◌, ◌^◌, List, [], ◌∷◌, map, Option, none, some, Bool, true, false, ◌&&◌, ◌||◌, not,
  if◌then◌else◌, nat_eq, ◌==◌, ℕ_Eq, FullTrackName, FullTrackName_Eq, keep,
}
use moqx.Base.Assoc

abbrev pub Ptr : Type 0
Ptr = ℕ

-- ForwarderRef: empty, owned here, or owned by another executor.
pub data ForwarderRef : Type 0 where
  empty_ref : ForwarderRef
  owned remote : Ptr → ForwarderRef

-- SharedPromise<Unit>, as far as the registry sets and reads it.
pub data PromiseState : Type 0 where
  pending fulfilled : PromiseState

pub record FilterChainResult : Type 0 where
  pub consumer : Ptr
  pub top_n_filter : Option Ptr
  pub chain_head : Ptr
  pub ingest : Option Ptr

pub record RelaySubscription : Type 0 where
  pub forwarder : ForwarderRef
  pub epoch : ℕ
  pub upstream : Option Ptr
  pub publisher : Option Ptr
  pub request_id : ℕ
  pub handle : Option Ptr
  pub promise : PromiseState
  pub is_publish : Bool
  pub top_n_filter : Option Ptr
  pub chain_head : Option Ptr
  pub last_object_time : ℕ
  pub ingest : Option Ptr

abbrev pub Subscriptions : Type 0
Subscriptions = List (FullTrackName × RelaySubscription)

pub record SubscriptionRegistry : Type 0 where
  pub subscriptions : Subscriptions
  pub epoch_counter : ℕ
  pub targets : List (Ptr × ℕ)

-- The constructor of an entry; `now` is the reading of the clock.
new_entry : ForwarderRef → Option Ptr → ℕ → ℕ → RelaySubscription
new_entry f u e now = record {
  forwarder = f;
  epoch = e;
  upstream = u;
  publisher = none;
  request_id = 0;
  handle = none;
  promise = pending;
  is_publish = false;
  top_n_filter = none;
  chain_head = none;
  last_object_time = now;
  ingest = none;
}

-- `setActivityTarget(nullptr)`
clear_target : Option Ptr → List (Ptr × ℕ) → List (Ptr × ℕ)
clear_target none targets = targets
clear_target (some f) targets = Assoc.erase f targets

-- The entries that pass a test are erased, and their destructors run.
pub erase_where :
    (FullTrackName → RelaySubscription → Bool)
    → Subscriptions
    → List (Ptr × ℕ)
    → Subscriptions × List (Ptr × ℕ)
unfolding clear_target
erase_where p [] targets = ([], targets)
erase_where p ((k, e) ∷ m) targets =
    let (m', t') =
      erase_where p m (if p k e then clear_target e.top_n_filter targets else targets) in
    (if p k e then m' else (k, e) ∷ m', t')

erase_if : (FullTrackName → RelaySubscription → Bool) → SubscriptionRegistry → SubscriptionRegistry
erase_if p r =
    let (m, t) = erase_where p r.subscriptions r.targets in
    record r { subscriptions = m; targets = t }

-- `subscriptions_.erase` of a name
erase : SubscriptionRegistry → FullTrackName → SubscriptionRegistry
erase r ftn = erase_if (λ k e. k == ftn) r

next_epoch : SubscriptionRegistry → ℕ
next_epoch r = (r.epoch_counter + 1) % 2 ^ 64

pub record UpstreamSubscribePending : Type 0 where
  pub ftn : FullTrackName
  pub epoch : ℕ
  pub active : Bool

pub data SubscribeResult : Type 0 where
  first_subscriber : Ptr → Ptr → UpstreamSubscribePending → SubscribeResult
  -- awaits the entry's promise
  subsequent_subscriber : PromiseState → SubscribeResult
  no_publisher : SubscribeResult

-- `forwarder` is the new MoQForwarder, `ref` what refMaker makes of it, and `chain` what
-- chainBuilder builds.
create_first :
    SubscriptionRegistry
    → FullTrackName
    → Ptr
    → Option ForwarderRef
    → FilterChainResult
    → ℕ
    → SubscribeResult × SubscriptionRegistry
unfolding next_epoch new_entry
create_first r ftn forwarder none chain now = (no_publisher, r)
create_first r ftn forwarder (some ref) chain now =
    let epoch = next_epoch r in
    let entry = new_entry ref none epoch now in
    (
      first_subscriber forwarder chain.consumer
          (record { ftn = ftn; epoch = epoch; active = true }),
      record r {
        epoch_counter = epoch;
        subscriptions =
            (
              ftn,
              record entry {
                top_n_filter = chain.top_n_filter;
                chain_head = some chain.chain_head;
                ingest = chain.ingest;
              },
            )
            ∷ r.subscriptions;
      },
    )

subscribe_at :
    SubscriptionRegistry
    → FullTrackName
    → Ptr
    → Option ForwarderRef
    → FilterChainResult
    → ℕ
    → Option RelaySubscription
    → SubscribeResult × SubscriptionRegistry
subscribe_at r ftn forwarder ref chain now none = create_first r ftn forwarder ref chain now
subscribe_at r ftn forwarder ref chain now (some entry) = (subsequent_subscriber entry.promise, r)

pub get_or_create_from_subscribe :
    SubscriptionRegistry
    → FullTrackName
    → Ptr
    → Option ForwarderRef
    → FilterChainResult
    → ℕ
    → SubscribeResult × SubscriptionRegistry
get_or_create_from_subscribe r ftn forwarder ref chain now =
    subscribe_at r ftn forwarder ref chain now (Assoc.find ftn r.subscriptions)

-- awaitSubsequent once the future is ready: it looks the entry up again, and fails if it is gone.
pub await_subsequent : SubscriptionRegistry → FullTrackName → Option ForwarderRef
await_subsequent r ftn = elim (Assoc.find ftn r.subscriptions) [
  | none ↦ none
  | some entry ↦ some entry.forwarder
]

complete_at :
    SubscriptionRegistry
    → FullTrackName
    → ℕ
    → Option Ptr
    → ℕ
    → Option Ptr
    → Option Ptr
    → Option RelaySubscription
    → Bool × SubscriptionRegistry
complete_at r ftn epoch handle request_id upstream publisher none = (false, r)
complete_at r ftn epoch handle request_id upstream publisher (some entry) =
    if not (nat_eq entry.epoch epoch) then (false, r) else (
      true,
      record r {
        subscriptions =
            Assoc.insert_or_assign ftn
              (record entry {
                handle = handle;
                request_id = request_id;
                upstream = upstream;
                publisher = publisher;
                promise = fulfilled;
              })
              r.subscriptions;
      },
    )

-- completeSubscription. A promise that is set a second time throws, which is left out: a pending is
-- completed once.
pub complete_subscription :
    SubscriptionRegistry
    → FullTrackName
    → ℕ
    → Option Ptr
    → ℕ
    → Option Ptr
    → Option Ptr
    → Bool × SubscriptionRegistry
unfolding complete_at
complete_subscription r ftn epoch handle request_id upstream publisher =
    complete_at r ftn epoch handle request_id upstream publisher (Assoc.find ftn r.subscriptions)

fail_at : SubscriptionRegistry → FullTrackName → ℕ → Option RelaySubscription → SubscriptionRegistry
fail_at r ftn epoch none = r
fail_at r ftn epoch (some entry) = if nat_eq entry.epoch epoch then erase r ftn else r

-- failAndRemove; those who await the promise of the entry get the exception.
pub fail_and_remove : SubscriptionRegistry → FullTrackName → ℕ → SubscriptionRegistry
unfolding fail_at
fail_and_remove r ftn epoch = fail_at r ftn epoch (Assoc.find ftn r.subscriptions)

-- UpstreamSubscribePending::complete, and its destructor
pub complete :
    SubscriptionRegistry
    → UpstreamSubscribePending
    → Option Ptr
    → ℕ
    → Option Ptr
    → Option Ptr
    → Bool × (UpstreamSubscribePending × SubscriptionRegistry)
complete r p handle request_id upstream publisher =
    let (done, r') = complete_subscription r p.ftn p.epoch handle request_id upstream publisher in
    (done, (record p { active = false }, r'))

pub destroy_pending : SubscriptionRegistry → UpstreamSubscribePending → SubscriptionRegistry
destroy_pending r p = if p.active then fail_and_remove r p.ftn p.epoch else r

pub record Evicted : Type 0 where
  pub forwarder : ForwarderRef
  pub handle : Option Ptr
  -- the old upstream session, whose executor tears the handle down
  pub publisher_session : Option Ptr

pub record PublishEntry : Type 0 where
  pub consumer : Ptr
  pub evicted : Option Evicted

evict : Option RelaySubscription → Option Evicted
evict none = none
evict (some e) =
    some (record { forwarder = e.forwarder; handle = e.handle; publisher_session = e.upstream })

-- The chain of a publish always has a TopNFilter, `filter`.
pub create_from_publish :
    SubscriptionRegistry
    → FullTrackName
    → ForwarderRef
    → Option Ptr
    → Option Ptr
    → ℕ
    → Option Ptr
    → FilterChainResult
    → Ptr
    → ℕ
    → PublishEntry × SubscriptionRegistry
unfolding next_epoch new_entry evict
create_from_publish r ftn forwarder session publisher request_id handle chain filter now =
    let evicted = evict (Assoc.find ftn r.subscriptions) in
    let r' = erase r ftn in
    let epoch = next_epoch r' in
    let entry = new_entry forwarder session epoch now in
    (
      record { consumer = chain.consumer; evicted = evicted },
      record r' {
        epoch_counter = epoch;
        subscriptions =
            (
              ftn,
              record entry {
                promise = fulfilled;
                request_id = request_id;
                handle = handle;
                publisher = publisher;
                is_publish = true;
                top_n_filter = some filter;
                chain_head = some chain.chain_head;
                ingest = chain.ingest;
              },
            )
            ∷ r'.subscriptions;
        targets = Assoc.insert_or_assign filter epoch r'.targets;
      },
    )
