-- ===== src/Registry/Lifecycle.antt =====
-- The lifecycle transitions of src/SubscriptionRegistry.cpp, and the steps of the registry: any of
-- its operations, in any order, each whole on the relay executor.
pub mod Epochs
pub mod Stale
pub mod Targets
pub mod Dangling
pub mod Examples
use moqx.Base.{
  ℕ, zero, suc, ◌≡◌, Option, none, some, Bool, true, false, if◌then◌else◌, FullTrackName,
  FullTrackName_Eq,
}
use moqx.Base.Assoc
use moqx.Stats.Ingest.{IngestCounters}
use moqx.Registry.{
  Ptr, ForwarderRef, empty_ref, owned, remote, FilterChainResult, RelaySubscription,
  SubscriptionRegistry, UpstreamSubscribePending, erase, erase_if, get_or_create_from_subscribe,
  complete, destroy_pending, create_from_publish,
}
use moqx.Registry.Views.{EntryView, entry_view}

-- ForwarderRef::getIfOwned
get_if_owned : ForwarderRef → Option Ptr
get_if_owned (owned f) = some f
get_if_owned empty_ref = none
get_if_owned (remote f) = none

terminate_owned :
    SubscriptionRegistry
    → FullTrackName
    → RelaySubscription
    → (Ptr → Bool)
    → Option Ptr
    → Option (ForwarderRef × SubscriptionRegistry)
terminate_owned r ftn entry is_empty none = none
terminate_owned r ftn entry is_empty (some f) =
    let entry' = record entry { handle = none; upstream = none; publisher = none } in
    let r' = record r { subscriptions = Assoc.insert_or_assign ftn entry' r.subscriptions } in
    some (if is_empty f then (empty_ref, erase r' ftn) else (entry.forwarder, r'))

terminate_at :
    SubscriptionRegistry
    → FullTrackName
    → (Ptr → Bool)
    → Option RelaySubscription
    → Option (ForwarderRef × SubscriptionRegistry)
unfolding terminate_owned
terminate_at r ftn is_empty none = some (empty_ref, r)
terminate_at r ftn is_empty (some entry) =
    terminate_owned r ftn entry is_empty (get_if_owned entry.forwarder)

-- onPublisherTerminated; `none` is the failed XCHECK, which aborts, and `is_empty` MoQForwarder's
-- empty.
pub on_publisher_terminated :
    SubscriptionRegistry
    → FullTrackName
    → (Ptr → Bool)
    → Option (ForwarderRef × SubscriptionRegistry)
unfolding terminate_at
on_publisher_terminated r ftn is_empty =
    terminate_at r ftn is_empty (Assoc.find ftn r.subscriptions)

pub remove : SubscriptionRegistry → FullTrackName → SubscriptionRegistry
remove r ftn = erase r ftn

pub remove_if :
    (Ptr → IngestCounters) → (EntryView → Bool) → SubscriptionRegistry → SubscriptionRegistry
remove_if counters p r = erase_if (λ k e. p (entry_view counters k e)) r

pub data Step : SubscriptionRegistry → SubscriptionRegistry → Type 0 where
  subscribes :
      (r : SubscriptionRegistry) (ftn : FullTrackName) (f : Ptr) (ref : Option ForwarderRef)
      (chain : FilterChainResult) (now : ℕ)
      → Step r (get_or_create_from_subscribe r ftn f ref chain now).1
  completes :
      (r : SubscriptionRegistry) (p : UpstreamSubscribePending) (handle : Option Ptr)
      (request_id : ℕ) (upstream publisher : Option Ptr)
      → Step r (complete r p handle request_id upstream publisher).1.1
  abandons :
      (r : SubscriptionRegistry) (p : UpstreamSubscribePending) → Step r (destroy_pending r p)
  publishes :
      (r : SubscriptionRegistry) (ftn : FullTrackName) (f : ForwarderRef)
      (session publisher : Option Ptr) (request_id : ℕ) (handle : Option Ptr)
      (chain : FilterChainResult) (filter : Ptr) (now : ℕ)
      → Step r (create_from_publish r ftn f session publisher request_id handle chain filter now).1
  terminates :
      (r r' : SubscriptionRegistry) (ftn : FullTrackName) (is_empty : Ptr → Bool)
      (ref : ForwarderRef)
      → on_publisher_terminated r ftn is_empty ≡ some (ref, r')
      → Step r r'
  removes : (r : SubscriptionRegistry) (ftn : FullTrackName) → Step r (remove r ftn)
  sweeps :
      (r : SubscriptionRegistry) (counters : Ptr → IngestCounters) (p : EntryView → Bool)
      → Step r (remove_if counters p r)

-- So many steps lead from one registry to the other.
pub data Steps : ℕ → SubscriptionRegistry → SubscriptionRegistry → Type 0 where
  stay : (r : SubscriptionRegistry) → Steps 0 r r
  then_step : {n : ℕ} {r s t : SubscriptionRegistry} → Step r s → Steps n s t → Steps (suc n) r t
