-- ===== src/Registry/Views.antt =====
-- The lookups and the iteration of src/SubscriptionRegistry.cpp. `exec` is MoQSession::getExecutor
-- and `session_id` MoQSession::sessionId.
use moqx.Base.{
  ℕ, ◌≡◌, List, map, Option, none, some, Bool, true, false, FullTrackName, FullTrackName_Eq,
}
use moqx.Base.Assoc
use mathlib.Core.Option
use moqx.Registry.{
  Ptr, ForwarderRef, empty_ref, PromiseState, pending, fulfilled, RelaySubscription,
  SubscriptionRegistry,
}
use moqx.Stats.Ingest.{IngestCounters}
use moqx.Stats.Ingest

is_some : {A : Type 0} → Option A → Bool
is_some none = false
is_some (some x) = true

is_fulfilled : PromiseState → Bool
is_fulfilled pending = false
is_fulfilled fulfilled = true

pub exists : SubscriptionRegistry → FullTrackName → Bool
exists r ftn = is_some (Assoc.find ftn r.subscriptions)

forwarder_or_empty : Option RelaySubscription → ForwarderRef
forwarder_or_empty none = empty_ref
forwarder_or_empty (some e) = e.forwarder

pub get_forwarder_ref : SubscriptionRegistry → FullTrackName → ForwarderRef
unfolding forwarder_or_empty
get_forwarder_ref r ftn = forwarder_or_empty (Assoc.find ftn r.subscriptions)

pub get_forwarder_ref-find :
    (r : SubscriptionRegistry) (ftn : FullTrackName) (e : RelaySubscription)
    → Assoc.find ftn r.subscriptions ≡ some e
    → get_forwarder_ref r ftn ≡ e.forwarder
unfolding get_forwarder_ref
get_forwarder_ref-find r ftn e q = rw (q, forwarder_or_empty)

pub record TopNView : Type 0 where
  pub forwarder : ForwarderRef
  pub top_n_filter : Option Ptr
  pub chain_head : Option Ptr
  pub last_object_time : ℕ

top_n_view : RelaySubscription → TopNView
top_n_view e = record {
  forwarder = e.forwarder;
  top_n_filter = e.top_n_filter;
  chain_head = e.chain_head;
  last_object_time = e.last_object_time;
}

pub get_top_n_view : SubscriptionRegistry → FullTrackName → Option TopNView
get_top_n_view r ftn = Option.map top_n_view (Assoc.find ftn r.subscriptions)

pub record UpstreamView : Type 0 where
  pub forwarder : ForwarderRef
  pub publisher : Option Ptr
  pub handle : Option Ptr
  pub request_id : ℕ
  pub publisher_exec : Option Ptr
  pub is_publish : Bool
  pub is_ready : Bool

pub record FetchView : Type 0 where
  pub forwarder : ForwarderRef
  pub publisher : Option Ptr
  pub request_id : ℕ
  pub is_ready : Bool

fetch_view : RelaySubscription → FetchView
unfolding is_fulfilled
fetch_view e = record {
  forwarder = e.forwarder;
  publisher = e.publisher;
  request_id = e.request_id;
  is_ready = is_fulfilled e.promise;
}

pub get_fetch_view : SubscriptionRegistry → FullTrackName → Option FetchView
get_fetch_view r ftn = Option.map fetch_view (Assoc.find ftn r.subscriptions)

module _ (exec : Ptr → Ptr) (session_id : Ptr → ℕ) where
  upstream_view : RelaySubscription → UpstreamView
  unfolding is_fulfilled
  upstream_view e = record {
    forwarder = e.forwarder;
    publisher = e.publisher;
    handle = e.handle;
    request_id = e.request_id;
    publisher_exec = Option.map exec e.upstream;
    is_publish = e.is_publish;
    is_ready = is_fulfilled e.promise;
  }

  pub get_upstream_view : SubscriptionRegistry → FullTrackName → Option UpstreamView
  get_upstream_view r ftn = Option.map upstream_view (Assoc.find ftn r.subscriptions)

  session_id_of : Option RelaySubscription → Option ℕ
  session_id_of none = none
  session_id_of (some e) = Option.map session_id e.upstream

  pub upstream_session_id : SubscriptionRegistry → FullTrackName → Option ℕ
  upstream_session_id r ftn = session_id_of (Assoc.find ftn r.subscriptions)

pub record EntryView : Type 0 where
  pub ftn : FullTrackName
  pub forwarder : ForwarderRef
  pub upstream : Option Ptr
  pub is_publish : Bool
  pub last_object_time : ℕ
  pub ingest : IngestCounters

-- `counters` is what the shared counters hold.
module _ (counters : Ptr → IngestCounters) where
  ingest_or : Option Ptr → IngestCounters
  ingest_or none = Ingest.new
  ingest_or (some p) = counters p

  unfoldable pub entry_view : FullTrackName → RelaySubscription → EntryView
  unfolding ingest_or
  entry_view ftn e = record {
    ftn = ftn;
    forwarder = e.forwarder;
    upstream = e.upstream;
    is_publish = e.is_publish;
    last_object_time = e.last_object_time;
    ingest = ingest_or e.ingest;
  }

  -- forEach and forEachName: what their callbacks are called with
  for_each : SubscriptionRegistry → List EntryView
  for_each r = map (λ x. entry_view x.0 x.1) r.subscriptions

for_each_name : SubscriptionRegistry → List FullTrackName
for_each_name r = map (λ x. x.0) r.subscriptions
