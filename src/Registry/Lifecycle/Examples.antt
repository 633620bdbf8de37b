-- ===== src/Registry/Lifecycle/Examples.antt =====
-- A registry of src/SubscriptionRegistry.cpp with one first subscriber, overtaken by a publisher.
use moqx.Base.{◌≡◌, refl, [], ◌∷◌, none, some, true, FullTrackName, arith}
use moqx.Registry.{
  owned, FilterChainResult, SubscriptionRegistry, first_subscriber, UpstreamSubscribePending,
  get_or_create_from_subscribe, subscribe_at, create_first, next_epoch, new_entry, complete,
  complete_subscription, complete_at, create_from_publish, erase, erase_if, erase_where,
}
use moqx.Registry.Views.{get_forwarder_ref}
use moqx.Registry.Lifecycle.{remove, Step, Steps}
use moqx.Registry.Lifecycle.Stale.{Stale, publish-Stale, complete-own_entry}
use moqx.Registry.Lifecycle.Targets.{NoneDangles}
use moqx.Registry.Lifecycle.Dangling.{Steps-NoneDangles}

abbrev ftn : FullTrackName
ftn = record { track_namespace = (97 ∷ []) ∷ []; track_name = 98 ∷ [] }

abbrev other : FullTrackName
other = record { track_namespace = []; track_name = 99 ∷ [] }

abbrev chain : FilterChainResult
chain = record { consumer = 20; top_n_filter = some 21; chain_head = 22; ingest = none }

abbrev start : SubscriptionRegistry
start = record { subscriptions = []; epoch_counter = 0; targets = [] }

abbrev pending_one : UpstreamSubscribePending
pending_one = record { ftn = ftn; epoch = 1; active = true }

abbrev subscribed : SubscriptionRegistry
subscribed = (get_or_create_from_subscribe start ftn 10 (some (owned 10)) chain 0).1

abbrev published : SubscriptionRegistry
published = (create_from_publish subscribed ftn (owned 11) (some 30) none 4 none chain 21 5).1

created :
    get_or_create_from_subscribe start ftn 10 (some (owned 10)) chain 0
    ≡ (first_subscriber 10 20 pending_one, subscribed)
unfolding get_or_create_from_subscribe subscribe_at create_first next_epoch
created = refl

counted : subscribed.epoch_counter ≡ 1
unfolding get_or_create_from_subscribe subscribe_at create_first next_epoch
counted = refl

publish-Stale_example : Stale pending_one (remove published other)
publish-Stale_example =
    publish-Stale 1 subscribed (remove published other) pending_one (owned 11) (some 30) none 4 none
      chain 21 5 (omega (arith, counted)) (omega (arith, counted))
      (Steps.then_step (Step.removes published other) (Steps.stay (remove published other)))

completed : (complete (remove subscribed other) pending_one (some 40) 4 none (some 41)).0 ≡ true
unfolding complete complete_subscription complete_at remove get_or_create_from_subscribe
    subscribe_at create_first next_epoch new_entry erase erase_if erase_where
completed = refl

own_entry_example :
    get_forwarder_ref
      (complete (remove subscribed other) pending_one (some 40) 4 none (some 41)).1.1
      ftn
    ≡ owned 10
own_entry_example =
    complete-own_entry 1 start subscribed (remove subscribed other) ftn 10 20 (owned 10) chain 0
      pending_one (some 40) 4 none (some 41) created (omega arith)
      (Steps.then_step (Step.removes subscribed other) (Steps.stay (remove subscribed other)))
      completed

start-NoneDangles : NoneDangles start
start-NoneDangles t i = absurd i

Steps-NoneDangles_example : NoneDangles published
Steps-NoneDangles_example =
    Steps-NoneDangles 2 start published
      (Steps.then_step (Step.subscribes start ftn 10 (some (owned 10)) chain 0) (
        Steps.then_step (Step.publishes subscribed ftn (owned 11) (some 30) none 4 none chain 21 5)
          (Steps.stay published)))
      start-NoneDangles
