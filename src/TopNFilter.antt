-- ===== src/TopNFilter.antt =====
-- src/relay/TopNFilter.h and src/relay/TopNFilter.cpp. The callbacks that an observer has set, the
-- write to the activity target and what is passed downstream are the events, in their order. The
-- result of the downstream consumer, which is moxygen's, is not modelled. The activity target is
-- the identity of the time_point that is written; the times are milliseconds. The observers are
-- called in the order of the list, and a callback does not call the filter back.
pub mod Tellings
pub mod Objects
pub mod Examples
use moqx.Base.{
  ℕ, ◌-◌, List, [], ◌∷◌, ◌++◌, Option, none, some, Bool, true, false, ◌&&◌, ◌||◌, not,
  if◌then◌else◌, ltb, leb, ◌==◌, ℕ_Eq, FullTrackName,
}
use moqx.Base.Assoc

-- A PropertyObserver: which of its callbacks are set.
pub record PropertyObserver : Type 0 where
  pub on_value_changed : Bool
  pub on_track_ended : Bool
  pub on_activity : Bool

pub record ObserverEntry : Type 0 where
  pub last_seen_value : Option ℕ
  pub observer : PropertyObserver

pub record TopNFilter : Type 0 where
  pub ftn : FullTrackName
  pub observers : List (ℕ × ObserverEntry)
  pub ended : Bool
  pub activity_target : Option ℕ
  pub activity_threshold : ℕ
  pub last_activity_notify : Option ℕ

-- The property of the observer comes first.
pub data Event : Type 0 where
  value_changed : ℕ → ℕ → Event
  activity : ℕ → Event
  track_ended : ℕ → Event
  target_written : ℕ → ℕ → Event
  object_forwarded done_forwarded : Event

new_filter : FullTrackName → TopNFilter
new_filter ftn = record {
  ftn = ftn;
  observers = [];
  ended = false;
  activity_target = none;
  activity_threshold = 0;
  last_activity_notify = none;
}

register_observer : ℕ → PropertyObserver → TopNFilter → TopNFilter
register_observer property observer f = record f {
  observers =
      Assoc.insert_or_assign property (record { last_seen_value = none; observer = observer })
        f.observers;
}

remove_observer : ℕ → TopNFilter → TopNFilter
remove_observer property f = record f { observers = Assoc.erase property f.observers }

set_activity_target : Option ℕ → TopNFilter → TopNFilter
set_activity_target target f = record f { activity_target = target }

set_activity_threshold : ℕ → TopNFilter → TopNFilter
set_activity_threshold threshold f = record f { activity_threshold = threshold }

long_enough : ℕ → ℕ → Option ℕ → Bool
long_enough threshold now none = true
long_enough threshold now (some last) = leb threshold (now - last)

activity_allowed : ℕ → TopNFilter → Bool
unfolding long_enough
activity_allowed now f =
    ltb 0 f.activity_threshold && long_enough f.activity_threshold now f.last_activity_notify

write_target : ℕ → Option ℕ → List Event
write_target now none = []
write_target now (some target) = target_written target now ∷ []

pub is_value : ℕ → Option ℕ → Bool
is_value v none = false
is_value v (some w) = w == v

emit : Bool → Event → List Event
emit true event = event ∷ []
emit false event = []

-- One observer, for the value that the object has of its property, or none; whether onActivity
-- was called comes last.
pub check_entry :
    Option ℕ → Bool → ℕ → ℕ → ObserverEntry → Option ℕ → ObserverEntry × List Event × Bool
unfolding write_target is_value emit
check_entry target allowed now property e none = (e, [], false)
check_entry target allowed now property e (some v) =
    let changed = not (is_value v e.last_seen_value) in
    let active = allowed && e.observer.on_activity in
    (
      record e { last_seen_value = some v },
      write_target now target
          ++ (emit (changed && e.observer.on_value_changed) (value_changed property v)
              ++ emit active (activity property)),
      active,
    )

-- The loop of checkProperties; `int_extension` is Extensions::getIntExtension of the object.
check_entries :
    Option ℕ
    → Bool
    → ℕ
    → (ℕ → Option ℕ)
    → List (ℕ × ObserverEntry)
    → List (ℕ × ObserverEntry) × List Event × Bool
unfolding check_entry
check_entries target allowed now int_extension [] = ([], [], false)
check_entries target allowed now int_extension ((property, e) ∷ m) =
    let (e', events, fired) = check_entry target allowed now property e (int_extension property) in
    let (m', more, fired') = check_entries target allowed now int_extension m in
    ((property, e') ∷ m', events ++ more, fired || fired')

pub check_properties : ℕ → (ℕ → Option ℕ) → TopNFilter → TopNFilter × List Event
unfolding check_entries activity_allowed
check_properties now int_extension f =
    let (m, events, fired) =
      check_entries f.activity_target (activity_allowed now f) now int_extension f.observers in
    (
      record f {
        observers = m;
        last_activity_notify = if fired then some now else f.last_activity_notify;
      },
      events,
    )

-- objectStream, datagram, and object and beginObject of a subgroup.
pub receive : ℕ → (ℕ → Option ℕ) → TopNFilter → TopNFilter × List Event
unfolding check_properties
receive now int_extension f =
    let (f', events) = check_properties now int_extension f in
    (f', events ++ (object_forwarded ∷ []))

notify_track_ended : List (ℕ × ObserverEntry) → List Event
unfolding emit
notify_track_ended [] = []
notify_track_ended ((property, e) ∷ m) =
    emit e.observer.on_track_ended (track_ended property) ++ notify_track_ended m

pub publish_done : TopNFilter → TopNFilter × List Event
unfolding notify_track_ended
publish_done f =
    (record f { ended = true }, notify_track_ended f.observers ++ (done_forwarded ∷ []))
