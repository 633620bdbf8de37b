-- ===== src/TopNFilter/Examples.antt =====
-- Objects of one track through src/relay/TopNFilter.cpp.
use moqx.Base.{◌≡◌, refl, List, [], ◌∷◌, none, some, true, inl, ◌==◌, if◌then◌else◌, ℕ_Eq}
use moqx.TopNFilter.{
  TopNFilter, new_filter, register_observer, set_activity_target, set_activity_threshold, receive,
  publish_done, value_changed, activity, target_written, track_ended, object_forwarded,
  done_forwarded,
}
use moqx.TopNFilter.Tellings.{told, Observed}
use moqx.TopNFilter.Objects.{Object, receive_all, receive_all-told}

abbrev watched : TopNFilter
watched =
    register_observer 9
      (record { on_value_changed = true; on_track_ended = true; on_activity = true })
      (set_activity_threshold 50 (
        set_activity_target (some 3)
          (new_filter (record { track_namespace = []; track_name = [] }))))

-- Audio levels at times 100, 110, 170; the second object does not change the level.
abbrev levels : List Object
levels =
    (100, λ p. if p == 9 then some 5 else none)
    ∷ (110, λ p. if p == 9 then some 5 else none)
    ∷ (120, λ p. none)
    ∷ (170, λ p. if p == 9 then some 7 else none)
    ∷ []

receive_all-told_example :
    (told 9 none (receive_all levels watched).1 ≡ some (some 7))
    × Observed 9 (some 7) (receive_all levels watched).0.observers
unfolding register_observer set_activity_target set_activity_threshold new_filter
receive_all-told_example = receive_all-told 9 levels watched none (inl (refl, refl, refl, tt))

-- No value is told twice, and onActivity waits for the threshold.
levels_events :
    (receive_all levels watched).1
    ≡ target_written 3 100
      ∷ value_changed 9 5
      ∷ activity 9
      ∷ object_forwarded
      ∷ target_written 3 110
      ∷ object_forwarded
      ∷ object_forwarded
      ∷ target_written 3 170
      ∷ value_changed 9 7
      ∷ activity 9
      ∷ object_forwarded
      ∷ []
unfolding receive register_observer set_activity_threshold set_activity_target new_filter
levels_events = refl

-- The end of the track is told once, before it goes downstream, and marks the filter as ended.
watched_done :
    publish_done watched ≡ (record watched { ended = true }, track_ended 9 ∷ done_forwarded ∷ [])
unfolding publish_done new_filter register_observer set_activity_target set_activity_threshold
watched_done = refl
