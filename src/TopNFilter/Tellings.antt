-- ===== src/TopNFilter/Tellings.antt =====
-- What an observer of src/relay/TopNFilter.cpp is told: its last value, read off the events.
use moqx.Base.{
  ℕ, ◌≡◌, refl, ap, ◌∙◌, ◌⊎◌, inl, inr, List, [], ◌∷◌, ◌++◌, Option, none, some, Bool, true, false,
  ◌&&◌, not, if◌then◌else◌, ◌==◌, ℕ_Eq, nat_eq_iff, Bool-cases, arith,
}
use moqx.TopNFilter.{
  ObserverEntry, Event, value_changed, activity, track_ended, target_written, object_forwarded,
  done_forwarded, write_target, is_value, emit, check_entry,
}

abbrev pub or_before : Option ℕ → Option ℕ → Option ℕ
or_before none before = before
or_before (some v) before = some v

-- The value that an observer has been told last; `none` in all if it is told one twice in a row.
abbrev pub told : ℕ → Option ℕ → List Event → Option (Option ℕ)
told property before [] = some before
told property before (value_changed p v ∷ events) =
    if p == property
    then if is_value v before then none else told property (some v) events
    else told property before events
told property before (activity p ∷ events) = told property before events
told property before (track_ended p ∷ events) = told property before events
told property before (target_written t now ∷ events) = told property before events
told property before (object_forwarded ∷ events) = told property before events
told property before (done_forwarded ∷ events) = told property before events

-- The property has no observer.
abbrev pub Unobserved : ℕ → List (ℕ × ObserverEntry) → Type 0
Unobserved property [] = Unit {0}
Unobserved property ((p, e) ∷ m) = ((p == property) ≡ false) × Unobserved property m

-- The property has one observer, with this value seen last, that has onValueChanged set.
abbrev pub Observed : ℕ → Option ℕ → List (ℕ × ObserverEntry) → Type 0
Observed property seen [] = ⊥
Observed property seen ((p, e) ∷ m) =
    (((p == property) ≡ true)
      × (e.last_seen_value ≡ seen)
      × (e.observer.on_value_changed ≡ true)
      × Unobserved property m)
    ⊎ (((p == property) ≡ false) × Observed property seen m)

pub told-append :
    (property : ℕ) (before after : Option ℕ) (xs ys : List Event)
    → told property before xs ≡ some after
    → told property before (xs ++ ys) ≡ told property after ys
told-append property before after [] ys e = grind arith
told-append property before after (value_changed p v ∷ xs) ys e =
    told-changed property p v before after xs ys (λ b. told-append property b after xs ys)
      (p == property) (is_value v before) e
  where
    told-changed :
        (property p v : ℕ) (before after : Option ℕ) (xs ys : List Event)
        → ((b : Option ℕ)
            → told property b xs ≡ some after
            → told property b (xs ++ ys) ≡ told property after ys)
        → (same known : Bool)
        → (if same
            then if known then none else told property (some v) xs
            else told property before xs)
          ≡ some after
        → (if same
            then if known then none else told property (some v) (xs ++ ys)
            else told property before (xs ++ ys))
          ≡ told property after ys
    told-changed property p v before after xs ys ih true true e = grind arith
    told-changed property p v before after xs ys ih true false e = ih (some v) e
    told-changed property p v before after xs ys ih false known e = ih before e
told-append property before after (activity p ∷ xs) ys e = told-append property before after xs ys e
told-append property before after (track_ended p ∷ xs) ys e =
    told-append property before after xs ys e
told-append property before after (target_written t now ∷ xs) ys e =
    told-append property before after xs ys e
told-append property before after (object_forwarded ∷ xs) ys e =
    told-append property before after xs ys e
told-append property before after (done_forwarded ∷ xs) ys e =
    told-append property before after xs ys e

told-write_target :
    (property now : ℕ) (before : Option ℕ) (target : Option ℕ)
    → told property before (write_target now target) ≡ some before
unfolding write_target
told-write_target property now before none = refl
told-write_target property now before (some t) = refl

told-activity :
    (property p : ℕ) (before : Option ℕ) (b : Bool)
    → told property before (emit b (activity p)) ≡ some before
unfolding emit
told-activity property p before true = refl
told-activity property p before false = refl

told-others :
    (property p v : ℕ) (before : Option ℕ) (b : Bool)
    → (p == property) ≡ false
    → told property before (emit b (value_changed p v)) ≡ some before
unfolding emit
told-others property p v before true other = rw other refl
told-others property p v before false other = refl

told-own :
    (property p v : ℕ) (seen : Option ℕ)
    → (p == property) ≡ true
    → told property seen (emit (not (is_value v seen) && true) (value_changed p v)) ≡ some (some v)
unfolding emit is_value
told-own property p v none own = rw own refl
told-own property p v (some w) own = elim (Bool-cases (w == v)) [
  | inl same ↦ rw same (ap (λ x. some (some x)) ((nat_eq_iff w v).0 same))
  | inr other ↦ rw (other, own, other) refl
]

told-parts :
    (property p v : ℕ) (before after target : Option ℕ) (now : ℕ) (changed active : Bool)
    → told property before (emit changed (value_changed p v)) ≡ some after
    → told property before
        (write_target now target ++ (emit changed (value_changed p v) ++ emit active (activity p)))
      ≡ some after
told-parts property p v before after target now changed active h =
    told-append property before before (write_target now target)
      (emit changed (value_changed p v) ++ emit active (activity p))
      (told-write_target property now before target)
    ∙ told-append property before after (emit changed (value_changed p v))
        (emit active (activity p)) h
    ∙ told-activity property p after active

pub told-check_entry-others :
    (property p : ℕ) (before target : Option ℕ) (allowed : Bool) (now : ℕ) (e : ObserverEntry)
    (value : Option ℕ)
    → (p == property) ≡ false
    → told property before (check_entry target allowed now p e value).1 ≡ some before
unfolding check_entry
told-check_entry-others property p before target allowed now e none other = refl
told-check_entry-others property p before target allowed now e (some v) other =
    told-parts property p v before before target now
      (not (is_value v e.last_seen_value) && e.observer.on_value_changed)
      (allowed && e.observer.on_activity) (told-others property p v before _ other)

pub told-check_entry-own :
    (property p : ℕ) (target : Option ℕ) (allowed : Bool) (now : ℕ) (e : ObserverEntry)
    (value : Option ℕ)
    → (p == property) ≡ true
    → e.observer.on_value_changed ≡ true
    → told property e.last_seen_value (check_entry target allowed now p e value).1
      ≡ some (or_before value e.last_seen_value)
unfolding check_entry
told-check_entry-own property p target allowed now e none own set = refl
told-check_entry-own property p target allowed now e (some v) own set =
    told-parts property p v e.last_seen_value (some v) target now
      (not (is_value v e.last_seen_value) && e.observer.on_value_changed)
      (allowed && e.observer.on_activity) (rw set (told-own property p v e.last_seen_value own))
