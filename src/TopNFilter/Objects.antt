-- ===== src/TopNFilter/Objects.antt =====
-- What an observer of src/relay/TopNFilter.cpp is told while objects come one after the other.
use moqx.Base.{
  ℕ, ◌≡◌, refl, ap, sym, ◌∙◌, inl, inr, List, [], ◌∷◌, ◌++◌, Option, none, some, Bool, true, ◌==◌,
  ℕ_Eq, nat_eq_iff,
}
use moqx.TopNFilter.{
  ObserverEntry, TopNFilter, Event, object_forwarded, check_entry, check_entries, check_properties,
  receive, activity_allowed,
}
use moqx.TopNFilter.Tellings.{
  or_before, told, Unobserved, Observed, told-append, told-check_entry-others, told-check_entry-own,
}

-- An object: when it comes, and its integer extensions.
abbrev pub Object : Type 0
Object = ℕ × (ℕ → Option ℕ)

abbrev pub receive_all : List Object → TopNFilter → TopNFilter × List Event
receive_all [] f = (f, [])
receive_all ((now, ext) ∷ objects) f =
    let (f', events) = receive now ext f in
    let (f'', more) = receive_all objects f' in (f'', events ++ more)

-- The last value of the property among the objects, or the one before them.
abbrev pub latest : ℕ → Option ℕ → List Object → Option ℕ
latest property before [] = before
latest property before ((now, ext) ∷ objects) =
    latest property (or_before (ext property) before) objects

check_entry-observer :
    (target : Option ℕ) (allowed : Bool) (now p : ℕ) (e : ObserverEntry) (value : Option ℕ)
    → (check_entry target allowed now p e value).0.observer ≡ e.observer
unfolding check_entry
check_entry-observer target allowed now p e none = refl
check_entry-observer target allowed now p e (some v) = refl

check_entry-last_seen_value :
    (target : Option ℕ) (allowed : Bool) (now p : ℕ) (e : ObserverEntry) (value : Option ℕ)
    → (check_entry target allowed now p e value).0.last_seen_value
      ≡ or_before value e.last_seen_value
unfolding check_entry
check_entry-last_seen_value target allowed now p e none = refl
check_entry-last_seen_value target allowed now p e (some v) = refl

module _ (property : ℕ) (target : Option ℕ) (allowed : Bool) (now : ℕ) (ext : ℕ → Option ℕ) where
  or_before_next :
      (p : ℕ) (seen : Option ℕ) (e : ObserverEntry)
      → (p == property) ≡ true
      → e.last_seen_value ≡ seen
      → or_before (ext p) e.last_seen_value ≡ or_before (ext property) seen
  or_before_next p seen e own last =
      ap (λ q. or_before (ext q) e.last_seen_value) ((nat_eq_iff p property).0 own)
      ∙ ap (or_before (ext property)) last

  check_entries-Unobserved :
      (m : List (ℕ × ObserverEntry))
      → Unobserved property m
      → Unobserved property (check_entries target allowed now ext m).0
  unfolding check_entries
  check_entries-Unobserved [] free = free
  check_entries-Unobserved ((p, e) ∷ m) (other, free) = (other, check_entries-Unobserved m free)

  told-check_entries-Unobserved :
      (m : List (ℕ × ObserverEntry)) (before : Option ℕ)
      → Unobserved property m
      → told property before (check_entries target allowed now ext m).1 ≡ some before
  unfolding check_entries
  told-check_entries-Unobserved [] before free = refl
  told-check_entries-Unobserved ((p, e) ∷ m) before (other, free) =
      told-append property before before (check_entry target allowed now p e (ext p)).1 _
        (told-check_entry-others property p before target allowed now e (ext p) other)
      ∙ told-check_entries-Unobserved m before free

  check_entries-Observed :
      (m : List (ℕ × ObserverEntry)) (seen : Option ℕ)
      → Observed property seen m
      → Observed property (or_before (ext property) seen) (check_entries target allowed now ext m).0
  unfolding check_entries
  check_entries-Observed [] seen none_there = elim none_there [ ]
  check_entries-Observed ((p, e) ∷ m) seen (inl (own, last, set, free)) = inl (
    own,
    check_entry-last_seen_value target allowed now p e (ext p) ∙ or_before_next p seen e own last,
    ap (λ o. o.on_value_changed) (check_entry-observer target allowed now p e (ext p)) ∙ set,
    check_entries-Unobserved m free,
  )
  check_entries-Observed ((p, e) ∷ m) seen (inr (other, there)) =
      inr (other, check_entries-Observed m seen there)

  told-check_entries :
      (m : List (ℕ × ObserverEntry)) (seen : Option ℕ)
      → Observed property seen m
      → told property seen (check_entries target allowed now ext m).1
        ≡ some (or_before (ext property) seen)
  unfolding check_entries
  told-check_entries [] seen none_there = elim none_there [ ]
  told-check_entries ((p, e) ∷ m) seen (inl (own, last, set, free)) =
      told-append property seen (or_before (ext property) seen)
        (check_entry target allowed now p e (ext p)).1 _
        (ap (λ s. told property s (check_entry target allowed now p e (ext p)).1) (sym last)
          ∙ told-check_entry-own property p target allowed now e (ext p) own set
          ∙ ap some (or_before_next p seen e own last))
      ∙ told-check_entries-Unobserved m (or_before (ext property) seen) free
  told-check_entries ((p, e) ∷ m) seen (inr (other, there)) =
      told-append property seen seen (check_entry target allowed now p e (ext p)).1 _
        (told-check_entry-others property p seen target allowed now e (ext p) other)
      ∙ told-check_entries m seen there

module _ (property : ℕ) where
  receive-Observed :
      (now : ℕ) (ext : ℕ → Option ℕ) (f : TopNFilter) (seen : Option ℕ)
      → Observed property seen f.observers
      → Observed property (or_before (ext property) seen) (receive now ext f).0.observers
  unfolding receive check_properties
  receive-Observed now ext f seen there =
      check_entries-Observed property f.activity_target (activity_allowed now f) now ext f.observers
        seen there

  told-receive :
      (now : ℕ) (ext : ℕ → Option ℕ) (f : TopNFilter) (seen : Option ℕ)
      → Observed property seen f.observers
      → told property seen (receive now ext f).1 ≡ some (or_before (ext property) seen)
  unfolding receive check_properties
  told-receive now ext f seen there =
      told-append property seen (or_before (ext property) seen)
        (check_entries f.activity_target (activity_allowed now f) now ext f.observers).1
        (object_forwarded ∷ [])
        (told-check_entries property f.activity_target (activity_allowed now f) now ext f.observers
          seen there)

  -- Of a property with one observer that has onValueChanged set, the observer is told the last
  -- value among the objects that come, or that was seen before them, last, and no value twice in a
  -- row; that value is the one seen last.
  pub receive_all-told :
      (objects : List Object) (f : TopNFilter) (seen : Option ℕ)
      → Observed property seen f.observers
      → (told property seen (receive_all objects f).1 ≡ some (latest property seen objects))
        × Observed property (latest property seen objects) (receive_all objects f).0.observers
  receive_all-told [] f seen there = (refl, there)
  receive_all-told ((now, ext) ∷ objects) f seen there =
      let (told_rest, observed_rest) =
        receive_all-told objects (receive now ext f).0 (or_before (ext property) seen)
          (receive-Observed now ext f seen there) in
      (
        told-append property seen (or_before (ext property) seen) (receive now ext f).1
              (receive_all objects (receive now ext f).0).1 (told-receive now ext f seen there)
            ∙ told_rest,
        observed_rest,
      )
