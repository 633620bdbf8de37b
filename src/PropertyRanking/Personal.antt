-- ===== src/PropertyRanking/Personal.antt =====
-- The personal selection of a publishing subscriber in src/relay/PropertyRanking.cpp.
pub mod Deliveries
use moqx.Base.{
  ℕ, zero, suc, ◌+◌, ◌<◌, ◌≡◌, refl, ap, ap₂, subst, sym, ◌∙◌, inl, inr, List, [], ◌∷◌, ◌++◌,
  Option, some, Bool, true, false, ◌&&◌, ◌||◌, not, if◌then◌else◌, nat_eq, ==-self, ◌==◌, ℕ_Eq,
  keep, take, map, contains, contains-keep, FullTrackName, FullTrackName_Eq, Bool-cases,
  Option-cases, arith,
}
use moqx.PropertyRanking.Tracks.{
  Ptr, RankKey, RankedTrack, outranks, at_least, waterline_from, compute_waterline_key, above,
  now_selected,
}
use moqx.PropertyRanking.Groups.{
  SessionInfo, View, Event, on_selected, on_evicted, on_batch_selected,
  reconcile_publisher_selection,
}

-- Every track ranks behind the key.
abbrev pub Behind : RankKey → List RankedTrack → Type 0
Behind key [] = Unit {0}
Behind key (t ∷ ts) = (outranks key t.key ≡ true) × Behind key ts

-- The best track first, and no two of one key: the order of the map.
abbrev pub Descending : List RankedTrack → Type 0
Descending [] = Unit {0}
Descending (t ∷ ts) = Behind t.key ts × Descending ts

-- The names of the tracks that a session does not publish, best first.
abbrev pub others : Ptr → List RankedTrack → List FullTrackName
others session ts = map (λ t. t.ftn) (keep (λ t. not (t.publisher == session)) ts)

not_at_least : (a b : RankKey) → outranks b a ≡ true → at_least a b ≡ false
not_at_least a b h = ground arith

-- Behind the waterline nothing is selected.
now_selected-Behind :
    (session : Ptr) (key : RankKey) (ts : List RankedTrack)
    → Behind key ts
    → now_selected session (some key) ts ≡ []
unfolding now_selected
now_selected-Behind session key [] b = refl
now_selected-Behind session key (t ∷ ts) b =
    ground (arith, not_at_least t.key key, now_selected-Behind session key ts b.1)

at_least_self : (a : RankKey) → at_least a a ≡ true
at_least_self a = ground arith

outranks-at_least : (a b : RankKey) → outranks a b ≡ true → at_least a b ≡ true
outranks-at_least a b h = ground arith

waterline_own :
    (k n : ℕ) (session : Ptr) (t : RankedTrack) (ts : List RankedTrack)
    → (t.publisher == session) ≡ true
    → waterline_from k session n (t ∷ ts) ≡ waterline_from k session n ts
unfolding waterline_from
waterline_own k n session t ts o = rw o refl

waterline_last :
    (k n : ℕ) (session : Ptr) (t : RankedTrack) (ts : List RankedTrack)
    → (t.publisher == session) ≡ false
    → nat_eq (k + 1) n ≡ true
    → waterline_from k session n (t ∷ ts) ≡ some t.key
unfolding waterline_from
waterline_last k n session t ts o l = rw (o, l) refl

waterline_next :
    (k n : ℕ) (session : Ptr) (t : RankedTrack) (ts : List RankedTrack)
    → (t.publisher == session) ≡ false
    → nat_eq (k + 1) n ≡ false
    → waterline_from k session n (t ∷ ts) ≡ waterline_from (k + 1) session n ts
unfolding waterline_from
waterline_next k n session t ts o l = rw (o, l) refl

-- The waterline is one of the keys of what is left, or there is none.
waterline_ahead :
    (k : ℕ) (session : Ptr) (n : ℕ) (key waterline : RankKey) (ts : List RankedTrack)
    → Behind key ts
    → waterline_from k session n ts ≡ some waterline
    → outranks key waterline ≡ true
unfolding waterline_from
waterline_ahead k session n key waterline [] b e = cc
waterline_ahead k session n key waterline (t ∷ ts) b e =
    elim (Bool-cases (t.publisher == session)) [
      | inl o ↦
          waterline_ahead k session n key waterline ts b.1
            (sym (waterline_own k n session t ts o) ∙ e)
      | inr o ↦ elim (Bool-cases (nat_eq (k + 1) n)) [
        | inl l ↦
            let same : t.key ≡ waterline = cc (waterline_last k n session t ts o l) in
            subst (λ w. outranks key w ≡ true) same b.0
        | inr l ↦
            waterline_ahead (k + 1) session n key waterline ts b.1
              (sym (waterline_next k n session t ts o l) ∙ e)
      ]
    ]

above_waterline :
    (k : ℕ) (session : Ptr) (n : ℕ) (key : RankKey) (ts : List RankedTrack)
    → Behind key ts
    → above (waterline_from k session n ts) key ≡ true
unfolding above
above_waterline k session n key ts b = elim (Option-cases (waterline_from k session n ts)) [
  | inl z ↦ rw (z, above) refl
  | inr (w, z) ↦ rw (z, above) (outranks-at_least key w (waterline_ahead k session n key w ts b z))
]

selected_none : (session : Ptr) (w : Option RankKey) → now_selected session w [] ≡ []
unfolding now_selected
selected_none session w = refl

selected_own :
    (session : Ptr) (w : Option RankKey) (t : RankedTrack) (ts : List RankedTrack)
    → (t.publisher == session) ≡ true
    → now_selected session w (t ∷ ts) ≡ now_selected session w ts
unfolding now_selected
selected_own session w t ts o = rw o refl

selected_other :
    (session : Ptr) (w : Option RankKey) (t : RankedTrack) (ts : List RankedTrack)
    → (t.publisher == session) ≡ false
    → above w t.key ≡ true
    → now_selected session w (t ∷ ts) ≡ t.ftn ∷ now_selected session w ts
unfolding now_selected
selected_other session w t ts o a = rw (o, a) refl

others_own :
    (session : Ptr) (t : RankedTrack) (ts : List RankedTrack)
    → (t.publisher == session) ≡ true
    → others session (t ∷ ts) ≡ others session ts
others_own session t ts o = rw o refl

others_other :
    (session : Ptr) (t : RankedTrack) (ts : List RankedTrack)
    → (t.publisher == session) ≡ false
    → others session (t ∷ ts) ≡ t.ftn ∷ others session ts
others_other session t ts o = rw o refl

-- One more is found: the last, or one of those before it.
first_of_rest :
    (k m n : ℕ) (session : Ptr) (t : RankedTrack) (ts : List RankedTrack)
    → n ≡ k + suc m
    → Descending (t ∷ ts)
    → (t.publisher == session) ≡ false
    → ((m' : ℕ)
        → n ≡ k + 1 + suc m'
        → now_selected session (waterline_from (k + 1) session n ts) ts
          ≡ take (suc m') (others session ts))
    → now_selected session (waterline_from k session n (t ∷ ts)) (t ∷ ts)
      ≡ take (suc m) (others session (t ∷ ts))
unfolding above
first_of_rest k zero n session t ts e d o rest =
    rw (waterline_last k n session t ts o (ground arith)) (
      selected_other session (some t.key) t ts o (at_least_self t.key)
      ∙ ap (◌∷◌ t.ftn) (now_selected-Behind session t.key ts d.0)
      ∙ ap (take 1) (sym (others_other session t ts o)))
first_of_rest k (suc m) n session t ts e d o rest =
    rw (waterline_next k n session t ts o (ground arith)) (
      selected_other session (waterline_from (k + 1) session n ts) t ts o
        (above_waterline (k + 1) session n t.key ts d.0)
      ∙ ap (◌∷◌ t.ftn) (rest m (omega arith))
      ∙ ap (take (suc (suc m))) (sym (others_other session t ts o)))

-- With k of n found already, the rest of the first n are selected.
now_selected-waterline_from :
    (k m n : ℕ) (session : Ptr) (ts : List RankedTrack)
    → n ≡ k + suc m
    → Descending ts
    → now_selected session (waterline_from k session n ts) ts ≡ take (suc m) (others session ts)
now_selected-waterline_from k m n session [] e d =
    selected_none session (waterline_from k session n [])
now_selected-waterline_from k m n session (t ∷ ts) e d =
    elim (Bool-cases (t.publisher == session)) [
      | inl o ↦ rw (waterline_own k n session t ts o) (
          selected_own session (waterline_from k session n ts) t ts o
          ∙ now_selected-waterline_from k m n session ts e d.1
          ∙ ap (take (suc m)) (sym (others_own session t ts o)))
      | inr o ↦
          first_of_rest k m n session t ts e d o
            (λ m' f. now_selected-waterline_from (k + 1) m' n session ts f d.1)
    ]

-- The personal selection is the first N tracks that are not the session's own.
pub first_others :
    (n : ℕ) (session : Ptr) (ts : List RankedTrack)
    → 0 < n
    → Descending ts
    → now_selected session (compute_waterline_key session n ts) ts ≡ take n (others session ts)
unfolding compute_waterline_key
first_others zero session ts p d = absurd (omega arith)
first_others (suc n) session ts p d =
    now_selected-waterline_from 0 n (suc n) session ts (omega arith) d
