-- ===== src/Stats/Histogram/Cumulative.antt =====
-- What fillCumulative of src/stats/BoundedHistogram.h reports of the values that were added.
use moqx.Base.{
  ℕ, ◌+◌, ◌%◌, ◌≤◌, ◌<◌, ◌≡◌, refl, ap, ap₂, ◌∙◌, List, [], ◌∷◌, ◌++◌, map, if◌then◌else◌, leb,
  length, arith, Bool-cases, inl, inr, leb→le,
}
use moqx.Stats.Histogram.{
  BoundedHistogram, u64_mod, inc, zeros, new, bump, add_value, fill, fill_cumulative, add_values,
}

abbrev pub AllFrom : ℕ → List ℕ → Type 0
AllFrom b [] = Unit {0}
AllFrom b (c ∷ cs) = (b ≤ c) × AllFrom b cs

-- The bounds go up.
abbrev pub Ascending : List ℕ → Type 0
Ascending [] = Unit {0}
Ascending (b ∷ bs) = AllFrom b bs × Ascending bs

AllFrom-le : (a b : ℕ) (bs : List ℕ) → a ≤ b → AllFrom b bs → AllFrom a bs
AllFrom-le a b [] h p = tt
AllFrom-le a b (c ∷ cs) h p = (omega arith, AllFrom-le a b cs h p.1)

-- How many of the values are at most the bound.
abbrev pub count_le : ℕ → List ℕ → ℕ
count_le u [] = 0
count_le u (v ∷ vs) = (if leb v u then 1 else 0) + count_le u vs

-- One more value, in the cumulative view.
abbrev inc_le : ℕ → List ℕ → List ℕ → List ℕ
inc_le v [] [] = []
inc_le v [] (n ∷ ns) = inc n ∷ ns
inc_le v (b ∷ bs) [] = []
inc_le v (b ∷ bs) (n ∷ ns) = (if leb v b then inc n else n) ∷ inc_le v bs ns

fill-inc :
    (v r c : ℕ) (bs ns : List ℕ)
    → AllFrom v bs
    → fill (inc r) bs ns (inc c) ≡ inc_le v bs (fill r bs ns c)
unfolding fill
fill-inc v r c [] ns p = refl
fill-inc v r c (b ∷ bs) [] p = refl
fill-inc v r c (b ∷ bs) (n ∷ ns) p =
    let e : (inc r + n) % u64_mod ≡ inc ((r + n) % u64_mod) = omega arith in
    rw e (ground (arith, fill-inc v ((r + n) % u64_mod) c bs ns p.1))

fill-bump :
    (v r c : ℕ) (bs ns : List ℕ)
    → Ascending bs
    → fill r bs (bump bs ns v) (inc c) ≡ inc_le v bs (fill r bs ns c)
unfolding fill bump
fill-bump v r c [] [] p = refl
fill-bump v r c [] (n ∷ ns) p = refl
fill-bump v r c (b ∷ bs) [] p = refl
fill-bump v r c (b ∷ bs) (n ∷ ns) p = elim (Bool-cases (leb v b)) [
  | inl h ↦
      let e : (r + inc n) % u64_mod ≡ inc ((r + n) % u64_mod) = omega arith in
      rw h (
        rw e (
          ap₂ ◌∷◌ refl
            (fill-inc v ((r + n) % u64_mod) c bs ns (AllFrom-le v b bs (leb→le v b h) p.0))))
  | inr h ↦ rw h (ap₂ ◌∷◌ refl (fill-bump v ((r + n) % u64_mod) c bs ns p.1))
]

-- The view after some values, from the view before them.
abbrev after : List ℕ → List ℕ → List ℕ → List ℕ
after bs [] vs = []
after [] (n ∷ ns) vs = ((n + length vs) % u64_mod) ∷ ns
after (b ∷ bs) (n ∷ ns) vs = ((n + count_le b vs) % u64_mod) ∷ after bs ns vs

after-inc_le : (v : ℕ) (bs ns vs : List ℕ) → after bs (inc_le v bs ns) vs ≡ after bs ns (v ∷ vs)
after-inc_le v [] [] vs = refl
after-inc_le v [] (n ∷ ns) vs = ap₂ ◌∷◌ (omega arith) refl
after-inc_le v (b ∷ bs) [] vs = refl
after-inc_le v (b ∷ bs) (n ∷ ns) vs = ap₂ ◌∷◌ (ground arith) (after-inc_le v bs ns vs)

after-nil : (r c : ℕ) (bs ns : List ℕ) → c < u64_mod → fill r bs ns c ≡ after bs (fill r bs ns c) []
unfolding fill
after-nil r c [] ns h = ap₂ ◌∷◌ (omega arith) refl
after-nil r c (b ∷ bs) [] h = refl
after-nil r c (b ∷ bs) (n ∷ ns) h = ap₂ ◌∷◌ (omega arith) (after-nil ((r + n) % u64_mod) c bs ns h)

fill_cumulative-add_values :
    (h : BoundedHistogram) (vs : List ℕ)
    → Ascending h.bounds
    → h.count < u64_mod
    → fill_cumulative (add_values h vs) ≡ after h.bounds (fill_cumulative h) vs
unfolding fill_cumulative add_values add_value
fill_cumulative-add_values h [] p q = after-nil 0 h.count h.bounds h.buckets q
fill_cumulative-add_values h (v ∷ vs) p q =
    fill_cumulative-add_values (add_value h v) vs p (omega arith)
    ∙ ap (λ ns. after h.bounds ns vs) (fill-bump v 0 h.count h.bounds h.buckets p)
    ∙ after-inc_le v h.bounds (fill_cumulative h) vs

-- What a fresh histogram should report of a list of values.
abbrev pub expected : List ℕ → List ℕ → List ℕ
expected bounds vs = map (λ b. count_le b vs % u64_mod) bounds ++ (length vs % u64_mod) ∷ []

after-zeros : (bs vs : List ℕ) → after bs (fill 0 bs (zeros bs) 0) vs ≡ expected bs vs
unfolding fill zeros
after-zeros [] vs = ap₂ ◌∷◌ (omega arith) refl
after-zeros (b ∷ bs) vs = ap₂ ◌∷◌ (omega arith) (after-zeros bs vs)

-- With ascending bounds, the cumulative buckets of a new histogram after any list of values hold,
-- for each bound, the number of values at most that bound, and last the number of all values;
-- each modulo 2^64.
pub fill_cumulative-count_le :
    (bounds vs : List ℕ)
    → Ascending bounds
    → fill_cumulative (add_values (new bounds) vs) ≡ expected bounds vs
unfolding new fill_cumulative
fill_cumulative-count_le bounds vs p =
    fill_cumulative-add_values (new bounds) vs p (omega arith) ∙ after-zeros bounds vs
