-- ===== src/NamespaceTree/Selection.antt =====
-- The selection of a route in src/NamespaceTree.h picks a best one.
use moqx.Base.{
  ℕ, ◌≡◌, refl, ap, ◌⊎◌, inl, inr, List, [], ◌∷◌, Option, none, some, Bool, true, false, ◌&&◌, not,
  ltb, length, Among, Bool-cases, arith,
}
use moqx.NamespaceTree.Routes.{
  Route, has_anon, lex, better_route, improves, select_from, select_route,
}

-- The comparison on the four components.
abbrev precedes : Bool → ℕ → ℕ → ℕ → Bool → ℕ → ℕ → ℕ → Bool
precedes x c l s y d m t =
    lex (not x && y) (x && not y) (lex (ltb c d) (ltb d c) (lex (ltb l m) (ltb m l) (ltb t s)))

precedes_trans :
    (x y z : Bool) (c d e l m n s t u : ℕ)
    → precedes x c l s y d m t ≡ true
    → precedes y d m t z e n u ≡ true
    → precedes x c l s z e n u ≡ true
precedes_trans true true true c d e l m n s t u p q = ground arith
precedes_trans true true false c d e l m n s t u p q = ground arith
precedes_trans true false z c d e l m n s t u p q = ground arith
precedes_trans false true true c d e l m n s t u p q = ground arith
precedes_trans false true false c d e l m n s t u p q = ground arith
precedes_trans false false true c d e l m n s t u p q = ground arith
precedes_trans false false false c d e l m n s t u p q = ground arith

precedes_irrefl : (x : Bool) (c l s : ℕ) → precedes x c l s x c l s ≡ false
precedes_irrefl true c l s = ground arith
precedes_irrefl false c l s = ground arith

no_better_trans :
    (x y z : Bool) (c d e l m n s t u : ℕ)
    → precedes x c l s y d m t ≡ false
    → precedes y d m t z e n u ≡ false
    → precedes x c l s z e n u ≡ false
no_better_trans true true true c d e l m n s t u p q = ground arith
no_better_trans true true false c d e l m n s t u p q = ground arith
no_better_trans true false true c d e l m n s t u p q = ground arith
no_better_trans true false false c d e l m n s t u p q = ground arith
no_better_trans false true z c d e l m n s t u p q = ground arith
no_better_trans false false true c d e l m n s t u p q = ground arith
no_better_trans false false false c d e l m n s t u p q = ground arith

better_route_trans :
    (a b c : Route) → better_route a b ≡ true → better_route b c ≡ true → better_route a c ≡ true
unfolding better_route
better_route_trans a b c p q =
    precedes_trans (has_anon a) (has_anon b) (has_anon c) a.cost b.cost c.cost (length a.path)
      (length b.path) (length c.path) a.seq b.seq c.seq p q

no_better_route_trans :
    (a b c : Route) → better_route a b ≡ false → better_route b c ≡ false → better_route a c ≡ false
unfolding better_route
no_better_route_trans a b c p q =
    no_better_trans (has_anon a) (has_anon b) (has_anon c) a.cost b.cost c.cost (length a.path)
      (length b.path) (length c.path) a.seq b.seq c.seq p q

better_route_irrefl : (a : Route) → better_route a a ≡ false
unfolding better_route
better_route_irrefl a = precedes_irrefl (has_anon a) a.cost (length a.path) a.seq

module _ (eligible : Route → Bool) where
  -- None of the routes that pass the test is better.
  abbrev pub Unbeaten : Route → List Route → Type 0
  Unbeaten r rs = (q : Route) → Among q rs → eligible q ≡ true → better_route q r ≡ false

  -- The loop's result, with what it starts from.
  abbrev Chosen : Option Route → List Route → Option Route → Type 0
  Chosen best rs out =
      ((out ≡ none) × (best ≡ none) × ((q : Route) → Among q rs → eligible q ≡ false))
      ⊎ ((r : Route) × (out ≡ some r)
          × ((best ≡ some r) ⊎ (Among r rs × (eligible r ≡ true)))
          × ((b : Route) → best ≡ some b → better_route b r ≡ false)
          × Unbeaten r rs)

  kept_on :
      (best : Option Route) (r : Route) (rs : List Route) (out : Option Route)
      → ((eligible r ≡ false) ⊎ ((b : Route) × (best ≡ some b) × (better_route r b ≡ false)))
      → Chosen best rs out
      → Chosen best (r ∷ rs) out
  kept_on best r rs out why (inl (e, s, no_one)) = inl (
    e,
    s,
    λ q i. elim i [
      | inl same ↦ elim why [ inl f ↦ rw same f | inr (b, t, u) ↦ cc ]
      | inr j ↦ no_one q j
    ],
  )
  kept_on best r rs out why (inr (x, e, origin, ahead, unbeaten)) = inr (
    x,
    e,
    elim origin [ inl s ↦ inl s | inr (i, t) ↦ inr (inr i, t) ],
    ahead,
    λ q i t. elim i [
      | inl same ↦ elim why [
        | inl f ↦ cc (ap eligible same)
        | inr (b, s, u) ↦ no_better_route_trans q b x (rw same u) (ahead b s)
      ]
      | inr j ↦ unbeaten q j t
    ],
  )

  taken_on :
      (best : Option Route) (r : Route) (rs : List Route) (out : Option Route)
      → eligible r ≡ true
      → ((b : Route) → best ≡ some b → better_route r b ≡ true)
      → Chosen (some r) rs out
      → Chosen best (r ∷ rs) out
  taken_on best r rs out el better (inl (e, s, no_one)) = cc
  taken_on best r rs out el better (inr (x, e, origin, ahead, unbeaten)) = inr (
    x,
    e,
    elim origin [
      | inl s ↦ let same : x ≡ r = cc in inr (inl same, rw same el)
      | inr (i, t) ↦ inr (inr i, t)
    ],
    (λ b s. elim (Bool-cases (better_route b x)) [
      | inl h ↦ cc (better_route_trans r b x (better b s) h, ahead r refl)
      | inr h ↦ h
    ]),
    λ q i t. elim i [ inl same ↦ rw same (ahead r refl) | inr j ↦ unbeaten q j t ],
  )

  taken :
      (best : Option Route) (r : Route)
      → (eligible r && improves r best) ≡ true
      → (eligible r ≡ true) × ((b : Route) → best ≡ some b → better_route r b ≡ true)
  unfolding improves
  taken none r h = (ground arith, λ b s. cc)
  taken (some c) r h = (ground arith, λ b s. let same : c ≡ b = cc in rw (← same) (ground arith))

  skipped :
      (best : Option Route) (r : Route)
      → (eligible r && improves r best) ≡ false
      → (eligible r ≡ false) ⊎ ((b : Route) × (best ≡ some b) × (better_route r b ≡ false))
  unfolding improves
  skipped none r h = inl (ground arith)
  skipped (some b) r h = elim (Bool-cases (eligible r)) [
    | inl e ↦ inr (b, refl, rw e at h)
    | inr e ↦ inl e
  ]

  select_from-Chosen :
      (best : Option Route) (rs : List Route) → Chosen best rs (select_from eligible best rs)
  unfolding select_from improves
  select_from-Chosen none [] = inl (refl, refl, λ q i. absurd i)
  select_from-Chosen (some b) [] = inr (
    b,
    refl,
    inl refl,
    (λ c s. let same : c ≡ b = cc in rw same (better_route_irrefl b)),
    λ q i. absurd i,
  )
  select_from-Chosen best (r ∷ rs) = elim (Bool-cases (eligible r && improves r best)) [
    | inl h ↦
        let (e, better) = taken best r h in
        rw h (
          taken_on best r rs (select_from eligible (some r) rs) e better
            (select_from-Chosen (some r) rs))
    | inr h ↦ rw h (
        kept_on best r rs (select_from eligible best rs) (skipped best r h)
          (select_from-Chosen best rs))
  ]

-- selectRoute gives null only where no route of the node is eligible; otherwise it gives an eligible
-- route of the node, and no eligible one is better by the rule: a path without the anonymous hop,
-- then lowest cost, then shortest path, then newest.
pub select_route-Unbeaten :
    (eligible : Route → Bool) (rs : List Route)
    → ((select_route eligible rs ≡ none) × ((q : Route) → Among q rs → eligible q ≡ false))
      ⊎ ((r : Route) × (select_route eligible rs ≡ some r)
          × Among r rs
          × (eligible r ≡ true)
          × Unbeaten eligible r rs)
unfolding select_route
select_route-Unbeaten eligible rs = elim (select_from-Chosen eligible none rs) [
  | inl (e, s, no_one) ↦ inl (e, no_one)
  | inr (r, e, origin, ahead, unbeaten) ↦
      let (i, t) : Among r rs × (eligible r ≡ true) = elim origin [ inl s ↦ cc | inr it ↦ it ] in
      inr (r, e, i, t, unbeaten)
]
