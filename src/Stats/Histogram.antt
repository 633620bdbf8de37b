-- ===== src/Stats/Histogram.antt =====
-- src/stats/BoundedHistogram.h. `bounds` has N entries and `buckets` N + 1.
pub mod Cumulative
use moqx.Base.{ℕ, suc, ◌+◌, ◌%◌, ◌^◌, List, [], ◌∷◌, if◌then◌else◌, leb, length}

abbrev pub u64_mod : ℕ
u64_mod = 2 ^ 64

-- `++x` on a uint64_t
abbrev pub inc : ℕ → ℕ
inc x = (x + 1) % u64_mod

pub record BoundedHistogram : Type 0 where
  pub bounds : List ℕ
  pub buckets : List ℕ
  pub sum : ℕ
  pub count : ℕ

-- `buckets{}`: one more than the bounds
zeros : List ℕ → List ℕ
zeros [] = 0 ∷ []
zeros (b ∷ bs) = 0 ∷ zeros bs

pub new : List ℕ → BoundedHistogram
unfolding zeros
new bounds = record { bounds = bounds; buckets = zeros bounds; sum = 0; count = 0 }

-- The loop of addValue, and the +Inf bucket behind it. The last clause would be a write past the
-- array; it is not met, since the buckets are one more than the bounds.
bump : List ℕ → List ℕ → ℕ → List ℕ
bump [] (n ∷ ns) val = inc n ∷ ns
bump (b ∷ bs) (n ∷ ns) val = if leb val b then inc n ∷ ns else n ∷ bump bs ns val
bump bs [] val = []

pub add_value : BoundedHistogram → ℕ → BoundedHistogram
add_value h val = record h {
  buckets = bump h.bounds h.buckets val;
  sum = (h.sum + val) % u64_mod;
  count = inc h.count;
}

-- The loop of fillCumulative with its running sum, and `out[N] = count`.
fill : ℕ → List ℕ → List ℕ → ℕ → List ℕ
fill running [] ns count = count ∷ []
fill running (b ∷ bs) (n ∷ ns) count =
    let running' = (running + n) % u64_mod in running' ∷ fill running' bs ns count
fill running (b ∷ bs) [] count = []

pub fill_cumulative : BoundedHistogram → List ℕ
fill_cumulative h = fill 0 h.bounds h.buckets h.count

pub add_values : BoundedHistogram → List ℕ → BoundedHistogram
add_values h [] = h
add_values h (v ∷ vs) = add_values (add_value h v) vs
