-- ===== src/Stats/Examples.antt =====
-- The theorems on the statistics of src/stats and src/relay/RecentGroupWindow.h at concrete inputs.
use moqx.Base.{◌≡◌, [], ◌∷◌, Bool, not, ltb, ℕ_Eq, contains, take, length, ◌%◌, some, Among, arith}
use moqx.Stats.Histogram.{u64_mod, add_values, fill_cumulative}
use moqx.Stats.Histogram
use moqx.Stats.Histogram.Cumulative.{expected, fill_cumulative-count_le}
use moqx.Stats.Window.{size, admit}
use moqx.Stats.Window
use moqx.Stats.Window.Recency.{admit_all, recency, admit-recency}
use moqx.Stats.Ingest.{
  AbsoluteLocation, IsStrictWeakOrder, IsAbove, record_objects, fresh_count, record_objects-counts,
  record_objects-largest,
}
use moqx.Stats.Ingest

fill_cumulative_example :
    fill_cumulative (add_values (Histogram.new (5 ∷ 10 ∷ [])) (3 ∷ 10 ∷ 20 ∷ []))
    ≡ expected (5 ∷ 10 ∷ []) (3 ∷ 10 ∷ 20 ∷ [])
fill_cumulative_example =
    fill_cumulative-count_le (5 ∷ 10 ∷ []) (3 ∷ 10 ∷ 20 ∷ []) ((omega arith, tt), (tt, tt))

admit_example :
    (admit (admit_all Window.new (1 ∷ 2 ∷ 3 ∷ 4 ∷ [])) 1).1
    ≡ not (contains (take size (recency [] (1 ∷ 2 ∷ 3 ∷ 4 ∷ []))) 1)
admit_example = admit-recency (1 ∷ 2 ∷ 3 ∷ 4 ∷ []) 1

abbrev by_group : AbsoluteLocation → AbsoluteLocation → Bool
by_group a b = ltb a.group b.group

by_group-IsStrictWeakOrder : IsStrictWeakOrder by_group
by_group-IsStrictWeakOrder = record {
  irrefl = λ a. ground arith;
  asymm = λ a b h. ground arith;
  neg_trans = λ a b c h i. ground arith;
}

abbrev first : AbsoluteLocation
first = record { group = 1; object = 0 }

abbrev second : AbsoluteLocation
second = record { group = 2; object = 5 }

counts_example :
    ((record_objects by_group Ingest.new (second ∷ first ∷ [])).objects
      ≡ length (second ∷ first ∷ []) % u64_mod)
    × ((record_objects by_group Ingest.new (second ∷ first ∷ [])).groups
        ≡ fresh_count [] (second ∷ first ∷ []) % u64_mod)
counts_example = record_objects-counts by_group (second ∷ first ∷ [])

largest_example :
    (n : AbsoluteLocation) × ((record_objects by_group Ingest.new (second ∷ first ∷ [])).largest
      ≡ some n)
    × IsAbove by_group n (second ∷ first ∷ [])
    × Among n (second ∷ first ∷ [])
largest_example = record_objects-largest by_group by_group-IsStrictWeakOrder second (first ∷ [])
