-- ===== src/PropertyRanking/Thresholds.antt =====
-- The state of src/relay/PropertyRanking.h, and the thresholds by which
-- src/relay/PropertyRanking.cpp tells whether a move of a track matters to anyone.
use moqx.Base.{
  ℕ, ◌+◌, ◌%◌, ◌^◌, List, [], ◌∷◌, Option, none, some, Bool, true, false, ◌&&◌, ◌||◌, not,
  if◌then◌else◌, ltb, leb, ℕ_Eq, max, min, find_if, map,
}
use moqx.Base.Assoc
use moqx.PropertyRanking.Tracks.{Ptr, RankedTrack}
use moqx.PropertyRanking.Groups.{SessionInfo, TopNGroup, View}

-- The times are milliseconds.
pub record PropertyRanking : Type 0 where
  pub max_deselected : ℕ
  pub idle_timeout : ℕ
  pub sweep_throttle : ℕ
  pub last_sweep_time : Option ℕ
  pub ranked_tracks : List RankedTrack
  pub top_n_groups : List (ℕ × TopNGroup)
  pub publisher_track_count : List (Ptr × ℕ)
  pub next_seq : ℕ
  pub selection_threshold : ℕ
  pub publisher_extended_threshold : ℕ
  pub sorted_thresholds : List ℕ

abbrev pub view : PropertyRanking → View
view r = record {
  tracks = r.ranked_tracks;
  publisher_track_count = r.publisher_track_count;
  max_deselected = r.max_deselected;
}

-- The largest N.
unfoldable pub max_n : List (ℕ × TopNGroup) → ℕ
max_n [] = 0
max_n ((n, g) ∷ gs) = max n (max_n gs)

unfoldable pub own_extent : ℕ → Option ℕ → ℕ
own_extent n none = 0
own_extent n (some own) = (n + own) % 2 ^ 64

unfoldable pub sessions_extent : ℕ → List (Ptr × ℕ) → List (Ptr × SessionInfo) → ℕ
unfolding own_extent
sessions_extent n counts [] = 0
sessions_extent n counts ((session, info) ∷ m) =
    max (own_extent n (Assoc.find session counts)) (sessions_extent n counts m)

-- The largest N + (number of own tracks), which wraps, of the sessions that publish.
unfoldable pub max_extended : List (Ptr × ℕ) → List (ℕ × TopNGroup) → ℕ
unfolding sessions_extent
max_extended counts [] = 0
max_extended counts ((n, g) ∷ gs) =
    max (sessions_extent n counts g.sessions) (max_extended counts gs)

unfoldable pub update_publisher_extended_threshold : PropertyRanking → PropertyRanking
unfolding max_extended
update_publisher_extended_threshold r = record r {
  publisher_extended_threshold =
      (max_extended r.publisher_track_count r.top_n_groups + r.max_deselected) % 2 ^ 64;
}

-- `sort` is std::sort.
unfoldable pub update_selection_threshold : (List ℕ → List ℕ) → PropertyRanking → PropertyRanking
unfolding max_n
update_selection_threshold sort r = record r {
  sorted_thresholds = sort (map (λ e. e.0) r.top_n_groups);
  selection_threshold = (max_n r.top_n_groups + r.max_deselected) % 2 ^ 64;
}

-- std::upper_bound's element: the first above the bound, in the order of the list.
unfoldable pub upper_bound : ℕ → List ℕ → Option ℕ
upper_bound bound ns = find_if (λ n. ltb bound n) ns

unfoldable pub at_most : ℕ → Option ℕ → Bool
at_most bound none = false
at_most bound (some n) = leb n bound

abbrev pub is_empty : {A : Type 0} → List A → Bool
is_empty [] = true
is_empty (x ∷ xs) = false

-- The last part of crossesThreshold: a publisher's own window.
unfoldable pub in_extended_window : PropertyRanking → ℕ → ℕ → Bool
unfolding max_extended max_n
in_extended_window r low high =
    let extended =
      max (max_n r.top_n_groups) (max_extended r.publisher_track_count r.top_n_groups) in
    not (is_empty r.publisher_track_count) && (ltb low extended || ltb high extended)

unfoldable pub crosses_threshold : PropertyRanking → ℕ → ℕ → Bool
unfolding upper_bound at_most in_extended_window
crosses_threshold r old_rank new_rank =
    let effective = max r.selection_threshold r.publisher_extended_threshold in
    let low = min old_rank new_rank in
    let high = max old_rank new_rank in
    let old_in = ltb old_rank r.selection_threshold in
    let new_in = ltb new_rank r.selection_threshold in
    if is_empty r.top_n_groups || (leb effective old_rank && leb effective new_rank)
    then false
    else if (old_in && not new_in) || (not old_in && new_in)
    then true
    else at_most high (upper_bound low r.sorted_thresholds) || in_extended_window r low high
