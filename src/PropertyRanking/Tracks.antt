-- ===== src/PropertyRanking/Tracks.antt =====
-- The ranked tracks of src/relay/PropertyRanking.h. The ordered map is the list of its entries, best
-- first; the index by name, with the ranks that it caches, is a search of that list.
use moqx.Base.{
  ℕ, ◌+◌, ◌-◌, ◌^◌, List, [], ◌∷◌, Option, none, some, Bool, true, ◌&&◌, ◌||◌, not, if◌then◌else◌,
  ltb, nat_eq, ◌==◌, ℕ_Eq, FullTrackName, FullTrackName_Eq,
}

abbrev pub Ptr : Type 0
Ptr = ℕ

-- RankKey
pub record RankKey : Type 0 where
  pub value : ℕ
  pub arrival_seq : ℕ

-- RankKey's operator>: higher value, then earlier arrival.
abbrev pub outranks : RankKey → RankKey → Bool
outranks a b = ltb b.value a.value || (nat_eq a.value b.value && ltb a.arrival_seq b.arrival_seq)

abbrev pub key_eq : RankKey → RankKey → Bool
key_eq a b = nat_eq a.value b.value && nat_eq a.arrival_seq b.arrival_seq

-- RankKey's operator>=
abbrev pub at_least : RankKey → RankKey → Bool
at_least a b = outranks a b || key_eq a b

-- An entry of the ranked map, with its key.
pub record RankedTrack : Type 0 where
  pub key : RankKey
  pub ftn : FullTrackName
  pub publisher : Ptr

-- `rankedTracks_.emplace`: an entry of an equal key stays.
unfoldable pub emplace : RankedTrack → List RankedTrack → List RankedTrack
emplace t [] = t ∷ []
emplace t (u ∷ us) =
    if outranks t.key u.key
    then t ∷ u ∷ us
    else if key_eq t.key u.key
    then u ∷ us
    else u ∷ emplace t us

unfoldable pub find_track : FullTrackName → List RankedTrack → Option RankedTrack
find_track ftn [] = none
find_track ftn (t ∷ ts) = if t.ftn == ftn then some t else find_track ftn ts

-- `rankedTracks_.erase` at the iterator that the index has for the name.
unfoldable pub erase_track : FullTrackName → List RankedTrack → List RankedTrack
erase_track ftn [] = []
erase_track ftn (t ∷ ts) = if t.ftn == ftn then ts else t ∷ erase_track ftn ts

-- rebuildRankCacheIfNeeded and getCachedRank; UINT64_MAX where the name is not registered.
unfoldable pub rank_from : ℕ → FullTrackName → List RankedTrack → ℕ
rank_from rank ftn [] = 2 ^ 64 - 1
rank_from rank ftn (t ∷ ts) = if t.ftn == ftn then rank else rank_from (rank + 1) ftn ts

unfoldable pub cached_rank : FullTrackName → List RankedTrack → ℕ
unfolding rank_from
cached_rank ftn ts = rank_from 0 ftn ts

-- The loop of computeWaterlineKey.
unfoldable pub waterline_from : ℕ → Ptr → ℕ → List RankedTrack → Option RankKey
waterline_from non_self session max_selected [] = none
waterline_from non_self session max_selected (t ∷ ts) =
    let count = if t.publisher == session then non_self else non_self + 1 in
    let rest = waterline_from count session max_selected ts in
    if not (t.publisher == session) && nat_eq count max_selected then some t.key else rest

-- The key of the last of the first maxSelected tracks that are not the session's own.
unfoldable pub compute_waterline_key : Ptr → ℕ → List RankedTrack → Option RankKey
unfolding waterline_from
compute_waterline_key session max_selected ts = waterline_from 0 session max_selected ts

unfoldable pub above : Option RankKey → RankKey → Bool
above none key = true
above (some waterline) key = at_least key waterline

-- What reconcilePublisherSelection finds to be delivered.
unfoldable pub now_selected : Ptr → Option RankKey → List RankedTrack → List FullTrackName
unfolding above
now_selected session waterline [] = []
now_selected session waterline (t ∷ ts) =
    if not (t.publisher == session) && above waterline t.key
    then t.ftn ∷ now_selected session waterline ts
    else now_selected session waterline ts
