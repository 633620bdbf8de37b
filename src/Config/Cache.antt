-- ===== src/Config/Cache.antt =====
-- The cache settings of a service: src/config/ConfigResolver.cpp, with ParsedCacheConfig of
-- src/config/loader/ParsedConfig.h and CacheConfig of src/config/Config.h.
pub mod Resolution
pub mod Examples
use moqx.Base.{
  ℕ, ◌*◌, List, [], ◌∷◌, ◌++◌, Option, none, some, Bool, true, false, ◌&&◌, if◌then◌else◌, ltb,
  nat_eq,
}

pub record ParsedCacheConfig : Type 0 where
  pub enabled : Option Bool
  pub max_tracks : Option ℕ
  pub max_groups_per_track : Option ℕ
  pub max_cached_mb : Option ℕ
  pub min_eviction_kb : Option ℕ
  pub max_cache_duration_s : Option ℕ
  pub default_max_cache_duration_s : Option ℕ

-- Durations are in milliseconds.
pub record CacheConfig : Type 0 where
  pub max_cached_tracks : ℕ
  pub max_cached_groups_per_track : ℕ
  pub max_cached_mb : ℕ
  pub min_eviction_kb : ℕ
  pub max_cache_duration : ℕ
  pub default_max_cache_duration : Option ℕ

overlay_or {ℓ} : {A : Type ℓ} → Option A → Option A → Option A
overlay_or none base = base
overlay_or (some x) base = some x

value_or {ℓ} : {A : Type ℓ} → Option A → A → A
value_or none d = d
value_or (some x) d = x

pub merge_cache_configs : ParsedCacheConfig → ParsedCacheConfig → ParsedCacheConfig
unfolding overlay_or
merge_cache_configs base overlay = record {
  enabled = overlay_or overlay.enabled base.enabled;
  max_tracks = overlay_or overlay.max_tracks base.max_tracks;
  max_groups_per_track = overlay_or overlay.max_groups_per_track base.max_groups_per_track;
  max_cached_mb = overlay_or overlay.max_cached_mb base.max_cached_mb;
  min_eviction_kb = overlay_or overlay.min_eviction_kb base.min_eviction_kb;
  max_cache_duration_s = overlay_or overlay.max_cache_duration_s base.max_cache_duration_s;
  default_max_cache_duration_s =
      overlay_or overlay.default_max_cache_duration_s base.default_max_cache_duration_s;
}

no_cache : ParsedCacheConfig
no_cache = record {
  enabled = none;
  max_tracks = none;
  max_groups_per_track = none;
  max_cached_mb = none;
  min_eviction_kb = none;
  max_cache_duration_s = none;
  default_max_cache_duration_s = none;
}

-- `merged` of validateService: the service's settings over the defaults.
pub merged_cache : Option ParsedCacheConfig → Option ParsedCacheConfig → ParsedCacheConfig
unfolding no_cache
merged_cache (some defaults) (some own) = merge_cache_configs defaults own
merged_cache none (some own) = own
merged_cache (some defaults) none = defaults
merged_cache none none = no_cache

pub data CacheProblem : Type 0 where
  enabled_required max_tracks_required max_groups_required max_groups_too_small : CacheProblem
  duration_zero cached_mb_zero : CacheProblem

required {ℓ} : {A : Type ℓ} → Option A → CacheProblem → List CacheProblem
required none p = p ∷ []
required (some x) p = []

groups_too_small : Option Bool → Option ℕ → List CacheProblem
groups_too_small (some true) (some n) = if ltb n 1 then max_groups_too_small ∷ [] else []
groups_too_small (some true) none = []
groups_too_small (some false) n = []
groups_too_small none n = []

not_zero : Option ℕ → CacheProblem → List CacheProblem
not_zero none p = []
not_zero (some n) p = if nat_eq n 0 then p ∷ [] else []

-- What validateService reports of the merged settings.
pub validate_cache : ParsedCacheConfig → List CacheProblem
unfolding required groups_too_small not_zero
validate_cache c =
    required c.enabled enabled_required
    ++ (required c.max_tracks max_tracks_required
        ++ (required c.max_groups_per_track max_groups_required
            ++ (groups_too_small c.enabled c.max_groups_per_track
                ++ (not_zero c.max_cache_duration_s duration_zero
                    ++ not_zero c.max_cached_mb cached_mb_zero))))

resolve_fields : ParsedCacheConfig → Option Bool → Option ℕ → Option ℕ → Option CacheConfig
unfolding value_or overlay_or
resolve_fields c none tracks groups = none
resolve_fields c (some true) none groups = none
resolve_fields c (some enabled) tracks none = none
resolve_fields c (some true) (some tracks) (some groups) = some (record {
  max_cached_tracks = tracks;
  max_cached_groups_per_track = groups;
  max_cached_mb = value_or c.max_cached_mb 16;
  min_eviction_kb = value_or c.min_eviction_kb 64;
  max_cache_duration = value_or c.max_cache_duration_s 86400 * 1000;
  default_max_cache_duration =
      some
        (value_or (overlay_or c.default_max_cache_duration_s c.max_cache_duration_s) 86400 * 1000);
})
resolve_fields c (some false) tracks (some groups) = some (record {
  max_cached_tracks = 0;
  max_cached_groups_per_track = groups;
  max_cached_mb = value_or c.max_cached_mb 16;
  min_eviction_kb = value_or c.min_eviction_kb 64;
  max_cache_duration = value_or c.max_cache_duration_s 86400 * 1000;
  default_max_cache_duration =
      some
        (value_or (overlay_or c.default_max_cache_duration_s c.max_cache_duration_s) 86400 * 1000);
})

-- resolveCacheConfig; `none` is the dereference of an empty std::optional.
pub resolve_cache_config : ParsedCacheConfig → Option CacheConfig
unfolding resolve_fields
resolve_cache_config c = resolve_fields c c.enabled c.max_tracks c.max_groups_per_track
