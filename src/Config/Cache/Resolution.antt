-- ===== src/Config/Cache/Resolution.antt =====
-- Settings that src/config/ConfigResolver.cpp does not complain of resolve to a CacheConfig with them.
use moqx.Base.{◌*◌, ◌≤◌, ◌≡◌, Option, none, some, Bool, true, false}
use moqx.Config.Cache.{ParsedCacheConfig, CacheConfig}

abbrev set_by : {A : Type 0} → (ParsedCacheConfig → Option A) → Option ParsedCacheConfig → Option A
set_by field none = none
set_by field (some p) = field p

abbrev first_set : {A : Type 0} → Option A → Option A → Option A
first_set (some x) later = some x
first_set none later = later

abbrev or_default : {A : Type 0} → A → Option A → A
or_default d none = d
or_default d (some x) = x

-- A setting, of the service or else of the defaults.
abbrev setting :
    {A : Type 0}
    → (ParsedCacheConfig → Option A)
    → Option ParsedCacheConfig
    → Option ParsedCacheConfig
    → Option A
setting field defaults own = first_set (set_by field own) (set_by field defaults)

abbrev pub settings : Option ParsedCacheConfig → Option ParsedCacheConfig → ParsedCacheConfig
settings defaults own = record {
  enabled = setting (λ p. p.enabled) defaults own;
  max_tracks = setting (λ p. p.max_tracks) defaults own;
  max_groups_per_track = setting (λ p. p.max_groups_per_track) defaults own;
  max_cached_mb = setting (λ p. p.max_cached_mb) defaults own;
  min_eviction_kb = setting (λ p. p.min_eviction_kb) defaults own;
  max_cache_duration_s = setting (λ p. p.max_cache_duration_s) defaults own;
  default_max_cache_duration_s = setting (λ p. p.default_max_cache_duration_s) defaults own;
}

-- The field of CacheConfig that each setting becomes, what stands for one that is not set, and what
-- an enabled cache has at least.
pub record Resolved (p : ParsedCacheConfig) (c : CacheConfig) : Type 0 where
  pub switch : (b : Bool) × (p.enabled ≡ some b)
  pub tracks : p.enabled ≡ some true → p.max_tracks ≡ some c.max_cached_tracks
  pub disabled : p.enabled ≡ some false → c.max_cached_tracks ≡ 0
  pub groups : p.max_groups_per_track ≡ some c.max_cached_groups_per_track
  pub some_group : p.enabled ≡ some true → 1 ≤ c.max_cached_groups_per_track
  pub size : c.max_cached_mb ≡ or_default 16 p.max_cached_mb
  pub some_size : 1 ≤ c.max_cached_mb
  pub eviction : c.min_eviction_kb ≡ or_default 64 p.min_eviction_kb
  pub duration : c.max_cache_duration ≡ or_default 86400 p.max_cache_duration_s * 1000
  pub some_duration : 1000 ≤ c.max_cache_duration
  pub default_duration :
      c.default_max_cache_duration
      ≡ some (
          or_default 86400 (first_set p.default_max_cache_duration_s p.max_cache_duration_s) * 1000)
