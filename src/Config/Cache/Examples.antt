-- ===== src/Config/Cache/Examples.antt =====
-- Cache settings that src/config/ConfigResolver.cpp lets pass.
use moqx.Base.{none, some, true}
use moqx.Config.Cache.{ParsedCacheConfig}

abbrev cache_defaults : ParsedCacheConfig
cache_defaults = record {
  enabled = some true;
  max_tracks = some 10;
  max_groups_per_track = some 3;
  max_cached_mb = none;
  min_eviction_kb = none;
  max_cache_duration_s = none;
  default_max_cache_duration_s = some 0;
}

abbrev cache_own : ParsedCacheConfig
cache_own = record {
  enabled = none;
  max_tracks = none;
  max_groups_per_track = some 5;
  max_cached_mb = some 8;
  min_eviction_kb = none;
  max_cache_duration_s = some 60;
  default_max_cache_duration_s = none;
}
