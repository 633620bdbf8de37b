-- ===== src/Stats.antt =====
-- src/stats and the counters of src/SubscriptionRegistry.h: bounded histograms, the window of
-- recent groups, and the ingest counters of one track.
pub mod Histogram
pub mod Window
pub mod Ingest
pub mod Examples
