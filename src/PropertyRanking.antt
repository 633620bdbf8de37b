-- ===== src/PropertyRanking.antt =====
-- src/relay/PropertyRanking.h and src/relay/PropertyRanking.cpp: the tracks by rank, the groups of
-- subscribers, and the operations on both.
pub mod Tracks
pub mod Groups
pub mod Thresholds
pub mod Operations
pub mod Moves
pub mod Sessions
pub mod FastPath
pub mod Personal
pub mod Bounds
pub mod Consistency
pub mod Runs
pub mod Examples
