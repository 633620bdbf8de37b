-- ===== src/NamespaceTree.antt =====
-- src/NamespaceTree.h and src/NamespaceTree.cpp, with src/relay/ClusterPath.h: the routes of a node
-- and their choice, the nodes and their counts of active children, the operations on the tree, and
-- what other parts ask of it.
pub mod Routes
pub mod Nodes
pub mod Operations
pub mod Subscriptions
pub mod Queries
pub mod Selection
pub mod Counts
pub mod Contents
pub mod Relabels
pub mod Runs
pub mod Refinement
pub mod Safety
pub mod Examples
pub mod Exclusive
pub mod Deepest
