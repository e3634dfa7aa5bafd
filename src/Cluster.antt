-- ===== src/Cluster.antt =====
-- include/poker/cluster and src/poker/cluster.
pub mod Registry
pub mod Router
pub mod Reaper
