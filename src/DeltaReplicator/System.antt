-- ===== src/DeltaReplicator/System.antt =====
-- framework/delta_replicator.cpp: the two ends together, a server that gets calls and a client that its
-- messages reach.
pub mod Telling
pub mod Arriving
pub mod Showing
