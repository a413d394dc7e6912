-- ===== src/RunChecks.antt =====
-- coordinator/internal/workers/providersMaster/worker.go: one pass of checks over the agents
-- (`runStoreProofChecks`), with the request that it builds and the agents that it remembers. What
-- the gRPC calls answer is an argument.
pub mod Request
pub mod Sticky
pub mod Pass
