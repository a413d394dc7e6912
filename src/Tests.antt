-- ===== src/Tests.antt =====
-- Runs of the model, and the theorems at concrete inputs.
mod Data
mod Shard
mod StoreProof
mod RunChecks
mod Pipeline
mod Reason
mod Cycle
mod Agent
mod Jobs
mod Cache
mod Server
mod Workers
mod EndpointRefresh
mod Rejected
