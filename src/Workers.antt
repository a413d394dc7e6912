-- ===== src/Workers.antt =====
-- The workers of coordinator/internal/workers/providersMaster/worker.go beside the proofs of
-- storage: the rates of the known providers, the new providers, and the contracts on the chain.
pub mod Known
pub mod NewProviders
pub mod Contracts
