-- ===== src/StoreProof.antt =====
-- coordinator/internal/workers/providersMaster: the merge of the answers of the agents (`Merge`),
-- and the choice of what is written (`Commit`).
pub mod Merge
pub mod Commit
