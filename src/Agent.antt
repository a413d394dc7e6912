-- ===== src/Agent.antt =====
-- agent/internal/checker: how an agent checks the bags of a provider.
pub mod Aimd
pub mod Gate
pub mod Tally
pub mod Piece
pub mod Jobs
pub mod Server
