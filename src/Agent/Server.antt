-- ===== src/Agent/Server.antt =====
-- agent/internal/grpcserver: what the agent's gRPC server does before and around the checks.
pub mod Validate
pub mod Deadline
pub mod Auth
pub mod Rates
pub mod Info
