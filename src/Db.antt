-- ===== src/Db.antt =====
-- coordinator/internal/models/db/types.go: the rows that the coordinator reads and writes, and the
-- messages of contracts/proto that they are built from.
use mytonprovider_backend.Prelude.{ℕ, ℤ, String, Option, List}
use mytonprovider_backend.Reason.{ProtoCode, ReasonCode}

pub record ContractToProviderRelation : Type 0 where
  pub provider_public_key : String
  pub provider_address : String
  pub address : String
  pub bag_id : String
  pub size : ℕ
  pub reason : Option ℤ

pub record ContractProofsCheck : Type 0 where
  pub contract_address : String
  pub provider_address : String
  pub reason : ReasonCode

pub record IpInfo : Type 0 where
  pub public_key : List ℕ
  pub ip : String
  pub port : ℤ

pub record ProviderIp : Type 0 where
  pub public_key : String
  pub storage : IpInfo
  pub provider : IpInfo

-- `updated_at` is a number of nanoseconds since the epoch.
pub record ProviderEndpointState : Type 0 where
  pub public_key : String
  pub address : String
  pub updated_at : Option ℤ
  pub provider_ip : String
  pub provider_port : ℤ
  pub storage_ip : String
  pub storage_port : ℤ

-- One row of an agent's answer.
pub record ContractCheckResult : Type 0 where
  pub provider_pubkey : String
  pub provider_address : String
  pub contract_address : String
  pub bag_id : String
  pub reason_code : ProtoCode
  pub latency_ms : ℕ
  pub details : String

pub record RunChecksResponse : Type 0 where
  pub job_id : String
  pub agent_id : String
  pub results : List (Option ContractCheckResult)

-- `agentrpc.RunChecksResult`
pub record RunChecksResult : Type 0 where
  pub endpoint : String
  pub response : Option RunChecksResponse
