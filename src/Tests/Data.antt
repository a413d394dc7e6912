-- ===== src/Tests/Data.antt =====
-- Sample contracts, batches and agents.
use mytonprovider_backend.Prelude.{
  ℕ, pos, String, Option, true, false, none, some, List, [], ◌∷◌, Map, replicate, str_eq,
  if◌then◌else◌,
}
use mytonprovider_backend.Reason.{ProtoCode, ReasonCode}
use mytonprovider_backend.Db.{
  ContractToProviderRelation, ContractCheckResult, ProviderIp, RunChecksResponse, RunChecksResult,
}
use mytonprovider_backend.Rejected.{StorageContractProviders, Chain}
use mytonprovider_backend.Shard.{ContractRef, ProviderBatch}
use mytonprovider_backend.StoreProof.Merge.{MergedContractCheck}
use mytonprovider_backend.RunChecks.Request.{CheckTimeouts}
use mytonprovider_backend.RunChecks.Pass.{Agents, Memory}
use mytonprovider_backend.Pipeline.{new_recorder}

abbrev pub contract : String → String → ContractToProviderRelation
contract pubkey address = record {
  provider_public_key = pubkey;
  provider_address = "P";
  address = address;
  bag_id = "bag";
  size = 1024;
  reason = none;
}

abbrev pub contract_a : ContractToProviderRelation
contract_a = contract "aa" "C1"

abbrev pub contract_b : ContractToProviderRelation
contract_b = contract "bb" "C2"

abbrev pub bag_ref : Option ContractRef
bag_ref = some (record { contract_address = "C1"; bag_id = "bag" })

abbrev pub batch : String → ℕ → Option ProviderBatch
batch pubkey n = some (record {
  provider_pubkey = pubkey;
  provider_address = "P";
  storage_endpoint = none;
  contracts = replicate n bag_ref;
})

abbrev pub row : String → ProtoCode → Option ContractCheckResult
row address code = some (record {
  provider_pubkey = "aa";
  provider_address = "P";
  contract_address = address;
  bag_id = "bag";
  reason_code = code;
  latency_ms = 7;
  details = "stage=ping";
})

abbrev pub answer : List (Option ContractCheckResult) → RunChecksResponse
answer rows = record { job_id = "job"; agent_id = "agent"; results = rows }

abbrev pub answers : List RunChecksResult
answers =
    record { endpoint = "e1"; response = some (answer (row "C1" ProtoCode.ping_failed ∷ [])) }
    ∷ record {
      endpoint = "e2";
      response = some (answer (none ∷ row "C1" ProtoCode.valid_storage_proof ∷ []));
    }
    ∷ []

abbrev pub merged_row : ContractToProviderRelation → ReasonCode → MergedContractCheck
merged_row sc reason = record {
  check = record {
    contract_address = sc.address;
    provider_address = sc.provider_address;
    reason = reason;
  };
  details = "";
  stage = "ping";
}

-- The first contract failed by accident, and the second is proved.
abbrev pub first_results : Map MergedContractCheck
first_results =
    ("P|C1", merged_row contract_a ReasonCode.ping_failed)
    ∷ ("P|C2", merged_row contract_b ReasonCode.valid_storage_proof)
    ∷ []

abbrev pub retry_results : Map MergedContractCheck
retry_results = ("P|C1", merged_row contract_a ReasonCode.valid_storage_proof) ∷ []

abbrev pub provider_ip : String → ProviderIp
provider_ip pubkey = record {
  public_key = pubkey;
  storage = record { public_key = replicate 32 0; ip = "10.0.0.1"; port = pos 3333 };
  provider = record { public_key = replicate 32 0; ip = "10.0.0.1"; port = pos 3334 };
}

abbrev pub ips : Map ProviderIp
ips = ("aa", provider_ip "aa") ∷ []

abbrev pub timeouts : CheckTimeouts
timeouts = record { ping_ms = 1000; rldp_ms = 2000; total_ms = 60000 }

abbrev pub agents : Agents
agents = record {
  endpoints = "e1" ∷ "e2" ∷ [];
  order = λ m. m;
  answer = λ endpoint req.
      if str_eq endpoint "e1"
      then some (answer (row "C1" ProtoCode.valid_storage_proof ∷ []))
      else none;
}

abbrev pub memory : Memory
memory = record { provider_agent_success = []; recorder = new_recorder }

-- The chain answers for the first contract with its provider, and cannot read the second.
abbrev pub infos : List StorageContractProviders
infos =
    record {
      address = "C1";
      balance = 100_000_000;
      providers =
          record { key = 170 ∷ []; last_proof_time = pos 1000; rate_per_mb_day = 1; max_span = 60 }
          ∷ [];
      lite_server_error = false;
    }
    ∷ record { address = "C2"; balance = 0; providers = []; lite_server_error = true }
    ∷ []

abbrev pub chain : Chain
chain = record { get_providers_info = λ addresses. some infos; now = pos 2000; update_ok = true }
