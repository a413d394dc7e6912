-- ===== src/Agent/Server/Info.antt =====
-- agent/internal/grpcserver/run_storage_info.go: what the providers say of their contracts. The call
-- of the transport and the parser of addresses are parameters.
use mytonprovider_backend.Prelude.{
  ℕ, String, Option, none, some, List, map, ltb, if◌then◌else◌, trim_space, str_eq,
}
use mytonprovider_backend.Agent.Server.Deadline.{StorageInfoTimeouts}
use mytonprovider_backend.Agent.Server.Rates.{
  RowDetails, no_details, contract_address_is_empty, invalid_contract_address, call_failed,
  ValidationError, request_is_nil, validate_list, Reply, failed, answered, KeyOf, bad_key, key,
  key_of, ServerCall, Response, Outcome, invalid, responded, respond,
}

pub record StorageInfoQuery : Type 0 where
  pub provider_pubkey : String
  pub contract_address : String
  pub byte_to_proof : ℕ

pub record RequestStorageInfoRequest : Type 0 where
  pub job_id : String
  pub queries : List StorageInfoQuery
  pub timeouts : Option StorageInfoTimeouts

-- `transport.StorageResponse` of tonutils-storage-provider.
pub record StorageInfo : Type 0 where
  pub status : String
  pub reason : String
  pub downloaded : ℕ
  pub proof : List ℕ

-- `none` in place of the info is a row that is not ok.
pub record StorageInfoResult : Type 0 where
  pub provider_pubkey : String
  pub contract_address : String
  pub info : Option StorageInfo
  pub latency_ms : ℕ
  pub details : RowDetails

abbrev pub max_storage_info_queries : ℕ
max_storage_info_queries = 4096

abbrev pub default_storage_info_query_ms : ℕ
default_storage_info_query_ms = 10000

pub validate_request_storage_info_request :
    Option RequestStorageInfoRequest → Option ValidationError
validate_request_storage_info_request none = some request_is_nil
validate_request_storage_info_request (some req) =
    validate_list req.job_id req.queries max_storage_info_queries

-- What the handler meets: the parser of addresses, and `RequestStorageInfo` of the transport with
-- the key, the contract, the byte to prove and the time limit.
pub record InfoTransport : Type 1 where
  pub Address : Type 0
  pub parse_addr : String → Option Address
  pub request : List ℕ → Address → ℕ → ℕ → Reply StorageInfo

module _ (t : InfoTransport) where
  info_row : String → String → Reply StorageInfo → StorageInfoResult
  info_row pk address (failed ms text) = record {
    provider_pubkey = pk;
    contract_address = address;
    info = none;
    latency_ms = ms;
    details = call_failed text;
  }
  info_row pk address (answered ms i) = record {
    provider_pubkey = pk;
    contract_address = address;
    info = some i;
    latency_ms = ms;
    details = no_details;
  }

  refused : String → String → RowDetails → StorageInfoResult
  refused pk address why = record {
    provider_pubkey = pk;
    contract_address = address;
    info = none;
    latency_ms = 0;
    details = why;
  }

  ask_info : List ℕ → String → String → ℕ → ℕ → Option t.Address → StorageInfoResult
  unfolding info_row refused
  ask_info bytes pk address byte_to_proof per_query_ms none =
      refused pk address invalid_contract_address
  ask_info bytes pk address byte_to_proof per_query_ms (some addr) =
      info_row pk address (t.request bytes addr byte_to_proof per_query_ms)

  fetch_info : String → String → ℕ → ℕ → KeyOf → StorageInfoResult
  unfolding ask_info refused
  fetch_info pk address byte_to_proof per_query_ms (bad_key why) = refused pk address why
  fetch_info pk address byte_to_proof per_query_ms (key bytes) =
      if str_eq address ""
      then refused pk address contract_address_is_empty
      else ask_info bytes pk address byte_to_proof per_query_ms (t.parse_addr address)

  pub fetch_one_storage_info : ℕ → StorageInfoQuery → StorageInfoResult
  unfolding fetch_info
  fetch_one_storage_info per_query_ms q =
      let pk = trim_space q.provider_pubkey in
      fetch_info pk (trim_space q.contract_address) q.byte_to_proof per_query_ms (key_of pk)

  info_query_ms : Option StorageInfoTimeouts → ℕ
  info_query_ms none = default_storage_info_query_ms
  info_query_ms (some timeouts) =
      if ltb 0 timeouts.query_timeout_ms
      then timeouts.query_timeout_ms
      else default_storage_info_query_ms

  pub request_storage_info :
      ServerCall → Option RequestStorageInfoRequest → Outcome (Response StorageInfoResult)
  unfolding info_query_ms
  request_storage_info call none = invalid request_is_nil
  request_storage_info call (some req) = elim (validate_request_storage_info_request (some req)) [
    | none ↦ responded (
        respond call req.job_id
          (map (fetch_one_storage_info (info_query_ms req.timeouts)) req.queries))
    | some e ↦ invalid e
  ]
