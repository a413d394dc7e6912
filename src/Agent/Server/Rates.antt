-- ===== src/Agent/Server/Rates.antt =====
-- agent/internal/grpcserver/run_storage_rates.go: the storage rates of a list of providers. The row
-- of a provider is written by its own goroutine into its own place, so the rows are one list. The
-- call of the transport is a parameter.
pub mod Honest
use mytonprovider_backend.Prelude.{
  ℕ, ℤ, String, Bool, true, false, Option, none, some, List, [], ◌∷◌, map, length, is_empty, ltb,
  ◌==◌, if◌then◌else◌, is_blank, trim_space, hex_decode, len,
}
use mytonprovider_backend.Agent.Server.Deadline.{StorageRatesTimeouts}

pub record RunStorageRatesRequest : Type 0 where
  pub job_id : String
  pub provider_pubkeys : List String
  pub query_size : ℕ
  pub timeouts : Option StorageRatesTimeouts

-- `transport.StorageRatesResponse` of tonutils-storage-provider.
pub record StorageRates : Type 0 where
  pub available : Bool
  pub rate_per_mb_day : List ℕ
  pub min_bounty : List ℕ
  pub space_available_mb : ℕ
  pub min_span : ℕ
  pub max_span : ℕ

-- `details` of a row: its texts, and the numbers that they carry.
pub data RowDetails : Type 0 where
  no_details : RowDetails
  invalid_pubkey_length : ℕ → RowDetails
  invalid_hex : RowDetails
  invalid_decoded_length : ℕ → RowDetails
  contract_address_is_empty : RowDetails
  invalid_contract_address : RowDetails
  call_failed : String → RowDetails

-- `none` in place of the rates is a row that is not ok, whose rates are zero.
pub record StorageRatesResult : Type 0 where
  pub provider_pubkey : String
  pub rates : Option StorageRates
  pub latency_ms : ℕ
  pub details : RowDetails

pub data ValidationError : Type 0 where
  request_is_nil job_id_is_empty list_is_empty list_exceeds_max : ValidationError

-- `maxStorageRatesPubkeys` and `defaultRatesQueryMs`
abbrev pub max_storage_rates_pubkeys : ℕ
max_storage_rates_pubkeys = 4096

abbrev pub default_rates_query_ms : ℕ
default_rates_query_ms = 14000

-- The tests that the two requests share.
unfoldable pub validate_list {ℓ} : {A : Type ℓ} → String → List A → ℕ → Option ValidationError
validate_list job_id items most =
    if is_blank job_id
    then some job_id_is_empty
    else if is_empty items
    then some list_is_empty
    else if ltb most (length items)
    then some list_exceeds_max
    else none

pub validate_run_storage_rates_request : Option RunStorageRatesRequest → Option ValidationError
validate_run_storage_rates_request none = some request_is_nil
validate_run_storage_rates_request (some req) =
    validate_list req.job_id req.provider_pubkeys max_storage_rates_pubkeys

-- What a call of the transport brings, with the milliseconds that it took.
pub data Reply {ℓ} (A : Type ℓ) : Type ℓ where
  failed : ℕ → String → Reply A
  answered : ℕ → A → Reply A

-- The key of a provider, or why there is none.
pub data KeyOf : Type 0 where
  bad_key : RowDetails → KeyOf
  key : List ℕ → KeyOf

decoded : Option (List ℕ) → KeyOf
decoded none = bad_key invalid_hex
decoded (some bytes) =
    if length bytes == 32 then key bytes else bad_key (invalid_decoded_length (length bytes))

pub key_of : String → KeyOf
unfolding decoded
key_of pk =
    if len pk == 64 then decoded (hex_decode pk) else bad_key (invalid_pubkey_length (len pk))

-- `GetStorageRates` of the transport: the key, the size that is asked for, and the time limit.
abbrev pub GetStorageRates : Type 0
GetStorageRates = List ℕ → ℕ → ℕ → Reply StorageRates

rates_row : String → Reply StorageRates → StorageRatesResult
rates_row pubkey_hex (failed ms text) = record {
  provider_pubkey = pubkey_hex;
  rates = none;
  latency_ms = ms;
  details = call_failed text;
}
rates_row pubkey_hex (answered ms r) = record {
  provider_pubkey = pubkey_hex;
  rates = some r;
  latency_ms = ms;
  details = no_details;
}

-- The part of `fetchOneStorageRate` that follows the checks of the key.
fetch_rates : GetStorageRates → ℕ → ℕ → String → KeyOf → StorageRatesResult
unfolding rates_row
fetch_rates get query_size per_query_ms pubkey_hex (bad_key why) = record {
  provider_pubkey = pubkey_hex;
  rates = none;
  latency_ms = 0;
  details = why;
}
fetch_rates get query_size per_query_ms pubkey_hex (key bytes) =
    rates_row pubkey_hex (get bytes query_size per_query_ms)

pub fetch_one_storage_rate : GetStorageRates → ℕ → ℕ → String → StorageRatesResult
unfolding fetch_rates
fetch_one_storage_rate get query_size per_query_ms pubkey_hex =
    fetch_rates get query_size per_query_ms pubkey_hex (key_of (trim_space pubkey_hex))

-- What a call of the server meets: its identity, the clock, and whether the context failed.
pub record ServerCall : Type 0 where
  pub agent_id : String
  pub location : String
  pub started : ℤ
  pub finished : ℤ
  pub ctx_failed : Bool

-- The answer of an agent; `timed_out` is the warning `DEADLINE_EXCEEDED`.
pub record Response {ℓ} (Row : Type ℓ) : Type ℓ where
  pub job_id : String
  pub agent_id : String
  pub location : String
  pub started_at_unix : ℤ
  pub finished_at_unix : ℤ
  pub results : List Row
  pub timed_out : Bool

-- `invalid` is the status `InvalidArgument`.
pub data Outcome {ℓ} (R : Type ℓ) : Type ℓ where
  invalid : ValidationError → Outcome R
  responded : R → Outcome R

pub respond {ℓ} : {Row : Type ℓ} → ServerCall → String → List Row → Response Row
respond call job_id rows = record {
  job_id = job_id;
  agent_id = call.agent_id;
  location = call.location;
  started_at_unix = call.started;
  finished_at_unix = call.finished;
  results = rows;
  timed_out = call.ctx_failed;
}

rates_query_ms : Option StorageRatesTimeouts → ℕ
rates_query_ms none = default_rates_query_ms
rates_query_ms (some t) =
    if ltb 0 t.query_timeout_ms then t.query_timeout_ms else default_rates_query_ms

-- The rows of a request that is valid.
pub rates_rows : GetStorageRates → RunStorageRatesRequest → List StorageRatesResult
unfolding rates_query_ms
rates_rows get req =
    let query_size = if req.query_size == 0 then 1 else req.query_size in
    map (fetch_one_storage_rate get query_size (rates_query_ms req.timeouts)) req.provider_pubkeys

pub run_storage_rates :
    GetStorageRates
    → ServerCall
    → Option RunStorageRatesRequest
    → Outcome (Response StorageRatesResult)
run_storage_rates get call none = invalid request_is_nil
run_storage_rates get call (some req) = elim (validate_run_storage_rates_request (some req)) [
  | none ↦ responded (respond call req.job_id (rates_rows get req))
  | some e ↦ invalid e
]
