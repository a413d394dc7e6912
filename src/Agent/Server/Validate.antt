-- ===== src/Agent/Server/Validate.antt =====
-- `validateRequest` of agent/internal/grpcserver/server.go. An error that names a position or a
-- provider carries it; the text around it is the constructor.
pub mod Explained
pub mod Accepted
use mytonprovider_backend.Prelude.{
  ℕ, suc, String, Bool, not, Option, none, some, List, [], ◌∷◌, length, is_empty, is_positive, ◌==◌,
  if◌then◌else◌, is_blank,
}
use mytonprovider_backend.Shard.{ContractRef, Endpoint, ProviderBatch}
use mytonprovider_backend.RunChecks.Request.{RunChecksRequest, public_key_size}

pub data RequestError : Type 0 where
  request_is_nil : RequestError
  job_id_is_empty : RequestError
  providers_list_is_empty : RequestError
  provider_is_nil : ℕ → RequestError
  provider_pubkey_is_empty : RequestError
  provider_address_is_empty : RequestError
  contracts_are_empty : String → RequestError
  storage_endpoint_is_nil : String → RequestError
  endpoint_ip_is_empty : String → RequestError
  endpoint_port_is_invalid : String → RequestError
  adnl_pubkey_has_invalid_size : String → RequestError
  contract_is_nil : ℕ → String → RequestError
  contract_address_is_empty : String → RequestError
  bag_id_is_empty : String → RequestError

-- `if bad { return fmt.Errorf(...) }`
unfoldable pub guard : Bool → RequestError → Option RequestError
guard bad e = if bad then some e else none

-- The checks in a row: the first error is returned, and `nil` where there is none.
unfoldable pub first_error : List (Option RequestError) → Option RequestError
first_error [] = none
first_error (none ∷ os) = first_error os
first_error (some e ∷ os) = some e

pub validate_endpoint : String → Option Endpoint → Option RequestError
validate_endpoint pubkey none = some (storage_endpoint_is_nil pubkey)
validate_endpoint pubkey (some endpoint) = first_error (
    guard (is_blank endpoint.ip) (endpoint_ip_is_empty pubkey)
    ∷ guard (not (is_positive endpoint.port)) (endpoint_port_is_invalid pubkey)
    ∷ guard (not (length endpoint.adnl_pubkey == public_key_size))
        (adnl_pubkey_has_invalid_size pubkey)
    ∷ [])

-- The inner loop, over the contracts of a provider.
pub validate_contracts : String → ℕ → List (Option ContractRef) → Option RequestError
validate_contracts pubkey j [] = none
validate_contracts pubkey j (none ∷ cs) = some (contract_is_nil j pubkey)
validate_contracts pubkey j (some c ∷ cs) = first_error (
    guard (is_blank c.contract_address) (contract_address_is_empty pubkey)
    ∷ guard (is_blank c.bag_id) (bag_id_is_empty pubkey)
    ∷ validate_contracts pubkey (suc j) cs
    ∷ [])

pub validate_provider : ProviderBatch → Option RequestError
validate_provider provider =
    let pubkey = provider.provider_pubkey in
    first_error (
      guard (is_blank pubkey) provider_pubkey_is_empty
      ∷ guard (is_blank provider.provider_address) provider_address_is_empty
      ∷ guard (is_empty provider.contracts) (contracts_are_empty pubkey)
      ∷ validate_endpoint pubkey provider.storage_endpoint
      ∷ validate_contracts pubkey 0 provider.contracts
      ∷ [])

-- The loop over the providers.
unfoldable pub validate_providers : ℕ → List (Option ProviderBatch) → Option RequestError
validate_providers i [] = none
validate_providers i (none ∷ ps) = some (provider_is_nil i)
validate_providers i (some p ∷ ps) =
    first_error (validate_provider p ∷ validate_providers (suc i) ps ∷ [])

unfoldable pub validate_request : Option RunChecksRequest → Option RequestError
validate_request none = some request_is_nil
validate_request (some req) = first_error (
    guard (is_blank req.job_id) job_id_is_empty
    ∷ guard (is_empty req.providers) providers_list_is_empty
    ∷ validate_providers 0 req.providers
    ∷ [])
