-- ===== src/Tests/Server.antt =====
-- The agent's server at concrete inputs.
use mytonprovider_backend.Prelude.{
  ◌≡◌, ◌⊎◌, refl, arith, ◌*◌, ◌+ℤ◌, pos, String, true, false, none, some, [], ◌∷◌, Entries,
  is_blank, str_eq, ◌||◌, if◌then◌else◌, trim_space,
}
use mytonprovider_backend.Tests.Data.{contract_a, ips, timeouts}
use mytonprovider_backend.Shard.{ProviderAssignment, assign_providers_to_agents}
use mytonprovider_backend.RunChecks.Request.{RunChecksRequest, build_run_checks_rpc_request}
use mytonprovider_backend.RunChecks.Request.Named.{IsNamed}
use mytonprovider_backend.Agent.Server.Validate.{
  guard, first_error, validate_providers, validate_request, provider_is_nil,
}
use mytonprovider_backend.Agent.Server.Validate.Explained.{RequestDefect, validate_request-explains}
use mytonprovider_backend.Agent.Server.Validate.Accepted.{Accepted, built-Accepted}
use mytonprovider_backend.Agent.Server.Deadline.{with_total_timeout}
use mytonprovider_backend.Agent.Server.Deadline.Bounds.{
  NotLater, IsExpired, with_total_timeout_bounds,
}
use mytonprovider_backend.Agent.Server.Auth.{auth_interceptor, client_token, outgoing}
use mytonprovider_backend.Agent.Server.Auth.Bearer.{client-admitted}
use mytonprovider_backend.Agent.Server.Rates.{
  StorageRates, StorageRatesResult, RunStorageRatesRequest, GetStorageRates, answered, ServerCall,
  Response, responded, run_storage_rates,
}
use mytonprovider_backend.Agent.Server.Rates.Honest.{Answers, run_storage_rates-Answers}

-- A request whose only provider is missing.
abbrev missing_provider : RunChecksRequest
missing_provider = record { job_id = "j"; providers = none ∷ []; timeouts = none }

missing_refused : validate_request (some missing_provider) ≡ some (provider_is_nil 0)
unfolding validate_request validate_providers first_error guard is_blank
missing_refused = refl

validate_request-explains_example : RequestDefect (some missing_provider) (provider_is_nil 0)
validate_request-explains_example =
    validate_request-explains (some missing_provider) (provider_is_nil 0) missing_refused

contract_a-IsNamed : IsNamed contract_a
unfolding is_blank
contract_a-IsNamed = record {
  has_pubkey = refl;
  has_provider_address = refl;
  has_address = refl;
  has_bag = refl;
}

job_named : is_blank "fallback" ≡ false
unfolding is_blank
job_named = refl

built-Accepted_example :
    let req = (build_run_checks_rpc_request timeouts "fallback" "job" (contract_a ∷ []) ips).0 in
    (out : ProviderAssignment) × (assign_providers_to_agents req.providers ("e1" ∷ "e2" ∷ []) [] []
      ≡ some out)
    × Entries (λ _ l. Accepted req l) out.by_endpoint
built-Accepted_example =
    built-Accepted timeouts "fallback" "job" (contract_a ∷ []) ips ("e1" ∷ "e2" ∷ []) [] []
      job_named (contract_a-IsNamed, tt)

-- A call with 50 seconds left asks for 60.
with_total_timeout_bounds_example :
    let ctx = some (pos 50_000_000_000) in
    NotLater (with_total_timeout ctx (pos 0) (pos 5) (some timeouts)) ctx
    × ((timeouts.total_ms ≡ 0)
        ⊎ IsExpired ctx (pos 0)
        ⊎ NotLater
            (with_total_timeout ctx (pos 0) (pos 5) (some timeouts))
            (some (pos 5 +ℤ pos (timeouts.total_ms * 1_000_000))))
with_total_timeout_bounds_example =
    with_total_timeout_bounds (some (pos 50_000_000_000)) (pos 0) (pos 5) timeouts

-- The token is the same on both sides, with a newline behind it.
token_kept : client_token "s3cret\n" ≡ some "s3cret"
unfolding client_token is_blank trim_space
token_kept = refl

abbrev pong : String
pong = "pong"

client-admitted_example :
    auth_interceptor "/health" "s3cret\n" (some (outgoing "s3cret")) "/RunChecks" pong ≡ (
      if str_eq "/RunChecks" "/health" || str_eq (trim_space "s3cret\n") "s3cret\n"
      then some pong
      else none)
client-admitted_example =
    client-admitted "s3cret\n" "s3cret" "s3cret\n" "/health" "/RunChecks" pong token_kept

-- Both sides trim the token that they compare, but the agent does not trim its own.
refused_with_newline :
    auth_interceptor "/health" "s3cret\n" (some (outgoing "s3cret")) "/RunChecks" pong ≡ none
unfolding trim_space
refused_with_newline = client-admitted_example

abbrev some_rates : StorageRates
some_rates = record {
  available = true;
  rate_per_mb_day = 1 ∷ 0 ∷ [];
  min_bounty = 5 ∷ [];
  space_available_mb = 100;
  min_span = 60;
  max_span = 3600;
}

abbrev transport : GetStorageRates
transport key size ms = answered 12 some_rates

abbrev server_call : ServerCall
server_call = record {
  agent_id = "agent";
  location = "eu";
  started = pos 1;
  finished = pos 2;
  ctx_failed = false;
}

abbrev rates_request : RunStorageRatesRequest
rates_request = record {
  job_id = "job";
  provider_pubkeys =
      "000102030405060708090a0b0c0d0e0f101112131415161718191a1b1c1d1e1f" ∷ "short" ∷ [];
  query_size = 0;
  timeouts = none;
}

rates_named : is_blank rates_request.job_id ≡ false
unfolding is_blank
rates_named = refl

run_storage_rates-Answers_example :
    (resp : Response StorageRatesResult) × (run_storage_rates transport server_call
        (some rates_request)
      ≡ responded resp)
    × Answers transport rates_request resp
run_storage_rates-Answers_example =
    run_storage_rates-Answers transport server_call rates_request rates_named (omega arith)
      (omega arith)
