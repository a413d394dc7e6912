-- ===== src/Agent/Server/Validate/Accepted.antt =====
-- `validateRequest` of agent/internal/grpcserver/server.go on the requests that the coordinator
-- sends: `buildRunChecksRPCRequest`, `assignProvidersToAgents` and `fanoutRunChecks` of
-- coordinator/internal/workers/providersMaster.
use mytonprovider_backend.Prelude.{
  ℕ, suc, ◌≡◌, refl, ap, ◌∙◌, String, Bool, true, false, Option, none, some, List, [], ◌∷◌, map,
  is_blank, All, Map, Entries,
}
use mytonprovider_backend.Db.{ContractToProviderRelation, ProviderIp}
use mytonprovider_backend.Shard.{
  ContractRef, Endpoint, ProviderBatch, ProviderAssignment, assign_providers_to_agents,
}
use mytonprovider_backend.Shard.Every.{EachPlaced, assign-Every}
use mytonprovider_backend.RunChecks.Request.{
  CheckTimeouts, RunChecksRequest, build_run_checks_rpc_request,
}
use mytonprovider_backend.RunChecks.Request.Named.{
  IsNamed, IsNamedRef, IsResolved, IsComplete, build_run_checks-AreComplete,
  build_run_checks-has_job,
}
use mytonprovider_backend.RunChecks.Pass.{wrap_batches}
use mytonprovider_backend.Agent.Server.Validate.{
  RequestError, guard, first_error, validate_endpoint, validate_contracts, validate_provider,
  validate_providers, validate_request,
}

first_error-none :
    (os : List (Option RequestError)) → All (λ o. o ≡ none) os → first_error os ≡ none
unfolding first_error
first_error-none [] all = refl
first_error-none (none ∷ os) (h, all) = first_error-none os all
first_error-none (some e ∷ os) (h, all) = h

guard-none : (bad : Bool) (e : RequestError) → bad ≡ false → guard bad e ≡ none
unfolding guard
guard-none true e h = cc
guard-none false e h = refl

contracts-pass :
    (pubkey : String) (j : ℕ) (refs : List ContractRef)
    → All IsNamedRef refs
    → validate_contracts pubkey j (map some refs) ≡ none
unfolding validate_contracts guard first_error
contracts-pass pubkey j [] ns = refl
contracts-pass pubkey j (c ∷ cs) (n, ns) =
    rw (n.has_address, n.has_bag, contracts-pass pubkey (suc j) cs ns)

endpoint-passes :
    (pubkey : String) (e : Endpoint) → IsResolved e → validate_endpoint pubkey (some e) ≡ none
unfolding validate_endpoint guard first_error
endpoint-passes pubkey e r = rw (r.has_ip, r.has_port, r.has_adnl)

provider-passes : (b : ProviderBatch) → IsComplete b → validate_provider b ≡ none
unfolding validate_provider
provider-passes b c =
    let pubkey = b.provider_pubkey in
    let endpoint =
      ap (validate_endpoint pubkey) c.has_endpoint
      ∙ endpoint-passes pubkey c.endpoint c.is_resolved in
    let refs =
      ap (validate_contracts pubkey 0) c.holds_refs ∙ contracts-pass pubkey 0 c.refs c.are_named in
    first_error-none _ (
      guard-none _ _ c.has_pubkey,
      (guard-none _ _ c.has_address, (guard-none _ _ c.has_contracts, (endpoint, (refs, tt)))),
    )

providers-pass :
    (i : ℕ) (bs : List ProviderBatch)
    → All IsComplete bs
    → validate_providers i (wrap_batches bs) ≡ none
unfolding validate_providers wrap_batches first_error
providers-pass i [] cs = refl
providers-pass i (b ∷ bs) (c, cs) = rw (provider-passes b c, providers-pass (suc i) bs cs)

request-passes :
    (req : RunChecksRequest) (b : ProviderBatch) (bs : List ProviderBatch)
    → is_blank req.job_id ≡ false
    → All IsComplete (b ∷ bs)
    → validate_request (some (record req { providers = wrap_batches (b ∷ bs) })) ≡ none
unfolding validate_request guard first_error wrap_batches
request-passes req b bs job cs = rw (job, providers-pass 0 (b ∷ bs) cs)

-- What an endpoint is sent for its list of batches; an endpoint with no batches is not asked.
abbrev pub Accepted : RunChecksRequest → List ProviderBatch → Type 0
Accepted req [] = Unit
Accepted req (b ∷ bs) =
    validate_request (some (record req { providers = wrap_batches (b ∷ bs) })) ≡ none

lists-Accepted :
    (req : RunChecksRequest) (m : Map (List ProviderBatch))
    → is_blank req.job_id ≡ false
    → EachPlaced IsComplete m
    → Entries (λ _ l. Accepted req l) m
lists-Accepted req [] job all = tt
lists-Accepted req ((k, []) ∷ m) job (_, all) = (tt, lists-Accepted req m job all)
lists-Accepted req ((k, b ∷ bs) ∷ m) job (cs, all) =
    (request-passes req b bs job cs, lists-Accepted req m job all)

-- If the texts of every relation are not blank, and the identifier made from the clock is not, then
-- the sharding of the request that is built does not panic, and the request that an endpoint is
-- sent for its share passes the validation of the agent.
pub built-Accepted :
    (timeouts : CheckTimeouts) (fallback job : String) (scs : List ContractToProviderRelation)
    (ips : Map ProviderIp) (endpoints : List String) (sticky exclude : Map String)
    → is_blank fallback ≡ false
    → All IsNamed scs
    → let req = (build_run_checks_rpc_request timeouts fallback job scs ips).0 in
      (out : ProviderAssignment) × (assign_providers_to_agents req.providers endpoints sticky
          exclude
        ≡ some out)
      × Entries (λ _ l. Accepted req l) out.by_endpoint
built-Accepted timeouts fallback job scs ips endpoints sticky exclude clock ns =
    let req = (build_run_checks_rpc_request timeouts fallback job scs ips).0 in
    let (out, eq, all) =
      assign-Every IsComplete req.providers endpoints sticky exclude
        (build_run_checks-AreComplete timeouts fallback job scs ips ns) in
    (
      out,
      eq,
      lists-Accepted req out.by_endpoint
          (build_run_checks-has_job timeouts fallback job scs ips clock) all,
    )
