-- ===== src/EndpointRefresh/Fallback.antt =====
-- The fallback of `refreshProvidersEndpoints` to the overlay
-- (coordinator/internal/workers/providersMaster/endpoint_refresh.go).
use mytonprovider_backend.Prelude.{
  ◌≡◌, refl, inl, inr, String, true, List, [], Map, lookup, is_blank, lookup-Entries, Option-cases,
}
use mytonprovider_backend.Db.{ContractToProviderRelation, ProviderIp}
use mytonprovider_backend.RunChecks.Request.{has_valid_resolved_storage_endpoint}
use mytonprovider_backend.EndpointRefresh.{
  Refresh, Env, lookups, ip_at, asks_overlay, fallbacks, start,
}
use mytonprovider_backend.EndpointRefresh.Available.{
  IsValid, AreValid, start-AreValid, lookups-AreValid, fallbacks-AreValid,
}

blank_empty : is_blank "" ≡ true
unfolding is_blank
blank_empty = refl

asks-valid :
    (r : Refresh) (contracts : Map (List ContractToProviderRelation)) (pubkey : String)
    → AreValid r
    → asks_overlay r contracts pubkey ≡ true
    → has_valid_resolved_storage_endpoint (ip_at r.available pubkey) ≡ true
unfolding asks_overlay
asks-valid r contracts pubkey v asks = elim (Option-cases (lookup r.available pubkey)) [
  | inl missing ↦ absurd (cc (rw (missing, blank_empty) at asks))
  | inr (ip, there) ↦
      rw there (lookup-Entries IsValid r.available pubkey ip v.available_valid there)
]

-- Whenever the fallback of a refresh searches the overlay for a provider, the refresh already holds
-- a valid storage endpoint of the provider: a provider without one is never searched for.
pub overlay-only_valid :
    (env : Env) (last_known : Map ProviderIp) (unique : Map ContractToProviderRelation)
    (targets : List ContractToProviderRelation) (contracts : Map (List ContractToProviderRelation))
    (before : List String) (pubkey : String)
    → let r = lookups env (start last_known unique) targets in
      let now = (fallbacks env contracts (r, []) before).0 in
      asks_overlay now contracts pubkey ≡ true
      → has_valid_resolved_storage_endpoint (ip_at now.available pubkey) ≡ true
overlay-only_valid env last_known unique targets contracts before pubkey asks =
    let r = lookups env (start last_known unique) targets in
    asks-valid (fallbacks env contracts (r, []) before).0 contracts pubkey
      (fallbacks-AreValid env contracts (r, []) before
        (lookups-AreValid env (start last_known unique) targets (start-AreValid last_known unique)))
      asks
