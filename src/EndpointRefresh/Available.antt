-- ===== src/EndpointRefresh/Available.antt =====
-- `refreshProvidersEndpoints` of coordinator/internal/workers/providersMaster/endpoint_refresh.go:
-- the endpoints that it keeps and writes.
use mytonprovider_backend.Prelude.{
  ◌≡◌, inl, inr, String, Bool, true, false, ◌&&◌, Option, none, some, List, [], ◌∷◌, Map, KeySet,
  lookup, insert, is_empty, or_else, if◌then◌else◌, Entries, insert-Entries, All, Bool-cases,
}
use mytonprovider_backend.Db.{ContractToProviderRelation, IpInfo, ProviderIp, ProviderEndpointState}
use mytonprovider_backend.Pipeline.{Recorder}
use mytonprovider_backend.RunChecks.Request.{has_valid_resolved_storage_endpoint, group_by_provider}
use mytonprovider_backend.EndpointRefresh.Dht.{ResolveError}
use mytonprovider_backend.EndpointRefresh.{
  Refresh, cached_ips, keep_valid, note_lookup, Env, lookups, ip_at, note_overlay, asks_overlay,
  fallback, fallbacks, start, resolve_targets, persist, ip_rows, refresh_targets, with_states, Ask,
  RefreshResult, targets_of, states_of, unique_providers, unique_keys, refresh_providers_endpoints,
}

-- The endpoint can be sent to an agent.
abbrev pub IsValid : String → ProviderIp → Type 0
IsValid _ ip = has_valid_resolved_storage_endpoint ip ≡ true

-- All endpoints at hand, and all that are to be written, are valid.
pub record AreValid (r : Refresh) : Type 0 where
  pub available_valid : Entries IsValid r.available
  pub resolved_valid : Entries IsValid r.resolved

insert_if-IsValid :
    (m : Map ProviderIp) (k : String) (ip : ProviderIp)
    → Entries IsValid m
    → Entries IsValid (if has_valid_resolved_storage_endpoint ip then insert m k ip else m)
insert_if-IsValid m k ip all = elim (Bool-cases (has_valid_resolved_storage_endpoint ip)) [
  | inl v ↦ rw v (insert-Entries IsValid m k ip v all)
  | inr n ↦ rw n all
]

keep-IsValid :
    (m : Map ProviderIp) (k : String) (o : Option ProviderIp)
    → Entries IsValid m
    → Entries IsValid (keep_valid m k o)
unfolding keep_valid
keep-IsValid m k none all = all
keep-IsValid m k (some ip) all = insert_if-IsValid m k ip all

cached-IsValid :
    (last_known : Map ProviderIp) (unique : Map ContractToProviderRelation) (m : Map ProviderIp)
    → Entries IsValid m
    → Entries IsValid (cached_ips last_known unique m)
unfolding cached_ips
cached-IsValid last_known [] m all = all
cached-IsValid last_known ((k, sc) ∷ unique) m all =
    cached-IsValid last_known unique (keep_valid m k (lookup last_known k))
      (keep-IsValid m k (lookup last_known k) all)

pub start-AreValid :
    (last_known : Map ProviderIp) (unique : Map ContractToProviderRelation)
    → AreValid (start last_known unique)
unfolding start
start-AreValid last_known unique = record {
  available_valid = cached-IsValid last_known unique [] tt;
  resolved_valid = tt;
}

note_lookup-AreValid :
    (r : Refresh) (k : String) (found : ProviderIp × Option ResolveError)
    → AreValid r
    → AreValid (note_lookup r k found)
unfolding note_lookup
note_lookup-AreValid r k (ip, some e) v = record {
  available_valid = insert_if-IsValid r.available k ip v.available_valid;
  resolved_valid = v.resolved_valid;
}
note_lookup-AreValid r k (ip, none) v = elim (Bool-cases (has_valid_resolved_storage_endpoint ip)) [
  | inl valid ↦ rw valid (record {
    available_valid = insert-Entries IsValid r.available k ip valid v.available_valid;
    resolved_valid = insert-Entries IsValid r.resolved k ip valid v.resolved_valid;
  })
  | inr other ↦ rw other v
]

pub lookups-AreValid :
    (env : Env) (r : Refresh) (targets : List ContractToProviderRelation)
    → AreValid r
    → AreValid (lookups env r targets)
unfolding lookups
lookups-AreValid env r [] v = v
lookups-AreValid env r (sc ∷ scs) v =
    let k = sc.provider_public_key in
    let found = env.find_provider_ips sc in
    lookups-AreValid env (note_lookup r k found) scs (note_lookup-AreValid r k found v)

note_overlay-AreValid :
    (s : Refresh × KeySet) (k : String) (ip : ProviderIp) (o : Option IpInfo)
    → AreValid s.0
    → AreValid (note_overlay s k ip o).0
unfolding note_overlay
note_overlay-AreValid (r, failed) k ip none v = v
note_overlay-AreValid (r, failed) k ip (some storage) v =
    let found : ProviderIp = record ip { storage = storage } in
    elim (Bool-cases (has_valid_resolved_storage_endpoint found)) [
      | inl valid ↦ rw valid (record {
        available_valid = insert-Entries IsValid r.available k found valid v.available_valid;
        resolved_valid = insert-Entries IsValid r.resolved k found valid v.resolved_valid;
      })
      | inr other ↦ rw other v
    ]

module _ (env : Env) (contracts : Map (List ContractToProviderRelation)) where
  fallback-AreValid :
      (s : Refresh × KeySet) (k : String) → AreValid s.0 → AreValid (fallback env contracts s k).0
  unfolding fallback
  fallback-AreValid (r, failed) k v = elim (Bool-cases (asks_overlay r contracts k)) [
    | inl asks ↦ rw asks (
        note_overlay-AreValid (r, failed) k (ip_at r.available k)
          (env.overlay (ip_at r.available k).provider.ip (or_else [] (lookup contracts k))) v)
    | inr quiet ↦ rw quiet v
  ]

  pub fallbacks-AreValid :
      (s : Refresh × KeySet) (ks : List String)
      → AreValid s.0
      → AreValid (fallbacks env contracts s ks).0
  unfolding fallbacks
  fallbacks-AreValid s [] v = v
  fallbacks-AreValid s (k ∷ ks) v =
      fallbacks-AreValid (fallback env contracts s k) ks (fallback-AreValid s k v)

-- What a refresh gives back and what it writes is valid; the order of the lookups does not matter.
pub record GivesValid (out : RefreshResult) : Type 0 where
  pub ips_valid : Entries IsValid (or_else [] out.ips)
  pub rows_valid : All (IsValid "") (or_else [] out.persisted)

rows-IsValid : (m : Map ProviderIp) → Entries IsValid m → All (IsValid "") (ip_rows m)
unfolding ip_rows
rows-IsValid [] all = tt
rows-IsValid ((k, ip) ∷ m) (v, all) = (v, rows-IsValid m all)

GivesValid-if :
    (b : Bool) {x y : RefreshResult} → GivesValid x → GivesValid y → GivesValid (if b then x else y)
GivesValid-if true x y = x
GivesValid-if false x y = y

persist-GivesValid :
    (env : Env) (r : Refresh) (recorder : Option Recorder)
    → AreValid r
    → GivesValid (persist env r recorder)
unfolding persist
persist-GivesValid env r recorder v =
    GivesValid-if (is_empty r.resolved) (record { ips_valid = v.available_valid; rows_valid = tt })
      (record {
        ips_valid = if_ok env.update_ips_ok;
        rows_valid = rows-IsValid r.resolved v.resolved_valid;
      })
  where
    if_ok : (b : Bool) → Entries IsValid (or_else [] (if b then some r.available else none))
    if_ok true = v.available_valid
    if_ok false = tt

resolve_targets-AreValid :
    (env : Env) (scs : List ContractToProviderRelation) (unique : Map ContractToProviderRelation)
    (last_known : Map ProviderIp) (targets : List ContractToProviderRelation)
    → AreValid (resolve_targets env scs unique last_known targets).0
unfolding resolve_targets
resolve_targets-AreValid env scs unique last_known targets =
    let r = lookups env (start last_known unique) (env.turns targets) in
    fallbacks-AreValid env (group_by_provider [] scs) (r, []) r.not_found
      (lookups-AreValid env (start last_known unique) (env.turns targets)
        (start-AreValid last_known unique))

with_states-GivesValid :
    (env : Env) (ask : Ask) (unique : Map ContractToProviderRelation)
    (rows : Option (List ProviderEndpointState))
    → GivesValid (with_states env ask unique rows)
unfolding with_states refresh_targets
with_states-GivesValid env ask unique none = record { ips_valid = tt; rows_valid = tt }
with_states-GivesValid env ask unique (some rows) =
    let targets = targets_of (states_of [] rows) env.stale_ttl env.now ask.stale_only unique in
    GivesValid-if (ask.stale_only && is_empty targets) (record { ips_valid = tt; rows_valid = tt })
      (persist-GivesValid env _ _
        (resolve_targets-AreValid env ask.storage_contracts unique ask.last_known targets))

-- Every endpoint that a refresh gives back, and every row that it writes, has an address, a port and
-- a key of 32 bytes, in whatever order the lookups end.
pub refresh-GivesValid : (env : Env) (ask : Ask) → GivesValid (refresh_providers_endpoints env ask)
unfolding refresh_providers_endpoints
refresh-GivesValid env ask =
    let unique = unique_providers [] ask.storage_contracts in
    GivesValid-if (is_empty ask.storage_contracts) (record { ips_valid = tt; rows_valid = tt })
      (with_states-GivesValid env ask unique (env.endpoint_state (unique_keys unique)))
