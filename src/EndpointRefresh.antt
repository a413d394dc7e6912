-- ===== src/EndpointRefresh.antt =====
-- coordinator/internal/workers/providersMaster/endpoint_refresh.go: where the providers of a list of
-- contracts can be reached. The goroutines that look the providers up end in the order of `turns`;
-- each takes the lock once. The lookups, the database and the clock are parameters.
pub mod Dht
pub mod Available
pub mod Fallback
use mytonprovider_backend.Prelude.{
  ℕ, ℤ, pos, ◌-ℤ◌, ltb_ℤ, is_positive, String, Bool, true, false, not, ◌&&◌, ◌||◌, Option, none,
  some, List, [], ◌∷◌, ◌++◌, Map, KeySet, lookup, insert, or_else, is_some, is_empty, is_blank,
  str_eq, if◌then◌else◌,
}
use mytonprovider_backend.Db.{ContractToProviderRelation, IpInfo, ProviderIp, ProviderEndpointState}
use mytonprovider_backend.Pipeline.{
  Recorder, EventStatus, load_provider_statuses, record_provider_resolve, stage_endpoint_resolve,
}
use mytonprovider_backend.RunChecks.Request.{has_valid_resolved_storage_endpoint, group_by_provider}
use mytonprovider_backend.EndpointRefresh.Dht.{
  ResolveError, resolve_stage_from_err, staged, plain, zero_ip,
}

-- The duration is in nanoseconds.
pub is_endpoint_state_stale : ProviderEndpointState → ℤ → ℤ → Bool
is_endpoint_state_stale state ttl now =
    if is_blank state.storage_ip || not (is_positive state.storage_port)
    then true
    else elim state.updated_at [
      | none ↦ true
      | some updated_at ↦ if not (is_positive ttl) then false else ltb_ℤ ttl (now -ℤ updated_at)
    ]

-- `uniqueProviders`: the first relation of each provider.
pub unique_providers :
    Map ContractToProviderRelation
    → List ContractToProviderRelation
    → Map ContractToProviderRelation
unique_providers unique [] = unique
unique_providers unique (sc ∷ scs) =
    unique_providers
      (if is_some (lookup unique sc.provider_public_key)
        then unique
        else insert unique sc.provider_public_key sc)
      scs

pub states_of : Map ProviderEndpointState → List ProviderEndpointState → Map ProviderEndpointState
states_of states [] = states
states_of states (row ∷ rows) = states_of (insert states row.public_key row) rows

is_stale_at : Option ProviderEndpointState → ℤ → ℤ → Bool
is_stale_at none ttl now = true
is_stale_at (some state) ttl now = is_endpoint_state_stale state ttl now

-- `targets`
pub targets_of :
    Map ProviderEndpointState
    → ℤ
    → ℤ
    → Bool
    → Map ContractToProviderRelation
    → List ContractToProviderRelation
unfolding is_stale_at
targets_of states ttl now stale_only [] = []
targets_of states ttl now stale_only ((pubkey, contract) ∷ unique) =
    let rest = targets_of states ttl now stale_only unique in
    if stale_only && not (is_stale_at (lookup states pubkey) ttl now) then rest else contract ∷ rest

-- What one refresh keeps: the endpoints at hand, those to write, the ones that the worker remembers
-- beyond it, the providers that were not found, and the errors.
pub record Refresh : Type 0 where
  pub available : Map ProviderIp
  pub resolved : Map ProviderIp
  pub last_known : Map ProviderIp
  pub not_found : List String
  pub errors : Map ResolveError

keep_valid : Map ProviderIp → String → Option ProviderIp → Map ProviderIp
keep_valid available pubkey none = available
keep_valid available pubkey (some ip) =
    if has_valid_resolved_storage_endpoint ip then insert available pubkey ip else available

-- The endpoints that the worker remembers, where they are valid.
unfoldable pub cached_ips :
    Map ProviderIp → Map ContractToProviderRelation → Map ProviderIp → Map ProviderIp
unfolding keep_valid
cached_ips last_known [] available = available
cached_ips last_known ((pubkey, _) ∷ unique) available =
    cached_ips last_known unique (keep_valid available pubkey (lookup last_known pubkey))

-- The end of a lookup, under the lock.
unfoldable pub note_lookup : Refresh → String → ProviderIp × Option ResolveError → Refresh
note_lookup r pubkey (ip, some e) = record r {
  not_found = r.not_found ++ pubkey ∷ [];
  errors = if is_some (lookup r.errors pubkey) then r.errors else insert r.errors pubkey e;
  available =
      if has_valid_resolved_storage_endpoint ip then insert r.available pubkey ip else r.available;
}
note_lookup r pubkey (ip, none) =
    if has_valid_resolved_storage_endpoint ip
    then record r {
      available = insert r.available pubkey ip;
      resolved = insert r.resolved pubkey ip;
      last_known = insert r.last_known pubkey ip;
    }
    else r

-- What a refresh meets. `overlay` is `findStorageIPOverlay`, whose errors are `none`.
pub record Env : Type 0 where
  pub stale_ttl : ℤ
  pub now : ℤ
  pub endpoint_state : List String → Option (List ProviderEndpointState)
  pub event_statuses : List String → Option (Map EventStatus)
  pub turns : List ContractToProviderRelation → List ContractToProviderRelation
  pub find_provider_ips : ContractToProviderRelation → ProviderIp × Option ResolveError
  pub overlay : String → List ContractToProviderRelation → Option IpInfo
  pub update_ips_ok : Bool

module _ (env : Env) where
  unfoldable pub lookups : Refresh → List ContractToProviderRelation → Refresh
  lookups r [] = r
  lookups r (sc ∷ scs) =
      lookups (note_lookup r sc.provider_public_key (env.find_provider_ips sc)) scs

-- `availableProvidersIPs[pk]`, which is the zero value where the key is missing.
abbrev pub ip_at : Map ProviderIp → String → ProviderIp
ip_at m pubkey =
    or_else (record { public_key = ""; storage = zero_ip; provider = zero_ip }) (lookup m pubkey)

-- What the fallback finds for a provider: `failed` where the overlay is searched in vain.
pub note_overlay : Refresh × KeySet → String → ProviderIp → Option IpInfo → Refresh × KeySet
note_overlay (r, failed) pubkey ip none = (r, insert failed pubkey tt)
note_overlay (r, failed) pubkey ip (some storage) =
    let found : ProviderIp = record ip { storage = storage } in
    if has_valid_resolved_storage_endpoint found
    then (
      record r {
        available = insert r.available pubkey found;
        resolved = insert r.resolved pubkey found;
        last_known = insert r.last_known pubkey found;
      },
      failed,
    )
    else (r, failed)

-- Whether the overlay is searched for a provider.
unfoldable pub asks_overlay : Refresh → Map (List ContractToProviderRelation) → String → Bool
asks_overlay r contracts pubkey =
    not (is_blank (ip_at r.available pubkey).provider.ip)
    && not (is_empty (or_else [] (lookup contracts pubkey)))

module _ (env : Env) (contracts : Map (List ContractToProviderRelation)) where
  -- One provider that was not found.
  pub fallback : Refresh × KeySet → String → Refresh × KeySet
  fallback (r, failed) pubkey =
      let ip = ip_at r.available pubkey in
      if asks_overlay r contracts pubkey
      then note_overlay (r, failed) pubkey ip
          (env.overlay ip.provider.ip (or_else [] (lookup contracts pubkey)))
      else (r, failed)

  unfoldable pub fallbacks : Refresh × KeySet → List String → Refresh × KeySet
  fallbacks s [] = s
  fallbacks s (pubkey ∷ pubkeys) = fallbacks (fallback s pubkey) pubkeys

abbrev pub stage_overlay_storage_fallback : String
stage_overlay_storage_fallback = "overlay_storage_fallback"

text_of : ResolveError → String
text_of (staged stage text) = text
text_of (plain text) = text

-- The stage and the text of a provider that has no endpoint.
pub unresolved_as : Refresh → KeySet → String → String × String
unfolding text_of
unresolved_as r failed pubkey =
    if is_some (lookup failed pubkey)
    then (stage_overlay_storage_fallback, "storage IP not found via overlay DHT")
    else elim (lookup r.errors pubkey) [
      | some e ↦ (resolve_stage_from_err e, text_of e)
      | none ↦ (stage_endpoint_resolve, "storage endpoint not resolved")
    ]

-- The event of one provider.
pub record_target : Refresh → KeySet → Recorder → String → Recorder
record_target r failed recorder pubkey =
    if has_valid_resolved_storage_endpoint (ip_at r.available pubkey)
    then record_provider_resolve recorder pubkey stage_endpoint_resolve true none
    else (let (stage, text) = unresolved_as r failed pubkey in
        record_provider_resolve recorder pubkey stage false (some text))

-- The targets stand for different providers, so the test of the loop for those seen is left out.
pub record_targets : Refresh → KeySet → List ContractToProviderRelation → Recorder → Recorder
record_targets r failed [] recorder = recorder
record_targets r failed (sc ∷ scs) recorder =
    record_targets r failed scs (record_target r failed recorder sc.provider_public_key)

-- `ips` is `none` where an error is returned; `persisted` is what `UpdateProvidersIPs` was called
-- with.
pub record RefreshResult : Type 0 where
  pub ips : Option (Map ProviderIp)
  pub persisted : Option (List ProviderIp)
  pub last_known : Map ProviderIp
  pub recorder : Option Recorder

ip_rows : Map ProviderIp → List ProviderIp
ip_rows [] = []
ip_rows ((_, ip) ∷ m) = ip ∷ ip_rows m

unfoldable pub start : Map ProviderIp → Map ContractToProviderRelation → Refresh
start last_known unique = record {
  available = cached_ips last_known unique [];
  resolved = [];
  last_known = last_known;
  not_found = [];
  errors = [];
}

target_keys : List ContractToProviderRelation → List String
target_keys [] = []
target_keys (sc ∷ scs) = sc.provider_public_key ∷ target_keys scs

load_targets : Env → List ContractToProviderRelation → Recorder → Recorder
unfolding target_keys
load_targets env targets recorder =
    load_provider_statuses recorder (target_keys targets) (env.event_statuses (target_keys targets))

map_recorder : (Recorder → Recorder) → Option Recorder → Option Recorder
map_recorder f none = none
map_recorder f (some recorder) = some (f recorder)

-- The write of what was resolved.
pub persist : Env → Refresh → Option Recorder → RefreshResult
unfolding ip_rows
persist env r recorder =
    if is_empty r.resolved
    then record {
      ips = some r.available;
      persisted = none;
      last_known = r.last_known;
      recorder = recorder;
    }
    else record {
      ips = if env.update_ips_ok then some r.available else none;
      persisted = some (ip_rows r.resolved);
      last_known = r.last_known;
      recorder = recorder;
    }

-- The lookups of the targets and the fallback for those that fail.
pub resolve_targets :
    Env
    → List ContractToProviderRelation
    → Map ContractToProviderRelation
    → Map ProviderIp
    → List ContractToProviderRelation
    → Refresh × KeySet
resolve_targets env storage_contracts unique last_known targets =
    let r = lookups env (start last_known unique) (env.turns targets) in
    fallbacks env (group_by_provider [] storage_contracts) (r, []) r.not_found

refresh_targets :
    Env
    → List ContractToProviderRelation
    → Map ContractToProviderRelation
    → Option Recorder
    → Map ProviderIp
    → List ContractToProviderRelation
    → RefreshResult
unfolding load_targets map_recorder
refresh_targets env storage_contracts unique recorder last_known targets =
    let (r, failed) = resolve_targets env storage_contracts unique last_known targets in
    persist env r (
      map_recorder (λ rec. record_targets r failed targets (load_targets env targets rec)) recorder)

pub record Ask : Type 0 where
  pub storage_contracts : List ContractToProviderRelation
  pub stale_only : Bool
  pub recorder : Option Recorder
  pub last_known : Map ProviderIp

abbrev unchanged : Ask → Option (Map ProviderIp) → RefreshResult
unchanged ask ips = record {
  ips = ips;
  persisted = none;
  last_known = ask.last_known;
  recorder = ask.recorder;
}

unique_keys : Map ContractToProviderRelation → List String
unique_keys [] = []
unique_keys ((pubkey, _) ∷ unique) = pubkey ∷ unique_keys unique

with_states :
    Env → Ask → Map ContractToProviderRelation → Option (List ProviderEndpointState) → RefreshResult
unfolding refresh_targets
with_states env ask unique none = unchanged ask none
with_states env ask unique (some rows) =
    let targets = targets_of (states_of [] rows) env.stale_ttl env.now ask.stale_only unique in
    if ask.stale_only && is_empty targets
    then unchanged ask (some [])
    else refresh_targets env ask.storage_contracts unique ask.recorder ask.last_known targets

pub refresh_providers_endpoints : Env → Ask → RefreshResult
unfolding with_states unique_keys
refresh_providers_endpoints env ask =
    let unique = unique_providers [] ask.storage_contracts in
    if is_empty ask.storage_contracts
    then unchanged ask (some [])
    else with_states env ask unique (env.endpoint_state (unique_keys unique))

-- `updateProvidersIPs`
pub update_providers_ips :
    Env → List ContractToProviderRelation → Option Recorder → Map ProviderIp → RefreshResult
update_providers_ips env storage_contracts recorder last_known =
    refresh_providers_endpoints env (record {
      storage_contracts = storage_contracts;
      stale_only = false;
      recorder = recorder;
      last_known = last_known;
    })

-- `defaultEndpointFullRefreshInterval`, and the fallback for failures; durations are in nanoseconds.
abbrev pub default_endpoint_full_refresh_interval : ℤ
default_endpoint_full_refresh_interval = pos 21_600_000_000_000

abbrev pub fallback_failure_interval : ℤ
fallback_failure_interval = pos 30_000_000_000

pub record RefreshConfig : Type 0 where
  pub full_refresh_interval : ℤ
  pub fail_interval : ℤ

abbrev or_default : ℤ → ℤ → ℤ
or_default d default = if not (is_positive d) then default else d

full_outcome : ℤ → ℤ → RefreshResult → ℤ × Bool × Map ProviderIp
full_outcome success failure r =
    (if is_some r.ips then success else failure, is_some r.ips, r.last_known)

-- The interval, whether there was no error, and what the worker remembers.
pub refresh_endpoints_full :
    Env
    → RefreshConfig
    → Option (List ContractToProviderRelation)
    → Map ProviderIp
    → ℤ × Bool × Map ProviderIp
unfolding full_outcome
refresh_endpoints_full env cfg contracts last_known =
    let success = or_default cfg.full_refresh_interval default_endpoint_full_refresh_interval in
    let failure = or_default cfg.fail_interval fallback_failure_interval in
    elim contracts [
      | none ↦ (failure, false, last_known)
      | some scs ↦ full_outcome success failure (
          refresh_providers_endpoints env (record {
            storage_contracts = scs;
            stale_only = false;
            recorder = none;
            last_known = last_known;
          }))
    ]
