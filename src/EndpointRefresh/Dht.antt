-- ===== src/EndpointRefresh/Dht.antt =====
-- `findProviderIPs`, `findProviderIP`, `findStorageIP` and `findStorageIPOverlay` of
-- coordinator/internal/workers/providersMaster/worker.go, with resolve_errors.go beside it. The DHT,
-- the provider client and the shuffle are parameters; `none` is an error of a call.
pub mod Overlay
use mytonprovider_backend.Prelude.{
  ℕ, zero, suc, ◌*◌, ◌/◌, ℤ, pos, String, Bool, Option, none, some, List, [], ◌∷◌, length, ltb,
  str_eq, if◌then◌else◌, hex_decode,
}
use mytonprovider_backend.Db.{ContractToProviderRelation, IpInfo, ProviderIp}
use mytonprovider_backend.StoreProof.Merge.{stage_unknown}

-- An error of a lookup: `resolveStageError` where it has a stage.
pub data ResolveError : Type 0 where
  staged : String → String → ResolveError
  plain : String → ResolveError

pub resolve_stage_from_err : ResolveError → String
resolve_stage_from_err (staged stage text) = if str_eq stage "" then stage_unknown else stage
resolve_stage_from_err (plain text) = stage_unknown

-- One address of a list of the DHT; no `ip` is a nil address.
pub record Addr : Type 0 where
  pub ip : Option String
  pub port : ℤ

pub record Network : Type 1 where
  pub Address : Type 0
  pub parse_addr : String → Option Address
  pub hash : List ℕ → Option (List ℕ)
  -- `FindValue` of the DHT and the parser of its record: the ADNL address in it.
  pub provider_record : List ℕ → Option (Option (List ℕ))
  -- The addresses of a key, and its public key.
  pub find_addresses : List ℕ → Option (List Addr × List ℕ)
  -- `VerifyStorageADNLProof`, at each attempt.
  pub verify_proof : ℕ → List ℕ → Address → Option (List ℕ)
  -- The peers of a bag; `none` in the list is a peer whose identifier is no Ed25519 key.
  pub find_overlay_nodes : List ℕ → Option (List (Option (List ℕ)))
  pub shuffle : List ContractToProviderRelation → List ContractToProviderRelation

abbrev pub zero_ip : IpInfo
zero_ip = record { public_key = []; ip = ""; port = pos 0 }

abbrev pub stage_verify : String
stage_verify = "verify_storage_adnl_proof"

abbrev pub stage_storage_addresses : String
stage_storage_addresses = "dht_find_storage_addresses"

abbrev pub stage_provider_record : String
stage_provider_record = "dht_find_provider_record"

abbrev pub stage_provider_addresses : String
stage_provider_addresses = "dht_find_provider_addresses"

-- `utils.TryNTimes`: the first attempt that succeeds; `i` counts the attempts so far.
pub try_n_times {ℓ} : {A : Type ℓ} → (ℕ → Option A) → ℕ → ℕ → Option A
try_n_times f zero i = none
try_n_times f (suc n) i =
    let more = try_n_times f n (suc i) in elim (f i) [ none ↦ more | some a ↦ some a ]

-- The endpoint of the first address of a list, and an error where there is none; the key is set
-- before the address is looked at.
pub first_address : String → Option (List Addr × List ℕ) → IpInfo × Option ResolveError
first_address stage none = (zero_ip, some (staged stage "failed to find addresses in dht"))
first_address stage (some ([], key)) = (zero_ip, some (staged stage "no addresses found"))
first_address stage (some (addr ∷ addrs, key)) = elim addr.ip [
  | none ↦
      (record { public_key = key; ip = ""; port = pos 0 }, some (staged stage "empty address ip"))
  | some ip ↦ (record { public_key = key; ip = ip; port = addr.port }, none)
]

module _ (net : Network) where
  record_address : Option (Option (List ℕ)) → IpInfo × Option ResolveError
  record_address none =
      (zero_ip, some (staged stage_provider_record "failed to find storage-provider"))
  record_address (some none) =
      (zero_ip, some (staged stage_provider_record "failed to parse the record"))
  record_address (some (some [])) =
      (zero_ip, some (staged stage_provider_record "no adnl addresses"))
  record_address (some (some (b ∷ bs))) =
      first_address stage_provider_addresses (net.find_addresses (b ∷ bs))

  pub find_provider_ip : List ℕ → IpInfo × Option ResolveError
  unfolding record_address
  find_provider_ip pk = elim (net.hash pk) [
    | none ↦ (zero_ip, some (staged stage_provider_record "failed to calc hash of provider key"))
    | some id ↦ record_address (net.provider_record id)
  ]

  -- `verifyStorageRetries` is 3.
  pub find_storage_ip : net.Address → List ℕ → IpInfo × Option ResolveError
  find_storage_ip addr pk = elim (try_n_times (λ i. net.verify_proof i pk addr) 3 0) [
    | none ↦ (zero_ip, some (staged stage_verify "failed to verify storage adnl proof"))
    | some proof ↦ first_address stage_storage_addresses (net.find_addresses proof)
  ]

  abbrev with_ips : String → IpInfo → IpInfo → ProviderIp
  with_ips pubkey provider storage = record {
    public_key = pubkey;
    storage = storage;
    provider = provider;
  }

  -- The storage endpoint is looked up only after the provider's.
  with_storage :
      String
      → net.Address
      → List ℕ
      → IpInfo × Option ResolveError
      → ProviderIp × Option ResolveError
  with_storage pubkey addr pk (provider, some e) = (with_ips pubkey provider zero_ip, some e)
  with_storage pubkey addr pk (provider, none) =
      let (storage, err) = find_storage_ip addr pk in (with_ips pubkey provider storage, err)

  find_keyed : String → net.Address → Option (List ℕ) → ProviderIp × Option ResolveError
  unfolding with_storage
  find_keyed pubkey addr none =
      (with_ips pubkey zero_ip zero_ip, some (plain "failed to decode provider public key"))
  find_keyed pubkey addr (some pk) = with_storage pubkey addr pk (find_provider_ip pk)

  pub find_provider_ips : ContractToProviderRelation → ProviderIp × Option ResolveError
  unfolding find_keyed
  find_provider_ips sc =
      let pubkey = sc.provider_public_key in
      elim (net.parse_addr sc.address) [
        | none ↦ (with_ips pubkey zero_ip zero_ip, some (plain "failed to parse address"))
        | some addr ↦ find_keyed pubkey addr (hex_decode pubkey)
      ]

-- `bagsToCheck`
unfoldable pub bags_to_check : ℕ → ℕ
bags_to_check n =
    if ltb 100 n
    then at_least_1 (n * 10 / 100)
    else if ltb 5 n
    then at_least_1 (n * 20 / 100)
    else n
  where
    at_least_1 : ℕ → ℕ
    at_least_1 k = if ltb k 1 then 1 else k

-- The loop over the addresses of a peer.
unfoldable pub matching_address : String → List ℕ → List Addr → Option IpInfo
matching_address provider_ip key [] = none
matching_address provider_ip key (a ∷ addrs) =
    let rest = matching_address provider_ip key addrs in
    elim a.ip [
      | none ↦ rest
      | some ip ↦
          if str_eq ip provider_ip
          then some (record { public_key = key; ip = ip; port = a.port })
          else rest
    ]

module _ (net : Network) (provider_ip : String) where
  peer_address : Option (List Addr × List ℕ) → Option IpInfo
  peer_address none = none
  peer_address (some (addrs, key)) = matching_address provider_ip key addrs

  peer_endpoint : Option (List ℕ) → Option IpInfo
  unfolding peer_address
  peer_endpoint none = none
  peer_endpoint (some key) = elim (net.hash key) [
    | none ↦ none
    | some id ↦ peer_address (net.find_addresses id)
  ]

  -- The loop over the peers of a bag.
  unfoldable pub matching_peer : List (Option (List ℕ)) → Option IpInfo
  unfolding peer_endpoint
  matching_peer [] = none
  matching_peer (peer ∷ peers) =
      let rest = matching_peer peers in
      elim (peer_endpoint peer) [ none ↦ rest | some ip ↦ some ip ]

  bag_peers : Option (List (Option (List ℕ))) → Option IpInfo
  bag_peers none = none
  bag_peers (some peers) = matching_peer peers

  bag_endpoint : Option (List ℕ) → Option IpInfo
  unfolding bag_peers
  bag_endpoint none = none
  bag_endpoint (some bag) = bag_peers (net.find_overlay_nodes bag)

  -- The loop over the first bags of the shuffled contracts.
  unfoldable pub matching_bag : ℕ → List ContractToProviderRelation → Option IpInfo
  unfolding bag_endpoint
  matching_bag zero scs = none
  matching_bag (suc n) [] = none
  matching_bag (suc n) (sc ∷ scs) =
      let rest = matching_bag n scs in
      elim (bag_endpoint (hex_decode sc.bag_id)) [ none ↦ rest | some ip ↦ some ip ]

  -- `none` is an error.
  unfoldable pub find_storage_ip_overlay : List ContractToProviderRelation → Option IpInfo
  find_storage_ip_overlay [] = none
  find_storage_ip_overlay (sc ∷ scs) =
      matching_bag (bags_to_check (length (sc ∷ scs))) (net.shuffle (sc ∷ scs))
