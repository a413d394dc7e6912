-- ===== src/EndpointRefresh/Dht/Overlay.antt =====
-- `findStorageIPOverlay` of coordinator/internal/workers/providersMaster/worker.go: the address it
-- finds.
use mytonprovider_backend.Prelude.{
  ℕ, zero, suc, ◌≡◌, subst, inl, inr, String, Option, none, some, List, [], ◌∷◌, length, str_eq,
  if◌then◌else◌, hex_decode, eq_iff, Bool-cases,
}
use mytonprovider_backend.Db.{ContractToProviderRelation, IpInfo}
use mytonprovider_backend.EndpointRefresh.Dht.{
  Addr, Network, bags_to_check, matching_address, peer_address, peer_endpoint, matching_peer,
  bag_peers, bag_endpoint, matching_bag, find_storage_ip_overlay,
}

-- The endpoint, if there is one, is at the address of the provider.
abbrev At : String → Option IpInfo → Type 0
At provider_ip none = Unit
At provider_ip (some ip) = ip.ip ≡ provider_ip

At-some :
    (provider_ip : String) (o rest : Option IpInfo)
    → At provider_ip o
    → At provider_ip rest
    → At provider_ip (elim o [ none ↦ rest | some ip ↦ some ip ])
At-some provider_ip none rest at more = more
At-some provider_ip (some ip) rest at more = at

matching_address-At :
    (provider_ip : String) (key : List ℕ) (addrs : List Addr)
    → At provider_ip (matching_address provider_ip key addrs)
unfolding matching_address
matching_address-At provider_ip key [] = tt
matching_address-At provider_ip key (a ∷ addrs) =
    from a.ip (matching_address-At provider_ip key addrs)
  where
    from :
        (o : Option String)
        → At provider_ip (matching_address provider_ip key addrs)
        → At provider_ip (elim o [
          | none ↦ matching_address provider_ip key addrs
          | some ip ↦
              if str_eq ip provider_ip
              then some (record { public_key = key; ip = ip; port = a.port })
              else matching_address provider_ip key addrs
        ])
    from none more = more
    from (some ip) more = elim (Bool-cases (str_eq ip provider_ip)) [
      | inl same ↦ rw same ((eq_iff ip provider_ip).0 same)
      | inr other ↦ rw other more
    ]

module _ (net : Network) (provider_ip : String) where
  peer_address-At :
      (o : Option (List Addr × List ℕ)) → At provider_ip (peer_address net provider_ip o)
  unfolding peer_address
  peer_address-At none = tt
  peer_address-At (some (addrs, k)) = matching_address-At provider_ip k addrs

  peer_endpoint-At : (peer : Option (List ℕ)) → At provider_ip (peer_endpoint net provider_ip peer)
  unfolding peer_endpoint
  peer_endpoint-At none = tt
  peer_endpoint-At (some key) = from (net.hash key)
    where
      from :
          (o : Option (List ℕ))
          → At provider_ip (elim o [
            | none ↦ none
            | some id ↦ peer_address net provider_ip (net.find_addresses id)
          ])
      from none = tt
      from (some id) = peer_address-At (net.find_addresses id)

  matching_peer-At :
      (peers : List (Option (List ℕ))) → At provider_ip (matching_peer net provider_ip peers)
  unfolding matching_peer
  matching_peer-At [] = tt
  matching_peer-At (peer ∷ peers) =
      At-some provider_ip _ _ (peer_endpoint-At peer) (matching_peer-At peers)

  bag_endpoint-At : (bag : Option (List ℕ)) → At provider_ip (bag_endpoint net provider_ip bag)
  unfolding bag_endpoint bag_peers
  bag_endpoint-At none = tt
  bag_endpoint-At (some bag) = from (net.find_overlay_nodes bag)
    where
      from : (o : Option (List (Option (List ℕ)))) → At provider_ip (bag_peers net provider_ip o)
      from none = tt
      from (some peers) = matching_peer-At peers

  matching_bag-At :
      (n : ℕ) (scs : List ContractToProviderRelation)
      → At provider_ip (matching_bag net provider_ip n scs)
  unfolding matching_bag
  matching_bag-At zero scs = tt
  matching_bag-At (suc n) [] = tt
  matching_bag-At (suc n) (sc ∷ scs) =
      At-some provider_ip _ _ (bag_endpoint-At (hex_decode sc.bag_id)) (matching_bag-At n scs)

  overlay-At :
      (scs : List ContractToProviderRelation)
      → At provider_ip (find_storage_ip_overlay net provider_ip scs)
  unfolding find_storage_ip_overlay
  overlay-At [] = tt
  overlay-At (sc ∷ scs) =
      matching_bag-At (bags_to_check (length (sc ∷ scs))) (net.shuffle (sc ∷ scs))

-- The storage endpoint that is found among the peers of the bags of a provider has the address of
-- the provider.
pub overlay_same_ip :
    (net : Network) (provider_ip : String) (scs : List ContractToProviderRelation) (ip : IpInfo)
    → find_storage_ip_overlay net provider_ip scs ≡ some ip
    → ip.ip ≡ provider_ip
overlay_same_ip net provider_ip scs ip found =
    subst (At provider_ip) found (overlay-At net provider_ip scs)
