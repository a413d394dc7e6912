-- ===== src/Tests/EndpointRefresh.antt =====
-- The refresh of endpoints at concrete inputs.
use mytonprovider_backend.Prelude.{
  ◌≡◌, refl, pos, String, true, false, none, some, List, [], ◌∷◌, Map, replicate, is_blank, lookup,
  insert, hex_decode,
}
use mytonprovider_backend.Db.{ContractToProviderRelation, ProviderIp, IpInfo}
use mytonprovider_backend.Tests.Data.{contract_a, contract_b, provider_ip}
use mytonprovider_backend.RunChecks.Request.{has_valid_resolved_storage_endpoint}
use mytonprovider_backend.EndpointRefresh.{
  Env, Ask, Refresh, refresh_providers_endpoints, lookups, start, fallbacks, asks_overlay,
  note_lookup, cached_ips, ip_at,
}
use mytonprovider_backend.EndpointRefresh.Dht.{
  Network, plain, find_storage_ip_overlay, bags_to_check, matching_address, matching_peer,
  matching_bag,
}
use mytonprovider_backend.EndpointRefresh.Dht.Overlay.{overlay_same_ip}
use mytonprovider_backend.EndpointRefresh.Available.{GivesValid, refresh-GivesValid}
use mytonprovider_backend.EndpointRefresh.Fallback.{overlay-only_valid}

-- One peer has one bag; it has an address without an IP, another one, and that of the provider.
abbrev net : Network
net = record {
  Address = String;
  parse_addr = λ s. some s;
  hash = λ k. some k;
  provider_record = λ id. some none;
  find_addresses = λ k. some (
    record { ip = none; port = pos 1 }
        ∷ record { ip = some "10.0.0.9"; port = pos 2 }
        ∷ record { ip = some "10.0.0.1"; port = pos 3333 }
        ∷ [],
    replicate 32 0,
  );
  verify_proof = λ i k a. none;
  find_overlay_nodes = λ bag. some (none ∷ some (1 ∷ []) ∷ []);
  shuffle = λ scs. scs;
}

abbrev bag_contract : ContractToProviderRelation
bag_contract = record contract_a { bag_id = "0aff" }

abbrev storage : IpInfo
storage = record { public_key = replicate 32 0; ip = "10.0.0.1"; port = pos 3333 }

found_overlay : find_storage_ip_overlay net "10.0.0.1" (bag_contract ∷ []) ≡ some storage
unfolding find_storage_ip_overlay bags_to_check matching_bag matching_peer matching_address
    hex_decode
found_overlay = refl

overlay_same_ip_example : storage.ip ≡ "10.0.0.1"
overlay_same_ip_example = overlay_same_ip net "10.0.0.1" (bag_contract ∷ []) storage found_overlay

-- The lookup of the first provider succeeds; that of the second finds the provider and not its
-- storage.
abbrev half_found : ProviderIp
half_found = record (provider_ip "bb") {
  storage = record { public_key = []; ip = ""; port = pos 0 };
}

abbrev refresh_env : Env
refresh_env = record {
  stale_ttl = pos 0;
  now = pos 100;
  endpoint_state = λ keys. some [];
  event_statuses = λ keys. none;
  turns = λ scs. scs;
  find_provider_ips = λ sc. (half_found, some (plain "failed to find storage IP"));
  overlay = λ ip scs. some storage;
  update_ips_ok = true;
}

abbrev ask : Ask
ask = record {
  storage_contracts = contract_a ∷ contract_b ∷ [];
  stale_only = false;
  recorder = none;
  last_known = ("aa", provider_ip "aa") ∷ [];
}

refresh-GivesValid_example : GivesValid (refresh_providers_endpoints refresh_env ask)
refresh-GivesValid_example = refresh-GivesValid refresh_env ask

abbrev contract_groups : Map (List ContractToProviderRelation)
contract_groups = ("aa", contract_a ∷ []) ∷ ("bb", contract_b ∷ []) ∷ []

abbrev after_lookups : Refresh
after_lookups =
    lookups refresh_env
      (start (("aa", provider_ip "aa") ∷ []) (("aa", contract_a) ∷ ("bb", contract_b) ∷ []))
      (contract_a ∷ contract_b ∷ [])

asks_for_aa :
    asks_overlay
      (fallbacks refresh_env contract_groups (after_lookups, []) []).0
      contract_groups
      "aa"
    ≡ true
unfolding asks_overlay fallbacks lookups start note_lookup cached_ips
    has_valid_resolved_storage_endpoint is_blank lookup insert
asks_for_aa = refl

overlay-only_valid_example :
    let now = (fallbacks refresh_env contract_groups (after_lookups, []) []).0 in
    has_valid_resolved_storage_endpoint (ip_at now.available "aa") ≡ true
overlay-only_valid_example =
    overlay-only_valid refresh_env (("aa", provider_ip "aa") ∷ [])
      (("aa", contract_a) ∷ ("bb", contract_b) ∷ []) (contract_a ∷ contract_b ∷ []) contract_groups
      [] "aa" asks_for_aa

-- The second provider, of which only the provider's own address is known, is not searched for.
not_asked_for_bb : asks_overlay after_lookups contract_groups "bb" ≡ false
unfolding asks_overlay fallbacks lookups start note_lookup cached_ips
    has_valid_resolved_storage_endpoint is_blank lookup insert
not_asked_for_bb = refl
