-- ===== src/Tests/Workers.antt =====
-- The workers for rates, new providers and contracts at concrete inputs.
use mathlib.Core.List.Perm
use mytonprovider_backend.Prelude.{
  ◌≡◌, refl, pos, true, false, none, some, List, [], ◌∷◌, map, All, lookup, insert, after_first,
  to_lower, hex_decode, arith, parse_int, to_uint64,
}
use mytonprovider_backend.Agent.Server.Rates.{StorageRates, no_details}
use mytonprovider_backend.Workers.Known
use mytonprovider_backend.Workers.Known.{
  RunStorageRatesResult, ProviderUpdate, update_known_providers, rates_request,
}
use mytonprovider_backend.Workers.Known.Statuses.{
  status_from, outcome_of, AreStored, online_rates, update_known_providers_lem,
}
use mytonprovider_backend.Workers.NewProviders
use mytonprovider_backend.Workers.NewProviders.{
  Transaction, ProviderCreate, known_of, scan_loop, scan_tx, message_key, new_key, register, values,
  collect_new_providers, parse_lt,
}
use mytonprovider_backend.Workers.NewProviders.Scanned.{IsNew, added-AreNew}
use mytonprovider_backend.Workers.NewProviders.Rescan.{rescan-adds_nothing}
use mytonprovider_backend.Workers.Contracts
use mytonprovider_backend.Workers.Contracts.{
  ProviderWallet, ContractInfo, StorageContract, merge_wallets, merge_wallet, scan_of,
  scan_provider_transactions, scan_step, scanned_contract, merge_scan, merge_found, put_all,
  new_contracts, save_contracts, collect_providers_new_storage_contracts,
}
use mytonprovider_backend.Workers.Contracts.Paid.{IsPaid, added-ArePaid}

abbrev rates : StorageRates
rates = record {
  available = true;
  rate_per_mb_day = 1 ∷ 0 ∷ [];
  min_bounty = 5 ∷ [];
  space_available_mb = 100;
  min_span = 60;
  max_span = 3600;
}

-- The agent reached the first provider only.
abbrev rates_answer : RunStorageRatesResult
rates_answer = record {
  endpoint = "e1";
  response = some (record {
    job_id = "job";
    agent_id = "agent";
    location = "eu";
    started_at_unix = pos 1;
    finished_at_unix = pos 2;
    results =
        none
        ∷ some (record {
          provider_pubkey = " aa ";
          rates = some rates;
          latency_ms = 7;
          details = no_details;
        })
        ∷ [];
    timed_out = false;
  });
}

abbrev known_env : Known.Env
known_env = record {
  all_pubkeys = some ("aa" ∷ "bb" ∷ []);
  agent_count = 1;
  job_id = "job";
  storage_rates_query_ms = 14000;
  run_storage_rates_all = λ req. rates_answer ∷ [];
  add_statuses_ok = true;
  update_providers_ok = true;
}

update_known_providers_lem_example :
    (infos : List ProviderUpdate) × (update_known_providers known_env
      ≡ outcome_of known_env (map (status_from (rates_answer ∷ [])) ("aa" ∷ "bb" ∷ [])) infos)
    × AreStored (online_rates (rates_answer ∷ []) ("aa" ∷ "bb" ∷ [])) infos
update_known_providers_lem_example =
    update_known_providers_lem known_env "aa" ("bb" ∷ []) rates_answer [] refl refl refl

-- One provider registers.
abbrev registration : Transaction
registration = record {
  lt = 7;
  op = 0;
  from_addr = "W";
  message = "tsp-000102030405060708090A0B0C0D0E0F101112131415161718191a1b1c1d1e1f";
  created_at = pos 100;
}

-- The database refuses the new provider.
abbrev new_env : NewProviders.Env
new_env = record {
  get_param_ok = true;
  all_pubkeys = some ("ff" ∷ []);
  get_transactions = λ lt. some (registration ∷ []);
  set_param_ok = true;
  add_providers_ok = false;
}

abbrev new_provider : ProviderCreate
new_provider = record {
  pubkey = "000102030405060708090a0b0c0d0e0f101112131415161718191a1b1c1d1e1f";
  address = "W";
  registered_at = pos 100;
}

found_new : (collect_new_providers new_env "1").added ≡ some (new_provider ∷ [])
unfolding collect_new_providers parse_lt parse_int to_uint64 scan_loop scan_tx message_key new_key
    known_of register values lookup insert after_first to_lower hex_decode
found_new = refl

added-AreNew_example :
    All (IsNew (parse_lt "1") (known_of [] ("ff" ∷ [])) (registration ∷ [])) (new_provider ∷ [])
added-AreNew_example =
    added-AreNew new_env "1" ("ff" ∷ []) (registration ∷ []) (new_provider ∷ []) refl refl found_new

-- The next run reads the bound that the first has written, and the provider is not added again.
rescan-adds_nothing_example :
    (collect_new_providers new_env (collect_new_providers new_env "1").last_lt).added ≡ none
rescan-adds_nothing_example =
    rescan-adds_nothing new_env new_env "1" ("ff" ∷ []) ("ff" ∷ []) (registration ∷ [])
      (new_provider ∷ []) refl refl refl refl found_new (omega arith, tt) refl refl

-- Two wallets of two providers, which one contract pays; the second is scanned first.
abbrev wallets : List ProviderWallet
wallets =
    record { pub_key = "aa"; address = "W1"; lt = 1 }
    ∷ record { pub_key = "bb"; address = "W2"; lt = 1 }
    ∷ []

abbrev withdrawal : Transaction
withdrawal = record {
  lt = 7;
  op = 0xa91baf56;
  from_addr = "C1";
  message = "";
  created_at = pos 100;
}

abbrev other_way : List ProviderWallet → List ProviderWallet
other_way (w ∷ u ∷ []) = u ∷ w ∷ []
other_way ws = ws

abbrev contracts_env : Contracts.Env
contracts_env = record {
  all_wallets = some wallets;
  get_transactions = λ address lt. some (none ∷ some withdrawal ∷ []);
  contract_turns = other_way;
  update_turns = λ ws. ws;
  get_storage_contracts_info = λ addresses.
      some (
        record { address = "C1"; bag_id = "bag"; owner_addr = "O"; size = 10; chunk_size = 2 }
        ∷ []);
  update_lt_ok = true;
  add_contracts_ok = true;
}

abbrev new_contract : StorageContract
new_contract = record {
  providers_addresses = ("W2", tt) ∷ ("W1", tt) ∷ [];
  address = "C1";
  bag_id = "bag";
  owner_addr = "O";
  size = 10;
  chunk_size = 2;
  last_lt = 7;
}

found_contract :
    (collect_providers_new_storage_contracts contracts_env).added ≡ some (new_contract ∷ [])
unfolding collect_providers_new_storage_contracts merge_wallets merge_wallet scan_of
    scan_provider_transactions Contracts.scan_loop scan_step scanned_contract merge_scan merge_found
    put_all new_contracts save_contracts lookup insert
found_contract = refl

added-ArePaid_example : All (IsPaid contracts_env wallets) (new_contract ∷ [])
added-ArePaid_example =
    added-ArePaid contracts_env wallets (new_contract ∷ []) refl (Perm.swap _ _ _) found_contract
