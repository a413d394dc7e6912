-- ===== src/Workers/Contracts.antt =====
-- `CollectProvidersNewStorageContracts` and `scanProviderTransactions`. A goroutine scans each
-- wallet and takes two locks one after the other; `contract_turns` and `update_turns` list the
-- wallets in the order in which their goroutines take the first and the second.
pub mod Merged
pub mod Paid
use mytonprovider_backend.Prelude.{
  ℕ, String, Bool, true, false, not, Option, none, some, List, [], ◌∷◌, ◌++◌, Map, KeySet, lookup,
  insert, is_empty, ltb, ◌==◌, if◌then◌else◌,
}
use mytonprovider_backend.Workers.NewProviders.{Transaction}

-- `db.ProviderWallet`
pub record ProviderWallet : Type 0 where
  pub pub_key : String
  pub address : String
  pub lt : ℕ

pub record ProviderWalletLt : Type 0 where
  pub pub_key : String
  pub lt : ℕ

-- `db.StorageContract`
pub record StorageContract : Type 0 where
  pub providers_addresses : KeySet
  pub address : String
  pub bag_id : String
  pub owner_addr : String
  pub size : ℕ
  pub chunk_size : ℕ
  pub last_lt : ℕ

-- `tonclient.StorageContract`
pub record ContractInfo : Type 0 where
  pub address : String
  pub bag_id : String
  pub owner_addr : String
  pub size : ℕ
  pub chunk_size : ℕ

abbrev pub storage_reward_withdrawal_op_code : ℕ
storage_reward_withdrawal_op_code = 0xa91baf56

-- The contract that a transaction comes from, as far as the scan knows it.
unfoldable pub scanned_contract : String → Transaction → StorageContract
scanned_contract provider tx = record {
  providers_addresses = (provider, tt) ∷ [];
  address = tx.from_addr;
  bag_id = "";
  owner_addr = "";
  size = 0;
  chunk_size = 0;
  last_lt = tx.lt;
}

unfoldable pub scan_step :
    String → Map StorageContract × ℕ → Option Transaction → Map StorageContract × ℕ
scan_step provider out none = out
scan_step provider (contracts, last_lt) (some tx) =
    if not (tx.op == storage_reward_withdrawal_op_code) then (contracts, last_lt) else (
      insert contracts tx.from_addr (scanned_contract provider tx),
      if ltb last_lt tx.lt then tx.lt else last_lt,
    )

unfoldable pub scan_loop :
    String → Map StorageContract × ℕ → List (Option Transaction) → Map StorageContract × ℕ
scan_loop provider out [] = out
scan_loop provider out (tx ∷ txs) = scan_loop provider (scan_step provider out tx) txs

-- `none` is an error; the argument is what the chain answers.
unfoldable pub scan_provider_transactions :
    ProviderWallet → Option (List (Option Transaction)) → Option (Map StorageContract × ℕ)
scan_provider_transactions wallet none = none
scan_provider_transactions wallet (some txs) = some (scan_loop wallet.address ([], wallet.lt) txs)

-- `for p := range tx.ProvidersAddresses { v.ProvidersAddresses[p] = struct{}{} }`
unfoldable pub put_all : KeySet → KeySet → KeySet
put_all v [] = v
put_all v ((p, _) ∷ ps) = put_all (insert v p tt) ps

unfoldable pub merge_found : StorageContract → Option StorageContract → StorageContract
merge_found tx none = tx
merge_found tx (some v) = record v {
  providers_addresses = put_all v.providers_addresses tx.providers_addresses;
  last_lt = if ltb v.last_lt tx.last_lt then tx.last_lt else v.last_lt;
}

-- The loop under the first lock, over the contracts of a scan.
unfoldable pub merge_scan : Map StorageContract → Map StorageContract → Map StorageContract
merge_scan all [] = all
merge_scan all ((src, tx) ∷ sc) = merge_scan (insert all src (merge_found tx (lookup all src))) sc

-- What the worker meets: `none` is an error of the database, of the chain or of the lite server.
pub record Env : Type 0 where
  pub all_wallets : Option (List ProviderWallet)
  pub get_transactions : String → ℕ → Option (List (Option Transaction))
  pub contract_turns : List ProviderWallet → List ProviderWallet
  pub update_turns : List ProviderWallet → List ProviderWallet
  pub get_storage_contracts_info : List String → Option (List ContractInfo)
  pub update_lt_ok : Bool
  pub add_contracts_ok : Bool

module _ (env : Env) where
  unfoldable pub scan_of : ProviderWallet → Option (Map StorageContract × ℕ)
  scan_of wallet = scan_provider_transactions wallet (env.get_transactions wallet.address wallet.lt)

  unfoldable pub merge_wallet :
      Map StorageContract → Option (Map StorageContract × ℕ) → Map StorageContract
  merge_wallet all none = all
  merge_wallet all (some (sc, _)) = merge_scan all sc

  unfoldable pub merge_wallets : Map StorageContract → List ProviderWallet → Map StorageContract
  merge_wallets all [] = all
  merge_wallets all (w ∷ ws) = merge_wallets (merge_wallet all (scan_of w)) ws

  moved_lt : ProviderWallet → Option (Map StorageContract × ℕ) → List ProviderWalletLt
  moved_lt w none = []
  moved_lt w (some (_, last_lt)) =
      if last_lt == w.lt then [] else record { pub_key = w.pub_key; lt = last_lt } ∷ []

  -- `providersToUpdate`
  pub providers_to_update : List ProviderWallet → List ProviderWalletLt
  unfolding moved_lt
  providers_to_update [] = []
  providers_to_update (w ∷ ws) = moved_lt w (scan_of w) ++ providers_to_update ws

addresses : Map StorageContract → List String
addresses [] = []
addresses ((address, _) ∷ m) = address ∷ addresses m

complete : ContractInfo → Option StorageContract → List StorageContract
complete info none = []
complete info (some sc) =
    record {
      providers_addresses = sc.providers_addresses;
      address = info.address;
      bag_id = info.bag_id;
      owner_addr = info.owner_addr;
      size = info.size;
      chunk_size = info.chunk_size;
      last_lt = sc.last_lt;
    }
    ∷ []

-- `newContracts`
unfoldable pub new_contracts : Map StorageContract → List ContractInfo → List StorageContract
unfolding complete
new_contracts all [] = []
new_contracts all (info ∷ infos) =
    complete info (lookup all info.address) ++ new_contracts all infos

-- `interval` is in seconds; `updated` and `added` are what the two writes were called with.
pub record Outcome : Type 0 where
  pub interval : ℕ
  pub failed : Bool
  pub updated : Option (List ProviderWalletLt)
  pub added : Option (List StorageContract)

abbrev stopped : ℕ → Bool → Outcome
stopped interval failed = record {
  interval = interval;
  failed = failed;
  updated = none;
  added = none;
}

unfoldable pub save_contracts :
    Env → List ProviderWalletLt → Map StorageContract → Option (List ContractInfo) → Outcome
save_contracts env lts all none = stopped 15 true
save_contracts env lts all (some infos) =
    if not env.update_lt_ok
    then record { interval = 15; failed = true; updated = some lts; added = none }
    else record {
      interval = if env.add_contracts_ok then 3600 else 15;
      failed = not env.add_contracts_ok;
      updated = some lts;
      added = some (new_contracts all infos);
    }

collect_from : Env → List ProviderWallet → Outcome
unfolding addresses
collect_from env wallets =
    let all = merge_wallets env [] (env.contract_turns wallets) in
    if is_empty all
    then stopped 3600 false
    else save_contracts env (providers_to_update env (env.update_turns wallets)) all
        (env.get_storage_contracts_info (addresses all))

unfoldable pub collect_providers_new_storage_contracts : Env → Outcome
unfolding collect_from
collect_providers_new_storage_contracts env = elim env.all_wallets [
  | none ↦ stopped 15 true
  | some wallets ↦ collect_from env wallets
]
