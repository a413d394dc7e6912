-- ===== src/Workers/Contracts/Paid.antt =====
-- `CollectProvidersNewStorageContracts`: the providers of the contracts that it adds.
use mathlib.Core.List.{Perm, foldr}
use mathlib.Core.List.Perm
use mytonprovider_backend.Prelude.{
  ℕ, ◌≡◌, refl, ap, subst, sym, ◌∙◌, String, Bool, false, ◌&&◌, ◌||◌, Option, none, some, List, [],
  ◌∷◌, Map, lookup, is_some, is_empty, str_eq, ◌==◌, arith, lookup-insert, Bool-cases, inl, inr,
  All, All-append, Entries, insert-Entries,
}
use mytonprovider_backend.Workers.NewProviders.{Transaction}
use mytonprovider_backend.Workers.Contracts.{
  ProviderWallet, ProviderWalletLt, StorageContract, ContractInfo,
  storage_reward_withdrawal_op_code, scanned_contract, scan_step, scan_loop,
  scan_provider_transactions, Env, scan_of, merge_wallet, merge_wallets, providers_to_update,
  addresses, complete, new_contracts, save_contracts, collect_from,
  collect_providers_new_storage_contracts,
}
use mytonprovider_backend.Workers.Contracts.Merged.{lists, any_lists, merge_scan-lists}

-- The transaction is a withdrawal of a reward from the contract.
abbrev pub withdraws_from : String → Option Transaction → Bool
withdraws_from src none = false
withdraws_from src (some tx) = tx.op == storage_reward_withdrawal_op_code && str_eq tx.from_addr src

abbrev pub any_withdrawal : String → List (Option Transaction) → Bool
any_withdrawal src [] = false
any_withdrawal src (tx ∷ txs) = withdraws_from src tx || any_withdrawal src txs

-- A contract that only lists the provider.
abbrev ListsOnly : String → String → StorageContract → Type 0
ListsOnly w _ c = c.providers_addresses ≡ (w, tt) ∷ []

scan_step-lookup :
    (w : String) (out : Map StorageContract × ℕ) (tx : Option Transaction) (src : String)
    → is_some (lookup (scan_step w out tx).0 src)
      ≡ (is_some (lookup out.0 src) || withdraws_from src tx)
unfolding scan_step
scan_step-lookup w out none src = ground arith
scan_step-lookup w (m, l) (some tx) src =
    ground (arith, lookup-insert m tx.from_addr src (scanned_contract w tx))

scan_step-ListsOnly :
    (w : String) (out : Map StorageContract × ℕ) (tx : Option Transaction)
    → Entries (ListsOnly w) out.0
    → Entries (ListsOnly w) (scan_step w out tx).0
unfolding scan_step scanned_contract
scan_step-ListsOnly w out none only = only
scan_step-ListsOnly w (m, l) (some tx) only =
    elim (Bool-cases (tx.op == storage_reward_withdrawal_op_code)) [
      | inl reward ↦
          rw reward (insert-Entries (ListsOnly w) m tx.from_addr (scanned_contract w tx) refl only)
      | inr other ↦ rw other only
    ]

scan_loop-lookup :
    (w : String) (out : Map StorageContract × ℕ) (txs : List (Option Transaction)) (src : String)
    → is_some (lookup (scan_loop w out txs).0 src)
      ≡ (is_some (lookup out.0 src) || any_withdrawal src txs)
unfolding scan_loop
scan_loop-lookup w out [] src = ground arith
scan_loop-lookup w out (tx ∷ txs) src =
    ground (arith, scan_loop-lookup w (scan_step w out tx) txs src, scan_step-lookup w out tx src)

scan_loop-ListsOnly :
    (w : String) (out : Map StorageContract × ℕ) (txs : List (Option Transaction))
    → Entries (ListsOnly w) out.0
    → Entries (ListsOnly w) (scan_loop w out txs).0
unfolding scan_loop
scan_loop-ListsOnly w out [] only = only
scan_loop-ListsOnly w out (tx ∷ txs) only =
    scan_loop-ListsOnly w (scan_step w out tx) txs (scan_step-ListsOnly w out tx only)

only-lists :
    (w : String) (m : Map StorageContract) (src p : String)
    → Entries (ListsOnly w) m
    → any_lists src p m ≡ (is_some (lookup m src) && str_eq w p)
unfolding lookup
only-lists w [] src p only = ground arith
only-lists w ((k, c) ∷ m) src p (o, only) = rw o (ground (arith, only-lists w m src p only))

-- What the chain answered has a withdrawal from the contract.
abbrev pub any_withdrawal_in : String → Option (List (Option Transaction)) → Bool
any_withdrawal_in src none = false
any_withdrawal_in src (some txs) = any_withdrawal src txs

module _ (env : Env) where
  -- A wallet of the provider received a withdrawal from the contract.
  abbrev pub pays : ProviderWallet → String → Bool
  pays w src = any_withdrawal_in src (env.get_transactions w.address w.lt)

  abbrev pub is_paid : List ProviderWallet → String → String → Bool
  is_paid [] src p = false
  is_paid (w ∷ ws) src p = (pays w src && str_eq w.address p) || is_paid ws src p

  merge_scanned-lists :
      (all : Map StorageContract) (w : ProviderWallet) (o : Option (List (Option Transaction)))
      (src p : String)
      → lists p (lookup (merge_wallet env all (scan_provider_transactions w o)) src)
        ≡ (lists p (lookup all src) || (any_withdrawal_in src o && str_eq w.address p))
  unfolding merge_wallet scan_provider_transactions lookup
  merge_scanned-lists all w none src p = ground arith
  merge_scanned-lists all w (some txs) src p =
      let sc = (scan_loop w.address ([], w.lt) txs).0 in
      ground (
        arith,
        merge_scan-lists all sc src p,
        only-lists w.address sc src p (scan_loop-ListsOnly w.address ([], w.lt) txs tt),
        scan_loop-lookup w.address ([], w.lt) txs src,
      )

  merge_wallet-lists :
      (all : Map StorageContract) (w : ProviderWallet) (src p : String)
      → lists p (lookup (merge_wallet env all (scan_of env w)) src)
        ≡ (lists p (lookup all src) || (pays w src && str_eq w.address p))
  unfolding scan_of
  merge_wallet-lists all w src p =
      merge_scanned-lists all w (env.get_transactions w.address w.lt) src p

  merge_wallets-lists :
      (all : Map StorageContract) (ws : List ProviderWallet) (src p : String)
      → lists p (lookup (merge_wallets env all ws) src)
        ≡ (lists p (lookup all src) || is_paid ws src p)
  unfolding merge_wallets
  merge_wallets-lists all [] src p = ground arith
  merge_wallets-lists all (w ∷ ws) src p = ground (
    arith,
    merge_wallets-lists (merge_wallet env all (scan_of env w)) ws src p,
    merge_wallet-lists all w src p,
  )

  -- The contract lists the providers that it paid, and no others.
  pub record IsPaid (ws : List ProviderWallet) (c : StorageContract) : Type 0 where
    pub exactly : (p : String) → is_some (lookup c.providers_addresses p) ≡ is_paid ws c.address p

  complete-IsPaid :
      (ws : List ProviderWallet) (info : ContractInfo) (o : Option StorageContract)
      → ((p : String) → lists p o ≡ is_paid ws info.address p)
      → All (IsPaid ws) (complete info o)
  unfolding complete
  complete-IsPaid ws info none listed = tt
  complete-IsPaid ws info (some sc) listed = (record { exactly = listed }, tt)

  new_contracts-IsPaid :
      (ws : List ProviderWallet) (infos : List ContractInfo)
      → All (IsPaid ws) (new_contracts (merge_wallets env [] ws) infos)
  unfolding new_contracts lookup
  new_contracts-IsPaid ws [] = tt
  new_contracts-IsPaid ws (info ∷ infos) =
      All-append (IsPaid ws) _ _
        (complete-IsPaid ws info _ (λ p. merge_wallets-lists [] ws info.address p))
        (new_contracts-IsPaid ws infos)

  save-added :
      (lts : List ProviderWalletLt) (all : Map StorageContract) (o : Option (List ContractInfo))
      (cs : List StorageContract)
      → (save_contracts env lts all o).added ≡ some cs
      → (infos : List ContractInfo) × (new_contracts all infos ≡ cs)
  unfolding save_contracts
  save-added lts all none cs added = cc
  save-added lts all (some infos) cs added = elim (Bool-cases env.update_lt_ok) [
    | inl ok ↦
        (infos, (let same : some (new_contracts all infos) ≡ some cs = (rw ok at added) in cc))
    | inr bad ↦ absurd (cc (rw bad at added))
  ]

  collect_from-added :
      (wallets : List ProviderWallet) (cs : List StorageContract)
      → (collect_from env wallets).added ≡ some cs
      → (infos : List ContractInfo) × (new_contracts
            (merge_wallets env [] (env.contract_turns wallets))
            infos
          ≡ cs)
  unfolding collect_from
  collect_from-added wallets cs added =
      let all = merge_wallets env [] (env.contract_turns wallets) in
      elim (Bool-cases (is_empty all)) [
        | inl nothing ↦ absurd (cc (rw nothing at added))
        | inr found ↦
            save-added (providers_to_update env (env.update_turns wallets)) all
              (env.get_storage_contracts_info (addresses all)) cs (rw found at added)
      ]

  collect-listed :
      (wallets : List ProviderWallet)
      → env.all_wallets ≡ some wallets
      → collect_providers_new_storage_contracts env ≡ collect_from env wallets
  unfolding collect_providers_new_storage_contracts
  collect-listed wallets listed = ground (arith, listed)

  paid_step : String → String → ProviderWallet → Bool → Bool
  paid_step src p w rest = (pays w src && str_eq w.address p) || rest

  paid_step_comm :
      (src p : String) (w u : ProviderWallet) (rest : Bool)
      → paid_step src p w (paid_step src p u rest) ≡ paid_step src p u (paid_step src p w rest)
  unfolding paid_step
  paid_step_comm src p w u rest = ground arith

  is_paid-eq-foldr :
      (src p : String) (ws : List ProviderWallet)
      → is_paid ws src p ≡ foldr (paid_step src p) false ws
  unfolding paid_step
  is_paid-eq-foldr src p [] = refl
  is_paid-eq-foldr src p (w ∷ ws) = rw (is_paid-eq-foldr src p ws)

  is_paid-perm :
      {ws us : List ProviderWallet} (src p : String)
      → Perm ws us
      → is_paid ws src p ≡ is_paid us src p
  is_paid-perm {ws} {us} src p perm =
      is_paid-eq-foldr src p ws
      ∙ Perm.foldr-eq (hlevel) (paid_step src p) (paid_step_comm src p) perm false
      ∙ sym (is_paid-eq-foldr src p us)

  All-IsPaid :
      (ws us : List ProviderWallet) (cs : List StorageContract)
      → Perm ws us
      → All (IsPaid ws) cs
      → All (IsPaid us) cs
  All-IsPaid ws us [] perm paid = tt
  All-IsPaid ws us (c ∷ cs) perm (paid, others) = (
    record { exactly = λ p. paid.exactly p ∙ is_paid-perm c.address p perm },
    All-IsPaid ws us cs perm others,
  )

  -- Every contract that the worker adds lists the providers of which a wallet received a withdrawal
  -- of a reward from it, and no others, whatever the order in which the wallets are scanned.
  pub added-ArePaid :
      (wallets : List ProviderWallet) (cs : List StorageContract)
      → env.all_wallets ≡ some wallets
      → Perm (env.contract_turns wallets) wallets
      → (collect_providers_new_storage_contracts env).added ≡ some cs
      → All (IsPaid wallets) cs
  added-ArePaid wallets cs listed perm added =
      let turns = env.contract_turns wallets in
      let (infos, same) =
        collect_from-added wallets cs
          (sym (ap (λ o. o.added) (collect-listed wallets listed)) ∙ added) in
      subst (All (IsPaid wallets)) same (
        All-IsPaid turns wallets (new_contracts (merge_wallets env [] turns) infos) perm
          (new_contracts-IsPaid turns infos))
