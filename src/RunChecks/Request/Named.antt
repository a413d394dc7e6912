-- ===== src/RunChecks/Request/Named.antt =====
-- `buildRunChecksRPCRequest` of coordinator/internal/workers/providersMaster/worker.go: the fields
-- of the batches that it makes.
use mytonprovider_backend.Prelude.{
  ◌≡◌, inl, inr, refl, ap, Bool-cases, Option-cases, arith, String, true, false, Option, none, some,
  List, [], ◌∷◌, ◌++◌, map, length, is_empty, is_positive, ◌==◌, is_blank, All, Map, KeySet, lookup,
  insert, or_else, Entries, insert-Entries, lookup-Entries, All-append, subst,
}
use mytonprovider_backend.Db.{ContractToProviderRelation, ProviderIp}
use mytonprovider_backend.Shard.{ContractRef, Endpoint, ProviderBatch}
use mytonprovider_backend.Shard.Every.{EachBatch}
use mytonprovider_backend.RunChecks.Request.{
  CheckTimeouts, public_key_size, group_by_provider, contract_ref, usable, provider_batch,
  check_keys, request_loop, build_run_checks_rpc_request, has_valid_resolved_storage_endpoint,
}

-- A relation of the database whose texts are not blank.
pub record IsNamed (sc : ContractToProviderRelation) : Type 0 where
  pub has_pubkey : is_blank sc.provider_public_key ≡ false
  pub has_provider_address : is_blank sc.provider_address ≡ false
  pub has_address : is_blank sc.address ≡ false
  pub has_bag : is_blank sc.bag_id ≡ false

record IsGroup (pubkey : String) (cs : List ContractToProviderRelation) : Type 0 where
  has_key : is_blank pubkey ≡ false
  has_contracts : is_empty cs ≡ false
  are_named : All IsNamed cs

grown-IsGroup :
    (groups : Map (List ContractToProviderRelation)) (sc : ContractToProviderRelation)
    → Entries IsGroup groups
    → IsNamed sc
    → IsGroup sc.provider_public_key (or_else [] (lookup groups sc.provider_public_key) ++ sc ∷ [])
grown-IsGroup groups sc all n = elim (Option-cases (lookup groups sc.provider_public_key)) [
  | inl fresh ↦
      rw fresh (record { has_key = n.has_pubkey; has_contracts = refl; are_named = (n, tt) })
  | inr (l, eq) ↦ rw eq (
      let g = lookup-Entries IsGroup groups sc.provider_public_key l all eq in
      record {
        has_key = n.has_pubkey;
        has_contracts = not_empty l;
        are_named = All-append IsNamed l (sc ∷ []) g.are_named (n, tt);
      })
]
  where
    not_empty : (l : List ContractToProviderRelation) → is_empty (l ++ sc ∷ []) ≡ false
    not_empty [] = refl
    not_empty (x ∷ l) = refl

group_by_provider-IsGroup :
    (groups : Map (List ContractToProviderRelation)) (scs : List ContractToProviderRelation)
    → Entries IsGroup groups
    → All IsNamed scs
    → Entries IsGroup (group_by_provider groups scs)
unfolding group_by_provider
group_by_provider-IsGroup groups [] all ns = all
group_by_provider-IsGroup groups (sc ∷ scs) all (n, ns) =
    let pubkey = sc.provider_public_key in
    let cs = or_else [] (lookup groups pubkey) ++ sc ∷ [] in
    group_by_provider-IsGroup (insert groups pubkey cs) scs
      (insert-Entries IsGroup groups pubkey cs (grown-IsGroup groups sc all n) all) ns

-- A reference to a contract whose texts are not blank.
pub record IsNamedRef (c : ContractRef) : Type 0 where
  pub has_address : is_blank c.contract_address ≡ false
  pub has_bag : is_blank c.bag_id ≡ false

pub record IsResolved (e : Endpoint) : Type 0 where
  pub has_ip : is_blank e.ip ≡ false
  pub has_port : is_positive e.port ≡ true
  pub has_adnl : (length e.adnl_pubkey == public_key_size) ≡ true

-- Every field of the batch is filled in.
pub record IsComplete (b : ProviderBatch) : Type 0 where
  pub has_pubkey : is_blank b.provider_pubkey ≡ false
  pub has_address : is_blank b.provider_address ≡ false
  pub has_contracts : is_empty b.contracts ≡ false
  pub refs : List ContractRef
  pub holds_refs : b.contracts ≡ map some refs
  pub are_named : All IsNamedRef refs
  pub endpoint : Endpoint
  pub has_endpoint : b.storage_endpoint ≡ some endpoint
  pub is_resolved : IsResolved endpoint

named_ref : ContractToProviderRelation → ContractRef
named_ref c = record { contract_address = c.address; bag_id = c.bag_id }

refs-are_named :
    (cs : List ContractToProviderRelation) → All IsNamed cs → All IsNamedRef (map named_ref cs)
unfolding named_ref
refs-are_named [] ns = tt
refs-are_named (c ∷ cs) (n, ns) =
    (record { has_address = n.has_address; has_bag = n.has_bag }, refs-are_named cs ns)

map-refs :
    (cs : List ContractToProviderRelation) → map contract_ref cs ≡ map some (map named_ref cs)
unfolding contract_ref named_ref
map-refs [] = refl
map-refs (c ∷ cs) = ap (λ r. contract_ref c ∷ r) (map-refs cs)

IsResolved-valid :
    (ip : ProviderIp)
    → has_valid_resolved_storage_endpoint ip ≡ true
    → IsResolved
        (record { ip = ip.storage.ip; port = ip.storage.port; adnl_pubkey = ip.storage.public_key })
unfolding has_valid_resolved_storage_endpoint
IsResolved-valid ip v = record {
  has_ip = ground (arith, v);
  has_port = ground (arith, v);
  has_adnl = ground (arith, v);
}

provider_batch-IsComplete :
    (pubkey : String) (ip : ProviderIp) (cs : List ContractToProviderRelation)
    → has_valid_resolved_storage_endpoint ip ≡ true
    → IsGroup pubkey cs
    → IsComplete (provider_batch pubkey ip cs)
unfolding provider_batch
provider_batch-IsComplete pubkey ip [] v g = absurd (let e = g.has_contracts in cc)
provider_batch-IsComplete pubkey ip (c ∷ cs) v g = record {
  has_pubkey = g.has_key;
  has_address = g.are_named.0.has_provider_address;
  has_contracts = refl;
  refs = map named_ref (c ∷ cs);
  holds_refs = map-refs (c ∷ cs);
  are_named = refs-are_named (c ∷ cs) g.are_named;
  endpoint = _;
  has_endpoint = refl;
  is_resolved = IsResolved-valid ip v;
}

-- A batch that is there is complete.
abbrev pub AreComplete : List (Option ProviderBatch) → Type 0
AreComplete = All (EachBatch IsComplete)

usable-valid :
    (o : Option ProviderIp) (ip : ProviderIp)
    → usable o ≡ some ip
    → has_valid_resolved_storage_endpoint ip ≡ true
unfolding usable
usable-valid none ip u = cc
usable-valid (some ip') ip u = elim (Bool-cases (has_valid_resolved_storage_endpoint ip')) [
  | inl v ↦
      let found : some ip' ≡ some ip = (rw v at u) in
      let same : ip' ≡ ip = cc in subst (λ i. has_valid_resolved_storage_endpoint i ≡ true) same v
  | inr n ↦ absurd (let none_found : none ≡ some ip = (rw n at u) in cc)
]

module _ (ips : Map ProviderIp) where
  request_loop-AreComplete :
      (groups : Map (List ContractToProviderRelation)) (checked : KeySet)
      (batches : List (Option ProviderBatch))
      → Entries IsGroup groups
      → AreComplete batches
      → AreComplete (request_loop ips groups checked batches).1
  unfolding request_loop
  request_loop-AreComplete [] checked batches all done = done
  request_loop-AreComplete ((pubkey, cs) ∷ groups) checked batches (g, all) done =
      elim (Option-cases (usable (lookup ips pubkey))) [
        | inl unusable ↦
            rw (unusable, request_loop) (request_loop-AreComplete groups checked batches all done)
        | inr (ip, eq) ↦
            let more = batches ++ some (provider_batch pubkey ip cs) ∷ [] in
            rw (eq, request_loop)
              (request_loop-AreComplete groups (check_keys checked cs) more all (
                All-append (EachBatch IsComplete) batches _ done
                  (provider_batch-IsComplete pubkey ip cs (usable-valid _ ip eq) g, tt)))
      ]

-- Every batch of the request is complete if the texts of every relation are not blank.
pub build_run_checks-AreComplete :
    (timeouts : CheckTimeouts) (fallback job : String) (scs : List ContractToProviderRelation)
    (ips : Map ProviderIp)
    → All IsNamed scs
    → AreComplete (build_run_checks_rpc_request timeouts fallback job scs ips).0.providers
unfolding build_run_checks_rpc_request
build_run_checks-AreComplete timeouts fallback job scs ips ns =
    request_loop-AreComplete ips (group_by_provider [] scs) [] []
      (group_by_provider-IsGroup [] scs tt ns) tt

pub build_run_checks-has_job :
    (timeouts : CheckTimeouts) (fallback job : String) (scs : List ContractToProviderRelation)
    (ips : Map ProviderIp)
    → is_blank fallback ≡ false
    → is_blank (build_run_checks_rpc_request timeouts fallback job scs ips).0.job_id ≡ false
unfolding build_run_checks_rpc_request
build_run_checks-has_job timeouts fallback job scs ips h = ground (arith, h)
