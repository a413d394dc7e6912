-- ===== src/Shard.antt =====
-- coordinator/internal/workers/providersMaster/runchecks_shard.go: provider batches are sharded
-- across the agents by number of bags. A pointer that may be nil is an `Option`; `none` as a result
-- is the run-time panic of `candidates[0]`.
pub mod Order
pub mod Pick
pub mod Cover
pub mod Respects
pub mod Balance
pub mod Every
use Prim.Native.Nat.{Ordering}
use Prim.Native.String.{compare}
use mytonprovider_backend.Prelude.{
  ℕ, ℤ, ◌+◌, String, Bool, true, false, ◌&&◌, ◌||◌, not, Option, none, some, List, [], ◌∷◌, ◌++◌,
  Map, lookup, insert, length, ltb, ◌==◌, str_eq, if◌then◌else◌, or_else, is_empty,
}

pub record ContractRef : Type 0 where
  pub contract_address : String
  pub bag_id : String

pub record Endpoint : Type 0 where
  pub ip : String
  pub port : ℤ
  pub adnl_pubkey : List ℕ

pub record ProviderBatch : Type 0 where
  pub provider_pubkey : String
  pub provider_address : String
  pub storage_endpoint : Option Endpoint
  pub contracts : List (Option ContractRef)

-- The generated getters read a nil batch as an empty one.
abbrev pub bags : Option ProviderBatch → ℕ
bags none = 0
bags (some b) = length b.contracts

abbrev pub pubkey_of : Option ProviderBatch → String
pubkey_of none = ""
pubkey_of (some b) = b.provider_pubkey

pub record ProviderAssignment : Type 0 where
  pub by_endpoint : Map (List ProviderBatch)
  pub by_provider : Map String

-- `a < b` on Go strings.
str_lt : String → String → Bool
str_lt a b = elim (compare a b) [ Ordering.lt ↦ true | _ ↦ false ]

-- The comparison that is handed to `sort.SliceStable`: most bags first, then by public key.
unfoldable pub batch_less : Option ProviderBatch → Option ProviderBatch → Bool
unfolding str_lt
batch_less a b =
    if not (bags a == bags b) then ltb (bags b) (bags a) else str_lt (pubkey_of a) (pubkey_of b)

-- `sort.SliceStable`, as the stable insertion sort by the same comparison.
module _ {ℓ} {A : Type ℓ} (less : A → A → Bool) where
  pub insert_stable : A → List A → List A
  insert_stable x [] = x ∷ []
  insert_stable x (y ∷ ys) = if less y x then y ∷ insert_stable x ys else x ∷ y ∷ ys

  pub sort_stable : List A → List A
  unfolding insert_stable
  sort_stable [] = []
  sort_stable (x ∷ xs) = insert_stable x (sort_stable xs)

-- The loop of `pickAgent` that looks for the sticky endpoint.
unfoldable pub has_endpoint : List String → String → Bool
has_endpoint [] ep = false
has_endpoint (e ∷ es) ep = if str_eq e ep then true else has_endpoint es ep

-- The loop of `pickAgent` over `candidates[1:]`, with `chosen`; `minLoad` is the load of `chosen`.
unfoldable pub least_loaded : Map ℕ → String → List String → String
least_loaded loads chosen [] = chosen
least_loaded loads chosen (e ∷ es) =
    least_loaded loads
      (if ltb (or_else 0 (lookup loads e)) (or_else 0 (lookup loads chosen)) then e else chosen) es

unfoldable pub pick_agent : List String → Map ℕ → String → Option String
unfolding has_endpoint least_loaded
pick_agent candidates loads sticky_endpoint =
    if not (str_eq sticky_endpoint "") && has_endpoint candidates sticky_endpoint
    then some sticky_endpoint
    else elim candidates [ [] ↦ none | e ∷ es ↦ some (least_loaded loads e es) ]

-- The loop that drops the excluded endpoint.
pub without : List String → String → List String
without [] excluded = []
without (e ∷ es) excluded =
    let rest = without es excluded in if str_eq e excluded then rest else e ∷ rest

pub candidates_for : List String → String → List String
unfolding without
candidates_for endpoints excluded =
    let filtered = without endpoints excluded in
    if not (str_eq excluded "") && ltb 1 (length endpoints) && not (is_empty filtered)
    then filtered
    else endpoints

-- The state of the loop over `ordered`.
pub record Loop : Type 0 where
  pub by_endpoint : Map (List ProviderBatch)
  pub by_provider : Map String
  pub loads : Map ℕ

pub place : Loop → ProviderBatch → String → Loop
place s batch chosen = record {
  by_endpoint =
      insert s.by_endpoint chosen (or_else [] (lookup s.by_endpoint chosen) ++ batch ∷ []);
  by_provider = insert s.by_provider batch.provider_pubkey chosen;
  loads = insert s.loads chosen (or_else 0 (lookup s.loads chosen) + length batch.contracts);
}

module _ (endpoints : List String) (sticky exclude : Map String) where
  abbrev pub chosen_for : Map ℕ → ProviderBatch → Option String
  chosen_for loads batch =
      pick_agent (candidates_for endpoints (or_else "" (lookup exclude batch.provider_pubkey)))
        loads (or_else "" (lookup sticky batch.provider_pubkey))

  pub assign_one : Loop → Option ProviderBatch → Option Loop
  assign_one s none = some s
  assign_one s (some batch) = elim (chosen_for s.loads batch) [
    | none ↦ none
    | some chosen ↦ some (place s batch chosen)
  ]

  pub assign_loop : Loop → List (Option ProviderBatch) → Option Loop
  assign_loop s [] = some s
  assign_loop s (b ∷ bs) = elim (assign_one s b) [ none ↦ none | some s' ↦ assign_loop s' bs ]

-- `for _, ep := range endpoints { m[ep] = v }`
pub set_all {ℓ} : {V : Type ℓ} → Map V → List String → V → Map V
set_all m [] v = m
set_all m (e ∷ es) v = set_all (insert m e v) es v

pub start : List String → Loop
start endpoints = record {
  by_endpoint = set_all [] endpoints [];
  by_provider = [];
  loads = set_all [] endpoints 0;
}

abbrev finish : Option Loop → Option ProviderAssignment
finish none = none
finish (some s) = some (record { by_endpoint = s.by_endpoint; by_provider = s.by_provider })

pub assign_providers_to_agents :
    List (Option ProviderBatch) → List String → Map String → Map String → Option ProviderAssignment
assign_providers_to_agents providers endpoints sticky exclude =
    if is_empty providers || is_empty endpoints
    then some (record { by_endpoint = []; by_provider = [] })
    else finish
        (assign_loop endpoints sticky exclude (start endpoints) (sort_stable batch_less providers))
