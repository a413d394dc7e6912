-- ===== src/Shard/Every.antt =====
-- `assignProvidersToAgents`: what holds of each batch that is to be sharded, in each endpoint's
-- list.
use mytonprovider_backend.Prelude.{
  ◌≡◌, refl, String, Option, some, List, [], ◌∷◌, ◌++◌, Map, lookup, insert, or_else, All, Entries,
  All-append, insert-Entries, lookup-Entries, Option-cases, none, inl, inr,
}
use mytonprovider_backend.Shard.{
  ProviderBatch, ProviderAssignment, Loop, place, start, set_all, batch_less, sort_stable,
  assign_providers_to_agents,
}
use mytonprovider_backend.Shard.Order.{All-sort_stable}
use mytonprovider_backend.Shard.Cover.{assign_loop_rule, assign-eq-some, present}

module _ (P : ProviderBatch → Type 0) where
  -- `P` of each batch in each list.
  abbrev pub EachPlaced : Map (List ProviderBatch) → Type 0
  EachPlaced = Entries (λ _ l. All P l)

  Every : Loop → List ProviderBatch → Type 0
  Every s rest = EachPlaced s.by_endpoint × All P rest

  grown :
      (m : Map (List ProviderBatch)) (c : String) (b : ProviderBatch)
      → EachPlaced m
      → P b
      → All P (or_else [] (lookup m c) ++ b ∷ [])
  grown m c b all p = elim (Option-cases (lookup m c)) [
    | inl fresh ↦ rw fresh (p, tt)
    | inr (l, eq) ↦
        rw eq (All-append P l (b ∷ []) (lookup-Entries (λ _ l. All P l) m c l all eq) (p, tt))
  ]

  place-Every :
      (s : Loop) (b : ProviderBatch) (rest : List ProviderBatch) (c : String)
      → Every s (b ∷ rest)
      → Every (place s b c) rest
  unfolding Every place
  place-Every s b rest c (all, (p, ps)) =
      (insert-Entries (λ _ l. All P l) s.by_endpoint c _ (grown s.by_endpoint c b all p) all, ps)

  set_all-EachPlaced :
      (m : Map (List ProviderBatch)) (es : List String)
      → EachPlaced m
      → EachPlaced (set_all m es [])
  unfolding set_all
  set_all-EachPlaced m [] all = all
  set_all-EachPlaced m (e ∷ es) all =
      set_all-EachPlaced (insert m e []) es (insert-Entries (λ _ l. All P l) m e [] tt all)

  -- The same of a batch that may be nil.
  abbrev pub EachBatch : Option ProviderBatch → Type 0
  EachBatch none = Unit
  EachBatch (some b) = P b

  All-present : (ps : List (Option ProviderBatch)) → All EachBatch ps → All P (present ps)
  All-present [] all = tt
  All-present (none ∷ ps) (_, all) = All-present ps all
  All-present (some b ∷ ps) (p, all) = (p, All-present ps all)

  assign_cons-Every :
      (p : Option ProviderBatch) (ps : List (Option ProviderBatch)) (e : String) (es : List String)
      (sticky exclude : Map String)
      → All EachBatch (p ∷ ps)
      → (out : ProviderAssignment) × (assign_providers_to_agents (p ∷ ps) (e ∷ es) sticky exclude
          ≡ some out)
        × EachPlaced out.by_endpoint
  unfolding Every start
  assign_cons-Every p ps e es sticky exclude all =
      let sorted = sort_stable batch_less (p ∷ ps) in
      let (s, eq, each) =
        assign_loop_rule e es sticky exclude Every (λ s b rest c _ k. place-Every s b rest c k)
          (start (e ∷ es)) sorted
          (
            set_all-EachPlaced [] (e ∷ es) tt,
            All-present sorted (All-sort_stable EachBatch (p ∷ ps) all),
          ) in
      (
        record { by_endpoint = s.by_endpoint; by_provider = s.by_provider },
        assign-eq-some p ps e es sticky exclude eq,
        each.0,
      )

  -- The sharding does not panic, and `P` holds of each batch that an endpoint is given.
  pub assign-Every :
      (ps : List (Option ProviderBatch)) (es : List String) (sticky exclude : Map String)
      → All EachBatch ps
      → (out : ProviderAssignment) × (assign_providers_to_agents ps es sticky exclude ≡ some out)
        × EachPlaced out.by_endpoint
  unfolding assign_providers_to_agents
  assign-Every [] es sticky exclude all = (record { by_endpoint = []; by_provider = [] }, refl, tt)
  assign-Every (p ∷ ps) [] sticky exclude all =
      (record { by_endpoint = []; by_provider = [] }, refl, tt)
  assign-Every (p ∷ ps) (e ∷ es) sticky exclude all = assign_cons-Every p ps e es sticky exclude all
