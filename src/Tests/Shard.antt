-- ===== src/Tests/Shard.antt =====
-- The sharding at concrete inputs.
use mathlib.Core.List.{Perm}
use mytonprovider_backend.Prelude.{
  str_eq, eq_iff, false, ℕ, ◌≤◌, ◌+◌, String, ◌≡◌, ◌≢◌, ◌⊎◌, none, true, false, refl, some, [], ◌∷◌,
  Map, lookup, arith,
}
use mytonprovider_backend.Shard.{
  ProviderAssignment, batch_less, sort_stable, pick_agent, has_endpoint, least_loaded,
  assign_providers_to_agents,
}
use mytonprovider_backend.Shard.Order.{MostBagsFirst, sort_stable_lem}
use mytonprovider_backend.Shard.Pick.{is_sticky, LeastOf, pick_agent_lem}
use mytonprovider_backend.Shard.Cover.{placed, present, assign-covers}
use mytonprovider_backend.Shard.Respects.{assign-avoids, assign-stays}
use mytonprovider_backend.Shard.Balance.{bags_at, assign-balanced}
use mytonprovider_backend.Tests.Data.{batch}

abbrev loads : Map ℕ
loads = ("e1", 5) ∷ ("e2", 3) ∷ []

pick_least : pick_agent ("e1" ∷ "e2" ∷ []) loads "e9" ≡ some "e2"
unfolding pick_agent has_endpoint least_loaded lookup
pick_least = refl

pick_sticky : pick_agent ("e1" ∷ "e2" ∷ []) loads "e1" ≡ some "e1"
unfolding pick_agent has_endpoint least_loaded lookup
pick_sticky = refl

sort_stable_lem_example :
    Perm
      (sort_stable batch_less (batch "aa" 1 ∷ batch "bb" 3 ∷ []))
      (batch "aa" 1 ∷ batch "bb" 3 ∷ [])
    × MostBagsFirst (sort_stable batch_less (batch "aa" 1 ∷ batch "bb" 3 ∷ []))
sort_stable_lem_example = sort_stable_lem (batch "aa" 1 ∷ batch "bb" 3 ∷ [])

pick_agent_lem_example :
    (c : String) × (pick_agent ("e1" ∷ "e2" ∷ []) loads "e9" ≡ some c)
    × (has_endpoint ("e1" ∷ "e2" ∷ []) c ≡ true)
    × (((is_sticky ("e1" ∷ "e2" ∷ []) "e9" ≡ true) × (c ≡ "e9"))
        ⊎ ((is_sticky ("e1" ∷ "e2" ∷ []) "e9" ≡ false) × LeastOf loads c ("e1" ∷ "e2" ∷ [])))
pick_agent_lem_example = pick_agent_lem "e1" ("e2" ∷ []) loads "e9"

assign-covers_example :
    (out : ProviderAssignment) × (assign_providers_to_agents
        (batch "aa" 1 ∷ batch "bb" 3 ∷ [])
        ("e1" ∷ "e2" ∷ [])
        []
        []
      ≡ some out)
    × Perm (placed out.by_endpoint) (present (batch "aa" 1 ∷ batch "bb" 3 ∷ []))
assign-covers_example = assign-covers (batch "aa" 1) (batch "bb" 3 ∷ []) "e1" ("e2" ∷ []) [] []

abbrev sticky : Map String
sticky = ("aa", "e2") ∷ []

abbrev exclude : Map String
exclude = ("bb", "e1") ∷ []

apart : (s t : String) → str_eq s t ≡ false → s ≢ t
apart s t differ eq = absurd (cc (differ, (eq_iff s t).1 eq))

excluded_bb : lookup exclude "bb" ≡ some "e1"
unfolding lookup
excluded_bb = refl

sticky_aa : lookup sticky "aa" ≡ some "e2"
unfolding lookup
sticky_aa = refl

not_excluded_aa : lookup exclude "aa" ≢ some "e2"
unfolding lookup
not_excluded_aa eq = absurd (cc eq)

there_e1 : has_endpoint ("e1" ∷ "e2" ∷ []) "e1" ≡ true
unfolding has_endpoint
there_e1 = refl

there_e2 : has_endpoint ("e1" ∷ "e2" ∷ []) "e2" ≡ true
unfolding has_endpoint
there_e2 = refl

assign-avoids_example :
    (out : ProviderAssignment) × (assign_providers_to_agents
        (batch "aa" 1 ∷ batch "bb" 3 ∷ [])
        ("e1" ∷ "e2" ∷ [])
        sticky
        exclude
      ≡ some out)
    × (lookup out.by_provider "bb" ≢ some "e1")
assign-avoids_example =
    assign-avoids (batch "aa" 1) (batch "bb" 3 ∷ []) "e1" ("e2" ∷ []) sticky exclude "bb" "e1"
      excluded_bb (apart "e1" "" refl) ("e2", there_e2, apart "e2" "e1" refl)

assign-stays_example :
    (out : ProviderAssignment) × (assign_providers_to_agents
        (batch "aa" 1 ∷ batch "bb" 3 ∷ [])
        ("e1" ∷ "e2" ∷ [])
        sticky
        exclude
      ≡ some out)
    × ((lookup out.by_provider "aa" ≡ none) ⊎ (lookup out.by_provider "aa" ≡ some "e2"))
assign-stays_example =
    assign-stays (batch "aa" 1) (batch "bb" 3 ∷ []) "e1" ("e2" ∷ []) sticky exclude "aa" "e2"
      sticky_aa (apart "e2" "" refl) there_e2 not_excluded_aa

assign-balanced_example :
    (out : ProviderAssignment) × (assign_providers_to_agents
        (batch "aa" 1 ∷ batch "bb" 3 ∷ [])
        ("e1" ∷ "e2" ∷ [])
        []
        []
      ≡ some out)
    × (bags_at out.by_endpoint "e1" ≤ bags_at out.by_endpoint "e2" + 3)
assign-balanced_example =
    assign-balanced (batch "aa" 1) (batch "bb" 3 ∷ []) "e1" ("e2" ∷ []) 3 "e1" "e2"
      (omega arith, (omega arith, tt)) there_e1 there_e2
