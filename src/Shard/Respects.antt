-- ===== src/Shard/Respects.antt =====
-- `assignProvidersToAgents`: the sticky and the excluded endpoint of a provider.
use mytonprovider_backend.Prelude.{
  ◌≡◌, ◌⊎◌, refl, none, ℕ, ◌≢◌, sym, ap, subst, Bool-cases, ◌∙◌, inl, inr, Option-cases, String,
  true, Option, some, List, ◌∷◌, Map, lookup, or_else, str_eq, arith, lookup-insert, eq_iff,
}
use mytonprovider_backend.Shard.{
  ProviderBatch, ProviderAssignment, Loop, place, start, batch_less, sort_stable, has_endpoint,
  assign_providers_to_agents,
}
use mytonprovider_backend.Shard.Cover.{present, assign_loop_rule, assign-eq-some}
use mytonprovider_backend.Shard.Cover.Candidates.{
  HasOther, has_endpoint-candidates_for, candidates_for-excludes, candidates_for-keeps, str_ne,
}
use mytonprovider_backend.Shard.Cover.Choice.{Chosen, excluded_for}

excluded_ne :
    (exclude : Map String) (b : ProviderBatch) (t : String)
    → t ≢ ""
    → lookup exclude b.provider_pubkey ≢ some t
    → t ≢ excluded_for exclude b
excluded_ne exclude b t n not_x eq = elim (Option-cases (lookup exclude b.provider_pubkey)) [
  | inl missing ↦ n (eq ∙ ap (or_else "") missing)
  | inr (x, there) ↦ not_x (there ∙ ap some (sym (eq ∙ ap (or_else "") there)))
]

module _ (es : List String) (sticky exclude : Map String) where
  -- What a caller may rely on of the agent `c` of the provider `pk`.
  pub record Respects (pk c : String) : Type 0 where
    pub known : has_endpoint es c ≡ true
    pub avoids : (x : String) → lookup exclude pk ≡ some x → x ≢ "" → HasOther es x → c ≢ x
    pub stays :
        (t : String)
        → lookup sticky pk ≡ some t
        → t ≢ ""
        → has_endpoint es t ≡ true
        → lookup exclude pk ≢ some t
        → c ≡ t

  Chosen-Respects :
      (b : ProviderBatch) (c : String) {loads : Map ℕ}
      → Chosen es sticky exclude loads b c
      → Respects b.provider_pubkey c
  Chosen-Respects b c ch = record {
    known = has_endpoint-candidates_for es (excluded_for exclude b) c ch.candidate;
    avoids = λ x is_x n o. candidates_for-excludes es x c n o (rw is_x at ch.candidate);
    stays = λ t is_t n m not_x.
        let apart : t ≢ excluded_for exclude b = λ eq. excluded_ne exclude b t n not_x eq in
        let candidate = candidates_for-keeps es (excluded_for exclude b) t m apart in
        ground (arith, ch.stays, is_t, candidate, str_ne t "" n);
  }

  -- Every provider that is assigned so far has such an agent.
  AllRespect : Loop → List ProviderBatch → Type 0
  AllRespect s rest = (pk c : String) → lookup s.by_provider pk ≡ some c → Respects pk c

  start-AllRespect : (rest : List ProviderBatch) → AllRespect (start es) rest
  unfolding AllRespect start lookup
  start-AllRespect rest pk c eq = ground arith

  place-AllRespect :
      (s : Loop) (b : ProviderBatch) (rest : List ProviderBatch) (c : String)
      → Chosen es sticky exclude s.loads b c
      → AllRespect s (b ∷ rest)
      → AllRespect (place s b c) rest
  unfolding AllRespect place
  place-AllRespect s b rest c ch all pk d eq =
      let law = lookup-insert s.by_provider b.provider_pubkey pk c in
      elim (Bool-cases (str_eq b.provider_pubkey pk)) [
        | inl same ↦
            let is_c : c ≡ d = ground (arith, law) in
            let is_pk : b.provider_pubkey ≡ pk = (eq_iff b.provider_pubkey pk).0 same in
            subst (λ k. Respects k d) is_pk
              (subst (λ y. Respects b.provider_pubkey y) is_c (Chosen-Respects b c ch))
        | inr other ↦ all pk d (ground (arith, law))
      ]

-- Every provider that the sharding assigns to an agent has such an agent.
assign-Respects :
    (p : Option ProviderBatch) (ps : List (Option ProviderBatch)) (e : String) (es : List String)
    (sticky exclude : Map String)
    → (out : ProviderAssignment) × (assign_providers_to_agents (p ∷ ps) (e ∷ es) sticky exclude
        ≡ some out)
      × ((pk c : String)
          → lookup out.by_provider pk ≡ some c
          → Respects (e ∷ es) sticky exclude pk c)
assign-Respects p ps e es sticky exclude =
    let sorted = sort_stable batch_less (p ∷ ps) in
    let (s, eq, all) =
      assign_loop_rule e es sticky exclude (AllRespect (e ∷ es) sticky exclude)
        (λ s b rest c. place-AllRespect (e ∷ es) sticky exclude s b rest c) (start (e ∷ es)) sorted
        (start-AllRespect (e ∷ es) sticky exclude (present sorted)) in
    (
      record { by_endpoint = s.by_endpoint; by_provider = s.by_provider },
      assign-eq-some p ps e es sticky exclude eq,
      unfold AllRespect in all,
    )

-- With at least one endpoint, if the endpoint `x` is excluded for a provider and there is another
-- endpoint, then the sharding does not panic and does not assign the provider to `x`.
pub assign-avoids :
    (p : Option ProviderBatch) (ps : List (Option ProviderBatch)) (e : String) (es : List String)
    (sticky exclude : Map String) (pk x : String)
    → lookup exclude pk ≡ some x
    → x ≢ ""
    → HasOther (e ∷ es) x
    → (out : ProviderAssignment) × (assign_providers_to_agents (p ∷ ps) (e ∷ es) sticky exclude
        ≡ some out)
      × (lookup out.by_provider pk ≢ some x)
assign-avoids p ps e es sticky exclude pk x is_x named other =
    let (out, eq, all) = assign-Respects p ps e es sticky exclude in
    (out, eq, λ to_x. (all pk x to_x).avoids x is_x named other refl)

-- With at least one endpoint, if the endpoint `t` is the sticky one of a provider, is one of the
-- endpoints, and is not excluded for the provider, then the sharding does not panic, and it assigns
-- the provider to `t` if it assigns it at all.
pub assign-stays :
    (p : Option ProviderBatch) (ps : List (Option ProviderBatch)) (e : String) (es : List String)
    (sticky exclude : Map String) (pk t : String)
    → lookup sticky pk ≡ some t
    → t ≢ ""
    → has_endpoint (e ∷ es) t ≡ true
    → lookup exclude pk ≢ some t
    → (out : ProviderAssignment) × (assign_providers_to_agents (p ∷ ps) (e ∷ es) sticky exclude
        ≡ some out)
      × ((lookup out.by_provider pk ≡ none) ⊎ (lookup out.by_provider pk ≡ some t))
assign-stays p ps e es sticky exclude pk t is_t named there not_x =
    let (out, eq, all) = assign-Respects p ps e es sticky exclude in
    (
      out,
      eq,
      elim (Option-cases (lookup out.by_provider pk)) [
        | inl missing ↦ inl missing
        | inr (c, found) ↦ inr (found ∙ ap some ((all pk c found).stays t is_t named there not_x))
      ],
    )
