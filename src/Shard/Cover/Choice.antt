-- ===== src/Shard/Cover/Choice.antt =====
-- The agent that the loop chooses for a batch.
use mytonprovider_backend.Prelude.{
  ◌≡◌, ◌⊎◌, inl, inr, String, true, false, some, List, [], ◌∷◌, Map, ℕ, lookup, or_else, is_empty,
  arith,
}
use mytonprovider_backend.Shard.{
  ProviderBatch, chosen_for, candidates_for, has_endpoint, pick_agent,
}
use mytonprovider_backend.Shard.Pick.{is_sticky, LeastOf, pick_agent_lem}

abbrev pub excluded_for : Map String → ProviderBatch → String
excluded_for exclude b = or_else "" (lookup exclude b.provider_pubkey)

abbrev pub sticky_for : Map String → ProviderBatch → String
sticky_for sticky b = or_else "" (lookup sticky b.provider_pubkey)

-- `c` is what the loop may choose for `b` at the loads given.
pub record Chosen (es : List String) (sticky exclude : Map String) (loads : Map ℕ)
    (b : ProviderBatch) (c : String) : Type 0 where
  pub candidate : has_endpoint (candidates_for es (excluded_for exclude b)) c ≡ true
  pub stays :
      is_sticky (candidates_for es (excluded_for exclude b)) (sticky_for sticky b) ≡ true
      → c ≡ sticky_for sticky b
  pub least :
      is_sticky (candidates_for es (excluded_for exclude b)) (sticky_for sticky b) ≡ false
      → LeastOf loads c (candidates_for es (excluded_for exclude b))

candidates_for-nonempty :
    (e : String) (es : List String) (x : String) → is_empty (candidates_for (e ∷ es) x) ≡ false
unfolding candidates_for
candidates_for-nonempty e es x = ground arith

pick_lem :
    (es : List String) (loads : Map ℕ) (sticky : String)
    → is_empty es ≡ false
    → (c : String) × (pick_agent es loads sticky ≡ some c)
      × (has_endpoint es c ≡ true)
      × (((is_sticky es sticky ≡ true) × (c ≡ sticky))
          ⊎ ((is_sticky es sticky ≡ false) × LeastOf loads c es))
pick_lem [] loads sticky h = ground arith
pick_lem (e ∷ es) loads sticky h = pick_agent_lem e es loads sticky

pub chosen_lem :
    (e : String) (es : List String) (sticky exclude : Map String) (loads : Map ℕ)
    (b : ProviderBatch)
    → (c : String) × (chosen_for (e ∷ es) sticky exclude loads b ≡ some c)
      × Chosen (e ∷ es) sticky exclude loads b c
chosen_lem e es sticky exclude loads b =
    let (c, eq, mem, choice) =
      pick_lem (candidates_for (e ∷ es) (excluded_for exclude b)) loads (sticky_for sticky b)
        (candidates_for-nonempty e es (excluded_for exclude b)) in
    (
      c,
      eq,
      record {
        candidate = mem;
        stays = λ sticks. elim choice [
          | inl (_, is_c) ↦ is_c
          | inr (apart, _) ↦ absurd (cc (sticks, apart))
        ];
        least =
            λ free. elim choice [ inl (held, _) ↦ absurd (cc (held, free)) | inr (_, low) ↦ low ];
      },
    )
