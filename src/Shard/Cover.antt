-- ===== src/Shard/Cover.antt =====
-- `assignProvidersToAgents`: the batches that the endpoints are given, and the rule for its loop.
pub mod Candidates
pub mod Choice
use Candidates.{has_endpoint-candidates_for, candidates_for-excludes, HasOther}
use Choice.{Chosen, chosen_lem, excluded_for}
use mathlib.Core.List.{Perm, filter_map, append-nil, append_assoc, perm_middle}
use mathlib.Core.List.Perm
use mytonprovider_backend.Prelude.{
  ◌≡◌, ◌≢◌, inl, inr, refl, ap, String, Bool, true, false, Option, none, some, List, [], ◌∷◌, ◌++◌,
  Map, lookup, insert, or_else, str_eq, Bool-cases, arith, lookup-insert, eq_iff, subst, sym,
  is_empty,
}
use mytonprovider_backend.Shard.{
  ProviderBatch, ProviderAssignment, Loop, place, chosen_for, assign_one, assign_loop, start,
  set_all, batch_less, sort_stable, has_endpoint, assign_providers_to_agents,
}
use mytonprovider_backend.Shard.Order.{sort_stable-perm}

-- All that the map lists, endpoint after endpoint.
abbrev pub placed {ℓ} : {A : Type ℓ} → Map (List A) → List A
placed [] = []
placed ((k, l) ∷ m) = l ++ placed m

abbrev pub present {ℓ} : {A : Type ℓ} → List (Option A) → List A
present [] = []
present (none ∷ os) = present os
present (some a ∷ os) = a ∷ present os

present-eq-filter_map {ℓ} :
    {A : Type ℓ} (os : List (Option A)) → present os ≡ filter_map (λ o. o) os
unfolding filter_map
present-eq-filter_map [] = refl
present-eq-filter_map (none ∷ os) = present-eq-filter_map os
present-eq-filter_map (some a ∷ os) = ap (λ l. a ∷ l) (present-eq-filter_map os)

present-perm {ℓ} :
    {A : Type ℓ} (os qs : List (Option A)) → Perm os qs → Perm (present os) (present qs)
present-perm os qs p =
    rw (present-eq-filter_map os, present-eq-filter_map qs) (Perm.filter_map (λ o. o) p)

placed-insert {ℓ} :
    {A : Type ℓ} (m : Map (List A)) (k : String) (b : A)
    → Perm (placed (insert m k (or_else [] (lookup m k) ++ b ∷ []))) (b ∷ placed m)
unfolding insert lookup
placed-insert [] k b = Perm.refl _
placed-insert ((j, l) ∷ m) k b = elim (Bool-cases (str_eq j k)) [
  | inl same ↦ rw same (rw append_assoc (perm_middle l (placed m)))
  | inr other ↦
      rw other (Perm.trans (Perm.append_left l (placed-insert m k b)) (perm_middle l (placed m)))
]

placed-insert_nil {ℓ} :
    {A : Type ℓ} (m : Map (List A)) (k : String) → placed m ≡ [] → placed (insert m k []) ≡ []
unfolding insert
placed-insert_nil [] k h = refl
placed-insert_nil ((j, []) ∷ m) k h = elim (Bool-cases (str_eq j k)) [
  | inl same ↦ rw same h
  | inr other ↦ rw other (placed-insert_nil m k h)
]
placed-insert_nil ((j, x ∷ l) ∷ m) k h = cc

placed-set_all {ℓ} :
    {A : Type ℓ} (m : Map (List A)) (es : List String)
    → placed m ≡ []
    → placed (set_all m es []) ≡ []
unfolding set_all
placed-set_all m [] h = h
placed-set_all m (e ∷ es) h = placed-set_all (insert m e []) es (placed-insert_nil m e h)

assign_loop-some :
    (es : List String) (sticky exclude : Map String) (s : Loop) (b : ProviderBatch)
    (bs : List (Option ProviderBatch)) {c : String}
    → chosen_for es sticky exclude s.loads b ≡ some c
    → assign_loop es sticky exclude s (some b ∷ bs) ≡ assign_loop es sticky exclude (place s b c) bs
unfolding assign_loop assign_one
assign_loop-some es sticky exclude s b bs eq = ground arith

-- A rule for the loop: what each placement keeps holds at the end, and the loop does not panic.
module _ (e : String) (es : List String) (sticky exclude : Map String)
    (P : Loop → List ProviderBatch → Type 0)
    (keep : (s : Loop) (b : ProviderBatch) (rest : List ProviderBatch) (c : String)
      → Chosen (e ∷ es) sticky exclude s.loads b c
      → P s (b ∷ rest)
      → P (place s b c) rest) where
  pub assign_loop_rule :
      (s : Loop) (bs : List (Option ProviderBatch))
      → P s (present bs)
      → (s' : Loop) × (assign_loop (e ∷ es) sticky exclude s bs ≡ some s') × P s' []
  unfolding assign_loop assign_one
  assign_loop_rule s [] p = (s, refl, p)
  assign_loop_rule s (none ∷ bs) p = assign_loop_rule s bs p
  assign_loop_rule s (some b ∷ bs) p =
      let (c, eq, chosen) = chosen_lem e es sticky exclude s.loads b in
      rw (assign_loop-some (e ∷ es) sticky exclude s b bs eq)
        (assign_loop_rule (place s b c) bs (keep s b (present bs) c chosen p))

-- The batches that are placed, and those that are still to be placed, are the batches at hand.
Kept : List ProviderBatch → Loop → List ProviderBatch → Type 0
Kept all s rest = Perm (placed s.by_endpoint ++ rest) all

place-Kept :
    (all : List ProviderBatch) (s : Loop) (b : ProviderBatch) (rest : List ProviderBatch)
    (c : String)
    → Kept all s (b ∷ rest)
    → Kept all (place s b c) rest
unfolding Kept place
place-Kept all s b rest c p =
    Perm.trans (Perm.append_right rest (placed-insert s.by_endpoint c b))
      (Perm.trans (Perm.symm (perm_middle (placed s.by_endpoint) rest)) p)

start-Kept : (es : List String) (all : List ProviderBatch) → Kept all (start es) all
unfolding Kept start
start-Kept es all = rw (placed-set_all {A = ProviderBatch} [] es refl) (Perm.refl all)

Kept-nil : (all : List ProviderBatch) (s : Loop) → Kept all s [] → Perm (placed s.by_endpoint) all
unfolding Kept
Kept-nil all s k = rw append-nil at k

pub assign-eq-some :
    (p : Option ProviderBatch) (ps : List (Option ProviderBatch)) (e : String) (es : List String)
    (sticky exclude : Map String) {s : Loop}
    → assign_loop (e ∷ es) sticky exclude (start (e ∷ es)) (sort_stable batch_less (p ∷ ps))
      ≡ some s
    → assign_providers_to_agents (p ∷ ps) (e ∷ es) sticky exclude
      ≡ some (record { by_endpoint = s.by_endpoint; by_provider = s.by_provider })
unfolding assign_providers_to_agents
assign-eq-some p ps e es sticky exclude eq = rw eq

-- With at least one endpoint the sharding does not panic, and the batches that the endpoints are
-- given, endpoint after endpoint, are a permutation of the batches that are not nil.
pub assign-covers :
    (p : Option ProviderBatch) (ps : List (Option ProviderBatch)) (e : String) (es : List String)
    (sticky exclude : Map String)
    → (out : ProviderAssignment) × (assign_providers_to_agents (p ∷ ps) (e ∷ es) sticky exclude
        ≡ some out)
      × Perm (placed out.by_endpoint) (present (p ∷ ps))
assign-covers p ps e es sticky exclude =
    let sorted = sort_stable batch_less (p ∷ ps) in
    let (s, eq, kept) =
      assign_loop_rule e es sticky exclude (Kept (present sorted))
        (λ s b rest c _ k. place-Kept (present sorted) s b rest c k) (start (e ∷ es)) sorted
        (start-Kept (e ∷ es) (present sorted)) in
    (
      record { by_endpoint = s.by_endpoint; by_provider = s.by_provider },
      assign-eq-some p ps e es sticky exclude eq,
      Perm.trans (Kept-nil (present sorted) s kept)
          (present-perm sorted (p ∷ ps) (sort_stable-perm batch_less (p ∷ ps))),
    )

-- The sharding never panics.
pub assign-total :
    (ps : List (Option ProviderBatch)) (es : List String) (sticky exclude : Map String)
    → (out : ProviderAssignment) × (assign_providers_to_agents ps es sticky exclude ≡ some out)
unfolding assign_providers_to_agents
assign-total [] es sticky exclude = (record { by_endpoint = []; by_provider = [] }, refl)
assign-total (p ∷ ps) [] sticky exclude = (record { by_endpoint = []; by_provider = [] }, refl)
assign-total (p ∷ ps) (e ∷ es) sticky exclude =
    let (out, eq, covers) = assign-covers p ps e es sticky exclude in (out, eq)
