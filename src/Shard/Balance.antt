-- ===== src/Shard/Balance.antt =====
-- `assignProvidersToAgents` without sticky and excluded endpoints: the loads of the agents.
use mytonprovider_backend.Prelude.{
  ℕ, ◌+◌, ◌≤◌, ◌≡◌, refl, subst, inl, inr, String, true, Option, none, some, List, [], ◌∷◌, ◌++◌,
  Map, lookup, insert, or_else, str_eq, arith, lookup-insert, eq_iff, length, Bool-cases, All,
  if◌then◌else◌,
}
use mytonprovider_backend.Shard.{
  ProviderBatch, ProviderAssignment, Loop, place, start, set_all, batch_less, sort_stable,
  has_endpoint, candidates_for, bags, assign_providers_to_agents,
}
use mytonprovider_backend.Shard.Order.{All-sort_stable}
use mytonprovider_backend.Shard.Cover.{present, assign_loop_rule, assign-eq-some}
use mytonprovider_backend.Shard.Cover.Choice.{Chosen}
use mytonprovider_backend.Shard.Pick.{load, LeastOf}

-- The bags of the batches in a list.
abbrev pub total_bags : List ProviderBatch → ℕ
total_bags [] = 0
total_bags (b ∷ bs) = length b.contracts + total_bags bs

total_bags-append :
    (bs : List ProviderBatch) (b : ProviderBatch)
    → total_bags (bs ++ b ∷ []) ≡ total_bags bs + length b.contracts
total_bags-append [] b = omega arith
total_bags-append (c ∷ bs) b = omega (arith, total_bags-append bs b)

-- The bags that an endpoint is given.
abbrev pub bags_at : Map (List ProviderBatch) → String → ℕ
bags_at m ep = total_bags (or_else [] (lookup m ep))

LeastOf-mem :
    (loads : Map ℕ) (c e : String) (es : List String)
    → LeastOf loads c es
    → has_endpoint es e ≡ true
    → load loads c ≤ load loads e
unfolding has_endpoint
LeastOf-mem loads c e [] least m = ground arith
LeastOf-mem loads c e (f ∷ es) least m = elim (Bool-cases (str_eq f e)) [
  | inl same ↦ subst (λ x. load loads c ≤ load loads x) ((eq_iff f e).0 same) least.0
  | inr other ↦ LeastOf-mem loads c e es least.1 (rw other at m)
]

candidates_for-all : (es : List String) → candidates_for es "" ≡ es
unfolding candidates_for
candidates_for-all es = refl

load-set_all :
    (m : Map ℕ) (es : List String) (ep : String) → load m ep ≡ 0 → load (set_all m es 0) ep ≡ 0
unfolding set_all
load-set_all m [] ep h = h
load-set_all m (e ∷ es) ep h =
    load-set_all (insert m e 0) es ep (ground (arith, lookup-insert m e ep 0))

bags_at-set_all :
    (m : Map (List ProviderBatch)) (es : List String) (ep : String)
    → bags_at m ep ≡ 0
    → bags_at (set_all m es []) ep ≡ 0
unfolding set_all
bags_at-set_all m [] ep h = h
bags_at-set_all m (e ∷ es) ep h =
    bags_at-set_all (insert m e []) es ep (ground (arith, lookup-insert m e ep []))

All-present :
    (most : ℕ) (ps : List (Option ProviderBatch))
    → All (λ p. bags p ≤ most) ps
    → All (λ b. length b.contracts ≤ most) (present ps)
All-present most [] all = tt
All-present most (none ∷ ps) all = All-present most ps all.1
All-present most (some b ∷ ps) all = (all.0, All-present most ps all.1)

module _ (es : List String) (most : ℕ) where
  -- The counters agree with the lists, what is to come is within the bound, and no two endpoints
  -- differ by more than the bound.
  pub record Balanced (s : Loop) (rest : List ProviderBatch) : Type 0 where
    pub counted : (ep : String) → load s.loads ep ≡ bags_at s.by_endpoint ep
    pub bounded : All (λ b. length b.contracts ≤ most) rest
    pub close :
        (x y : String)
        → has_endpoint es x ≡ true
        → has_endpoint es y ≡ true
        → load s.loads x ≤ load s.loads y + most

  least-Chosen :
      (s : Loop) (b : ProviderBatch) (c y : String)
      → Chosen es [] [] s.loads b c
      → has_endpoint es y ≡ true
      → load s.loads c ≤ load s.loads y
  unfolding lookup
  least-Chosen s b c y ch m =
      LeastOf-mem s.loads c y es (rw candidates_for-all at (ch.least refl)) m

  load-place :
      (s : Loop) (b : ProviderBatch) (c ep : String)
      → load (place s b c).loads ep
        ≡ (if str_eq c ep then load s.loads c + length b.contracts else load s.loads ep)
  unfolding place
  load-place s b c ep =
      ground (arith, lookup-insert s.loads c ep (load s.loads c + length b.contracts))

  bags_at-place :
      (s : Loop) (b : ProviderBatch) (c ep : String)
      → bags_at (place s b c).by_endpoint ep ≡ (
          if str_eq c ep
          then bags_at s.by_endpoint c + length b.contracts
          else bags_at s.by_endpoint ep)
  unfolding place
  bags_at-place s b c ep =
      let grown = or_else [] (lookup s.by_endpoint c) in
      ground (arith, lookup-insert s.by_endpoint c ep (grown ++ b ∷ []), total_bags-append grown b)

  place-Balanced :
      (s : Loop) (b : ProviderBatch) (rest : List ProviderBatch) (c : String)
      → Chosen es [] [] s.loads b c
      → Balanced s (b ∷ rest)
      → Balanced (place s b c) rest
  place-Balanced s b rest c ch bal = record {
    counted = λ ep.
        ground (arith, load-place s b c ep, bags_at-place s b c ep, bal.counted c, bal.counted ep);
    bounded = bal.bounded.1;
    close = λ x y mx my. ground (
      arith,
      load-place s b c x,
      load-place s b c y,
      least-Chosen s b c y ch my,
      bal.close x y mx my,
      bal.close c y,
      bal.bounded.0,
      eq_iff c x,
      eq_iff c y,
    );
  }

  start-Balanced :
      (rest : List ProviderBatch)
      → All (λ b. length b.contracts ≤ most) rest
      → Balanced (start es) rest
  unfolding start lookup
  start-Balanced rest all = record {
    counted = λ ep. rw (load-set_all [] es ep refl, bags_at-set_all [] es ep refl) refl;
    bounded = all;
    close = λ x y _ _. rw (load-set_all [] es x refl) (omega arith);
  }

-- If no endpoint is sticky or excluded, and no batch has more than `most` bags, then the bags that
-- any two endpoints are given differ by at most `most`.
pub assign-balanced :
    (p : Option ProviderBatch) (ps : List (Option ProviderBatch)) (e : String) (es : List String)
    (most : ℕ) (x y : String)
    → All (λ o. bags o ≤ most) (p ∷ ps)
    → has_endpoint (e ∷ es) x ≡ true
    → has_endpoint (e ∷ es) y ≡ true
    → (out : ProviderAssignment) × (assign_providers_to_agents (p ∷ ps) (e ∷ es) [] [] ≡ some out)
      × (bags_at out.by_endpoint x ≤ bags_at out.by_endpoint y + most)
assign-balanced p ps e es most x y all mx my =
    let sorted = sort_stable batch_less (p ∷ ps) in
    let few = All-present most sorted (All-sort_stable (λ o. bags o ≤ most) (p ∷ ps) all) in
    let (s, eq, bal) =
      assign_loop_rule e es [] [] (Balanced (e ∷ es) most) (place-Balanced (e ∷ es) most)
        (start (e ∷ es)) sorted (start-Balanced (e ∷ es) most (present sorted) few) in
    (
      record { by_endpoint = s.by_endpoint; by_provider = s.by_provider },
      assign-eq-some p ps e es [] [] eq,
      omega (arith, bal.close x y mx my, bal.counted x, bal.counted y),
    )
