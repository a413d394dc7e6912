-- ===== src/Shard/Order.antt =====
-- The sort of `assignProvidersToAgents`, by which the batches are placed.
use mathlib.Core.List.{Perm}
use mathlib.Core.List.Perm
use mytonprovider_backend.Prelude.{
  ◌≤◌, ◌≡◌, inl, inr, Bool, true, false, Option, List, [], ◌∷◌, arith, All, Bool-cases,
}
use mytonprovider_backend.Shard.{ProviderBatch, bags, batch_less, insert_stable, sort_stable}

module _ {ℓ} {A : Type ℓ} (less : A → A → Bool) where
  insert_stable-perm : (x : A) (ys : List A) → Perm (insert_stable less x ys) (x ∷ ys)
  unfolding insert_stable
  insert_stable-perm x [] = Perm.refl _
  insert_stable-perm x (y ∷ ys) = elim (Bool-cases (less y x)) [
    | inl after ↦ rw after (Perm.trans (Perm.cons y (insert_stable-perm x ys)) (Perm.swap x y ys))
    | inr before ↦ rw before (Perm.refl _)
  ]

  pub sort_stable-perm : (xs : List A) → Perm (sort_stable less xs) xs
  unfolding sort_stable
  sort_stable-perm [] = Perm.refl _
  sort_stable-perm (x ∷ xs) =
      Perm.trans (insert_stable-perm x (sort_stable less xs)) (Perm.cons x (sort_stable-perm xs))

-- No batch stands before one that has more bags.
abbrev pub MostBagsFirst : List (Option ProviderBatch) → Type 0
MostBagsFirst [] = Unit
MostBagsFirst (b ∷ bs) = All (λ c. bags c ≤ bags b) bs × MostBagsFirst bs

less_bags : (a b : Option ProviderBatch) → batch_less a b ≡ true → bags b ≤ bags a
unfolding batch_less
less_bags a b h = ground arith

not-less_bags : (a b : Option ProviderBatch) → batch_less a b ≡ false → bags a ≤ bags b
unfolding batch_less
not-less_bags a b h = ground arith

All-insert_stable :
    (P : Option ProviderBatch → Type 0) (x : Option ProviderBatch)
    (ys : List (Option ProviderBatch))
    → P x
    → All P ys
    → All P (insert_stable batch_less x ys)
unfolding insert_stable
All-insert_stable P x [] p all = (p, tt)
All-insert_stable P x (y ∷ ys) p all = elim (Bool-cases (batch_less y x)) [
  | inl after ↦ rw after (all.0, All-insert_stable P x ys p all.1)
  | inr before ↦ rw before (p, all)
]

pub All-sort_stable :
    (P : Option ProviderBatch → Type 0) (ps : List (Option ProviderBatch))
    → All P ps
    → All P (sort_stable batch_less ps)
unfolding sort_stable
All-sort_stable P [] all = tt
All-sort_stable P (p ∷ ps) all =
    All-insert_stable P p (sort_stable batch_less ps) all.0 (All-sort_stable P ps all.1)

All-le :
    (x y : Option ProviderBatch) (ys : List (Option ProviderBatch))
    → bags y ≤ bags x
    → All (λ c. bags c ≤ bags y) ys
    → All (λ c. bags c ≤ bags x) ys
All-le x y [] h all = tt
All-le x y (z ∷ ys) h all = (omega (arith, all.0), All-le x y ys h all.1)

MostBagsFirst-insert_stable :
    (x : Option ProviderBatch) (ys : List (Option ProviderBatch))
    → MostBagsFirst ys
    → MostBagsFirst (insert_stable batch_less x ys)
unfolding insert_stable
MostBagsFirst-insert_stable x [] s = (tt, tt)
MostBagsFirst-insert_stable x (y ∷ ys) s = elim (Bool-cases (batch_less y x)) [
  | inl after ↦ rw after (
    All-insert_stable (λ c. bags c ≤ bags y) x ys (less_bags y x after) s.0,
    MostBagsFirst-insert_stable x ys s.1,
  )
  | inr before ↦ rw before (let le = not-less_bags y x before in ((le, All-le x y ys le s.0), s))
]

sort_stable-MostBagsFirst :
    (ps : List (Option ProviderBatch)) → MostBagsFirst (sort_stable batch_less ps)
unfolding sort_stable
sort_stable-MostBagsFirst [] = tt
sort_stable-MostBagsFirst (p ∷ ps) =
    MostBagsFirst-insert_stable p (sort_stable batch_less ps) (sort_stable-MostBagsFirst ps)

-- The sorted batches are a permutation of the given ones, and none stands before one that has more
-- bags.
pub sort_stable_lem :
    (providers : List (Option ProviderBatch))
    → Perm (sort_stable batch_less providers) providers
      × MostBagsFirst (sort_stable batch_less providers)
sort_stable_lem providers =
    (sort_stable-perm batch_less providers, sort_stable-MostBagsFirst providers)
