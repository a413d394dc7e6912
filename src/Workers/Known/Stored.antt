-- ===== src/Workers/Known/Stored.antt =====
-- `UpdateKnownProviders`: what is written of the rates of a provider.
use native.Mathlib.Omega.{pow_step}
use mytonprovider_backend.Prelude.{
  suc, ◌≡◌, inl, inr, refl, ap, ◌∙◌, ℕ, ◌+◌, ◌-◌, ◌*◌, ◌%◌, ◌^◌, ◌<◌, ℤ, pos, negsuc, String, List,
  [], ◌∷◌, length, ltb, if◌then◌else◌, arith, Bool-cases,
}
use mytonprovider_backend.Agent.Server.Rates.{StorageRates}
use mytonprovider_backend.Workers.Known.{ProviderUpdate, be_value, int64_of_bytes, update_of}

-- The number that bytes spell, the most significant byte first.
abbrev pub bytes_value : List ℕ → ℕ
bytes_value [] = 0
bytes_value (b ∷ bs) = b * 256 ^ length bs + bytes_value bs

-- The number of type `int64` with the same low 64 bits.
abbrev pub IsInt64 : ℕ → ℤ → Type 0
IsInt64 n (pos m) = (m < 2 ^ 63) × (m ≡ n % 2 ^ 64)
IsInt64 n (negsuc m) = (m < 2 ^ 63) × (m + 1 + n % 2 ^ 64 ≡ 2 ^ 64)

regroup : (a b p : ℕ) → (a * 256 + b) * p ≡ a * (256 * p) + b * p
regroup a b p = grind arith

be_value_lem : (acc : ℕ) (bs : List ℕ) → be_value acc bs ≡ acc * 256 ^ length bs + bytes_value bs
unfolding be_value
be_value_lem acc [] = omega arith
be_value_lem acc (b ∷ bs) =
    let shift : acc * 256 ^ suc (length bs) ≡ acc * (256 * 256 ^ length bs) =
      ap (λ p. acc * p) (pow_step 256 (length bs)) in
    omega (arith, be_value_lem (acc * 256 + b) bs, regroup acc b (256 ^ length bs), shift)

signed-IsInt64 :
    (n : ℕ)
    → IsInt64 n
        (if ltb (n % 2 ^ 64) (2 ^ 63) then pos (n % 2 ^ 64) else negsuc (2 ^ 64 - 1 - n % 2 ^ 64))
signed-IsInt64 n = elim (Bool-cases (ltb (n % 2 ^ 64) (2 ^ 63))) [
  | inl small ↦ rw small (ground (arith, small), refl)
  | inr large ↦ rw large (ground (arith, large), ground (arith, large))
]

int64_of_bytes-IsInt64 : (bs : List ℕ) → IsInt64 (bytes_value bs) (int64_of_bytes bs)
unfolding int64_of_bytes
int64_of_bytes-IsInt64 bs =
    let same : be_value 0 bs ≡ bytes_value bs = be_value_lem 0 bs ∙ omega arith in
    rw same (signed-IsInt64 (bytes_value bs))

-- The row holds the rates of the provider.
pub record Stores (pk : String) (rates : StorageRates) (u : ProviderUpdate) : Type 0 where
  pub of_provider : u.pubkey ≡ pk
  pub rate : IsInt64 (bytes_value rates.rate_per_mb_day) u.rate_per_mb_day
  pub bounty : IsInt64 (bytes_value rates.min_bounty) u.min_bounty
  pub shortest : u.min_span ≡ rates.min_span
  pub longest : u.max_span ≡ rates.max_span

pub update_of-Stores : (pk : String) (rates : StorageRates) → Stores pk rates (update_of pk rates)
unfolding update_of
update_of-Stores pk rates = record {
  of_provider = refl;
  rate = int64_of_bytes-IsInt64 rates.rate_per_mb_day;
  bounty = int64_of_bytes-IsInt64 rates.min_bounty;
  shortest = refl;
  longest = refl;
}
