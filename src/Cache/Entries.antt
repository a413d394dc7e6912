-- ===== src/Cache/Entries.antt =====
-- The entries of `SimpleCache` (coordinator/internal/cache/simple.go) that are not expired, and the
-- loops of `cleanup` and `GetAll` over them.
use mytonprovider_backend.Prelude.{
  ℕ, ◌≤◌, ◌≡◌, refl, ◌∙◌, ap, inl, inr, arith, String, true, false, Bool-cases, subst, Option, none,
  some, [], ◌∷◌, Map, lookup, delete, lookup-delete, IsDistinct, str_eq, eq_iff, ltb, if◌then◌else◌,
}
use mytonprovider_backend.Cache.{Item, is_expired, unexpired, get_all, clean}

module _ {ℓ} {V : Type ℓ} where
  -- What `GetAll` gives of an entry.
  abbrev pub still_valid : ℕ → Option (Item V) → Option V
  still_valid now none = none
  still_valid now (some it) = if ltb now it.expiry_time then some it.value else none

  -- The entry, as long as it is not expired.
  abbrev pub fresh : ℕ → Option (Item V) → Option (Item V)
  fresh now none = none
  fresh now (some it) = if is_expired now it then none else some it

  pub fresh_later :
      (t now : ℕ) (o : Option (Item V)) → t ≤ now → fresh now (fresh t o) ≡ fresh now o
  fresh_later t now none le = refl
  fresh_later t now (some it) le = elim (Bool-cases (ltb it.expiry_time t)) [
    | inl old ↦
        let older : ltb it.expiry_time now ≡ true = ground (arith, old, le) in rw (old, older) refl
    | inr young ↦ rw young refl
  ]

  pub fresh-unexpired :
      (now : ℕ) (o : Option (Item V)) → unexpired now (fresh now o) ≡ unexpired now o
  fresh-unexpired now none = refl
  fresh-unexpired now (some it) = elim (Bool-cases (ltb it.expiry_time now)) [
    | inl old ↦ rw old refl
    | inr young ↦ rw (young, young) refl
  ]

  pub fresh-still_valid :
      (now : ℕ) (o : Option (Item V)) → still_valid now (fresh now o) ≡ still_valid now o
  fresh-still_valid now none = refl
  fresh-still_valid now (some it) = elim (Bool-cases (ltb it.expiry_time now)) [
    | inl old ↦
        let late : ltb now it.expiry_time ≡ false = ground (arith, old) in rw (old, late) refl
    | inr young ↦ rw young refl
  ]

  delete-none : (m : Map (Item V)) (k j : String) → lookup m j ≡ none → lookup (delete m k) j ≡ none
  delete-none m k j gone = elim (Bool-cases (str_eq k j)) [
    | inl same ↦ rw (lookup-delete, same) refl
    | inr other ↦ rw (lookup-delete, other) gone
  ]

  pub delete-IsDistinct : (m : Map (Item V)) (k : String) → IsDistinct m → IsDistinct (delete m k)
  unfolding delete
  delete-IsDistinct [] k d = tt
  delete-IsDistinct ((j, it) ∷ m) k d = elim (Bool-cases (str_eq j k)) [
    | inl same ↦ rw same (delete-IsDistinct m k d.1)
    | inr other ↦ rw other (delete-none m k j d.0, delete-IsDistinct m k d.1)
  ]

  -- The entry of a key in a cache where no key stands twice, after its first entry is looked at.
  lookup-skip :
      (m : Map (Item V)) (j k : String) (it : Item V)
      → str_eq j k ≡ false
      → lookup ((j, it) ∷ m) k ≡ lookup m k
  unfolding lookup
  lookup-skip m j k it other = rw other refl

  pub clean-fresh :
      (now : ℕ) (m : Map (Item V)) (k : String)
      → IsDistinct m
      → lookup (clean now m) k ≡ fresh now (lookup m k)
  unfolding lookup clean
  clean-fresh now [] k d = refl
  clean-fresh now ((j, it) ∷ m) k d = elim (Bool-cases (str_eq j k)) [
    | inl same ↦
        let here : lookup m k ≡ none = subst (λ i. lookup m i ≡ none) ((eq_iff j k).0 same) d.0 in
        elim (Bool-cases (ltb it.expiry_time now)) [
          | inl old ↦ rw (same, old) (clean-fresh now m k d.1 ∙ ap (fresh now) here)
          | inr young ↦ rw (same, young) (rw same refl)
        ]
    | inr other ↦ elim (Bool-cases (ltb it.expiry_time now)) [
      | inl old ↦ rw (other, old) (clean-fresh now m k d.1)
      | inr young ↦ rw (other, young) (rw other (clean-fresh now m k d.1))
    ]
  ]

  pub clean-IsDistinct : (now : ℕ) (m : Map (Item V)) → IsDistinct m → IsDistinct (clean now m)
  unfolding clean
  clean-IsDistinct now [] d = tt
  clean-IsDistinct now ((j, it) ∷ m) d = elim (Bool-cases (ltb it.expiry_time now)) [
    | inl old ↦ rw old (clean-IsDistinct now m d.1)
    | inr young ↦
        rw young (clean-fresh now m j d.1 ∙ ap (fresh now) d.0, clean-IsDistinct now m d.1)
  ]

  pub get_all-still_valid :
      (now : ℕ) (m : Map (Item V)) (k : String)
      → IsDistinct m
      → lookup (get_all now m) k ≡ still_valid now (lookup m k)
  unfolding lookup get_all
  get_all-still_valid now [] k d = refl
  get_all-still_valid now ((j, it) ∷ m) k d = elim (Bool-cases (str_eq j k)) [
    | inl same ↦
        let here : lookup m k ≡ none = subst (λ i. lookup m i ≡ none) ((eq_iff j k).0 same) d.0 in
        elim (Bool-cases (ltb now it.expiry_time)) [
          | inr old ↦ rw (same, old) (get_all-still_valid now m k d.1 ∙ ap (still_valid now) here)
          | inl young ↦ rw (same, young) (rw same refl)
        ]
    | inr other ↦ elim (Bool-cases (ltb now it.expiry_time)) [
      | inr old ↦ rw (other, old) (get_all-still_valid now m k d.1)
      | inl young ↦ rw (other, young) (rw other (get_all-still_valid now m k d.1))
    ]
  ]
