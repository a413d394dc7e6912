-- ===== src/Prelude/Maps.antt =====
-- A Go map with string keys, as an association list. The order of the list stands for the order of
-- iteration, which the language leaves open: a theorem over all lists is one over all orders.
use Prim.Native.String.{String}
use mathlib.Core.Path.{◌≡◌, refl, sym, subst, ap, ◌∙◌}
use mathlib.Core.Logic.{inl, inr}
use mathlib.Core.Bool.{true, false}
use mathlib.Core.Option.{Option, none, some}
use mathlib.Core.List.{List, [], ◌∷◌, ◌++◌}
use native.Mathlib.Omega.{arith}
use text.Mathlib.Text.{◌==◌ as str_eq}
use text.Mathlib.TextEquality.{eq_iff}
use mytonprovider_backend.Prelude.Tests.{if◌then◌else◌, Bool-cases}

abbrev pub Map {ℓ} : Type ℓ → Type ℓ
Map V = List (String × V)

module _ {ℓ} {V : Type ℓ} where
  -- v, ok := m[k]
  unfoldable pub lookup : Map V → String → Option V
  lookup [] k = none
  lookup ((j, v) ∷ m) k = if str_eq j k then some v else lookup m k

  -- m[k] = v
  unfoldable pub insert : Map V → String → V → Map V
  insert [] k v = (k, v) ∷ []
  insert ((j, w) ∷ m) k v = if str_eq j k then (j, v) ∷ m else (j, w) ∷ insert m k v

  -- delete(m, k)
  unfoldable pub delete : Map V → String → Map V
  delete [] k = []
  delete ((j, w) ∷ m) k = let rest = delete m k in if str_eq j k then rest else (j, w) ∷ rest

  pub lookup-insert :
      (m : Map V) (k j : String) (v : V)
      → lookup (insert m k v) j ≡ (if str_eq k j then some v else lookup m j)
  unfolding lookup insert
  lookup-insert [] k j v = refl
  lookup-insert ((i, w) ∷ m) k j v =
      ground (arith, eq_iff i k, eq_iff i j, eq_iff k j, lookup-insert m k j v)

  pub lookup-delete :
      (m : Map V) (k j : String) → lookup (delete m k) j ≡ (if str_eq k j then none else lookup m j)
  unfolding lookup delete
  lookup-delete [] k j = ground arith
  lookup-delete ((i, w) ∷ m) k j =
      ground (arith, eq_iff i k, eq_iff i j, eq_iff k j, lookup-delete m k j)

pub str_eq_refl : (s : String) → str_eq s s ≡ true
str_eq_refl s = (eq_iff s s).1 refl

pub str_ne_sym : (k j : String) → str_eq k j ≡ false → str_eq j k ≡ false
str_ne_sym k j n = ground (arith, eq_iff k j, eq_iff j k)

-- `map[string]struct{}`
abbrev pub KeySet : Type 0
KeySet = Map (Unit {0})

-- No key stands twice, as in a Go map.
abbrev pub IsDistinct {ℓ} : {V : Type ℓ} → Map V → Type ℓ
IsDistinct [] = Unit
IsDistinct ((k, v) ∷ m) = (lookup m k ≡ none) × IsDistinct m

module _ {ℓ} {V : Type ℓ} where
  pub lookup-insert_ne :
      (m : Map V) (k j : String) (v : V) → str_eq k j ≡ false → lookup (insert m k v) j ≡ lookup m j
  lookup-insert_ne m k j v n = rw (lookup-insert, n)

  pub insert-IsDistinct :
      (m : Map V) (k : String) (v : V) → IsDistinct m → IsDistinct (insert m k v)
  unfolding insert lookup
  insert-IsDistinct [] k v d = (refl, tt)
  insert-IsDistinct ((j, w) ∷ m) k v (fresh, d) = elim (Bool-cases (str_eq j k)) [
    | inl same ↦ rw same (fresh, d)
    | inr other ↦
        rw other
          (lookup-insert_ne m k j v (str_ne_sym j k other) ∙ fresh, insert-IsDistinct m k v d)
  ]

  -- A new key goes to the end.
  pub insert-fresh :
      (m : Map V) (k : String) (v : V) → lookup m k ≡ none → insert m k v ≡ m ++ (k, v) ∷ []
  unfolding insert lookup
  insert-fresh [] k v h = refl
  insert-fresh ((j, w) ∷ m) k v h = elim (Bool-cases (str_eq j k)) [
    | inl same ↦ ground arith
    | inr other ↦ rw other (ap (λ r. (j, w) ∷ r) (insert-fresh m k v (rw other at h)))
  ]

-- `P` holds of every entry of a map.
abbrev pub Entries {ℓ κ} : {V : Type ℓ} → (String → V → Type κ) → Map V → Type κ
Entries P [] = Unit
Entries P ((k, v) ∷ m) = P k v × Entries P m

module _ {ℓ κ} {V : Type ℓ} (P : String → V → Type κ) where
  pub insert-Entries :
      (m : Map V) (k : String) (v : V) → P k v → Entries P m → Entries P (insert m k v)
  unfolding insert
  insert-Entries [] k v p all = (p, tt)
  insert-Entries ((j, w) ∷ m) k v p (q, all) = elim (Bool-cases (str_eq j k)) [
    | inl same ↦ rw same (subst (λ i. P i v) (sym ((eq_iff j k).0 same)) p, all)
    | inr other ↦ rw other (q, insert-Entries m k v p all)
  ]

  pub lookup-Entries : (m : Map V) (k : String) (v : V) → Entries P m → lookup m k ≡ some v → P k v
  unfolding lookup
  lookup-Entries [] k v all h = cc
  lookup-Entries ((j, w) ∷ m) k v (q, all) h = elim (Bool-cases (str_eq j k)) [
    | inl same ↦
        let found : some w ≡ some v = (rw same at h) in
        let eq : w ≡ v = cc in subst (P k) eq (subst (λ i. P i w) ((eq_iff j k).0 same) q)
    | inr other ↦ lookup-Entries m k v all (rw other at h)
  ]
