-- ===== src/Workers/Known/Rates.antt =====
-- `mergeStorageRatesResponses` and `UpdateKnownProviders`: which rates are written for a provider.
use mytonprovider_backend.Prelude.{
  lookup-Entries, Entries, is_some, subst, ◌≡◌, sym, inl, inr, refl, ap, ◌∙◌, String, Bool, true,
  false, Option, none, some, List, [], ◌∷◌, Map, lookup, insert, str_eq, if◌then◌else◌, trim_space,
  arith, Bool-cases, lookup-insert, eq_iff,
}
use mytonprovider_backend.Agent.Server.Rates.{StorageRates, StorageRatesResult}
use mytonprovider_backend.Workers.Known.Online.{IsFair, note_rates-IsFair, note_rows-IsFair}
use mytonprovider_backend.Workers.Known.{
  RunStorageRatesResult, SelectedRates, get_ok, select, note_rates, note_rows, rows_of,
  note_responses,
}

-- The rates of a row for `pk`, without blanks around its key.
abbrev pub rates_for : String → Option StorageRatesResult → Option StorageRates
rates_for pk none = none
rates_for pk (some row) = if str_eq (trim_space row.provider_pubkey) pk then row.rates else none

abbrev pub first_of {ℓ} : {A : Type ℓ} → Option A → Option A → Option A
first_of none later = later
first_of (some a) later = some a

abbrev pub first_in_rows : String → List (Option StorageRatesResult) → Option StorageRates
first_in_rows pk [] = none
first_in_rows pk (row ∷ rows) = first_of (rates_for pk row) (first_in_rows pk rows)

-- The first rates for `pk` in the answers, in their order.
abbrev pub first_rates : String → List RunStorageRatesResult → Option StorageRates
first_rates pk [] = none
first_rates pk (r ∷ rs) = first_of (first_in_rows pk (rows_of r)) (first_rates pk rs)

-- The rates for a key that is not empty.
abbrev pub known_rates : List RunStorageRatesResult → String → Option StorageRates
known_rates rs pk = if str_eq pk "" then none else first_rates pk rs

-- The rates of what is selected.
abbrev pub rates_in : Option SelectedRates → Option StorageRates
rates_in none = none
rates_in (some s) = s.row.rates

first_of_assoc {ℓ} :
    {A : Type ℓ} (a b c : Option A) → first_of (first_of a b) c ≡ first_of a (first_of b c)
first_of_assoc none b c = refl
first_of_assoc (some a) b c = refl

first_of-none {ℓ} : {A : Type ℓ} (a : Option A) → first_of a none ≡ a
first_of-none none = refl
first_of-none (some a) = refl

same_empty {ℓ} : {A : Type ℓ} (a b : Option A) → is_some a ≡ false → is_some b ≡ false → a ≡ b
same_empty none none p q = refl
same_empty (some a) b p q = absurd (cc p)
same_empty none (some b) p q = absurd (cc q)

chosen {ℓ} :
    {A : Type ℓ} (b : Bool) (old new : Option A)
    → (if b then first_of old new else old) ≡ first_of old (if b then new else none)
chosen true old new = refl
chosen false old new = sym (first_of-none old)

first_of-some {ℓ} : {A : Type ℓ} (a b : Option A) → is_some a ≡ true → first_of a b ≡ a
first_of-some none b h = absurd (cc h)
first_of-some (some a) b h = refl

first_of-empty {ℓ} : {A : Type ℓ} (a b : Option A) → is_some a ≡ false → first_of a b ≡ b
first_of-empty none b h = refl
first_of-empty (some a) b h = absurd (cc h)

-- What is selected for `pk` after a row for `key`.
abbrev after_row : Map SelectedRates → String → String → StorageRatesResult → Option StorageRates
after_row m key pk row =
    if str_eq key pk then first_of (rates_in (lookup m pk)) row.rates else rates_in (lookup m pk)

insert-rates :
    (m : Map SelectedRates) (key pk : String) (row : StorageRatesResult) (s : SelectedRates)
    → s.row.rates ≡ row.rates
    → is_some (rates_in (lookup m key)) ≡ false
    → rates_in (lookup (insert m key s) pk) ≡ after_row m key pk row
insert-rates m key pk row s same nothing = elim (Bool-cases (str_eq key pk)) [
  | inl here ↦
      rw (lookup-insert, here)
        (same
          ∙ sym (
              first_of-empty _ row.rates (
                subst (λ k. is_some (rates_in (lookup m k)) ≡ false) ((eq_iff key pk).0 here)
                  nothing)))
  | inr there ↦ rw (lookup-insert, there) refl
]

keep-rates :
    (m : Map SelectedRates) (key pk : String) (row : StorageRatesResult)
    → first_of (rates_in (lookup m key)) row.rates ≡ rates_in (lookup m key)
    → rates_in (lookup m pk) ≡ after_row m key pk row
keep-rates m key pk row kept = elim (Bool-cases (str_eq key pk)) [
  | inl here ↦ rw here (
      sym (
        subst (λ k. first_of (rates_in (lookup m k)) row.rates ≡ rates_in (lookup m k))
          ((eq_iff key pk).0 here) kept))
  | inr there ↦ rw there refl
]

select-rates :
    (m : Map SelectedRates) (key pk : String) (row : StorageRatesResult) (o : Option SelectedRates)
    → Entries IsFair m
    → lookup m key ≡ o
    → rates_in (lookup (select m key row o) pk) ≡ after_row m key pk row
unfolding select
select-rates m key pk row none fair h = insert-rates m key pk row _ refl (rw h refl)
select-rates m key pk row (some current) fair h =
    let honest : current.valid ≡ get_ok current.row = lookup-Entries IsFair m key current fair h in
    elim (Bool-cases current.valid) [
      | inl valid ↦
          rw valid (keep-rates m key pk row (rw h (first_of-some _ row.rates (sym honest ∙ valid))))
      | inr empty ↦
          let nothing : is_some current.row.rates ≡ false = sym honest ∙ empty in
          elim (Bool-cases (get_ok row)) [
            | inl ok ↦ rw (empty, ok) (insert-rates m key pk row _ refl (rw h nothing))
            | inr bad ↦
                rw (empty, bad)
                  (keep-rates m key pk row
                    (rw h (first_of-empty _ row.rates nothing ∙ same_empty _ _ bad nothing)))
          ]
    ]

note_rates-rates :
    (m : Map SelectedRates) (row : Option StorageRatesResult) (pk : String)
    → Entries IsFair m
    → str_eq pk "" ≡ false
    → rates_in (lookup (note_rates m row) pk) ≡ first_of (rates_in (lookup m pk)) (rates_for pk row)
unfolding note_rates
note_rates-rates m none pk fair named = sym (first_of-none _)
note_rates-rates m (some row) pk fair named =
    let key = trim_space row.provider_pubkey in
    elim (Bool-cases (str_eq key "")) [
      | inl blank ↦
          let other : str_eq key pk ≡ false =
            ground (arith, eq_iff key "", eq_iff key pk, eq_iff pk "", blank, named) in
          rw (blank, other) (sym (first_of-none _))
      | inr there ↦ rw there (
          select-rates m key pk row (lookup m key) fair refl
          ∙ chosen (str_eq key pk) (rates_in (lookup m pk)) row.rates)
    ]

note_rows-rates :
    (m : Map SelectedRates) (rows : List (Option StorageRatesResult)) (pk : String)
    → Entries IsFair m
    → str_eq pk "" ≡ false
    → rates_in (lookup (note_rows m rows) pk)
      ≡ first_of (rates_in (lookup m pk)) (first_in_rows pk rows)
unfolding note_rows
note_rows-rates m [] pk fair named = sym (first_of-none _)
note_rows-rates m (row ∷ rows) pk fair named =
    note_rows-rates (note_rates m row) rows pk (note_rates-IsFair m row fair) named
    ∙ ap (λ o. first_of o (first_in_rows pk rows)) (note_rates-rates m row pk fair named)
    ∙ first_of_assoc (rates_in (lookup m pk)) (rates_for pk row) (first_in_rows pk rows)

pub note_responses-rates :
    (m : Map SelectedRates) (rs : List RunStorageRatesResult) (pk : String)
    → Entries IsFair m
    → str_eq pk "" ≡ false
    → rates_in (lookup (note_responses m rs) pk)
      ≡ first_of (rates_in (lookup m pk)) (first_rates pk rs)
unfolding note_responses
note_responses-rates m [] pk fair named = sym (first_of-none _)
note_responses-rates m (r ∷ rs) pk fair named =
    note_responses-rates (note_rows m (rows_of r)) rs pk (note_rows-IsFair m (rows_of r) fair) named
    ∙ ap (λ o. first_of o (first_rates pk rs)) (note_rows-rates m (rows_of r) pk fair named)
    ∙ first_of_assoc (rates_in (lookup m pk)) (first_in_rows pk (rows_of r)) (first_rates pk rs)
