-- ===== src/Workers/Known/Online.antt =====
-- `mergeStorageRatesResponses` and `UpdateKnownProviders`: which providers are online.
use mytonprovider_backend.Prelude.{
  ◌≡◌, ◌⊎◌, sym, inl, inr, refl, String, Bool, true, false, not, ◌&&◌, ◌||◌, Option, none, some,
  List, [], ◌∷◌, Map, lookup, insert, str_eq, if◌then◌else◌, trim_space, arith, Bool-cases,
  lookup-insert, Entries, insert-Entries, eq_iff,
}
use mytonprovider_backend.Agent.Server.Rates.{StorageRatesResult}
use mytonprovider_backend.Workers.Known.{
  RunStorageRatesResult, SelectedRates, get_ok, select, note_rates, note_rows, rows_of,
  note_responses,
}

-- A row that is ok and whose public key, without blanks around it, is `pk`.
abbrev pub is_ok_for : String → Option StorageRatesResult → Bool
is_ok_for pk none = false
is_ok_for pk (some row) = get_ok row && str_eq (trim_space row.provider_pubkey) pk

abbrev pub any_ok_row : String → List (Option StorageRatesResult) → Bool
any_ok_row pk [] = false
any_ok_row pk (row ∷ rows) = is_ok_for pk row || any_ok_row pk rows

-- Some agent's answer has such a row.
abbrev pub any_ok : String → List RunStorageRatesResult → Bool
any_ok pk [] = false
any_ok pk (r ∷ rs) = any_ok_row pk (rows_of r) || any_ok pk rs

abbrev pub is_valid : Option SelectedRates → Bool
is_valid none = false
is_valid (some s) = s.valid

-- What is selected is valid exactly if its row is ok.
abbrev pub IsFair : String → SelectedRates → Type 0
IsFair k s = s.valid ≡ get_ok s.row

select-IsFair :
    (m : Map SelectedRates) (key : String) (row : StorageRatesResult) (o : Option SelectedRates)
    → Entries IsFair m
    → Entries IsFair (select m key row o)
unfolding select
select-IsFair m key row none fair = insert-Entries IsFair m key _ refl fair
select-IsFair m key row (some current) fair = kept current.valid (Bool-cases (get_ok row))
  where
    kept :
        (v : Bool)
        → (get_ok row ≡ true) ⊎ (get_ok row ≡ false)
        → Entries IsFair (
            if v
            then m
            else if get_ok row
            then insert m key (record { row = row; valid = true })
            else m)
    kept true ok = fair
    kept false (inl ok) = rw ok (insert-Entries IsFair m key _ (sym ok) fair)
    kept false (inr bad) = rw bad fair

pub note_rates-IsFair :
    (m : Map SelectedRates) (row : Option StorageRatesResult)
    → Entries IsFair m
    → Entries IsFair (note_rates m row)
unfolding note_rates
note_rates-IsFair m none fair = fair
note_rates-IsFair m (some row) fair =
    elim (Bool-cases (str_eq (trim_space row.provider_pubkey) "")) [
      | inl blank ↦ rw blank fair
      | inr named ↦ rw named (
          select-IsFair m (trim_space row.provider_pubkey) row
            (lookup m (trim_space row.provider_pubkey)) fair)
    ]

select-valid :
    (m : Map SelectedRates) (key pk : String) (row : StorageRatesResult) (o : Option SelectedRates)
    → lookup m key ≡ o
    → is_valid (lookup (select m key row o) pk)
      ≡ (is_valid (lookup m pk) || (get_ok row && str_eq key pk))
unfolding select
select-valid m key pk row none h =
    let fresh : SelectedRates = record { row = row; valid = get_ok row } in
    ground (arith, h, lookup-insert m key pk fresh, eq_iff key pk)
select-valid m key pk row (some current) h =
    let better : SelectedRates = record { row = row; valid = true } in
    ground (arith, h, lookup-insert m key pk better, eq_iff key pk)

note_rates-valid :
    (m : Map SelectedRates) (row : Option StorageRatesResult) (pk : String)
    → is_valid (lookup (note_rates m row) pk)
      ≡ (is_valid (lookup m pk) || (not (str_eq pk "") && is_ok_for pk row))
unfolding note_rates
note_rates-valid m none pk = ground arith
note_rates-valid m (some row) pk =
    let key = trim_space row.provider_pubkey in
    elim (Bool-cases (str_eq key "")) [
      | inl blank ↦ rw blank (ground (arith, eq_iff key "", eq_iff key pk, eq_iff pk "", blank))
      | inr there ↦ rw there (
          ground (
            arith,
            select-valid m key pk row (lookup m key) refl,
            eq_iff key "",
            eq_iff key pk,
            eq_iff pk "",
            there,
          ))
    ]

note_rows-valid :
    (m : Map SelectedRates) (rows : List (Option StorageRatesResult)) (pk : String)
    → is_valid (lookup (note_rows m rows) pk)
      ≡ (is_valid (lookup m pk) || (not (str_eq pk "") && any_ok_row pk rows))
unfolding note_rows
note_rows-valid m [] pk = ground arith
note_rows-valid m (row ∷ rows) pk =
    ground (arith, note_rows-valid (note_rates m row) rows pk, note_rates-valid m row pk)

-- A provider is online for the worker.
abbrev pub is_online_in : List RunStorageRatesResult → String → Bool
is_online_in rs pk = not (str_eq pk "") && any_ok pk rs

pub note_responses-valid :
    (m : Map SelectedRates) (rs : List RunStorageRatesResult) (pk : String)
    → is_valid (lookup (note_responses m rs) pk) ≡ (is_valid (lookup m pk) || is_online_in rs pk)
unfolding note_responses
note_responses-valid m [] pk = ground arith
note_responses-valid m (r ∷ rs) pk =
    ground (
      arith,
      note_responses-valid (note_rows m (rows_of r)) rs pk,
      note_rows-valid m (rows_of r) pk,
    )

pub note_rows-IsFair :
    (m : Map SelectedRates) (rows : List (Option StorageRatesResult))
    → Entries IsFair m
    → Entries IsFair (note_rows m rows)
unfolding note_rows
note_rows-IsFair m [] fair = fair
note_rows-IsFair m (row ∷ rows) fair =
    note_rows-IsFair (note_rates m row) rows (note_rates-IsFair m row fair)

pub note_responses-IsFair :
    (m : Map SelectedRates) (rs : List RunStorageRatesResult)
    → Entries IsFair m
    → Entries IsFair (note_responses m rs)
unfolding note_responses
note_responses-IsFair m [] fair = fair
note_responses-IsFair m (r ∷ rs) fair =
    note_responses-IsFair (note_rows m (rows_of r)) rs (note_rows-IsFair m (rows_of r) fair)
