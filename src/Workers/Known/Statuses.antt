-- ===== src/Workers/Known/Statuses.antt =====
-- `UpdateKnownProviders`: the statuses and the rates that it writes.
use mytonprovider_backend.Prelude.{
  ◌≡◌, sym, inl, inr, refl, ap, ap₂, ◌∙◌, String, Bool, true, false, not, ◌&&◌, ◌||◌, Option, none,
  some, List, [], ◌∷◌, Map, lookup, map, is_some, ◌==◌, str_eq, if◌then◌else◌, arith, Bool-cases,
  Option-cases, lookup-insert, All, lookup-Entries, eq_iff, str_eq_refl,
}
use mytonprovider_backend.Agent.Server.Rates.{StorageRates, StorageRatesResult}
use mytonprovider_backend.Workers.Known.Rates.{rates_in, known_rates, note_responses-rates}
use mytonprovider_backend.Workers.Known.Stored.{Stores, update_of-Stores}
use mytonprovider_backend.Workers.Known.{
  RunStorageRatesResult, SelectedRates, note_responses, put_selected, pick_asked,
  merge_storage_rates_responses, ProviderStatusUpdate, ProviderUpdate, ok_rates, status_loop, Env,
  Outcome, add_statuses, update_providers, save, save_merged, rates_request, update_known_providers,
}
use mytonprovider_backend.Workers.Known.Online.{
  is_valid, IsFair, is_online_in, note_responses-valid, note_responses-IsFair,
}

abbrev row_of : Option SelectedRates → Option StorageRatesResult → Option StorageRatesResult
row_of none o = o
row_of (some s) o = some s.row

abbrev is_asked : String → List String → Bool
is_asked pk [] = false
is_asked pk (j ∷ js) = str_eq j pk || is_asked pk js

row_of-twice :
    (o : Option SelectedRates) (out : Option StorageRatesResult)
    → row_of o (row_of o out) ≡ row_of o out
row_of-twice none out = refl
row_of-twice (some s) out = refl

put_selected-lookup :
    (out : Map StorageRatesResult) (j pk : String) (o : Option SelectedRates)
    → lookup (put_selected out j o) pk
      ≡ (if str_eq j pk then row_of o (lookup out j) else lookup out pk)
unfolding put_selected
put_selected-lookup out j pk none = ground (arith, eq_iff j pk)
put_selected-lookup out j pk (some s) = ground (arith, lookup-insert out j pk s.row)

pick_asked-lookup :
    (m : Map SelectedRates) (out : Map StorageRatesResult) (pks : List String) (pk : String)
    → lookup (pick_asked m out pks) pk
      ≡ (if is_asked pk pks then row_of (lookup m pk) (lookup out pk) else lookup out pk)
unfolding pick_asked
pick_asked-lookup m out [] pk = refl
pick_asked-lookup m out (j ∷ js) pk =
    let out' = put_selected out j (lookup m j) in
    ground (
      arith,
      pick_asked-lookup m out' js pk,
      put_selected-lookup out j pk (lookup m j),
      eq_iff j pk,
      row_of-twice (lookup m pk) (lookup out pk),
      ap (lookup m) {x = j} {y = pk},
    )

-- The rates that are merged for a public key that was asked for are there exactly if it is online.
merged-online :
    (rs : List RunStorageRatesResult) (pks : List String) (pk : String)
    → is_asked pk pks ≡ true
    → is_some (ok_rates (lookup (merge_storage_rates_responses pks rs) pk)) ≡ is_online_in rs pk
unfolding merge_storage_rates_responses lookup ok_rates
merged-online rs pks pk asked =
    let m = note_responses [] rs in
    rw (pick_asked-lookup m [] pks pk, asked)
      (from (lookup m pk) refl ∙ note_responses-valid [] rs pk)
  where
    from :
        (o : Option SelectedRates)
        → lookup (note_responses [] rs) pk ≡ o
        → is_some (ok_rates (row_of o none)) ≡ is_valid o
    from none h = refl
    from (some s) h =
        sym (lookup-Entries IsFair (note_responses [] rs) pk s (note_responses-IsFair [] rs tt) h)

ok_rates-row_of : (o : Option SelectedRates) → ok_rates (row_of o none) ≡ rates_in o
unfolding ok_rates
ok_rates-row_of none = refl
ok_rates-row_of (some s) = refl

not_some {ℓ} : {A : Type ℓ} (o : Option A) → is_some o ≡ false → o ≡ none
not_some none h = refl
not_some (some a) h = absurd (cc h)

-- The rates that are merged for a public key that was asked for are the first ones in the answers.
merged-rates :
    (rs : List RunStorageRatesResult) (pks : List String) (pk : String)
    → is_asked pk pks ≡ true
    → ok_rates (lookup (merge_storage_rates_responses pks rs) pk) ≡ known_rates rs pk
unfolding merge_storage_rates_responses lookup
merged-rates rs pks pk asked = elim (Bool-cases (str_eq pk "")) [
  | inl blank ↦
      let off : is_online_in rs pk ≡ false = rw blank refl in
      rw blank (not_some _ (merged-online rs pks pk asked ∙ off))
  | inr named ↦ rw named (
      rw (pick_asked-lookup (note_responses [] rs) [] pks pk, asked)
        (ok_rates-row_of (lookup (note_responses [] rs) pk)
          ∙ note_responses-rates [] rs pk tt named))
]

-- The status of a provider, from the answers of the agents alone.
abbrev pub status : String → Bool → ProviderStatusUpdate
status pk online = record { pubkey = pk; is_online = online }

abbrev pub status_from : List RunStorageRatesResult → String → ProviderStatusUpdate
status_from rs pk = status pk (is_online_in rs pk)

abbrev pub with_rates :
    String → Option StorageRates → List (String × StorageRates) → List (String × StorageRates)
with_rates pk none rest = rest
with_rates pk (some rates) rest = (pk, rates) ∷ rest

-- The keys that some agent has rates for, each with the first of these rates.
abbrev pub online_rates : List RunStorageRatesResult → List String → List (String × StorageRates)
online_rates rs [] = []
online_rates rs (pk ∷ pks) = with_rates pk (known_rates rs pk) (online_rates rs pks)

-- The rows hold the rates of these providers, one each and in this order.
abbrev pub AreStored : List (String × StorageRates) → List ProviderUpdate → Type 0
AreStored [] [] = Unit
AreStored [] (u ∷ us) = ⊥
AreStored (x ∷ xs) [] = ⊥
AreStored ((pk, rates) ∷ xs) (u ∷ us) = Stores pk rates u × AreStored xs us

-- Every key of the list was asked for.
abbrev AreAsked : List String → List String → Type 0
AreAsked all = All (λ pk. is_asked pk all ≡ true)

status_loop_lem :
    (rs : List RunStorageRatesResult) (all pks : List String)
    → AreAsked all pks
    → let out = status_loop (merge_storage_rates_responses all rs) pks in
      (out.0 ≡ map (status_from rs) pks) × AreStored (online_rates rs pks) out.1
unfolding status_loop
status_loop_lem rs all [] asked = (refl, tt)
status_loop_lem rs all (pk ∷ pks) (asked, others) =
    let merged = merge_storage_rates_responses all rs in
    let (statuses, infos) = status_loop_lem rs all pks others in
    let online = merged-online rs all pk asked in
    let first = merged-rates rs all pk asked in
    elim (Option-cases (ok_rates (lookup merged pk))) [
      | inl gone ↦
          let off : is_online_in rs pk ≡ false = sym online ∙ ap (λ o. is_some o) gone in
          let none_known : known_rates rs pk ≡ none = sym first ∙ gone in
          rw (gone, status_loop)
            (ap₂ (λ b us. status pk b ∷ us) (sym off) statuses, rw none_known infos)
      | inr (rates, found) ↦
          let on : is_online_in rs pk ≡ true = sym online ∙ ap (λ o. is_some o) found in
          let known : known_rates rs pk ≡ some rates = sym first ∙ found in
          rw (found, status_loop)
            (
              ap₂ (λ b us. status pk b ∷ us) (sym on) statuses,
              rw known (update_of-Stores pk rates, infos),
            )
    ]

AreAsked-cons : (j : String) (all pks : List String) → AreAsked all pks → AreAsked (j ∷ all) pks
AreAsked-cons j all [] asked = tt
AreAsked-cons j all (pk ∷ pks) (asked, others) =
    (ground (arith, asked), AreAsked-cons j all pks others)

all_asked : (pks : List String) → AreAsked pks pks
all_asked [] = tt
all_asked (pk ∷ pks) = (ground (arith, str_eq_refl pk), AreAsked-cons pk pks pks (all_asked pks))

-- Both writes are tried, the second one if the first succeeds.
abbrev pub outcome_of : Env → List ProviderStatusUpdate → List ProviderUpdate → Outcome
outcome_of env statuses infos =
    let saved = env.add_statuses_ok && env.update_providers_ok in
    record {
      interval = if saved then 60 else 5;
      failed = not saved;
      writes =
          add_statuses statuses ∷ (if env.add_statuses_ok then update_providers infos ∷ [] else []);
    }

save-outcome_of :
    (env : Env) (statuses : List ProviderStatusUpdate) (infos : List ProviderUpdate)
    → save env (statuses, infos) ≡ outcome_of env statuses infos
unfolding save
save-outcome_of env statuses infos = elim (Bool-cases env.add_statuses_ok) [
  | inr lost ↦ rw lost refl
  | inl kept ↦ elim (Bool-cases env.update_providers_ok) [
    | inr lost ↦ rw (kept, lost) refl
    | inl fine ↦ rw (kept, fine) refl
  ]
]

runs_to_save :
    (env : Env) (pk : String) (pks : List String) (r : RunStorageRatesResult)
    (rs : List RunStorageRatesResult)
    → env.all_pubkeys ≡ some (pk ∷ pks)
    → (env.agent_count == 0) ≡ false
    → env.run_storage_rates_all (rates_request env (pk ∷ pks)) ≡ r ∷ rs
    → update_known_providers env
      ≡ save env (status_loop (merge_storage_rates_responses (pk ∷ pks) (r ∷ rs)) (pk ∷ pks))
unfolding update_known_providers save_merged rates_request save
runs_to_save env pk pks r rs listed agents answered = rw (listed, agents, answered) refl

-- If the database lists providers, there is an agent, and at least one agent answers, then the
-- worker writes one status for each provider, in the order of the database, and, if that succeeds,
-- one row of rates for each provider that is online and for no others, in the same order. A
-- provider is online exactly if its key is not empty and some agent answered with rates in a row
-- for it; the row holds the first such rates in the order of the answers, the prices as the `int64`
-- with the low 64 bits of the number that the bytes spell. The interval is 60 seconds if both
-- writes succeed, and otherwise 5, with an error.
pub update_known_providers_lem :
    (env : Env) (pk : String) (pks : List String) (r : RunStorageRatesResult)
    (rs : List RunStorageRatesResult)
    → env.all_pubkeys ≡ some (pk ∷ pks)
    → (env.agent_count == 0) ≡ false
    → env.run_storage_rates_all (rates_request env (pk ∷ pks)) ≡ r ∷ rs
    → (infos : List ProviderUpdate) × (update_known_providers env
        ≡ outcome_of env (map (status_from (r ∷ rs)) (pk ∷ pks)) infos)
      × AreStored (online_rates (r ∷ rs) (pk ∷ pks)) infos
update_known_providers_lem env pk pks r rs listed agents answered =
    let asked = pk ∷ pks in
    let (statuses, stored) = status_loop_lem (r ∷ rs) asked asked (all_asked asked) in
    let (found, infos) = status_loop (merge_storage_rates_responses asked (r ∷ rs)) asked in
    (
      infos,
      runs_to_save env pk pks r rs listed agents answered
          ∙ save-outcome_of env found infos
          ∙ ap (λ a. outcome_of env a infos) statuses,
      stored,
    )
