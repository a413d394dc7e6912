-- ===== src/Workers/Known.antt =====
-- `UpdateKnownProviders` and `mergeStorageRatesResponses`. What the database and the agents answer
-- is an argument; the result is the interval, whether there was an error, and the writes in order.
pub mod Online
pub mod Rates
pub mod Stored
pub mod Statuses
use mytonprovider_backend.Prelude.{
  ℕ, ◌+◌, ◌-◌, ◌*◌, ◌%◌, ◌^◌, ℤ, pos, negsuc, String, Bool, true, false, Option, none, some, List,
  [], ◌∷◌, ◌++◌, Map, lookup, insert, is_some, not, is_empty, ltb, ◌==◌, str_eq, if◌then◌else◌,
  trim_space, append_text,
}
use mytonprovider_backend.Agent.Server.Deadline.{StorageRatesTimeouts}
use mytonprovider_backend.Agent.Server.Rates.{
  RunStorageRatesRequest, StorageRates, StorageRatesResult, Response,
}

-- `agentrpc.RunStorageRatesResult`
pub record RunStorageRatesResult : Type 0 where
  pub endpoint : String
  pub response : Option (Response (Option StorageRatesResult))

pub record SelectedRates : Type 0 where
  pub row : StorageRatesResult
  pub valid : Bool

-- `row.GetOk()`
abbrev pub get_ok : StorageRatesResult → Bool
get_ok row = is_some row.rates

select : Map SelectedRates → String → StorageRatesResult → Option SelectedRates → Map SelectedRates
select by_pubkey key row none = insert by_pubkey key (record { row = row; valid = get_ok row })
select by_pubkey key row (some current) =
    if current.valid
    then by_pubkey
    else if get_ok row
    then insert by_pubkey key (record { row = row; valid = true })
    else by_pubkey

-- One row of an answer.
pub note_rates : Map SelectedRates → Option StorageRatesResult → Map SelectedRates
unfolding select
note_rates by_pubkey none = by_pubkey
note_rates by_pubkey (some row) =
    let key = trim_space row.provider_pubkey in
    if str_eq key "" then by_pubkey else select by_pubkey key row (lookup by_pubkey key)

pub note_rows : Map SelectedRates → List (Option StorageRatesResult) → Map SelectedRates
note_rows by_pubkey [] = by_pubkey
note_rows by_pubkey (row ∷ rows) = note_rows (note_rates by_pubkey row) rows

-- The rows of an answer; a missing one has none.
abbrev pub rows_of : RunStorageRatesResult → List (Option StorageRatesResult)
rows_of r = elim r.response [ none ↦ [] | some response ↦ response.results ]

pub note_responses : Map SelectedRates → List RunStorageRatesResult → Map SelectedRates
note_responses by_pubkey [] = by_pubkey
note_responses by_pubkey (r ∷ rs) = note_responses (note_rows by_pubkey (rows_of r)) rs

put_selected : Map StorageRatesResult → String → Option SelectedRates → Map StorageRatesResult
put_selected out pk none = out
put_selected out pk (some selected) = insert out pk selected.row

-- The last loop, over the public keys that were asked for.
pub pick_asked : Map SelectedRates → Map StorageRatesResult → List String → Map StorageRatesResult
unfolding put_selected
pick_asked by_pubkey out [] = out
pick_asked by_pubkey out (pk ∷ pks) =
    pick_asked by_pubkey (put_selected out pk (lookup by_pubkey pk)) pks

pub merge_storage_rates_responses :
    List String → List RunStorageRatesResult → Map StorageRatesResult
merge_storage_rates_responses pubkeys responses =
    pick_asked (note_responses [] responses) [] pubkeys

pub record ProviderStatusUpdate : Type 0 where
  pub pubkey : String
  pub is_online : Bool

pub record ProviderUpdate : Type 0 where
  pub pubkey : String
  pub rate_per_mb_day : ℤ
  pub min_bounty : ℤ
  pub min_span : ℕ
  pub max_span : ℕ

-- `new(big.Int).SetBytes(bytes)`, on top of the bytes before them.
be_value : ℕ → List ℕ → ℕ
be_value acc [] = acc
be_value acc (b ∷ bs) = be_value (acc * 256 + b) bs

-- `Int64` of math/big: the low 64 bits, read as a signed number.
pub int64_of_bytes : List ℕ → ℤ
unfolding be_value
int64_of_bytes bytes =
    let low = be_value 0 bytes % 2 ^ 64 in
    if ltb low (2 ^ 63) then pos low else negsuc (2 ^ 64 - 1 - low)

pub update_of : String → StorageRates → ProviderUpdate
update_of pubkey rates = record {
  pubkey = pubkey;
  rate_per_mb_day = int64_of_bytes rates.rate_per_mb_day;
  min_bounty = int64_of_bytes rates.min_bounty;
  min_span = rates.min_span;
  max_span = rates.max_span;
}

-- The rates of a row that is there and is ok.
pub ok_rates : Option StorageRatesResult → Option StorageRates
ok_rates none = none
ok_rates (some row) = row.rates

-- The loop over the public keys.
pub status_loop :
    Map StorageRatesResult → List String → List ProviderStatusUpdate × List ProviderUpdate
unfolding update_of
status_loop merged [] = ([], [])
status_loop merged (pubkey ∷ pubkeys) =
    let (statuses, infos) = status_loop merged pubkeys in
    elim (ok_rates (lookup merged pubkey)) [
      | none ↦ (record { pubkey = pubkey; is_online = false } ∷ statuses, infos)
      | some rates ↦
          (record { pubkey = pubkey; is_online = true } ∷ statuses, update_of pubkey rates ∷ infos)
    ]

pub data Write : Type 0 where
  add_statuses : List ProviderStatusUpdate → Write
  update_providers : List ProviderUpdate → Write

-- `interval` is in seconds.
pub record Outcome : Type 0 where
  pub interval : ℕ
  pub failed : Bool
  pub writes : List Write

-- What the worker meets: `none` is an error of the database. `job_id` is made from the clock.
pub record Env : Type 0 where
  pub all_pubkeys : Option (List String)
  pub agent_count : ℕ
  pub job_id : String
  pub storage_rates_query_ms : ℕ
  pub run_storage_rates_all : RunStorageRatesRequest → List RunStorageRatesResult
  pub add_statuses_ok : Bool
  pub update_providers_ok : Bool

-- The writes at the end.
pub save : Env → List ProviderStatusUpdate × List ProviderUpdate → Outcome
save env (statuses, infos) =
    if not env.add_statuses_ok
    then record { interval = 5; failed = true; writes = add_statuses statuses ∷ [] }
    else if not env.update_providers_ok
    then record {
      interval = 5;
      failed = true;
      writes = add_statuses statuses ∷ update_providers infos ∷ [];
    }
    else record {
      interval = 60;
      failed = false;
      writes = add_statuses statuses ∷ update_providers infos ∷ [];
    }

pub rates_request : Env → List String → RunStorageRatesRequest
rates_request env pubkeys = record {
  job_id = env.job_id;
  provider_pubkeys = pubkeys;
  query_size = 1;
  timeouts = some (record { query_timeout_ms = env.storage_rates_query_ms; total_ms = 0 });
}

abbrev nothing : ℕ → Bool → Outcome
nothing interval failed = record { interval = interval; failed = failed; writes = [] }

-- The part that follows the answers of the agents.
pub save_merged : Env → List String → List RunStorageRatesResult → Outcome
save_merged env pubkeys [] = nothing 5 false
save_merged env pubkeys (r ∷ rs) =
    save env (status_loop (merge_storage_rates_responses pubkeys (r ∷ rs)) pubkeys)

unfoldable pub update_known_providers : Env → Outcome
update_known_providers env = elim env.all_pubkeys [
  | none ↦ nothing 5 true
  | some pubkeys ↦
      if is_empty pubkeys
      then nothing 60 false
      else if env.agent_count == 0
      then nothing 5 false
      else save_merged env pubkeys (env.run_storage_rates_all (rates_request env pubkeys))
]
