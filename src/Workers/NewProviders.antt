-- ===== src/Workers/NewProviders.antt =====
-- `CollectNewProviders`: the providers that register with a message to the master wallet. What the
-- database and the chain answer is an argument. Letters beyond ASCII are not made small; no key with
-- such a letter is 64 hexadecimal digits, before or after.
pub mod Scanned
pub mod Rescan
use mytonprovider_backend.Prelude.{
  ℕ, ℤ, String, Bool, true, false, not, Option, none, some, List, [], ◌∷◌, Map, KeySet, lookup,
  insert, is_some, is_empty, length, ltb, ◌==◌, str_eq, if◌then◌else◌, len, hex_decode, to_lower,
  after_first, parse_int, to_uint64, format_uint,
}

-- `tonclient.Transaction`
pub record Transaction : Type 0 where
  pub lt : ℕ
  pub op : ℕ
  pub from_addr : String
  pub message : String
  pub created_at : ℤ

pub record ProviderCreate : Type 0 where
  pub pubkey : String
  pub address : String
  pub registered_at : ℤ

abbrev pub prefix : String
prefix = "tsp-"

-- `knownProviders`
unfoldable pub known_of : KeySet → List String → KeySet
known_of known [] = known
known_of known (pubkey ∷ pubkeys) = known_of (insert known (to_lower pubkey) tt) pubkeys

is_key : Option (List ℕ) → Bool
is_key none = false
is_key (some bytes) = length bytes == 32

-- The tests of a key that a message names.
unfoldable pub new_key : KeySet → String → Option String
unfolding is_key
new_key known pubkey =
    if not (len pubkey == 64)
    then none
    else if is_some (lookup known pubkey)
    then none
    else if is_key (hex_decode pubkey)
    then some pubkey
    else none

-- The tests from the search for the prefix on.
unfoldable pub message_key : KeySet → Option String → Option String
message_key known none = none
message_key known (some rest) = if str_eq rest "" then none else new_key known (to_lower rest)

-- `uniqueProviders` and `biggestLT`
pub record Scan : Type 0 where
  pub unique : Map ProviderCreate
  pub biggest : ℕ

put_provider : Transaction → Map ProviderCreate → Option String → Map ProviderCreate
put_provider tx unique none = unique
put_provider tx unique (some pubkey) =
    insert unique pubkey
      (record { pubkey = pubkey; address = tx.from_addr; registered_at = tx.created_at })

-- The loop over the transactions.
module _ (last : ℕ) (known : KeySet) where
  unfoldable pub scan_tx : Scan → Transaction → Scan
  unfolding put_provider
  scan_tx s tx = if not (ltb last tx.lt) then s else record {
    unique = put_provider tx s.unique (message_key known (after_first prefix tx.message));
    biggest = if ltb s.biggest tx.lt then tx.lt else s.biggest;
  }

  unfoldable pub scan_loop : Scan → List Transaction → Scan
  scan_loop s [] = s
  scan_loop s (tx ∷ txs) = scan_loop (scan_tx s tx) txs

unfoldable pub values : Map ProviderCreate → List ProviderCreate
values [] = []
values ((k, v) ∷ m) = v ∷ values m

-- `uint64(lastProcessedLT)`, where the error of `strconv.ParseInt` is ignored.
unfoldable pub parse_lt : String → ℕ
parse_lt lt = to_uint64 (parse_int lt)

-- `none` is an error of the database or of the lite server.
pub record Env : Type 0 where
  pub get_param_ok : Bool
  pub all_pubkeys : Option (List String)
  pub get_transactions : ℕ → Option (List Transaction)
  pub set_param_ok : Bool
  pub add_providers_ok : Bool

-- `interval` is in seconds; `last_lt` is the parameter in the database afterwards, and `added` is
-- what `AddProviders` was called with, if it was.
pub record Outcome : Type 0 where
  pub interval : ℕ
  pub failed : Bool
  pub last_lt : String
  pub added : Option (List ProviderCreate)

-- The part that follows the loop.
unfoldable pub register : Env → String → Scan → Outcome
register env lt s =
    if is_empty s.unique
    then record { interval = 60; failed = false; last_lt = lt; added = none }
    else record {
      interval = if env.add_providers_ok then 60 else 5;
      failed = not env.add_providers_ok;
      last_lt =
          if ltb (parse_lt lt) s.biggest
          then (if env.set_param_ok then format_uint s.biggest else lt)
          else lt;
      added = some (values s.unique);
    }

abbrev error_outcome : String → Outcome
error_outcome lt = record { interval = 5; failed = true; last_lt = lt; added = none }

scan_all : Env → String → List String → Option (List Transaction) → Outcome
scan_all env lt pubkeys none = error_outcome lt
scan_all env lt pubkeys (some txs) =
    let last = parse_lt lt in
    register env lt
      (scan_loop last (known_of [] pubkeys) (record { unique = []; biggest = last }) txs)

-- One run, from the parameter in the database.
unfoldable pub collect_new_providers : Env → String → Outcome
unfolding scan_all
collect_new_providers env lt =
    if not env.get_param_ok then error_outcome lt else elim env.all_pubkeys [
      | none ↦ error_outcome lt
      | some pubkeys ↦ scan_all env lt pubkeys (env.get_transactions (parse_lt lt))
    ]
