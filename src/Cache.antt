-- ===== src/Cache.antt =====
-- coordinator/internal/cache/simple.go: `SimpleCache`. Each operation runs under the lock of the
-- cache; the time that it reads is its argument, in nanoseconds since the epoch.
pub mod Entries
pub mod Latest
use mytonprovider_backend.Prelude.{
  ℕ, ◌+◌, String, Bool, Option, none, some, List, [], ◌∷◌, Map, lookup, insert, delete, ltb,
  if◌then◌else◌,
}

pub record Item {ℓ} (V : Type ℓ) : Type ℓ where
  pub value : V
  pub expiry_time : ℕ

-- What a call of the cache was.
pub data Op {ℓ} (V : Type ℓ) : Type ℓ where
  sets : String → V → Op V
  gets releases : String → Op V
  cleans : Op V

module _ {ℓ} {V : Type ℓ} where
  -- `now.After(it.expiryTime)`
  abbrev pub is_expired : ℕ → Item V → Bool
  is_expired now it = ltb it.expiry_time now

  -- `Set`
  unfoldable pub set : ℕ → ℕ → String → V → Map (Item V) → Map (Item V)
  set ttl now key value items = insert items key (record { value = value; expiry_time = now + ttl })

  -- What `Get` answers for the entry of its key.
  abbrev pub unexpired : ℕ → Option (Item V) → Option V
  unexpired now none = none
  unexpired now (some it) = if is_expired now it then none else some it.value

  abbrev pub after_get : ℕ → String → Map (Item V) → Option (Item V) → Map (Item V)
  after_get now key items none = delete items key
  after_get now key items (some it) = if is_expired now it then delete items key else items

  -- `Get`
  unfoldable pub get : ℕ → String → Map (Item V) → Option V × Map (Item V)
  get now key items = (unexpired now (lookup items key), after_get now key items (lookup items key))

  -- `Release`
  unfoldable pub release : ℕ → String → Map (Item V) → Option V × Map (Item V)
  release now key items = (unexpired now (lookup items key), delete items key)

  -- `GetAll`
  unfoldable pub get_all : ℕ → Map (Item V) → Map V
  get_all now [] = []
  get_all now ((k, it) ∷ items) =
      let rest = get_all now items in if ltb now it.expiry_time then (k, it.value) ∷ rest else rest

  -- One round of `cleanup`.
  unfoldable pub clean : ℕ → Map (Item V) → Map (Item V)
  clean now [] = []
  clean now ((k, it) ∷ items) =
      let rest = clean now items in if is_expired now it then rest else (k, it) ∷ rest

  unfoldable pub apply : ℕ → ℕ → Op V → Map (Item V) → Map (Item V)
  unfolding set get release clean
  apply ttl now (sets key value) items = set ttl now key value items
  apply ttl now (gets key) items = (get now key items).1
  apply ttl now (releases key) items = (release now key items).1
  apply ttl now cleans items = clean now items

  -- The cache after a history of calls, the last one first, each with its time.
  unfoldable pub after : ℕ → List (ℕ × Op V) → Map (Item V)
  unfolding apply
  after ttl [] = []
  after ttl ((now, op) ∷ history) = apply ttl now op (after ttl history)
