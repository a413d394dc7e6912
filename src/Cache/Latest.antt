-- ===== src/Cache/Latest.antt =====
-- What `SimpleCache` (coordinator/internal/cache/simple.go) holds after a history of calls.
use mytonprovider_backend.Prelude.{
  ℕ, ◌+◌, ◌≤◌, ◌≡◌, refl, sym, ◌∙◌, ap, inl, inr, arith, String, Bool-cases, subst, Option, none,
  some, List, [], ◌∷◌, Map, lookup, delete, lookup-insert, lookup-delete, IsDistinct,
  insert-IsDistinct, str_eq, eq_iff, ltb, if◌then◌else◌,
}
use mytonprovider_backend.Cache.{
  Item, Op, sets, gets, releases, cleans, set, unexpired, after_get, get, release, get_all, apply,
  after,
}
use mytonprovider_backend.Cache.Entries.{
  still_valid, fresh, fresh_later, fresh-unexpired, fresh-still_valid, delete-IsDistinct,
  clean-fresh, clean-IsDistinct, get_all-still_valid,
}

-- No time is later than the one before it in the list, nor than `now`.
abbrev pub IsOrdered {ℓ} : {V : Type ℓ} → ℕ → List (ℕ × Op V) → Type 0
IsOrdered now [] = Unit
IsOrdered now ((t, op) ∷ history) = (t ≤ now) × IsOrdered t history

module _ {ℓ} {V : Type ℓ} where
  -- The entry that the history leaves for a key: the last value that was set, unless it was released
  -- since.
  unfoldable pub held : ℕ → List (ℕ × Op V) → String → Option (Item V)
  held ttl [] key = none
  held ttl ((t, sets k v) ∷ history) key =
      let rest = held ttl history key in
      if str_eq k key then some (record { value = v; expiry_time = t + ttl }) else rest
  held ttl ((t, gets k) ∷ history) key = held ttl history key
  held ttl ((t, releases k) ∷ history) key =
      let rest = held ttl history key in if str_eq k key then none else rest
  held ttl ((t, cleans) ∷ history) key = held ttl history key

  release-fresh :
      (now : ℕ) (m : Map (Item V)) (k j : String)
      → fresh now (lookup (delete m k) j) ≡ (if str_eq k j then none else fresh now (lookup m j))
  release-fresh now m k j = elim (Bool-cases (str_eq k j)) [
    | inl same ↦ rw (lookup-delete, same) refl
    | inr other ↦ rw (lookup-delete, other) refl
  ]

  -- Where `Get` deletes, the entry of its key is not there or is expired.
  after_get-fresh :
      (now : ℕ) (m : Map (Item V)) (k j : String)
      → fresh now (lookup (after_get now k m (lookup m k)) j) ≡ fresh now (lookup m j)
  after_get-fresh now m k j = go (lookup m k) refl
    where
      gone :
          fresh now (lookup m k) ≡ none → fresh now (lookup (delete m k) j) ≡ fresh now (lookup m j)
      gone nothing = elim (Bool-cases (str_eq k j)) [
        | inl same ↦
            release-fresh now m k j
            ∙ (rw same
                (sym (subst (λ i. fresh now (lookup m i) ≡ none) ((eq_iff k j).0 same) nothing)))
        | inr other ↦ release-fresh now m k j ∙ (rw other refl)
      ]

      go :
          (o : Option (Item V))
          → lookup m k ≡ o
          → fresh now (lookup (after_get now k m o) j) ≡ fresh now (lookup m j)
      go none e = gone (rw e refl)
      go (some it) e = elim (Bool-cases (ltb it.expiry_time now)) [
        | inl old ↦ rw old (gone (rw e (rw old refl)))
        | inr young ↦ rw young refl
      ]

  after-IsDistinct : (ttl : ℕ) (h : List (ℕ × Op V)) → IsDistinct (after ttl h)
  unfolding after apply set get release
  after-IsDistinct ttl [] = tt
  after-IsDistinct ttl ((t, sets k v) ∷ h) = insert-IsDistinct _ k _ (after-IsDistinct ttl h)
  after-IsDistinct ttl ((t, gets k) ∷ h) =
      get-IsDistinct t k (after ttl h) (lookup (after ttl h) k) (after-IsDistinct ttl h)
    where
      get-IsDistinct :
          (now : ℕ) (key : String) (m : Map (Item V)) (o : Option (Item V))
          → IsDistinct m
          → IsDistinct (after_get now key m o)
      get-IsDistinct now key m none d = delete-IsDistinct m key d
      get-IsDistinct now key m (some it) d = elim (Bool-cases (ltb it.expiry_time now)) [
        | inl old ↦ rw old (delete-IsDistinct m key d)
        | inr young ↦ rw young d
      ]
  after-IsDistinct ttl ((t, releases k) ∷ h) = delete-IsDistinct _ k (after-IsDistinct ttl h)
  after-IsDistinct ttl ((t, cleans) ∷ h) = clean-IsDistinct t _ (after-IsDistinct ttl h)

  agree_later :
      (t now : ℕ) (a b : Option (Item V))
      → t ≤ now
      → fresh t a ≡ fresh t b
      → fresh now a ≡ fresh now b
  agree_later t now a b le e =
      sym (fresh_later t now a le) ∙ ap (fresh now) e ∙ fresh_later t now b le

  -- An entry that is looked at again once it is known to be fresh.
  fresh_again : (now : ℕ) (o : Option (Item V)) → fresh now (fresh now o) ≡ fresh now o
  fresh_again now o = fresh_later now now o (omega arith)

  -- The cache and the history agree on what is not expired at the time of the last call.
  call-held :
      (ttl : ℕ) (h : List (ℕ × Op V)) (t : ℕ) (op : Op V) (key : String)
      → fresh t (lookup (after ttl h) key) ≡ fresh t (held ttl h key)
      → fresh t (lookup (after ttl ((t, op) ∷ h)) key) ≡ fresh t (held ttl ((t, op) ∷ h) key)
  unfolding after apply set get release held
  call-held ttl h t (sets k v) key e = elim (Bool-cases (str_eq k key)) [
    | inl same ↦ rw (lookup-insert, same) refl
    | inr other ↦ rw (lookup-insert, other) e
  ]
  call-held ttl h t (gets k) key e = after_get-fresh t (after ttl h) k key ∙ e
  call-held ttl h t (releases k) key e = elim (Bool-cases (str_eq k key)) [
    | inl same ↦ rw (lookup-delete, same) refl
    | inr other ↦ rw (lookup-delete, other) e
  ]
  call-held ttl h t cleans key e =
      ap (fresh t) (clean-fresh t (after ttl h) key (after-IsDistinct ttl h))
      ∙ fresh_again t (lookup (after ttl h) key)
      ∙ e

  after-held :
      (ttl : ℕ) (h : List (ℕ × Op V)) (now : ℕ) (key : String)
      → IsOrdered now h
      → fresh now (lookup (after ttl h) key) ≡ fresh now (held ttl h key)
  unfolding after held lookup
  after-held ttl [] now key ordered = refl
  after-held ttl ((t, op) ∷ h) now key (le, ordered) =
      agree_later t now _ _ le (call-held ttl h t op key (after-held ttl h t key ordered))

  -- After calls at times that do not go back, `Get`, `Release` and `GetAll` give for every key the
  -- value that was last set and not released since, until its time to live has passed, and nothing
  -- otherwise; at the very instant of the expiry `Get` and `Release` still give it, and `GetAll`
  -- does not. Earlier reads and rounds of `cleanup` change none of this.
  pub cache-holds_latest :
      (ttl : ℕ) (h : List (ℕ × Op V)) (now : ℕ) (key : String)
      → IsOrdered now h
      → ((get now key (after ttl h)).0 ≡ unexpired now (held ttl h key))
        × ((release now key (after ttl h)).0 ≡ unexpired now (held ttl h key))
        × (lookup (get_all now (after ttl h)) key ≡ still_valid now (held ttl h key))
  unfolding get release
  cache-holds_latest ttl h now key ordered =
      let agreed = after-held ttl h now key ordered in
      let read : unexpired now (lookup (after ttl h) key) ≡ unexpired now (held ttl h key) =
        sym (fresh-unexpired now _) ∙ ap (unexpired now) agreed ∙ fresh-unexpired now _ in
      (
        read,
        read,
        get_all-still_valid now (after ttl h) key (after-IsDistinct ttl h)
            ∙ sym (fresh-still_valid now _)
            ∙ ap (still_valid now) agreed
            ∙ fresh-still_valid now _,
      )
