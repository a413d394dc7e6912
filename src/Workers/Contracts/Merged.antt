-- ===== src/Workers/Contracts/Merged.antt =====
-- `CollectProvidersNewStorageContracts`: the map that the goroutines merge their scans into.
use mytonprovider_backend.Prelude.{
  ◌≡◌, refl, String, Bool, false, ◌&&◌, ◌||◌, Option, none, some, [], ◌∷◌, Map, KeySet, lookup,
  insert, is_some, str_eq, arith, eq_iff, lookup-insert,
}
use mytonprovider_backend.Workers.Contracts.{StorageContract, put_all, merge_found, merge_scan}

put_all-lookup :
    (v t : KeySet) (p : String)
    → is_some (lookup (put_all v t) p) ≡ (is_some (lookup v p) || is_some (lookup t p))
unfolding put_all lookup
put_all-lookup v [] p = ground arith
put_all-lookup v ((j, u) ∷ t) p =
    ground (arith, put_all-lookup (insert v j tt) t p, lookup-insert v j p tt)

-- The contract lists the provider.
abbrev pub lists : String → Option StorageContract → Bool
lists p none = false
lists p (some c) = is_some (lookup c.providers_addresses p)

merge_found-lists :
    (tx : StorageContract) (o : Option StorageContract) (p : String)
    → lists p (some (merge_found tx o)) ≡ (lists p o || lists p (some tx))
unfolding merge_found
merge_found-lists tx none p = refl
merge_found-lists tx (some v) p = put_all-lookup v.providers_addresses tx.providers_addresses p

-- An entry of a scan for the contract `src` lists the provider.
abbrev pub any_lists : String → String → Map StorageContract → Bool
any_lists src p [] = false
any_lists src p ((k, c) ∷ sc) = (str_eq k src && lists p (some c)) || any_lists src p sc

-- Merging a scan adds the providers that the scan lists, and no others.
pub merge_scan-lists :
    (all sc : Map StorageContract) (src p : String)
    → lists p (lookup (merge_scan all sc) src) ≡ (lists p (lookup all src) || any_lists src p sc)
unfolding merge_scan
merge_scan-lists all [] src p = ground arith
merge_scan-lists all ((k, c) ∷ sc) src p =
    let merged = merge_found c (lookup all k) in
    ground (
      arith,
      merge_scan-lists (insert all k merged) sc src p,
      lookup-insert all k src merged,
      merge_found-lists c (lookup all k) p,
      eq_iff k src,
    )
