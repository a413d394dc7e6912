-- ===== src/Tests/Cache.antt =====
-- The cache at concrete inputs.
use mytonprovider_backend.Prelude.{◌≡◌, refl, arith, ℕ, List, [], ◌∷◌, none, some, lookup}
use mytonprovider_backend.Cache.{Op, sets, gets, cleans, unexpired, get, release, get_all, after}
use mytonprovider_backend.Cache.Entries.{still_valid}
use mytonprovider_backend.Cache.Latest.{held, cache-holds_latest}

-- Two values of one key, the last one at the time 20, and a round of `cleanup`.
abbrev history : List (ℕ × Op ℕ)
history = (25, cleans) ∷ (22, gets "k") ∷ (20, sets "k" 7) ∷ (3, sets "k" 5) ∷ []

held_lasts : unexpired 30 (held 10 history "k") ≡ some 7
unfolding held
held_lasts = refl

held_ends : unexpired 31 (held 10 history "k") ≡ none
unfolding held
held_ends = refl

cache-holds_latest_example :
    ((get 30 "k" (after 10 history)).0 ≡ unexpired 30 (held 10 history "k"))
    × ((release 30 "k" (after 10 history)).0 ≡ unexpired 30 (held 10 history "k"))
    × (lookup (get_all 30 (after 10 history)) "k" ≡ still_valid 30 (held 10 history "k"))
cache-holds_latest_example =
    cache-holds_latest 10 history 30 "k"
      (omega arith, (omega arith, (omega arith, (omega arith, tt))))
