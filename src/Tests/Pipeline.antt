-- ===== src/Tests/Pipeline.antt =====
-- The events of a provider at a concrete sequence of calls.
use mytonprovider_backend.Prelude.{lookup, refl, true, false, none, some, [], ◌∷◌}
use mytonprovider_backend.Pipeline.{absent, new_recorder}
use mytonprovider_backend.Pipeline.Alternate.{IsStory, Call, resolve_all, resolve_all-IsStory}

abbrev call_fails : Call
call_fails = record {
  pubkey = "aa";
  stage = "dht";
  resolved = false;
  resolve_err = some "no such peer";
}

abbrev call_works : Call
call_works = record { pubkey = "aa"; stage = ""; resolved = true; resolve_err = none }

resolve_all-IsStory_example :
    IsStory "aa" absent (resolve_all new_recorder (call_fails ∷ call_works ∷ call_works ∷ []))
resolve_all-IsStory_example =
    resolve_all-IsStory "aa" absent new_recorder (call_fails ∷ call_works ∷ call_works ∷ [])
      (record { story = refl; current = unfold lookup in refl })
