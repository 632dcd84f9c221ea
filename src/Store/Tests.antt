-- ===== src/Store/Tests.antt =====
-- A store after concrete calls.
use blackstone.Prelude.{String, ◌≡◌, refl, List, [], ◌∷◌, true}
use blackstone.Map.{Map, find, string_key}
use blackstone.Store.{
  new_store, get, has, get_by_index, get_range, Call, puts, adds_index, removes, puts_all, run,
}
use blackstone.Store.Reads.{run-written, get_range-run}

abbrev items : Map String String
items = ("a", "1") ∷ ("b", "2") ∷ []

abbrev calls : List Call
calls = puts "a" "0" ∷ adds_index "letters" "a" ∷ puts_all items ∷ puts "c" "3" ∷ removes "a" ∷ []

run-written_example :
    (get (run new_store calls) "b" ≡ "2")
    × (has (run new_store calls) "b" ≡ true)
    × (get_by_index (run new_store calls) "b" ≡ [])
unfolding find
run-written_example = run-written calls "b" (tt, (tt, ((refl, (refl, tt)), (tt, (tt, tt)))))

get_range-run_at :
    find "b" (get_range (run new_store calls) "b" "c") ≡ find "b" (run new_store calls).store
get_range-run_at = get_range-run calls "b" "c" "b"
