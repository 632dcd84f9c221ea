-- ===== src/Indexer/Tests.antt =====
-- An indexer after concrete calls.
use blackstone.Prelude.{String, ◌≡◌, ◌↔◌, true, List, [], ◌∷◌}
use blackstone.Map.{contains, string_key}
use blackstone.Indexer.{new_indexer, in_range, query_range, Call, adds, removes, run}
use blackstone.Indexer.Records.{holds, run-filed}
use blackstone.Indexer.Ranges.{query_range_iff}

abbrev calls : List Call
calls =
    adds "age" "30" "ann"
    ∷ adds "age" "41" "bob"
    ∷ adds "age" "30" "cy"
    ∷ removes "age" "30" "ann"
    ∷ []

run-filed_example : holds (run new_indexer calls) "age" "30" "cy" ≡ true
run-filed_example = run-filed new_indexer calls "age" "30" "cy"

query_range_iff_at :
    let s = run new_indexer calls in
    (contains "bob" (query_range s "age" "35" "50") ≡ true)
    ↔ ((value : String) × (in_range "35" "50" value ≡ true) × (holds s "age" value "bob" ≡ true))
query_range_iff_at = query_range_iff calls "age" "35" "50" "bob"
