-- ===== src/Indexer.antt =====
-- p2p_banking_system/database/indexer.h and indexer.cpp. Every method holds the indexer's mutex. A
-- `std::set` is a map to the unit type.
pub mod Records
pub mod Ranges
mod Tests
use blackstone.Prelude.{
  ℕ, zero, suc, ◌+◌, String, Bool, true, false, not, ◌&&◌, Option, none, some, List, [], ◌∷◌,
  if◌then◌else◌, length,
}
use blackstone.Prelude.Words.{add64}
use blackstone.Map.{Key, Map, find, contains, insert, erase, string_key}

abbrev pub Records : Type 0
Records = Map String (Unit {0})

abbrev pub Index : Type 0
Index = Map String Records

pub record Indexer : Type 0 where
  pub indices : Map String Index

-- `indices[indexName]` and `[indexValue]`, empty where there are none
abbrev pub index_or_empty : Option Index → Index
index_or_empty none = []
index_or_empty (some m) = m

abbrev pub records_or_empty : Option Records → Records
records_or_empty none = []
records_or_empty (some rs) = rs

pub new_indexer : Indexer
new_indexer = record { indices = [] }

pub add_to_index : String → String → String → Indexer → Indexer
add_to_index name value id s =
    let m = index_or_empty (find name s.indices) in
    let rs = records_or_empty (find value m) in
    record s { indices = insert name (insert value (insert id tt rs) m) s.indices }

-- What is left of an index without the record, of its entry and of the indices.
abbrev pub put_records : String → Records → Index → Index
put_records value [] m = erase value m
put_records value (r ∷ rs) m = insert value (r ∷ rs) m

abbrev pub remove_record : String → String → Index → Option Records → Index
remove_record value id m none = m
remove_record value id m (some rs) = put_records value (erase id rs) m

abbrev pub put_index : String → Index → Map String Index → Map String Index
put_index name [] is = erase name is
put_index name (e ∷ m) is = insert name (e ∷ m) is

abbrev pub remove_from : String → String → String → Indexer → Option Index → Indexer
remove_from name value id s none = s
remove_from name value id s (some m) = record s {
  indices = put_index name (remove_record value id m (find value m)) s.indices;
}

pub remove_from_index : String → String → String → Indexer → Indexer
remove_from_index name value id s = remove_from name value id s (find name s.indices)

abbrev pub query : Option Index → String → Records
query none value = []
query (some m) value = records_or_empty (find value m)

pub query_index : Indexer → String → String → Records
query_index s name value = query (find name s.indices) value

-- `result.insert(records.begin(), records.end())`
pub insert_all : Records → Records → Records
insert_all [] result = result
insert_all (r ∷ rs) result = insert_all rs (insert r.0 tt result)

abbrev pub in_range : String → String → String → Bool
in_range start end value = not (string_key.before value start) && not (string_key.before end value)

pub gather : String → String → Index → Records → Records
unfolding insert_all
gather start end [] result = result
gather start end (e ∷ m) result =
    gather start end m (if in_range start end e.0 then insert_all e.1 result else result)

pub query_range : Indexer → String → String → String → Records
unfolding gather
query_range s name start end = gather start end (index_or_empty (find name s.indices)) []

pub drop_index : String → Indexer → Indexer
drop_index name s = record s { indices = erase name s.indices }

pub clear : Indexer → Indexer
clear s = record s { indices = [] }

pub count_records : Index → ℕ → ℕ
count_records [] total = total
count_records (e ∷ m) total = count_records m (add64 total (length e.1))

pub get_index_size : Indexer → String → ℕ
unfolding count_records
get_index_size s name = count_records (index_or_empty (find name s.indices)) 0

pub data Call : Type 0 where
  adds removes : (name value id : String) → Call
  drops : String → Call
  clears : Call

pub step : Indexer → Call → Indexer
step s (adds name value id) = add_to_index name value id s
step s (removes name value id) = remove_from_index name value id s
step s (drops name) = drop_index name s
step s clears = clear s

pub run : Indexer → List Call → Indexer
run s [] = s
run s (c ∷ cs) = run (step s c) cs
