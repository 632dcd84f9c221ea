-- ===== src/Store.antt =====
-- p2p_banking_system/database/kv_store.h and kv_store.cpp. Every method holds the store's mutex.
pub mod Reads
mod Tests
use blackstone.Prelude.{
  ℕ, String, Bool, true, false, not, ◌&&◌, Option, none, some, List, [], ◌∷◌, ◌++◌, if◌then◌else◌,
  length,
}
use blackstone.Map.{Key, Map, find, contains, insert, erase, string_key}

pub record KeyValueStore : Type 0 where
  pub store : Map String String
  pub indexes : Map String (List String)

pub new_store : KeyValueStore
new_store = record { store = []; indexes = [] }

pub put : String → String → KeyValueStore → KeyValueStore
put key value s = record s { store = insert key value s.store }

-- A key that is not there reads as the empty string.
abbrev pub text_of : Option String → String
text_of none = ""
text_of (some value) = value

pub get : KeyValueStore → String → String
get s key = text_of (find key s.store)

pub remove : String → KeyValueStore → KeyValueStore × Bool
remove key s = (record s { store = erase key s.store }, contains key s.store)

pub has : KeyValueStore → String → Bool
has s key = contains key s.store

pub put_all : Map String String → Map String String → Map String String
put_all [] m = m
put_all (e ∷ items) m = put_all items (insert e.0 e.1 m)

pub batch_put : Map String String → KeyValueStore → KeyValueStore
unfolding put_all
batch_put items s = record s { store = put_all items s.store }

-- `key >= start && key <= end`
abbrev pub in_range : String → String → String → Bool
in_range start end key = not (string_key.before key start) && not (string_key.before end key)

pub copy_range : String → String → Map String String → Map String String → Map String String
copy_range start end [] result = result
copy_range start end (e ∷ m) result =
    copy_range start end m (if in_range start end e.0 then insert e.0 e.1 result else result)

pub get_range : KeyValueStore → String → String → Map String String
unfolding copy_range
get_range s start end = copy_range start end s.store []

abbrev pub keys_of : Option (List String) → List String
keys_of none = []
keys_of (some keys) = keys

pub add_index : String → String → KeyValueStore → KeyValueStore
add_index name key s = record s {
  indexes = insert name (keys_of (find name s.indexes) ++ key ∷ []) s.indexes;
}

pub get_by_index : KeyValueStore → String → List String
get_by_index s name = keys_of (find name s.indexes)

pub size : KeyValueStore → ℕ
size s = length s.store

pub clear : KeyValueStore → KeyValueStore
clear s = record { store = []; indexes = [] }

pub data Call : Type 0 where
  puts adds_index : String → String → Call
  removes : String → Call
  puts_all : Map String String → Call
  clears : Call

pub step : KeyValueStore → Call → KeyValueStore
step s (puts key value) = put key value s
step s (adds_index name key) = add_index name key s
step s (removes key) = (remove key s).0
step s (puts_all items) = batch_put items s
step s clears = clear s

pub run : KeyValueStore → List Call → KeyValueStore
run s [] = s
run s (c ∷ cs) = run (step s c) cs
