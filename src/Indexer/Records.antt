-- ===== src/Indexer/Records.antt =====
-- Which records a query finds.
use blackstone.Prelude.{
  String, ◌≡◌, refl, Bool, false, not, ◌&&◌, ◌||◌, Option, none, some, List, [], ◌∷◌, arith,
  if◌then◌else◌, ap, ◌∙◌,
}
use blackstone.Map.{◌==◌, Map, find, contains, insert, erase, string_key, find-insert, find-erase}
use blackstone.Indexer.{
  Indexer, Index, Records, index_or_empty, records_or_empty, add_to_index, put_records,
  remove_record, put_index, remove_from, remove_from_index, query, query_index, drop_index, clear,
  Call, adds, removes, drops, clears, step, run,
}

-- Is the record filed under the value of the index?
abbrev pub holds : Indexer → String → String → String → Bool
holds s name value id = contains id (query_index s name value)

abbrev pub is_entry : (name value id name' value' id' : String) → Bool
is_entry name value id name' value' id' = name == name' && value == value' && id == id'

-- Whether a record is filed after a call, from whether it was before.
abbrev pub filed : Call → (name value id : String) → Bool → Bool
filed (adds n v r) name value id before = is_entry n v r name value id || before
filed (removes n v r) name value id before = not (is_entry n v r name value id) && before
filed (drops n) name value id before = not (n == name) && before
filed clears name value id before = false

adds-filed :
    (n v r : String) (s : Indexer) (name value id : String)
    → holds (add_to_index n v r s) name value id
      ≡ (is_entry n v r name value id || holds s name value id)
unfolding add_to_index query_index find
adds-filed n v r s name value id =
    let m = index_or_empty (find n s.indices) in
    let rs = records_or_empty (find v m) in
    ground (
      arith,
      find-insert n name (insert v (insert r tt rs) m) s.indices,
      find-insert v value (insert r tt rs) m,
      find-insert r id tt rs,
      string_key.beq_iff n name,
      string_key.beq_iff v value,
      ap (λ (k : String). find k s.indices),
      ap (λ (k : String). find k m),
    )

find-put_records :
    (v value : String) (rs : Records) (m : Index)
    → records_or_empty (find value (put_records v rs m))
      ≡ (if v == value then rs else records_or_empty (find value m))
find-put_records v value [] m = ground (arith, find-erase v value m)
find-put_records v value (r ∷ rs) m = ground (arith, find-insert v value (r ∷ rs) m)

pub find-put_index :
    (n name : String) (m : Index) (is : Map String Index)
    → index_or_empty (find name (put_index n m is))
      ≡ (if n == name then m else index_or_empty (find name is))
find-put_index n name [] is = ground (arith, find-erase n name is)
find-put_index n name (e ∷ m) is = ground (arith, find-insert n name (e ∷ m) is)

pub query-eq :
    (o : Option Index) (value : String)
    → query o value ≡ records_or_empty (find value (index_or_empty o))
unfolding find
query-eq none value = refl
query-eq (some m) value = refl

remove_record-filed :
    (v r : String) (m : Index) (o : Option Records) (value id : String)
    → find v m ≡ o
    → contains id (records_or_empty (find value (remove_record v r m o)))
      ≡ (not (v == value && r == id) && contains id (records_or_empty (find value m)))
unfolding find
remove_record-filed v r m none value id e =
    ground (arith, string_key.beq_iff v value, ap (λ (k : String). find k m))
remove_record-filed v r m (some rs) value id e = ground (
  arith,
  find-put_records v value (erase r rs) m,
  find-erase r id rs,
  string_key.beq_iff v value,
  ap (λ (k : String). find k m),
)

remove_from-filed :
    (n v r : String) (s : Indexer) (o : Option Index) (name value id : String)
    → find n s.indices ≡ o
    → holds (remove_from n v r s o) name value id
      ≡ (not (is_entry n v r name value id) && holds s name value id)
unfolding query_index find
remove_from-filed n v r s none name value id e =
    ground (arith, string_key.beq_iff n name, ap (λ (k : String). find k s.indices))
remove_from-filed n v r s (some m) name value id e =
    let m' = remove_record v r m (find v m) in
    rw (query-eq (find name (put_index n m' s.indices)) value, query-eq (find name s.indices) value)
      (ground (
        arith,
        find-put_index n name m' s.indices,
        remove_record-filed v r m (find v m) value id refl,
        string_key.beq_iff n name,
        ap (λ (k : String). find k s.indices),
      ))

step-filed :
    (s : Indexer) (c : Call) (name value id : String)
    → holds (step s c) name value id ≡ filed c name value id (holds s name value id)
unfolding step remove_from_index drop_index clear query_index find
step-filed s (adds n v r) name value id = adds-filed n v r s name value id
step-filed s (removes n v r) name value id =
    remove_from-filed n v r s (find n s.indices) name value id refl
step-filed s (drops n) name value id = ground (arith, find-erase n name s.indices)
step-filed s clears name value id = refl

-- Whether a record is filed after calls, each in turn.
abbrev pub filed_all : List Call → (name value id : String) → Bool → Bool
filed_all [] name value id before = before
filed_all (c ∷ cs) name value id before = filed_all cs name value id (filed c name value id before)

-- After any calls, a query of a value finds exactly the records that were filed under it when the
-- calls began or were added since, less those that were removed, dropped or cleared after that.
pub run-filed :
    (s : Indexer) (cs : List Call) (name value id : String)
    → holds (run s cs) name value id ≡ filed_all cs name value id (holds s name value id)
unfolding run
run-filed s [] name value id = refl
run-filed s (c ∷ cs) name value id =
    run-filed (step s c) cs name value id
    ∙ ap (filed_all cs name value id) (step-filed s c name value id)
