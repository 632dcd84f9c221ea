-- ===== src/Indexer/Ranges.antt =====
-- What a query of a range of values finds, and that no index or entry is kept empty.
use blackstone.Prelude.{
  String, ◌≡◌, ◌↔◌, refl, Bool, true, false, ◌&&◌, ◌||◌, Option, none, some, List, [], ◌∷◌, arith,
  if◌then◌else◌, Bool-cases, if_both, inl, inr, ap, ◌∙◌,
}
use blackstone.Map.{
  ◌==◌, Map, find, contains, insert, erase, string_key, find-insert, find-erase, IsMap,
  insert-IsMap, erase-IsMap, beq_refl,
}
use blackstone.Indexer.{
  Indexer, Index, Records, new_indexer, index_or_empty, records_or_empty, add_to_index, put_records,
  remove_record, put_index, remove_from, remove_from_index, query_index, insert_all, in_range,
  gather, query_range, drop_index, clear, Call, adds, removes, drops, clears, step, run,
}
use blackstone.Indexer.Records.{holds, query-eq, find-put_index}

-- The keys of the indices are distinct, and those of each index.
pub record IsSorted (s : Indexer) : Type 0 where
  pub names : IsMap s.indices
  pub values : (n : String) → IsMap (index_or_empty (find n s.indices))

put_records-IsMap : (v : String) (rs : Records) (m : Index) → IsMap m → IsMap (put_records v rs m)
put_records-IsMap v [] m h = erase-IsMap v m h
put_records-IsMap v (r ∷ rs) m h = insert-IsMap v (r ∷ rs) m h

remove_record-IsMap :
    (v r : String) (m : Index) (o : Option Records) → IsMap m → IsMap (remove_record v r m o)
remove_record-IsMap v r m none h = h
remove_record-IsMap v r m (some rs) h = put_records-IsMap v (erase r rs) m h

put_index-IsMap :
    (n : String) (m : Index) (is : Map String Index) → IsMap is → IsMap (put_index n m is)
put_index-IsMap n [] is h = erase-IsMap n is h
put_index-IsMap n (e ∷ m) is h = insert-IsMap n (e ∷ m) is h

remove_from-IsSorted :
    (n v r : String) (s : Indexer) (o : Option Index)
    → find n s.indices ≡ o
    → IsSorted s
    → IsSorted (remove_from n v r s o)
remove_from-IsSorted n v r s none e h = h
remove_from-IsSorted n v r s (some m) e h =
    let own : IsMap m = rw (← ap index_or_empty e) (h.values n) in
    let m' = remove_record v r m (find v m) in
    record {
      names = put_index-IsMap n m' s.indices h.names;
      values = λ name.
          rw (find-put_index n name m' s.indices)
            (if_both IsMap (n == name) (remove_record-IsMap v r m (find v m) own) (h.values name));
    }

index-insert :
    (n name : String) (m : Index) (is : Map String Index)
    → index_or_empty (find name (insert n m is))
      ≡ (if n == name then m else index_or_empty (find name is))
index-insert n name m is = ground (arith, find-insert n name m is)

index-erase :
    (n name : String) (is : Map String Index)
    → index_or_empty (find name (erase n is))
      ≡ (if n == name then [] else index_or_empty (find name is))
index-erase n name is = ground (arith, find-erase n name is)

step-IsSorted : (s : Indexer) (c : Call) → IsSorted s → IsSorted (step s c)
unfolding step add_to_index remove_from_index drop_index clear find
step-IsSorted s (adds n v r) h =
    let own = index_or_empty (find n s.indices) in
    let m = insert v (insert r tt (records_or_empty (find v own))) own in
    record {
      names = insert-IsMap n m s.indices h.names;
      values = λ name.
          rw (index-insert n name m s.indices)
            (if_both IsMap (n == name) (insert-IsMap v _ own (h.values n)) (h.values name));
    }
step-IsSorted s (removes n v r) h = remove_from-IsSorted n v r s (find n s.indices) refl h
step-IsSorted s (drops n) h = record {
  names = erase-IsMap n s.indices h.names;
  values = λ name. rw (index-erase n name s.indices) (if_both IsMap (n == name) tt (h.values name));
}
step-IsSorted s clears h = record { names = tt; values = λ name. tt }

run-IsSorted : (s : Indexer) (cs : List Call) → IsSorted s → IsSorted (run s cs)
unfolding run
run-IsSorted s [] h = h
run-IsSorted s (c ∷ cs) h = run-IsSorted (step s c) cs (step-IsSorted s c h)

contains-insert_all :
    (id : String) (rs result : Records)
    → contains id (insert_all rs result) ≡ (contains id rs || contains id result)
unfolding insert_all find
contains-insert_all id [] result = refl
contains-insert_all id (r ∷ rs) result =
    ground (arith, contains-insert_all id rs (insert r.0 tt result), find-insert r.0 id tt result)

-- Does an entry in the range list the record?
abbrev in_some : (start end id : String) → Index → Bool
in_some start end id [] = false
in_some start end id (e ∷ m) = (in_range start end e.0 && contains id e.1) || in_some start end id m

contains-gather :
    (start end id : String) (m : Index) (result : Records)
    → contains id (gather start end m result) ≡ (in_some start end id m || contains id result)
unfolding gather
contains-gather start end id [] result = refl
contains-gather start end id (e ∷ m) result = elim (Bool-cases (in_range start end e.0)) [
  | inl inside ↦ ground (
    arith,
    contains-gather start end id m (insert_all e.1 result),
    contains-insert_all id e.1 result,
  )
  | inr outside ↦ ground (arith, contains-gather start end id m result)
]

in_some-to :
    (start end id : String) (m : Index)
    → IsMap m
    → in_some start end id m ≡ true
    → (value : String) × (in_range start end value ≡ true)
      × (contains id (records_or_empty (find value m)) ≡ true)
unfolding find
in_some-to start end id [] h k = absurd (ground arith)
in_some-to start end id (e ∷ m) h k =
    elim (Bool-cases (in_range start end e.0 && contains id e.1)) [
      | inl here ↦ (e.0, ground arith, ground (arith, beq_refl e.0))
      | inr there ↦
          let (value, inside, has) = in_some-to start end id m h.1 (ground arith) in
          (
            value,
            inside,
            ground (arith, string_key.beq_iff e.0 value, ap (λ (j : String). find j m)),
          )
    ]

in_some-from :
    (start end id value : String) (m : Index)
    → in_range start end value ≡ true
    → contains id (records_or_empty (find value m)) ≡ true
    → in_some start end id m ≡ true
unfolding find
in_some-from start end id value [] h k = k
in_some-from start end id value (e ∷ m) h k = ground (
  arith,
  in_some-from start end id value m h,
  string_key.beq_iff e.0 value,
  ap (λ (j : String). in_range start end j),
)

or_false : (b : Bool) → (b || false) ≡ b
or_false true = refl
or_false false = refl

gathered :
    (start end id : String) (m : Index)
    → contains id (gather start end m []) ≡ in_some start end id m
unfolding find
gathered start end id m = contains-gather start end id m [] ∙ or_false (in_some start end id m)

-- After any calls on a new indexer, a query of a range of values finds a record exactly if some value
-- between the two ends, those included, has that record filed under it.
pub query_range_iff :
    (cs : List Call) (name start end id : String)
    → let s = run new_indexer cs in
      (contains id (query_range s name start end) ≡ true)
      ↔ ((value : String) × (in_range start end value ≡ true) × (holds s name value id ≡ true))
unfolding query_range query_index new_indexer find
query_range_iff cs name start end id =
    let s = run new_indexer cs in
    let m = index_or_empty (find name s.indices) in
    let ordered = run-IsSorted new_indexer cs (record { names = tt; values = λ n. tt }) in
    (
      λ h.
          let (value, inside, has) =
            in_some-to start end id m (ordered.values name) (rw (← gathered start end id m) h) in
          (value, inside, rw (query-eq (find name s.indices) value) has),
      λ (value, inside, has). rw (gathered start end id m) (
          in_some-from start end id value m inside
            (rw (← query-eq (find name s.indices) value) has)),
    )
