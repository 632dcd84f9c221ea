-- ===== src/Store/Reads.antt =====
-- What the store holds under a key after a call, and in a range.
use blackstone.Prelude.{
  String, ◌≡◌, refl, Option, none, some, List, [], ◌∷◌, ◌++◌, arith, if◌then◌else◌, All, is_some,
  ap, ◌∙◌, Bool-cases, inl, inr,
}
use blackstone.Map.{
  ◌==◌, Map, find, insert, string_key, find-insert, find-erase, IsMap, insert-IsMap, erase-IsMap,
}
use blackstone.Store.{
  KeyValueStore, new_store, put, text_of, get, remove, has, put_all, batch_put, in_range,
  copy_range, get_range, keys_of, add_index, get_by_index, clear, Call, puts, adds_index, removes,
  puts_all, clears, step, run,
}

abbrev pub or_else : Option String → Option String → Option String
or_else none o = o
or_else (some v) o = some v

or_else-none : (o : Option String) → or_else o none ≡ o
or_else-none none = refl
or_else-none (some v) = refl

-- What a key reads after a call, from what it read before.
abbrev pub written : Call → String → Option String → Option String
written (puts key value) k o = if key == k then some value else o
written (adds_index name key) k o = o
written (removes key) k o = if key == k then none else o
written (puts_all items) k o = or_else (find k items) o
written clears k o = none

abbrev pub IsBatch : Call → Type 0
IsBatch (puts_all items) = IsMap items
IsBatch _ = Unit

find-put_all :
    (k : String) (items m : Map String String)
    → IsMap items
    → find k (put_all items m) ≡ or_else (find k items) (find k m)
unfolding put_all find
find-put_all k [] m h = refl
find-put_all k (e ∷ items) m h = ground (
  arith,
  find-put_all k items (insert e.0 e.1 m) h.1,
  find-insert e.0 k e.1 m,
  string_key.beq_iff e.0 k,
)

-- The keys of an index after a call, from those before it.
abbrev pub listed : Call → String → List String → List String
listed (adds_index name key) n keys = if name == n then keys ++ key ∷ [] else keys
listed clears n keys = []
listed _ n keys = keys

find-step :
    (s : KeyValueStore) (c : Call) (k : String)
    → IsBatch c
    → find k (step s c).store ≡ written c k (find k s.store)
unfolding step put remove batch_put add_index clear find
find-step s (puts key value) k h = find-insert key k value s.store
find-step s (adds_index name key) k h = refl
find-step s (removes key) k h = find-erase key k s.store
find-step s (puts_all items) k h = find-put_all k items s.store h
find-step s clears k h = refl

by_index-step :
    (s : KeyValueStore) (c : Call) (n : String)
    → get_by_index (step s c) n ≡ listed c n (get_by_index s n)
unfolding step put remove batch_put add_index clear get_by_index find
by_index-step s (puts key value) n = refl
by_index-step s (adds_index name key) n = ground (
  arith,
  find-insert name n (keys_of (find name s.indexes) ++ key ∷ []) s.indexes,
  string_key.beq_iff name n,
)
by_index-step s (removes key) n = refl
by_index-step s (puts_all items) n = refl
by_index-step s clears n = refl

-- What a key reads after calls, from what it read before: each call in turn.
abbrev pub written_all : List Call → String → Option String → Option String
written_all [] k o = o
written_all (c ∷ cs) k o = written_all cs k (written c k o)

abbrev pub listed_all : List Call → String → List String → List String
listed_all [] n keys = keys
listed_all (c ∷ cs) n keys = listed_all cs n (listed c n keys)

find-run :
    (s : KeyValueStore) (cs : List Call) (k : String)
    → All IsBatch cs
    → find k (run s cs).store ≡ written_all cs k (find k s.store)
unfolding run
find-run s [] k h = refl
find-run s (c ∷ cs) k (h, hs) =
    find-run (step s c) cs k hs ∙ ap (written_all cs k) (find-step s c k h)

by_index-run :
    (s : KeyValueStore) (cs : List Call) (n : String)
    → get_by_index (run s cs) n ≡ listed_all cs n (get_by_index s n)
unfolding run
by_index-run s [] n = refl
by_index-run s (c ∷ cs) n =
    by_index-run (step s c) cs n ∙ ap (listed_all cs n) (by_index-step s c n)

-- After any calls on a new store whose batches name no key twice, each key reads what the last
-- call that concerned it wrote, and nothing if that was a removal or a clearing; a batch writes
-- its items. An index holds the keys added to it since the last clearing, in order, those removed
-- from the store too.
pub run-written :
    (cs : List Call) (k : String)
    → All IsBatch cs
    → (get (run new_store cs) k ≡ text_of (written_all cs k none))
      × (has (run new_store cs) k ≡ is_some (written_all cs k none))
      × (get_by_index (run new_store cs) k ≡ listed_all cs k [])
unfolding get has get_by_index new_store find
run-written cs k h = (
  ap text_of (find-run new_store cs k h),
  ap is_some (find-run new_store cs k h),
  by_index-run new_store cs k,
)

find-copy_range :
    (start end k : String) (m result : Map String String)
    → IsMap m
    → find k (copy_range start end m result)
      ≡ or_else (if in_range start end k then find k m else none) (find k result)
unfolding copy_range find
find-copy_range start end k [] result h = ground arith
find-copy_range start end k (e ∷ m) result h = elim (Bool-cases (in_range start end e.0)) [
  | inl inside ↦ ground (
    arith,
    find-copy_range start end k m (insert e.0 e.1 result) h.1,
    find-insert e.0 k e.1 result,
    string_key.beq_iff e.0 k,
    ap (λ (j : String). in_range start end j),
  )
  | inr outside ↦ ground (
    arith,
    find-copy_range start end k m result h.1,
    string_key.beq_iff e.0 k,
    ap (λ (j : String). in_range start end j),
  )
]

put_all-IsMap : (items m : Map String String) → IsMap m → IsMap (put_all items m)
unfolding put_all
put_all-IsMap [] m h = h
put_all-IsMap (e ∷ items) m h = put_all-IsMap items (insert e.0 e.1 m) (insert-IsMap e.0 e.1 m h)

step-IsMap : (s : KeyValueStore) (c : Call) → IsMap s.store → IsMap (step s c).store
unfolding step put remove batch_put add_index clear
step-IsMap s (puts key value) h = insert-IsMap key value s.store h
step-IsMap s (adds_index name key) h = h
step-IsMap s (removes key) h = erase-IsMap key s.store h
step-IsMap s (puts_all items) h = put_all-IsMap items s.store h
step-IsMap s clears h = tt

run-IsMap : (s : KeyValueStore) (cs : List Call) → IsMap s.store → IsMap (run s cs).store
unfolding run
run-IsMap s [] h = h
run-IsMap s (c ∷ cs) h = run-IsMap (step s c) cs (step-IsMap s c h)

-- After any calls on a new store, a range holds exactly the keys of the store between its two ends,
-- those included, each with what it reads in the store.
pub get_range-run :
    (cs : List Call) (start end k : String)
    → let s = run new_store cs in
      find k (get_range s start end) ≡ (if in_range start end k then find k s.store else none)
unfolding get_range new_store find
get_range-run cs start end k =
    let s = run new_store cs in
    find-copy_range start end k s.store [] (run-IsMap new_store cs tt) ∙ or_else-none _
