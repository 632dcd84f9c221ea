-- ===== src/Connections/Counts.antt =====
-- The number of connections, its limit, and the counter beside it.
use blackstone.Prelude.{
  ℕ, String, ◌+◌, ◌%◌, ◌≤◌, ◌<◌, ◌≡◌, refl, Bool, true, false, not, ◌&&◌, Option, none, some, List,
  [], ◌∷◌, ◌++◌, arith, ltb, leb, length, to_nat, Bool-cases, inl, inr, ap,
}
use blackstone.Prelude.Words.{word, dec64}
use blackstone.Map.{
  Map, find, insert, erase, string_key, IsMap, length-insert, length-erase, insert-IsMap,
  erase-IsMap, retain, retain-IsMap,
}
use blackstone.Connections.{
  Connection, ConnectionPool, add_connection, remove_connection, remove_found, get_connection,
  get_found, acquire_connection, acquire_found, release_connection, release_found, has_connection,
  size, is_idle, sweep, cleanup_idle_connections, close_all, new_connection, Call, adds, removes,
  gets, acquires, releases, cleans, closes, step,
}

pub record IsSound (p : ConnectionPool) : Type 0 where
  pub unique : IsMap p.connections
  pub bounded : length p.connections ≤ p.max_connections
  pub small : p.max_connections < word
  pub counted : p.active_count ≡ length p.connections

abbrev pub stays : ℕ → ℕ → Connection → Bool
stays timeout now c = not (is_idle timeout now c)

pub sweep-stay :
    (timeout now : ℕ) (m : Map String Connection) (count : ℕ) (closed : List ℕ)
    → (sweep timeout now m count closed).0 ≡ retain (stays timeout now) m
unfolding sweep
sweep-stay timeout now [] count closed = refl
sweep-stay timeout now (e ∷ m) count closed = elim (Bool-cases (is_idle timeout now e.1)) [
  | inl idle ↦ rw idle (sweep-stay timeout now m _ _)
  | inr busy ↦ rw busy (ap (◌∷◌ e) (sweep-stay timeout now m _ _))
]

sweep-count :
    (timeout now : ℕ) (m : Map String Connection) (count : ℕ) (closed : List ℕ)
    → length m ≤ count
    → count < word
    → (sweep timeout now m count closed).1 + length m
      ≡ count + length (retain (stays timeout now) m)
unfolding sweep
sweep-count timeout now [] count closed h k = omega arith
sweep-count timeout now (e ∷ m) count closed h k = elim (Bool-cases (is_idle timeout now e.1)) [
  | inl idle ↦
      rw idle (omega (arith, sweep-count timeout now m (dec64 count) (closed ++ e.1.socket ∷ [])))
  | inr busy ↦ rw busy (omega (arith, sweep-count timeout now m count closed))
]

length-retain-le :
    (p : Connection → Bool) (m : Map String Connection) → length (retain p m) ≤ length m
length-retain-le p [] = omega arith
length-retain-le p (e ∷ m) = ground (arith, length-retain-le p m)

-- Adding a peer that is there already, when there is room.
abbrev pub re_adds : ConnectionPool → Call → Bool
re_adds p (adds id sock now) = ltb (size p) p.max_connections && has_connection p id
re_adds p _ = false

abbrev pub IsKept : ConnectionPool → Bool → Type 0
IsKept q again =
    IsMap q.connections
    × (length q.connections ≤ q.max_connections)
    × (q.max_connections < word)
    × (q.active_count ≡ (length q.connections + to_nat again) % word)

-- A write to an entry that is there.
rewrite-IsKept :
    (p : ConnectionPool) (id : String) (c d : Connection) (queue : List String)
    → IsSound p
    → find id p.connections ≡ some c
    → IsKept (record p { connections = insert id d p.connections; available = queue }) false
rewrite-IsKept p id c d queue v e = (
  insert-IsMap id d p.connections v.unique,
  rw (length-insert id d p.connections, e) v.bounded,
  v.small,
  rw (length-insert id d p.connections, e) (omega (arith, v.counted, v.bounded, v.small)),
)

sound-IsKept : (p : ConnectionPool) → IsSound p → IsKept p false
sound-IsKept p v = (v.unique, v.bounded, v.small, omega (arith, v.counted, v.bounded, v.small))

add-IsKept :
    (p : ConnectionPool) (id : String) (sock now : ℕ)
    → IsSound p
    → IsKept (add_connection p id sock now).0 (re_adds p (adds id sock now))
unfolding add_connection size has_connection
add-IsKept p id sock now v = elim (Bool-cases (leb p.max_connections (length p.connections))) [
  | inl full ↦ rw full (ground (arith, sound-IsKept p v))
  | inr room ↦
      let fits : ltb (length p.connections) p.max_connections ≡ true = ground arith in
      rw (room, fits)
        (
          insert-IsMap id (new_connection id sock now) p.connections v.unique,
          rw (length-insert id (new_connection id sock now) p.connections)
              (ground (arith, v.bounded)),
          v.small,
          rw (length-insert id (new_connection id sock now) p.connections)
              (ground (arith, v.counted, v.bounded, v.small)),
        )
]

remove-IsKept :
    (p : ConnectionPool) (id : String) (o : Option Connection)
    → IsSound p
    → find id p.connections ≡ o
    → IsKept (remove_found p id o).0 false
remove-IsKept p id none v e = sound-IsKept p v
remove-IsKept p id (some c) v e =
    let fewer : length (erase id p.connections) + 1 ≡ length p.connections =
      ground (arith, length-erase id p.connections v.unique) in
    (
      erase-IsMap id p.connections v.unique,
      omega (arith, v.bounded),
      v.small,
      omega (arith, v.counted, v.bounded, v.small),
    )

get-IsKept :
    (p : ConnectionPool) (id : String) (now : ℕ) (o : Option Connection)
    → IsSound p
    → find id p.connections ≡ o
    → IsKept (get_found p id now o).0 false
get-IsKept p id now none v e = sound-IsKept p v
get-IsKept p id now (some c) v e = rewrite-IsKept p id c _ p.available v e

acquire-IsKept :
    (p : ConnectionPool) (id : String) (now : ℕ) (o : Option Connection)
    → IsSound p
    → find id p.connections ≡ o
    → IsKept (acquire_found p id now o).0 false
acquire-IsKept p id now none v e = sound-IsKept p v
acquire-IsKept p id now (some c) v e = elim (Bool-cases c.is_active) [
  | inl up ↦ rw up (rewrite-IsKept p id c _ p.available v e)
  | inr down ↦ rw down (sound-IsKept p v)
]

release-IsKept :
    (p : ConnectionPool) (id : String) (now : ℕ) (o : Option Connection)
    → IsSound p
    → find id p.connections ≡ o
    → IsKept (release_found p id now o) false
release-IsKept p id now none v e = sound-IsKept p v
release-IsKept p id now (some c) v e = rewrite-IsKept p id c _ (p.available ++ id ∷ []) v e

cleanup-IsKept :
    (p : ConnectionPool) (timeout now : ℕ)
    → IsSound p
    → IsKept (cleanup_idle_connections p timeout now).0 false
unfolding cleanup_idle_connections
cleanup-IsKept p timeout now v =
    let m = p.connections in
    let count =
      sweep-count timeout now m p.active_count [] (omega (arith, v.counted))
        (omega (arith, v.counted, v.bounded, v.small)) in
    let fewer = length-retain-le (stays timeout now) m in
    rw (sweep-stay timeout now m p.active_count []) (
      retain-IsMap (stays timeout now) m v.unique,
      omega (arith, v.bounded, fewer),
      v.small,
      omega (arith, count, fewer, v.counted, v.bounded, v.small),
    )

-- Each call on a sound pool keeps the connections within their limit and under distinct keys, and
-- `activeCount` their number, except that adding a peer that is already there, when there is
-- room, makes it one more.
pub step-IsKept : (p : ConnectionPool) (c : Call) → IsSound p → IsKept (step p c) (re_adds p c)
unfolding step remove_connection get_connection acquire_connection release_connection close_all
step-IsKept p (adds id sock now) v = add-IsKept p id sock now v
step-IsKept p (removes id) v = remove-IsKept p id (find id p.connections) v refl
step-IsKept p (gets id now) v = get-IsKept p id now (find id p.connections) v refl
step-IsKept p (acquires id now) v = acquire-IsKept p id now (find id p.connections) v refl
step-IsKept p (releases id now) v = release-IsKept p id now (find id p.connections) v refl
step-IsKept p (cleans timeout now) v = cleanup-IsKept p timeout now v
step-IsKept p closes v = (tt, omega arith, v.small, omega arith)
