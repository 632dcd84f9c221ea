-- ===== src/Connections/Idle.antt =====
-- Which connections a call reaches, and which ones the cleanup of idle connections closes.
use mathlib.Core.List.{append-nil, append_assoc}
use blackstone.Prelude.{
  ℕ, String, ◌<◌, ◌≡◌, sym, false, none, some, List, [], ◌∷◌, ◌++◌, arith, leb, if◌then◌else◌,
  length, keep_if, map, Bool-cases, inl, inr, ◌∙◌, if_not,
}
use blackstone.Prelude.Words.{word, elapsed_over, elapsed_over_lem}
use blackstone.Map.{
  Map, find, insert, string_key, find-insert_self, find-erase_self, find-retain, find-insert,
  find-erase, ◌==◌,
}
use blackstone.Connections.{
  Connection, ConnectionPool, add_connection, remove_connection, acquire_connection, has_connection,
  size, is_idle, sweep, cleanup_idle_connections, socket_of, new_connection,
}
use blackstone.Connections.Counts.{IsSound, stays, sweep-stay}

sweep-closed :
    (timeout now : ℕ) (m : Map String Connection) (count : ℕ) (closed : List ℕ)
    → (sweep timeout now m count closed).2
      ≡ closed ++ map socket_of (keep_if (λ e. is_idle timeout now e.1) m)
unfolding sweep
sweep-closed timeout now [] count closed = sym (append-nil closed)
sweep-closed timeout now (e ∷ m) count closed = elim (Bool-cases (is_idle timeout now e.1)) [
  | inl idle ↦ rw idle (
      sweep-closed timeout now m _ (closed ++ e.1.socket ∷ [])
      ∙ append_assoc closed (e.1.socket ∷ []) _)
  | inr busy ↦ rw busy (sweep-closed timeout now m count closed)
]

-- In a sound pool, at times below 2^64, the cleanup keeps a connection as it is unless more than
-- the timeout has passed since its last use, and then removes it. A clock that has gone back by d
-- counts as 2^64 - d having passed. The sockets closed are those of the connections that are
-- removed, in the order of their peers.
pub cleanup_idle_connections_keeps :
    (p : ConnectionPool) (timeout now : ℕ) (id : String) (c : Connection)
    → IsSound p
    → find id p.connections ≡ some c
    → c.last_used < word
    → now < word
    → let (p', closed) = cleanup_idle_connections p timeout now in
      (find id p'.connections ≡ (if elapsed_over timeout c.last_used now then none else some c))
      × (closed ≡ map socket_of (keep_if (λ e. is_idle timeout now e.1) p.connections))
unfolding cleanup_idle_connections
cleanup_idle_connections_keeps p timeout now id c v at h k = (
  rw (sweep-stay timeout now p.connections p.active_count []) (
      rw (find-retain (stays timeout now) id p.connections v.unique, at)
        (rw (elapsed_over_lem timeout c.last_used now h k)
          (if_not (elapsed_over timeout c.last_used now) (some c) none))),
  sweep-closed timeout now p.connections p.active_count [],
)

-- A connection that is added is the one that its peer acquires, whatever socket stood there before,
-- and no other peer's; one that is removed is closed, and its peer acquires none.
pub acquire_after :
    (p : ConnectionPool) (id other : String) (sock t u : ℕ)
    → size p < p.max_connections
    → let added = (add_connection p id sock t).0 in
      let (removed, was, closed) = remove_connection added id in
      ((acquire_connection added id u).1 ≡ some sock)
      × ((acquire_connection removed id u).1 ≡ none)
      × (closed ≡ sock ∷ [])
      × (has_connection removed other ≡ (if id == other then false else has_connection p other))
unfolding add_connection remove_connection acquire_connection has_connection size
acquire_after p id other sock t u room =
    let fits : leb p.max_connections (length p.connections) ≡ false = ground arith in
    let c = new_connection id sock t in
    let m = insert id c p.connections in
    let here = find-insert_self id c p.connections in
    rw fits (
      rw here,
      rw here (rw (find-erase_self id m)),
      rw here,
      rw here (rw (find-erase id other m) (ground (arith, find-insert id other c p.connections))),
    )
