-- ===== src/Connections/Tests.antt =====
-- Runs of the connection pool and the limiter, and their theorems at inputs that meet their
-- hypotheses.
use blackstone.Prelude.{
  ◌≡◌, refl, true, none, some, List, [], ◌∷◌, arith, length, keep_if, map, take, if◌then◌else◌,
}
use blackstone.Prelude.Words.{elapsed_over}
use blackstone.Map.{find, insert, place, replace, string_key}
use blackstone.Connections.{
  Connection, ConnectionPool, adds, step, add_connection, remove_connection, acquire_connection,
  has_connection, cleanup_idle_connections, size, is_idle, socket_of,
}
use blackstone.Connections.Counts.{IsSound, IsKept, re_adds, step-IsKept}
use blackstone.Connections.Idle.{cleanup_idle_connections_keeps, acquire_after}
use blackstone.Connections.Limiter.{
  Event, asks, reports, closes, new_limiter, new_server, run, step as server_step, get_total_count,
  total_from, allow_connection, connection_established,
}
use blackstone.Connections.Limiter.Within.{IsWithin, run-IsWithin}

abbrev alice : Connection
alice = record {
  socket = 7;
  peer_id = "alice";
  created_at = 100;
  last_used = 500;
  is_active = true;
}

abbrev bob : Connection
bob = record { socket = 8; peer_id = "bob"; created_at = 100; last_used = 900; is_active = true }

abbrev pool : ConnectionPool
pool = record {
  connections = ("alice", alice) ∷ ("bob", bob) ∷ [];
  available = "alice" ∷ "bob" ∷ [];
  max_connections = 3;
  active_count = 2;
}

pool-IsSound : IsSound pool
unfolding find
pool-IsSound = record {
  unique = (refl, (refl, tt));
  bounded = omega arith;
  small = omega arith;
  counted = refl;
}

step-IsKept_at : IsKept (step pool (adds "alice" 9 1000)) (re_adds pool (adds "alice" 9 1000))
step-IsKept_at = step-IsKept pool (adds "alice" 9 1000) pool-IsSound

-- The peer was there already: two connections, a count of three, and socket 7 is not closed.
re-add :
    let q = step pool (adds "alice" 9 1000) in (q.active_count ≡ 3) × (length q.connections ≡ 2)
unfolding step add_connection insert find place replace
re-add = (refl, refl)

cleanup_idle_connections_keeps_at :
    let (p, closed) = cleanup_idle_connections pool 300 1000 in
    (find "alice" p.connections ≡ (if elapsed_over 300 500 1000 then none else some alice))
    × (closed ≡ map socket_of (keep_if (λ e. is_idle 300 1000 e.1) pool.connections))
unfolding find
cleanup_idle_connections_keeps_at =
    cleanup_idle_connections_keeps pool 300 1000 "alice" alice pool-IsSound refl (omega arith)
      (omega arith)

added_then_acquired :
    let added = (add_connection pool "carol" 9 1000).0 in
    let (removed, was, closed) = remove_connection added "carol" in
    ((acquire_connection added "carol" 1001).1 ≡ some 9)
    × ((acquire_connection removed "carol" 1001).1 ≡ none)
    × (closed ≡ 9 ∷ [])
    × (has_connection removed "bob" ≡ has_connection pool "bob")
unfolding size
added_then_acquired = acquire_after pool "carol" "bob" 9 1000 1001 (omega arith)

-- Two threads, which both ask before either reports: with room for one connection both are let in.
abbrev events : List Event
events = asks 0 "a" ∷ asks 1 "a" ∷ reports 0 ∷ reports 1 ∷ asks 0 "b" ∷ closes "a" ∷ []

run-IsWithin_example : IsWithin 1 1 1 (run (new_server (new_limiter 1 1) 2) events)
run-IsWithin_example = run-IsWithin 1 1 1 (omega arith) events

two_counted : get_total_count (run (new_server (new_limiter 1 1) 2) (take 4 events)).limiter ≡ 2
unfolding run server_step new_limiter allow_connection connection_established get_total_count
    total_from find insert place replace
two_counted = refl
