-- ===== src/Connections.antt =====
-- p2p_banking_system/network/connection_pool.h and connection_pool.cpp. Every method holds the
-- pool's mutex. A socket is the number of its descriptor, `none` is INVALID_SOCKET_T, and a method
-- that closes sockets returns them. `now` is what `getTimestampMs` returns.
pub mod Counts
pub mod Idle
pub mod Limiter
mod Tests
use blackstone.Prelude.{
  ℕ, String, ◌+◌, Bool, true, false, not, ◌&&◌, Option, none, some, List, [], ◌∷◌, ◌++◌, ltb, leb,
  if◌then◌else◌, length, map,
}
use blackstone.Prelude.Words.{inc64, dec64, sub64}
use blackstone.Map.{Map, find, contains, insert, erase, string_key}

pub record Connection : Type 0 where
  pub socket : ℕ
  pub peer_id : String
  pub created_at : ℕ
  pub last_used : ℕ
  pub is_active : Bool

pub record ConnectionPool : Type 0 where
  pub connections : Map String Connection
  pub available : List String
  pub max_connections : ℕ
  pub active_count : ℕ

pub new_pool : ℕ → ConnectionPool
new_pool max = record { connections = []; available = []; max_connections = max; active_count = 0 }

abbrev pub new_connection : String → ℕ → ℕ → Connection
new_connection id sock now = record {
  socket = sock;
  peer_id = id;
  created_at = now;
  last_used = now;
  is_active = true;
}

pub add_connection : ConnectionPool → String → ℕ → ℕ → ConnectionPool × Bool
add_connection p id sock now =
    if leb p.max_connections (length p.connections) then (p, false) else (
      record p {
        connections = insert id (new_connection id sock now) p.connections;
        available = p.available ++ id ∷ [];
        active_count = inc64 p.active_count;
      },
      true,
    )

abbrev pub remove_found :
    ConnectionPool → String → Option Connection → ConnectionPool × Bool × List ℕ
remove_found p id none = (p, false, [])
remove_found p id (some c) = (
  record p { connections = erase id p.connections; active_count = dec64 p.active_count },
  true,
  c.socket ∷ [],
)

pub remove_connection : ConnectionPool → String → ConnectionPool × Bool × List ℕ
remove_connection p id = remove_found p id (find id p.connections)

abbrev pub touch : ConnectionPool → String → Connection → ℕ → ConnectionPool
touch p id c now = record p { connections = insert id (record c { last_used = now }) p.connections }

abbrev pub get_found : ConnectionPool → String → ℕ → Option Connection → ConnectionPool × Option ℕ
get_found p id now none = (p, none)
get_found p id now (some c) = (touch p id c now, some c.socket)

pub get_connection : ConnectionPool → String → ℕ → ConnectionPool × Option ℕ
get_connection p id now = get_found p id now (find id p.connections)

abbrev pub acquire_found :
    ConnectionPool → String → ℕ → Option Connection → ConnectionPool × Option ℕ
acquire_found p id now none = (p, none)
acquire_found p id now (some c) =
    if c.is_active then (touch p id c now, some c.socket) else (p, none)

pub acquire_connection : ConnectionPool → String → ℕ → ConnectionPool × Option ℕ
acquire_connection p id now = acquire_found p id now (find id p.connections)

abbrev pub release_found : ConnectionPool → String → ℕ → Option Connection → ConnectionPool
release_found p id now none = p
release_found p id now (some c) = record p {
  connections = insert id (record c { is_active = true; last_used = now }) p.connections;
  available = p.available ++ id ∷ [];
}

pub release_connection : ConnectionPool → String → ℕ → ConnectionPool
release_connection p id now = release_found p id now (find id p.connections)

pub has_connection : ConnectionPool → String → Bool
has_connection p id = contains id p.connections

pub size : ConnectionPool → ℕ
size p = length p.connections

abbrev pub is_idle : ℕ → ℕ → Connection → Bool
is_idle timeout now c = ltb timeout (sub64 now c.last_used)

-- The loop of `cleanupIdleConnections` over the entries: what stays, the counter, what is closed.
pub sweep : ℕ → ℕ → Map String Connection → ℕ → List ℕ → Map String Connection × ℕ × List ℕ
sweep timeout now [] count closed = ([], count, closed)
sweep timeout now (e ∷ m) count closed =
    let idle = is_idle timeout now e.1 in
    let rest =
      sweep timeout now m (if idle then dec64 count else count)
        (if idle then closed ++ e.1.socket ∷ [] else closed) in
    (if idle then rest.0 else e ∷ rest.0, rest.1, rest.2)

pub cleanup_idle_connections : ConnectionPool → ℕ → ℕ → ConnectionPool × List ℕ
unfolding sweep
cleanup_idle_connections p timeout now =
    let (stay, count, closed) = sweep timeout now p.connections p.active_count [] in
    (record p { connections = stay; active_count = count }, closed)

abbrev pub socket_of : String × Connection → ℕ
socket_of e = e.1.socket

pub close_all : ConnectionPool → ConnectionPool × List ℕ
close_all p =
    (record p { connections = []; available = []; active_count = 0 }, map socket_of p.connections)

pub data Call : Type 0 where
  adds : (id : String) (sock now : ℕ) → Call
  removes : (id : String) → Call
  gets acquires releases : (id : String) (now : ℕ) → Call
  cleans : (timeout now : ℕ) → Call
  closes : Call

pub step : ConnectionPool → Call → ConnectionPool
step p (adds id sock now) = (add_connection p id sock now).0
step p (removes id) = (remove_connection p id).0
step p (gets id now) = (get_connection p id now).0
step p (acquires id now) = (acquire_connection p id now).0
step p (releases id now) = release_connection p id now
step p (cleans timeout now) = (cleanup_idle_connections p timeout now).0
step p closes = (close_all p).0
