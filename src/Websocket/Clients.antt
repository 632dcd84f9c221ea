-- ===== src/Websocket/Clients.antt =====
-- p2p_banking_system/api/websocket.cpp: the clients of `WebSocketServer` and what is sent to them. A
-- socket is a number, and what a call sends is the list of sockets and messages, in order. Handlers,
-- threads and the listening socket are left out.
pub mod Paired
use blackstone.Prelude.{
  ℕ, String, Bool, false, ◌≡◌, Option, none, some, List, [], ◌∷◌, map, length, if◌then◌else◌,
}
use blackstone.Map.{Map, ◌==◌, string_key, nat_key, find, insert, erase}

pub record Server : Type 0 where
  pub clients : Map ℕ String
  pub client_sockets : Map String ℕ
  pub client_topics : Map String String

abbrev pub no_clients : Server
no_clients = record { clients = []; client_sockets = []; client_topics = [] }

abbrev pub Sends : Type 0
Sends = List (ℕ × String)

-- `handleClient`, before and after its loop.
pub register : ℕ → String → Server → Server
register sock id s = record s {
  clients = insert sock id s.clients;
  client_sockets = insert id sock s.client_sockets;
}

pub unregister : ℕ → String → Server → Server
unregister sock id s = record {
  clients = erase sock s.clients;
  client_sockets = erase id s.client_sockets;
  client_topics = erase id s.client_topics;
}

pub stop : Server → Server
stop s = record s { clients = []; client_sockets = [] }

pub broadcast : String → Server → Sends
broadcast text s = map (λ e. (e.0, text)) s.clients

abbrev pub to_socket : String → Option ℕ → Sends
to_socket text none = []
to_socket text (some sock) = (sock, text) ∷ []

pub send_to : String → String → Server → Sends
send_to id text s = to_socket text (find id s.client_sockets)

abbrev pub add_send : String → Option ℕ → Sends → Sends
add_send text none rest = rest
add_send text (some sock) rest = (sock, text) ∷ rest

pub send_topic : String → String → Map String ℕ → Map String String → Sends
send_topic topic text sockets [] = []
send_topic topic text sockets (e ∷ m) =
    let rest = send_topic topic text sockets m in
    if e.1 == topic then add_send text (find e.0 sockets) rest else rest

pub send_to_topic : String → String → Server → Sends
unfolding send_topic
send_to_topic topic text s = send_topic topic text s.client_sockets s.client_topics

pub subscribe : String → String → Server → Server
subscribe id topic s = record s { client_topics = insert id topic s.client_topics }

abbrev pub has_topic : String → Option String → Bool
has_topic topic none = false
has_topic topic (some t) = t == topic

pub unsubscribe : String → String → Server → Server
unsubscribe id topic s =
    if has_topic topic (find id s.client_topics)
    then record s { client_topics = erase id s.client_topics }
    else s

pub get_connected_clients : Server → List String
get_connected_clients s = map (λ e. e.1) s.clients

pub get_client_count : Server → ℕ
get_client_count s = length s.clients

-- The calls of the server's threads, in the order in which they take the mutex. A socket that is
-- accepted is in no entry, and an id of a new client is in no entry either, which is what the hash
-- of the time and the socket is for.
pub data Step : Server → Server → Type 0 where
  registers :
      (sock : ℕ) (id : String) (s : Server)
      → find sock s.clients ≡ none
      → find id s.client_sockets ≡ none
      → Step s (register sock id s)
  unregisters :
      (sock : ℕ) (id : String) (s : Server)
      → find sock s.clients ≡ some id
      → Step s (unregister sock id s)
  subscribes : (id topic : String) (s : Server) → Step s (subscribe id topic s)
  unsubscribes : (id topic : String) (s : Server) → Step s (unsubscribe id topic s)

pub data Reach : Server → Type 0 where
  no_calls : Reach no_clients
  next : {s t : Server} → Reach s → Step s t → Reach t
