-- ===== src/Websocket/Clients/Paired.antt =====
-- p2p_banking_system/api/websocket.cpp: the two maps of the server are inverse to each other.
use blackstone.Prelude.{
  ℕ, String, Bool, true, false, ◌||◌, ◌≡◌, ◌↔◌, refl, ap, Option, none, some, [], ◌∷◌, arith,
  if_both,
}
use blackstone.Map.{
  Map, ◌==◌, string_key, nat_key, find, IsMap, find-insert, find-erase, insert-IsMap, erase-IsMap,
}
use blackstone.Websocket.Clients.{
  Server, Sends, register, unregister, subscribe, unsubscribe, send_to, to_socket, add_send,
  send_topic, send_to_topic, has_topic, Step, registers, unregisters, subscribes, unsubscribes,
  Reach, no_calls, next,
}

abbrev IsPaired : Server → Type 0
IsPaired s =
    ((sock : ℕ) (id : String)
      → (find sock s.clients ≡ some id) ↔ (find id s.client_sockets ≡ some sock))
    × IsMap s.client_topics

Step-IsPaired : {s t : Server} → Step s t → IsPaired s → IsPaired t
unfolding register unregister subscribe unsubscribe
Step-IsPaired (registers sock id s h k) p = (
  λ j i.
      rw (find-insert sock j id s.clients, find-insert id i sock s.client_sockets)
        (ground
          (arith, p.0 j i, p.0 sock i, p.0 j id, nat_key.beq_iff sock j, string_key.beq_iff id i)),
  p.1,
)
Step-IsPaired (unregisters sock id s h) p = (
  λ j i.
      rw (find-erase sock j s.clients, find-erase id i s.client_sockets)
        (ground (
          arith,
          p.0 j i,
          p.0 sock i,
          p.0 j id,
          p.0 sock id,
          nat_key.beq_iff sock j,
          string_key.beq_iff id i,
        )),
  erase-IsMap id s.client_topics p.1,
)
Step-IsPaired (subscribes id topic s) p = (p.0, insert-IsMap id topic s.client_topics p.1)
Step-IsPaired (unsubscribes id topic s) p =
    if_both IsPaired (has_topic topic (find id s.client_topics))
      (p.0, erase-IsMap id s.client_topics p.1) p

Reach-IsPaired : {s : Server} → Reach s → IsPaired s
unfolding find
Reach-IsPaired no_calls = (λ sock id. ground arith, tt)
Reach-IsPaired (next r step) = Step-IsPaired step (Reach-IsPaired r)

-- Is something sent to the socket?
abbrev pub reaches : ℕ → Sends → Bool
reaches sock [] = false
reaches sock (e ∷ sends) = e.0 == sock || reaches sock sends

abbrev is_socket : ℕ → Option ℕ → Bool
is_socket sock none = false
is_socket sock (some j) = j == sock

-- Has the client of the socket this topic?
abbrev pub subscribed : String → Map String String → Option String → Bool
subscribed topic topics none = false
subscribed topic topics (some id) = has_topic topic (find id topics)

abbrev pub is_client : String → Option String → Bool
is_client id none = false
is_client id (some i) = i == id

reaches-add_send :
    (text : String) (sock : ℕ) (o : Option ℕ) (rest : Sends)
    → reaches sock (add_send text o rest) ≡ (is_socket sock o || reaches sock rest)
reaches-add_send text sock none rest = refl
reaches-add_send text sock (some j) rest = refl

is_socket_iff : (sock : ℕ) (o : Option ℕ) → (is_socket sock o ≡ true) ↔ (o ≡ some sock)
is_socket_iff sock none = ground arith
is_socket_iff sock (some j) = ground (arith, nat_key.beq_iff j sock)

send_topic-reaches :
    (topic text : String) (sock : ℕ) (clients : Map ℕ String) (sockets : Map String ℕ)
    (topics : Map String String)
    → ((j : ℕ) (i : String) → (find j clients ≡ some i) ↔ (find i sockets ≡ some j))
    → IsMap topics
    → (o : Option String) → find sock clients ≡ o
    → reaches sock (send_topic topic text sockets topics) ≡ subscribed topic topics o
unfolding send_topic find
send_topic-reaches topic text sock clients sockets [] p h none e = refl
send_topic-reaches topic text sock clients sockets [] p h (some id) e = refl
send_topic-reaches topic text sock clients sockets (t ∷ topics) p h none e = ground (
  arith,
  reaches-add_send text sock (find t.0 sockets) (send_topic topic text sockets topics),
  is_socket_iff sock (find t.0 sockets),
  p sock t.0,
  send_topic-reaches topic text sock clients sockets topics p h.1 none e,
)
send_topic-reaches topic text sock clients sockets (t ∷ topics) p h (some id) e = ground (
  arith,
  reaches-add_send text sock (find t.0 sockets) (send_topic topic text sockets topics),
  is_socket_iff sock (find t.0 sockets),
  p sock t.0,
  p sock id,
  string_key.beq_iff t.0 id,
  ap (λ (k : String). has_topic topic (find k topics)),
  send_topic-reaches topic text sock clients sockets topics p h.1 (some id) e,
)

-- After any calls of the server's threads, where a new client's socket and id are in no entry: a
-- message for a topic reaches exactly the sockets of the clients whose topic is that one, and a
-- message for a client exactly the socket of that client.
pub Reach-reaches :
    {s : Server} (topic id text : String) (sock : ℕ)
    → Reach s
    → (reaches sock (send_to_topic topic text s)
        ≡ subscribed topic s.client_topics (find sock s.clients))
      × (reaches sock (send_to id text s) ≡ is_client id (find sock s.clients))
unfolding send_to_topic send_to
Reach-reaches {s} topic id text sock r =
    let p = Reach-IsPaired r in
    (
      send_topic-reaches topic text sock s.clients s.client_sockets s.client_topics p.0 p.1
          (find sock s.clients) refl,
      one (find sock s.clients) (find id s.client_sockets) (p.0 sock id),
    )
  where
    one :
        (o : Option String) (q : Option ℕ)
        → (o ≡ some id) ↔ (q ≡ some sock)
        → reaches sock (to_socket text q) ≡ is_client id o
    one none none h = refl
    one none (some j) h = ground (arith, nat_key.beq_iff j sock)
    one (some i) none h = ground (arith, string_key.beq_iff i id)
    one (some i) (some j) h = ground (arith, nat_key.beq_iff j sock, string_key.beq_iff i id)
