-- ===== src/Peers.antt =====
-- p2p_banking_system/network/peer_manager.h and peer_manager.cpp. Every method holds the manager's
-- mutex. `now` is what `getTimestampMs` returns. A `std::set` is a map to the unit type.
pub mod Bans
pub mod Growth
mod Tests
use blackstone.Prelude.{
  ℕ, ◌+◌, ◌/◌, ◌^◌, String, Bool, true, false, not, ◌&&◌, Option, none, some, List, [], ◌∷◌, ltb,
  leb, if◌then◌else◌, length, keep_if, map,
}
use blackstone.Prelude.Words.{add64, sub64}
use blackstone.Prelude.Int.{ℤ, pos, negsuc, pos_part, neg_part, ◌+ℤ◌, ltb_ℤ}
use blackstone.Map.{Key, ◌==◌, Map, find, contains, insert, erase, string_key, retain}

pub record PeerInfo : Type 0 where
  pub peer_id : String
  pub address : String
  pub port : ℤ
  pub last_seen : ℕ
  pub latency : ℕ
  pub score : ℤ
  pub is_active : Bool
  pub version : String

pub record PeerManager : Type 0 where
  pub known_peers : Map String PeerInfo
  pub banned_peers : Map String (Unit {0})
  pub max_peers : ℕ

pub new_manager : ℕ → PeerManager
new_manager max = record { known_peers = []; banned_peers = []; max_peers = max }

abbrev pub no_peer : PeerInfo
no_peer = record {
  peer_id = "";
  address = "";
  port = pos 0;
  last_seen = 0;
  latency = 0;
  score = pos 0;
  is_active = false;
  version = "";
}

abbrev pub new_peer : String → String → ℤ → ℕ → PeerInfo
new_peer id address port now = record {
  peer_id = id;
  address = address;
  port = port;
  last_seen = now;
  latency = 0;
  score = pos 0;
  is_active = true;
  version = "";
}

-- The loop that makes room: the first entry that is not active goes.
pub evict : Map String PeerInfo → Map String PeerInfo
evict [] = []
evict (e ∷ m) = let rest = evict m in if not e.1.is_active then m else e ∷ rest

abbrev pub welcome : String → String → ℤ → ℕ → Option PeerInfo → PeerInfo
welcome id address port now none = new_peer id address port now
welcome id address port now (some p) = record p {
  address = address;
  port = port;
  last_seen = now;
  is_active = true;
}

pub add_peer : String → String → ℤ → ℕ → PeerManager → PeerManager
unfolding evict
add_peer id address port now s =
    let m = if leb s.max_peers (length s.known_peers) then evict s.known_peers else s.known_peers in
    if contains id s.banned_peers
    then s
    else record s { known_peers = insert id (welcome id address port now (find id m)) m }

pub remove_peer : String → PeerManager → PeerManager
remove_peer id s = record s { known_peers = erase id s.known_peers }

abbrev pub update : String → (PeerInfo → PeerInfo) → PeerManager → Option PeerInfo → PeerManager
update id f s none = s
update id f s (some p) = record s { known_peers = insert id (f p) s.known_peers }

abbrev pub seen : ℕ → PeerInfo → PeerInfo
seen now p = record p { last_seen = now; is_active = true }

pub update_peer_seen : String → ℕ → PeerManager → PeerManager
update_peer_seen id now s = update id (seen now) s (find id s.known_peers)

abbrev pub averaged : ℕ → PeerInfo → PeerInfo
averaged latency p = record p { latency = add64 p.latency latency / 2 }

pub update_peer_latency : String → ℕ → PeerManager → PeerManager
update_peer_latency id latency s = update id (averaged latency) s (find id s.known_peers)

abbrev pub is_int : ℤ → Bool
is_int n = ltb (pos_part n) (2 ^ 31) && leb (neg_part n) (2 ^ 31)

abbrev pub scored : ℤ → PeerInfo → PeerInfo
scored delta p = record p { score = p.score +ℤ delta }

-- The call is undefined, `none`, where the sum leaves the range of `int`, and where the score is so
-- low that the peer is to be banned: `banPeer` then locks the mutex that this call holds.
abbrev pub adjust : String → ℤ → PeerManager → Option PeerInfo → Option PeerManager
adjust id delta s none = some s
adjust id delta s (some p) =
    if is_int (p.score +ℤ delta) && not (ltb_ℤ (p.score +ℤ delta) (negsuc 99))
    then some (update id (scored delta) s (some p))
    else none

pub adjust_peer_score : String → ℤ → PeerManager → Option PeerManager
adjust_peer_score id delta s = adjust id delta s (find id s.known_peers)

pub ban_peer : String → PeerManager → PeerManager
ban_peer id s = record s {
  known_peers = erase id s.known_peers;
  banned_peers = insert id tt s.banned_peers;
}

pub unban_peer : String → PeerManager → PeerManager
unban_peer id s = record s { banned_peers = erase id s.banned_peers }

pub is_banned : PeerManager → String → Bool
is_banned s id = contains id s.banned_peers

abbrev pub peer_or_none : Option PeerInfo → PeerInfo
peer_or_none none = no_peer
peer_or_none (some p) = p

pub get_peer : PeerManager → String → PeerInfo
get_peer s id = peer_or_none (find id s.known_peers)

abbrev pub info_of : String × PeerInfo → PeerInfo
info_of e = e.1

abbrev pub is_live : PeerInfo → Bool
is_live p = p.is_active

pub get_active_peers : PeerManager → List PeerInfo
get_active_peers s = keep_if is_live (map info_of s.known_peers)

pub get_peer_count : PeerManager → ℕ
get_peer_count s = length s.known_peers

abbrev pub is_recent : ℕ → ℕ → PeerInfo → Bool
is_recent max_inactive now p = not (ltb max_inactive (sub64 now p.last_seen))

pub cleanup_inactive_peers : ℕ → ℕ → PeerManager → PeerManager
cleanup_inactive_peers max_inactive now s = record s {
  known_peers = retain (is_recent max_inactive now) s.known_peers;
}

-- What `std::getline`, `std::stoi` and `std::stoull` make of one part of a text: `none` is a throw. A
-- part that is empty has an empty id.
pub record PeerEntry : Type 0 where
  pub entry_id : String
  pub entry_address : String
  pub entry_port : Option ℤ
  pub entry_last_seen : Option ℕ
  pub entry_score : Option ℤ

abbrev pub read_peer : PeerEntry → Option ℤ → Option ℕ → Option ℤ → Option PeerInfo
read_peer e (some port) (some last_seen) (some score) =
    some (record (new_peer e.entry_id e.entry_address port last_seen) { score = score })
read_peer e _ _ _ = none

abbrev pub put_peer : PeerEntry → PeerManager → Option PeerInfo → Option PeerManager
put_peer e s none = none
put_peer e s (some p) = some (record s { known_peers = insert e.entry_id p s.known_peers })

-- One round of the loop, `none` if it throws.
abbrev pub load_peer : PeerEntry → PeerManager → Option PeerManager
load_peer e s =
    if not (e.entry_id == "") && not (e.entry_address == "")
    then put_peer e s (read_peer e e.entry_port e.entry_last_seen e.entry_score)
    else some s

-- A throw ends the loop and leaves what was put in before. Nobody asks whether a peer is banned.
pub deserialize : List PeerEntry → PeerManager → PeerManager
deserialize [] s = s
deserialize (e ∷ es) s = elim (load_peer e s) [ none ↦ s | some s' ↦ deserialize es s' ]

pub data Call : Type 0 where
  adds : (id address : String) (port : ℤ) (now : ℕ) → Call
  removes bans unbans : String → Call
  sees : (id : String) (now : ℕ) → Call
  times : (id : String) (latency : ℕ) → Call
  scores : (id : String) (delta : ℤ) → Call
  cleans : (max_inactive now : ℕ) → Call
  loads : List PeerEntry → Call

pub step : PeerManager → Call → Option PeerManager
unfolding deserialize
step s (adds id address port now) = some (add_peer id address port now s)
step s (removes id) = some (remove_peer id s)
step s (bans id) = some (ban_peer id s)
step s (unbans id) = some (unban_peer id s)
step s (sees id now) = some (update_peer_seen id now s)
step s (times id latency) = some (update_peer_latency id latency s)
step s (scores id delta) = adjust_peer_score id delta s
step s (cleans max_inactive now) = some (cleanup_inactive_peers max_inactive now s)
step s (loads es) = some (deserialize es s)

-- `none` once a call was undefined.
pub run : Option PeerManager → List Call → Option PeerManager
unfolding step
run none cs = none
run (some s) [] = some s
run (some s) (c ∷ cs) = run (step s c) cs
