-- ===== src/Connections/Limiter.antt =====
-- `ConnectionLimiter` of p2p_banking_system/network/connection_pool.cpp, and a server whose threads use
-- it, which the repository has none of yet. Each method holds the mutex; a thread asks in one call and
-- reports the connection in another.
pub mod Within
use blackstone.Prelude.{
  ℕ, String, Bool, true, false, Option, none, some, List, [], ◌∷◌, ltb, leb, if◌then◌else◌, set,
  get_elem?, replicate,
}
use blackstone.Prelude.Words.{add64, inc64, dec64}
use blackstone.Map.{Map, find, insert, erase, string_key}

pub record ConnectionLimiter : Type 0 where
  pub connection_counts : Map String ℕ
  pub max_per_ip : ℕ
  pub max_total : ℕ

unfoldable pub new_limiter : ℕ → ℕ → ConnectionLimiter
new_limiter max_per_ip max_total = record {
  connection_counts = [];
  max_per_ip = max_per_ip;
  max_total = max_total;
}

unfoldable pub total_from : ℕ → Map String ℕ → ℕ
total_from acc [] = acc
total_from acc (e ∷ m) = total_from (add64 acc e.1) m

unfoldable pub get_total_count : ConnectionLimiter → ℕ
unfolding total_from
get_total_count l = total_from 0 l.connection_counts

abbrev pub count_or_zero : Option ℕ → ℕ
count_or_zero none = 0
count_or_zero (some n) = n

unfoldable pub get_count_for_ip : ConnectionLimiter → String → ℕ
get_count_for_ip l ip = count_or_zero (find ip l.connection_counts)

-- `connectionCounts[ip]` makes an entry of 0 where there is none.
abbrev pub touched : ConnectionLimiter → String → ConnectionLimiter
touched l ip = record l {
  connection_counts = insert ip (count_or_zero (find ip l.connection_counts)) l.connection_counts;
}

unfoldable pub allow_connection : ConnectionLimiter → String → ConnectionLimiter × Bool
unfolding total_from
allow_connection l ip =
    if leb l.max_total (total_from 0 l.connection_counts)
    then (l, false)
    else if leb l.max_per_ip (count_or_zero (find ip l.connection_counts))
    then (touched l ip, false)
    else (touched l ip, true)

unfoldable pub connection_established : ConnectionLimiter → String → ConnectionLimiter
connection_established l ip = record l {
  connection_counts =
      insert ip (inc64 (count_or_zero (find ip l.connection_counts))) l.connection_counts;
}

abbrev pub closed_at : ConnectionLimiter → String → Option ℕ → ConnectionLimiter
closed_at l ip none = l
closed_at l ip (some n) = record l {
  connection_counts =
      if ltb 1 n then insert ip (dec64 n) l.connection_counts else erase ip l.connection_counts;
}

unfoldable pub connection_closed : ConnectionLimiter → String → ConnectionLimiter
connection_closed l ip = closed_at l ip (find ip l.connection_counts)

unfoldable pub reset : ConnectionLimiter → ConnectionLimiter
reset l = record l { connection_counts = [] }

-- What a thread of the server does between two connections: nothing, or it was let in with one from
-- an address, which it has not reported yet.
pub record LimitedServer : Type 0 where
  pub limiter : ConnectionLimiter
  pub threads : List (Option String)

abbrev pub new_server : ConnectionLimiter → ℕ → LimitedServer
new_server l n = record { limiter = l; threads = replicate n none }

pub data Event : Type 0 where
  asks : (thread : ℕ) (ip : String) → Event
  reports : (thread : ℕ) → Event
  closes : String → Event
  resets : Event

abbrev pub answered : ℕ → String → LimitedServer → ConnectionLimiter × Bool → LimitedServer
answered i ip s (l, allowed) = record {
  limiter = l;
  threads = if allowed then set s.threads i (some ip) else s.threads;
}

-- A thread that has a connection to report does not ask for another.
abbrev pub asked : ℕ → String → LimitedServer → Option (Option String) → LimitedServer
asked i ip s none = s
asked i ip s (some (some waiting)) = s
asked i ip s (some none) = answered i ip s (allow_connection s.limiter ip)

abbrev pub reported : ℕ → LimitedServer → Option (Option String) → LimitedServer
reported i s none = s
reported i s (some none) = s
reported i s (some (some ip)) = record {
  limiter = connection_established s.limiter ip;
  threads = set s.threads i none;
}

unfoldable pub step : LimitedServer → Event → LimitedServer
unfolding allow_connection connection_established connection_closed reset
step s (asks i ip) = asked i ip s (get_elem? s.threads i)
step s (reports i) = reported i s (get_elem? s.threads i)
step s (closes ip) = record s { limiter = connection_closed s.limiter ip }
step s resets = record s { limiter = reset s.limiter }

unfoldable pub run : LimitedServer → List Event → LimitedServer
unfolding step
run s [] = s
run s (e ∷ es) = run (step s e) es
