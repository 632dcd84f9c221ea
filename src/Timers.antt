-- ===== src/Timers.antt =====
-- `TimerManager` of p2p_banking_system/utils/timer.h and timer.cpp, with the thread that runs its
-- loop. The thread and its clients change the state only under the mutex, and the thread lets go of
-- it between the parts of a round; each stretch under the mutex, and each call of a callback, is an
-- event, and an interleaving is a list of events. `now` is what the steady clock shows, in
-- nanoseconds. A callback is a number, `none` an empty `std::function`.
pub mod Fresh
pub mod Once
pub mod Runs
pub mod Due
mod Tests
use blackstone.Prelude.{
  ℕ, ◌+◌, ◌%◌, ◌^◌, ◌*◌, Bool, true, false, ◌&&◌, Option, none, some, List, [], ◌∷◌, ◌++◌,
  if◌then◌else◌, suc, length,
}
use blackstone.Prelude.Int.{ℤ, pos, negsuc, sub_ℕ, ◌+ℤ◌, leb_ℤ}
use blackstone.Map.{Map, find, contains, insert, erase, nat_key}

pub record TimerInfo : Type 0 where
  pub callback : Option ℕ
  pub next_run : ℤ
  pub interval : ℤ
  pub repeating : Bool
  pub active : Bool

-- `next_id` is the bit pattern of an `int`; the order of the map is that of `int` below 2^31.
pub record TimerManager : Type 0 where
  pub timers : Map ℕ TimerInfo
  pub next_id : ℕ
  pub running : Bool

abbrev pub milliseconds : ℤ → ℤ
milliseconds (pos n) = pos (n * 1000000)
milliseconds (negsuc n) = sub_ℕ 0 (suc n * 1000000)

abbrev pub new_timer : Option ℕ → ℤ → Bool → ℤ → TimerInfo
new_timer callback delay repeating now = record {
  callback = callback;
  next_run = now +ℤ milliseconds delay;
  interval = milliseconds delay;
  repeating = repeating;
  active = true;
}

abbrev pub add_timer : TimerInfo → TimerManager → TimerManager × ℕ
add_timer info m = (
  record m { timers = insert m.next_id info m.timers; next_id = (m.next_id + 1) % 2 ^ 32 },
  m.next_id,
)

pub set_timeout : Option ℕ → ℤ → ℤ → TimerManager → TimerManager × ℕ
set_timeout callback delay now m = add_timer (new_timer callback delay false now) m

pub set_interval : Option ℕ → ℤ → ℤ → TimerManager → TimerManager × ℕ
set_interval callback delay now m = add_timer (new_timer callback delay true now) m

pub clear_timer : ℕ → TimerManager → TimerManager × Bool
clear_timer id m = (record m { timers = erase id m.timers }, contains id m.timers)

pub clear_all : TimerManager → TimerManager
clear_all m = record m { timers = [] }

pub get_active_timer_count : TimerManager → ℕ
get_active_timer_count m = length m.timers

abbrev pub is_due : ℤ → TimerInfo → Bool
is_due now info = info.active && leb_ℤ info.next_run now

-- `toExecute`
pub due : ℤ → Map ℕ TimerInfo → List ℕ
due now [] = []
due now (e ∷ m) = let rest = due now m in if is_due now e.1 then e.0 ∷ rest else rest

-- Where the thread stands in its loop: before a round or between two timers of one; after it has
-- read a timer; after it has called the callback, if there was one.
pub data Phase : Type 0 where
  doing : List ℕ → Phase
  fetched : (id : ℕ) (cb : Option ℕ) (repeating : Bool) (interval : ℤ) (rest : List ℕ) → Phase
  called : (id : ℕ) (repeating : Bool) (interval : ℤ) (rest : List ℕ) → Phase

-- `log` holds the calls made, the last one first: the timer and the callback.
pub record System : Type 0 where
  pub manager : TimerManager
  pub phase : Phase
  pub log : List (ℕ × ℕ)

pub start : System
start = record {
  manager = record { timers = []; next_id = 1; running = true };
  phase = doing [];
  log = [];
}

pub scan : ℤ → System → Phase → System
unfolding due
scan now s (doing []) =
    if s.manager.running then record s { phase = doing (due now s.manager.timers) } else s
scan now s _ = s

-- A timer that is gone leaves no callback and does not repeat.
abbrev pub fetch_found : ℕ → List ℕ → Option TimerInfo → Phase
fetch_found id rest none = fetched id none false (pos 0) rest
fetch_found id rest (some info) =
    if info.active
    then fetched id info.callback info.repeating info.interval rest
    else fetched id none false (pos 0) rest

pub fetch : System → Phase → System
fetch s (doing (id ∷ rest)) = record s { phase = fetch_found id rest (find id s.manager.timers) }
fetch s _ = s

pub call : System → Phase → System
call s (fetched id (some cb) repeating interval rest) = record s {
  phase = called id repeating interval rest;
  log = (id, cb) ∷ s.log;
}
call s (fetched id none repeating interval rest) = record s {
  phase = called id repeating interval rest;
}
call s _ = s

abbrev pub reschedule : ℤ → ℕ → TimerManager → Option TimerInfo → TimerManager
reschedule next id m none = m
reschedule next id m (some info) =
    if info.active
    then record m { timers = insert id (record info { next_run = next }) m.timers }
    else m

pub settle : ℤ → System → Phase → System
unfolding clear_timer
settle now s (called id true interval rest) = record s {
  manager = reschedule (now +ℤ interval) id s.manager (find id s.manager.timers);
  phase = doing rest;
}
settle now s (called id false interval rest) = record s {
  manager = (clear_timer id s.manager).0;
  phase = doing rest;
}
settle now s _ = s

pub data Event : Type 0 where
  sets_timeout sets_interval : (callback : Option ℕ) (delay now : ℤ) → Event
  clears : ℕ → Event
  clears_all stops fetches calls : Event
  scans settles : ℤ → Event

pub step : System → Event → System
unfolding set_timeout set_interval clear_timer clear_all scan fetch call settle
step s (sets_timeout cb delay now) = record s { manager = (set_timeout cb delay now s.manager).0 }
step s (sets_interval cb delay now) = record s { manager = (set_interval cb delay now s.manager).0 }
step s (clears id) = record s { manager = (clear_timer id s.manager).0 }
step s clears_all = record s { manager = clear_all s.manager }
step s stops = let m = s.manager in record s { manager = record m { running = false } }
step s (scans now) = scan now s s.phase
step s fetches = fetch s s.phase
step s calls = call s s.phase
step s (settles now) = settle now s s.phase

pub run : System → List Event → System
unfolding step
run s [] = s
run s (e ∷ es) = run (step s e) es
