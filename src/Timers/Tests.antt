-- ===== src/Timers/Tests.antt =====
-- Interleavings of a client and the thread.
use blackstone.Prelude.{◌≡◌, ◌≤◌, refl, true, false, some, List, [], ◌∷◌, arith}
use blackstone.Prelude.Int.{pos, ◌+ℤ◌, leb_ℤ}
use blackstone.Map.{find, contains, insert, place, replace, erase, nat_key}
use blackstone.Timers.{
  TimerInfo, System, fetched, called, set_timeout, set_interval, clear_timer, start, due,
  milliseconds, Event, sets_interval, clears, fetches, calls, scans, settles, step, run,
}
use blackstone.Timers.Runs.{set_timeout-once, timeout_set}
use blackstone.Timers.Once.{calls_of}
use blackstone.Timers.Due.{listed, listed-due, due_at, due_times, clear_timer-late}

abbrev before : List Event
before = sets_interval (some 7) (pos 1) (pos 0) ∷ []

abbrev after : List Event
after =
    scans (pos 5000000)
    ∷ fetches
    ∷ calls
    ∷ settles (pos 5000001)
    ∷ fetches
    ∷ calls
    ∷ settles (pos 5000002)
    ∷ scans (pos 9000000)
    ∷ fetches
    ∷ calls
    ∷ settles (pos 9000001)
    ∷ []

-- The timer that repeats is called twice, the other one once.
both_called :
    (run (timeout_set (run start before) (some 8) (pos 2) (pos 0)).0 after).log
    ≡ (1, 7) ∷ (2, 8) ∷ (1, 7) ∷ []
unfolding run start insert find place ◌+ℤ◌ replace erase
both_called = refl

set_timeout-once_example :
    let (s, id) = timeout_set (run start before) (some 8) (pos 2) (pos 0) in
    calls_of id (run s after).log ≤ 1
set_timeout-once_example = set_timeout-once before after (some 8) (pos 2) (pos 0) (omega arith)

abbrev timer : TimerInfo
timer = record {
  callback = some 7;
  next_run = pos 10;
  interval = pos 5;
  repeating = true;
  active = true;
}

abbrev reading : System
reading = record {
  manager = record { timers = (3, timer) ∷ []; next_id = 4; running = true };
  phase = fetched 3 (some 7) true (pos 5) [];
  log = [];
}

abbrev called_back : System
called_back = record reading { phase = called 3 true (pos 5) [] }

listed-due_at : listed 3 (due (pos 10) ((3, timer) ∷ [])) ≡ true
unfolding find
listed-due_at = listed-due (pos 10) ((3, timer) ∷ []) 3 (refl, tt)

delays :
    let (once, i) = set_timeout (some 1) (pos 2) (pos 0) reading.manager in
    let (often, j) = set_interval (some 1) (pos 2) (pos 0) reading.manager in
    let settled = step called_back (settles (pos 0)) in
    let (cleared, was) = clear_timer 3 called_back.manager in
    (due_at (pos 9) (find i once.timers) ≡ leb_ℤ (pos 0 +ℤ milliseconds (pos 2)) (pos 9))
    × (due_at (pos 9) (find j often.timers) ≡ leb_ℤ (pos 0 +ℤ milliseconds (pos 2)) (pos 9))
    × (due_at (pos 9) (find 3 settled.manager.timers) ≡ leb_ℤ (pos 0 +ℤ pos 5) (pos 9))
    × (due_at (pos 9) (find 3 cleared.timers) ≡ false)
    × (was ≡ true)
unfolding find
delays =
    due_times reading.manager (some 1) (pos 2) (pos 0) (pos 9) called_back 3 timer (pos 5) [] refl
      refl refl

clear_timer-late_at :
    let (m, was) = clear_timer 3 reading.manager in
    let s' = step (step reading (clears 3)) calls in
    (was ≡ contains 3 reading.manager.timers)
    × (contains 3 s'.manager.timers ≡ false)
    × (s'.log ≡ (3, 7) ∷ [])
clear_timer-late_at = clear_timer-late reading 3 7 true (pos 5) [] refl
