-- ===== src/Timers/Due.antt =====
-- When the thread runs a timer.
use blackstone.Prelude.{
  ℕ, ◌≡◌, refl, Bool, true, false, ◌||◌, Option, none, some, List, [], ◌∷◌, arith, eqb,
}
use blackstone.Prelude.Int.{ℤ, ◌+ℤ◌, leb_ℤ}
use blackstone.Map.{Map, find, contains, nat_key, IsMap, find-insert_self, find-erase_self}
use blackstone.Timers.{
  TimerInfo, TimerManager, System, fetched, called, milliseconds, new_timer, set_timeout,
  set_interval, clear_timer, due, is_due, call, settle, clears, calls, settles, step,
}

abbrev pub listed : ℕ → List ℕ → Bool
listed id [] = false
listed id (j ∷ ids) = eqb j id || listed id ids

abbrev pub due_at : ℤ → Option TimerInfo → Bool
due_at now none = false
due_at now (some info) = is_due now info

due-absent :
    (now : ℤ) (m : Map ℕ TimerInfo) (id : ℕ) → find id m ≡ none → listed id (due now m) ≡ false
unfolding due find
due-absent now [] id h = refl
due-absent now (e ∷ m) id h = ground (arith, due-absent now m id)

-- Where no id has two timers, a scan collects exactly the timers that are active and whose next run
-- is not after the time of the scan.
pub listed-due :
    (now : ℤ) (m : Map ℕ TimerInfo) (id : ℕ)
    → IsMap m
    → listed id (due now m) ≡ due_at now (find id m)
unfolding due find
listed-due now [] id h = refl
listed-due now (e ∷ m) id h =
    ground (arith, listed-due now m id h.1, due-absent now m e.0 h.0, due-absent now m id)

-- A timer that has just been set is due from its delay on; one that repeats is due again from its
-- interval on, counted from the end of its callback; and one that is cleared is not due.
pub due_times :
    (m : TimerManager) (cb : Option ℕ) (delay now later : ℤ) (s : System) (id : ℕ)
    (info : TimerInfo) (interval : ℤ) (rest : List ℕ)
    → find id s.manager.timers ≡ some info
    → info.active ≡ true
    → s.phase ≡ called id true interval rest
    → let (once, i) = set_timeout cb delay now m in
      let (often, j) = set_interval cb delay now m in
      let settled = step s (settles now) in
      let (cleared, was) = clear_timer id s.manager in
      (due_at later (find i once.timers) ≡ leb_ℤ (now +ℤ milliseconds delay) later)
      × (due_at later (find j often.timers) ≡ leb_ℤ (now +ℤ milliseconds delay) later)
      × (due_at later (find id settled.manager.timers) ≡ leb_ℤ (now +ℤ interval) later)
      × (due_at later (find id cleared.timers) ≡ false)
      × (was ≡ true)
unfolding set_timeout set_interval clear_timer step settle
due_times m cb delay now later s id info interval rest at on ph =
    let again : TimerInfo = record info { next_run = now +ℤ interval; active = true } in
    (
      rw (find-insert_self m.next_id (new_timer cb delay false now) m.timers) refl,
      rw (find-insert_self m.next_id (new_timer cb delay true now) m.timers) refl,
      rw (ph, at, on) (rw (find-insert_self id again s.manager.timers) refl),
      rw (find-erase_self id s.manager.timers) refl,
      rw at refl,
    )

-- Between the thread's reading of a timer and its call of the callback a client can clear the timer:
-- `clearTimer` then returns true if the timer is there, and the callback is called all the same.
pub clear_timer-late :
    (s : System) (id cb : ℕ) (repeating : Bool) (interval : ℤ) (rest : List ℕ)
    → s.phase ≡ fetched id (some cb) repeating interval rest
    → let (m, was) = clear_timer id s.manager in
      let s' = step (step s (clears id)) calls in
      (was ≡ contains id s.manager.timers)
      × (contains id s'.manager.timers ≡ false)
      × (s'.log ≡ (id, cb) ∷ s.log)
unfolding clear_timer step call
clear_timer-late s id cb repeating interval rest h =
    (refl, rw h (rw (find-erase_self id s.manager.timers) refl), rw h refl)
