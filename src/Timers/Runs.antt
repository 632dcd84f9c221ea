-- ===== src/Timers/Runs.antt =====
-- The properties of a timer through a whole interleaving.
use blackstone.Prelude.{
  ℕ, ◌+◌, ◌^◌, ◌<◌, ◌≤◌, ◌≡◌, refl, Bool, true, false, Option, none, some, List, [], ◌∷◌, arith,
  if_both,
}
use blackstone.Prelude.Int.{ℤ, ◌+ℤ◌}
use blackstone.Map.{find, nat_key, find-insert_self}
use blackstone.Timers.{
  TimerInfo, TimerManager, System, Phase, doing, fetched, called, new_timer, set_timeout,
  set_interval, clear_timer, clear_all, scan, fetch, call, settle, reschedule, Event, sets_timeout,
  sets_interval, clears, clears_all, stops, fetches, calls, scans, settles, step, run, start,
}
use blackstone.Timers.Fresh.{IsFresh, IsPhaseBelow, AreBelow, makes, made, step-IsFresh}
use blackstone.Timers.Once.{calls_of, left, phase_repeats, IsOnce, step-IsOnce}

scan-next_id :
    (s : System) (now : ℤ) (ph : Phase) → (scan now s ph).manager.next_id ≡ s.manager.next_id
unfolding scan
scan-next_id s now (doing []) =
    if_both (λ (t : System). t.manager.next_id ≡ s.manager.next_id) s.manager.running refl refl
scan-next_id s now (doing (id ∷ rest)) = refl
scan-next_id s now (fetched id cb repeating interval rest) = refl
scan-next_id s now (called id repeating interval rest) = refl

fetch-next_id : (s : System) (ph : Phase) → (fetch s ph).manager.next_id ≡ s.manager.next_id
unfolding fetch
fetch-next_id s (doing []) = refl
fetch-next_id s (doing (id ∷ rest)) = refl
fetch-next_id s (fetched id cb repeating interval rest) = refl
fetch-next_id s (called id repeating interval rest) = refl

call-next_id : (s : System) (ph : Phase) → (call s ph).manager.next_id ≡ s.manager.next_id
unfolding call
call-next_id s (doing rest) = refl
call-next_id s (fetched id none repeating interval rest) = refl
call-next_id s (fetched id (some cb) repeating interval rest) = refl
call-next_id s (called id repeating interval rest) = refl

reschedule-next_id :
    (next : ℤ) (id : ℕ) (m : TimerManager) (o : Option TimerInfo)
    → (reschedule next id m o).next_id ≡ m.next_id
reschedule-next_id next id m none = refl
reschedule-next_id next id m (some info) =
    if_both (λ (m' : TimerManager). m'.next_id ≡ m.next_id) info.active refl refl

settle-next_id :
    (s : System) (now : ℤ) (ph : Phase) → (settle now s ph).manager.next_id ≡ s.manager.next_id
unfolding settle clear_timer
settle-next_id s now (doing rest) = refl
settle-next_id s now (fetched id cb repeating interval rest) = refl
settle-next_id s now (called id true interval rest) =
    reschedule-next_id (now +ℤ interval) id s.manager (find id s.manager.timers)
settle-next_id s now (called id false interval rest) = refl

step-next_id :
    (s : System) (e : Event)
    → s.manager.next_id + makes e < 2 ^ 32
    → (step s e).manager.next_id ≡ s.manager.next_id + makes e
unfolding step set_timeout set_interval clear_timer clear_all
step-next_id s (sets_timeout cb delay now) h = omega arith
step-next_id s (sets_interval cb delay now) h = omega arith
step-next_id s (clears id) h = omega arith
step-next_id s clears_all h = omega arith
step-next_id s stops h = omega arith
step-next_id s fetches h = omega (arith, fetch-next_id s s.phase)
step-next_id s calls h = omega (arith, call-next_id s s.phase)
step-next_id s (scans now) h = omega (arith, scan-next_id s now s.phase)
step-next_id s (settles now) h = omega (arith, settle-next_id s now s.phase)

run-IsFresh :
    (s : System) (es : List Event)
    → s.manager.next_id + made es < 2 ^ 32
    → IsFresh s
    → IsFresh (run s es) × ((run s es).manager.next_id ≡ s.manager.next_id + made es)
unfolding run
run-IsFresh s [] h v = (v, omega arith)
run-IsFresh s (e ∷ es) h v =
    let now : s.manager.next_id + makes e < 2 ^ 32 = omega arith in
    let next = step-next_id s e now in
    let (fresh, count) = run-IsFresh (step s e) es (omega (arith, next)) (step-IsFresh s e now v) in
    (fresh, omega (arith, count, next))

run-IsOnce :
    (id : ℕ) (s : System) (es : List Event)
    → s.manager.next_id + made es < 2 ^ 32
    → IsOnce id s
    → IsOnce id (run s es)
unfolding run
run-IsOnce id s [] h v = v
run-IsOnce id s (e ∷ es) h v =
    let now : s.manager.next_id + makes e < 2 ^ 32 = omega arith in
    run-IsOnce id (step s e) es (omega (arith, step-next_id s e now)) (step-IsOnce id s e now v)

calls_of-below : (id : ℕ) (log : List (ℕ × ℕ)) → AreBelow id log → calls_of id log ≡ 0
calls_of-below id [] h = refl
calls_of-below id (c ∷ log) h = ground (arith, calls_of-below id log h.1)

phase-below :
    (id : ℕ) (ph : Phase) (known : Bool)
    → IsPhaseBelow id ph
    → (left id ph known ≤ 1) × (phase_repeats id ph ≡ false)
phase-below id (doing rest) known h = (ground arith, refl)
phase-below id (fetched j cb repeating interval rest) known h = (ground arith, ground arith)
phase-below id (called j repeating interval rest) known h = (ground arith, ground arith)

start-IsFresh : IsFresh start
unfolding start
start-IsFresh = record { in_timers = tt; in_phase = tt; in_log = tt }

-- The state after `setTimeout`, and the id that it returns.
abbrev pub timeout_set : System → Option ℕ → ℤ → ℤ → System × ℕ
timeout_set s cb delay now =
    let (m, id) = set_timeout cb delay now s.manager in (record s { manager = m }, id)

-- However the calls of the clients and the steps of the thread interleave, the callback that is given
-- to one call of `setTimeout` is called at most once, if fewer than 2^31 - 1 timers are made in all.
pub set_timeout-once :
    (before after : List Event) (cb : Option ℕ) (delay now : ℤ)
    → made before + made after + 2 < 2 ^ 31
    → let (s, id) = timeout_set (run start before) cb delay now in calls_of id (run s after).log ≤ 1
unfolding start set_timeout
set_timeout-once before after cb delay now h =
    let s = run start before in
    let id = s.manager.next_id in
    let (v, count) = run-IsFresh start before (omega arith) start-IsFresh in
    let info = new_timer cb delay false now in
    let mine = find-insert_self id info s.manager.timers in
    let (few, single) = phase-below id s.phase true v.in_phase in
    let s' = (timeout_set s cb delay now).0 in
    let up : s'.manager.next_id ≡ id + 1 = omega (arith, count) in
    let once : IsOnce id s' = record {
      below = omega (arith, up);
      spent = rw mine (omega (arith, few, calls_of-below id s.log v.in_log));
      single = rw mine refl;
      phase_single = single;
    } in
    omega (arith, (run-IsOnce id s' after (omega (arith, up, count)) once).spent)
