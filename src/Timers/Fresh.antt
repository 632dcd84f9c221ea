-- ===== src/Timers/Fresh.antt =====
-- No event makes up an id: all that the system knows lie below the next one.
use blackstone.Prelude.{
  ℕ, ◌+◌, ◌%◌, ◌^◌, ◌<◌, ◌≡◌, true, false, Option, none, some, List, [], ◌∷◌, arith, if_both, All,
}
use blackstone.Prelude.Int.{ℤ}
use blackstone.Map.{Map, find, insert, erase, place, replace, nat_key}
use blackstone.Timers.{
  TimerInfo, System, Phase, doing, fetched, called, add_timer, new_timer, set_timeout, set_interval,
  clear_timer, clear_all, due, scan, fetch, fetch_found, call, settle, reschedule, Event,
  sets_timeout, sets_interval, clears, clears_all, stops, fetches, calls, scans, settles, step,
}

abbrev IsBelow : ℕ → List ℕ → Type 0
IsBelow n ids = All (λ i. i < n) ids

abbrev pub AreBelow {ℓ} : {V : Type ℓ} → ℕ → List (ℕ × V) → Type 0
AreBelow n m = All (λ e. e.0 < n) m

abbrev pub IsPhaseBelow : ℕ → Phase → Type 0
IsPhaseBelow n (doing rest) = IsBelow n rest
IsPhaseBelow n (fetched id cb repeating interval rest) = (id < n) × IsBelow n rest
IsPhaseBelow n (called id repeating interval rest) = (id < n) × IsBelow n rest

pub record IsFresh (s : System) : Type 0 where
  pub in_timers : AreBelow s.manager.next_id s.manager.timers
  pub in_phase : IsPhaseBelow s.manager.next_id s.phase
  pub in_log : AreBelow s.manager.next_id s.log

place-AreBelow :
    (n i : ℕ) (info : TimerInfo) (m : Map ℕ TimerInfo)
    → i < n
    → AreBelow n m
    → AreBelow n (place i info m)
unfolding place
place-AreBelow n i info [] h k = (h, tt)
place-AreBelow n i info (e ∷ m) h k = ground (arith, place-AreBelow n i info m h k.1)

replace-AreBelow :
    (n i : ℕ) (info : TimerInfo) (m : Map ℕ TimerInfo)
    → AreBelow n m
    → AreBelow n (replace i info m)
unfolding replace
replace-AreBelow n i info [] k = tt
replace-AreBelow n i info (e ∷ m) k = ground (arith, replace-AreBelow n i info m k.1)

insert-AreBelow :
    (n i : ℕ) (info : TimerInfo) (m : Map ℕ TimerInfo)
    → i < n
    → AreBelow n m
    → AreBelow n (insert i info m)
unfolding insert
insert-AreBelow n i info m h k =
    ground (arith, place-AreBelow n i info m h k, replace-AreBelow n i info m k)

erase-AreBelow : (n i : ℕ) (m : Map ℕ TimerInfo) → AreBelow n m → AreBelow n (erase i m)
unfolding erase
erase-AreBelow n i [] k = tt
erase-AreBelow n i (e ∷ m) k = ground (arith, erase-AreBelow n i m k.1)

due-IsBelow : (n : ℕ) (now : ℤ) (m : Map ℕ TimerInfo) → AreBelow n m → IsBelow n (due now m)
unfolding due
due-IsBelow n now [] k = tt
due-IsBelow n now (e ∷ m) k = ground (arith, due-IsBelow n now m k.1)

raise-IsBelow : (n : ℕ) (ids : List ℕ) → IsBelow n ids → IsBelow (n + 1) ids
raise-IsBelow n [] h = tt
raise-IsBelow n (i ∷ ids) h = (omega (arith, h.0), raise-IsBelow n ids h.1)

raise-AreBelow {ℓ} : {V : Type ℓ} → (n : ℕ) (m : List (ℕ × V)) → AreBelow n m → AreBelow (n + 1) m
raise-AreBelow n [] h = tt
raise-AreBelow n (e ∷ m) h = (omega (arith, h.0), raise-AreBelow n m h.1)

raise-IsPhaseBelow : (n : ℕ) (ph : Phase) → IsPhaseBelow n ph → IsPhaseBelow (n + 1) ph
raise-IsPhaseBelow n (doing rest) h = raise-IsBelow n rest h
raise-IsPhaseBelow n (fetched id cb repeating interval rest) h =
    (omega (arith, h.0), raise-IsBelow n rest h.1)
raise-IsPhaseBelow n (called id repeating interval rest) h =
    (omega (arith, h.0), raise-IsBelow n rest h.1)

-- How many timers an event makes, and how many a list of events.
abbrev pub makes : Event → ℕ
makes (sets_timeout cb delay now) = 1
makes (sets_interval cb delay now) = 1
makes _ = 0

abbrev pub made : List Event → ℕ
made [] = 0
made (e ∷ es) = makes e + made es

add-IsFresh :
    (s : System) (info : TimerInfo)
    → s.manager.next_id + 1 < 2 ^ 32
    → IsFresh s
    → IsFresh (record s { manager = (add_timer info s.manager).0 })
add-IsFresh s info h v =
    let n = s.manager.next_id in
    let up : (n + 1) % 2 ^ 32 ≡ n + 1 = omega arith in
    rw up (record {
      in_timers =
          insert-AreBelow (n + 1) n info s.manager.timers (omega arith)
            (raise-AreBelow n s.manager.timers v.in_timers);
      in_phase = raise-IsPhaseBelow n s.phase v.in_phase;
      in_log = raise-AreBelow n s.log v.in_log;
    })

erase-IsFresh :
    (s : System) (id : ℕ) (ph : Phase)
    → IsFresh s
    → IsPhaseBelow s.manager.next_id ph
    → IsFresh (record s { manager = (clear_timer id s.manager).0; phase = ph })
unfolding clear_timer
erase-IsFresh s id ph v h = record {
  in_timers = erase-AreBelow s.manager.next_id id s.manager.timers v.in_timers;
  in_phase = h;
  in_log = v.in_log;
}

fetch_found-IsPhaseBelow :
    (n id : ℕ) (rest : List ℕ) (o : Option TimerInfo)
    → IsBelow n (id ∷ rest)
    → IsPhaseBelow n (fetch_found id rest o)
fetch_found-IsPhaseBelow n id rest none h = h
fetch_found-IsPhaseBelow n id rest (some info) h = ground arith

fetch-IsFresh :
    (s : System) (ph : Phase) → IsPhaseBelow s.manager.next_id ph → IsFresh s → IsFresh (fetch s ph)
unfolding fetch
fetch-IsFresh s (doing []) h v = v
fetch-IsFresh s (doing (id ∷ rest)) h v = record {
  in_timers = v.in_timers;
  in_phase = fetch_found-IsPhaseBelow s.manager.next_id id rest (find id s.manager.timers) h;
  in_log = v.in_log;
}
fetch-IsFresh s (fetched id cb repeating interval rest) h v = v
fetch-IsFresh s (called id repeating interval rest) h v = v

scan-IsFresh : (s : System) (now : ℤ) (ph : Phase) → IsFresh s → IsFresh (scan now s ph)
unfolding scan
scan-IsFresh s now (doing []) v =
    if_both IsFresh s.manager.running
      (record {
        in_timers = v.in_timers;
        in_phase = due-IsBelow s.manager.next_id now s.manager.timers v.in_timers;
        in_log = v.in_log;
      })
      v
scan-IsFresh s now (doing (id ∷ rest)) v = v
scan-IsFresh s now (fetched id cb repeating interval rest) v = v
scan-IsFresh s now (called id repeating interval rest) v = v

call-IsFresh :
    (s : System) (ph : Phase) → IsPhaseBelow s.manager.next_id ph → IsFresh s → IsFresh (call s ph)
unfolding call
call-IsFresh s (doing rest) h v = v
call-IsFresh s (fetched id none repeating interval rest) h v = record {
  in_timers = v.in_timers;
  in_phase = h;
  in_log = v.in_log;
}
call-IsFresh s (fetched id (some cb) repeating interval rest) h v = record {
  in_timers = v.in_timers;
  in_phase = h;
  in_log = (h.0, v.in_log);
}
call-IsFresh s (called id repeating interval rest) h v = v

reschedule-IsFresh :
    (s : System) (next : ℤ) (id : ℕ) (rest : List ℕ) (o : Option TimerInfo)
    → id < s.manager.next_id
    → IsBelow s.manager.next_id rest
    → IsFresh s
    → IsFresh (record s { manager = reschedule next id s.manager o; phase = doing rest })
reschedule-IsFresh s next id rest none h k v = record {
  in_timers = v.in_timers;
  in_phase = k;
  in_log = v.in_log;
}
reschedule-IsFresh s next id rest (some info) h k v =
    if_both (λ m. IsFresh (record s { manager = m; phase = doing rest })) info.active
      (record {
        in_timers =
            insert-AreBelow s.manager.next_id id (record info { next_run = next }) s.manager.timers
              h v.in_timers;
        in_phase = k;
        in_log = v.in_log;
      })
      (record { in_timers = v.in_timers; in_phase = k; in_log = v.in_log })

settle-IsFresh :
    (s : System) (now : ℤ) (ph : Phase)
    → IsPhaseBelow s.manager.next_id ph
    → IsFresh s
    → IsFresh (settle now s ph)
unfolding settle
settle-IsFresh s now (doing rest) h v = v
settle-IsFresh s now (fetched id cb repeating interval rest) h v = v
settle-IsFresh s now (called id true interval rest) h v =
    reschedule-IsFresh s _ id rest (find id s.manager.timers) h.0 h.1 v
settle-IsFresh s now (called id false interval rest) h v = erase-IsFresh s id (doing rest) v h.1

pub step-IsFresh :
    (s : System) (e : Event) → s.manager.next_id + makes e < 2 ^ 32 → IsFresh s → IsFresh (step s e)
unfolding step set_timeout set_interval clear_all
step-IsFresh s (sets_timeout cb delay now) h v = add-IsFresh s (new_timer cb delay false now) h v
step-IsFresh s (sets_interval cb delay now) h v = add-IsFresh s (new_timer cb delay true now) h v
step-IsFresh s (clears id) h v = erase-IsFresh s id s.phase v v.in_phase
step-IsFresh s clears_all h v = record { in_timers = tt; in_phase = v.in_phase; in_log = v.in_log }
step-IsFresh s stops h v = record {
  in_timers = v.in_timers;
  in_phase = v.in_phase;
  in_log = v.in_log;
}
step-IsFresh s fetches h v = fetch-IsFresh s s.phase v.in_phase v
step-IsFresh s calls h v = call-IsFresh s s.phase v.in_phase v
step-IsFresh s (scans now) h v = scan-IsFresh s now s.phase v
step-IsFresh s (settles now) h v = settle-IsFresh s now s.phase v.in_phase v
