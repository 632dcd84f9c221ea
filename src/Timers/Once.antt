-- ===== src/Timers/Once.antt =====
-- A callback given to `setTimeout` is called at most once.
use blackstone.Prelude.{
  ℕ, ◌+◌, ◌^◌, ◌<◌, ◌≤◌, ◌≡◌, refl, ap, Bool, true, false, ◌&&◌, Option, none, some, List, [], ◌∷◌,
  arith, if◌then◌else◌, Bool-cases, inl, inr, eqb, is_some, to_nat, count_if, if_both,
}
use blackstone.Prelude.Int.{ℤ}
use blackstone.Map.{Map, ◌==◌, find, contains, insert, erase, nat_key, find-insert, find-erase}
use blackstone.Timers.{
  TimerInfo, System, Phase, doing, fetched, called, add_timer, new_timer, set_timeout, set_interval,
  clear_timer, clear_all, scan, fetch, fetch_found, call, settle, reschedule, Event, sets_timeout,
  sets_interval, clears, clears_all, stops, fetches, calls, scans, settles, step,
}
use blackstone.Timers.Fresh.{makes}

abbrev pub calls_of : ℕ → List (ℕ × ℕ) → ℕ
calls_of id log = count_if (λ e. eqb e.0 id) log

-- How often the timer can still be called, where it does not repeat; `known`: is it in the map?
abbrev pub left : ℕ → Phase → Bool → ℕ
left id (doing rest) known = to_nat known
left id (fetched j cb repeating interval rest) known =
    to_nat (if eqb j id then is_some cb else known)
left id (called j repeating interval rest) known = to_nat (if eqb j id then false else known)

abbrev pub repeats : Option TimerInfo → Bool
repeats none = false
repeats (some info) = info.repeating

abbrev pub phase_repeats : ℕ → Phase → Bool
phase_repeats id (doing rest) = false
phase_repeats id (fetched j cb repeating interval rest) = eqb j id && repeating
phase_repeats id (called j repeating interval rest) = eqb j id && repeating

pub record IsOnce (id : ℕ) (s : System) : Type 0 where
  pub below : id < s.manager.next_id
  pub spent : calls_of id s.log + left id s.phase (contains id s.manager.timers) ≤ 1
  pub single : repeats (find id s.manager.timers) ≡ false
  pub phase_single : phase_repeats id s.phase ≡ false

add-IsOnce :
    (id : ℕ) (s : System) (info : TimerInfo)
    → s.manager.next_id + 1 < 2 ^ 32
    → IsOnce id s
    → IsOnce id (record s { manager = (add_timer info s.manager).0 })
add-IsOnce id s info h v =
    let n = s.manager.next_id in
    let other : (n == id) ≡ false = ground (arith, v.below) in
    let same : find id (insert n info s.manager.timers) ≡ find id s.manager.timers =
      ground (arith, find-insert n id info s.manager.timers) in
    record {
      below = omega (arith, v.below);
      spent = rw same v.spent;
      single = rw same v.single;
      phase_single = v.phase_single;
    }

left-le : (id : ℕ) (ph : Phase) (known : Bool) → left id ph false ≤ left id ph known
left-le id (doing rest) known = ground arith
left-le id (fetched j cb repeating interval rest) known = ground arith
left-le id (called j repeating interval rest) known = ground arith

erase-IsOnce :
    (id j : ℕ) (s : System)
    → IsOnce id s
    → IsOnce id (record s { manager = (clear_timer j s.manager).0 })
unfolding clear_timer
erase-IsOnce id j s v = elim (Bool-cases (j == id)) [
  | inl same ↦
      let gone : find id (erase j s.manager.timers) ≡ none =
        ground (arith, find-erase j id s.manager.timers) in
      record {
        below = v.below;
        spent = rw gone (omega (arith, v.spent, left-le id s.phase (contains id s.manager.timers)));
        single = rw gone refl;
        phase_single = v.phase_single;
      }
  | inr other ↦
      let kept : find id (erase j s.manager.timers) ≡ find id s.manager.timers =
        ground (arith, find-erase j id s.manager.timers) in
      record {
        below = v.below;
        spent = rw kept v.spent;
        single = rw kept v.single;
        phase_single = v.phase_single;
      }
]

scan-IsOnce :
    (id : ℕ) (s : System) (now : ℤ) (ph : Phase)
    → s.phase ≡ ph
    → IsOnce id s
    → IsOnce id (scan now s ph)
unfolding scan
scan-IsOnce id s now (doing []) e v =
    if_both (IsOnce id) s.manager.running
      (record {
        below = v.below;
        spent = omega (arith, v.spent, ap (λ ph. left id ph (contains id s.manager.timers)) e);
        single = v.single;
        phase_single = refl;
      })
      v
scan-IsOnce id s now (doing (j ∷ rest)) e v = v
scan-IsOnce id s now (fetched j cb repeating interval rest) e v = v
scan-IsOnce id s now (called j repeating interval rest) e v = v

-- The thread reads the j-th timer: nothing that could not be called before can be called then.
fetch_found-left :
    (id j : ℕ) (rest : List ℕ) (timers : Map ℕ TimerInfo) (o : Option TimerInfo)
    → find j timers ≡ o
    → repeats (find id timers) ≡ false
    → (left id (fetch_found j rest o) (contains id timers) ≤ to_nat (contains id timers))
      × (phase_repeats id (fetch_found j rest o) ≡ false)
fetch_found-left id j rest timers none e h = (ground arith, ground arith)
fetch_found-left id j rest timers (some info) e h = elim (Bool-cases (eqb j id)) [
  | inl same ↦
      let own : find id timers ≡ some info = ground (arith, ap (λ (k : ℕ). find k timers)) in
      (ground arith, ground (arith, ap repeats own))
  | inr other ↦ (ground arith, ground arith)
]

fetch-IsOnce :
    (id : ℕ) (s : System) (ph : Phase) → s.phase ≡ ph → IsOnce id s → IsOnce id (fetch s ph)
unfolding fetch
fetch-IsOnce id s (doing []) e v = v
fetch-IsOnce id s (doing (j ∷ rest)) e v =
    let (fewer, single) =
      fetch_found-left id j rest s.manager.timers (find j s.manager.timers) refl v.single in
    record {
      below = v.below;
      spent = omega (arith, fewer, v.spent, ap (λ ph. left id ph (contains id s.manager.timers)) e);
      single = v.single;
      phase_single = single;
    }
fetch-IsOnce id s (fetched j cb repeating interval rest) e v = v
fetch-IsOnce id s (called j repeating interval rest) e v = v

call-IsOnce :
    (id : ℕ) (s : System) (ph : Phase) → s.phase ≡ ph → IsOnce id s → IsOnce id (call s ph)
unfolding call
call-IsOnce id s (doing rest) e v = v
call-IsOnce id s (fetched j none repeating interval rest) e v = record {
  below = v.below;
  spent = ground (arith, v.spent, ap (λ ph. left id ph (contains id s.manager.timers)) e);
  single = v.single;
  phase_single = ground (arith, v.phase_single, ap (phase_repeats id) e);
}
call-IsOnce id s (fetched j (some cb) repeating interval rest) e v = record {
  below = v.below;
  spent = ground (arith, v.spent, ap (λ ph. left id ph (contains id s.manager.timers)) e);
  single = v.single;
  phase_single = ground (arith, v.phase_single, ap (phase_repeats id) e);
}
call-IsOnce id s (called j repeating interval rest) e v = v

reschedule-IsOnce :
    (id j : ℕ) (s : System) (next interval : ℤ) (rest : List ℕ) (o : Option TimerInfo)
    → s.phase ≡ called j true interval rest
    → find j s.manager.timers ≡ o
    → IsOnce id s
    → IsOnce id (record s { manager = reschedule next j s.manager o; phase = doing rest })
reschedule-IsOnce id j s next interval rest o e f v =
    let other : eqb j id ≡ false = ground (arith, v.phase_single, ap (phase_repeats id) e) in
    let spent : calls_of id s.log + to_nat (contains id s.manager.timers) ≤ 1 =
      ground (arith, v.spent, ap (λ ph. left id ph (contains id s.manager.timers)) e) in
    go o other spent
  where
    go :
        (o : Option TimerInfo)
        → eqb j id ≡ false
        → calls_of id s.log + to_nat (contains id s.manager.timers) ≤ 1
        → IsOnce id (record s { manager = reschedule next j s.manager o; phase = doing rest })
    go none other spent = record {
      below = v.below;
      spent = spent;
      single = v.single;
      phase_single = refl;
    }
    go (some info) other spent =
        let info' = record info { next_run = next } in
        let same : find id (insert j info' s.manager.timers) ≡ find id s.manager.timers =
          ground (arith, find-insert j id info' s.manager.timers) in
        if_both (λ m. IsOnce id (record s { manager = m; phase = doing rest })) info.active
          (record {
            below = v.below;
            spent = rw same spent;
            single = rw same v.single;
            phase_single = refl;
          })
          (record { below = v.below; spent = spent; single = v.single; phase_single = refl })

settle-IsOnce :
    (id : ℕ) (s : System) (now : ℤ) (ph : Phase)
    → s.phase ≡ ph
    → IsOnce id s
    → IsOnce id (settle now s ph)
unfolding settle clear_timer
settle-IsOnce id s now (doing rest) e v = v
settle-IsOnce id s now (fetched j cb repeating interval rest) e v = v
settle-IsOnce id s now (called j true interval rest) e v =
    reschedule-IsOnce id j s _ interval rest (find j s.manager.timers) e refl v
settle-IsOnce id s now (called j false interval rest) e v =
    let at = find-erase j id s.manager.timers in
    record {
      below = v.below;
      spent = ground (arith, at, v.spent, ap (λ ph. left id ph (contains id s.manager.timers)) e);
      single = ground (arith, at, v.single);
      phase_single = refl;
    }

pub step-IsOnce :
    (id : ℕ) (s : System) (e : Event)
    → s.manager.next_id + makes e < 2 ^ 32
    → IsOnce id s
    → IsOnce id (step s e)
unfolding step set_timeout set_interval clear_all find
step-IsOnce id s (sets_timeout cb delay now) h v =
    add-IsOnce id s (new_timer cb delay false now) h v
step-IsOnce id s (sets_interval cb delay now) h v =
    add-IsOnce id s (new_timer cb delay true now) h v
step-IsOnce id s (clears j) h v = erase-IsOnce id j s v
step-IsOnce id s clears_all h v = record {
  below = v.below;
  spent = omega (arith, v.spent, left-le id s.phase (contains id s.manager.timers));
  single = refl;
  phase_single = v.phase_single;
}
step-IsOnce id s stops h v = record {
  below = v.below;
  spent = v.spent;
  single = v.single;
  phase_single = v.phase_single;
}
step-IsOnce id s fetches h v = fetch-IsOnce id s s.phase refl v
step-IsOnce id s calls h v = call-IsOnce id s s.phase refl v
step-IsOnce id s (scans now) h v = scan-IsOnce id s now s.phase refl v
step-IsOnce id s (settles now) h v = settle-IsOnce id s now s.phase refl v
