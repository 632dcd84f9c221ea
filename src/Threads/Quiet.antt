-- ===== src/Threads/Quiet.antt =====
-- p2p_banking_system/utils/thread_pool.cpp: a thread leaves only a pool that stops and has no task left,
-- so that a task can only be left behind if it was pushed after the pool was told to stop.
use blackstone.Prelude.{
  ◌⊎◌, inl, inr, Bool-cases, Option-cases, ℕ, ◌+◌, ◌-◌, ◌≤◌, if◌then◌else◌, length-append, ◌≡◌,
  refl, ap, subst, Bool, true, false, Option, none, some, List, [], ◌∷◌, arith, length, get_elem?,
  replicate, ltb, if_both, count_if, count_if-append, count_if-set,
}
use blackstone.Threads.{
  Phase, waiting, holding, running, returned, exited, ThreadPool, new_pool, take_task, advance,
  thread_step, begin_enqueue, pushed, push_task, clear, stop_all, resize, Event, thread, enqueues,
  pushes, clears, stops, resizes, step, run,
}
use blackstone.Threads.Books.{count_if-replicate}

abbrev pub is_exited : Phase → Bool
is_exited waiting = false
is_exited (holding u) = false
is_exited (running u) = false
is_exited returned = false
is_exited exited = true

-- Does the event push a task into a pool that stops?
abbrev pushes_late : Option ℕ → Bool → ℕ
pushes_late none stop = 0
pushes_late (some t) stop = if stop then 1 else 0

abbrev pub late : Event → ThreadPool → ℕ
late (thread i) s = 0
late (enqueues t) s = 0
late (pushes i) s = pushes_late (get_elem? s.entering i) s.stop
late clears s = 0
late stops s = 0
late (resizes n) s = 0

-- How many tasks were pushed once the pool had been told to stop.
abbrev pub all_late : List Event → ThreadPool → ℕ
all_late [] s = 0
all_late (e ∷ es) s = late e s + all_late es (step e s)

-- No thread has left, or the pool stops and what waits in it was pushed late, at most k tasks.
abbrev pub IsQuiet : ℕ → ThreadPool → Type 0
IsQuiet k s = (count_if is_exited s.threads ≡ 0) ⊎ ((s.stop ≡ true) × (length s.tasks ≤ k))

abbrev StaysQuiet : ℕ → Option ThreadPool → Type 0
StaysQuiet k none = Unit
StaysQuiet k (some s) = IsQuiet k s

take_task-StaysQuiet :
    (k i : ℕ) (s : ThreadPool) (ts : List ℕ)
    → get_elem? s.threads i ≡ some waiting
    → s.tasks ≡ ts
    → IsQuiet k s
    → StaysQuiet k (take_task i ts s)
take_task-StaysQuiet k i s [] at e q = elim (Bool-cases s.stop) [
  | inl on ↦ rw on (inr (refl, omega (arith, ap length e)))
  | inr off ↦ rw off tt
]
take_task-StaysQuiet k i s (u ∷ us) at e (inl q) =
    inl (omega (arith, count_if-set is_exited s.threads i (holding u) at))
take_task-StaysQuiet k i s (u ∷ us) at e (inr q) = inr (q.0, omega (arith, q.1, ap length e))

advance-StaysQuiet :
    (k i : ℕ) (s : ThreadPool) (o : Option Phase)
    → get_elem? s.threads i ≡ o
    → IsQuiet k s
    → StaysQuiet k (advance i o s)
advance-StaysQuiet k i s none at q = tt
advance-StaysQuiet k i s (some waiting) at q = take_task-StaysQuiet k i s s.tasks at refl q
advance-StaysQuiet k i s (some (holding u)) at (inl q) =
    inl (omega (arith, count_if-set is_exited s.threads i (running u) at))
advance-StaysQuiet k i s (some (holding u)) at (inr q) = inr q
advance-StaysQuiet k i s (some (running u)) at (inl q) =
    inl (omega (arith, count_if-set is_exited s.threads i returned at))
advance-StaysQuiet k i s (some (running u)) at (inr q) = inr q
advance-StaysQuiet k i s (some returned) at (inl q) =
    inl (omega (arith, count_if-set is_exited s.threads i waiting at))
advance-StaysQuiet k i s (some returned) at (inr q) = inr q
advance-StaysQuiet k i s (some exited) at q = tt

pub thread_step-IsQuiet :
    (k i : ℕ) (s s' : ThreadPool) → IsQuiet k s → thread_step i s ≡ some s' → IsQuiet k s'
unfolding thread_step
thread_step-IsQuiet k i s s' q h =
    subst (StaysQuiet k) h (advance-StaysQuiet k i s (get_elem? s.threads i) refl q)

resize-IsQuiet : (k n : ℕ) (s : ThreadPool) → IsQuiet k s → IsQuiet k (resize n s)
unfolding resize
resize-IsQuiet k n s q =
    let more = replicate (n - s.total) waiting in
    if_both (IsQuiet k) (ltb s.total n)
      (elim q [
        | inl z ↦ inl (
            omega (
              arith,
              count_if-append is_exited s.threads more,
              count_if-replicate is_exited (n - s.total) refl,
            ))
        | inr z ↦ inr z
      ])
      (if_both (IsQuiet k) (ltb n s.total) q q)

more_late : {j : ℕ} (k : ℕ) (s : ThreadPool) → j ≤ k → IsQuiet j s → IsQuiet k s
more_late k s h (inl q) = inl q
more_late k s h (inr q) = inr (q.0, omega (arith, q.1))

pushed-IsQuiet :
    (k i : ℕ) (s : ThreadPool) (o : Option ℕ)
    → IsQuiet k s
    → IsQuiet (pushes_late o s.stop + k) (pushed i s o)
pushed-IsQuiet k i s none q = more_late (0 + k) s (omega arith) q
pushed-IsQuiet k i s (some t) (inl q) = inl q
pushed-IsQuiet k i s (some t) (inr q) =
    inr (q.0, rw q.0 (omega (arith, q.1, length-append s.tasks (t ∷ []))))

-- An event that is not late leaves the bound as it is.
keeps-IsQuiet :
    (k : ℕ) (e : Event) (s : ThreadPool)
    → late e s ≡ 0
    → IsQuiet k (step e s)
    → IsQuiet (late e s + k) (step e s)
keeps-IsQuiet k e s h q = more_late (late e s + k) (step e s) (omega arith) q

step-IsQuiet :
    (k : ℕ) (e : Event) (s : ThreadPool) → IsQuiet k s → IsQuiet (late e s + k) (step e s)
unfolding step begin_enqueue push_task clear stop_all
step-IsQuiet k (thread i) s q =
    keeps-IsQuiet k (thread i) s refl (elim (Option-cases (thread_step i s)) [
      | inl e ↦ rw e q
      | inr r ↦ rw r.1 (thread_step-IsQuiet k i s r.0 q r.1)
    ])
step-IsQuiet k (enqueues u) s q =
    keeps-IsQuiet k (enqueues u) s refl (if_both (IsQuiet k) s.stop q q)
step-IsQuiet k (pushes i) s q = pushed-IsQuiet k i s (get_elem? s.entering i) q
step-IsQuiet k clears s (inl q) = inl q
step-IsQuiet k clears s (inr q) = inr (q.0, omega arith)
step-IsQuiet k stops s (inl q) = inl q
step-IsQuiet k stops s (inr q) = inr (refl, omega (arith, q.1))
step-IsQuiet k (resizes n) s q = keeps-IsQuiet k (resizes n) s refl (resize-IsQuiet k n s q)

pub run-IsQuiet :
    (k m : ℕ) (es : List Event) (s : ThreadPool)
    → IsQuiet k s
    → all_late es s + k ≡ m
    → IsQuiet m (run es s)
unfolding run
run-IsQuiet k m [] s q h = subst (λ j. IsQuiet j s) (omega arith) q
run-IsQuiet k m (e ∷ es) s q h =
    run-IsQuiet (late e s + k) m es (step e s) (step-IsQuiet k e s q) (omega arith)

pub new_pool-IsQuiet : (n : ℕ) → IsQuiet 0 (new_pool n)
unfolding new_pool
new_pool-IsQuiet n = inl (count_if-replicate is_exited n refl)
