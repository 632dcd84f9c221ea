-- ===== src/Threads/Books.antt =====
-- p2p_banking_system/utils/thread_pool.cpp: what becomes of the tasks over a run.
use blackstone.Prelude.{
  ℕ, zero, suc, ◌+◌, ◌-◌, ◌≤◌, ◌<◌, ◌≡◌, refl, sym, Bool, false, Option, none, some, List, [], ◌∷◌,
  arith, length, get_elem?, replicate, eqb, ltb, if◌then◌else◌, if_both, count_if, count_if-append,
  length-append, length-replicate,
}
use blackstone.Prelude.Words.{word}
use blackstone.Threads.{
  Phase, waiting, ThreadPool, new_pool, thread_step, begin_enqueue, pushed, push_task, remove_at,
  clear, stop_all, resize, Event, thread, enqueues, pushes, clears, stops, resizes, or_same, step,
  run,
}
use blackstone.Threads.Amounts.{
  carries, is_active, count, carried, amount, IsCounted, OnStep, thread_step-IsKept,
}

-- How many threads an event may begin, how often it accepts the task, and how often it discards it.
abbrev pub begins : Event → ℕ
begins (thread i) = 0
begins (enqueues u) = 0
begins (pushes i) = 0
begins clears = 0
begins stops = 0
begins (resizes n) = n

abbrev pub accepts : ℕ → Event → ThreadPool → ℕ
accepts t (thread i) s = 0
accepts t (enqueues u) s = if s.stop then 0 else count t (u ∷ [])
accepts t (pushes i) s = 0
accepts t clears s = 0
accepts t stops s = 0
accepts t (resizes n) s = 0

abbrev pub discards : ℕ → Event → ThreadPool → ℕ
discards t (thread i) s = 0
discards t (enqueues u) s = 0
discards t (pushes i) s = 0
discards t clears s = count t s.tasks
discards t stops s = 0
discards t (resizes n) s = 0

abbrev pub all_begun : List Event → ℕ
all_begun [] = 0
all_begun (e ∷ es) = begins e + all_begun es

abbrev pub accepted : ℕ → List Event → ThreadPool → ℕ
accepted t [] s = 0
accepted t (e ∷ es) s = accepts t e s + accepted t es (step e s)

abbrev pub discarded : ℕ → List Event → ThreadPool → ℕ
discarded t [] s = 0
discarded t (e ∷ es) s = discards t e s + discarded t es (step e s)

abbrev pub IsBooked : Event → ThreadPool → ThreadPool → Type 0
IsBooked e s s' =
    ((t : ℕ) → amount t s' + discards t e s ≡ amount t s + accepts t e s)
    × IsCounted s'
    × (length s'.threads ≤ length s.threads + begins e)
    × (length s.threads ≤ length s'.threads)

pub count_if-replicate :
    (p : Phase → Bool) (n : ℕ) → p waiting ≡ false → count_if p (replicate n waiting) ≡ 0
count_if-replicate p zero h = refl
count_if-replicate p (suc n) h = ground (arith, count_if-replicate p n h)

or_same-IsBooked :
    (i : ℕ) (s : ThreadPool) (o : Option ThreadPool)
    → IsCounted s
    → OnStep s o
    → IsBooked (thread i) s (or_same s o)
or_same-IsBooked i s none c h = (λ t. omega arith, c, omega arith, omega arith)
or_same-IsBooked i s (some s') c h =
    (λ t. omega (arith, h.0 t), h.1, omega (arith, h.2), omega (arith, h.2))

resize-IsBooked : (n : ℕ) (s : ThreadPool) → IsCounted s → IsBooked (resizes n) s (resize n s)
unfolding resize
resize-IsBooked n s c =
    let more = replicate (n - s.total) waiting in
    if_both (IsBooked (resizes n) s) (ltb s.total n)
      (
        λ t. omega (
          arith,
          count_if-append (carries t) s.threads more,
          count_if-replicate (carries t) (n - s.total) refl,
        ),
        omega (
          arith,
          count_if-append is_active s.threads more,
          count_if-replicate is_active (n - s.total) refl,
        ),
        omega (
          arith,
          length-append s.threads more,
          length-replicate {A = Phase} (n - s.total) waiting,
        ),
        omega (arith, length-append s.threads more),
      )
      (if_both (IsBooked (resizes n) s) (ltb n s.total)
        (λ t. omega arith, c, omega arith, omega arith)
        (λ t. omega arith, c, omega arith, omega arith))

count_if-remove_at :
    (p : ℕ → Bool) (xs : List ℕ) (i : ℕ) {u : ℕ}
    → get_elem? xs i ≡ some u
    → count_if p (remove_at xs i) + (if p u then 1 else 0) ≡ count_if p xs
count_if-remove_at p [] i h = cc
count_if-remove_at p (x ∷ xs) zero h = ground arith
count_if-remove_at p (x ∷ xs) (suc i) h = ground (arith, count_if-remove_at p xs i h)

pushed-IsBooked :
    (i : ℕ) (s : ThreadPool) (o : Option ℕ)
    → get_elem? s.entering i ≡ o
    → IsCounted s
    → IsBooked (pushes i) s (pushed i s o)
pushed-IsBooked i s none at c = (λ t. omega arith, c, omega arith, omega arith)
pushed-IsBooked i s (some u) at c = (
  λ t. ground (
    arith,
    count_if-remove_at (λ v. eqb v t) s.entering i at,
    count_if-append (λ v. eqb v t) s.tasks (u ∷ []),
  ),
  c,
  omega arith,
  omega arith,
)

pub step-IsBooked :
    (e : Event) (s : ThreadPool) → IsCounted s → length s.threads < word → IsBooked e s (step e s)
unfolding step begin_enqueue push_task clear stop_all
step-IsBooked (thread i) s c l =
    or_same-IsBooked i s (thread_step i s) c (thread_step-IsKept i s c l)
step-IsBooked (enqueues u) s c l = (
  λ t. ground (arith, count_if-append (λ v. eqb v t) s.entering (u ∷ [])),
  ground arith,
  ground arith,
  ground arith,
)
step-IsBooked (pushes i) s c l = pushed-IsBooked i s (get_elem? s.entering i) refl c
step-IsBooked clears s c l = (λ t. omega arith, c, omega arith, omega arith)
step-IsBooked stops s c l = (λ t. omega arith, c, omega arith, omega arith)
step-IsBooked (resizes n) s c l = resize-IsBooked n s c

pub run-amount_from :
    (es : List Event) (s : ThreadPool) (t : ℕ)
    → IsCounted s
    → length s.threads + all_begun es < word
    → (amount t (run es s) + discarded t es s ≡ amount t s + accepted t es s) × IsCounted (run es s)
unfolding run
run-amount_from [] s t c l = (omega arith, c)
run-amount_from (e ∷ es) s t c l =
    let one = step-IsBooked e s c (omega arith) in
    let rest = run-amount_from es (step e s) t one.1 (omega (arith, one.2)) in
    (omega (arith, one.0 t, rest.0), rest.1)

-- After any events from a new pool that begin fewer than 2^64 threads, the copies of a task that calls
-- of enqueue have yet to push, that wait, that a thread has taken, that have run and that clear
-- discarded are together those that enqueue accepted: no task is lost or run twice. activeCount is the number of threads counted in.
pub run-amount :
    (es : List Event) (n t : ℕ)
    → n + all_begun es < word
    → let s = run es (new_pool n) in
      (count t s.entering
          + count t s.tasks
          + carried t s
          + count t s.called
          + discarded t es (new_pool n)
        ≡ accepted t es (new_pool n))
      × (s.active ≡ count_if is_active s.threads)
unfolding new_pool
run-amount es n t l =
    let none_yet = count_if-replicate (carries t) n refl in
    let none_active = count_if-replicate is_active n refl in
    let all =
      run-amount_from es (new_pool n) t (sym none_active)
        (omega (arith, length-replicate {A = Phase} n waiting)) in
    (omega (arith, all.0, none_yet), all.1)

threads_from :
    (es : List Event) (s : ThreadPool)
    → IsCounted s
    → length s.threads + all_begun es < word
    → (length s.threads ≤ length (run es s).threads)
      × (length (run es s).threads ≤ length s.threads + all_begun es)
unfolding run
threads_from [] s c l = (omega arith, omega arith)
threads_from (e ∷ es) s c l =
    let one = step-IsBooked e s c (omega arith) in
    let rest = threads_from es (step e s) one.1 (omega (arith, one.2)) in
    (omega (arith, rest.0, one.3), omega (arith, rest.1, one.2))

pub run-threads :
    (es : List Event) (n : ℕ)
    → n + all_begun es < word
    → (n ≤ length (run es (new_pool n)).threads) × (length (run es (new_pool n)).threads < word)
unfolding new_pool
run-threads es n l =
    let size = length-replicate {A = Phase} n waiting in
    let all =
      threads_from es (new_pool n) (sym (count_if-replicate is_active n refl))
        (omega (arith, size)) in
    (omega (arith, all.0, size), omega (arith, all.1, size))
