-- ===== src/Threads/Drain.antt =====
-- p2p_banking_system/utils/thread_pool.cpp: what the threads do when no client calls.
use blackstone.Prelude.{
  ◌*◌, get_elem?-some, count_if-pos, inl, inr, ℕ, zero, suc, ◌+◌, ◌≤◌, ◌<◌, ◌≡◌, refl, ap, ◌∙◌,
  subst, Bool, true, false, Option, none, some, List, [], ◌∷◌, arith, length, get_elem?, set, eqb,
  if_both, count_if, count_if-le, length-replicate,
}
use blackstone.Prelude.Words.{word}
use blackstone.Threads.{
  Phase, waiting, holding, running, returned, exited, ThreadPool, new_pool, take_task, advance,
  thread_step, Event, run,
}
use blackstone.Threads.Quiet.{
  is_exited, IsQuiet, all_late, thread_step-IsQuiet, run-IsQuiet, new_pool-IsQuiet,
}
use blackstone.Threads.Amounts.{
  carries, is_active, count, amount, IsCounted, OnStep, thread_step-IsKept,
}
use blackstone.Threads.Books.{
  run-threads, accepted, discarded, all_begun, run-amount, count_if-replicate,
}

-- `Runs s n t`: n steps of threads, of one thread or another, lead from s to t.
pub data Runs (s : ThreadPool) : ℕ → ThreadPool → Type 0 where
  none_yet : Runs s 0 s
  next :
      {n : ℕ} {t u : ThreadPool} (i : ℕ) → Runs s n t → thread_step i t ≡ some u → Runs s (suc n) u

-- The steps that are left to a thread with what it has taken, one more to leave.
abbrev pub steps_left : Phase → ℕ
steps_left waiting = 1
steps_left (holding u) = 4
steps_left (running u) = 3
steps_left returned = 2
steps_left exited = 0

abbrev left_of : Option Phase → ℕ
left_of none = 0
left_of (some p) = steps_left p

abbrev pub all_left : List Phase → ℕ
all_left [] = 0
all_left (p ∷ ps) = steps_left p + all_left ps

-- At most four steps for each task that waits, and those of the threads.
abbrev pub measure : ThreadPool → ℕ
measure s = length s.tasks * 4 + all_left s.threads

all_left-set :
    (ps : List Phase) (i : ℕ) (v : Phase) {old : Phase}
    → get_elem? ps i ≡ some old
    → all_left (set ps i v) + steps_left old ≡ all_left ps + steps_left v
all_left-set [] i v h = cc
all_left-set (p ∷ ps) zero v h = ground (arith, ap left_of h)
all_left-set (p ∷ ps) (suc i) v h = omega (arith, all_left-set ps i v h)

abbrev Lowers : ThreadPool → Option ThreadPool → Type 0
Lowers s none = Unit
Lowers s (some s') = suc (measure s') ≡ measure s

take_task-Lowers :
    (i : ℕ) (s : ThreadPool) (ts : List ℕ)
    → get_elem? s.threads i ≡ some waiting
    → s.tasks ≡ ts
    → Lowers s (take_task i ts s)
take_task-Lowers i s [] at e =
    if_both (Lowers s) s.stop (omega (arith, all_left-set s.threads i exited at)) tt
take_task-Lowers i s (u ∷ us) at e =
    omega (arith, all_left-set s.threads i (holding u) at, ap length e)

advance-Lowers :
    (i : ℕ) (s : ThreadPool) (o : Option Phase)
    → get_elem? s.threads i ≡ o
    → Lowers s (advance i o s)
advance-Lowers i s none at = tt
advance-Lowers i s (some waiting) at = take_task-Lowers i s s.tasks at refl
advance-Lowers i s (some (holding u)) at = omega (arith, all_left-set s.threads i (running u) at)
advance-Lowers i s (some (running u)) at = omega (arith, all_left-set s.threads i returned at)
advance-Lowers i s (some returned) at = omega (arith, all_left-set s.threads i waiting at)
advance-Lowers i s (some exited) at = tt

thread_step-Lowers :
    (i : ℕ) (s s' : ThreadPool) → thread_step i s ≡ some s' → suc (measure s') ≡ measure s
unfolding thread_step
thread_step-Lowers i s s' h = subst (Lowers s) h (advance-Lowers i s (get_elem? s.threads i) refl)

-- While no client calls, the threads take as many steps as the measure falls by: at most four for
-- each task that waits, and four for each thread.
pub Runs-measure :
    {s : ThreadPool} {n : ℕ} {t : ThreadPool} → Runs s n t → n + measure t ≡ measure s
Runs-measure none_yet = omega arith
Runs-measure (next i r h) = omega (arith, Runs-measure r, thread_step-Lowers i _ _ h)

-- What thread-only steps keep.
Runs-keeps :
    {s : ThreadPool} {n : ℕ} {t : ThreadPool} (k u : ℕ)
    → Runs s n t
    → IsCounted s
    → length s.threads < word
    → IsQuiet k s
    → (amount u t ≡ amount u s)
      × IsCounted t
      × (length t.threads ≡ length s.threads)
      × IsQuiet k t
      × (t.entering ≡ s.entering)
Runs-keeps k u none_yet c l q = (refl, c, refl, q, refl)
Runs-keeps {s = s} k u (next {t = t} i r h) c l q =
    let before = Runs-keeps k u r c l q in
    let one = subst (OnStep t) h (thread_step-IsKept i t before.1 (omega (arith, before.2))) in
    (
      one.0 u ∙ before.0,
      one.1,
      one.2 ∙ before.2,
      thread_step-IsQuiet k i t _ before.3 h,
      one.3 ∙ before.4,
    )

-- No thread can take a step.
abbrev pub IsStill : ThreadPool → Type 0
IsStill s = (i : ℕ) → thread_step i s ≡ none

abbrev at_rest : Phase → Bool
at_rest waiting = true
at_rest (holding u) = false
at_rest (running u) = false
at_rest returned = false
at_rest exited = true

still_phase :
    (i : ℕ) (s : ThreadPool) (p : Phase)
    → get_elem? s.threads i ≡ some p
    → thread_step i s ≡ none
    → at_rest p ≡ true
unfolding thread_step
still_phase i s waiting at h = refl
still_phase i s exited at h = refl
still_phase i s (holding u) at h = let e = subst (λ o. advance i o s ≡ none) at h in cc
still_phase i s (running u) at h = let e = subst (λ o. advance i o s ≡ none) at h in cc
still_phase i s returned at h = let e = subst (λ o. advance i o s ≡ none) at h in cc

count_if-none :
    (p : Phase → Bool) (ps : List Phase)
    → ((i : ℕ) (a : Phase) → get_elem? ps i ≡ some a → p a ≡ false)
    → count_if p ps ≡ 0
count_if-none p [] h = refl
count_if-none p (a ∷ ps) h = ground (arith, h 0 a refl, count_if-none p ps (λ i b e. h (suc i) b e))

rest-carries : (u : ℕ) (p : Phase) → at_rest p ≡ true → carries u p ≡ false
rest-carries u waiting h = refl
rest-carries u exited h = refl
rest-carries u (holding v) h = cc
rest-carries u (running v) h = cc
rest-carries u returned h = refl

rest-active : (p : Phase) → at_rest p ≡ true → is_active p ≡ false
rest-active waiting h = refl
rest-active exited h = refl
rest-active (holding v) h = cc
rest-active (running v) h = cc
rest-active returned h = cc

-- With a thread that waits no task waits, and with one that has left a quiet pool only late ones.
still_tasks :
    (k : ℕ) (s : ThreadPool) (p : Phase)
    → get_elem? s.threads 0 ≡ some p
    → at_rest p ≡ true
    → IsQuiet k s
    → thread_step 0 s ≡ none
    → length s.tasks ≤ k
unfolding thread_step
still_tasks k s exited at h (inl q) e =
    absurd (omega (arith, count_if-pos is_exited s.threads 0 at refl))
still_tasks k s exited at h (inr q) e = q.1
still_tasks k s waiting at h q e = no_task s.tasks refl (subst (λ o. advance 0 o s ≡ none) at e)
  where
    no_task : (ts : List ℕ) → s.tasks ≡ ts → take_task 0 ts s ≡ none → length s.tasks ≤ k
    no_task [] e h = omega (arith, ap length e)
    no_task (t ∷ ts) e h = cc
still_tasks k s (holding u) at h q e = cc
still_tasks k s (running u) at h q e = cc
still_tasks k s returned at h q e = cc

-- In a pool of one thread or more, and fewer than 2^64: once the clients have stopped calling and no
-- call of enqueue is under way, the threads can take only so many steps as the measure has. When none
-- can take another, none is counted as active, and each task that was accepted has run as often, less
-- what clear discarded and at most as many as were pushed once the pool had been told to stop.
pub drain :
    (es : List Event) (m n u : ℕ) (t : ThreadPool)
    → 0 < m
    → m + all_begun es < word
    → (run es (new_pool m)).entering ≡ []
    → Runs (run es (new_pool m)) n t
    → IsStill t
    → (n ≤ measure (run es (new_pool m)))
      × (t.active ≡ 0)
      × (count u t.called + discarded u es (new_pool m) ≤ accepted u es (new_pool m))
      × (accepted u es (new_pool m)
          ≤ count u t.called + discarded u es (new_pool m) + all_late es (new_pool m))
drain es m n u t h l none_enters r still =
    let none_active = count_if-replicate is_active m refl in
    let size = length-replicate {A = Phase} m waiting in
    let late = all_late es (new_pool m) in
    let booked = run-amount es m u l in
    let kept =
      Runs-keeps late u r booked.1 (omega (arith, run-threads es m l))
        (run-IsQuiet 0 late es (new_pool m) (new_pool-IsQuiet m) (omega arith)) in
    let first = get_elem?-some t.threads 0 (omega (arith, run-threads es m l, kept.2)) in
    let resting : (i : ℕ) (p : Phase) → get_elem? t.threads i ≡ some p → at_rest p ≡ true =
      λ i p at. still_phase i t p at (still i) in
    let left = still_tasks late t first.0 first.1 (resting 0 first.0 first.1) kept.3 (still 0) in
    let none_carried =
      count_if-none (carries u) t.threads (λ i p at. rest-carries u p (resting i p at)) in
    let none_counted =
      count_if-none is_active t.threads (λ i p at. rest-active p (resting i p at)) in
    let entered : count u t.entering ≡ 0 = ap (count u) (kept.4 ∙ none_enters) in
    let entering : count u (run es (new_pool m)).entering ≡ 0 = ap (count u) none_enters in
    (
      omega (arith, Runs-measure r),
      kept.1 ∙ none_counted,
      omega (arith, booked.0, kept.0, none_carried, entered),
      omega (
        arith,
        booked.0,
        kept.0,
        none_carried,
        left,
        entered,
        count_if-le (λ v. eqb v u) t.tasks,
      ),
    )
