-- ===== src/Threads/Amounts.antt =====
-- p2p_banking_system/utils/thread_pool.cpp: what a step of a thread keeps.
use blackstone.Prelude.{
  ℕ, ◌+◌, ◌<◌, ◌≡◌, refl, Bool, true, false, Option, none, some, List, [], ◌∷◌, arith, length,
  get_elem?, set, eqb, if_both, count_if, count_if-append, count_if-set, count_if-le, length-set,
}
use blackstone.Prelude.Words.{word}
use blackstone.Threads.{
  Phase, waiting, holding, running, returned, exited, ThreadPool, take_task, advance, thread_step,
}

-- Has the thread taken the task, and not run it?
abbrev pub carries : ℕ → Phase → Bool
carries t waiting = false
carries t (holding u) = eqb u t
carries t (running u) = eqb u t
carries t returned = false
carries t exited = false

-- Has the thread counted itself as active?
abbrev pub is_active : Phase → Bool
is_active waiting = false
is_active (holding u) = false
is_active (running u) = true
is_active returned = true
is_active exited = false

abbrev pub count : ℕ → List ℕ → ℕ
count t = count_if (λ u. eqb u t)

abbrev pub carried : ℕ → ThreadPool → ℕ
carried t s = count_if (carries t) s.threads

-- How often the task is in the pool: on its way in, waiting, taken or run.
abbrev pub amount : ℕ → ThreadPool → ℕ
amount t s = count t s.entering + count t s.tasks + carried t s + count t s.called

abbrev pub IsCounted : ThreadPool → Type 0
IsCounted s = s.active ≡ count_if is_active s.threads

-- What a step of a thread keeps.
abbrev pub IsKept : ThreadPool → ThreadPool → Type 0
IsKept s s' =
    ((t : ℕ) → amount t s' ≡ amount t s)
    × IsCounted s'
    × (length s'.threads ≡ length s.threads)
    × (s'.entering ≡ s.entering)

abbrev pub OnStep : ThreadPool → Option ThreadPool → Type 0
OnStep s none = Unit
OnStep s (some s') = IsKept s s'

take_task-IsKept :
    (i : ℕ) (s : ThreadPool) (ts : List ℕ)
    → get_elem? s.threads i ≡ some waiting
    → s.tasks ≡ ts
    → IsCounted s
    → OnStep s (take_task i ts s)
take_task-IsKept i s [] at e c =
    if_both (OnStep s) s.stop
      (
        λ t. omega (arith, count_if-set (carries t) s.threads i exited at),
        omega (arith, count_if-set is_active s.threads i exited at),
        length-set s.threads i exited,
        refl,
      )
      tt
take_task-IsKept i s (u ∷ us) at e c = (
  λ t. rw e (ground (arith, count_if-set (carries t) s.threads i (holding u) at)),
  omega (arith, count_if-set is_active s.threads i (holding u) at),
  length-set s.threads i (holding u),
  refl,
)

advance-IsKept :
    (i : ℕ) (s : ThreadPool) (o : Option Phase)
    → get_elem? s.threads i ≡ o
    → IsCounted s
    → length s.threads < word
    → OnStep s (advance i o s)
advance-IsKept i s none at c l = tt
advance-IsKept i s (some waiting) at c l = take_task-IsKept i s s.tasks at refl c
advance-IsKept i s (some (holding u)) at c l = (
  λ t. omega (arith, count_if-set (carries t) s.threads i (running u) at),
  omega (
    arith,
    count_if-set is_active s.threads i (running u) at,
    count_if-le is_active (set s.threads i (running u)),
    length-set s.threads i (running u),
  ),
  length-set s.threads i (running u),
  refl,
)
advance-IsKept i s (some (running u)) at c l = (
  λ t. ground (
    arith,
    count_if-set (carries t) s.threads i returned at,
    count_if-append (λ v. eqb v t) s.called (u ∷ []),
  ),
  omega (arith, count_if-set is_active s.threads i returned at),
  length-set s.threads i returned,
  refl,
)
advance-IsKept i s (some returned) at c l = (
  λ t. omega (arith, count_if-set (carries t) s.threads i waiting at),
  omega (arith, count_if-set is_active s.threads i waiting at, count_if-le is_active s.threads),
  length-set s.threads i waiting,
  refl,
)
advance-IsKept i s (some exited) at c l = tt

pub thread_step-IsKept :
    (i : ℕ) (s : ThreadPool) → IsCounted s → length s.threads < word → OnStep s (thread_step i s)
unfolding thread_step
thread_step-IsKept i s c l = advance-IsKept i s (get_elem? s.threads i) refl c l
