-- ===== src/Threads/Tests.antt =====
-- Runs of p2p_banking_system/utils/thread_pool.cpp.
use blackstone.Prelude.{◌+◌, ◌≤◌, ◌≡◌, refl, zero, suc, false, List, [], ◌∷◌, arith, count_if}
use blackstone.Threads.{
  ThreadPool, waiting, exited, new_pool, Event, thread, enqueues, pushes, stops, step, run,
  thread_step, begin_enqueue, push_task, stop_all, get_active_task_count, get_pending_task_count,
}
use blackstone.Threads.Amounts.{count, carried, is_active}
use blackstone.Threads.Books.{accepted, discarded, run-amount}
use blackstone.Threads.Quiet.{all_late}
use blackstone.Threads.Drain.{Runs, none_yet, next, IsStill, measure, drain}

-- Two tasks for two threads, of which one has taken a task; a third task is on its way in.
abbrev events : List Event
events = enqueues 7 ∷ enqueues 8 ∷ pushes 1 ∷ pushes 0 ∷ enqueues 7 ∷ thread 0 ∷ []

run-amount_example :
    let s = run events (new_pool 2) in
    (count 7 s.entering
        + count 7 s.tasks
        + carried 7 s
        + count 7 s.called
        + discarded 7 events (new_pool 2)
      ≡ accepted 7 events (new_pool 2))
    × (s.active ≡ count_if is_active s.threads)
run-amount_example = run-amount events 2 7 (omega arith)

-- A thread has taken the task and is not counted: `waitForAll` would return here, and 7 has not run.
abbrev taken : ThreadPool
taken = run (enqueues 7 ∷ pushes 0 ∷ thread 0 ∷ []) (new_pool 1)

not_run :
    (taken.called ≡ []) × (get_active_task_count taken ≡ 0) × (get_pending_task_count taken ≡ 0)
unfolding run step new_pool thread_step begin_enqueue push_task get_active_task_count
    get_pending_task_count
not_run = (refl, refl, refl)

-- The pool is told to stop between the test of `enqueue` and its push: the task never runs.
abbrev late_events : List Event
late_events = enqueues 7 ∷ stops ∷ thread 0 ∷ pushes 0 ∷ []

left_behind :
    let s = run late_events (new_pool 1) in
    (s.tasks ≡ 7 ∷ []) × (s.threads ≡ exited ∷ []) × (all_late late_events (new_pool 1) ≡ 1)
unfolding run step new_pool thread_step begin_enqueue push_task stop_all
left_behind = (refl, refl, refl)

abbrev one_task : List Event
one_task = enqueues 7 ∷ pushes 0 ∷ []

abbrev finished : ThreadPool
finished = record {
  tasks = [];
  entering = [];
  threads = waiting ∷ [];
  total = 1;
  stop = false;
  active = 0;
  called = 7 ∷ [];
}

drain_example :
    (4 ≤ measure (run one_task (new_pool 1)))
    × (finished.active ≡ 0)
    × (count 7 finished.called + discarded 7 one_task (new_pool 1)
        ≤ accepted 7 one_task (new_pool 1))
    × (accepted 7 one_task (new_pool 1)
        ≤ count 7 finished.called
          + discarded 7 one_task (new_pool 1)
          + all_late one_task (new_pool 1))
unfolding run step new_pool thread_step begin_enqueue push_task
drain_example = drain one_task 1 4 7 finished (omega arith) (omega arith) refl steps still
  where
    steps : Runs (run one_task (new_pool 1)) 4 finished
    steps = next 0 (next 0 (next 0 (next 0 none_yet refl) refl) refl) refl

    still : IsStill finished
    still zero = refl
    still (suc i) = refl
