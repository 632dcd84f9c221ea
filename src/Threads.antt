-- ===== src/Threads.antt =====
-- p2p_banking_system/utils/thread_pool.h and thread_pool.cpp. A task is a number, and a thread's loop
-- is cut where other threads can act: it takes a task or leaves, under the mutex; it counts itself as
-- active; the task runs and returns; it counts itself out. `enqueue` is cut in two: it tests `stop`,
-- and pushes the task under the mutex. A list of events stands for one interleaving. `waitForAll`
-- changes nothing and is left out. A thread that waits takes a step once its condition holds: how it is woken is left out.
pub mod Amounts
pub mod Books
pub mod Quiet
pub mod Drain
mod Tests
use blackstone.Prelude.{
  ℕ, zero, suc, ◌+◌, ◌-◌, Bool, true, false, not, ◌&&◌, Option, none, some, List, [], ◌∷◌, ◌++◌,
  length, get_elem?, set, replicate, eqb, ltb, if◌then◌else◌,
}
use blackstone.Prelude.Words.{inc64, dec64}

pub data Phase : Type 0 where
  waiting : Phase
  holding : ℕ → Phase
  running : ℕ → Phase
  returned : Phase
  exited : Phase

-- `threads` has every thread that was begun, also those that `resize` detached; `total` is the length
-- of the vector of workers. `entering` has the tasks of the calls of `enqueue` that have found the pool
-- running and have not pushed yet. `called` has the tasks that have run, the last one at the end.
pub record ThreadPool : Type 0 where
  pub tasks : List ℕ
  pub entering : List ℕ
  pub threads : List Phase
  pub total : ℕ
  pub stop : Bool
  pub active : ℕ
  pub called : List ℕ

pub new_pool : ℕ → ThreadPool
new_pool n = record {
  tasks = [];
  entering = [];
  threads = replicate n waiting;
  total = n;
  stop = false;
  active = 0;
  called = [];
}

abbrev pub to_phase : ℕ → Phase → ThreadPool → ThreadPool
to_phase i p s = record s { threads = set s.threads i p }

-- The part under the mutex.
abbrev pub take_task : ℕ → List ℕ → ThreadPool → Option ThreadPool
take_task i [] s = if s.stop then some (to_phase i exited s) else none
take_task i (t ∷ ts) s = some (to_phase i (holding t) (record s { tasks = ts }))

-- What the thread does next; `none` if it waits or has left.
abbrev pub advance : ℕ → Option Phase → ThreadPool → Option ThreadPool
advance i none s = none
advance i (some waiting) s = take_task i s.tasks s
advance i (some (holding t)) s =
    some (to_phase i (running t) (record s { active = inc64 s.active }))
advance i (some (running t)) s =
    some (to_phase i returned (record s { called = s.called ++ t ∷ [] }))
advance i (some returned) s = some (to_phase i waiting (record s { active = dec64 s.active }))
advance i (some exited) s = none

pub thread_step : ℕ → ThreadPool → Option ThreadPool
thread_step i s = advance i (get_elem? s.threads i) s

-- The start of `enqueue`, which does nothing once the pool stops.
pub begin_enqueue : ℕ → ThreadPool → ThreadPool
begin_enqueue t s = if s.stop then s else record s { entering = s.entering ++ t ∷ [] }

abbrev pub remove_at : List ℕ → ℕ → List ℕ
remove_at [] i = []
remove_at (x ∷ xs) zero = xs
remove_at (x ∷ xs) (suc i) = x ∷ remove_at xs i

abbrev pub pushed : ℕ → ThreadPool → Option ℕ → ThreadPool
pushed i s none = s
pushed i s (some t) = record s { entering = remove_at s.entering i; tasks = s.tasks ++ t ∷ [] }

-- The rest of the i-th call of `enqueue` that is under way: `stop` is not asked again.
pub push_task : ℕ → ThreadPool → ThreadPool
push_task i s = pushed i s (get_elem? s.entering i)

pub clear : ThreadPool → ThreadPool
clear s = record s { tasks = [] }

-- The start of the destructor.
pub stop_all : ThreadPool → ThreadPool
stop_all s = record s { stop = true }

pub resize : ℕ → ThreadPool → ThreadPool
resize n s =
    if ltb s.total n
    then record s { threads = s.threads ++ replicate (n - s.total) waiting; total = n }
    else if ltb n s.total
    then record s { total = n }
    else s

pub get_pending_task_count : ThreadPool → ℕ
get_pending_task_count s = length s.tasks

pub get_active_task_count : ThreadPool → ℕ
get_active_task_count s = s.active

pub data Event : Type 0 where
  thread : ℕ → Event
  enqueues : ℕ → Event
  pushes : ℕ → Event
  clears : Event
  stops : Event
  resizes : ℕ → Event

abbrev pub or_same : ThreadPool → Option ThreadPool → ThreadPool
or_same s none = s
or_same s (some t) = t

pub step : Event → ThreadPool → ThreadPool
unfolding thread_step begin_enqueue push_task clear stop_all resize
step (thread i) s = or_same s (thread_step i s)
step (enqueues t) s = begin_enqueue t s
step (pushes i) s = push_task i s
step clears s = clear s
step stops s = stop_all s
step (resizes n) s = resize n s

pub run : List Event → ThreadPool → ThreadPool
unfolding step
run [] s = s
run (e ∷ es) s = run es (step e s)
