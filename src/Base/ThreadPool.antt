-- ===== src/Base/ThreadPool.antt =====
-- windz/base/ThreadPool.{h,cpp}: threads that run the tasks of a queue. A step
-- of one thread is a step of the pool; `none` stands for a step that would wait. A task is a
-- number, and `none` an empty function.
pub mod Stopping
pub mod Tasks
mod Tests
use windz.Prelude.{
  ℕ, suc, ◌+◌, ◌≤◌, ◌<◌, ◌≡◌, Bool, true, false, not, List, [], ◌∷◌, ◌++◌, length, get_or, set,
  replicate, ltb, ◌==◌, if◌then◌else◌, Option, none, some, Run, ok, ◌>>=◌, ◌>>◌, assert,
}
use windz.Base.BlockingQueue.{
  BlockingQueue, new_queue, push, pop, wake_up, restore, set_maxsize, size,
}

-- Where a thread stands in its loop: before the test of `running_`, in `Pop`, with a task that it
-- took, or behind the loop.
pub data Worker : Type 0 where
  testing popping finished : Worker
  holding : Option ℕ → Worker

-- `ran` is what the threads have run, in the order of the ends.
pub record ThreadPool : Type 0 where
  pub threads : List Worker
  pub queue : BlockingQueue (Option ℕ)
  pub running : Bool
  pub ran : List ℕ

-- A queue without a limit, as its constructor makes it.
pub new_pool : ThreadPool
unfolding new_queue
new_pool = record { threads = []; queue = new_queue 0; running = false; ran = [] }

pub set_queue_maxsize : ℕ → ThreadPool → ThreadPool
unfolding set_maxsize
set_queue_maxsize n p = record p { queue = set_maxsize n p.queue }

abbrev is_nil : List Worker → Bool
is_nil [] = true
is_nil _ = false

pub start : ℕ → ThreadPool → Run ThreadPool
start thread_num p = do
  assert (is_nil p.threads)
  ok (record p { running = true; threads = replicate thread_num testing })

pub add_task : Option ℕ → ThreadPool → Run (Option ThreadPool)
unfolding push
add_task task p = do
  pushed ← push task p.queue
  ok (elim pushed [ none ↦ none | some q ↦ some (record p { queue = q }) ])

-- `if (task) task()`
call_task : Option ℕ → List ℕ → List ℕ
call_task none ran = ran
call_task (some task) ran = ran ++ task ∷ []

-- A step of the `i`-th thread, which is at `w`.
step_at : ℕ → Worker → ThreadPool → Option ThreadPool
unfolding pop call_task
step_at i testing p =
    some (record p { threads = set p.threads i (if p.running then popping else finished) })
step_at i popping p = elim (pop none p.queue) [
  | none ↦ none
  | some (task, q) ↦ some (record p { threads = set p.threads i (holding task); queue = q })
]
step_at i (holding task) p =
    some (record p { threads = set p.threads i testing; ran = call_task task p.ran })
step_at i finished p = some p

pub worker_step : ℕ → ThreadPool → Option ThreadPool
unfolding step_at
worker_step i p = step_at i (get_or p.threads i finished) p

-- The threads take their turns in the order of the list.
pub run_workers : List ℕ → ThreadPool → Option ThreadPool
run_workers [] p = some p
run_workers (i ∷ turns) p = elim (worker_step i p) [ none ↦ none | some p' ↦ run_workers turns p' ]

abbrev is_finished : Worker → Bool
is_finished finished = true
is_finished _ = false

-- `Join` of every thread.
pub joined : List Worker → Bool
joined [] = true
joined (w ∷ ws) = let rest = joined ws in if is_finished w then rest else false

-- The first two statements of `Stop`.
pub signal : ThreadPool → ThreadPool
unfolding wake_up
signal p = record p { running = false; queue = wake_up p.queue }

-- `Stop`, while the threads take the turns: `none` if it still waits for one of them.
pub stop : List ℕ → ThreadPool → Option ThreadPool
unfolding signal joined restore
stop turns p = elim (run_workers turns (signal p)) [
  | none ↦ none
  | some q ↦
      if joined q.threads then some (record q { threads = []; queue = restore q.queue }) else none
]

-- The destructor.
pub destruct : List ℕ → ThreadPool → Option ThreadPool
unfolding stop
destruct turns p = if p.running then stop turns p else some p
