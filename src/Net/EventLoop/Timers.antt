-- ===== src/Net/EventLoop/Timers.antt =====
-- The timers of a loop of windz/net/EventLoop.cpp, from windz/net/Timer.cpp: a call in the loop's
-- thread goes to the heap, and one in another thread is a functor that the loop calls in its next
-- round. A timer id is the number of its object, counted from 0; the time of a call is a number of
-- nanoseconds.
pub mod Marked
pub mod Sound
pub mod Calls
pub mod Holding
pub mod Settled
pub mod Asked
pub mod Waits
mod Tests
use windz.Prelude.{
  ℕ, zero, suc, ◌+◌, ◌<◌, ◌≡◌, Bool, true, false, not, List, [], ◌∷◌, ◌++◌, length, ◌==◌,
  if◌then◌else◌, Option, none, some, Run, ok, fault, out_of_fuel, assertion, ◌>>=◌, ◌>>◌, assert,
}
use windz.Prelude.Int.{ℤ, pos, ◌+ℤ◌, leb_ℤ}
use windz.Net.Timer.Heap.{Timer, TimerHeap, push_in_heap}
use windz.Net.Timer.{new_timer, find, update, cancel, next_timeout}

-- The functors that `AddTimer` and `Cancel` give to `RunInLoop`.
pub data Job : Type 0 where
  pushes : Timer → Job
  cancels : ℕ → Job

-- A pending functor that adds a timer holds it: its id reaches it there, too.
pub record LoopTimers : Type 0 where
  pub heap : TimerHeap
  pub jobs : List Job
  pub made : ℕ

pub no_timers : LoopTimers
no_timers = record { heap = []; jobs = []; made = 0 }

pub find_job : ℕ → List Job → Option Timer
find_job id [] = none
find_job id (cancels i ∷ jobs) = find_job id jobs
find_job id (pushes t ∷ jobs) = if t.id == id then some t else find_job id jobs

pub update_jobs : ℕ → (Timer → Timer) → List Job → List Job
update_jobs id f [] = []
update_jobs id f (cancels i ∷ jobs) = cancels i ∷ update_jobs id f jobs
update_jobs id f (pushes t ∷ jobs) = pushes (if t.id == id then f t else t) ∷ update_jobs id f jobs

-- The functor of `Cancel`.
pub cancel_now : ℕ → LoopTimers → Run LoopTimers
unfolding find find_job update_jobs
cancel_now id l =
    let waiting : Run LoopTimers = elim (find_job id l.jobs) [
      | none ↦ ok l
      | some t ↦
          assert (not t.canceled)
          >> ok (record l { jobs = update_jobs id (λ u. record u { canceled = true }) l.jobs })
    ] in
    elim (find id l.heap) [
      | none ↦ waiting
      | some t ↦ cancel id l.heap >>= λ h. ok (record l { heap = h })
    ]

pub do_job : Job → LoopTimers → Run LoopTimers
unfolding push_in_heap cancel_now
do_job (pushes t) l = push_in_heap l.heap t >>= λ h. ok (record l { heap = h })
do_job (cancels id) l = cancel_now id l

-- `EventLoop::RunInLoop` of such a functor.
pub run_job : Bool → Job → LoopTimers → Run LoopTimers
unfolding do_job
run_job in_loop j l = if in_loop then do_job j l else ok (record l { jobs = l.jobs ++ j ∷ [] })

-- `TimerManager::AddTimer`, which the three functions below return the value of.
pub add_timer : Bool → ℕ → ℤ → ℤ → LoopTimers → Run (ℕ × LoopTimers)
unfolding run_job new_timer
add_timer in_loop cb when interval l = do
  l' ← run_job in_loop (pushes (new_timer l.made cb when interval)) (record l { made = suc l.made })
  ok (l.made, l')

pub run_at : Bool → ℤ → ℕ → LoopTimers → Run (ℕ × LoopTimers)
unfolding add_timer
run_at in_loop when cb l = add_timer in_loop cb when (pos 0) l

pub run_after : Bool → ℤ → ℤ → ℕ → LoopTimers → Run (ℕ × LoopTimers)
unfolding add_timer
run_after in_loop now delay cb l = add_timer in_loop cb (now +ℤ delay) (pos 0) l

pub run_every : Bool → ℤ → ℤ → ℕ → LoopTimers → Run (ℕ × LoopTimers)
unfolding add_timer
run_every in_loop now interval cb l = add_timer in_loop cb (now +ℤ interval) interval l

pub cancel_timer : Bool → ℕ → LoopTimers → Run LoopTimers
unfolding run_job
cancel_timer in_loop id l = run_job in_loop (cancels id) l

-- `CallPendingFunctors` for these functors, none of which queues another: `n` rounds to go, and
-- `Pop` of an empty queue waits for ever.
pub do_jobs : ℕ → LoopTimers → Run LoopTimers
unfolding do_job
do_jobs zero l = ok l
do_jobs (suc n) l = elim l.jobs [
  | [] ↦ fault out_of_fuel
  | j ∷ jobs ↦ do_job j (record l { jobs = jobs }) >>= do_jobs n
]

pub call_jobs : LoopTimers → Run LoopTimers
unfolding do_jobs
call_jobs l = do_jobs (length l.jobs) l

-- How long `Loop` waits for events, in milliseconds.
pub wait_ms : ℤ → TimerHeap → ℤ
unfolding next_timeout
wait_ms now heap =
    let next = next_timeout now heap in if leb_ℤ (pos 10_000) next then pos 10_000 else next
