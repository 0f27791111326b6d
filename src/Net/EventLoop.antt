-- ===== src/Net/EventLoop.antt =====
-- windz/net/EventLoop.{h,cpp}: one loop, its pending functors and its wakeups. A functor is a
-- number, and what its run does to the loop is the functors that it queues; an event handler or a
-- timer's function counts as one too. The eventfd is a counter.
pub mod Wakeup
pub mod Channels
pub mod Timers
mod Tests
use windz.Prelude.{
  ℕ, zero, suc, ◌+◌, ◌≤◌, ◌<◌, ◌≡◌, Bool, true, false, not, ◌&&◌, ◌||◌, List, [], ◌∷◌, ◌++◌, length,
  if◌then◌else◌, Option, none, some, Run, ok, fault, out_of_fuel, ◌>>=◌, ◌>>◌, assert, min,
}
use windz.Base.BlockingQueue.{BlockingQueue, new_queue, push, pop, size}

-- `called` is what has run, in order; `wakeups` is the count of the eventfd.
pub record EventLoop : Type 0 where
  pub looping : Bool
  pub quit : Bool
  pub pending_functors_calling : Bool
  pub pending_functors : BlockingQueue ℕ
  pub wakeups : ℕ
  pub called : List ℕ

pub new_loop : EventLoop
unfolding new_queue
new_loop = record {
  looping = false;
  quit = false;
  pending_functors_calling = false;
  pending_functors = new_queue 0;
  wakeups = 0;
  called = [];
}

pub wake_up : EventLoop → EventLoop
wake_up l = record l { wakeups = l.wakeups + 1 }

-- `HandleRead` of the wakeup channel empties the counter.
pub handle_read : EventLoop → EventLoop
handle_read l = record l { wakeups = 0 }

-- A push that would wait waits for ever, for only this thread pops.
pub queue_in_loop : Bool → ℕ → EventLoop → Run EventLoop
unfolding wake_up push
queue_in_loop in_loop f l = push f l.pending_functors >>= λ r. elim r [
  | none ↦ fault out_of_fuel
  | some q ↦
      let l' = record l { pending_functors = q } in
      ok (if not in_loop || l.pending_functors_calling then wake_up l' else l')
]

-- `EventLoop::Quit`
pub quit_loop : Bool → EventLoop → EventLoop
unfolding wake_up
quit_loop in_loop l = let l' = record l { quit = true } in if in_loop then l' else wake_up l'

pub queue_all : List ℕ → EventLoop → Run EventLoop
unfolding queue_in_loop
queue_all [] l = ok l
queue_all (f ∷ fs) l = queue_in_loop true f l >>= queue_all fs

-- `queues f` is what the run of `f` queues.
module _ (queues : ℕ → List ℕ) where
  -- `func()`
  pub invoke : ℕ → EventLoop → Run EventLoop
  unfolding queue_all
  invoke f l = queue_all (queues f) (record l { called = l.called ++ f ∷ [] })

  pub run_in_loop : Bool → ℕ → EventLoop → Run EventLoop
  unfolding invoke queue_in_loop
  run_in_loop in_loop f l = if in_loop then invoke f l else queue_in_loop in_loop f l

  -- The loop of `CallPendingFunctors`, `n` rounds to go; `Pop` of an empty queue waits for ever.
  pub call_functors : ℕ → EventLoop → Run EventLoop
  unfolding invoke pop
  call_functors zero l = ok l
  call_functors (suc n) l = elim (pop 0 l.pending_functors) [
    | none ↦ fault out_of_fuel
    | some (f, q) ↦ invoke f (record l { pending_functors = q }) >>= call_functors n
  ]

  pub call_pending_functors : EventLoop → Run EventLoop
  unfolding call_functors
  call_pending_functors l = do
    l' ← call_functors (size l.pending_functors) (record l { pending_functors_calling = true })
    ok (record l' { pending_functors_calling = false })

  pub invoke_all : List ℕ → EventLoop → Run EventLoop
  unfolding invoke
  invoke_all [] l = ok l
  invoke_all (f ∷ fs) l = invoke f l >>= invoke_all fs

  -- One round of `Loop`: what epoll reports, the handlers and the timers that it leads to, and the
  -- pending functors.
  pub loop_once : List ℕ → EventLoop → Run EventLoop
  unfolding handle_read invoke_all call_pending_functors
  loop_once handlers l = invoke_all handlers (handle_read l) >>= call_pending_functors

  -- `Loop`, with what epoll reports in each round; it ends with a round that sets `quit_`.
  pub rounds : List (List ℕ) → EventLoop → Run EventLoop
  unfolding loop_once
  rounds [] l = ok l
  rounds (hs ∷ rest) l = let next = loop_once hs l >>= rounds rest in if l.quit then ok l else next

  pub loop : List (List ℕ) → EventLoop → Run EventLoop
  unfolding rounds
  loop events l = do
    assert (not l.looping)
    l' ← rounds events (record l { looping = true; quit = false })
    ok (record l' { looping = false })
