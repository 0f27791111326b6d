-- ===== src/Net/EventLoop/Tests.antt =====
-- windz/net/EventLoop.cpp at concrete inputs.
use windz.Prelude.{ℕ, refl, true, false, List, [], ◌∷◌, Returns, ◌==◌, if◌then◌else◌}
use windz.Net.EventLoop.{EventLoop, loop_once}
use windz.Net.EventLoop.Wakeup.{Turned, loop_once-Turned}

-- The functor 1 is pending, and another thread has woken the loop.
abbrev busy_loop : EventLoop
busy_loop = record {
  looping = true;
  quit = false;
  pending_functors_calling = false;
  pending_functors = record { queue = 1 ∷ []; maxsize = 0; wakeup = false };
  wakeups = 1;
  called = [];
}

-- The functor 1 queues itself again, the handler 7 queues 2, and 2 queues nothing.
abbrev queues : ℕ → List ℕ
queues f = if f == 1 then 1 ∷ [] else if f == 7 then 2 ∷ [] else []

loop_once-Turned_example :
    Returns (Turned queues (7 ∷ []) busy_loop) (loop_once queues (7 ∷ []) busy_loop)
loop_once-Turned_example =
    loop_once-Turned queues (7 ∷ []) busy_loop (record { limitless = refl; asleep = refl })
