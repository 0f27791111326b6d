-- ===== src/Base/ThreadPool/Tests.antt =====
-- windz/base/ThreadPool.cpp at concrete inputs.
use windz.Prelude.{◌≡◌, refl, true, false, [], ◌∷◌, List, ok, some, arith}
use windz.Base.BlockingQueue.{push, pop}
use windz.Base.ThreadPool.{
  ThreadPool, testing, popping, holding, worker_step, step_at, call_task, add_task, stop,
}
use windz.Base.ThreadPool.Stopping.{stop-ends}
use windz.Base.ThreadPool.Tasks.{Call, adds, works, run, step, tally, run-tally}

-- One thread waits for a task, the other has one.
abbrev busy : ThreadPool
busy = record {
  threads = popping ∷ holding (some 7) ∷ [];
  queue = record { queue = []; maxsize = 0; wakeup = false };
  running = true;
  ran = [];
}

stop-ends_example :
    (p' : ThreadPool) × (stop (0 ∷ 1 ∷ 1 ∷ 0 ∷ 0 ∷ 1 ∷ []) busy ≡ some p')
    × (p'.threads ≡ [])
    × (p'.running ≡ false)
    × (p'.queue.queue ≡ [])
    × (p'.queue.wakeup ≡ false)
stop-ends_example = stop-ends (0 ∷ 1 ∷ 1 ∷ 0 ∷ 0 ∷ 1 ∷ []) busy λ i h. ground arith

-- Two tasks are added; one is run, the other taken.
abbrev some_calls : List Call
some_calls = adds (some 8) ∷ works 0 ∷ adds (some 9) ∷ works 0 ∷ works 1 ∷ works 0 ∷ works 0 ∷ []

abbrev after : ThreadPool
after = record busy { threads = holding (some 9) ∷ testing ∷ []; ran = 8 ∷ 7 ∷ [] }

busy-run : run some_calls busy ≡ ok (some after)
unfolding run step worker_step step_at call_task add_task push pop
busy-run = refl

run-tally_example : tally 9 after ≡ 1
run-tally_example = run-tally 9 some_calls busy after refl busy-run
