-- ===== src/Net/EventLoop/Timers/Calls.antt =====
-- Calls of `RunAt`, `RunAfter`, `RunEvery` and `CancelTimer` of windz/net/EventLoop.cpp, and the
-- timers that they ask for.
use windz.Prelude.{ℕ, suc, ◌<◌, Bool, true, false, List, [], ◌∷◌, Run, ok, ◌>>=◌}
use windz.Prelude.Int.{ℤ, pos, ◌+ℤ◌, ◌<ℤ◌}
use windz.Net.Timer.Heap.{Timer, TimerHeap}
use windz.Net.EventLoop.Timers.{LoopTimers, run_at, run_after, run_every, cancel_timer}
use windz.Net.EventLoop.Timers.Marked.{marks}

-- A call, in the loop's thread or not, with the time that the clock shows.
pub data Call : Type 0 where
  runs_at : Bool → ℤ → ℕ → Call
  runs_after : Bool → ℤ → ℤ → ℕ → Call
  runs_every : Bool → ℤ → ℤ → ℕ → Call
  cancels_timer : Bool → ℕ → Call

unfoldable pub make_call : Call → LoopTimers → Run LoopTimers
unfolding run_at run_after run_every cancel_timer
make_call (runs_at in_loop when cb) l = run_at in_loop when cb l >>= λ (id, l'). ok l'
make_call (runs_after in_loop now delay cb) l =
    run_after in_loop now delay cb l >>= λ (id, l'). ok l'
make_call (runs_every in_loop now interval cb) l =
    run_every in_loop now interval cb l >>= λ (id, l'). ok l'
make_call (cancels_timer in_loop id) l = cancel_timer in_loop id l

unfoldable pub make_calls : List Call → LoopTimers → Run LoopTimers
unfolding make_call
make_calls [] l = ok l
make_calls (c ∷ cs) l = make_call c l >>= make_calls cs

abbrev pub once_at : ℕ → ℕ → ℤ → Timer
once_at id cb when = record {
  id = id;
  cb = cb;
  when = when;
  interval = pos 0;
  repeat = false;
  canceled = false;
}

abbrev pub every_from : ℕ → ℕ → ℤ → ℤ → Timer
every_from id cb when interval = record {
  id = id;
  cb = cb;
  when = when;
  interval = interval;
  repeat = true;
  canceled = false;
}

-- The timers that `n` objects and the timers `ts` become by the calls: each call asks for another
-- or marks one as canceled, whatever the threads.
abbrev pub wanted : List Call → ℕ → TimerHeap → TimerHeap
wanted [] n ts = ts
wanted (runs_at in_loop when cb ∷ cs) n ts = wanted cs (suc n) (once_at n cb when ∷ ts)
wanted (runs_after in_loop now delay cb ∷ cs) n ts =
    wanted cs (suc n) (once_at n cb (now +ℤ delay) ∷ ts)
wanted (runs_every in_loop now interval cb ∷ cs) n ts =
    wanted cs (suc n) (every_from n cb (now +ℤ interval) interval ∷ ts)
wanted (cancels_timer in_loop id ∷ cs) n ts = wanted cs n (marks (id ∷ []) ts)

-- The timers that the calls cancel.
abbrev pub to_cancel : List Call → List ℕ
to_cancel [] = []
to_cancel (runs_at in_loop when cb ∷ cs) = to_cancel cs
to_cancel (runs_after in_loop now delay cb ∷ cs) = to_cancel cs
to_cancel (runs_every in_loop now interval cb ∷ cs) = to_cancel cs
to_cancel (cancels_timer in_loop id ∷ cs) = id ∷ to_cancel cs

-- An interval of `RunEvery` is above 0, and the id of a cancel is that of an object made before.
abbrev pub IsLegal : List Call → ℕ → Type 0
IsLegal [] n = Unit
IsLegal (runs_at in_loop when cb ∷ cs) n = IsLegal cs (suc n)
IsLegal (runs_after in_loop now delay cb ∷ cs) n = IsLegal cs (suc n)
IsLegal (runs_every in_loop now interval cb ∷ cs) n = (pos 0 <ℤ interval) × IsLegal cs (suc n)
IsLegal (cancels_timer in_loop id ∷ cs) n = (id < n) × IsLegal cs n
