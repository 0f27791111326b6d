-- ===== src/Net/EventLoop/Timers/Asked.antt =====
-- The timers that calls from any threads ask a loop of windz/net/EventLoop.cpp for or cancel, and
-- how they come to run.
use mathlib.Core.List.{Nodup, Nodup-nil, not-mem-nil}
use mathlib.Core.List.Perm
use windz.Prelude.{
  ℕ, suc, ◌+◌, ◌≤◌, ◌<◌, ◌≡◌, refl, sym, ap, subst, ◌∙◌, Bool, List, [], ◌∷◌, length, ok, ◌>>=◌,
  Returns, returns, Returns-bind, Returns-map, arith,
}
use windz.Prelude.Int.{ℤ, pos, ◌+ℤ◌, ◌≤ℤ◌, ◌<ℤ◌}
use windz.Net.Timer.Heap.{Timer, TimerHeap}
use windz.Net.Timer.Heap.Order.{max_heap, perm-length}
use windz.Net.Timer.{new_timer, handle_expired}
use windz.Net.Timer.Expiry.{Ready, Expired, handle_expired_runs_due, ripe-perm}
use windz.Net.EventLoop.Timers.{
  LoopTimers, no_timers, add_timer, run_at, run_after, run_every, call_jobs,
}
use windz.Net.EventLoop.Timers.Marked.{marks, length-marks}
use windz.Net.EventLoop.Timers.Calls.{
  Call, make_call, make_calls, once_at, every_from, wanted, to_cancel, IsLegal, runs_at, runs_after,
  runs_every, cancels_timer,
}
use windz.Net.EventLoop.Timers.Settled.{do_jobs-Settled}
use windz.Net.EventLoop.Timers.Holding.{Holds, IsFresh, add_timer-Holds, cancel_timer-Holds}

-- A call that asks for the timer `t`, and the rest of the calls.
add_then :
    {n : ℕ} (t : Timer) (in_loop : Bool) (cb : ℕ) (when interval : ℤ) (cs : List Call)
    (future : List ℕ) (ts us : TimerHeap) (l : LoopTimers)
    → l.made ≡ n
    → new_timer n cb when interval ≡ t
    → IsFresh n t
    → Holds future ts l
    → length ts + 1 < max_heap
    → ((m : LoopTimers)
        → m.made ≡ suc n
        → Holds future (t ∷ ts) m
        → Returns (Holds [] us) (make_calls cs m))
    → Returns
        (Holds [] us)
        ((add_timer in_loop cb when interval l >>= λ (id, m). ok m) >>= make_calls cs)
add_then t in_loop cb when interval cs future ts us l d e f v small rest =
    let made : new_timer l.made cb when interval ≡ t =
      ap (λ n. new_timer n cb when interval) d ∙ e in
    Returns-bind
      (Returns-bind {Q = λ m. Holds future (t ∷ ts) m × (m.made ≡ suc l.made)}
        (add_timer-Holds in_loop cb when interval t future ts l made
          (subst (λ n. IsFresh n t) (sym d) f) v small)
        λ (id, m) h. returns h)
      λ m (h, k). rest m (k ∙ ap suc d) h

fresh : {n : ℕ} (cb : ℕ) (when : ℤ) → IsFresh n (once_at n cb when)
fresh cb when = record { numbered = refl; live = refl; advances = λ r. cc }

repeats :
    (n cb : ℕ) (when interval : ℤ)
    → pos 0 <ℤ interval
    → new_timer n cb when interval ≡ every_from n cb when interval
unfolding new_timer
repeats n cb when interval h = ground arith

make_calls-Holds :
    (cs : List Call) (n : ℕ) (ts : TimerHeap) (l : LoopTimers)
    → l.made ≡ n
    → IsLegal cs n
    → Holds (to_cancel cs) ts l
    → length ts + length cs < max_heap
    → Returns (Holds [] (wanted cs n ts)) (make_calls cs l)
unfolding make_calls make_call run_at run_after run_every new_timer
make_calls-Holds [] n ts l d q v small = returns v
make_calls-Holds (runs_at in_loop when cb ∷ cs) n ts l d q v small =
    add_then _ in_loop cb when (pos 0) cs (to_cancel cs) ts _ l d refl (fresh cb when) v
      (omega arith) λ m e h. make_calls-Holds cs (suc n) _ m e q h (omega arith)
make_calls-Holds (runs_after in_loop now delay cb ∷ cs) n ts l d q v small =
    add_then _ in_loop cb (now +ℤ delay) (pos 0) cs (to_cancel cs) ts _ l d refl
      (fresh cb (now +ℤ delay)) v (omega arith)
      λ m e h. make_calls-Holds cs (suc n) _ m e q h (omega arith)
make_calls-Holds (runs_every in_loop now interval cb ∷ cs) n ts l d (p, q) v small =
    add_then _ in_loop cb (now +ℤ interval) interval cs (to_cancel cs) ts _ l d
      (repeats n cb (now +ℤ interval) interval p)
      (record { numbered = refl; live = refl; advances = λ r. p }) v (omega arith)
      λ m e h. make_calls-Holds cs (suc n) _ m e q h (omega arith)
make_calls-Holds (cancels_timer in_loop id ∷ cs) n ts l d (p, q) v small =
    Returns-bind (cancel_timer-Holds in_loop id (to_cancel cs) ts l (omega (arith, p, d)) v)
      λ m (h, e). make_calls-Holds cs n _ m (e ∙ d) q h (omega (arith, length-marks (id ∷ []) ts))

no_timers-Holds : (future : List ℕ) → Nodup future → Holds future [] no_timers
unfolding no_timers
no_timers-Holds future once = record {
  order = λ c p q. absurd (omega arith);
  sound = record {
    distinct = Nodup-nil;
    numbered = λ t m. absurd (not-mem-nil m);
    live = λ t m. absurd (not-mem-nil m);
    advances = λ t m. absurd (not-mem-nil m);
  };
  once = once;
  early = λ i m. absurd (not-mem-nil m);
  becomes = Perm.nil;
}

length-wanted :
    (cs : List Call) (n : ℕ) (ts : TimerHeap) → length (wanted cs n ts) ≤ length ts + length cs
length-wanted [] n ts = omega arith
length-wanted (runs_at in_loop when cb ∷ cs) n ts =
    omega (arith, length-wanted cs (suc n) (once_at n cb when ∷ ts))
length-wanted (runs_after in_loop now delay cb ∷ cs) n ts =
    omega (arith, length-wanted cs (suc n) (once_at n cb (now +ℤ delay) ∷ ts))
length-wanted (runs_every in_loop now interval cb ∷ cs) n ts =
    omega (arith, length-wanted cs (suc n) (every_from n cb (now +ℤ interval) interval ∷ ts))
length-wanted (cancels_timer in_loop id ∷ cs) n ts =
    omega (arith, length-wanted cs n (marks (id ∷ []) ts), length-marks (id ∷ []) ts)

-- Calls of `RunAt`, `RunAfter`, `RunEvery` and `CancelTimer`, each in the loop's thread or in another,
-- on a loop without timers, then the pending functors and `HandleExpired`: if intervals are above 0,
-- a timer is canceled only after it was made and only once, functions leave the timers alone, the
-- clock does not go back, there are fewer than 2^60 calls, and the fuel is above their number, then
-- no assertion fails, each timer that was asked for, not canceled and is due has run exactly once,
-- and none that is left is due.
pub make_calls-Expired :
    (functions : ℕ → TimerHeap → TimerHeap) (clock : ℕ → ℤ) (cs : List Call) (fuel : ℕ)
    → ((cb : ℕ) (h : TimerHeap) → functions cb h ≡ h)
    → ((r : ℕ) → clock 0 ≤ℤ clock r)
    → IsLegal cs 0
    → Nodup (to_cancel cs)
    → length cs < max_heap
    → length cs < fuel
    → Returns (Expired (clock 0) (wanted cs 0 []) []) (
        make_calls cs no_timers >>= λ l. call_jobs l >>= λ m.
        handle_expired functions clock fuel (record { heap = m.heap; fired = []; reads = 0 }))
unfolding call_jobs no_timers
make_calls-Expired functions clock cs fuel quiet ticks legal once small enough =
    let ts = wanted cs 0 [] in
    let fit : length ts ≤ length cs = omega (arith, length-wanted cs 0 []) in
    Returns-bind
      (make_calls-Holds cs 0 [] no_timers refl legal (no_timers-Holds (to_cancel cs) once)
        (omega arith))
      λ l v.
        Returns-bind
          (do_jobs-Settled (length l.jobs) ts l.heap l.jobs l.made refl v (omega (arith, fit)))
          λ m w.
            let ready : Ready m.heap = record {
              order = w.order;
              distinct = w.sound.distinct;
              advances = w.sound.advances;
            } in
            Returns-map
              (handle_expired_runs_due functions clock fuel _ quiet (λ r _. ticks r) ready
                (omega (arith, fit, perm-length w.becomes)))
              λ n x.
                let (r, e, s) = x.ran in
                record {
                  order = x.order;
                  later = x.later;
                  ran = (r, e, Perm.trans s (ripe-perm _ w.becomes));
                }
