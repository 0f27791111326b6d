-- ===== src/Net/EventLoop/Timers/Settled.antt =====
-- The functors that are pending, called by a loop of windz/net/EventLoop.cpp, as they move its
-- timers to the heap.
use mathlib.Core.List.{Perm, mem-cons_of_mem, perm_middle, perm-append_left_iff}
use mathlib.Core.List.Perm
use windz.Prelude.{
  ℕ, zero, suc, ◌+◌, ◌<◌, ◌≡◌, refl, sym, ap₂, subst, ◌∙◌, List, [], ◌∷◌, ◌++◌, length,
  length-append, Returns, returns, Returns-bind, Returns-map, arith,
}
use windz.Net.Timer.Heap.{TimerHeap}
use windz.Net.Timer.Heap.Order.{IsHeap, max_heap, perm-length}
use windz.Net.Timer.Heap.Up.{push_in_heap_lem}
use windz.Net.EventLoop.Timers.{Job, pushes, cancels, LoopTimers, do_job, do_jobs}
use windz.Net.EventLoop.Timers.Marked.{
  marked, marks, pushed, canceling, marks-append, marks_comm, length-marks,
}
use windz.Net.EventLoop.Timers.Sound.{Sound, Sound-perm}
use windz.Net.EventLoop.Timers.Holding.{Holds, cancel_now-Holds}

-- With its pending functors called, the loop has all its timers in the heap.
pub record Settled (ts : TimerHeap) (l : LoopTimers) : Type 0 where
  pub order : IsHeap l.heap
  pub sound : Sound [] l.made l.heap
  pub becomes : Perm l.heap ts

no_marks : (xs : TimerHeap) → marks [] xs ≡ xs
no_marks [] = refl
no_marks (t ∷ xs) = ap₂ ◌∷◌ (ground arith) (no_marks xs)

abbrev loop_timers : TimerHeap → List Job → ℕ → LoopTimers
loop_timers heap jobs made = record { heap = heap; jobs = jobs; made = made }

do_job-Holds :
    (ts heap : TimerHeap) (j : Job) (jobs : List Job) (made : ℕ)
    → Holds [] ts (loop_timers heap (j ∷ jobs) made)
    → length ts < max_heap
    → Returns
        (λ m. Holds [] ts m × (length m.jobs ≡ length jobs))
        (do_job j (loop_timers heap jobs made))
unfolding do_job
do_job-Holds ts heap (pushes t) jobs made v small =
    let whole = length-marks (canceling jobs) (t ∷ pushed jobs ++ heap) in
    let room : length heap + 1 < max_heap =
      omega (arith, perm-length v.becomes, whole, length-append (pushed jobs) heap) in
    Returns-bind (push_in_heap_lem heap t v.order room) λ b (h, p).
      let q : Perm (pushed jobs ++ b) (t ∷ pushed jobs ++ heap) =
        Perm.trans ((perm-append_left_iff (pushed jobs)).1 p) (perm_middle (pushed jobs) heap) in
      returns (
        record {
          order = h;
          sound = Sound-perm q v.sound;
          once = v.once;
          early = v.early;
          becomes = Perm.trans (Perm.map (marked (canceling jobs)) q) v.becomes;
        },
        refl,
      )
do_job-Holds ts heap (cancels id) jobs made v small =
    let xs = pushed jobs ++ heap in
    let same : marks (id ∷ []) (marks (canceling jobs) xs) ≡ marks (id ∷ canceling jobs) xs =
      marks_comm (id ∷ []) (canceling jobs) xs ∙ sym (marks-append (id ∷ []) (canceling jobs) xs) in
    Returns-map
      (cancel_now-Holds id [] (marks (canceling jobs) xs) (loop_timers heap jobs made) v.order
        v.sound v.once (λ i k. v.early i (mem-cons_of_mem id k)) Perm.rfl)
      λ m (h, d, e). (
        record {
          order = h.order;
          sound = h.sound;
          once = h.once;
          early = h.early;
          becomes = Perm.trans h.becomes (rw same v.becomes);
        },
        e,
      )

pub do_jobs-Settled :
    (n : ℕ) (ts heap : TimerHeap) (jobs : List Job) (made : ℕ)
    → length jobs ≡ n
    → Holds [] ts (loop_timers heap jobs made)
    → length ts < max_heap
    → Returns (Settled ts) (do_jobs n (loop_timers heap jobs made))
unfolding do_jobs
do_jobs-Settled zero ts heap [] made e v small = returns (record {
  order = v.order;
  sound = v.sound;
  becomes = subst (λ xs. Perm xs ts) (no_marks heap) v.becomes;
})
do_jobs-Settled zero ts heap (j ∷ jobs) made e v small = absurd (omega (arith, e))
do_jobs-Settled (suc n) ts heap [] made e v small = absurd (omega (arith, e))
do_jobs-Settled (suc n) ts heap (j ∷ jobs) made e v small =
    Returns-bind (do_job-Holds ts heap j jobs made v small)
      λ m (h, d). do_jobs-Settled n ts m.heap m.jobs m.made (omega (arith, d, e)) h small
