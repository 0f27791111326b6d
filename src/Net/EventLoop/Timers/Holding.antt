-- ===== src/Net/EventLoop/Timers/Holding.antt =====
-- The timers of a loop of windz/net/EventLoop.cpp, in its heap or in functors that are pending.
use mathlib.Core.List.{
  Perm, Mem, Nodup, Nodup-cons, mem-append, mem-cons, mem-cons_of_mem, not-mem-nil, perm_middle,
  perm-append_left_iff,
}
use mathlib.Core.List.Perm
use mathlib.Core.Logic.Or
use native.Mathlib.Bridge.{le_prop}
use windz.Prelude.{
  ℕ, suc, ◌+◌, ◌≤◌, ◌<◌, ◌≡◌, refl, sym, ap, subst, ◌∙◌, Bool, true, false, List, [], ◌∷◌, ◌++◌,
  length, append_assoc, append-nil, length-append, Returns, returns, Returns-bind, Returns-map,
  Returns-if, arith,
}
use windz.Prelude.Int.{ℤ, pos, ◌<ℤ◌}
use windz.Net.Timer.Heap.{Timer, TimerHeap}
use windz.Net.Timer.Heap.Order.{IsHeap, max_heap, perm-length}
use windz.Net.Timer.Heap.Up.{push_in_heap_lem}
use windz.Net.Timer.{new_timer}
use windz.Net.EventLoop.Timers.{
  Job, pushes, cancels, cancel_now, LoopTimers, do_job, run_job, add_timer, cancel_timer,
}
use windz.Net.EventLoop.Timers.Marked.{
  marked, marks, pushed, canceling, held, marked_absent, marks-append, marks_comm, length-marks,
}
use windz.Net.EventLoop.Timers.Sound.{
  cancel_now-Canceled, Sound, Sound-perm, Sound-future, Sound-cons, Sound-marks,
}

-- The loop holds timers that the cancels of its pending functors turn into `ts`; those in `future`
-- are to be canceled later.
pub record Holds (future : List ℕ) (ts : TimerHeap) (l : LoopTimers) : Type 0 where
  pub order : IsHeap l.heap
  pub sound : Sound (canceling l.jobs ++ future) l.made (held l)
  pub once : Nodup (canceling l.jobs ++ future)
  pub early : (i : ℕ) → Mem i (canceling l.jobs) → i < l.made
  pub becomes : Perm (marks (canceling l.jobs) (held l)) ts

Holds-small :
    {future : List ℕ} {ts : TimerHeap} {l : LoopTimers}
    → Holds future ts l
    → length l.heap ≤ length ts
Holds-small {ts = ts} {l = l} v = omega (
  arith,
  perm-length v.becomes,
  length-marks (canceling l.jobs) (held l),
  length-append (pushed l.jobs) l.heap,
)

canceling-append : (js ks : List Job) → canceling (js ++ ks) ≡ canceling js ++ canceling ks
canceling-append [] ks = refl
canceling-append (pushes t ∷ js) ks = canceling-append js ks
canceling-append (cancels i ∷ js) ks = ap (λ is. i ∷ is) (canceling-append js ks)

pushed-append : (js ks : List Job) → pushed (js ++ ks) ≡ pushed js ++ pushed ks
pushed-append [] ks = refl
pushed-append (pushes t ∷ js) ks = ap (λ ts. t ∷ ts) (pushed-append js ks)
pushed-append (cancels i ∷ js) ks = pushed-append js ks

-- A fresh timer that a call asks for.
pub record IsFresh (n : ℕ) (t : Timer) : Type 0 where
  pub numbered : t.id ≡ n
  pub live : t.canceled ≡ false
  pub advances : t.repeat ≡ true → pos 0 <ℤ t.interval

-- The loop with one more timer, in its heap or in a functor.
more-Holds :
    (t : Timer) (future : List ℕ) (ts : TimerHeap) (l m : LoopTimers)
    → Holds future ts l
    → IsFresh l.made t
    → IsHeap m.heap
    → Perm (held m) (t ∷ held l)
    → canceling m.jobs ≡ canceling l.jobs
    → m.made ≡ suc l.made
    → Holds future (t ∷ ts) m
more-Holds t future ts l m v f h p e d =
    let absent : ¬ Mem t.id (canceling l.jobs) =
      λ k. absurd (omega (arith, v.early t.id k, f.numbered)) in
    record {
      order = h;
      sound =
          subst (λ n. Sound (canceling m.jobs ++ future) n (held m)) (sym d)
            (rw e (Sound-perm p (Sound-cons t f.numbered f.live f.advances v.sound)));
      once = rw e v.once;
      early = λ i k. omega (arith, d, v.early i (subst (Mem i) e k));
      becomes = rw e (
          Perm.trans (Perm.map (marked (canceling l.jobs)) p)
            (rw (marked_absent (canceling l.jobs) t absent) (Perm.cons t v.becomes)));
    }

pub add_timer-Holds :
    (in_loop : Bool) (cb : ℕ) (when interval : ℤ) (t : Timer) (future : List ℕ) (ts : TimerHeap)
    (l : LoopTimers)
    → new_timer l.made cb when interval ≡ t
    → IsFresh l.made t
    → Holds future ts l
    → length ts + 1 < max_heap
    → Returns
        (λ (id, m). Holds future (t ∷ ts) m × (m.made ≡ suc l.made))
        (add_timer in_loop cb when interval l)
unfolding add_timer run_job do_job
add_timer-Holds in_loop cb when interval t future ts l e f v small = rw e (
    Returns-bind
      (Returns-if {P = λ m. Holds future (t ∷ ts) m × (m.made ≡ suc l.made)} in_loop
        (λ _.
          Returns-bind (push_in_heap_lem l.heap t v.order (omega (arith, Holds-small v)))
            λ b (h, p). returns (
              more-Holds t future ts l _ v f h
                  (Perm.trans ((perm-append_left_iff (pushed l.jobs)).1 p)
                    (perm_middle (pushed l.jobs) l.heap))
                  refl refl,
              refl,
            ))
        λ _. returns (
          more-Holds t future ts l _ v f v.order
              (rw
                (pushed-append l.jobs (pushes t ∷ []), append_assoc (pushed l.jobs) (t ∷ []) l.heap)
                (perm_middle (pushed l.jobs) l.heap))
              (canceling-append l.jobs (pushes t ∷ []) ∙ append-nil (canceling l.jobs)) refl,
          refl,
        ))
      λ m h. returns h)

-- The functor of `Cancel`, where the list of what is to be canceled begins with its timer.
pub cancel_now-Holds :
    (id : ℕ) (future : List ℕ) (ts : TimerHeap) (l : LoopTimers)
    → IsHeap l.heap
    → Sound (id ∷ canceling l.jobs ++ future) l.made (held l)
    → Nodup (id ∷ canceling l.jobs ++ future)
    → ((i : ℕ) → Mem i (canceling l.jobs) → i < l.made)
    → Perm (marks (canceling l.jobs) (held l)) ts
    → Returns
        (λ m.
          Holds future (marks (id ∷ []) ts) m × (m.made ≡ l.made) × (length m.jobs ≡ length l.jobs))
        (cancel_now id l)
cancel_now-Holds id future ts l h s n e p =
    let later = canceling l.jobs ++ future in
    Returns-map (cancel_now-Canceled id later l.made l h s) λ m c. (
      record {
        order = c.order;
        sound =
            rw (c.changed, c.pending, c.counted)
              (Sound-marks id (Nodup-cons.0 n).0 (Sound-future (λ i. mem-cons_of_mem id) s));
        once = rw c.pending (Nodup-cons.0 n).1;
        early = λ i k. rw c.counted (e i (subst (Mem i) c.pending k));
        becomes =
            rw (c.pending, c.changed, marks_comm (canceling l.jobs) (id ∷ []) (held l))
              (Perm.map (marked (id ∷ [])) p);
      },
      c.counted,
      c.sized,
    )

pub cancel_timer-Holds :
    (in_loop : Bool) (id : ℕ) (future : List ℕ) (ts : TimerHeap) (l : LoopTimers)
    → id < l.made
    → Holds (id ∷ future) ts l
    → Returns
        (λ m. Holds future (marks (id ∷ []) ts) m × (m.made ≡ l.made))
        (cancel_timer in_loop id l)
unfolding cancel_timer run_job do_job
cancel_timer-Holds in_loop id future ts l i v =
    let front : Perm (canceling l.jobs ++ id ∷ future) (id ∷ canceling l.jobs ++ future) =
      perm_middle (canceling l.jobs) future in
    let m : LoopTimers = record l { jobs = l.jobs ++ cancels id ∷ [] } in
    let more : canceling m.jobs ≡ canceling l.jobs ++ id ∷ [] =
      canceling-append l.jobs (cancels id ∷ []) in
    let all : canceling m.jobs ++ future ≡ canceling l.jobs ++ id ∷ future =
      ap (λ is. is ++ future) more ∙ append_assoc (canceling l.jobs) (id ∷ []) future in
    let same : held m ≡ held l =
      ap (λ xs. xs ++ l.heap)
        (pushed-append l.jobs (cancels id ∷ []) ∙ append-nil (pushed l.jobs)) in
    Returns-if in_loop
      (λ _.
        Returns-map
          (cancel_now-Holds id future ts l v.order
            (Sound-future (λ j. (Perm.mem_iff front).1) v.sound) (Perm.nodup front v.once) v.early
            v.becomes)
          λ m (h, d, e). (h, d))
      λ _. returns (
        record {
          order = v.order;
          sound = rw (all, same) v.sound;
          once = rw all v.once;
          early = λ j k.
              Or.elim le_prop (mem-append.0 (subst (Mem j) more k)) (v.early j)
                λ n. Or.elim le_prop (mem-cons.0 n) (λ d. rw d i) λ none. absurd (not-mem-nil none);
          becomes =
              rw (more, same, marks-append (canceling l.jobs) (id ∷ []) (held l))
                (Perm.map (marked (id ∷ [])) v.becomes);
        },
        refl,
      )
