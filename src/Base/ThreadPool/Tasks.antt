-- ===== src/Base/ThreadPool/Tasks.antt =====
-- Where the tasks of windz/base/ThreadPool.cpp are: no task is lost, and none is run twice.
use windz.Prelude.{
  ℕ, zero, suc, ◌+◌, ◌<◌, ◌≡◌, ◌≢◌, refl, sym, ap, false, ◌==◌, List, [], ◌∷◌, ◌++◌, length, get_or,
  set, if◌then◌else◌, Option, none, some, Option-cases, inl, inr, Run, ok, ok-injective, Run-cases,
  ◌>>=◌, arith, fault-ne-ok,
}
use mathlib.Core.Option.{some-injective, none-ne-some}
use windz.Base.BlockingQueue.{push, pop}
use windz.Base.ThreadPool.{
  ThreadPool, Worker, testing, popping, holding, finished, add_task, call_task, step_at,
  worker_step,
}

-- What happens to a pool that runs: a task is added, or a thread does a step. `none` stands for a
-- sequence in which one of them would wait.
pub data Call : Type 0 where
  adds : Option ℕ → Call
  works : ℕ → Call

unfoldable pub step : Call → ThreadPool → Run (Option ThreadPool)
step (adds task) p = add_task task p
step (works i) p = ok (worker_step i p)

unfoldable pub run : List Call → ThreadPool → Run (Option ThreadPool)
run [] p = ok (some p)
run (k ∷ ks) p = step k p >>= λ r. elim r [ none ↦ ok none | some p' ↦ run ks p' ]

abbrev pub one_task : ℕ → Option ℕ → ℕ
one_task f none = 0
one_task f (some g) = if f == g then 1 else 0

-- How often a task was run, is held by a thread, waits in the queue, was added.
abbrev pub times_run : ℕ → List ℕ → ℕ
times_run f [] = 0
times_run f (g ∷ gs) = (if f == g then 1 else 0) + times_run f gs

abbrev held_at : ℕ → Worker → ℕ
held_at f (holding task) = one_task f task
held_at f _ = 0

abbrev pub times_held : ℕ → List Worker → ℕ
times_held f [] = 0
times_held f (w ∷ ws) = held_at f w + times_held f ws

abbrev pub times_queued : ℕ → List (Option ℕ) → ℕ
times_queued f [] = 0
times_queued f (t ∷ ts) = one_task f t + times_queued f ts

abbrev pub times_added : ℕ → List Call → ℕ
times_added f [] = 0
times_added f (adds task ∷ ks) = one_task f task + times_added f ks
times_added f (works i ∷ ks) = times_added f ks

abbrev pub tally : ℕ → ThreadPool → ℕ
tally f p = times_run f p.ran + times_held f p.threads + times_queued f p.queue.queue

times_run-append :
    (f : ℕ) (xs ys : List ℕ) → times_run f (xs ++ ys) ≡ times_run f xs + times_run f ys
times_run-append f [] ys = omega arith
times_run-append f (x ∷ xs) ys = omega (arith, times_run-append f xs ys)

times_queued-append :
    (f : ℕ) (xs ys : List (Option ℕ))
    → times_queued f (xs ++ ys) ≡ times_queued f xs + times_queued f ys
times_queued-append f [] ys = omega arith
times_queued-append f (x ∷ xs) ys = omega (arith, times_queued-append f xs ys)

-- One thread comes to stand at `w`.
times_held-set :
    (f : ℕ) (ws : List Worker) (i : ℕ) (w : Worker)
    → i < length ws
    → times_held f (set ws i w) + held_at f (get_or ws i finished) ≡ times_held f ws + held_at f w
times_held-set f [] i w h = absurd (omega arith)
times_held-set f (x ∷ xs) zero w h = omega arith
times_held-set f (x ∷ xs) (suc i) w h = omega (arith, times_held-set f xs i w (omega arith))

times_run-call_task :
    (f : ℕ) (task : Option ℕ) (ran : List ℕ)
    → times_run f (call_task task ran) ≡ times_run f ran + one_task f task
unfolding call_task
times_run-call_task f none ran = omega arith
times_run-call_task f (some g) ran = omega (arith, times_run-append f ran (g ∷ []))

-- What a step keeps, and that nobody was told to stop.
record Keeps (f added : ℕ) (p p' : ThreadPool) : Type 0 where
  same : tally f p' ≡ tally f p + added
  unwoken : p'.queue.wakeup ≡ false

thread_inside :
    (ws : List Worker) (i : ℕ) (w : Worker)
    → get_or ws i finished ≡ w
    → w ≢ finished
    → i < length ws
thread_inside [] i w e n = absurd (n (sym e))
thread_inside (x ∷ xs) zero w e n = omega arith
thread_inside (x ∷ xs) (suc i) w e n = omega (arith, thread_inside xs i w e n)

step_at-Keeps :
    (f i : ℕ) (w : Worker) (p p' : ThreadPool)
    → p.queue.wakeup ≡ false
    → get_or p.threads i finished ≡ w
    → step_at i w p ≡ some p'
    → Keeps f 0 p p'
unfolding step_at pop
step_at-Keeps f i testing p p' v at_w e =
    let inside = thread_inside p.threads i testing at_w (λ q. cc) in
    let next = if p.running then popping else finished in
    let moved = times_held-set f p.threads i next inside in
    rw (← some-injective _ _ e)
      (record { same = ground (arith, moved, ap (held_at f) at_w); unwoken = v })
step_at-Keeps f i popping p p' v at_w e = go p.queue.queue refl
  where
    go : (ts : List (Option ℕ)) → p.queue.queue ≡ ts → Keeps f 0 p p'
    go [] q = absurd (none-ne-some _ (rw (v, q, step_at, pop) at e))
    go (t ∷ ts) q =
        let moved =
          times_held-set f p.threads i (holding t)
            (thread_inside p.threads i popping at_w (λ r. cc)) in
        rw (← some-injective _ _ (rw (v, q, step_at, pop) at e)) (record {
          same = omega (arith, moved, ap (held_at f) at_w, ap (times_queued f) q);
          unwoken = v;
        })
step_at-Keeps f i (holding task) p p' v at_w e =
    let inside = thread_inside p.threads i (holding task) at_w (λ q. cc) in
    let moved = times_held-set f p.threads i testing inside in
    rw (← some-injective _ _ e) (record {
      same = omega (arith, moved, ap (held_at f) at_w, times_run-call_task f task p.ran);
      unwoken = v;
    })
step_at-Keeps f i finished p p' v at_w e =
    rw (← some-injective _ _ e) (record { same = omega arith; unwoken = v })

add_task-Keeps :
    (f : ℕ) (task : Option ℕ) (p p' : ThreadPool)
    → p.queue.wakeup ≡ false
    → add_task task p ≡ ok (some p')
    → Keeps f (one_task f task) p p'
unfolding add_task push
add_task-Keeps f task p p' v e = ground (arith, times_queued-append f p.queue.queue (task ∷ []))

-- Whatever tasks are added and whatever the threads do, in whatever order, each task that was added
-- has been run, or a thread holds it, or it waits in the queue, as often in all as it was added,
-- as long as the pool has not been told to stop.
pub run-tally :
    (f : ℕ) (ks : List Call) (p p' : ThreadPool)
    → p.queue.wakeup ≡ false
    → run ks p ≡ ok (some p')
    → tally f p' ≡ tally f p + times_added f ks
unfolding run step worker_step
run-tally f [] p p' v e = rw (← some-injective _ _ (ok-injective e)) (omega arith)
run-tally f (adds task ∷ ks) p p' v e = elim (Run-cases (add_task task p)) [
  | inr (fl, q) ↦ absurd (fault-ne-ok (rw (q, run, step) at e))
  | inl (none, q) ↦ absurd (none-ne-some _ (ok-injective (rw (q, run, step) at e)))
  | inl (some p1, q) ↦
      let k = add_task-Keeps f task p p1 v q in
      omega (arith, k.same, run-tally f ks p1 p' k.unwoken (rw (q, run, step) at e))
]
run-tally f (works i ∷ ks) p p' v e = elim (Option-cases (worker_step i p)) [
  | inl q ↦ absurd (none-ne-some _ (ok-injective (rw (q, run, step) at e)))
  | inr (p1, q) ↦
      let k = step_at-Keeps f i (get_or p.threads i finished) p p1 v refl q in
      omega (arith, k.same, run-tally f ks p1 p' k.unwoken (rw (q, run, step) at e))
]
