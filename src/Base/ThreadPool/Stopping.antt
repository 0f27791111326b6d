-- ===== src/Base/ThreadPool/Stopping.antt =====
-- Why `Stop` of windz/base/ThreadPool.cpp comes to an end.
use windz.Prelude.{
  ℕ, zero, suc, ◌+◌, ◌-◌, ◌≤◌, ◌<◌, ◌≡◌, refl, sym, ◌∙◌, ap, true, false, List, [], ◌∷◌, length,
  length-set, get_or, get_or-set, set, ltb, ◌==◌, if◌then◌else◌, Option, none, some, arith,
  Bool-cases, inl, inr,
}
use windz.Base.BlockingQueue.{BlockingQueue, pop, wake_up, restore}
use windz.Base.ThreadPool.{
  ThreadPool, Worker, testing, popping, holding, finished, step_at, worker_step, run_workers,
  joined, signal, stop,
}

-- How many steps a thread has left once the pool is told to stop.
abbrev pub rank : Worker → ℕ
rank popping = 3
rank (holding task) = 2
rank testing = 1
rank finished = 0

abbrev pub rank_of : ℕ → ThreadPool → ℕ
rank_of i p = rank (get_or p.threads i finished)

-- The turns of a thread.
abbrev pub turns_of : ℕ → List ℕ → ℕ
turns_of i [] = 0
turns_of i (j ∷ turns) = (if i == j then 1 else 0) + turns_of i turns

-- A pool that was told to stop.
record IsStopping (q : BlockingQueue (Option ℕ)) (p : ThreadPool) : Type 0 where
  told : p.running ≡ false
  same : p.queue ≡ q

record Stepped (q : BlockingQueue (Option ℕ)) (i : ℕ) (p p' : ThreadPool) : Type 0 where
  stopping : IsStopping q p'
  size : length p'.threads ≡ length p.threads
  nearer : (j : ℕ) → rank_of j p' ≡ rank_of j p - (if j == i then 1 else 0)

get_or-outside : (xs : List Worker) (i : ℕ) → length xs ≤ i → get_or xs i finished ≡ finished
get_or-outside [] i h = refl
get_or-outside (x ∷ xs) zero h = absurd (omega arith)
get_or-outside (x ∷ xs) (suc i) h = get_or-outside xs i (omega arith)

-- The thread that moved is at `w` now, one step nearer to its end.
moves :
    (i : ℕ) (w w' : Worker) (p : ThreadPool)
    → get_or p.threads i finished ≡ w
    → rank w ≡ rank w' + 1
    → (j : ℕ)
    → rank (get_or (set p.threads i w') j finished) ≡ rank_of j p - (if j == i then 1 else 0)
moves i w w' p at_w less j = elim (Bool-cases (ltb i (length p.threads))) [
  | inl inside ↦
      let new = get_or-set p.threads i j w' finished (ground arith) in
      elim (Bool-cases (i == j)) [
        | inl e ↦
            let same : i ≡ j = ground arith in
            let here : rank_of j p ≡ rank w =
              ap (λ k. rank (get_or p.threads k finished)) (sym same) ∙ ap rank at_w in
            ap rank (
              new
              ∙ (let t : (if i == j then w' else get_or p.threads j finished) ≡ w' = rw e refl in
                  t))
            ∙ ground (arith, here, less)
        | inr e ↦
            ap rank (
              new
              ∙ (let t : (if i == j then w' else get_or p.threads j finished)
                      ≡ get_or p.threads j finished =
                    rw e refl in
                  t))
            ∙ ground arith
      ]
  | inr outside ↦
      let none_there = get_or-outside p.threads i (ground arith) in
      absurd (omega (arith, less, ap rank (sym at_w ∙ none_there)))
]

module _ (q : BlockingQueue (Option ℕ)) (woken : q.wakeup ≡ true) where
  -- No step of a thread waits any more.
  step_at-Stepped :
      (i : ℕ) (w : Worker) (p : ThreadPool)
      → IsStopping q p
      → get_or p.threads i finished ≡ w
      → (p' : ThreadPool) × (step_at i w p ≡ some p') × Stepped q i p p'
  unfolding step_at pop
  step_at-Stepped i testing p v at_w = (
    record p { threads = set p.threads i finished },
    simp v.told refl,
    record {
      stopping = record { told = v.told; same = v.same };
      size = length-set p.threads i finished;
      nearer = moves i testing finished p at_w (omega arith);
    },
  )
  step_at-Stepped i popping p v at_w = (
    record p { threads = set p.threads i (holding none) },
    rw (v.same, woken) refl,
    record {
      stopping = record { told = v.told; same = v.same };
      size = length-set p.threads i (holding none);
      nearer = moves i popping (holding none) p at_w (omega arith);
    },
  )
  step_at-Stepped i (holding task) p v at_w = (
    _,
    refl,
    record {
      stopping = record { told = v.told; same = v.same };
      size = length-set p.threads i testing;
      nearer = moves i (holding task) testing p at_w (omega arith);
    },
  )
  step_at-Stepped i finished p v at_w = (
    p,
    refl,
    record {
      stopping = v;
      size = refl;
      nearer = λ j. elim (Bool-cases (j == i)) [
        | inl e ↦
            let here : rank_of j p ≡ 0 =
              ap (λ k. rank (get_or p.threads k finished)) (let t : j ≡ i = ground arith in t)
              ∙ ap rank at_w in
            omega (arith, here)
        | inr e ↦ rw e (omega arith)
      ];
    },
  )

  run_workers-ranks :
      (turns : List ℕ) (p : ThreadPool)
      → IsStopping q p
      → (p' : ThreadPool) × (run_workers turns p ≡ some p')
        × IsStopping q p'
        × (length p'.threads ≡ length p.threads)
        × ((j : ℕ) → rank_of j p' ≡ rank_of j p - turns_of j turns)
  unfolding run_workers worker_step
  run_workers-ranks [] p v = (p, refl, v, refl, λ j. omega arith)
  run_workers-ranks (i ∷ turns) p v =
      let (p1, e, s) = step_at-Stepped i (get_or p.threads i finished) p v refl in
      let (p2, f, v', size, near) = run_workers-ranks turns p1 s.stopping in
      (
        p2,
        rw (run_workers, worker_step, e, f) refl,
        v',
        size ∙ s.size,
        λ j. omega (arith, near j, s.nearer j),
      )

rank-finished : (w : Worker) → rank w ≡ 0 → w ≡ finished
rank-finished testing h = absurd (omega arith)
rank-finished popping h = absurd (omega arith)
rank-finished finished h = refl
rank-finished (holding task) h = absurd (omega arith)

rank-three : (w : Worker) → rank w ≤ 3
rank-three testing = omega arith
rank-three popping = omega arith
rank-three finished = omega arith
rank-three (holding task) = omega arith

joined-all :
    (ws : List Worker)
    → ((i : ℕ) → i < length ws → rank (get_or ws i finished) ≡ 0)
    → joined ws ≡ true
unfolding joined
joined-all [] h = refl
joined-all (w ∷ ws) h =
    rw (rank-finished w (h 0 (omega arith))) (joined-all ws λ i p. h (suc i) (omega arith))

-- `Stop` returns as soon as each thread has had three turns, in whatever order they come and
-- whatever the threads were doing, if the tasks themselves return; no thread is left, and the
-- tasks that none had taken stay in the queue.
pub stop-ends :
    (turns : List ℕ) (p : ThreadPool)
    → ((i : ℕ) → i < length p.threads → 3 ≤ turns_of i turns)
    → (p' : ThreadPool) × (stop turns p ≡ some p')
      × (p'.threads ≡ [])
      × (p'.running ≡ false)
      × (p'.queue.queue ≡ p.queue.queue)
      × (p'.queue.wakeup ≡ false)
unfolding stop signal wake_up restore
stop-ends turns p enough =
    let q = record p.queue { wakeup = true } in
    let (p1, e, v, size, near) =
      run_workers-ranks q refl turns (record p { running = false; queue = q })
        (record { told = refl; same = refl }) in
    let all = joined-all p1.threads λ i h.
      omega
        (arith, near i, enough i (omega (arith, size)), rank-three (get_or p.threads i finished)) in
    (
      record p1 { threads = []; queue = record p1.queue { wakeup = false } },
      rw (stop, signal, wake_up, e, all) refl,
      refl,
      v.told,
      ap (λ r. r.queue) v.same,
      refl,
    )
