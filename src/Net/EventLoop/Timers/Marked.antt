-- ===== src/Net/EventLoop/Timers/Marked.antt =====
-- Timers marked as canceled: what `Cancel` of windz/net/Timer.cpp does to those in the heap and in
-- the functors of a loop.
use mathlib.Core.List.{Mem, mem-cons, mem-cons_of_mem, mem-cons_self, not-mem-nil, map-map}
use mathlib.Core.HLevel.{⊥_prop}
use mathlib.Core.Logic.Or
use windz.Prelude.{
  ℕ, zero, suc, ◌≡◌, ◌≢◌, ◌⊎◌, inl, inr, refl, ap, ap₂, Bool, Bool-cases, true, false, ◌||◌, ◌==◌,
  if◌then◌else◌, List, [], ◌∷◌, ◌++◌, length, map, none, some, arith,
}
use windz.Net.Timer.Heap.{Timer, TimerHeap}
use windz.Net.Timer.Heap.Order.{IsHeap, due_at, above}
use windz.Net.Timer.{find, update}
use windz.Net.Timer.Expiry.{ids}
use windz.Net.EventLoop.Timers.{Job, pushes, cancels, LoopTimers, find_job, update_jobs}

abbrev pub listed : ℕ → List ℕ → Bool
listed i [] = false
listed i (j ∷ js) = (i == j) || listed i js

abbrev pub marked : List ℕ → Timer → Timer
marked is t = record t { canceled = t.canceled || listed t.id is }

-- The timers with those of the list canceled.
abbrev pub marks : List ℕ → TimerHeap → TimerHeap
marks is = map (marked is)

-- What the pending functors hold, and what they cancel.
abbrev pub pushed : List Job → TimerHeap
pushed [] = []
pushed (pushes t ∷ jobs) = t ∷ pushed jobs
pushed (cancels i ∷ jobs) = pushed jobs

abbrev pub canceling : List Job → List ℕ
canceling [] = []
canceling (pushes t ∷ jobs) = canceling jobs
canceling (cancels i ∷ jobs) = i ∷ canceling jobs

abbrev pub held : LoopTimers → TimerHeap
held l = pushed l.jobs ++ l.heap

pub update-marks :
    (id : ℕ) (xs : TimerHeap)
    → update id (λ t. record t { canceled = true }) xs ≡ marks (id ∷ []) xs
unfolding update
update-marks id [] = refl
update-marks id (t ∷ xs) = ap₂ ◌∷◌ (ground arith) (update-marks id xs)

pub marks_absent : (id : ℕ) (xs : TimerHeap) → ¬ Mem id (ids xs) → marks (id ∷ []) xs ≡ xs
marks_absent id [] h = refl
marks_absent id (t ∷ xs) h =
    let other : t.id ≢ id = λ e. h (rw e mem-cons_self) in
    ap₂ ◌∷◌ (ground arith) (marks_absent id xs (λ m. h (mem-cons_of_mem t.id m)))

pub find_job-pushed : (id : ℕ) (jobs : List Job) → find_job id jobs ≡ find id (pushed jobs)
unfolding find_job find
find_job-pushed id [] = refl
find_job-pushed id (cancels i ∷ jobs) = find_job-pushed id jobs
find_job-pushed id (pushes t ∷ jobs) =
    ap (λ o. if t.id == id then some t else o) (find_job-pushed id jobs)

pub pushed-update_jobs :
    (id : ℕ) (f : Timer → Timer) (jobs : List Job)
    → pushed (update_jobs id f jobs) ≡ update id f (pushed jobs)
unfolding update_jobs update
pushed-update_jobs id f [] = refl
pushed-update_jobs id f (cancels i ∷ jobs) = pushed-update_jobs id f jobs
pushed-update_jobs id f (pushes t ∷ jobs) =
    ap (λ ts. (if t.id == id then f t else t) ∷ ts) (pushed-update_jobs id f jobs)

pub canceling-update_jobs :
    (id : ℕ) (f : Timer → Timer) (jobs : List Job)
    → canceling (update_jobs id f jobs) ≡ canceling jobs
unfolding update_jobs
canceling-update_jobs id f [] = refl
canceling-update_jobs id f (cancels i ∷ jobs) = ap (λ is. i ∷ is) (canceling-update_jobs id f jobs)
canceling-update_jobs id f (pushes t ∷ jobs) = canceling-update_jobs id f jobs

pub length-update_jobs :
    (id : ℕ) (f : Timer → Timer) (jobs : List Job) → length (update_jobs id f jobs) ≡ length jobs
unfolding update_jobs
length-update_jobs id f [] = refl
length-update_jobs id f (cancels i ∷ jobs) = ap suc (length-update_jobs id f jobs)
length-update_jobs id f (pushes t ∷ jobs) = ap suc (length-update_jobs id f jobs)

listed-append : (i : ℕ) (is js : List ℕ) → listed i (is ++ js) ≡ (listed i is || listed i js)
listed-append i [] js = refl
listed-append i (j ∷ is) js = ground (arith, listed-append i is js)

listed_absent : (i : ℕ) (is : List ℕ) → ¬ Mem i is → listed i is ≡ false
listed_absent i [] h = refl
listed_absent i (j ∷ is) h =
    let other : i ≢ j = λ e. h (rw e mem-cons_self) in
    ground (arith, listed_absent i is (λ m. h (mem-cons_of_mem j m)))

pub marked_absent : (is : List ℕ) (t : Timer) → ¬ Mem t.id is → marked is t ≡ t
marked_absent is t h = rw (listed_absent t.id is h) (ground arith)

-- Marks of two lists are those of both, in either order.
pub marks-append : (is js : List ℕ) (xs : TimerHeap) → marks (is ++ js) xs ≡ marks js (marks is xs)
marks-append is js [] = refl
marks-append is js (t ∷ xs) =
    ap₂ ◌∷◌ (ground (arith, listed-append t.id is js)) (marks-append is js xs)

pub marks_comm : (is js : List ℕ) (xs : TimerHeap) → marks is (marks js xs) ≡ marks js (marks is xs)
marks_comm is js [] = refl
marks_comm is js (t ∷ xs) = ap₂ ◌∷◌ (ground arith) (marks_comm is js xs)

-- `find` gives a timer of the list with the id, if there is one.
abbrev IsFound : ℕ → TimerHeap → Type 0
IsFound id xs =
    ((find id xs ≡ none) × ¬ Mem id (ids xs))
    ⊎ ((t : Timer) × (find id xs ≡ some t) × Mem t xs × (t.id ≡ id))

pub find-IsFound : (id : ℕ) (xs : TimerHeap) → IsFound id xs
unfolding find
find-IsFound id [] = inl (refl, not-mem-nil)
find-IsFound id (t ∷ xs) = elim (Bool-cases (t.id == id)) [
  | inl e ↦ inr (t, rw e refl, mem-cons_self, ground arith)
  | inr e ↦ elim (find-IsFound id xs) [
    | inl (n, m) ↦ inl (rw e n, λ k. Or.elim ⊥_prop (mem-cons.0 k) (λ d. absurd (ground arith)) m)
    | inr (u, f, m, i) ↦ inr (u, rw e f, mem-cons_of_mem t m, i)
  ]
]

due_at-marks : (is : List ℕ) (xs : TimerHeap) (i : ℕ) → due_at (marks is xs) i ≡ due_at xs i
due_at-marks is [] i = refl
due_at-marks is (t ∷ xs) zero = refl
due_at-marks is (t ∷ xs) (suc i) = due_at-marks is xs i

pub length-marks : (is : List ℕ) (xs : TimerHeap) → length (marks is xs) ≡ length xs
length-marks is [] = refl
length-marks is (t ∷ xs) = ap suc (length-marks is xs)

pub marks-IsHeap : (is : List ℕ) (xs : TimerHeap) → IsHeap xs → IsHeap (marks is xs)
marks-IsHeap is xs h c p q =
    rw (due_at-marks is xs c, due_at-marks is xs (above c))
      (h c p (omega (arith, length-marks is xs)))

pub ids-marks : (is : List ℕ) (xs : TimerHeap) → ids (marks is xs) ≡ ids xs
ids-marks is xs = map-map (λ t. t.id) (marked is) xs
