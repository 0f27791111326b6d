-- ===== src/Net/Timer/Heap/Order.antt =====
-- The heap order of windz/net/Timer.cpp, and what a swap of two entries does to it.
use mathlib.Core.List.{Perm, Permᴰ}
use mathlib.Core.List.Perm
use mathlib.Core.Logic.{∥∥₁_elim}
use native.Mathlib.Nat.{ℕ_set}
use windz.Prelude.{
  ℕ, zero, suc, ◌-◌, ◌/◌, ◌^◌, ◌<◌, ◌≡◌, refl, ap, ◌∙◌, [], ◌∷◌, length, get_or, set,
  get_elem?-get_or, get_or-set, length-set, ◌==◌, if◌then◌else◌, Run, ok, arith, Returns,
  Returns-map,
}
use windz.Prelude.Int.{ℤ, ◌≤ℤ◌, ltb_ℤ}
use windz.Net.Timer.Heap.{Timer, TimerHeap, no_timer, load, earlier, swap_in_heap, parent_of}

abbrev pub entry : TimerHeap → ℕ → Timer
entry heap i = get_or heap i no_timer

abbrev pub due_at : TimerHeap → ℕ → ℤ
due_at heap i = (entry heap i).when

abbrev pub above : ℕ → ℕ
above i = (i - 1) / 2

-- A vector of pointers is smaller than the address space.
abbrev pub max_heap : ℕ
max_heap = 2 ^ 60

pub parent_of-above : (i : ℕ) → 0 < i → i < max_heap → parent_of i ≡ above i
parent_of-above i h k = omega arith

-- No timer is due before the one above it.
abbrev pub IsHeap : TimerHeap → Type 0
IsHeap heap = (c : ℕ) → 0 < c → c < length heap → due_at heap (above c) ≤ℤ due_at heap c

pub load-ok : (heap : TimerHeap) (i : ℕ) → i < length heap → load heap i ≡ ok (entry heap i)
unfolding load
load-ok heap i h = rw (get_elem?-get_or heap i no_timer h, load)

abbrev pub swapped : TimerHeap → ℕ → ℕ → TimerHeap
swapped heap l r = set (set heap l (entry heap r)) r (entry heap l)

module _ (heap : TimerHeap) (l r : ℕ) (hl : l < length heap) (hr : r < length heap) where
  pub earlier-ok : earlier heap l r ≡ ok (ltb_ℤ (due_at heap l) (due_at heap r))
  unfolding earlier
  earlier-ok = rw (load-ok heap l hl, load-ok heap r hr)

  pub swap_in_heap-ok : swap_in_heap heap l r ≡ ok (swapped heap l r)
  unfolding swap_in_heap
  swap_in_heap-ok = rw (load-ok heap l hl, load-ok heap r hr)

  pub length-swapped : length (swapped heap l r) ≡ length heap
  length-swapped =
      length-set (set heap l (entry heap r)) r (entry heap l) ∙ length-set heap l (entry heap r)

  pub entry-swapped :
      (c : ℕ)
      → entry (swapped heap l r) c
        ≡ (if r == c then entry heap l else if l == c then entry heap r else entry heap c)
  entry-swapped c = rw (
    get_or-set (set heap l (entry heap r)) r c (entry heap l) no_timer
        (rw (length-set heap l (entry heap r)) hr),
    get_or-set heap l c (entry heap r) no_timer hl,
  )

-- Writing an entry trades the old timer for the new one.
set-trades :
    (heap : TimerHeap) (i : ℕ) (t : Timer)
    → i < length heap
    → Perm (entry heap i ∷ set heap i t) (t ∷ heap)
set-trades [] i t h = absurd (omega arith)
set-trades (x ∷ heap) zero t h = Perm.swap t x heap
set-trades (x ∷ heap) (suc i) t h =
    Perm.trans (Perm.swap x (entry heap i) (set heap i t))
      (Perm.trans (Perm.cons x (set-trades heap i t (omega arith))) (Perm.swap t x heap))

pub swapped-perm :
    (heap : TimerHeap) (l r : ℕ) → l < length heap → r < length heap → Perm (swapped heap l r) heap
swapped-perm heap l r hl hr =
    let first = set heap l (entry heap r) in
    let same : entry first r ≡ entry heap r =
      ground (arith, get_or-set heap l r (entry heap r) no_timer) in
    Perm.cons_inv (
      Perm.trans
        (rw same at (set-trades first r (entry heap l) (rw (length-set heap l (entry heap r)) hr)))
        (set-trades heap l (entry heap r) hl))

length-Permᴰ : {xs ys : TimerHeap} → Permᴰ xs ys → length xs ≡ length ys
length-Permᴰ (Permᴰ.swap _ _) = refl
length-Permᴰ (Permᴰ.trans first second) = length-Permᴰ first ∙ length-Permᴰ second
length-Permᴰ (Permᴰ.cons _ rest) = ap suc (length-Permᴰ rest)
length-Permᴰ Permᴰ.nil = refl

pub perm-length : {a b : TimerHeap} → Perm a b → length a ≡ length b
perm-length p = ∥∥₁_elim p (ℕ_set _ _) length-Permᴰ

-- A heap of the timers of `a`.
abbrev pub Ordered : TimerHeap → TimerHeap → Type 0
Ordered a b = IsHeap b × Perm b a

pub Ordered-swapped :
    {heap : TimerHeap} {l r : ℕ} {run : Run TimerHeap}
    → l < length heap
    → r < length heap
    → Returns (Ordered (swapped heap l r)) run
    → Returns (Ordered heap) run
Ordered-swapped {heap} {l} {r} hl hr done =
    Returns-map done λ b o. (o.0, Perm.trans o.1 (swapped-perm heap l r hl hr))

earliest_below :
    (fuel : ℕ) (heap : TimerHeap) (i : ℕ)
    → IsHeap heap
    → i < fuel
    → i < length heap
    → due_at heap 0 ≤ℤ due_at heap i
earliest_below zero heap i h f p = absurd (omega arith)
earliest_below (suc fuel) heap i h f p = ground (arith, h i, earliest_below fuel heap (above i) h)

-- The root of a heap is due no later than any other timer.
pub root_earliest :
    (heap : TimerHeap) (i : ℕ) → IsHeap heap → i < length heap → due_at heap 0 ≤ℤ due_at heap i
root_earliest heap i h p = earliest_below (suc i) heap i h (omega arith) p
