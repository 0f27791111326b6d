-- ===== src/Net/Timer/Heap/Up.antt =====
-- `UpInHeap` and `PushInHeap` of windz/net/Timer.cpp.
use mathlib.Core.List.{perm_middle}
use mathlib.Core.List.Perm
use windz.Prelude.{
  ℕ, zero, suc, ◌+◌, ◌-◌, ◌<◌, ◌≡◌, ◌≢◌, [], ◌∷◌, ◌++◌, length, length-append, get_or-append,
  append-nil, arith, ltb, Returns, returns, Returns-if, Returns-map,
}
use windz.Prelude.Int.{◌≤ℤ◌, ◌<ℤ◌, ltb_ℤ}
use windz.Net.Timer.Heap.{Timer, TimerHeap, no_timer, up_loop, up_in_heap, push_in_heap}
use windz.Net.Timer.Heap.Order.{
  above, due_at, max_heap, IsHeap, Ordered, Ordered-swapped, swapped, length-swapped, entry-swapped,
  earlier-ok, swap_in_heap-ok, parent_of-above,
}

-- Only the timer at `i` may be due before the one above it, and those below it are due after both.
pub record Rising (heap : TimerHeap) (i : ℕ) : Type 0 where
  pub inside : i < length heap
  pub small : length heap < max_heap
  pub edges : (c : ℕ) → 0 < c → c < length heap → c ≢ i → due_at heap (above c) ≤ℤ due_at heap c
  pub below :
      (c : ℕ)
      → 0 < c
      → c < length heap
      → above c ≡ i
      → 0 < i
      → due_at heap (above i) ≤ℤ due_at heap c

rise :
    {heap : TimerHeap} {i : ℕ}
    → Rising heap i
    → 0 < i
    → due_at heap i <ℤ due_at heap (above i)
    → Rising (swapped heap i (above i)) (above i)
rise {heap} {i} v pos lower =
    let size = length-swapped heap i (above i) v.inside (omega arith) in
    let at = entry-swapped heap i (above i) v.inside (omega arith) in
    record {
      inside = omega (arith, size);
      small = omega (arith, size);
      edges = λ c p q n. ground (arith, size, at c, at (above c), v.edges c, v.below c);
      below = λ c p q e n.
          ground (arith, size, at c, at (above (above i)), v.edges c, v.edges (above i));
    }

up_loop_restores :
    (fuel : ℕ) (heap : TimerHeap) (i : ℕ)
    → i < fuel
    → Rising heap i
    → Returns (Ordered heap) (up_loop fuel heap i)
unfolding up_loop
up_loop_restores zero heap i f v = absurd (omega arith)
up_loop_restores (suc fuel) heap i f v =
    Returns-if (ltb 0 i)
      (λ t.
        let higher : 0 < i = ground arith in
        let up : above i < length heap = omega arith in
        rw
          (
            parent_of-above i higher (omega arith),
            earlier-ok heap i (above i) v.inside up,
            swap_in_heap-ok heap i (above i) v.inside up,
          )
          (Returns-if (ltb_ℤ (due_at heap i) (due_at heap (above i)))
            (λ lower. Ordered-swapped v.inside up (
              up_loop_restores fuel (swapped heap i (above i)) (above i) (omega arith)
                (rise v higher (ground arith))))
            λ settled. returns (λ c p q. ground (arith, v.edges c), Perm.rfl)))
      λ t. returns (λ c p q. v.edges c p q (ground arith), Perm.rfl)

-- `UpInHeap` ends, inside the vector, with a heap of the same timers.
pub up_restores :
    (heap : TimerHeap) (i : ℕ) → Rising heap i → Returns (Ordered heap) (up_in_heap heap i)
unfolding up_in_heap
up_restores heap i v = up_loop_restores (length heap) heap i v.inside v

-- `PushInHeap` adds exactly the timer.
pub push_in_heap_lem :
    (heap : TimerHeap) (t : Timer)
    → IsHeap heap
    → length heap + 1 < max_heap
    → Returns (Ordered (t ∷ heap)) (push_in_heap heap t)
unfolding push_in_heap
push_in_heap_lem heap t h small =
    Returns-map (up_restores grown _ start)
      λ b o. (o.0, Perm.trans o.1 (rw (append-nil heap) at (perm_middle {a = t} heap [])))
  where
    grown : TimerHeap
    grown = heap ++ t ∷ []

    size : length grown ≡ length heap + 1
    size = length-append heap (t ∷ [])

    start : Rising grown (length grown - 1)
    start = record {
      inside = omega (arith, size);
      small = omega (arith, size);
      edges = λ c p q n. ground (
        arith,
        size,
        h c,
        get_or-append heap (t ∷ []) c no_timer,
        get_or-append heap (t ∷ []) (above c) no_timer,
      );
      below = λ c p q e n. absurd (omega (arith, size));
    }
