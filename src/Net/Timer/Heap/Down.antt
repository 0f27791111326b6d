-- ===== src/Net/Timer/Heap/Down.antt =====
-- `DownInHeap` and `PopInHeap` of windz/net/Timer.cpp.
use mathlib.Core.List.{Perm, perm_middle}
use mathlib.Core.List.Perm
use windz.Prelude.{
  ℕ, zero, suc, ◌+◌, ◌-◌, ◌*◌, ◌<◌, ◌≡◌, ◌≢◌, ◌⊎◌, refl, ap, [], ◌∷◌, ◌++◌, length, take,
  get_or-take, append-nil, arith, ltb, Returns, returns, Returns-if, Returns-map, Returns-bind,
}
use windz.Prelude.Int.{◌≤ℤ◌, ◌<ℤ◌, leb_ℤ}
use windz.Net.Timer.Heap.{TimerHeap, no_timer, min_child, down_loop, down_in_heap, pop_in_heap}
use windz.Net.Timer.Heap.Order.{
  above, entry, due_at, IsHeap, Ordered, Ordered-swapped, swapped, length-swapped, entry-swapped,
  swapped-perm, earlier-ok, load-ok, perm-length,
}

-- Only the timers right below `i` may be due before it, and they are due after what is above `i`.
pub record Sinking (heap : TimerHeap) (i : ℕ) : Type 0 where
  pub edges :
      (c : ℕ) → 0 < c → c < length heap → above c ≢ i → due_at heap (above c) ≤ℤ due_at heap c
  pub below :
      (c : ℕ)
      → 0 < c
      → c < length heap
      → above c ≡ i
      → 0 < i
      → due_at heap (above i) ≤ℤ due_at heap c

-- The child of `i` that is due first.
record IsMinChild (heap : TimerHeap) (i m : ℕ) : Type 0 where
  inside : m < length heap
  child : (m ≡ i * 2 + 1) ⊎ (m ≡ i * 2 + 2)
  first : (c : ℕ) → 0 < c → c < length heap → above c ≡ i → due_at heap m ≤ℤ due_at heap c

min_child-IsMinChild :
    (heap : TimerHeap) (i : ℕ)
    → i * 2 + 1 < length heap
    → Returns (IsMinChild heap i) (min_child heap (i * 2 + 1))
unfolding min_child
min_child-IsMinChild heap i h = grind (arith, earlier-ok heap (i * 2 + 1) (i * 2 + 1 + 1), returns)

sink :
    {heap : TimerHeap} {i m : ℕ}
    → Sinking heap i
    → IsMinChild heap i m
    → due_at heap m <ℤ due_at heap i
    → Sinking (swapped heap i m) m
sink {heap} {i} {m} v s lower =
    let hi : i < length heap = omega arith in
    let size = length-swapped heap i m hi s.inside in
    let at = entry-swapped heap i m hi s.inside in
    record {
      edges = λ c p q n.
          ground (arith, size, at c, at (above c), v.edges c, v.below c, v.below m, s.first c);
      below = λ c p q e n. ground (arith, size, at c, at (above m), v.edges c);
    }

down_loop_restores :
    (fuel : ℕ) (heap : TimerHeap) (i : ℕ)
    → length heap - i < fuel
    → Sinking heap i
    → Returns (Ordered heap) (down_loop fuel heap i)
unfolding down_loop
down_loop_restores zero heap i f v = absurd (omega arith)
down_loop_restores (suc fuel) heap i f v =
    Returns-if (ltb (i * 2 + 1) (length heap))
      (λ t.
        let hi : i < length heap = ground arith in
        Returns-bind (min_child-IsMinChild heap i (ground arith)) λ m s.
          rw (load-ok heap i hi, load-ok heap m s.inside)
            (Returns-if (leb_ℤ (due_at heap i) (due_at heap m))
              (λ settled. returns (λ c p q. ground (arith, v.edges c, s.first c), Perm.rfl))
              λ lower. Ordered-swapped hi s.inside (
                down_loop_restores fuel (swapped heap i m) m
                  (omega (arith, length-swapped heap i m hi s.inside)) (sink v s (ground arith)))))
      λ t. returns (λ c p q. ground (arith, v.edges c), Perm.rfl)

-- `DownInHeap` ends, inside the vector, with a heap of the same timers.
pub down_restores :
    (heap : TimerHeap) (i : ℕ) → Sinking heap i → Returns (Ordered heap) (down_in_heap heap i)
unfolding down_in_heap
down_restores heap i v = down_loop_restores (length heap + 1) heap i (omega arith) v

-- The vector that `PopInHeap` hands to `DownInHeap`: the root swapped to the end and cut off.
abbrev cut : TimerHeap → TimerHeap
cut heap = take (length heap - 1) (swapped heap 0 (length heap - 1))

cut_whole :
    (n : ℕ) (heap : TimerHeap) → length heap ≡ suc n → take n heap ++ entry heap n ∷ [] ≡ heap
cut_whole zero (x ∷ []) h = refl
cut_whole (suc n) (x ∷ heap) h = ap (◌∷◌ x) (cut_whole n heap (omega arith))
cut_whole n heap h = absurd (omega arith)

cut-perm : (heap : TimerHeap) → 0 < length heap → Perm (entry heap 0 ∷ cut heap) heap
cut-perm heap h =
    let n = length heap - 1 in
    let moved = swapped heap 0 n in
    let size = length-swapped heap 0 n h (omega arith) in
    let last : entry moved n ≡ entry heap 0 =
      ground (arith, entry-swapped heap 0 n h (omega arith) n) in
    let whole : cut heap ++ entry heap 0 ∷ [] ≡ moved =
      rw last at (cut_whole n moved (omega arith)) in
    Perm.trans
      (Perm.symm (rw (append-nil (cut heap)) at (perm_middle {a = entry heap 0} (cut heap) [])))
      (rw whole (swapped-perm heap 0 n h (omega arith)))

cut-Sinking : (heap : TimerHeap) → IsHeap heap → 0 < length heap → Sinking (cut heap) 0
cut-Sinking heap h pos =
    let n = length heap - 1 in
    let at = entry-swapped heap 0 n pos (omega arith) in
    let kept = λ (c : ℕ). get_or-take n (swapped heap 0 n) c no_timer in
    let shorter = perm-length (cut-perm heap pos) in
    record {
      edges = λ c p q r. ground (arith, h c, at c, at (above c), kept c, kept (above c));
      below = λ c p q r s. absurd (omega arith);
    }

-- What `PopInHeap` leaves: a heap of all the timers but the root.
abbrev pub Popped : TimerHeap → TimerHeap → Type 0
Popped heap b = IsHeap b × Perm (entry heap 0 ∷ b) heap

-- `PopInHeap` on a heap that is not empty takes exactly the root away.
pub pop_in_heap_lem :
    (heap : TimerHeap) → IsHeap heap → 0 < length heap → Returns (Popped heap) (pop_in_heap heap)
unfolding pop_in_heap
pop_in_heap_lem heap h pos =
    rw (load-ok heap 0 pos, load-ok heap (length heap - 1) (omega arith))
      (Returns-map (down_restores (cut heap) 0 (cut-Sinking heap h pos))
        λ b o. (o.0, Perm.trans (Perm.cons (entry heap 0) o.1) (cut-perm heap pos)))
