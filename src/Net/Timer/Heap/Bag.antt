-- ===== src/Net/Timer/Heap/Bag.antt =====
-- The heap of windz/net/Timer.cpp as a priority queue: what it gives depends only on which timers
-- it holds, not on where they stand in the vector.
use mathlib.Core.List.{Mem, not-mem-nil, mem-cons}
use mathlib.Core.Logic.Or
use mathlib.Mathlib.Data.Multiset.Defs.{Multiset, of_list}
use mathlib.Mathlib.Data.Multiset.Defs as Multiset
use mathlib.Mathlib.Data.Multiset.ZeroCons.{cons}
use mathlib.Mathlib.Data.Multiset.ZeroCons as ZeroCons
use mathlib.Core.Quot.{sound}
use native.Mathlib.Bridge.{le_prop}
use windz.Prelude.{
  ℕ, suc, ◌+◌, ◌<◌, ◌≤◌, ◌≡◌, refl, sym, List, [], ◌∷◌, length, Option, none, some, Run, ok, ◌>>=◌,
  Returns, returns, Returns-bind, arith,
}
use windz.Prelude.Int.{◌≤ℤ◌}
use windz.Net.Timer.Heap.{Timer, TimerHeap, push_in_heap, pop_in_heap}
use windz.Net.Timer.Heap.Order.{IsHeap, due_at, max_heap, root_earliest, perm-length}
use windz.Net.Timer.Heap.Up.{push_in_heap_lem}
use windz.Net.Timer.Heap.Down.{pop_in_heap_lem}

-- `PushInHeap`, and `heap_[0]` with `PopInHeap`, which is called on a heap that is not empty.
pub data Call : Type 0 where
  pushes : Timer → Call
  pops : Call

unfoldable pub call_heap : Call → TimerHeap → Run (Option Timer × TimerHeap)
call_heap (pushes t) heap = push_in_heap heap t >>= λ b. ok (none, b)
call_heap pops [] = ok (none, [])
call_heap pops (t ∷ heap) = pop_in_heap (t ∷ heap) >>= λ b. ok (some t, b)

unfoldable pub call_all : List Call → TimerHeap → Run (List (Option Timer) × TimerHeap)
call_all [] heap = ok ([], heap)
call_all (c ∷ calls) heap = do
  (out, b) ← call_heap c heap
  (outs, b') ← call_all calls b
  ok (out ∷ outs, b')

-- No timer of the multiset is due before `t`.
abbrev pub Earliest : Timer → Multiset Timer → Type 0
Earliest t s = (u : Timer) → Multiset.Mem s u → t.when ≤ℤ u.when

-- What a priority queue may give for a call, and the multiset of timers that it has then.
pub data Serves : Call → Multiset Timer → Option Timer → Multiset Timer → Type 0 where
  pushed : {t : Timer} {s s' : Multiset Timer} → s' ≡ cons t s → Serves (pushes t) s none s'
  popped :
      {t : Timer} {s s' : Multiset Timer} → s ≡ cons t s' → Earliest t s → Serves pops s (some t) s'
  unserved : {s : Multiset Timer} → s ≡ ZeroCons.zero → Serves pops s none s

pub data ServesAll
    : List Call → Multiset Timer → List (Option Timer) → Multiset Timer → Type 0 where
  done : {s : Multiset Timer} → ServesAll [] s [] s
  next :
      {c : Call} {calls : List Call} {s s' s'' : Multiset Timer} {out : Option Timer}
      {outs : List (Option Timer)}
      → Serves c s out s'
      → ServesAll calls s' outs s''
      → ServesAll (c ∷ calls) s (out ∷ outs) s''

-- What holds of every index holds of every timer in the list.
all_due :
    (t u : Timer) (heap : TimerHeap)
    → ((i : ℕ) → i < length heap → t.when ≤ℤ due_at heap i)
    → Mem u heap
    → t.when ≤ℤ u.when
all_due t u [] h m = absurd (not-mem-nil m)
all_due t u (x ∷ heap) h m =
    Or.elim le_prop (mem-cons.0 m) (λ e. rw e (h 0 (omega arith)))
      λ k. all_due t u heap (λ i p. h (suc i) (omega arith)) k

abbrev Answered : Call → TimerHeap → Option Timer × TimerHeap → Type 0
Answered c heap (out, b) =
    IsHeap b × Serves c (of_list heap) out (of_list b) × (length b ≤ length heap + 1)

call_heap-Serves :
    (c : Call) (heap : TimerHeap)
    → IsHeap heap
    → length heap + 1 < max_heap
    → Returns (Answered c heap) (call_heap c heap)
unfolding call_heap
call_heap-Serves (pushes t) heap h small =
    Returns-bind (push_in_heap_lem heap t h small)
      λ b o. returns (o.0, pushed (sound o.1), omega (arith, perm-length o.1))
call_heap-Serves pops [] h small = returns (h, unserved refl, omega arith)
call_heap-Serves pops (t ∷ heap) h small =
    Returns-bind (pop_in_heap_lem (t ∷ heap) h (omega arith)) λ b o. returns (
      o.0,
      popped (sym (sound o.1))
          (λ u m. all_due t u (t ∷ heap) (λ i p. root_earliest (t ∷ heap) i h p) m),
      omega (arith, perm-length o.1),
    )

-- Whatever sequence of insertions and removals the timer heap is used for, every call returns, and
-- the calls give what a priority queue gives, a multiset of timers of which each removal takes one
-- that is due first; where the timers stand in the vector does not matter.
pub call_all-ServesAll :
    (calls : List Call) (heap : TimerHeap)
    → IsHeap heap
    → length heap + length calls + 1 < max_heap
    → Returns
        (λ (outs, b). IsHeap b × ServesAll calls (of_list heap) outs (of_list b))
        (call_all calls heap)
unfolding call_all
call_all-ServesAll [] heap h small = returns (h, done)
call_all-ServesAll (c ∷ calls) heap h small =
    Returns-bind (call_heap-Serves c heap h (omega arith)) λ (out, b) v.
      let (v', served, size) = v in
      Returns-bind (call_all-ServesAll calls b v' (omega (arith, size)))
        λ (outs, b') (w, all). returns (w, next served all)
