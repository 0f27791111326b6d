-- ===== src/Net/Timer/Tests.antt =====
-- windz/net/Timer.cpp at concrete inputs.
use mathlib.Core.List.{Mem, Nodup, Nodup-nil, Nodup-cons, not-mem-nil, mem-cons, mem-cons_self}
use mathlib.Core.Logic.Or
use mathlib.Core.HLevel.{⊥_prop}
use native.Mathlib.Bridge.{le_prop}
use windz.Prelude.{
  ℕ, ◌+◌, ◌≡◌, ◌≢◌, refl, sym, ap, ◌∙◌, true, false, [], ◌∷◌, Returns, arith, List, ok, some, none,
}
use windz.Prelude.Int.{ℤ, pos, ◌<ℤ◌}
use windz.Net.Timer.{Manager, handle_expired, fire}
use windz.Net.Timer.Heap.{
  Timer, TimerHeap, push_in_heap, pop_in_heap, up_in_heap, down_in_heap, up_loop, down_loop,
  min_child, earlier, swap_in_heap, load,
}
use windz.Net.Timer.Heap.Bag.{
  Call, pushes, pops, call_heap, call_all, ServesAll, call_all-ServesAll,
}
use mathlib.Mathlib.Data.Multiset.Defs.{of_list}
use windz.Net.Timer.Heap.Order.{IsHeap}
use windz.Net.Timer.Expiry.{Ready, Expired, Advances, ids, handle_expired_runs_due, fire_drops_root}

-- A one-shot timer due at 5, and one that repeats every 10 from 7 on.
abbrev once : Timer
once = record { id = 1; cb = 1; when = pos 5; interval = pos 0; repeat = false; canceled = false }

abbrev ticking : Timer
ticking = record {
  id = 2;
  cb = 2;
  when = pos 7;
  interval = pos 10;
  repeat = true;
  canceled = false;
}

abbrev early : Timer
early = record { id = 3; cb = 3; when = pos 1; interval = pos 0; repeat = false; canceled = false }

abbrev pair : TimerHeap
pair = once ∷ ticking ∷ []

abbrev manager : Manager
manager = record { heap = pair; fired = []; reads = 0 }

pair-IsHeap : IsHeap pair
pair-IsHeap = grind arith

one : (n : ℕ) → Nodup (n ∷ [])
one n = Nodup-cons.1 (not-mem-nil, Nodup-nil)

apart : {a b : ℕ} → a ≢ b → ¬ Mem a (b ∷ [])
apart h m = Or.elim ⊥_prop (mem-cons.0 m) h not-mem-nil

-- A list whose timers do not repeat, or do so at a positive interval.
Advances-cons :
    (t : Timer) (heap : TimerHeap)
    → (t.repeat ≡ true → pos 0 <ℤ t.interval)
    → Advances heap
    → Advances (t ∷ heap)
Advances-cons t heap h v u m r =
    Or.elim le_prop (mem-cons.0 m) (λ e. rw e (h (ap (λ (w : Timer). w.repeat) (sym e) ∙ r)))
      λ k. v u k r

Advances-nil : Advances []
Advances-nil u m r = absurd (not-mem-nil m)

pair-Ready : Ready pair
pair-Ready = record {
  order = pair-IsHeap;
  distinct = Nodup-cons.1 (apart (omega arith), one 2);
  advances =
      Advances-cons once (ticking ∷ []) (λ r. cc)
        (Advances-cons ticking [] (λ r. omega arith) Advances-nil);
}

-- The clock stands at 6, then at 8.
abbrev clock : ℕ → ℤ
clock n = pos (n + 6)

abbrev nothing : ℕ → TimerHeap → TimerHeap
nothing cb heap = heap

handle_expired_runs_due_example :
    Returns (Expired (pos 6) pair []) (handle_expired nothing clock 3 manager)
handle_expired_runs_due_example =
    handle_expired_runs_due nothing clock 3 manager (λ cb h. refl) (λ r p. omega arith) pair-Ready
      (omega arith)

-- The first timer's function adds one that is due earlier.
abbrev adds_early : ℕ → TimerHeap → TimerHeap
adds_early cb heap = early ∷ once ∷ []

early-Ready : Ready (early ∷ once ∷ [])
early-Ready = record {
  order = grind arith;
  distinct = Nodup-cons.1 (apart (omega arith), one 1);
  advances =
      Advances-cons early (once ∷ []) (λ r. cc) (Advances-cons once [] (λ r. cc) Advances-nil);
}

fire_drops_root_example :
    Returns
      (λ m'. Mem once m'.heap × (¬ Mem 3 (ids m'.heap)) × (m'.fired ≡ 1 ∷ []))
      (fire adds_early clock once (record manager { heap = once ∷ [] }))
fire_drops_root_example =
    fire_drops_root adds_early clock once early (once ∷ []) (record manager { heap = once ∷ [] })
      refl refl early-Ready mem-cons_self

abbrev some_calls : List Call
some_calls = pushes early ∷ pops ∷ pops ∷ pops ∷ pops ∷ []

-- The earliest timer comes first, though it was put in last.
pair-call_all :
    call_all some_calls pair ≡ ok (none ∷ some early ∷ some once ∷ some ticking ∷ none ∷ [], [])
unfolding call_all call_heap push_in_heap pop_in_heap up_in_heap down_in_heap up_loop down_loop
    min_child earlier swap_in_heap load
pair-call_all = refl

call_all-ServesAll_example :
    Returns
      (λ (outs, b). IsHeap b × ServesAll some_calls (of_list pair) outs (of_list b))
      (call_all some_calls pair)
call_all-ServesAll_example = call_all-ServesAll some_calls pair pair-IsHeap (omega arith)
