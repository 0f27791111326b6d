-- ===== src/Net/EventLoop/Timers/Tests.antt =====
-- The timers of a loop of windz/net/EventLoop.cpp at concrete inputs.
use mathlib.Core.List.{Nodup-cons, Nodup-nil, not-mem-nil}
use windz.Prelude.{ℕ, ◌+◌, ◌≡◌, refl, true, false, List, [], ◌∷◌, ◌>>=◌, Returns, arith}
use windz.Prelude.Int.{ℤ, pos, ◌-ℤ◌, quot_ℕ}
use windz.Net.Timer.Heap.{TimerHeap}
use windz.Net.Timer.Heap.Order.{IsHeap}
use windz.Net.Timer.{handle_expired, next_timeout}
use windz.Net.Timer.Expiry.{Expired}
use windz.Net.EventLoop.Timers.{no_timers, wait_ms, call_jobs}
use windz.Net.EventLoop.Timers.Calls.{
  Call, runs_at, runs_after, runs_every, cancels_timer, make_calls, wanted,
}
use windz.Net.EventLoop.Timers.Asked.{make_calls-Expired}
use windz.Net.EventLoop.Timers.Waits.{Waits, wait_ms-Waits}

-- The loop's thread asks for a timer, another for two more, of which it cancels one.
abbrev some_calls : List Call
some_calls =
    runs_at true (pos 5) 0
    ∷ runs_after false (pos 1) (pos 3) 1
    ∷ runs_every false (pos 0) (pos 2) 2
    ∷ cancels_timer false 1
    ∷ []

abbrev clock : ℕ → ℤ
clock n = pos (n + 6)

abbrev nothing : ℕ → TimerHeap → TimerHeap
nothing cb heap = heap

make_calls-Expired_example : Returns (Expired (pos 6) (wanted some_calls 0 []) []) (
    make_calls some_calls no_timers >>= λ l. call_jobs l >>= λ m.
    handle_expired nothing clock 5 (record { heap = m.heap; fired = []; reads = 0 }))
make_calls-Expired_example =
    make_calls-Expired nothing clock some_calls 5 (λ cb h. refl) (λ r. omega arith)
      (omega arith, (omega arith, tt)) (Nodup-cons.1 (not-mem-nil, Nodup-nil)) (omega arith)
      (omega arith)

-- One timer, due 7.5 ms from now.
abbrev soon : TimerHeap
soon = wanted (runs_at true (pos 8_500_000) 0 ∷ []) 0 []

soon-IsHeap : IsHeap soon
soon-IsHeap c p q = absurd (omega arith)

wait_ms-Waits_example :
    (w : ℕ) × (wait_ms (pos 1_000_000) soon ≡ pos w) × Waits (pos 1_000_000) soon w
wait_ms-Waits_example = wait_ms-Waits (pos 1_000_000) soon soon-IsHeap

soon-wait_ms : wait_ms (pos 1_000_000) soon ≡ pos 7
unfolding wait_ms next_timeout ◌-ℤ◌ quot_ℕ
soon-wait_ms = refl
