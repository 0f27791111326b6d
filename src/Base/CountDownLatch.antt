-- ===== src/Base/CountDownLatch.antt =====
-- windz/base/CountDownLatch.h, with the waiting of windz/base/Condition.h: the mutex makes each test
-- of the count, and each `CountDown`, one step.
pub mod Released
mod Tests
use windz.Prelude.{
  ℕ, zero, suc, Bool, true, false, List, [], ◌∷◌, ◌++◌, map, get_elem?, set, if◌then◌else◌, Option,
  none, some,
}
use windz.Prelude.Int.{ℤ, pos, ◌-ℤ◌, leb_ℤ, eqb_ℤ}

-- A thread in `Wait`: before a test of the count, in `pthread_cond_wait`, or behind the loop.
pub data Waiter : Type 0 where
  testing asleep passed : Waiter

pub record CountDownLatch : Type 0 where
  pub count : ℤ
  pub waiters : List Waiter

unfoldable pub new_latch : ℤ → CountDownLatch
new_latch count = record { count = count; waiters = [] }

-- A thread calls `Wait`.
unfoldable pub wait : CountDownLatch → CountDownLatch
wait l = record l { waiters = l.waiters ++ testing ∷ [] }

abbrev pub is_released : ℤ → Bool
is_released count = leb_ℤ count (pos 0)

-- `while (!pred()) Wait();`
unfoldable pub test_count : ℤ → Waiter → Waiter
test_count count testing = if is_released count then passed else asleep
test_count count asleep = asleep
test_count count passed = passed

-- A step of the `i`-th thread that waits.
abbrev pub at_index : (Waiter → Waiter) → ℕ → List Waiter → List Waiter
at_index f i [] = []
at_index f zero (w ∷ ws) = f w ∷ ws
at_index f (suc i) (w ∷ ws) = w ∷ at_index f i ws

-- The `i`-th thread that waits tests the count, if it is not asleep.
unfoldable pub test : ℕ → CountDownLatch → CountDownLatch
unfolding test_count
test i l = record l { waiters = at_index (test_count l.count) i l.waiters }

unfoldable pub wake : Waiter → Waiter
wake testing = testing
wake asleep = testing
wake passed = passed

-- `pthread_cond_wait` may return without a call of `NotifyAll`.
unfoldable pub wake_spuriously : ℕ → CountDownLatch → CountDownLatch
unfolding wake
wake_spuriously i l = record l { waiters = at_index wake i l.waiters }

unfoldable pub count_down : CountDownLatch → CountDownLatch
unfolding wake
count_down l =
    let count = l.count -ℤ pos 1 in
    record {
      count = count;
      waiters = if eqb_ℤ count (pos 0) then map wake l.waiters else l.waiters;
    }

-- A step of one of the threads.
pub data Step : Type 0 where
  waits counts_down : Step
  tests wakes : ℕ → Step

unfoldable pub step : Step → CountDownLatch → CountDownLatch
unfolding wait test wake_spuriously count_down
step waits l = wait l
step counts_down l = count_down l
step (tests i) l = test i l
step (wakes i) l = wake_spuriously i l

unfoldable pub run : List Step → CountDownLatch → CountDownLatch
unfolding step
run [] l = l
run (s ∷ steps) l = run steps (step s l)
