-- ===== src/Base/CountDownLatch/Tests.antt =====
-- windz/base/CountDownLatch.h at concrete inputs.
use windz.Prelude.{◌≡◌, refl, List, [], ◌∷◌, get_elem?, leb, if◌then◌else◌, some}
use windz.Prelude.Int.{pos, ◌-ℤ◌}
use windz.Base.CountDownLatch.{
  testing, asleep, passed, new_latch, test_count, test, wait, wake, wake_spuriously, count_down,
  Step, waits, counts_down, tests, wakes, step, run,
}
use windz.Base.CountDownLatch.Released.{downs, test_count-run}

-- A thread waits, falls asleep, and is woken by the second count.
abbrev steps : List Step
steps = waits ∷ tests 0 ∷ counts_down ∷ wakes 0 ∷ tests 0 ∷ counts_down ∷ []

steps-run : get_elem? (run steps (new_latch (pos 2))).waiters 0 ≡ some testing
unfolding run step new_latch wait test test_count wake wake_spuriously count_down ◌-ℤ◌
steps-run = refl

test_count-run_example :
    test_count (run steps (new_latch (pos 2))).count testing
    ≡ (if leb 2 (downs steps) then passed else asleep)
test_count-run_example = test_count-run 2 steps 0 testing steps-run
