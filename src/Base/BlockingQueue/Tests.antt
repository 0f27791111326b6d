-- ===== src/Base/BlockingQueue/Tests.antt =====
-- windz/base/BlockingQueue.h at concrete inputs.
use windz.Prelude.{ℕ, refl, false, List, [], ◌∷◌, Returns, arith}
use windz.Base.BlockingQueue.Order.{
  Call, pushes, limits, pops, wakes, restores, Traffic, IsFifo, run, run-IsFifo,
}

abbrev one_place : Traffic ℕ
one_place = record {
  state = record { queue = []; maxsize = 1; wakeup = false };
  entered = [];
  left = [];
}

-- The second push waits until the pop, and the third for a higher limit.
abbrev calls : List (Call ℕ)
calls = pushes 4 ∷ pushes 5 ∷ pops ∷ pushes 5 ∷ limits 2 ∷ pushes 6 ∷ wakes ∷ pops ∷ restores ∷ []

run-IsFifo_example : Returns (IsFifo 0 2) (run 0 calls one_place)
run-IsFifo_example =
    run-IsFifo 0 2 calls one_place ((λ h. (omega arith, omega arith)), tt)
      (record {
        order = refl;
        limited = λ h. (omega arith, omega arith);
        bounded = λ h. omega arith;
      })
