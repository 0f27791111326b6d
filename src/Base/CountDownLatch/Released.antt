-- ===== src/Base/CountDownLatch/Released.antt =====
-- windz/base/CountDownLatch.h: who waits, and until when.
use windz.Prelude.{
  ℕ, zero, suc, ◌+◌, ◌≡◌, refl, ap, ◌∙◌, subst, Bool-cases, inl, inr, true, false, List, [], ◌∷◌,
  ◌++◌, map, get_elem?, if◌then◌else◌, leb, some, arith,
}
use windz.Prelude.Int.{ℤ, pos, negsuc, pos_part, neg_part, ◌-ℤ◌, -ℤ_parts, ◌≤ℤ◌, ◌<ℤ◌, eqb_ℤ}
use windz.Base.CountDownLatch.{
  Waiter, testing, asleep, passed, CountDownLatch, new_latch, wait, at_index, is_released,
  test_count, test, wake, wake_spuriously, count_down, Step, waits, counts_down, tests, wakes, step,
  run,
}

-- A thread is asleep only while the count is above 0, and is through only if it is not.
abbrev pub IsRight : ℤ → Waiter → Type 0
IsRight count testing = Unit
IsRight count asleep = pos 0 <ℤ count
IsRight count passed = count ≤ℤ pos 0

abbrev pub AreRight : ℤ → List Waiter → Type 0
AreRight count [] = Unit
AreRight count (w ∷ ws) = IsRight count w × AreRight count ws

append-AreRight :
    (count : ℤ) (ws : List Waiter) → AreRight count ws → AreRight count (ws ++ testing ∷ [])
append-AreRight count [] h = (tt, tt)
append-AreRight count (w ∷ ws) h = (h.0, append-AreRight count ws h.1)

get_elem?-AreRight :
    (count : ℤ) (ws : List Waiter) (i : ℕ) (w : Waiter)
    → AreRight count ws
    → get_elem? ws i ≡ some w
    → IsRight count w
get_elem?-AreRight count [] i w h e = ground (arith, e)
get_elem?-AreRight count (v ∷ ws) zero w h e = subst (IsRight count) (cc) h.0
get_elem?-AreRight count (v ∷ ws) (suc i) w h e = get_elem?-AreRight count ws i w h.1 e

test_count-IsRight : (count : ℤ) (w : Waiter) → IsRight count w → IsRight count (test_count count w)
unfolding test_count
test_count-IsRight count testing h = ground arith
test_count-IsRight count asleep h = h
test_count-IsRight count passed h = h

wake-IsRight : (count : ℤ) (w : Waiter) → IsRight count w → IsRight count (wake w)
unfolding wake
wake-IsRight count testing h = tt
wake-IsRight count asleep h = tt
wake-IsRight count passed h = h

-- One count less, at which those that are asleep are woken if it is 0.
lower-IsRight :
    (count : ℤ) (w : Waiter)
    → IsRight count w
    → eqb_ℤ (count -ℤ pos 1) (pos 0) ≡ false
    → IsRight (count -ℤ pos 1) w
unfolding ◌-ℤ◌
lower-IsRight count testing h e = tt
lower-IsRight (pos n) asleep h e = ground (arith, h, e)
lower-IsRight (negsuc n) asleep h e = ground (arith, h, e)
lower-IsRight (pos n) passed h e = ground (arith, h, e)
lower-IsRight (negsuc n) passed h e = ground (arith, h, e)

woken-IsRight : (count : ℤ) (w : Waiter) → eqb_ℤ count (pos 0) ≡ true → IsRight count (wake w)
unfolding wake
woken-IsRight count testing e = tt
woken-IsRight count asleep e = tt
woken-IsRight count passed e = ground (arith, e)

lower-AreRight :
    (count : ℤ) (ws : List Waiter)
    → AreRight count ws
    → eqb_ℤ (count -ℤ pos 1) (pos 0) ≡ false
    → AreRight (count -ℤ pos 1) ws
lower-AreRight count [] h e = tt
lower-AreRight count (w ∷ ws) h e = (lower-IsRight count w h.0 e, lower-AreRight count ws h.1 e)

woken-AreRight :
    (count : ℤ) (ws : List Waiter) → eqb_ℤ count (pos 0) ≡ true → AreRight count (map wake ws)
woken-AreRight count [] e = tt
woken-AreRight count (w ∷ ws) e = (woken-IsRight count w e, woken-AreRight count ws e)

at_index-AreRight :
    (count : ℤ) (f : Waiter → Waiter) (ws : List Waiter) (i : ℕ)
    → ((w : Waiter) → IsRight count w → IsRight count (f w))
    → AreRight count ws
    → AreRight count (at_index f i ws)
at_index-AreRight count f [] i keeps h = tt
at_index-AreRight count f (w ∷ ws) zero keeps h = (keeps w h.0, h.1)
at_index-AreRight count f (w ∷ ws) (suc i) keeps h = (h.0, at_index-AreRight count f ws i keeps h.1)

step-AreRight :
    (s : Step) (l : CountDownLatch)
    → AreRight l.count l.waiters
    → AreRight (step s l).count (step s l).waiters
unfolding step wait test wake_spuriously count_down
step-AreRight waits l h = append-AreRight l.count l.waiters h
step-AreRight (tests i) l h =
    at_index-AreRight l.count (test_count l.count) l.waiters i (test_count-IsRight l.count) h
step-AreRight (wakes i) l h = at_index-AreRight l.count wake l.waiters i (wake-IsRight l.count) h
step-AreRight counts_down l h = elim (Bool-cases (eqb_ℤ (l.count -ℤ pos 1) (pos 0))) [
  | inl e ↦ simp e (woken-AreRight (l.count -ℤ pos 1) l.waiters e)
  | inr e ↦ simp e (lower-AreRight l.count l.waiters h e)
]

run-AreRight :
    (steps : List Step) (l : CountDownLatch)
    → AreRight l.count l.waiters
    → AreRight (run steps l).count (run steps l).waiters
unfolding run
run-AreRight [] l h = h
run-AreRight (s ∷ steps) l h = run-AreRight steps (step s l) (step-AreRight s l h)

-- How often the count was lowered.
abbrev pub downs : List Step → ℕ
downs [] = 0
downs (waits ∷ steps) = downs steps
downs (counts_down ∷ steps) = suc (downs steps)
downs (tests i ∷ steps) = downs steps
downs (wakes i ∷ steps) = downs steps

run-count :
    (steps : List Step) (l : CountDownLatch)
    → (pos_part (run steps l).count + neg_part l.count + downs steps
        ≡ neg_part (run steps l).count + pos_part l.count)
unfolding run step wait test wake_spuriously count_down
run-count [] l = omega arith
run-count (waits ∷ steps) l = run-count steps (step waits l)
run-count (tests i ∷ steps) l = run-count steps (step (tests i) l)
run-count (wakes i ∷ steps) l = run-count steps (step (wakes i) l)
run-count (counts_down ∷ steps) l =
    omega (arith, run-count steps (step counts_down l), -ℤ_parts l.count (pos 1))

next_test :
    (count : ℤ) (w : Waiter)
    → IsRight count w
    → test_count count w ≡ (if is_released count then passed else asleep)
unfolding test_count
next_test count testing h = refl
next_test count asleep h = ground (arith, h)
next_test count passed h = ground (arith, h)

-- Threads wait at a new latch and count it down, in any order, are woken for no reason, and test the
-- count when they come to it. The next test of a thread in `Wait` lets it through if the count was
-- lowered `n` times or more, and it is asleep behind it if not: no thread that should go on is left
-- asleep, and none has gone on too early.
pub test_count-run :
    (n : ℕ) (steps : List Step) (i : ℕ) (w : Waiter)
    → get_elem? (run steps (new_latch (pos n))).waiters i ≡ some w
    → test_count (run steps (new_latch (pos n))).count w
      ≡ (if leb n (downs steps) then passed else asleep)
unfolding new_latch
test_count-run n steps i w e =
    let l = run steps (new_latch (pos n)) in
    let right = run-AreRight steps (new_latch (pos n)) tt in
    let r : IsRight l.count w = get_elem?-AreRight l.count l.waiters i w right e in
    let same : is_released l.count ≡ leb n (downs steps) =
      ground (arith, run-count steps (new_latch (pos n))) in
    next_test l.count w r ∙ ap (λ b. if b then passed else asleep) same
