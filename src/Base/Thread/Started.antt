-- ===== src/Base/Thread/Started.antt =====
-- windz/base/Thread.cpp: what `Start` waits for.
use windz.Prelude.{
  ℕ, ◌≡◌, ◌≢◌, ◌⊎◌, inl, inr, refl, true, false, List, [], ◌∷◌, if◌then◌else◌, arith, Bool-cases,
  Returns, returns,
}
use windz.Prelude.Int.{pos, ◌-ℤ◌}
use windz.Base.CountDownLatch.{
  Waiter, testing, asleep, passed, CountDownLatch, new_latch, wait, test, test_count, wake,
  wake_spuriously, count_down,
}
use windz.Base.Thread.{
  Stage, not_created, at_tid, at_latch, at_name, at_func, finished, Thread, default_name,
  finished_name, named, is_empty, new_thread, cache_tid, current_tid, run_in_thread, start,
  has_returned, Actor, new_one, caller, spurious, step, run,
}

-- The latch with the one thread that waits at it.
abbrev latch_of : ℕ → Waiter → CountDownLatch
latch_of n w = record { count = pos n; waiters = w ∷ [] }

module _ (gettid : ℕ) (snprintf_5d : ℕ → List ℕ) where
  -- A thread while `Start` runs: at each stage of the new thread, where the other one may stand.
  data IsStarting : Thread → Type 0 where
    telling :
        (p : Thread) (w : Waiter)
        → w ≢ passed
        → IsStarting (record p {
          latch = latch_of 1 w;
          stage = at_tid;
          current = record p.current { t_tid = 0 };
        })
    told :
        (p : Thread) (w : Waiter)
        → w ≢ passed
        → IsStarting (record p { latch = latch_of 1 w; stage = at_latch; tid = gettid })
    counted :
        (p : Thread) (w : Waiter) (s : Stage)
        → w ≢ asleep
        → (s ≡ at_name) ⊎ ((s ≡ at_func) ⊎ (s ≡ finished))
        → IsStarting (record p { latch = latch_of 0 w; stage = s; tid = gettid })

  later :
      (p : Thread) (w : Waiter) (s : Stage)
      → w ≢ asleep
      → (s ≡ at_name) ⊎ ((s ≡ at_func) ⊎ (s ≡ finished))
      → IsStarting (
          step gettid snprintf_5d new_one
            (record p { latch = latch_of 0 w; stage = s; tid = gettid }))
  unfolding step run_in_thread
  later p w not_created h e = ground (arith, e)
  later p w at_tid h e = ground (arith, e)
  later p w at_latch h e = ground (arith, e)
  later p w at_name h e =
      counted
        (record p {
          current = record p.current {
            t_name = if is_empty p.name then default_name else named p.name;
          };
        })
        w at_func h (inr (inl refl))
  later p w at_func h e =
      counted (record p { current = record p.current { t_name = finished_name } }) w finished h
        (inr (inr refl))
  later p w finished h e = counted p w finished h (inr (inr refl))

  step-IsStarting :
      (a : Actor) (t : Thread) → IsStarting t → IsStarting (step gettid snprintf_5d a t)
  unfolding step run_in_thread current_tid cache_tid count_down test test_count wake wake_spuriously
      ◌-ℤ◌
  step-IsStarting new_one t (telling p w h) =
      told
        (record p { current = record p.current { t_tid = gettid; t_tid_str = snprintf_5d gettid } })
        w h
  step-IsStarting new_one t (told p testing h) = counted p testing at_name (λ e. cc) (inl refl)
  step-IsStarting new_one t (told p asleep h) = counted p testing at_name (λ e. cc) (inl refl)
  step-IsStarting new_one t (told p passed h) = absurd (h refl)
  step-IsStarting new_one t (counted p w s h e) = later p w s h e
  step-IsStarting caller t (telling p testing h) = telling p asleep (λ e. cc)
  step-IsStarting caller t (telling p asleep h) = telling p asleep h
  step-IsStarting caller t (telling p passed h) = absurd (h refl)
  step-IsStarting caller t (told p testing h) = told p asleep (λ e. cc)
  step-IsStarting caller t (told p asleep h) = told p asleep h
  step-IsStarting caller t (told p passed h) = absurd (h refl)
  step-IsStarting caller t (counted p testing s h e) = counted p passed s (λ e. cc) e
  step-IsStarting caller t (counted p asleep s h e) = absurd (h refl)
  step-IsStarting caller t (counted p passed s h e) = counted p passed s h e
  step-IsStarting spurious t (telling p testing h) = telling p testing h
  step-IsStarting spurious t (telling p asleep h) = telling p testing (λ e. cc)
  step-IsStarting spurious t (telling p passed h) = absurd (h refl)
  step-IsStarting spurious t (told p testing h) = told p testing h
  step-IsStarting spurious t (told p asleep h) = told p testing (λ e. cc)
  step-IsStarting spurious t (told p passed h) = absurd (h refl)
  step-IsStarting spurious t (counted p testing s h e) = counted p testing s h e
  step-IsStarting spurious t (counted p asleep s h e) = absurd (h refl)
  step-IsStarting spurious t (counted p passed s h e) = counted p passed s h e

  run-IsStarting :
      (actors : List Actor) (t : Thread)
      → IsStarting t
      → IsStarting (run gettid snprintf_5d actors t)
  unfolding run
  run-IsStarting [] t h = h
  run-IsStarting (a ∷ actors) t h =
      run-IsStarting actors (step gettid snprintf_5d a t) (step-IsStarting a t h)

  -- Once `Start` has returned the id is known, and two steps of the new thread and one of the
  -- caller are all that is missing before.
  returned-tid : (t : Thread) → IsStarting t → has_returned t ≡ true → t.tid ≡ gettid
  returned-tid t (telling p testing h) r = absurd (cc)
  returned-tid t (telling p asleep h) r = absurd (cc)
  returned-tid t (telling p passed h) r = absurd (h refl)
  returned-tid t (told p w h) r = refl
  returned-tid t (counted p w s h e) r = refl

  returns-counted :
      (p : Thread) (w : Waiter) (s : Stage)
      → w ≢ asleep
      → (s ≡ at_name) ⊎ ((s ≡ at_func) ⊎ (s ≡ finished))
      → has_returned (
          run gettid snprintf_5d
            (new_one ∷ new_one ∷ caller ∷ [])
            (record p { latch = latch_of 0 w; stage = s; tid = gettid }))
        ≡ true
  unfolding run step run_in_thread test test_count
  returns-counted p asleep s h e = absurd (h refl)
  returns-counted p w not_created h e = ground (arith, e)
  returns-counted p w at_tid h e = ground (arith, e)
  returns-counted p w at_latch h e = ground (arith, e)
  returns-counted p testing at_name h e = refl
  returns-counted p testing at_func h e = refl
  returns-counted p testing finished h e = refl
  returns-counted p passed at_name h e = refl
  returns-counted p passed at_func h e = refl
  returns-counted p passed finished h e = refl

  returns_soon :
      (t : Thread)
      → IsStarting t
      → has_returned (run gettid snprintf_5d (new_one ∷ new_one ∷ caller ∷ []) t) ≡ true
  unfolding run step run_in_thread current_tid cache_tid count_down test test_count wake
      wake_spuriously ◌-ℤ◌
  returns_soon t (telling p testing h) = refl
  returns_soon t (telling p asleep h) = refl
  returns_soon t (telling p passed h) = absurd (h refl)
  returns_soon t (told p testing h) = refl
  returns_soon t (told p asleep h) = refl
  returns_soon t (told p passed h) = absurd (h refl)
  returns_soon t (counted p w s h e) = returns-counted p w s h e

  -- What is right while a thread is being started, at any time.
  pub record Told (t : Thread) : Type 0 where
    known : (has_returned t ≡ false) ⊎ (t.tid ≡ gettid)
    soon : has_returned (run gettid snprintf_5d (new_one ∷ new_one ∷ caller ∷ []) t) ≡ true
    known_then : (run gettid snprintf_5d (new_one ∷ new_one ∷ caller ∷ []) t).tid ≡ gettid

  -- `Start` of a new thread that can be created, with the steps of both threads in any order and
  -- returns from the wait for no reason: while it has not returned, two steps of the new thread and
  -- one of the caller are enough for it to do so, and where it has, the id of the thread is known.
  pub start-Told :
      (name : List ℕ) (actors : List Actor)
      → Returns
          (λ (created, t). (created ≡ true) × Told (run gettid snprintf_5d actors t))
          (start true (new_thread name))
  unfolding start new_thread new_latch wait
  start-Told name actors =
      let t = record (new_thread name) {
        started = true;
        stage = at_tid;
        latch = latch_of 1 testing;
      } in
      let h = run-IsStarting actors t (telling t testing (λ e. cc)) in
      let later_t = run gettid snprintf_5d actors t in
      let three = new_one ∷ new_one ∷ caller ∷ [] in
      let r = returns_soon later_t h in
      returns (
        refl,
        record {
          known = elim (Bool-cases (has_returned later_t)) [
            | inl yes_it ↦ inr (returned-tid later_t h yes_it)
            | inr not_yet ↦ inl not_yet
          ];
          soon = r;
          known_then =
              returned-tid (run gettid snprintf_5d three later_t) (run-IsStarting three later_t h)
                r;
        },
      )
