-- ===== src/Net/EventLoopThread/Ending.antt =====
-- windz/net/EventLoopThread.cpp: a thread that could not be created, a loop that is quit by another,
-- and one that is quit too early.
use windz.Prelude.{
  ◌≡◌, ◌≢◌, refl, arith, true, false, List, [], ◌∷◌, fault, null_pointer, ◌>>=◌, Returns, returns,
  Returns-bind, Returns-map,
}
use windz.Base.CountDownLatch.{Waiter, testing, asleep, passed, wake}
use windz.Net.EventLoopThread.{
  not_created, entering, looping, before_quit, before_join, waiting, EventLoopThread,
  new_event_loop_thread, start, notify, thread_func, test_loop, look, quit_loop, own, wake_owner,
  Actor, new_one, owner_step, spurious, functor_quits, step, run,
}
use windz.Net.EventLoopThread.Published.{is_waiting, state, NobodyQuits}

abbrev stuck : Waiter → EventLoopThread
stuck w = record {
  started = false;
  loop = false;
  quit = false;
  stage = not_created;
  owner = waiting w;
}

data IsStuck : EventLoopThread → Type 0 where
  stays : (w : Waiter) → w ≢ passed → IsStuck (stuck w)

step-IsStuck : (a : Actor) (t : EventLoopThread) → IsStuck t → Returns IsStuck (step a t)
unfolding step thread_func own wake_owner test_loop notify wake
step-IsStuck new_one t (stays w h) = returns (stays w h)
step-IsStuck owner_step t (stays testing h) = returns (stays asleep (λ e. cc))
step-IsStuck owner_step t (stays asleep h) = returns (stays asleep h)
step-IsStuck owner_step t (stays passed h) = absurd (h refl)
step-IsStuck spurious t (stays testing h) = returns (stays testing h)
step-IsStuck spurious t (stays asleep h) = returns (stays testing (λ e. cc))
step-IsStuck spurious t (stays passed h) = absurd (h refl)
step-IsStuck functor_quits t (stays w h) = returns (stays w h)

run-IsStuck :
    (actors : List Actor) (t : EventLoopThread) → IsStuck t → Returns IsStuck (run actors t)
unfolding run
run-IsStuck [] t h = returns h
run-IsStuck (a ∷ actors) t h = Returns-bind (step-IsStuck a t h) λ t' h'. run-IsStuck actors t' h'

IsStuck-waits : (t : EventLoopThread) → IsStuck t → is_waiting t.owner ≡ true
IsStuck-waits t (stays w h) = refl

-- Where the thread cannot be created, `Start` waits for ever.
start-waits :
    (actors : List Actor)
    → Returns
        (λ (t : EventLoopThread). is_waiting t.owner ≡ true)
        (start false new_event_loop_thread >>= λ t. run actors t)
unfolding start new_event_loop_thread
start-waits actors =
    Returns-map (run-IsStuck actors (stuck testing) (stays testing (λ e. cc))) IsStuck-waits

-- Where the destructor has found the loop, a functor quits it, and the thread withdraws it before
-- the destructor goes on, `Quit` is called on a null pointer.
quit_loop-faults :
    (t : EventLoopThread)
    → t.owner ≡ before_quit
    → t.stage ≡ looping
    → run (functor_quits ∷ new_one ∷ new_one ∷ owner_step ∷ []) t ≡ fault null_pointer
unfolding run step thread_func own quit_loop
quit_loop-faults t o s = ground (arith, o, s)

-- The destructor has called `Quit`, but `Loop` clears the mark.
data IsMissing : EventLoopThread → Type 0 where
  enters : IsMissing (state true true entering before_join)
  loops : IsMissing (state true false looping before_join)

step-IsMissing :
    (a : Actor) (t : EventLoopThread)
    → NobodyQuits (a ∷ [])
    → IsMissing t
    → Returns IsMissing (step a t)
unfolding step thread_func own wake_owner notify
step-IsMissing new_one t n enters = returns loops
step-IsMissing new_one t n loops = returns loops
step-IsMissing owner_step t n enters = returns enters
step-IsMissing owner_step t n loops = returns loops
step-IsMissing spurious t n enters = returns enters
step-IsMissing spurious t n loops = returns loops
step-IsMissing functor_quits t n m = absurd n

run-IsMissing :
    (actors : List Actor) (t : EventLoopThread)
    → NobodyQuits actors
    → IsMissing t
    → Returns IsMissing (run actors t)
unfolding run
run-IsMissing [] t n m = returns m
run-IsMissing (new_one ∷ actors) t n m =
    Returns-bind (step-IsMissing new_one t tt m) λ t' m'. run-IsMissing actors t' n m'
run-IsMissing (owner_step ∷ actors) t n m =
    Returns-bind (step-IsMissing owner_step t tt m) λ t' m'. run-IsMissing actors t' n m'
run-IsMissing (spurious ∷ actors) t n m =
    Returns-bind (step-IsMissing spurious t tt m) λ t' m'. run-IsMissing actors t' n m'
run-IsMissing (functor_quits ∷ actors) t n m = absurd n

IsMissing-waits : (t : EventLoopThread) → IsMissing t → (t.owner ≡ before_join) × (t.loop ≡ true)
IsMissing-waits t enters = (refl, refl)
IsMissing-waits t loops = (refl, refl)

-- The loop is published, `Start` returns, and the destructor quits the loop.
abbrev pub early_quit : List Actor
early_quit = new_one ∷ owner_step ∷ owner_step ∷ owner_step ∷ []

-- A thread that is started and destroyed before it has entered `Loop`, and whose loop no functor
-- quits: however the steps of both threads go on, the destructor waits for the thread for ever,
-- and the loop goes on.
pub early_quit-waits :
    (actors : List Actor)
    → NobodyQuits actors
    → Returns
        (λ (t : EventLoopThread). (t.owner ≡ before_join) × (t.loop ≡ true))
        (start true new_event_loop_thread >>= λ t. run early_quit t >>= λ t. run actors t)
unfolding start new_event_loop_thread run step thread_func own notify wake test_loop look quit_loop
early_quit-waits actors n =
    Returns-map (run-IsMissing actors (state true true entering before_join) n enters)
      IsMissing-waits
