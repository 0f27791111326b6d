-- ===== src/Net/EventLoopThread/Published.antt =====
-- windz/net/EventLoopThread.cpp: from `Start` to the end, while nobody else quits the loop.
use windz.Prelude.{
  ◌≡◌, ◌≢◌, ◌⊎◌, inl, inr, refl, Bool, true, false, List, [], ◌∷◌, ◌>>=◌, Returns, returns,
  Returns-bind, Returns-map,
}
use windz.Base.CountDownLatch.{Waiter, testing, asleep, passed, wake}
use windz.Net.EventLoopThread.{
  Stage, making, entering, looping, withdrawing, ended, Owner, running, before_quit, before_join,
  joined, waiting, EventLoopThread, new_event_loop_thread, start, notify, thread_func, test_loop,
  look, quit_loop, own, wake_owner, Actor, new_one, owner_step, spurious, functor_quits, step, run,
}

abbrev pub state : Bool → Bool → Stage → Owner → EventLoopThread
state loop quit stage owner = record {
  started = true;
  loop = loop;
  quit = quit;
  stage = stage;
  owner = owner;
}

-- The states of a thread that was created.
data IsServing : EventLoopThread → Type 0 where
  makes : (w : Waiter) → w ≢ passed → IsServing (state false false making (waiting w))
  publishes : (w : Waiter) → w ≢ asleep → IsServing (state true false entering (waiting w))
  serves_soon : IsServing (state true false entering running)
  quits_soon : IsServing (state true false entering before_quit)
  quits_early : IsServing (state true true entering before_join)
  misses : IsServing (state true false looping before_join)
  published : (w : Waiter) → w ≢ asleep → IsServing (state true false looping (waiting w))
  serves : IsServing (state true false looping running)
  quits : IsServing (state true false looping before_quit)
  quitted : IsServing (state true true looping before_join)
  withdraws : IsServing (state true true withdrawing before_join)
  ends : IsServing (state false true ended before_join)
  over : IsServing (state false true ended joined)

-- No functor quits the loop.
abbrev pub NobodyQuits : List Actor → Type 0
NobodyQuits [] = Unit
NobodyQuits (new_one ∷ actors) = NobodyQuits actors
NobodyQuits (owner_step ∷ actors) = NobodyQuits actors
NobodyQuits (spurious ∷ actors) = NobodyQuits actors
NobodyQuits (functor_quits ∷ actors) = ⊥

new_one-IsServing : (t : EventLoopThread) → IsServing t → Returns IsServing (step new_one t)
unfolding step thread_func notify wake
new_one-IsServing t (makes testing h) = returns (publishes testing (λ e. cc))
new_one-IsServing t (makes asleep h) = returns (publishes testing (λ e. cc))
new_one-IsServing t (makes passed h) = absurd (h refl)
new_one-IsServing t (publishes w h) = returns (published w h)
new_one-IsServing t serves_soon = returns serves
new_one-IsServing t quits_soon = returns quits
new_one-IsServing t quits_early = returns misses
new_one-IsServing t misses = returns misses
new_one-IsServing t (published w h) = returns (published w h)
new_one-IsServing t serves = returns serves
new_one-IsServing t quits = returns quits
new_one-IsServing t quitted = returns withdraws
new_one-IsServing t withdraws = returns ends
new_one-IsServing t ends = returns ends
new_one-IsServing t over = returns over

owner_step-IsServing : (t : EventLoopThread) → IsServing t → Returns IsServing (step owner_step t)
unfolding step own test_loop look quit_loop
owner_step-IsServing t (makes testing h) = returns (makes asleep (λ e. cc))
owner_step-IsServing t (makes asleep h) = returns (makes asleep h)
owner_step-IsServing t (makes passed h) = absurd (h refl)
owner_step-IsServing t (publishes testing h) = returns serves_soon
owner_step-IsServing t (publishes asleep h) = absurd (h refl)
owner_step-IsServing t (publishes passed h) = returns serves_soon
owner_step-IsServing t serves_soon = returns quits_soon
owner_step-IsServing t quits_soon = returns quits_early
owner_step-IsServing t quits_early = returns quits_early
owner_step-IsServing t misses = returns misses
owner_step-IsServing t (published testing h) = returns serves
owner_step-IsServing t (published asleep h) = absurd (h refl)
owner_step-IsServing t (published passed h) = returns serves
owner_step-IsServing t serves = returns quits
owner_step-IsServing t quits = returns quitted
owner_step-IsServing t quitted = returns quitted
owner_step-IsServing t withdraws = returns withdraws
owner_step-IsServing t ends = returns over
owner_step-IsServing t over = returns over

spurious-IsServing : (t : EventLoopThread) → IsServing t → Returns IsServing (step spurious t)
unfolding step wake_owner notify wake
spurious-IsServing t (makes testing h) = returns (makes testing h)
spurious-IsServing t (makes asleep h) = returns (makes testing (λ e. cc))
spurious-IsServing t (makes passed h) = absurd (h refl)
spurious-IsServing t (publishes testing h) = returns (publishes testing h)
spurious-IsServing t (publishes asleep h) = absurd (h refl)
spurious-IsServing t (publishes passed h) = returns (publishes passed h)
spurious-IsServing t serves_soon = returns serves_soon
spurious-IsServing t quits_soon = returns quits_soon
spurious-IsServing t quits_early = returns quits_early
spurious-IsServing t misses = returns misses
spurious-IsServing t (published testing h) = returns (published testing h)
spurious-IsServing t (published asleep h) = absurd (h refl)
spurious-IsServing t (published passed h) = returns (published passed h)
spurious-IsServing t serves = returns serves
spurious-IsServing t quits = returns quits
spurious-IsServing t quitted = returns quitted
spurious-IsServing t withdraws = returns withdraws
spurious-IsServing t ends = returns ends
spurious-IsServing t over = returns over

run-IsServing :
    (actors : List Actor) (t : EventLoopThread)
    → NobodyQuits actors
    → IsServing t
    → Returns IsServing (run actors t)
unfolding run
run-IsServing [] t n h = returns h
run-IsServing (new_one ∷ actors) t n h =
    Returns-bind (new_one-IsServing t h) λ t' h'. run-IsServing actors t' n h'
run-IsServing (owner_step ∷ actors) t n h =
    Returns-bind (owner_step-IsServing t h) λ t' h'. run-IsServing actors t' n h'
run-IsServing (spurious ∷ actors) t n h =
    Returns-bind (spurious-IsServing t h) λ t' h'. run-IsServing actors t' n h'
run-IsServing (functor_quits ∷ actors) t n h = absurd n

abbrev pub is_waiting : Owner → Bool
is_waiting (waiting w) = true
is_waiting _ = false

abbrev pub is_running : Owner → Bool
is_running running = true
is_running _ = false

-- `Quit` was called before the thread entered `Loop`, which clears the mark or has done so.
abbrev pub IsMissed : EventLoopThread → Type 0
IsMissed t =
    (t.owner ≡ before_join) × ((t.stage ≡ entering) ⊎ ((t.stage ≡ looping) × (t.quit ≡ false)))

-- The steps that end everything: the loop is published and entered, `Start` returns, the destructor
-- quits the loop, the thread ends and is joined.
abbrev pub all_steps : List Actor
all_steps =
    new_one ∷ new_one ∷ owner_step ∷ owner_step ∷ owner_step ∷ owner_step ∷ new_one ∷ new_one
    ∷ owner_step ∷ []

-- What is right at any time between `Start` and the end of the destructor.
pub record IsServed (t : EventLoopThread) : Type 0 where
  loop_there : (is_running t.owner ≡ false) ⊎ (t.loop ≡ true)
  start_returns :
      Returns
        (λ (t' : EventLoopThread). is_waiting t'.owner ≡ false)
        (run (new_one ∷ owner_step ∷ []) t)
  is_joined :
      IsMissed t
      ⊎ Returns
          (λ (t' : EventLoopThread). (t'.owner ≡ joined) × (t'.stage ≡ ended))
          (run all_steps t)

served :
    (t : EventLoopThread)
    → (is_running t.owner ≡ false) ⊎ (t.loop ≡ true)
    → Returns
        (λ (t' : EventLoopThread). is_waiting t'.owner ≡ false)
        (run (new_one ∷ owner_step ∷ []) t)
    → Returns (λ (t' : EventLoopThread). (t'.owner ≡ joined) × (t'.stage ≡ ended)) (run all_steps t)
    → IsServed t
served t o r j = record { loop_there = o; start_returns = r; is_joined = inr j }

missed :
    (t : EventLoopThread)
    → is_running t.owner ≡ false
    → Returns
        (λ (t' : EventLoopThread). is_waiting t'.owner ≡ false)
        (run (new_one ∷ owner_step ∷ []) t)
    → IsMissed t
    → IsServed t
missed t o r m = record { loop_there = inl o; start_returns = r; is_joined = inl m }

IsServing-IsServed : (t : EventLoopThread) → IsServing t → IsServed t
unfolding run step thread_func notify wake own test_loop look quit_loop
IsServing-IsServed t (makes passed h) = absurd (h refl)
IsServing-IsServed t (publishes asleep h) = absurd (h refl)
IsServing-IsServed t (published asleep h) = absurd (h refl)
IsServing-IsServed t (makes testing h) = served t (inl refl) (returns refl) (returns (refl, refl))
IsServing-IsServed t (makes asleep h) = served t (inl refl) (returns refl) (returns (refl, refl))
IsServing-IsServed t (publishes testing h) =
    served t (inl refl) (returns refl) (returns (refl, refl))
IsServing-IsServed t (publishes passed h) =
    served t (inl refl) (returns refl) (returns (refl, refl))
IsServing-IsServed t serves_soon = served t (inr refl) (returns refl) (returns (refl, refl))
IsServing-IsServed t quits_soon = served t (inl refl) (returns refl) (returns (refl, refl))
IsServing-IsServed t (published testing h) =
    served t (inl refl) (returns refl) (returns (refl, refl))
IsServing-IsServed t (published passed h) =
    served t (inl refl) (returns refl) (returns (refl, refl))
IsServing-IsServed t serves = served t (inr refl) (returns refl) (returns (refl, refl))
IsServing-IsServed t quits = served t (inl refl) (returns refl) (returns (refl, refl))
IsServing-IsServed t quitted = served t (inl refl) (returns refl) (returns (refl, refl))
IsServing-IsServed t withdraws = served t (inl refl) (returns refl) (returns (refl, refl))
IsServing-IsServed t ends = served t (inl refl) (returns refl) (returns (refl, refl))
IsServing-IsServed t over = served t (inl refl) (returns refl) (returns (refl, refl))
IsServing-IsServed t quits_early = missed t refl (returns refl) (refl, inl refl)
IsServing-IsServed t misses = missed t refl (returns refl) (refl, inr (refl, refl))

-- A thread that could be created is started, used and destroyed, and no functor quits its loop;
-- the steps of both threads come in any order. No step faults. `Start` returns only with a loop that
-- is there, and a step of each thread is enough for it to return. Unless the destructor has called
-- `Quit` before the thread entered `Loop`, the steps of the whole life, once more, lead to the end
-- of the destructor, with the thread ended and joined.
pub start-IsServed :
    (actors : List Actor)
    → NobodyQuits actors
    → Returns IsServed (start true new_event_loop_thread >>= λ t. run actors t)
unfolding start new_event_loop_thread
start-IsServed actors n =
    Returns-map
      (run-IsServing actors (state false false making (waiting testing)) n
        (makes testing (λ e. cc)))
      IsServing-IsServed
