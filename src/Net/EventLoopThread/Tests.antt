-- ===== src/Net/EventLoopThread/Tests.antt =====
-- windz/net/EventLoopThread.cpp at concrete inputs.
use windz.Prelude.{◌≡◌, true, List, [], ◌∷◌, ◌>>=◌, Returns}
use windz.Net.EventLoopThread.{
  EventLoopThread, before_join, new_event_loop_thread, start, Actor, new_one, owner_step, spurious,
  run,
}
use windz.Net.EventLoopThread.Published.{IsServed, start-IsServed}
use windz.Net.EventLoopThread.Ending.{early_quit, early_quit-waits}

abbrev actors : List Actor
actors = owner_step ∷ new_one ∷ spurious ∷ owner_step ∷ []

start-IsServed_example : Returns IsServed (start true new_event_loop_thread >>= λ t. run actors t)
start-IsServed_example = start-IsServed actors tt

early_quit-waits_example :
    Returns
      (λ (t : EventLoopThread). (t.owner ≡ before_join) × (t.loop ≡ true))
      (start true new_event_loop_thread >>= λ t. run early_quit t >>= λ t. run actors t)
early_quit-waits_example = early_quit-waits actors tt
