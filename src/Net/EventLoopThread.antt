-- ===== src/Net/EventLoopThread.antt =====
-- windz/net/EventLoopThread.{h,cpp}: a thread with an event loop of its own, from `Start` to the
-- destructor. A step is one of the new thread, of the thread that owns it, or of the loop's own
-- functors. The mutex makes each use of `loop_` under it one step.
pub mod Published
pub mod Ending
mod Tests
use windz.Prelude.{
  Bool, true, false, not, List, [], ◌∷◌, if◌then◌else◌, Option, none, some, Run, ok, fault,
  null_pointer, ◌>>=◌, ◌>>◌, assert,
}
use windz.Base.CountDownLatch.{Waiter, testing, asleep, passed, wake}

-- The new thread: it makes its loop and publishes it, enters `Loop`, loops, withdraws it, and ends.
pub data Stage : Type 0 where
  not_created making entering looping withdrawing ended : Stage

-- The owner: before `Start`, in the wait of `Start`, with the loop, in the destructor before
-- `Quit`, before `Join`, in it, and behind the destructor.
pub data Owner : Type 0 where
  before running before_quit before_join joined detached : Owner
  waiting : Waiter → Owner

pub record EventLoopThread : Type 0 where
  pub started : Bool
  pub loop : Bool
  pub quit : Bool
  pub stage : Stage
  pub owner : Owner

unfoldable pub new_event_loop_thread : EventLoopThread
new_event_loop_thread = record {
  started = false;
  loop = false;
  quit = false;
  stage = not_created;
  owner = before;
}

-- `Start` up to its wait; whether the thread was created is not looked at.
unfoldable pub start : Bool → EventLoopThread → Run EventLoopThread
start created t = do
  assert (not t.started)
  ok (record t {
    started = created;
    stage = if created then making else not_created;
    owner = waiting testing;
  })

-- `Notify`
unfoldable pub notify : Owner → Owner
unfolding wake
notify (waiting w) = waiting (wake w)
notify before = before
notify running = running
notify before_quit = before_quit
notify before_join = before_join
notify joined = joined
notify detached = detached

-- `ThreadFunc`, one lock after the other. `Loop` begins behind the first, with `quit_ = false`.
unfoldable pub thread_func : EventLoopThread → EventLoopThread
unfolding notify
thread_func t = elim t.stage [
  | not_created ↦ t
  | making ↦ record t { loop = true; stage = entering; owner = notify t.owner }
  | entering ↦ record t { quit = false; stage = looping }
  | looping ↦ record t { stage = if t.quit then withdrawing else looping }
  | withdrawing ↦ record t { loop = false; stage = ended }
  | ended ↦ t
]

-- A test of the wait in `Start`, which takes the loop if there is one.
unfoldable pub test_loop : Bool → Waiter → Owner
test_loop loop testing = if loop then running else waiting asleep
test_loop loop asleep = waiting asleep
test_loop loop passed = running

-- The destructor looks at `loop_` without the mutex, twice.
unfoldable pub look : Bool → Owner
look loop = if loop then before_quit else detached

unfoldable pub quit_loop : EventLoopThread → Run EventLoopThread
quit_loop t =
    if t.loop then ok (record t { quit = true; owner = before_join }) else fault null_pointer

abbrev pub has_ended : Stage → Bool
has_ended ended = true
has_ended _ = false

-- The next step of the owner; `Join` waits for the end of the thread.
unfoldable pub own : EventLoopThread → Run EventLoopThread
unfolding test_loop look quit_loop
own t = elim t.owner [
  | before ↦ ok t
  | running ↦ ok (record t { owner = look t.loop })
  | before_quit ↦ quit_loop t
  | before_join ↦ ok (record t { owner = if has_ended t.stage then joined else before_join })
  | joined ↦ ok t
  | detached ↦ ok t
  | waiting w ↦ ok (record t { owner = test_loop t.loop w })
]

-- A return from the wait for no reason.
unfoldable pub wake_owner : EventLoopThread → EventLoopThread
unfolding notify
wake_owner t = record t { owner = notify t.owner }

-- Who steps. A functor of the loop may call `Quit`, while it loops.
pub data Actor : Type 0 where
  new_one owner_step spurious functor_quits : Actor

abbrev pub is_looping : Stage → Bool
is_looping looping = true
is_looping _ = false

unfoldable pub step : Actor → EventLoopThread → Run EventLoopThread
unfolding thread_func own wake_owner
step new_one t = ok (thread_func t)
step owner_step t = own t
step spurious t = ok (wake_owner t)
step functor_quits t = ok (if is_looping t.stage then record t { quit = true } else t)

unfoldable pub run : List Actor → EventLoopThread → Run EventLoopThread
unfolding step
run [] t = ok t
run (a ∷ actors) t = step a t >>= λ t'. run actors t'
