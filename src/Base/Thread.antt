-- ===== src/Base/Thread.antt =====
-- windz/base/Thread.{h,cpp} and windz/base/CurrentThread.{h,cpp}: a thread, the start of which waits
-- at a latch until the new thread has told its id. A step is one of the new thread or of the one
-- that called `Start`. `gettid` and the answer of `pthread_create` are parameters.
pub mod Started
mod Tests
use windz.Prelude.{
  ℕ, zero, suc, Bool, true, false, not, ◌&&◌, List, [], ◌∷◌, ◌==◌, if◌then◌else◌, Option, none,
  some, Run, ok, ◌>>=◌, ◌>>◌, assert,
}
use windz.Prelude.Int.{pos}
use windz.Base.CountDownLatch.{
  Waiter, passed, CountDownLatch, new_latch, wait, test, wake_spuriously, count_down,
}

pub data ThreadName : Type 0 where
  unknown default_name finished_name : ThreadName
  named : List ℕ → ThreadName

-- The variables of `currentthread`, one of each for every thread.
pub record CurrentThread : Type 0 where
  pub t_tid : ℕ
  pub t_tid_str : List ℕ
  pub t_name : ThreadName

abbrev pub new_current : CurrentThread
new_current = record { t_tid = 0; t_tid_str = []; t_name = unknown }

-- What the new thread does next: tell its id, count down, take its name, run the function.
pub data Stage : Type 0 where
  not_created at_tid at_latch at_name at_func finished : Stage

pub record Thread : Type 0 where
  pub started : Bool
  pub joined : Bool
  pub detached : Bool
  pub tid : ℕ
  pub name : List ℕ
  pub latch : CountDownLatch
  pub stage : Stage
  pub current : CurrentThread

unfoldable pub new_thread : List ℕ → Thread
unfolding new_latch
new_thread name = record {
  started = false;
  joined = false;
  detached = false;
  tid = 0;
  name = name;
  latch = new_latch (pos 1);
  stage = not_created;
  current = new_current;
}

abbrev pub is_empty : List ℕ → Bool
is_empty [] = true
is_empty _ = false

module _ (gettid : ℕ) (snprintf_5d : ℕ → List ℕ) where
  unfoldable pub cache_tid : CurrentThread → CurrentThread
  cache_tid c =
      if c.t_tid == 0 then record c { t_tid = gettid; t_tid_str = snprintf_5d gettid } else c

  -- `currentthread::tid`, and what it leaves.
  unfoldable pub current_tid : CurrentThread → ℕ × CurrentThread
  unfolding cache_tid
  current_tid c = let c' = (if c.t_tid == 0 then cache_tid c else c) in (c'.t_tid, c')

  pub is_main_thread : ℕ → CurrentThread → Bool
  unfolding current_tid
  is_main_thread getpid c = (current_tid c).0 == getpid

  -- `RunInThread`, one line after the other.
  unfoldable pub run_in_thread : Thread → Thread
  unfolding current_tid count_down
  run_in_thread t = elim t.stage [
    | not_created ↦ t
    | at_tid ↦ record t {
      tid = (current_tid t.current).0;
      current = (current_tid t.current).1;
      stage = at_latch;
    }
    | at_latch ↦ record t { latch = count_down t.latch; stage = at_name }
    | at_name ↦ record t {
      current = record t.current {
        t_name = if is_empty t.name then default_name else named t.name;
      };
      stage = at_func;
    }
    | at_func ↦ record t { current = record t.current { t_name = finished_name }; stage = finished }
    | finished ↦ t
  ]

-- `Start` up to the wait at the latch: false if the thread could not be created.
unfoldable pub start : Bool → Thread → Run (Bool × Thread)
unfolding wait
start created t = do
  assert (not t.started)
  ok (
    created,
    if created
        then record t { started = true; stage = at_tid; latch = wait t.latch }
        else record t { started = false },
  )

-- Whether `Start` is through, and returns true.
abbrev pub has_returned : Thread → Bool
has_returned t = elim t.latch.waiters [
  | [] ↦ false
  | w ∷ ws ↦ elim w [ Waiter.testing ↦ false | Waiter.asleep ↦ false | passed ↦ true ]
]

-- `Join`, of a thread that has run to its end; `none` waits.
pub join : Thread → Run (Option Thread)
join t = do
  assert t.started
  assert (not t.joined)
  ok (elim t.stage [ finished ↦ some (record t { joined = true }) | _ ↦ none ])

pub destruct : Thread → Thread
destruct t = record t { detached = t.started && not t.joined }

-- Who steps: the new thread, the one in `Start`, or the one in `Start` for no reason.
pub data Actor : Type 0 where
  new_one caller spurious : Actor

module _ (gettid : ℕ) (snprintf_5d : ℕ → List ℕ) where
  unfoldable pub step : Actor → Thread → Thread
  unfolding run_in_thread test wake_spuriously
  step new_one t = run_in_thread gettid snprintf_5d t
  step caller t = record t { latch = test 0 t.latch }
  step spurious t = record t { latch = wake_spuriously 0 t.latch }

  unfoldable pub run : List Actor → Thread → Thread
  unfolding step
  run [] t = t
  run (a ∷ actors) t = run actors (step a t)
