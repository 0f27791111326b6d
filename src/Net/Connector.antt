-- ===== src/Net/Connector.antt =====
-- windz/net/Connector.{h,cpp}: one outgoing connection, in its loop's thread. The error of
-- `connect` and what is known of a socket that became writable are arguments; times are in
-- nanoseconds.
pub mod Backoff
pub mod Life
pub mod Steady
mod Tests
use windz.Prelude.{
  ℕ, ◌+◌, ◌*◌, ◌-◌, ◌^◌, ◌≤◌, ◌<◌, ◌≡◌, Bool, true, false, not, ◌&&◌, ◌||◌, List, [], ◌∷◌, ◌++◌,
  ltb, if◌then◌else◌, Option, none, some, Run, ok, ◌>>=◌, ◌>>◌, assert,
}
use windz.Net.Channel.{Channel, new_channel, enable_write, disable_read_write, close}

pub data State : Type 0 where
  disconnected connecting connected : State

abbrev pub is_disconnected : State → Bool
is_disconnected disconnected = true
is_disconnected _ = false

abbrev pub is_connecting : State → Bool
is_connecting connecting = true
is_connecting _ = false

-- The cases of the `switch` over `errno`.
pub data Errno : Type 0 where
  none_or_in_progress retryable fatal unexpected : Errno

-- What `HandleWrite` finds: an error of the socket, a connection to itself, or a good one.
pub data Found : Type 0 where
  socket_error self_connect good : Found

-- The functors that the connector gives its loop.
pub data Task : Type 0 where
  start_task stop_task reset_task retry_task : Task

abbrev pub init_retry_duration : ℕ
init_retry_duration = 100_000_000

abbrev pub max_retry_duration : ℕ
max_retry_duration = 30_000_000_000

-- `tasks` is what is queued, `delays` the delays of the retries that were asked for, `given` how
-- many sockets went to `conn_cb_`, `closed` how many were closed.
pub record Connector : Type 0 where
  pub start : Bool
  pub state : State
  pub channel : Option Channel
  pub retry_duration : ℕ
  pub tasks : List Task
  pub delays : List ℕ
  pub given : ℕ
  pub closed : ℕ

unfoldable pub new_connector : Connector
new_connector = record {
  start = false;
  state = disconnected;
  channel = none;
  retry_duration = init_retry_duration;
  tasks = [];
  delays = [];
  given = 0;
  closed = 0;
}

abbrev is_null : Option Channel → Bool
is_null none = true
is_null (some _) = false

-- Whether the loop watches the socket.
abbrev pub awaits_write : Option Channel → Bool
awaits_write none = false
awaits_write (some ch) = ch.writing

-- `Connecting`: the socket is watched until it is writable.
unfoldable pub wait_writable : Connector → Run Connector
unfolding enable_write new_channel
wait_writable c = do
  assert (is_null c.channel)
  ok (record c {
    state = connecting;
    channel = some (enable_write (record new_channel { handled = true }));
  })

abbrev pub capped : ℕ → ℕ
capped d = if ltb max_retry_duration d then max_retry_duration else d

pub retry : Connector → Connector
retry c =
    let c' = record c { state = disconnected; closed = c.closed + 1 } in
    if c.start
    then record c' {
      delays = c.delays ++ c.retry_duration ∷ [];
      retry_duration = capped (c.retry_duration * 2);
    }
    else c'

unfoldable pub connect : Errno → Connector → Run Connector
unfolding wait_writable retry
connect none_or_in_progress c = wait_writable c
connect retryable c = ok (retry c)
connect fatal c = ok (record c { closed = c.closed + 1 })
connect unexpected c = ok (record c { closed = c.closed + 1 })

-- `ResetChannel`: the channel is closed at once, and the pointer to it dropped by a functor.
-- A null pointer is not followed in C++; here it is a fault.
unfoldable pub reset_channel : Connector → Run Connector
unfolding disable_read_write close
reset_channel c = do
  assert (not (is_null c.channel))
  elim c.channel [
    | none ↦ ok c
    | some ch ↦ do
      ch' ← close (disable_read_write ch)
      ok (record c { channel = some ch'; tasks = c.tasks ++ reset_task ∷ [] })
  ]

-- The functor of `Start`, and of a retry.
unfoldable pub start_in_loop : Errno → Connector → Run Connector
unfolding connect
start_in_loop e c = do assert (is_disconnected c.state); if c.start then connect e c else ok c

-- The functor of `Stop`.
pub stop_in_loop : Connector → Run Connector
unfolding reset_channel
stop_in_loop c =
    let stopped = do
      d ← reset_channel (record c { state = disconnected })
      ok (record d { closed = d.closed + 1 })
    in if is_connecting c.state then stopped else ok c

-- `RunInLoop` calls a functor at once in the loop's thread and queues it from another.
unfoldable pub start_connecting : Bool → Errno → Connector → Run Connector
unfolding start_in_loop
start_connecting in_loop e c =
    let c' = record c { start = true } in
    if in_loop then start_in_loop e c' else ok (record c' { tasks = c.tasks ++ start_task ∷ [] })

pub stop : Bool → Connector → Run Connector
unfolding stop_in_loop
stop in_loop c =
    let c' = record c { start = false } in
    if in_loop then stop_in_loop c' else ok (record c' { tasks = c.tasks ++ stop_task ∷ [] })

pub restart_connecting : Errno → Connector → Run Connector
unfolding connect
restart_connecting e c =
    connect e
      (record c { state = disconnected; retry_duration = init_retry_duration; start = true })

unfoldable pub handle_write : Found → Connector → Run Connector
unfolding reset_channel retry
handle_write found c = do
  d ← reset_channel c
  elim found [
    | good ↦ ok (
        if d.start
        then record d { state = connected; given = d.given + 1 }
        else record d { state = connected; closed = d.closed + 1 })
    | _ ↦ ok (retry d)
  ]

pub handle_error : Connector → Run Connector
unfolding reset_channel retry
handle_error c =
    let failed = reset_channel c >>= λ d. ok (retry d) in
    if is_connecting c.state then failed else ok c

-- The loop runs a functor, or a timer's.
unfoldable pub run_task : Errno → Task → Connector → Run Connector
unfolding start_in_loop stop_in_loop
run_task e start_task c = start_in_loop e c
run_task e stop_task c = stop_in_loop c
run_task e reset_task c = ok (record c { channel = none })
run_task e retry_task c = start_in_loop e c
