-- ===== src/Net/Connector/Steady.antt =====
-- A connector of windz/net/Connector.cpp that has connected stays so, and watches its socket no
-- more, until it is restarted.
use windz.Prelude.{
  ◌≡◌, ◌≢◌, refl, true, false, Bool, none, Run, ok, arith, ◌<◌, Returns, returns, fault, assertion,
}
use windz.Net.Channel.{close, disable_read_write, enable_write, new_channel}
use windz.Net.Connector.{
  Connector, Errno, Found, Task, connected, connecting, disconnected, none_or_in_progress,
  retryable, fatal, unexpected, socket_error, self_connect, good, start_task, stop_task, reset_task,
  retry_task, start_connecting, start_in_loop, connect, wait_writable, stop, stop_in_loop,
  reset_channel, run_task, handle_error, awaits_write, retry, handle_write, restart_connecting,
  new_connector, init_retry_duration,
}

abbrev pub Quiet : Connector → Type 0
Quiet k = k.state ≡ connected → awaits_write k.channel ≡ false

pub record Steady (k k' : Connector) : Type 0 where
  pub stays : k.state ≡ connected → k'.state ≡ connected
  pub quiet : Quiet k → Quiet k'

abbrev SteadyTo : Connector → Run Connector → Type 0
SteadyTo k r = (k' : Connector) → r ≡ ok k' → Steady k k'

connect-ends :
    (e : Errno) (k k' : Connector)
    → connect e k ≡ ok k'
    → k.state ≡ disconnected
    → k'.state ≢ connected
unfolding connect wait_writable retry
connect-ends none_or_in_progress k k' h d = ground arith
connect-ends retryable k k' h d = ground arith
connect-ends fatal k k' h d = ground arith
connect-ends unexpected k k' h d = ground arith

start_in_loop-Steady : (e : Errno) (k : Connector) → SteadyTo k (start_in_loop e k)
unfolding start_in_loop
start_in_loop-Steady e k k' h = ground (arith, connect-ends e k k')

pub start_connecting-Steady :
    (b : Bool) (e : Errno) (k : Connector) → SteadyTo k (start_connecting b e k)
unfolding start_connecting
start_connecting-Steady b e k k' h =
    ground (arith, start_in_loop-Steady e (record k { start = true }) k')

stop_in_loop-Steady : (k : Connector) → SteadyTo k (stop_in_loop k)
unfolding stop_in_loop reset_channel disable_read_write close
stop_in_loop-Steady k k' h = ground arith

pub stop-Steady : (b : Bool) (k : Connector) → SteadyTo k (stop b k)
unfolding stop
stop-Steady b k k' h = ground (arith, stop_in_loop-Steady (record k { start = false }) k')

pub run_task-Steady : (e : Errno) (t : Task) (k : Connector) → SteadyTo k (run_task e t k)
unfolding run_task
run_task-Steady e start_task k k' h = start_in_loop-Steady e k k' h
run_task-Steady e stop_task k k' h = stop_in_loop-Steady k k' h
run_task-Steady e reset_task k k' h = ground arith
run_task-Steady e retry_task k k' h = start_in_loop-Steady e k k' h

-- An event of a connector that is not connected.
pub handle_error-Steady : (k : Connector) → SteadyTo k (handle_error k)
unfolding handle_error reset_channel disable_read_write close retry
handle_error-Steady k k' h = ground arith

pub handle_write-Quiet :
    (found : Found) (k k' : Connector) → handle_write found k ≡ ok k' → Quiet k'
unfolding handle_write reset_channel disable_read_write close retry
handle_write-Quiet socket_error k k' h = ground arith
handle_write-Quiet self_connect k k' h = ground arith
handle_write-Quiet good k k' h = ground arith

pub restart_connecting-Quiet :
    (e : Errno) (k k' : Connector) → restart_connecting e k ≡ ok k' → Quiet k'
unfolding restart_connecting
restart_connecting-Quiet e k k' h = ground (arith, connect-ends e _ k' h refl)

-- A connection is given to the callback only as the connector becomes connected.
pub handle_write-given :
    (found : Found) (k k' : Connector)
    → handle_write found k ≡ ok k'
    → k.given < k'.given
    → k'.state ≡ connected
unfolding handle_write reset_channel disable_read_write close retry
handle_write-given socket_error k k' h g = ground arith
handle_write-given self_connect k k' h g = ground arith
handle_write-given good k k' h g = ground arith

pub new_connector-Quiet : Quiet new_connector
unfolding new_connector
new_connector-Quiet e = refl

-- A restart begins a new attempt with the first delay.
pub record Trying (k : Connector) : Type 0 where
  pub state : k.state ≡ connecting
  pub start : k.start ≡ true
  pub waits : awaits_write k.channel ≡ true
  pub delay : k.retry_duration ≡ init_retry_duration

pub restart_connecting-Trying :
    (k : Connector) → k.channel ≡ none → Returns Trying (restart_connecting none_or_in_progress k)
unfolding restart_connecting connect wait_writable enable_write new_channel
restart_connecting-Trying k empty =
    rw empty (returns (record { state = refl; start = refl; waits = refl; delay = refl }))

pub start_connecting-faults :
    (e : Errno) (k : Connector) → k.state ≡ connected → start_connecting true e k ≡ fault assertion
unfolding start_connecting start_in_loop
start_connecting-faults e k linked = rw linked refl
