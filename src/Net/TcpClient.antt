-- ===== src/Net/TcpClient.antt =====
-- windz/net/TcpClient.{h,cpp}: one connection at a time and its connector, in their loop's thread.
-- A connection is known by its place among all that the client has had.
pub mod Single
pub mod Calls
pub mod Again
mod Tests
use windz.Prelude.{
  ℕ, ◌≡◌, Bool, true, false, not, ◌&&◌, List, [], ◌∷◌, ◌++◌, length, get_elem?, set, ltb, ◌==◌, ◌+◌,
  if◌then◌else◌, Option, none, some, Run, ok, fault, out_of_bounds, ◌>>=◌, ◌>>◌, assert,
}
use windz.Net.Channel.{Channel}
use windz.Net.Connector.{Connector, Errno, Found, new_connector, retry_task, awaits_write}
use windz.Net.Connector
use windz.Net.TcpConnection.{
  Connection, new_connection, establish, destroy, shutdown, force_close, establishes, destroys,
}
use windz.Net.TcpConnection
use windz.Net.TcpConnection.Lifecycle.{closes}

-- `destroyed` counts the runs of `DestroyConnection`.
pub record Held : Type 0 where
  pub connection : Connection
  pub destroyed : ℕ

-- `connection` is the pointer `connection_`, by its place in `past`; `tasks` are the functors that
-- destroy a connection, oldest first.
pub record TcpClient : Type 0 where
  pub connector : Connector
  pub has_connection_cb : Bool
  pub retry : Bool
  pub start : Bool
  pub connection : Option ℕ
  pub past : List Held
  pub tasks : List ℕ

pub new_client : TcpClient
new_client = record {
  connector = new_connector;
  has_connection_cb = false;
  retry = false;
  start = false;
  connection = none;
  past = [];
  tasks = [];
}

pub enable_retry : TcpClient → TcpClient
enable_retry c = record c { retry = true }

-- `connector_->Start()` and `connector_->Stop()` leave it to the loop if another thread calls.
pub connect : Bool → Errno → TcpClient → Run TcpClient
connect in_loop e c = do
  assert (not c.start)
  connector ← Connector.start_connecting in_loop e c.connector
  ok (record c { start = true; connector = connector })

-- Something is done with the `i`-th connection.
pub with_held : TcpClient → ℕ → (Connection → Run Connection) → Run TcpClient
with_held c i change = elim (get_elem? c.past i) [
  | none ↦ fault out_of_bounds
  | some h ↦ do
    connection ← change h.connection
    ok (record c { past = set c.past i (record h { connection = connection }) })
]

pub disconnect : Bool → TcpClient → Run TcpClient
unfolding with_held
disconnect in_loop c =
    let c' = record c { start = false } in
    elim c.connection [ none ↦ ok c' | some i ↦ with_held c' i (λ d. ok (shutdown in_loop d)) ]

pub stop : Bool → TcpClient → Run TcpClient
stop in_loop c = do
  connector ← Connector.stop in_loop c.connector
  ok (record c { start = false; connector = connector })

pub new_tcp_connection : TcpClient → Run TcpClient
new_tcp_connection c = do
  conn ← new_connection
  d ← establish (record conn { has_connection_cb = c.has_connection_cb })
  ok (record c {
    connection = some (length c.past);
    past = c.past ++ record { connection = d; destroyed = 0 } ∷ [];
  })

is_current : ℕ → Option ℕ → Bool
is_current i none = false
is_current i (some j) = i == j

-- `RemoveTcpConnection`, the close callback; `e` is what `connect` then finds.
pub remove_tcp_connection : Errno → ℕ → TcpClient → Run TcpClient
unfolding is_current
remove_tcp_connection e i c =
    let gone = record c { connection = none; tasks = c.tasks ++ i ∷ [] } in
    let restart = do
      connector ← Connector.restart_connecting e c.connector
      ok (record gone { connector = connector })
    in assert (is_current i c.connection) >> (if c.retry && c.start then restart else ok gone)

-- The destructor, in the loop's thread; `unique` is whether no other pointer to the connection is
-- left. The second of the close callbacks, which it sets, queues the destruction only.
pub destruct : Bool → TcpClient → Run TcpClient
unfolding with_held stop
destruct unique c =
    let stopped = do
      connector ← Connector.stop true c.connector
      ok (record c { connector = connector })
    in elim c.connection [
      | none ↦ stopped
      | some i ↦ if unique then with_held c i (λ d. ok (force_close d)) else ok c
    ]

pub remove_after_destruct : ℕ → TcpClient → TcpClient
remove_after_destruct i c = record c { tasks = c.tasks ++ i ∷ [] }

-- What the loop, the user and the kernel do. The kernel reports the socket of the connector as
-- writable, or an error of it, only while its channel asks for that.
pub data Call : Type 0 where
  connects : Bool → Errno → Call
  disconnects stops : Bool → Call
  runs_connector : Errno → Call
  retry_due : Errno → Call
  writable : Found → Call
  error_event : Call
  acts : ℕ → TcpConnection.Call → Errno → Call
  runs_destroy : Call

-- `HandleWrite` of the connector, and the connection callback that it may call last.
pub handle_writable : Found → TcpClient → Run TcpClient
handle_writable found c = do
  connector ← Connector.handle_write found c.connector
  let c' = record c { connector = connector }
  if ltb c.connector.given connector.given then new_tcp_connection c' else ok c'

-- The connector's oldest functor, or a retry's.
pub run_connector : Errno → TcpClient → Run TcpClient
run_connector e c = elim c.connector.tasks [
  | [] ↦ ok c
  | t ∷ ts ↦ do
    connector ← Connector.run_task e t (record c.connector { tasks = ts })
    ok (record c { connector = connector })
]

pub retry_connector : Errno → TcpClient → Run TcpClient
retry_connector e c = do
  connector ← Connector.run_task e retry_task c.connector
  ok (record c { connector = connector })

pub handle_error_event : TcpClient → Run TcpClient
handle_error_event c = do
  connector ← Connector.handle_error c.connector
  ok (record c { connector = connector })

pub run_destroy : TcpClient → Run TcpClient
run_destroy c = elim c.tasks [
  | [] ↦ ok c
  | i ∷ ts ↦ elim (get_elem? c.past i) [
    | none ↦ fault out_of_bounds
    | some h ↦ do
      d ← destroy h.connection
      let h' : Held = record { connection = d; destroyed = h.destroyed + 1 }
      ok (record c { past = set c.past i h'; tasks = ts })
  ]
]

pub is_owner_call : TcpConnection.Call → Bool
is_owner_call establishes = true
is_owner_call destroys = true
is_owner_call _ = false

-- The close callback is the last that such a call does.
act : ℕ → Held → TcpConnection.Call → Errno → TcpClient → Run TcpClient
unfolding remove_tcp_connection
act i h k e c = do
  d ← TcpConnection.step k h.connection
  let c' = record c { past = set c.past i (record h { connection = d }) }
  if ltb (closes h.connection.events) (closes d.events) then remove_tcp_connection e i c' else ok c'

pub step : Call → TcpClient → Run TcpClient
unfolding act is_owner_call
step (connects in_loop e) c = connect in_loop e c
step (disconnects in_loop) c = disconnect in_loop c
step (stops in_loop) c = stop in_loop c
step (runs_connector e) c = run_connector e c
step (retry_due e) c = retry_connector e c
step (writable found) c = if awaits_write c.connector.channel then handle_writable found c else ok c
step error_event c = if awaits_write c.connector.channel then handle_error_event c else ok c
step (acts i k e) c = elim (get_elem? c.past i) [
  | none ↦ ok c
  | some h ↦ if is_owner_call k then ok c else act i h k e c
]
step runs_destroy c = run_destroy c

pub run : List Call → TcpClient → Run TcpClient
run [] c = ok c
run (k ∷ ks) c = step k c >>= run ks
