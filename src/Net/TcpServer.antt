-- ===== src/Net/TcpServer.antt =====
-- windz/net/TcpServer.{h,cpp}: the connections of a server, from their acceptance to their
-- destruction, over the loops of a thread pool. A loop is a number; a functor that is queued in a
-- loop is a `Task`, and a connection is known by its place among all that were ever accepted.
mod Names
mod Pending
pub mod Calls
mod Destruct
pub mod Once
mod Tests
use windz.Prelude.{
  ℕ, ◌+◌, ◌%◌, ◌^◌, ◌≡◌, Bool, true, false, not, ◌&&◌, List, [], ◌∷◌, ◌++◌, length, get_elem?, set,
  ltb, ◌==◌, if◌then◌else◌, Option, none, some, Run, ok, fault, out_of_bounds, ◌>>=◌, ◌>>◌, assert,
  require,
}
use windz.Net.EventLoopThreadPool.{EventLoopThreadPool, new_pool, next_loop}
use windz.Net.TcpConnection.{Connection, new_connection, establish, destroy, establishes, destroys}
use windz.Net.EventLoopThreadPool
use windz.Net.TcpConnection
use windz.Net.TcpConnection.Lifecycle.{closes}

-- The functors: of `NewTcpConnection`, of `RemoveTcpConnection`, of the destructor or of that of
-- `RemoveTcpConnection`, and of `Start`.
pub data Task : Type 0 where
  establish_task remove_task destroy_task : ℕ → Task
  listen_task : Task

-- `established` and `destroyed` count the runs of `EstablishConnection` and `DestroyConnection`.
pub record Served : Type 0 where
  pub name : List ℕ
  pub loop : ℕ
  pub connection : Connection
  pub established : ℕ
  pub destroyed : ℕ

-- `connections` is the map, from a name to the place in `served`; `tasks` is what is queued, each
-- with its loop, oldest first. The `int` of `next_connid_` is its pattern of 32 bits.
pub record TcpServer : Type 0 where
  pub loop : ℕ
  pub name : List ℕ
  pub listenning : Bool
  pub thread_pool : Option EventLoopThreadPool
  pub has_connection_cb : Bool
  pub started : ℕ
  pub next_connid : ℕ
  pub connections : List (List ℕ × ℕ)
  pub served : List Served
  pub tasks : List (ℕ × Task)

pub new_server : ℕ → List ℕ → TcpServer
new_server loop name = record {
  loop = loop;
  name = name;
  listenning = false;
  thread_pool = none;
  has_connection_cb = false;
  started = 0;
  next_connid = 1;
  connections = [];
  served = [];
  tasks = [];
}

pub same_name : List ℕ → List ℕ → Bool
same_name [] [] = true
same_name (x ∷ xs) (y ∷ ys) = (x == y) && same_name xs ys
same_name _ _ = false

-- `connections_[name] = conn`
unfoldable pub assign : List ℕ → ℕ → List (List ℕ × ℕ) → List (List ℕ × ℕ)
unfolding same_name
assign name i [] = (name, i) ∷ []
assign name i ((other, j) ∷ m) =
    if same_name name other then (other, i) ∷ m else (other, j) ∷ assign name i m

-- `connections_.erase(name)`
unfoldable pub erase : List ℕ → List (List ℕ × ℕ) → List (List ℕ × ℕ)
unfolding same_name
erase name [] = []
erase name ((other, j) ∷ m) =
    let rest = erase name m in if same_name name other then rest else (other, j) ∷ rest

-- Something is done with the `i`-th connection.
pub with_served : TcpServer → ℕ → (Served → Run Served) → Run TcpServer
with_served s i change = elim (get_elem? s.served i) [
  | none ↦ fault out_of_bounds
  | some d ↦ do d' ← change d; ok (record s { served = set s.served i d' })
]

-- `QueueInLoop`
post : ℕ → Task → TcpServer → TcpServer
post l t s = record s { tasks = s.tasks ++ (l, t) ∷ [] }

-- What the functors call.
establish_served : Served → Run Served
establish_served d = do
  c ← establish d.connection
  ok (record d { connection = c; established = d.established + 1 })

destroy_served : Served → Run Served
destroy_served d = do
  c ← destroy d.connection
  ok (record d { connection = c; destroyed = d.destroyed + 1 })

-- The functor of `RemoveTcpConnection`.
remove_in_loop : ℕ → TcpServer → Run TcpServer
unfolding post
remove_in_loop i s = elim (get_elem? s.served i) [
  | none ↦ fault out_of_bounds
  | some d ↦
      ok (post d.loop (destroy_task i) (record s { connections = erase d.name s.connections }))
]

-- Loop `l` runs a functor.
pub run_task : ℕ → Task → TcpServer → Run TcpServer
unfolding with_served establish_served destroy_served remove_in_loop
run_task l (establish_task i) s = with_served s i establish_served
run_task l (destroy_task i) s = with_served s i destroy_served
run_task l (remove_task i) s = do assert (l == s.loop); remove_in_loop i s
run_task l listen_task s = do assert (l == s.loop); ok (record s { listenning = true })

-- `RunInLoop` of loop `l` in the thread of loop `here`.
pub run_in_loop : ℕ → ℕ → Task → TcpServer → Run TcpServer
unfolding run_task post
run_in_loop here l t s = if here == l then run_task l t s else ok (post l t s)

-- `Start`, called in the thread of loop `here`; `make` is as in the thread pool.
pub start : (ℕ → ℕ) → ℕ → ℕ → TcpServer → Run TcpServer
unfolding run_in_loop
start make here thread_num s =
    let again = record s { started = (s.started + 1) % 2 ^ 32 } in
    let with_threads : Run TcpServer = do
      pool ← EventLoopThreadPool.start make thread_num new_pool
      ok (record again { thread_pool = some pool })
    in let first = do
      s' ← if ltb 0 thread_num then with_threads else ok again
      assert (not s'.listenning)
      run_in_loop here s'.loop listen_task s'
      in if s.started == 0 then first else ok again

-- The loop of the next connection. A null pointer is not followed in C++; here it is a fault.
choose_loop : TcpServer → Run (ℕ × TcpServer)
choose_loop s = elim s.thread_pool [
  | none ↦ ok (s.loop, s)
  | some pool ↦ do
    (l, pool') ← next_loop pool
    elim l [
      | none ↦ fault out_of_bounds
      | some ioloop ↦ ok (ioloop, record s { thread_pool = some pool' })
    ]
]

-- `std::to_string` of an `int`.
module _ (to_string : ℕ → List ℕ) where
  -- `name_ + '#' + std::to_string(next_connid_)`
  abbrev pub conn_name : TcpServer → ℕ → List ℕ
  conn_name s id = s.name ++ 35 ∷ to_string id

  -- `NewTcpConnection`, in the thread of the server's loop: up to the call of `RunInLoop`.
  add_connection : ℕ → Connection → TcpServer → TcpServer
  unfolding assign
  add_connection ioloop conn s =
      let conn_name = conn_name s s.next_connid in
      let d : Served = record {
        name = conn_name;
        loop = ioloop;
        connection = record conn { has_connection_cb = s.has_connection_cb };
        established = 0;
        destroyed = 0;
      } in
      record s {
        next_connid = (s.next_connid + 1) % 2 ^ 32;
        connections = assign conn_name (length s.served) s.connections;
        served = s.served ++ d ∷ [];
      }

  pub new_tcp_connection : TcpServer → Run TcpServer
  unfolding choose_loop add_connection run_in_loop
  new_tcp_connection s = do
    (ioloop, s') ← choose_loop s
    conn ← new_connection
    run_in_loop s.loop ioloop (establish_task (length s.served)) (add_connection ioloop conn s')

-- `RemoveTcpConnection`, the close callback, in the thread of the connection's loop `here`.
pub remove_tcp_connection : ℕ → ℕ → TcpServer → Run TcpServer
unfolding run_in_loop
remove_tcp_connection here i s = run_in_loop here s.loop (remove_task i) s

-- The destructor, in the thread of the server's loop.
destroy_each : List (List ℕ × ℕ) → TcpServer → Run TcpServer
unfolding run_in_loop
destroy_each [] s = ok s
destroy_each ((name, i) ∷ m) s = elim (get_elem? s.served i) [
  | none ↦ fault out_of_bounds
  | some d ↦ run_in_loop s.loop d.loop (destroy_task i) s >>= destroy_each m
]

pub destruct : TcpServer → Run TcpServer
unfolding destroy_each
destruct s = destroy_each s.connections (record s { connections = [] })

-- The oldest functor of loop `l`, and the queues without it.
pub oldest : ℕ → List (ℕ × Task) → Option (Task × List (ℕ × Task))
oldest l [] = none
oldest l ((l', t) ∷ ts) =
    let rest = oldest l ts in
    if l == l'
    then some (t, ts)
    else elim rest [ none ↦ none | some (t', ts') ↦ some (t', (l', t) ∷ ts') ]

-- What happens to a server: a connection is accepted, a loop runs its oldest functor, or something
-- is done with a connection in its loop. Only the server establishes and destroys.
pub data Call : Type 0 where
  accepts : Call
  loops : ℕ → Call
  acts : ℕ → TcpConnection.Call → Call

pub is_owner_call : TcpConnection.Call → Bool
is_owner_call establishes = true
is_owner_call destroys = true
is_owner_call _ = false

-- The close callback is the last that such a call does.
act : ℕ → Served → TcpConnection.Call → TcpServer → Run TcpServer
unfolding remove_tcp_connection
act i d k s = do
  c ← TcpConnection.step k d.connection
  let s' = record s { served = set s.served i (record d { connection = c }) }
  if ltb (closes d.connection.events) (closes c.events)
      then remove_tcp_connection d.loop i s'
      else ok s'

pub step : (ℕ → List ℕ) → Call → TcpServer → Run TcpServer
unfolding oldest act is_owner_call
step to_string accepts s = new_tcp_connection to_string s
step to_string (loops l) s = elim (oldest l s.tasks) [
  | none ↦ ok s
  | some (t, ts) ↦ run_task l t (record s { tasks = ts })
]
step to_string (acts i k) s = elim (get_elem? s.served i) [
  | none ↦ ok s
  | some d ↦ if is_owner_call k then ok s else act i d k s
]

pub run : (ℕ → List ℕ) → List Call → TcpServer → Run TcpServer
run to_string [] s = ok s
run to_string (k ∷ ks) s = step to_string k s >>= run to_string ks
