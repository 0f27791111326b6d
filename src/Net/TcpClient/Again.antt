-- ===== src/Net/TcpClient/Again.antt =====
-- How a client of windz/net/TcpClient.cpp connects again, and how it cannot.
use windz.Prelude.{
  ℕ, ◌≡◌, refl, inl, inr, Bool, true, false, ◌&&◌, Bool-cases, none, some, Option-cases, List, [],
  ◌∷◌, ◌++◌, get_elem?, ltb, Run, ok, fault, assertion, ok-injective, ok_of_bind, fault-ne-ok,
  if◌then◌else◌, arith, Returns, returns, Returns-bind, Returns-require, require,
}
use windz.Net.Connector.{Connector, Errno, connected, awaits_write, none_or_in_progress}
use windz.Net.Connector
use windz.Net.Connector.Steady.{
  Quiet, stop-Steady, run_task-Steady, Trying, restart_connecting-Trying, start_connecting-faults,
}
use windz.Net.TcpConnection.{Connection, destroy}
use windz.Net.TcpConnection
use windz.Net.TcpConnection.Lifecycle.{closes}
use windz.Net.TcpClient.{
  TcpClient, Held, Call, connects, disconnects, stops, runs_connector, retry_due, writable,
  error_event, acts, runs_destroy, connect, disconnect, with_held, stop, is_current,
  remove_tcp_connection, run_connector, retry_connector, run_destroy, is_owner_call, act, step, run,
}
use windz.Net.TcpClient.Single.{IsSingle}

-- What the client does about its connector when it has lost its connection.
abbrev pub Reacts : TcpClient → TcpClient → Type 0
Reacts c c' = if c.retry && c.start then Trying c'.connector else (c'.connector ≡ c.connector)

-- The close callback of the connection that the client holds returns; the client then holds none,
-- its destruction is queued, and a client that is started and set to retry tries to connect again
-- with the first delay, if the channel of its connector is gone.
remove_tcp_connection-Reacts :
    (i : ℕ) (c : TcpClient)
    → c.connection ≡ some i
    → c.connector.channel ≡ none
    → Returns
        (λ c'. (c'.connection ≡ none) × (c'.tasks ≡ c.tasks ++ i ∷ []) × Reacts c c')
        (remove_tcp_connection none_or_in_progress i c)
unfolding remove_tcp_connection is_current
remove_tcp_connection-Reacts i c mine empty =
    Returns-require (is_current i c.connection) assertion (rw mine (ground arith))
      (elim (Bool-cases (c.retry && c.start)) [
        | inl e ↦ rw e (
            Returns-bind (restart_connecting-Trying c.connector empty)
              λ k v. returns (refl, refl, v))
        | inr e ↦ rw e (returns (refl, refl, refl))
      ])

-- A client that is not started, and whose connector is still as it was while there was a connection.
record Stuck (c : TcpClient) : Type 0 where
  stopped : c.start ≡ false
  linked : c.connector.state ≡ connected
  quiet : Quiet c.connector

-- No call of `Connect`.
abbrev pub IsOther : Call → Type 0
IsOther (connects b e) = ⊥
IsOther _ = Unit {0}

abbrev pub NoConnect : List Call → Type 0
NoConnect [] = Unit {0}
NoConnect (k ∷ ks) = IsOther k × NoConnect ks

abbrev StuckTo : TcpClient → Run TcpClient → Type 0
StuckTo c r = (c' : TcpClient) → Stuck c → r ≡ ok c' → Stuck c'

disconnect-Stuck :
    (b : Bool) (c c' : TcpClient)
    → c.connector.state ≡ connected
    → Quiet c.connector
    → disconnect b c ≡ ok c'
    → Stuck c'
unfolding disconnect with_held
disconnect-Stuck b c c' linked quiet r = ground arith

stop-Stuck : (b : Bool) (c : TcpClient) → StuckTo c (stop b c)
unfolding stop
stop-Stuck b c c' v r =
    let (k, h, q) = ok_of_bind (Connector.stop b c.connector) _ r in
    let s = stop-Steady b c.connector k h in
    rw (← ok-injective q)
      (record { stopped = refl; linked = s.stays v.linked; quiet = s.quiet v.quiet })

retry_connector-Stuck : (e : Errno) (c : TcpClient) → StuckTo c (retry_connector e c)
unfolding retry_connector
retry_connector-Stuck e c c' v r =
    let (k, h, q) = ok_of_bind (Connector.run_task e _ c.connector) _ r in
    let s = run_task-Steady e _ c.connector k h in
    rw (← ok-injective q)
      (record { stopped = v.stopped; linked = s.stays v.linked; quiet = s.quiet v.quiet })

run_connector-Stuck : (e : Errno) (c : TcpClient) → StuckTo c (run_connector e c)
unfolding run_connector
run_connector-Stuck e c c' v r = go c.connector.tasks refl
  where
    go : (ts : List Connector.Task) → c.connector.tasks ≡ ts → Stuck c'
    go [] p = rw (← ok-injective (rw (p, run_connector) at r)) v
    go (t ∷ ts) p =
        let (k, h, q) =
          ok_of_bind (Connector.run_task e t (record c.connector { tasks = ts })) _
            (rw (p, run_connector) at r) in
        let s = run_task-Steady e t (record c.connector { tasks = ts }) k h in
        rw (← ok-injective q)
          (record { stopped = v.stopped; linked = s.stays v.linked; quiet = s.quiet v.quiet })

act-Stuck :
    (i : ℕ) (h : Held) (k : TcpConnection.Call) (e : Errno) (c : TcpClient)
    → StuckTo c (act i h k e c)
unfolding act remove_tcp_connection
act-Stuck i h k e c c' v r =
    let (d, f, g) = ok_of_bind (TcpConnection.step k h.connection) _ r in
    elim (Bool-cases (ltb (closes h.connection.events) (closes d.events))) [
      | inr quiet ↦
          rw (← ok-injective (rw quiet at g))
            (record { stopped = v.stopped; linked = v.linked; quiet = v.quiet })
      | inl told ↦
          let (u, held, q) =
            ok_of_bind (require (is_current i c.connection) assertion) _ (rw told at g) in
          let still : (c.retry && c.start) ≡ false = ground (arith, v.stopped) in
          rw (← ok-injective (rw still at q))
            (record { stopped = v.stopped; linked = v.linked; quiet = v.quiet })
    ]

run_destroy-Stuck : (c : TcpClient) → StuckTo c (run_destroy c)
unfolding run_destroy
run_destroy-Stuck c c' v r = go c.tasks refl
  where
    go : (ts : List ℕ) → c.tasks ≡ ts → Stuck c'
    go [] p = rw (← ok-injective (rw (p, run_destroy) at r)) v
    go (i ∷ ts) p = elim (Option-cases (get_elem? c.past i)) [
      | inl f ↦ absurd (fault-ne-ok (rw (p, f, run_destroy) at r))
      | inr (h, f) ↦
          let (d, g, q) = ok_of_bind (destroy h.connection) _ (rw (p, f, run_destroy) at r) in
          rw (← ok-injective q) (record { stopped = v.stopped; linked = v.linked; quiet = v.quiet })
    ]

step-Stuck : (k : Call) (c : TcpClient) → IsOther k → StuckTo c (step k c)
unfolding step
step-Stuck (connects b e) c n c' v r = absurd n
step-Stuck (disconnects b) c n c' v r = disconnect-Stuck b c c' v.linked v.quiet r
step-Stuck (stops b) c n c' v r = stop-Stuck b c c' v r
step-Stuck (runs_connector e) c n c' v r = run_connector-Stuck e c c' v r
step-Stuck (retry_due e) c n c' v r = retry_connector-Stuck e c c' v r
step-Stuck (writable found) c n c' v r = rw (← ok-injective (rw (v.quiet v.linked, step) at r)) v
step-Stuck error_event c n c' v r = rw (← ok-injective (rw (v.quiet v.linked, step) at r)) v
step-Stuck (acts i k e) c n c' v r = elim (Option-cases (get_elem? c.past i)) [
  | inl f ↦ rw (← ok-injective (rw (f, step) at r)) v
  | inr (h, f) ↦
      let taken = rw (f, step) at r in
      elim (Bool-cases (is_owner_call k)) [
        | inl owner ↦ rw (← ok-injective (rw owner at taken)) v
        | inr other ↦ act-Stuck i h k e c c' v (rw other at taken)
      ]
]
step-Stuck runs_destroy c n c' v r = run_destroy-Stuck c c' v r

run-Stuck : (ks : List Call) (c : TcpClient) → NoConnect ks → StuckTo c (run ks c)
unfolding run
run-Stuck [] c n c' v r = rw (← ok-injective r) v
run-Stuck (k ∷ ks) c n c' v r =
    let (d, f, g) = ok_of_bind (step k c) _ r in run-Stuck ks d n.1 c' (step-Stuck k c n.0 d v f) g

-- A client that holds a connection and disconnects cannot connect again: whatever is called and
-- happens after `Disconnect`, but for another `Connect`, a `Connect` in the loop's thread fails
-- the assertion that its connector is disconnected.
pub connect_again-faults :
    (b : Bool) (i : ℕ) (ks : List Call) (e : Errno) (c c' : TcpClient)
    → IsSingle c
    → c.connection ≡ some i
    → NoConnect ks
    → run (disconnects b ∷ ks) c ≡ ok c'
    → connect true e c' ≡ fault assertion
unfolding run step connect
connect_again-faults b i ks e c c' v mine others r =
    let (d, f, g) = ok_of_bind (disconnect b c) _ r in
    let stuck = disconnect-Stuck b c d (v.live i mine) v.quiet f in
    let still = run-Stuck ks d others c' stuck g in
    rw (still.stopped, start_connecting-faults e c'.connector still.linked) refl
