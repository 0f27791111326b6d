-- ===== src/Net/TcpClient/Single.antt =====
-- The connections of windz/net/TcpClient.cpp, of which one at most has not ended.
use windz.Prelude.{
  ℕ, ◌+◌, ◌≤◌, ◌≡◌, ◌≢◌, refl, sym, ◌∙◌, ap, inl, inr, Bool, true, false, some, Option-cases, List,
  [], ◌∷◌, ◌++◌, arith, get_elem?, set, length, length-set, get_elem?-set, get_elem?-length, Run,
  ok, ok-injective, ok_of_bind, fault-ne-ok, ◌==◌, if◌then◌else◌, require, assertion, not,
}
use windz.Net.Connector.{Connector, Errno, Found, connected, awaits_write}
use windz.Net.Connector
use windz.Net.Connector.Steady.{
  Quiet, Steady, start_connecting-Steady, stop-Steady, run_task-Steady, handle_error-Steady,
}
use windz.Net.TcpConnection.{shutdown}
use windz.Net.TcpConnection.Lifecycle.{closes, EndsOnce, shutdown-closes}
use windz.Net.TcpClient.{
  TcpClient, Held, connect, with_held, disconnect, stop, run_connector, retry_connector,
  handle_error_event,
}

-- How many functors that destroy the `i`-th connection wait.
abbrev pub queued : ℕ → List ℕ → ℕ
queued i [] = 0
queued i (j ∷ ts) = (if i == j then 1 else 0) + queued i ts

pub queued-append : (i : ℕ) (ts us : List ℕ) → queued i (ts ++ us) ≡ queued i ts + queued i us
queued-append i [] us = omega arith
queued-append i (t ∷ ts) us = omega (arith, queued-append i ts us)

-- A connection that has not ended is the one that the client holds; one that has is destroyed once,
-- or a functor that does so waits.
pub record Kept (c : TcpClient) (i : ℕ) (h : Held) : Type 0 where
  pub ends : EndsOnce h.connection
  pub balance : queued i c.tasks + h.destroyed ≡ closes h.connection.events
  pub current : closes h.connection.events ≡ 0 → c.connection ≡ some i

pub record IsSingle (c : TcpClient) : Type 0 where
  pub each : (i : ℕ) (h : Held) → get_elem? c.past i ≡ some h → Kept c i h
  pub fresh : (i : ℕ) → length c.past ≤ i → queued i c.tasks ≡ 0
  pub live : (i : ℕ) → c.connection ≡ some i → c.connector.state ≡ connected
  pub quiet : Quiet c.connector

abbrev pub SingleTo : TcpClient → Run TcpClient → Type 0
SingleTo c r = (c' : TcpClient) → IsSingle c → r ≡ ok c' → IsSingle c'

-- Only the connector has moved.
pub moved :
    (c : TcpClient) (k : Connector) (started : Bool)
    → IsSingle c
    → Steady c.connector k
    → IsSingle (record c { connector = k; start = started })
moved c k started v s = record {
  each = λ i h g.
      let n = v.each i h g in record { ends = n.ends; balance = n.balance; current = n.current };
  fresh = v.fresh;
  live = λ i p. s.stays (v.live i p);
  quiet = s.quiet v.quiet;
}

pub connect-IsSingle : (b : Bool) (e : Errno) (c : TcpClient) → SingleTo c (connect b e c)
unfolding connect
connect-IsSingle b e c c' v r =
    let (u, f, g) = ok_of_bind (require (not c.start) assertion) _ r in
    let (k, h, q) = ok_of_bind (Connector.start_connecting b e c.connector) _ g in
    rw (← ok-injective q) (moved c k true v (start_connecting-Steady b e c.connector k h))

pub stop-IsSingle : (b : Bool) (c : TcpClient) → SingleTo c (stop b c)
unfolding stop
stop-IsSingle b c c' v r =
    let (k, h, q) = ok_of_bind (Connector.stop b c.connector) _ r in
    rw (← ok-injective q) (moved c k false v (stop-Steady b c.connector k h))

pub retry_connector-IsSingle : (e : Errno) (c : TcpClient) → SingleTo c (retry_connector e c)
unfolding retry_connector
retry_connector-IsSingle e c c' v r =
    let (k, h, q) = ok_of_bind (Connector.run_task e _ c.connector) _ r in
    rw (← ok-injective q) (moved c k c.start v (run_task-Steady e _ c.connector k h))

pub handle_error_event-IsSingle : (c : TcpClient) → SingleTo c (handle_error_event c)
unfolding handle_error_event
handle_error_event-IsSingle c c' v r =
    let (k, h, q) = ok_of_bind (Connector.handle_error c.connector) _ r in
    rw (← ok-injective q) (moved c k c.start v (handle_error-Steady c.connector k h))

pub run_connector-IsSingle : (e : Errno) (c : TcpClient) → SingleTo c (run_connector e c)
unfolding run_connector
run_connector-IsSingle e c c' v r = go c.connector.tasks refl
  where
    go : (ts : List Connector.Task) → c.connector.tasks ≡ ts → IsSingle c'
    go [] p = rw (← ok-injective (rw (p, run_connector) at r)) v
    go (t ∷ ts) p =
        let (k, h, q) =
          ok_of_bind (Connector.run_task e t (record c.connector { tasks = ts })) _
            (rw (p, run_connector) at r) in
        let s = run_task-Steady e t (record c.connector { tasks = ts }) k h in
        rw (← ok-injective q) (moved c k c.start v (record { stays = s.stays; quiet = s.quiet }))

-- One connection changes, and with it the functors that destroy it.
pub changed :
    (c c' : TcpClient) (i : ℕ) (h h' : Held)
    → IsSingle c
    → get_elem? c.past i ≡ some h
    → c'.past ≡ set c.past i h'
    → ((j : ℕ) → i ≢ j → queued j c'.tasks ≡ queued j c.tasks)
    → ((j : ℕ) → i ≢ j → c.connection ≡ some j → c'.connection ≡ some j)
    → Kept c' i h'
    → ((j : ℕ) → c'.connection ≡ some j → c'.connector.state ≡ connected)
    → Quiet c'.connector
    → IsSingle c'
changed c c' i h h' v at_i past same held new live quiet = record {
  each = λ j o g. elim (get_elem?-set c.past i j at_i (ap (λ p. get_elem? p j) (sym past) ∙ g)) [
    | inl (here, got) ↦ rw (got, ← here) new
    | inr (other, got) ↦
        let k = v.each j o got in
        record {
          ends = k.ends;
          balance = omega (arith, k.balance, same j other);
          current = λ z. held j other (k.current z);
        }
  ];
  fresh = λ j p.
      let size = ap length past ∙ length-set c.past i h' in
      let inside = get_elem?-length c.past i at_i in
      omega (
        arith,
        v.fresh j (omega (arith, size)),
        same j (λ here. absurd (omega (arith, here, inside, size))),
      );
  live = live;
  quiet = quiet;
}

pub disconnect-IsSingle : (b : Bool) (c : TcpClient) → SingleTo c (disconnect b c)
unfolding disconnect with_held
disconnect-IsSingle b c c' v r = elim (Option-cases c.connection) [
  | inl f ↦
      rw (← ok-injective (rw (f, disconnect) at r))
        (moved c c.connector false v (record { stays = λ e. e; quiet = λ q. q }))
  | inr (i, f) ↦ elim (Option-cases (get_elem? c.past i)) [
    | inl g ↦ absurd (fault-ne-ok (rw (f, g, disconnect, with_held) at r))
    | inr (h, g) ↦
        let k = v.each i h g in
        let d = shutdown b h.connection in
        let quiet_end = shutdown-closes b h.connection in
        rw (← ok-injective (rw (f, g, disconnect, with_held) at r)) (
          changed c _ i h (record h { connection = d }) v g refl (λ j o. refl) (λ j o p. p)
            (record {
              ends = quiet_end.1 k.ends;
              balance = k.balance ∙ sym quiet_end.0;
              current = λ z. f;
            })
            v.live v.quiet)
  ]
]
