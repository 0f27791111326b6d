-- ===== src/Net/TcpClient/Calls.antt =====
-- Every call of windz/net/TcpClient.cpp keeps what `Single.IsSingle` says.
use windz.Prelude.{
  false≢true, ℕ, ◌+◌, ◌<◌, ◌≡◌, ◌≢◌, refl, sym, ◌∙◌, ap, inl, inr, true, Bool-cases, Option, none,
  some, Option-cases, List, [], ◌∷◌, ◌++◌, arith, get_elem?, set, length, length-append,
  get_elem?-append, ok-injective, ok_of_bind, fault-ne-ok, ◌&&◌, ltb, ltb→lt, require, assertion,
  require_passed,
}
use windz.Net.Connector.{Connector, Errno, Found, connected, awaits_write}
use windz.Net.Connector
use windz.Net.Connector.Steady.{
  Quiet, handle_write-Quiet, handle_write-given, restart_connecting-Quiet, new_connector-Quiet,
}
use windz.Net.TcpConnection.{Connection, new_connection, establish, destroy}
use windz.Net.TcpConnection
use windz.Net.TcpConnection.Lifecycle.{
  closes, EndsOnce, step-Moves, establish-Moves, establish-closes, destroy-Moves, destroy-closes,
  new_connection-silent, EndsOnce-of_silent,
}
use windz.Net.TcpClient.{
  TcpClient, Held, Call, connects, disconnects, stops, runs_connector, retry_due, writable,
  error_event, acts, runs_destroy, new_client, new_tcp_connection, is_current,
  remove_tcp_connection, handle_writable, run_destroy, is_owner_call, act, step, run,
}
use windz.Net.TcpClient.Single.{
  queued, queued-append, IsSingle, SingleTo, changed, connect-IsSingle, stop-IsSingle,
  retry_connector-IsSingle, handle_error_event-IsSingle, run_connector-IsSingle,
  disconnect-IsSingle,
}

is_current-same : (i : ℕ) (o : Option ℕ) → is_current i o ≡ true → o ≡ some i
unfolding is_current
is_current-same i none h = ground arith
is_current-same i (some j) h = ground arith

-- The connection that the client holds has told its end.
ended :
    (c c' : TcpClient) (i : ℕ) (h : Held) (d : Connection)
    → IsSingle c
    → get_elem? c.past i ≡ some h
    → c.connection ≡ some i
    → EndsOnce d
    → closes h.connection.events < closes d.events
    → c'.past ≡ set c.past i (record h { connection = d })
    → c'.tasks ≡ c.tasks ++ i ∷ []
    → c'.connection ≡ none
    → Quiet c'.connector
    → IsSingle c'
ended c c' i h d v at_i mine ends told past tasks empty quiet =
    let old = v.each i h at_i in
    let waits = λ (j : ℕ). ap (queued j) tasks ∙ queued-append j c.tasks (i ∷ []) in
    changed c c' i h (record h { connection = d }) v at_i past (λ j other. ground (arith, waits j))
      (λ j other p. absurd (ground (arith, mine, p, other)))
      (record {
        ends = ends;
        balance = ground (arith, waits i, old.balance, ends.once, told);
        current = λ z. absurd (omega (arith, z, told));
      })
      (λ j p. absurd (ground (arith, p, empty))) quiet

act-IsSingle :
    (i : ℕ) (h : Held) (k : TcpConnection.Call) (e : Errno) (c : TcpClient)
    → get_elem? c.past i ≡ some h
    → SingleTo c (act i h k e c)
unfolding act remove_tcp_connection
act-IsSingle i h k e c at_i c' v r =
    let (d, f, g) = ok_of_bind (TcpConnection.step k h.connection) _ r in
    let m = step-Moves k h.connection d f in
    let old = v.each i h at_i in
    elim (Bool-cases (ltb (closes h.connection.events) (closes d.events))) [
      | inr quiet ↦ rw (← ok-injective (rw quiet at g)) (
          changed c _ i h (record h { connection = d }) v at_i refl (λ j o. refl) (λ j o p. p)
            (record {
              ends = m.ends old.ends;
              balance = ground (arith, old.balance, m.grows);
              current = λ z. old.current (omega (arith, z, m.grows));
            })
            v.live v.quiet)
      | inl told ↦
          let (u, held, q) =
            ok_of_bind (require (is_current i c.connection) assertion) _ (rw told at g) in
          let mine = is_current-same i c.connection (require_passed _ _ held) in
          let ends = m.ends old.ends in
          elim (Bool-cases (c.retry && c.start)) [
            | inr left ↦
                rw (← ok-injective (rw left at q))
                  (ended c _ i h d v at_i mine ends (ltb→lt _ _ told) refl refl refl v.quiet)
            | inl again ↦
                let (connector, w, x) =
                  ok_of_bind (Connector.restart_connecting e c.connector) _ (rw again at q) in
                rw (← ok-injective x) (
                  ended c _ i h d v at_i mine ends (ltb→lt _ _ told) refl refl refl
                    (restart_connecting-Quiet e c.connector connector w))
          ]
    ]

run_destroy-IsSingle : (c : TcpClient) → SingleTo c (run_destroy c)
unfolding run_destroy
run_destroy-IsSingle c c' v r = go c.tasks refl
  where
    go : (ts : List ℕ) → c.tasks ≡ ts → IsSingle c'
    go [] p = rw (← ok-injective (rw (p, run_destroy) at r)) v
    go (i ∷ ts) p = elim (Option-cases (get_elem? c.past i)) [
      | inl f ↦ absurd (fault-ne-ok (rw (p, f, run_destroy) at r))
      | inr (h, f) ↦
          let (d, g, q) = ok_of_bind (destroy h.connection) _ (rw (p, f, run_destroy) at r) in
          let m = destroy-Moves h.connection d g in
          let same = destroy-closes h.connection d g in
          let old = v.each i h f in
          let waits = λ (j : ℕ). ap (queued j) p in
          rw (← ok-injective q) (
            changed c _ i h (record { connection = d; destroyed = h.destroyed + 1 }) v f refl
              (λ j other. ground (arith, waits j)) (λ j other e. e)
              (record {
                ends = m.ends old.ends;
                balance = ground (arith, waits i, old.balance, same);
                current = λ z. old.current (omega (arith, z, same));
              })
              v.live v.quiet)
    ]

-- A connection is made while there is none.
new_tcp_connection-IsSingle :
    (c : TcpClient)
    → c.connection ≡ none
    → c.connector.state ≡ connected
    → SingleTo c (new_tcp_connection c)
unfolding new_tcp_connection
new_tcp_connection-IsSingle c empty linked c' v r =
    let (conn, f, g) = ok_of_bind new_connection _ r in
    let silent = new_connection-silent conn f in
    let start = record conn { has_connection_cb = c.has_connection_cb } in
    let (d, p, q) = ok_of_bind (establish start) _ g in
    let none_told : closes d.events ≡ 0 = establish-closes start d p ∙ ap closes silent in
    let n = length c.past in
    rw (← ok-injective q) (record {
      each = λ j h at. elim (get_elem?-append c.past j at) [
        | inl (here, got) ↦ rw got (record {
          ends = (establish-Moves start d p).ends (EndsOnce-of_silent start silent);
          balance = omega (arith, v.fresh j (omega (arith, here)), none_told);
          current = λ z. ap some (sym here);
        })
        | inr (old, got) ↦
            let k = v.each j h got in
            record {
              ends = k.ends;
              balance = k.balance;
              current = λ z. absurd (ground (arith, k.current z, empty));
            }
      ];
      fresh = λ j p. v.fresh j (omega (arith, p, length-append c.past));
      live = λ j p. linked;
      quiet = v.quiet;
    })

-- The connector reports only while it is not connected, and then there is no connection.
handle_writable-IsSingle :
    (found : Found) (c : TcpClient)
    → awaits_write c.connector.channel ≡ true
    → SingleTo c (handle_writable found c)
unfolding handle_writable
handle_writable-IsSingle found c waits c' v r =
    let (k, f, g) = ok_of_bind (Connector.handle_write found c.connector) _ r in
    let apart : c.connector.state ≢ connected = λ e. false≢true (sym (v.quiet e) ∙ waits) in
    let empty : c.connection ≡ none = elim (Option-cases c.connection) [
      | inl e ↦ e
      | inr (i, e) ↦ absurd (apart (v.live i e))
    ] in
    let still : IsSingle (record c { connector = k }) = record {
      each = λ i h at.
          let n = v.each i h at in
          record { ends = n.ends; balance = n.balance; current = n.current };
      fresh = v.fresh;
      live = λ i p. absurd (ground (arith, p, empty));
      quiet = handle_write-Quiet found c.connector k f;
    } in
    elim (Bool-cases (ltb c.connector.given k.given)) [
      | inr none_new ↦ rw (← ok-injective (rw none_new at g)) still
      | inl one_new ↦
          new_tcp_connection-IsSingle (record c { connector = k }) empty
            (handle_write-given found c.connector k f (ltb→lt _ _ one_new)) c' still
            (rw one_new at g)
    ]

step-IsSingle : (k : Call) (c : TcpClient) → SingleTo c (step k c)
unfolding step
step-IsSingle (connects b e) c c' v r = connect-IsSingle b e c c' v r
step-IsSingle (disconnects b) c c' v r = disconnect-IsSingle b c c' v r
step-IsSingle (stops b) c c' v r = stop-IsSingle b c c' v r
step-IsSingle (runs_connector e) c c' v r = run_connector-IsSingle e c c' v r
step-IsSingle (retry_due e) c c' v r = retry_connector-IsSingle e c c' v r
step-IsSingle (writable found) c c' v r = elim (Bool-cases (awaits_write c.connector.channel)) [
  | inl e ↦ handle_writable-IsSingle found c e c' v (rw (e, step) at r)
  | inr e ↦ rw (← ok-injective (rw (e, step) at r)) v
]
step-IsSingle error_event c c' v r = elim (Bool-cases (awaits_write c.connector.channel)) [
  | inl e ↦ handle_error_event-IsSingle c c' v (rw (e, step) at r)
  | inr e ↦ rw (← ok-injective (rw (e, step) at r)) v
]
step-IsSingle (acts i k e) c c' v r = elim (Option-cases (get_elem? c.past i)) [
  | inl f ↦ rw (← ok-injective (rw (f, step) at r)) v
  | inr (h, f) ↦
      let taken = rw (f, step) at r in
      elim (Bool-cases (is_owner_call k)) [
        | inl owner ↦ rw (← ok-injective (rw owner at taken)) v
        | inr other ↦ act-IsSingle i h k e c f c' v (rw other at taken)
      ]
]
step-IsSingle runs_destroy c c' v r = run_destroy-IsSingle c c' v r

-- Whatever is called, and whatever happens to the connector and the connections, in whatever order,
-- one connection of a client at most has not ended, and that is the one that the client holds;
-- each of the others has been destroyed once, or a functor that does so waits.
pub run-IsSingle : (ks : List Call) (c : TcpClient) → SingleTo c (run ks c)
unfolding run
run-IsSingle [] c c' v r = rw (← ok-injective r) v
run-IsSingle (k ∷ ks) c c' v r =
    let (d, f, g) = ok_of_bind (step k c) _ r in run-IsSingle ks d c' (step-IsSingle k c d v f) g

-- A new client has no connection.
pub new_client-IsSingle : IsSingle new_client
unfolding new_client
new_client-IsSingle = record {
  each = λ i h at. ground arith;
  fresh = λ i p. refl;
  live = λ i p. ground arith;
  quiet = new_connector-Quiet;
}
