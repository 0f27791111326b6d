-- ===== src/Net/TcpServer/Calls.antt =====
-- Whatever happens to the server of windz/net/TcpServer.cpp, in whatever order, keeps what
-- `Once.IsValid` says of each connection.
use windz.Prelude.{
  ℕ, suc, ◌+◌, ◌^◌, ◌≤◌, ◌<◌, ◌≡◌, refl, subst, sym, ap, inl, inr, List, [], ◌∷◌, arith,
  Option-cases, Option, some, get_elem?, set, length, length-append, get_elem?-append, ok,
  ok-injective, ok_of_bind, fault-ne-ok, Bool-cases, ltb,
}
use windz.Net.EventLoopThreadPool.{EventLoopThreadPool, next_loop}
use windz.Net.TcpConnection.{Connection, new_connection}
use windz.Net.TcpConnection
use windz.Net.TcpConnection.Lifecycle.{
  EndsOnce-of_silent, closes, new_connection-silent, step-Moves,
}
use windz.Net.TcpServer.{
  assign, Call, accepts, loops, acts, TcpServer, Served, establish_task, remove_task, oldest, act,
  is_owner_call, choose_loop, add_connection, new_tcp_connection, new_server, remove_tcp_connection,
  step, run,
}
use windz.Net.TcpServer.Names.{Apart, Named, held-assign, Named-assign}
use windz.Net.TcpServer.Pending.{pending-oldest, one_if}
use windz.Net.TcpServer.Once.{
  IsValid, Owing, changed, requeued, same_weights, place_name, place_name-Apart, run_task-IsValid,
  run_in_loop-IsValid,
}

choose_loop-inv :
    (s s' : TcpServer) (l : ℕ)
    → choose_loop s ≡ ok (l, s')
    → (pool : Option EventLoopThreadPool) × (s' ≡ record s { thread_pool = pool })
unfolding choose_loop
choose_loop-inv s s' l e = elim (Option-cases s.thread_pool) [
  | inl f ↦ (s.thread_pool, sym (ap (λ p. p.1) (ok-injective (rw (f, choose_loop) at e))))
  | inr (pool, f) ↦
      let ((l', pool'), g, h) = ok_of_bind (next_loop pool) _ (rw (f, choose_loop) at e) in
      elim (Option-cases l') [
        | inl q ↦ absurd (fault-ne-ok (rw q at h))
        | inr (ioloop, q) ↦ (some pool', sym (ap (λ p. p.1) (ok-injective (rw q at h))))
      ]
]

module _ (to_string : ℕ → List ℕ) (distinct : Apart to_string (2 ^ 32)) where
  act-IsValid :
      {room : ℕ} (i : ℕ) (d : Served) (k : TcpConnection.Call) (s s' : TcpServer)
      → get_elem? s.served i ≡ some d
      → IsValid to_string room s
      → act i d k s ≡ ok s'
      → IsValid to_string room s'
  unfolding act remove_tcp_connection
  act-IsValid i d k s s' at_i v e =
      let (c, f, g) = ok_of_bind (TcpConnection.step k d.connection) _ e in
      let m = step-Moves k d.connection c f in
      let kept = v.each i d at_i in
      let d' : Served = record d { connection = c } in
      elim (Bool-cases (ltb (closes d.connection.events) (closes c.events))) [
        | inl told ↦
            run_in_loop-IsValid to_string distinct d.loop s.loop (remove_task i)
              (record s { served = set s.served i d' }) s'
              (changed to_string s i d d' ((s.loop, remove_task i) ∷ s.tasks) v at_i
                (λ j other. record {
                  opens = omega arith;
                  removes = ground arith;
                  destroys = omega arith;
                })
                (let ends = m.ends kept.ends in
                  record {
                    called = kept.called;
                    ends = ends;
                    opened = omega (arith, kept.opened);
                    removed = ground (arith, kept.removed, ends.once);
                    kept = omega (arith, kept.kept);
                  }))
              (rw told at g)
        | inr quiet ↦ rw (← ok-injective (rw quiet at g)) (
            changed to_string s i d d' s.tasks v at_i
              (λ j other. record { opens = refl; removes = refl; destroys = refl })
              (record {
                called = kept.called;
                ends = m.ends kept.ends;
                opened = kept.opened;
                removed = ground (arith, kept.removed, m.grows);
                kept = kept.kept;
              }))
      ]

  -- A connection that is accepted while its number has not been given before.
  added-IsValid :
      {room : ℕ} (l : ℕ) (conn : Connection) (s : TcpServer)
      → conn.events ≡ []
      → IsValid to_string (suc room) s
      → Owing to_string room l
          (establish_task (length s.served))
          (add_connection to_string l conn s)
  unfolding add_connection
  added-IsValid l conn s silent v =
      let n = length s.served in
      let name = place_name to_string s in
      let apart = place_name-Apart to_string distinct s (suc n) (omega (arith, v.few)) in
      let size : length (add_connection to_string l conn s).served ≡ n + 1 =
        omega (arith, length-append s.served) in
      let entry = λ (j : ℕ). held-assign name n j s.connections apart v.named in
      let new : (j : ℕ) → length (add_connection to_string l conn s).served ≤ j → one_if j n ≡ 0 =
        λ j p. (let later : n < j = omega (arith, size) in ground arith) in
      record {
        numbered = omega (arith, v.numbered, v.few, size);
        few = omega (arith, v.few, size);
        named =
            rw (size, v.numbered)
              (subst (λ k. Named name k (assign (name n) n s.connections))
                (let e : suc n ≡ n + 1 = omega arith in e)
                (Named-assign name n s.connections apart v.named));
        each = λ j d g. elim (get_elem?-append s.served j g) [
          | inl (here, got) ↦
              let fresh = v.fresh j (omega (arith, here)) in
              rw got (record {
                called = rw (here, v.numbered) refl;
                ends = EndsOnce-of_silent _ silent;
                opened = ground (arith, fresh.unopened);
                removed = rw silent (omega (arith, fresh.unremoved, fresh.undestroyed));
                kept = rw v.numbered (ground (arith, fresh.unnamed, fresh.undestroyed, entry j));
              })
          | inr (old, got) ↦
              let k = v.each j d got in
              record {
                called = k.called;
                ends = k.ends;
                opened = ground (arith, k.opened);
                removed = omega (arith, k.removed);
                kept = rw v.numbered (ground (arith, k.kept, entry j));
              }
        ];
        fresh = λ j p.
            let f = v.fresh j (omega (arith, size)) in
            record {
              unnamed = rw v.numbered (omega (arith, f.unnamed, entry j, new j p));
              unopened = omega (arith, f.unopened, new j p);
              unremoved = omega (arith, f.unremoved);
              undestroyed = omega (arith, f.undestroyed);
            };
      }

  accept-IsValid :
      {room : ℕ} (s s' : TcpServer)
      → IsValid to_string (suc room) s
      → new_tcp_connection to_string s ≡ ok s'
      → IsValid to_string room s'
  unfolding new_tcp_connection
  accept-IsValid {room} s s' v e =
      let ((l, s1), f, g) = ok_of_bind (choose_loop s) _ e in
      let (pool, chosen) = choose_loop-inv s s1 l f in
      let (conn, h, q) = ok_of_bind new_connection _ g in
      let v1 : IsValid to_string (suc room) s1 = rw chosen (
        requeued to_string s s.tasks s.listenning pool v
          λ j. record { opens = refl; removes = refl; destroys = refl }) in
      let owed =
        subst (λ n. Owing to_string room l (establish_task n) (add_connection to_string l conn s1))
          (ap (λ t. length t.served) chosen)
          (added-IsValid l conn s1 (new_connection-silent conn h) v1) in
      run_in_loop-IsValid to_string distinct s.loop l (establish_task (length s.served)) _ s' owed q

  loop-IsValid :
      {room : ℕ} (l : ℕ) (s s' : TcpServer)
      → IsValid to_string room s
      → step to_string (loops l) s ≡ ok s'
      → IsValid to_string room s'
  unfolding step
  loop-IsValid l s s' v e = elim (Option-cases (oldest l s.tasks)) [
    | inl f ↦ rw (← ok-injective (rw (f, step) at e)) v
    | inr ((t, ts), f) ↦
        run_task-IsValid to_string distinct l t (record s { tasks = ts }) s'
          (requeued to_string s ((l, t) ∷ ts) s.listenning s.thread_pool v
            (same_weights to_string _ _ λ weight. omega (arith, pending-oldest weight l s.tasks f)))
          (rw (f, step) at e)
  ]

  -- How many connections are accepted.
  abbrev pub accepted : List Call → ℕ
  accepted [] = 0
  accepted (accepts ∷ ks) = suc (accepted ks)
  accepted (_ ∷ ks) = accepted ks

  -- `acts` of a connection, or of none.
  acts-IsValid :
      {room : ℕ} (i : ℕ) (k : TcpConnection.Call) (s s' : TcpServer)
      → IsValid to_string room s
      → step to_string (acts i k) s ≡ ok s'
      → IsValid to_string room s'
  unfolding step
  acts-IsValid i k s s' v e = elim (Option-cases (get_elem? s.served i)) [
    | inl f ↦ rw (← ok-injective (rw (f, step) at e)) v
    | inr (d, f) ↦
        let taken = rw (f, step) at e in
        elim (Bool-cases (is_owner_call k)) [
          | inl owner ↦ rw (← ok-injective (rw owner at taken)) v
          | inr other ↦ act-IsValid i d k s s' f v (rw other at taken)
        ]
  ]

  -- However the server accepts connections, its loops run their functors and the connections do
  -- what they do, each connection that was accepted is established once, now or by a functor that
  -- waits for it; and it is in the map, or its destruction is queued, or it was destroyed, just one
  -- of them and once; it leaves the map only after it has told its end. This holds as long as
  -- fewer than 2^32 connections were accepted and `std::to_string` gives no two numbers one name.
  pub run-IsValid :
      (ks : List Call) {room : ℕ} (s s' : TcpServer)
      → IsValid to_string (accepted ks + room) s
      → run to_string ks s ≡ ok s'
      → IsValid to_string room s'
  unfolding run step
  run-IsValid [] {room} s s' v e =
      rw (← ok-injective e)
        (subst (λ n. IsValid to_string n s) (let q : 0 + room ≡ room = omega arith in q) v)
  run-IsValid (accepts ∷ ks) {room} s s' v e =
      let (s1, f, g) = ok_of_bind (new_tcp_connection to_string s) _ e in
      let more =
        subst (λ n. IsValid to_string n s)
          (let q : suc (accepted ks) + room ≡ suc (accepted ks + room) = omega arith in q) v in
      run-IsValid ks s1 s' (accept-IsValid s s1 more f) g
  run-IsValid (loops l ∷ ks) s s' v e =
      let (s1, f, g) = ok_of_bind (step to_string (loops l) s) _ e in
      run-IsValid ks s1 s' (loop-IsValid l s s1 v f) g
  run-IsValid (acts i k ∷ ks) s s' v e =
      let (s1, f, g) = ok_of_bind (step to_string (acts i k) s) _ e in
      run-IsValid ks s1 s' (acts-IsValid i k s s1 v f) g

  -- A new server has accepted none.
  pub new_server-IsValid :
      (loop : ℕ) (name : List ℕ) (room : ℕ)
      → room + 1 < 2 ^ 32
      → IsValid to_string room (new_server loop name)
  unfolding new_server
  new_server-IsValid loop name room h = record {
    numbered = refl;
    few = omega arith;
    named = tt;
    each = λ i d g. ground arith;
    fresh = λ i p. record { unnamed = refl; unopened = refl; unremoved = refl; undestroyed = refl };
  }
