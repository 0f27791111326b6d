-- ===== src/Net/TcpServer/Once.antt =====
-- What windz/net/TcpServer.cpp keeps of each connection that it has accepted.
use windz.Prelude.{
  ℕ, ◌+◌, ◌^◌, ◌≤◌, ◌<◌, ◌≡◌, ◌≢◌, sym, ◌∙◌, ap, inl, inr, List, [], ◌∷◌, ◌++◌, arith, Option-cases,
  Option, Bool, some, get_elem?, set, length, length-set, drop, drop-length_append, get_elem?-set,
  get_elem?-length, Run, ok, ok-injective, ok_of_bind, fault-ne-ok, Bool-cases, true, ◌==◌,
  if◌then◌else◌, require, assertion,
}
use windz.Net.EventLoopThreadPool.{EventLoopThreadPool}
use windz.Net.TcpConnection.{establish, destroy}
use windz.Net.TcpConnection.Lifecycle.{
  closes, EndsOnce, establish-closes, destroy-closes, establish-Moves, destroy-Moves,
}
use windz.Net.TcpServer.{
  Task, TcpServer, Served, establish_task, remove_task, destroy_task, listen_task, conn_name, erase,
  run_task, with_served, establish_served, destroy_served, remove_in_loop, post, run_in_loop,
}
use windz.Net.TcpServer.Names.{held, Named, Apart, Named-erase, held-erase}
use windz.Net.TcpServer.Pending.{establishes_of, removes_of, destroys_of, pending, pending-append}

pub with_served-inv :
    (s s' : TcpServer) (i : ℕ) (change : Served → Run Served)
    → with_served s i change ≡ ok s'
    → (d : Served) × (d' : Served) × (get_elem? s.served i ≡ some d)
      × (change d ≡ ok d')
      × (s' ≡ record s { served = set s.served i d' })
unfolding with_served
with_served-inv s s' i change e = elim (Option-cases (get_elem? s.served i)) [
  | inl f ↦ absurd (fault-ne-ok (rw (f, with_served) at e))
  | inr (d, f) ↦
      let (d', g, r) = ok_of_bind (change d) _ (rw (f, with_served) at e) in
      (d, d', f, g, sym (ok-injective r))
]

module _ (to_string : ℕ → List ℕ) where
  abbrev pub place_name : TcpServer → ℕ → List ℕ
  place_name s i = conn_name to_string s (i + 1)

  -- The `i`-th connection is established once, now or by a functor that waits; it is in the map
  -- until its destruction, which is queued once or done, and which follows its end.
  pub record Kept (s : TcpServer) (i : ℕ) (d : Served) : Type 0 where
    pub called : d.name ≡ place_name s i
    pub ends : EndsOnce d.connection
    pub opened : pending (establishes_of i) s.tasks + d.established ≡ 1
    pub removed :
        pending (removes_of i) s.tasks + pending (destroys_of i) s.tasks + d.destroyed
        ≡ closes d.connection.events
    pub kept : held i s.connections + pending (destroys_of i) s.tasks + d.destroyed ≡ 1

  -- Nothing is known of a place that no connection has yet.
  pub record Fresh (s : TcpServer) (i : ℕ) : Type 0 where
    pub unnamed : held i s.connections ≡ 0
    pub unopened : pending (establishes_of i) s.tasks ≡ 0
    pub unremoved : pending (removes_of i) s.tasks ≡ 0
    pub undestroyed : pending (destroys_of i) s.tasks ≡ 0

  -- The state of a server that can number `room` more connections before the numbers wrap.
  pub record IsValid (room : ℕ) (s : TcpServer) : Type 0 where
    pub numbered : s.next_connid ≡ length s.served + 1
    pub few : length s.served + room + 1 < 2 ^ 32
    pub named : Named (place_name s) (length s.served) s.connections
    pub each : (i : ℕ) (d : Served) → get_elem? s.served i ≡ some d → Kept s i d
    pub fresh : (i : ℕ) → length s.served ≤ i → Fresh s i

  -- The functors of a place, in two queues.
  pub record SameTasks (j : ℕ) (ts us : List (ℕ × Task)) : Type 0 where
    pub opens : pending (establishes_of j) us ≡ pending (establishes_of j) ts
    pub removes : pending (removes_of j) us ≡ pending (removes_of j) ts
    pub destroys : pending (destroys_of j) us ≡ pending (destroys_of j) ts

  -- Only the queues change, and not in what they count for, and what no connection depends on.
  pub requeued :
      {room : ℕ} (s : TcpServer) (ts : List (ℕ × Task)) (listens : Bool)
      (pool : Option EventLoopThreadPool)
      → IsValid room s
      → ((j : ℕ) → SameTasks j s.tasks ts)
      → IsValid room (record s { tasks = ts; listenning = listens; thread_pool = pool })
  requeued s ts listens pool v same = record {
    numbered = v.numbered;
    few = v.few;
    named = v.named;
    each = λ i d g.
        let k = v.each i d g in
        let t = same i in
        record {
          called = k.called;
          ends = k.ends;
          opened = omega (arith, k.opened, t.opens);
          removed = omega (arith, k.removed, t.removes, t.destroys);
          kept = omega (arith, k.kept, t.destroys);
        };
    fresh = λ i p.
        let n = v.fresh i p in
        let t = same i in
        record {
          unnamed = n.unnamed;
          unopened = omega (arith, n.unopened, t.opens);
          unremoved = omega (arith, n.unremoved, t.removes);
          undestroyed = omega (arith, n.undestroyed, t.destroys);
        };
  }

  -- The same functors in another order.
  pub same_weights :
      (ts us : List (ℕ × Task))
      → ((weight : Task → ℕ) → pending weight us ≡ pending weight ts)
      → (j : ℕ) → SameTasks j ts us
  same_weights ts us same j = record {
    opens = same (establishes_of j);
    removes = same (removes_of j);
    destroys = same (destroys_of j);
  }

  -- One connection and its functors change.
  pub changed :
      {room : ℕ} (s : TcpServer) (i : ℕ) (d d' : Served) (ts : List (ℕ × Task))
      → IsValid room s
      → get_elem? s.served i ≡ some d
      → ((j : ℕ) → i ≢ j → SameTasks j s.tasks ts)
      → Kept (record s { tasks = ts }) i d'
      → IsValid room (record s { served = set s.served i d'; tasks = ts })
  changed s i d d' ts v at_i same new =
      let size = length-set s.served i d' in
      let inside = get_elem?-length s.served i at_i in
      record {
        numbered = omega (arith, v.numbered, size);
        few = omega (arith, v.few, size);
        named = rw size v.named;
        each = λ j e g. elim (get_elem?-set s.served i j at_i g) [
          | inl (here, got) ↦
              let k : Kept (record s { tasks = ts }) j e = rw (got, ← here) new in
              record {
                called = k.called;
                ends = k.ends;
                opened = k.opened;
                removed = k.removed;
                kept = k.kept;
              }
          | inr (other, got) ↦
              let k = v.each j e got in
              let t = same j other in
              record {
                called = k.called;
                ends = k.ends;
                opened = omega (arith, k.opened, t.opens);
                removed = omega (arith, k.removed, t.removes, t.destroys);
                kept = omega (arith, k.kept, t.destroys);
              }
        ];
        fresh = λ j p.
            let n = v.fresh j (omega (arith, size)) in
            let t = same j (λ here. absurd (omega (arith, here, inside, size))) in
            record {
              unnamed = n.unnamed;
              unopened = omega (arith, n.unopened, t.opens);
              unremoved = omega (arith, n.unremoved, t.removes);
              undestroyed = omega (arith, n.undestroyed, t.destroys);
            };
      }

  -- Loop `l` has taken `t` from its queue, or was about to put it there.
  abbrev pub Owing : ℕ → ℕ → Task → TcpServer → Type 0
  Owing room l t s = IsValid room (record s { tasks = (l, t) ∷ s.tasks })

  post-IsValid :
      {room : ℕ} (l : ℕ) (t : Task) (s : TcpServer) → Owing room l t s → IsValid room (post l t s)
  unfolding post
  post-IsValid l t s v =
      requeued (record s { tasks = (l, t) ∷ s.tasks }) (s.tasks ++ (l, t) ∷ []) s.listenning
        s.thread_pool v
        (same_weights _ _ λ weight. omega (arith, pending-append weight s.tasks ((l, t) ∷ [])))

  establish_task-IsValid :
      {room : ℕ} (l i : ℕ) (s s' : TcpServer)
      → Owing room l (establish_task i) s
      → with_served s i establish_served ≡ ok s'
      → IsValid room s'
  unfolding establish_served
  establish_task-IsValid l i s s' v e =
      let (d, d', f, g, r) = with_served-inv s s' i establish_served e in
      let (c, h, q) = ok_of_bind (establish d.connection) _ g in
      let k = v.each i d f in
      let m = establish-Moves d.connection c h in
      rw (r, ← ok-injective q)
        (changed (record s { tasks = (l, establish_task i) ∷ s.tasks }) i d _ s.tasks v f
          (λ j other. record {
            opens = ground arith;
            removes = omega arith;
            destroys = omega arith;
          })
          (record {
            called = k.called;
            ends = m.ends k.ends;
            opened = ground (arith, k.opened);
            removed = omega (arith, k.removed, establish-closes d.connection c h);
            kept = omega (arith, k.kept);
          }))

  destroy_task-IsValid :
      {room : ℕ} (l i : ℕ) (s s' : TcpServer)
      → Owing room l (destroy_task i) s
      → with_served s i destroy_served ≡ ok s'
      → IsValid room s'
  unfolding destroy_served
  destroy_task-IsValid l i s s' v e =
      let (d, d', f, g, r) = with_served-inv s s' i destroy_served e in
      let (c, h, q) = ok_of_bind (destroy d.connection) _ g in
      let k = v.each i d f in
      let m = destroy-Moves d.connection c h in
      rw (r, ← ok-injective q)
        (changed (record s { tasks = (l, destroy_task i) ∷ s.tasks }) i d _ s.tasks v f
          (λ j other. record {
            opens = omega arith;
            removes = omega arith;
            destroys = ground arith;
          })
          (record {
            called = k.called;
            ends = m.ends k.ends;
            opened = omega (arith, k.opened);
            removed = ground (arith, k.removed, destroy-closes d.connection c h);
            kept = ground (arith, k.kept);
          }))

  append_cancel : (xs ys zs : List ℕ) → xs ++ ys ≡ xs ++ zs → ys ≡ zs
  append_cancel xs ys zs h =
      sym (drop-length_append xs ys) ∙ ap (drop (length xs)) h ∙ drop-length_append xs zs

  module _ (distinct : Apart to_string (2 ^ 32)) where
    -- As long as the numbers have not wrapped, no two connections have one name.
    pub place_name-Apart : (s : TcpServer) (n : ℕ) → n < 2 ^ 32 → Apart (place_name s) n
    place_name-Apart s n few i j p q h =
        let digits = ap (drop 1) (append_cancel s.name _ _ h) in
        let same = distinct (i + 1) (j + 1) (omega arith) (omega arith) digits in
        omega (arith, same)

    remove_task-IsValid :
        {room : ℕ} (l i : ℕ) (s s' : TcpServer)
        → Owing room l (remove_task i) s
        → remove_in_loop i s ≡ ok s'
        → IsValid room s'
    unfolding remove_in_loop
    remove_task-IsValid l i s s' v e = elim (Option-cases (get_elem? s.served i)) [
      | inl f ↦ absurd (fault-ne-ok (rw (f, remove_in_loop) at e))
      | inr (d, f) ↦
          let k = v.each i d f in
          let inside = get_elem?-length s.served i f in
          let apart = place_name-Apart s (length s.served) (omega (arith, v.few)) in
          let gone : (j : ℕ)
              → held j (erase d.name s.connections) ≡ (if i == j then 0 else held j s.connections) =
            λ j. rw k.called (
              held-erase (place_name s) (length s.served) i j s.connections apart inside v.named) in
          let removed = record s { connections = erase d.name s.connections } in
          rw (← ok-injective (rw (f, remove_in_loop) at e)) (
            post-IsValid d.loop (destroy_task i) removed (record {
              numbered = v.numbered;
              few = v.few;
              named = Named-erase (place_name s) (length s.served) d.name s.connections v.named;
              each = λ j o g.
                  let n = v.each j o g in
                  record {
                    called = n.called;
                    ends = n.ends;
                    opened = omega (arith, n.opened);
                    removed = ground (arith, n.removed);
                    kept = ground (arith, n.removed, n.kept, n.ends.once, gone j);
                  };
              fresh = λ j p.
                  let n = v.fresh j p in
                  record {
                    unnamed = ground (arith, n.unnamed, gone j);
                    unopened = omega (arith, n.unopened);
                    unremoved = ground (arith, n.unremoved);
                    undestroyed = ground (arith, n.undestroyed);
                  };
            }))
    ]

    pub run_task-IsValid :
        {room : ℕ} (l : ℕ) (t : Task) (s s' : TcpServer)
        → Owing room l t s
        → run_task l t s ≡ ok s'
        → IsValid room s'
    unfolding run_task
    run_task-IsValid l (establish_task i) s s' v e = establish_task-IsValid l i s s' v e
    run_task-IsValid l (destroy_task i) s s' v e = destroy_task-IsValid l i s s' v e
    run_task-IsValid l (remove_task i) s s' v e =
        let (u, f, g) = ok_of_bind (require (l == s.loop) assertion) _ e in
        remove_task-IsValid l i s s' v g
    run_task-IsValid l listen_task s s' v e =
        let (u, f, g) = ok_of_bind (require (l == s.loop) assertion) _ e in
        rw (← ok-injective g) (
          requeued (record s { tasks = (l, listen_task) ∷ s.tasks }) s.tasks true s.thread_pool v
            λ j. record { opens = omega arith; removes = omega arith; destroys = omega arith })

    pub run_in_loop-IsValid :
        {room : ℕ} (here l : ℕ) (t : Task) (s s' : TcpServer)
        → Owing room l t s
        → run_in_loop here l t s ≡ ok s'
        → IsValid room s'
    unfolding run_in_loop
    run_in_loop-IsValid here l t s s' v e = elim (Bool-cases (here == l)) [
      | inl f ↦ run_task-IsValid l t s s' v (rw (f, run_in_loop) at e)
      | inr f ↦ rw (← ok-injective (rw (f, run_in_loop) at e)) (post-IsValid l t s v)
    ]
