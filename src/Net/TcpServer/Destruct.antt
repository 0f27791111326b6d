-- ===== src/Net/TcpServer/Destruct.antt =====
-- The destructor of windz/net/TcpServer.cpp.
use windz.Prelude.{
  ℕ, ◌+◌, ◌≡◌, refl, inl, inr, List, [], ◌∷◌, arith, Option-cases, some, get_elem?, get_elem?-set,
  ok, ok-injective, ok_of_bind, fault-ne-ok, Bool-cases, ◌==◌,
}
use windz.Net.TcpConnection.{destroy}
use windz.Net.TcpServer.{
  TcpServer, Served, destroy_task, destroy_each, destruct, run_in_loop, run_task, post,
  destroy_served,
}
use windz.Net.TcpServer.Names.{held}
use windz.Net.TcpServer.Pending.{destroys_of, pending, pending-append}
use windz.Net.TcpServer.Once.{IsValid, with_served-inv}

-- Each connection waits in `m` for its destruction, or in a queue, or has been destroyed.
record Accounted (m : List (List ℕ × ℕ)) (s : TcpServer) : Type 0 where
  each :
      (j : ℕ) (d : Served)
      → get_elem? s.served j ≡ some d
      → held j m + pending (destroys_of j) s.tasks + d.destroyed ≡ 1
  emptied : s.connections ≡ []

destroy_one :
    (here l i : ℕ) (name : List ℕ) (m : List (List ℕ × ℕ)) (s s' : TcpServer)
    → Accounted ((name, i) ∷ m) s
    → run_in_loop here l (destroy_task i) s ≡ ok s'
    → Accounted m s'
unfolding run_in_loop run_task post destroy_served
destroy_one here l i name m s s' v e = elim (Bool-cases (here == l)) [
  | inr f ↦ rw (← ok-injective (rw (f, run_in_loop) at e)) (record {
    each = λ j d g.
        omega
          (arith, v.each j d g, pending-append (destroys_of j) s.tasks ((l, destroy_task i) ∷ []));
    emptied = v.emptied;
  })
  | inl f ↦
      let (d, d', g, h, r) = with_served-inv s s' i destroy_served (rw (f, run_in_loop) at e) in
      let (c, p, q) = ok_of_bind (destroy d.connection) _ h in
      rw (r, ← ok-injective q)
        (record {
          each = λ j o got. elim (get_elem?-set s.served i j g got) [
            | inl (here, is) ↦ rw is (ground (arith, v.each i d g))
            | inr (other, is) ↦ ground (arith, v.each j o is)
          ];
          emptied = v.emptied;
        })
]

destroy_each-Accounted :
    (m : List (List ℕ × ℕ)) (s s' : TcpServer)
    → Accounted m s
    → destroy_each m s ≡ ok s'
    → Accounted [] s'
unfolding destroy_each
destroy_each-Accounted [] s s' v e = rw (← ok-injective e) v
destroy_each-Accounted ((name, i) ∷ m) s s' v e = elim (Option-cases (get_elem? s.served i)) [
  | inl f ↦ absurd (fault-ne-ok (rw (f, destroy_each) at e))
  | inr (d, f) ↦
      let (s1, g, h) =
        ok_of_bind (run_in_loop s.loop d.loop (destroy_task i) s) _ (rw (f, destroy_each) at e) in
      destroy_each-Accounted m s1 s' (destroy_one s.loop d.loop i name m s s1 v g) h
]

-- After the destructor of a server the map is empty, and each connection that was ever accepted has
-- been destroyed, or one functor that destroys it waits in its loop.
pub destruct-accounts :
    (to_string : ℕ → List ℕ) {room : ℕ} (s s' : TcpServer)
    → IsValid to_string room s
    → destruct s ≡ ok s'
    → (s'.connections ≡ [])
      × ((i : ℕ) (d : Served)
          → get_elem? s'.served i ≡ some d
          → pending (destroys_of i) s'.tasks + d.destroyed ≡ 1)
unfolding destruct
destruct-accounts to_string s s' v e =
    let start : Accounted s.connections (record s { connections = [] }) = record {
      each = λ j d g. (v.each j d g).kept;
      emptied = refl;
    } in
    let done = destroy_each-Accounted s.connections _ s' start e in
    (done.emptied, λ i d g. omega (arith, done.each i d g))
