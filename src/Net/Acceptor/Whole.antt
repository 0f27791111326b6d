-- ===== src/Net/Acceptor/Whole.antt =====
-- windz/net/Acceptor.cpp: from the constructor to the destructor.
use windz.Prelude.{
  ℕ, ◌+◌, ◌≤◌, ◌≡◌, ◌∙◌, Bool, true, false, ◌==◌, if◌then◌else◌, some, ltb, Run, ◌>>=◌, Returns,
  returns, arith,
}
use windz.Net.Channel.{new_channel, enable_read, disable_read_write}
use windz.Net.Channel.{close as close_channel}
use windz.Net.Socket.Interface.{InetAddr, Kernel, Taken, SameTable}
use windz.Net.Socket.{
  create_nonblock_socket, set_reuse_addr, set_reuse_port, bind, listen, close, backlog,
}
use windz.Net.Socket.Interface.{reuse_addr, reuse_port}
use windz.Net.Acceptor.{new_acceptor, start_listening, destruct}

module _ (k : Kernel) where
  open k use {System, in_use, is_open, max_in_use}

  -- An acceptor that is made, listens and is destroyed.
  abbrev pub whole_life : InetAddr → Bool → System → Run System
  whole_life addr reuseport s = do
    (a, s1) ← new_acceptor k addr reuseport s
    let (a2, s2) = start_listening k a s1
    destruct k a2 s2

  -- The same descriptors are open.
  pub record SameOpen (s s' : System) : Type 0 where
    same_count : in_use s' ≡ in_use s
    same_open : (j : ℕ) → is_open s' j ≡ is_open s j

  SameTable-trans :
      (s s1 s2 : System)
      → SameTable in_use is_open s s1
      → SameTable in_use is_open s1 s2
      → SameTable in_use is_open s s2
  SameTable-trans s s1 s2 p q = record {
    same_count = q.same_count ∙ p.same_count;
    same_open = λ j. q.same_open j ∙ p.same_open j;
  }

  -- Two descriptors are taken and closed again.
  closed_again :
      (s s1 s2 s3 : System) (fd fd' : ℕ)
      → Taken in_use is_open fd s s1
      → Taken in_use is_open fd' s1 s2
      → SameTable in_use is_open s2 s3
      → SameOpen s (k.close fd' (k.close fd s3).1).1
  closed_again s s1 s2 s3 fd fd' t u e =
      let other : (fd == fd') ≡ false = ground (arith, t.opened fd', u.was_free) in
      let open1 : is_open s3 fd ≡ true =
        ground (arith, e.same_open fd, u.opened fd, t.opened fd, other) in
      let n1 = k.close_in_use fd s3 open1 in
      let open2 : is_open (k.close fd s3).1 fd' ≡ true =
        ground (arith, k.close_is_open fd s3 fd', e.same_open fd', u.opened fd', other) in
      let n2 = k.close_in_use fd' (k.close fd s3).1 open2 in
      record {
        same_count = omega (arith, n1, n2, e.same_count, u.counted, t.counted);
        same_open = λ j. ground (
          arith,
          k.close_is_open fd' (k.close fd s3).1 j,
          k.close_is_open fd s3 j,
          e.same_open j,
          u.opened j,
          t.opened j,
          t.was_free,
          u.was_free,
        );
      }

  -- The calls of the constructor and of `Listen` on the socket.
  abbrev set_up : ℕ → InetAddr → Bool → System → System
  set_up fd addr reuseport s2 =
      let s3 = (k.setsockopt fd (reuse_addr 1) s2).1 in
      let s4 = (k.setsockopt fd (reuse_port (if reuseport then 1 else 0)) s3).1 in
      let s5 = (k.bind fd addr s4).1 in (k.listen fd backlog s5).1

  set_up-SameTable :
      (fd : ℕ) (addr : InetAddr) (reuseport : Bool) (s2 : System)
      → SameTable in_use is_open s2 (set_up fd addr reuseport s2)
  set_up-SameTable fd addr reuseport s2 =
      let s3 = (k.setsockopt fd (reuse_addr 1) s2).1 in
      let s4 = (k.setsockopt fd (reuse_port (if reuseport then 1 else 0)) s3).1 in
      let s5 = (k.bind fd addr s4).1 in
      SameTable-trans s2 s3 (set_up fd addr reuseport s2) (k.setsockopt_same fd (reuse_addr 1) s2) (
        SameTable-trans s3 s4 (set_up fd addr reuseport s2)
          (k.setsockopt_same fd (reuse_port (if reuseport then 1 else 0)) s3)
          (SameTable-trans s4 s5 (set_up fd addr reuseport s2) (k.bind_same fd addr s4)
            (k.listen_same fd backlog s5)))

  with_descriptors :
      (addr : InetAddr) (reuseport : Bool) (s s1 s2 : System) (fd fd' : ℕ)
      → is_open s 0 ≡ true
      → k.socket s ≡ (some fd, s1)
      → k.open_null s1 ≡ (some fd', s2)
      → Taken in_use is_open fd s s1
      → Taken in_use is_open fd' s1 s2
      → Returns (SameOpen s) (whole_life addr reuseport s)
  unfolding new_acceptor start_listening destruct create_nonblock_socket set_reuse_addr
      set_reuse_port bind listen close new_channel enable_read disable_read_write close_channel
  with_descriptors addr reuseport s s1 s2 fd fd' z e e' t u =
      let positive : ltb 0 fd' ≡ true = ground (arith, t.opened 0, u.was_free, z) in
      rw (e, e', positive)
        (returns (
          closed_again s s1 s2 (set_up fd addr reuseport s2) fd fd' t u
            (set_up-SameTable fd addr reuseport s2)))

  -- Where two descriptors are left and the descriptor 0 is in use, an acceptor can be made, listens
  -- and is destroyed without a failed assertion; the same descriptors are open then as before.
  pub whole_life-SameOpen :
      (addr : InetAddr) (reuseport : Bool) (s : System)
      → is_open s 0 ≡ true
      → in_use s + 2 ≤ max_in_use
      → Returns (SameOpen s) (whole_life addr reuseport s)
  whole_life-SameOpen addr reuseport s z room =
      let sock = k.socket_room s (omega (arith, room)) in
      let op = k.open_null_room sock.1 (omega (arith, sock.3.counted, room)) in
      with_descriptors addr reuseport s sock.1 op.1 sock.0 op.0 z sock.2 op.2 sock.3 op.4
