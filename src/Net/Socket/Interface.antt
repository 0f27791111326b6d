-- ===== src/Net/Socket/Interface.antt =====
-- What windz/net/Socket.cpp and windz/net/Acceptor.cpp call of the system, as an interface.
use windz.Prelude.{
  ℕ, suc, ◌-◌, ◌≤◌, ◌<◌, ◌≡◌, ◌⊎◌, Bool, true, false, List, ◌∷◌, ◌==◌, if◌then◌else◌, Option, some,
}
use windz.Prelude.Int.{ℤ}

-- `struct sockaddr_in`: the family, and the port and the address as numbers of the machine, whose
-- bytes stand in memory from the lowest on.
pub record InetAddr : Type 0 where
  pub sin_family : ℕ
  pub sin_port : ℕ
  pub s_addr : ℕ

-- What `accept4` answers: a descriptor and the address of the peer, or an error.
pub data Accepted : Type 0 where
  got : ℕ → InetAddr → Accepted
  emfile enfile accept_failed : Accepted

-- The options that are set, with the value that is passed.
pub data Sockopt : Type 0 where
  tcp_nodelay reuse_addr reuse_port keep_alive : ℕ → Sockopt
  so_linger : ℕ → ℤ → Sockopt

-- A descriptor that a call took.
pub record Taken {System : Type 0} (in_use : System → ℕ) (is_open : System → ℕ → Bool) (fd : ℕ)
    (s s' : System) : Type 0 where
  pub was_free : is_open s fd ≡ false
  pub opened : (j : ℕ) → is_open s' j ≡ (if j == fd then true else is_open s j)
  pub counted : in_use s' ≡ suc (in_use s)

-- A call that neither takes nor gives back a descriptor.
pub record SameTable {System : Type 0} (in_use : System → ℕ) (is_open : System → ℕ → Bool)
    (s s' : System) : Type 0 where
  pub same_count : in_use s' ≡ in_use s
  pub same_open : (j : ℕ) → is_open s' j ≡ is_open s j

-- `accept4` gives the first of the connections that wait.
pub record Received {System : Type 0} (in_use : System → ℕ) (is_open : System → ℕ → Bool)
    (waiting : System → List InetAddr) (c : InetAddr) (cs : List InetAddr) (s : System)
    (answer : Accepted × System) : Type 0 where
  pub fd : ℕ
  pub after : System
  pub same : answer ≡ (got fd c, after)
  pub rest : waiting after ≡ cs
  pub taken : Taken in_use is_open fd s after

-- It fails for another reason than a lack of descriptors. The connection waits on, or was given up
-- by its peer and is gone.
pub record Refused {System : Type 0} (in_use : System → ℕ) (is_open : System → ℕ → Bool)
    (waiting : System → List InetAddr) (c : InetAddr) (cs : List InetAddr) (s : System)
    (answer : Accepted × System) : Type 0 where
  pub after : System
  pub same : answer ≡ (accept_failed, after)
  pub rest : (waiting after ≡ c ∷ cs) ⊎ (waiting after ≡ cs)
  pub table : SameTable in_use is_open s after

-- The descriptors of the process, of which the limits of the process and of the system leave it
-- `max_in_use`, and the connections that wait at its listening socket. Nobody else takes a descriptor
-- between two calls.
pub record Kernel : Type 1 where
  pub System : Type 0
  pub max_in_use : ℕ
  pub in_use : System → ℕ
  pub is_open : System → ℕ → Bool
  pub waiting : System → List InetAddr
  pub accept4 : System → Accepted × System
  pub close : ℕ → System → ℤ × System
  pub open_null : System → Option ℕ × System
  pub socket : System → Option ℕ × System
  pub bind : ℕ → InetAddr → System → ℤ × System
  pub listen : ℕ → ℕ → System → ℤ × System
  pub setsockopt : ℕ → Sockopt → System → ℤ × System
  pub connect : ℕ → InetAddr → System → ℤ × System
  pub shutdown : ℕ → ℕ → System → ℤ × System
  pub getsockname : ℕ → System → ℤ × InetAddr
  pub getpeername : ℕ → System → ℤ × InetAddr
  pub getsockopt_error : ℕ → System → ℤ × ℤ
  pub errno : System → ℤ
  pub some_room : 0 < max_in_use
  pub accept4_full :
      (s : System) (c : InetAddr) (cs : List InetAddr)
      → waiting s ≡ c ∷ cs
      → max_in_use ≤ in_use s
      → (accept4 s ≡ (emfile, s))
        ⊎ ((accept4 s ≡ (enfile, s)) ⊎ Refused in_use is_open waiting c cs s (accept4 s))
  pub accept4_room :
      (s : System) (c : InetAddr) (cs : List InetAddr)
      → waiting s ≡ c ∷ cs
      → in_use s < max_in_use
      → Received in_use is_open waiting c cs s (accept4 s)
        ⊎ Refused in_use is_open waiting c cs s (accept4 s)
  pub open_null_room :
      (s : System)
      → in_use s < max_in_use
      → (fd : ℕ) × (s' : System) × (open_null s ≡ (some fd, s'))
        × (waiting s' ≡ waiting s)
        × Taken in_use is_open fd s s'
  pub close_waiting : (fd : ℕ) (s : System) → waiting (close fd s).1 ≡ waiting s
  pub close_in_use :
      (fd : ℕ) (s : System) → is_open s fd ≡ true → in_use (close fd s).1 ≡ in_use s - 1
  pub close_is_open :
      (fd : ℕ) (s : System) (j : ℕ)
      → is_open (close fd s).1 j ≡ (if j == fd then false else is_open s j)
  pub socket_room :
      (s : System)
      → in_use s < max_in_use
      → (fd : ℕ) × (s' : System) × (socket s ≡ (some fd, s')) × Taken in_use is_open fd s s'
  pub bind_same : (fd : ℕ) (a : InetAddr) (s : System) → SameTable in_use is_open s (bind fd a s).1
  pub listen_same : (fd n : ℕ) (s : System) → SameTable in_use is_open s (listen fd n s).1
  pub setsockopt_same :
      (fd : ℕ) (o : Sockopt) (s : System) → SameTable in_use is_open s (setsockopt fd o s).1
