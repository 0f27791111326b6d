-- ===== src/Net/Socket.antt =====
-- windz/net/Socket.{h,cpp}: addresses of the Internet and the calls on a socket. What is logged is
-- left out.
pub mod Interface
pub mod Table
pub mod Address
mod Tests
use windz.Prelude.{
  ℕ, ◌+◌, ◌*◌, ◌/◌, ◌%◌, Bool, true, false, not, ◌||◌, List, [], ◌∷◌, ◌++◌, ◌==◌, if◌then◌else◌,
  Option, none, some, Run, ok, ◌>>=◌, ◌>>◌, assert,
}
use windz.Prelude.Int.{ℤ, pos, negsuc, eqb_ℤ, ltb_ℤ, leb_ℤ}
use Interface.{
  InetAddr, Kernel, Accepted, got, emfile, enfile, accept_failed, Sockopt, tcp_nodelay, reuse_addr,
  reuse_port, keep_alive, so_linger,
}

-- `htons` and `ntohs` of a machine that keeps the lowest byte first.
unfoldable pub htons : ℕ → ℕ
htons port = port % 256 * 256 + port / 256 % 256

abbrev pub inaddr_loopback : ℕ
inaddr_loopback = 0x7f00_0001

abbrev pub inaddr_any : ℕ
inaddr_any = 0

abbrev pub af_inet : ℕ
af_inet = 2

unfoldable pub new_inet_addr : ℕ → Bool → InetAddr
unfolding htons
new_inet_addr port loopback = record {
  sin_family = af_inet;
  sin_port = htons port;
  s_addr = if loopback then inaddr_loopback else inaddr_any;
}

-- The four bytes of an address, as they stand in memory.
abbrev pub Bytes : Type 0
Bytes = ℕ × ℕ × ℕ × ℕ

unfoldable pub bytes_of : ℕ → Bytes
bytes_of s = (s % 256, s / 256 % 256, s / 65_536 % 256, s / 16_777_216 % 256)

unfoldable pub of_bytes : Bytes → ℕ
of_bytes (a, b, c, d) = a + 256 * b + 65_536 * c + 16_777_216 * d

-- `inet_pton` answers 1 with the bytes, 0 for a text that is no address, or -1.
pub data Pton : Type 0 where
  valid : Bytes → Pton
  invalid pton_failed : Pton

-- The address in memory is 0 before `inet_pton`, and only a valid text changes it.
unfoldable pub inet_addr_of : (List ℕ → Pton) → List ℕ → ℕ → InetAddr
unfolding htons of_bytes
inet_addr_of inet_pton ip port = elim (inet_pton ip) [
  | valid b ↦ record { sin_family = af_inet; sin_port = htons port; s_addr = of_bytes b }
  | invalid ↦ record { sin_family = af_inet; sin_port = htons port; s_addr = 0 }
  | pton_failed ↦ record { sin_family = af_inet; sin_port = htons port; s_addr = 0 }
]

-- `inet_ntop` of four bytes always has room in the 16 characters of `buf`.
unfoldable pub ip_string : (Bytes → List ℕ) → InetAddr → List ℕ
unfolding bytes_of
ip_string inet_ntop addr = inet_ntop (bytes_of addr.s_addr)

unfoldable pub port_uint16 : InetAddr → ℕ
unfolding htons
port_uint16 addr = htons addr.sin_port

pub ip_port_string : (Bytes → List ℕ) → (ℕ → List ℕ) → InetAddr → List ℕ
unfolding ip_string port_uint16
ip_port_string inet_ntop to_string addr =
    ip_string inet_ntop addr ++ 58 ∷ to_string (port_uint16 addr)

abbrev pub backlog : ℕ
backlog = 128

-- `linger` is -1 where it is not given.
abbrev pub default_linger : ℤ
default_linger = negsuc 0

abbrev pub as_optval : Bool → ℕ
as_optval flag = if flag then 1 else 0

abbrev pub zero_addr : InetAddr
zero_addr = record { sin_family = 0; sin_port = 0; s_addr = 0 }

abbrev pub addr_of : ℤ × InetAddr → InetAddr
addr_of (r, addr) = if ltb_ℤ r (pos 0) then zero_addr else addr

abbrev pub Fd : Type 0
Fd = Option ℕ

-- The calls on a socket; a descriptor of -1 is `none`.
module _ (k : Kernel) where
  open k use {System}

  -- A call on -1 is an error.
  abbrev pub on_fd : Fd → (ℕ → System → ℤ × System) → System → ℤ × System
  on_fd none call s = (negsuc 0, s)
  on_fd (some fd) call s = call fd s

  abbrev pub succeeded : ℤ × System → Bool × System
  succeeded (r, s) = (eqb_ℤ r (pos 0), s)

  unfoldable pub create_nonblock_socket : System → Fd × System
  create_nonblock_socket s = k.socket s

  unfoldable pub bind : Fd → InetAddr → System → Bool × System
  bind fd addr s = succeeded (on_fd fd (λ j. k.bind j addr) s)

  unfoldable pub listen : Fd → System → Bool × System
  listen fd s = succeeded (on_fd fd (λ j. k.listen j backlog) s)

  -- What `Accept` gives: the descriptor of the new socket with the address of the peer, or the error
  -- behind a socket of -1.
  unfoldable pub accept : System → Accepted × System
  accept s = k.accept4 s

  pub connect : Fd → InetAddr → System → Bool × System
  connect fd addr s = succeeded (on_fd fd (λ j. k.connect j addr) s)

  -- SHUT_RD, SHUT_WR and SHUT_RDWR are 0, 1 and 2.
  pub shutdown : Fd → ℕ → System → Run (Bool × System)
  shutdown fd how s = do
    assert (how == 0 || how == 1 || how == 2)
    ok (succeeded (on_fd fd (λ j. k.shutdown j how) s))

  unfoldable pub close : Fd → System → Bool × System
  close fd s = succeeded (on_fd fd k.close s)

  pub local_addr : Fd → System → InetAddr
  local_addr none s = zero_addr
  local_addr (some fd) s = addr_of (k.getsockname fd s)

  pub peer_addr : Fd → System → InetAddr
  peer_addr none s = zero_addr
  peer_addr (some fd) s = addr_of (k.getpeername fd s)

  -- The error of the socket, or why it cannot be asked for; 9 is EBADF.
  pub socket_error : Fd → System → ℤ
  socket_error none s = pos 9
  socket_error (some fd) s =
      let (r, optval) = k.getsockopt_error fd s in if ltb_ℤ r (pos 0) then k.errno s else optval

  abbrev pub set_option : Fd → Sockopt → System → Bool × System
  set_option fd o s = succeeded (on_fd fd (λ j. k.setsockopt j o) s)

  pub set_tcp_no_delay : Fd → Bool → System → Bool × System
  set_tcp_no_delay fd flag s = set_option fd (tcp_nodelay (as_optval flag)) s

  unfoldable pub set_reuse_addr : Fd → Bool → System → Bool × System
  set_reuse_addr fd flag s = set_option fd (reuse_addr (as_optval flag)) s

  unfoldable pub set_reuse_port : Fd → Bool → System → Bool × System
  set_reuse_port fd flag s = set_option fd (reuse_port (as_optval flag)) s

  pub set_keep_alive : Fd → Bool → System → Bool × System
  set_keep_alive fd flag s = set_option fd (keep_alive (as_optval flag)) s

  pub set_linger : Fd → Bool → ℤ → System → Run (Bool × System)
  set_linger fd flag linger s = do
    assert (not flag || leb_ℤ (pos 0) linger)
    ok (set_option fd (so_linger (as_optval flag) linger) s)
