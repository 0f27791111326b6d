-- ===== src/Net/Acceptor.antt =====
-- windz/net/Acceptor.{h,cpp}: a listening socket, in its loop's thread, with a descriptor that is
-- held back for the case that no other is left. The system is a parameter.
pub mod Held
pub mod Draining
pub mod Whole
mod Tests
use windz.Prelude.{
  ℕ, zero, suc, Bool, true, false, List, [], ◌∷◌, ◌++◌, ltb, if◌then◌else◌, Option, none, some, Run,
  ok, ◌>>=◌, ◌>>◌, assert,
}
use windz.Net.Channel.{Channel, new_channel, enable_read, disable_read_write}
use windz.Net.Channel.{close as close_channel}
use windz.Net.Socket.Interface.{InetAddr, Kernel, Accepted, got, emfile, enfile, accept_failed}
use windz.Net.Socket.{
  create_nonblock_socket, set_reuse_addr, set_reuse_port, bind, listen, accept, close,
}

-- `conn_cb` says whether the callback is set, `given` what it was called with.
pub record Acceptor : Type 0 where
  pub socket : Option ℕ
  pub channel : Channel
  pub conn_cb : Bool
  pub given : List (ℕ × InetAddr)
  pub listenning : Bool
  pub idle_fd : Option ℕ

abbrev is_positive : Option ℕ → Bool
is_positive none = false
is_positive (some fd) = ltb 0 fd

module _ (k : Kernel) where
  open k use {System}

  -- The constructor; the answers to the calls on the socket are not looked at.
  pub new_acceptor : InetAddr → Bool → System → Run (Acceptor × System)
  unfolding create_nonblock_socket set_reuse_addr set_reuse_port bind new_channel
  new_acceptor addr reuseport s =
      let (socket, s1) = create_nonblock_socket k s in
      let (idle_fd, s2) = k.open_null s1 in
      do
        assert (is_positive idle_fd)
        ok (
          record {
            socket = socket;
            channel = record new_channel { handled = true };
            conn_cb = false;
            given = [];
            listenning = false;
            idle_fd = idle_fd;
          },
          (bind k socket addr
              (set_reuse_port k socket reuseport (set_reuse_addr k socket true s2).1).1).1,
        )

  unfoldable pub set_connection_callback : Acceptor → Acceptor
  set_connection_callback a = record a { conn_cb = true }

  -- `Acceptor::Listen`
  unfoldable pub start_listening : Acceptor → System → Acceptor × System
  unfolding listen enable_read
  start_listening a s =
      (record a { listenning = true; channel = enable_read a.channel }, (listen k a.socket s).1)

  -- The socket that `Accept` gave is closed, if it gave one.
  abbrev pub close_accepted : Accepted × System → System
  close_accepted (got fd peer, s) = (close k (some fd) s).1
  close_accepted (_, s) = s

  -- The held descriptor is given up for the connection, which is closed at once, and taken again.
  pub drop_connection : Acceptor → System → Acceptor × System
  unfolding close accept
  drop_connection a s =
      let s1 = (close k a.idle_fd s).1 in
      let s2 = close_accepted (accept k s1) in
      let (idle_fd, s3) = k.open_null s2 in (record a { idle_fd = idle_fd }, s3)

  -- What follows `Accept` in `HandleRead`.
  unfoldable pub after_accept : Acceptor → Accepted × System → Acceptor × System
  unfolding close
  after_accept a (got fd peer, s) =
      if a.conn_cb
      then (record a { given = a.given ++ (fd, peer) ∷ [] }, s)
      else (a, (close k (some fd) s).1)
  after_accept a (emfile, s) = drop_connection a s
  after_accept a (enfile, s) = drop_connection a s
  after_accept a (accept_failed, s) = (a, s)

  pub handle_read : Acceptor → System → Acceptor × System
  unfolding accept after_accept
  handle_read a s = after_accept a (accept k s)

  -- The loop reports the socket as readable again and again.
  pub handle_reads : ℕ → Acceptor → System → Acceptor × System
  unfolding handle_read
  handle_reads zero a s = (a, s)
  handle_reads (suc n) a s = let (a', s') = handle_read a s in handle_reads n a' s'

  pub destruct : Acceptor → System → Run System
  unfolding disable_read_write close close_channel
  destruct a s = do
    ch ← close_channel (disable_read_write a.channel)
    ok (close k a.idle_fd (close k a.socket s).1).1
