-- ===== src/Net/Channel.antt =====
-- windz/net/Channel.{h,cpp}: the events that a descriptor is watched for, and their dispatch.
-- Of `events_` only the bits EPOLLIN and EPOLLOUT are ever set: they are two flags here.
use windz.Prelude.{
  Bool, true, false, not, ◌||◌, ◌&&◌, if◌then◌else◌, Run, ok, ◌>>=◌, ◌>>◌, assert, Option, none,
  some,
}

-- `registered` says whether the loop holds the channel, `handled` whether its handlers are set.
pub record Channel : Type 0 where
  pub reading : Bool
  pub writing : Bool
  pub registered : Bool
  pub handled : Bool

unfoldable pub new_channel : Channel
new_channel = record { reading = false; writing = false; registered = false; handled = false }

-- `Update` registers the channel with its loop, if it is not yet.
update : Channel → Channel
update ch = record ch { registered = true }

unfoldable pub enable_read : Channel → Channel
unfolding update
enable_read ch = update (record ch { reading = true })

unfoldable pub disable_read : Channel → Channel
unfolding update
disable_read ch = update (record ch { reading = false })

unfoldable pub enable_write : Channel → Channel
unfolding update
enable_write ch = update (record ch { writing = true })

unfoldable pub disable_write : Channel → Channel
unfolding update
disable_write ch = update (record ch { writing = false })

unfoldable pub enable_read_write : Channel → Channel
unfolding update
enable_read_write ch = update (record ch { reading = true; writing = true })

unfoldable pub disable_read_write : Channel → Channel
unfolding update
disable_read_write ch = update (record ch { reading = false; writing = false })

unfoldable pub close : Channel → Run Channel
close ch = do
  assert (not (ch.reading || ch.writing))
  ok (record ch { registered = false; handled = false })

-- What epoll reported.
pub record Revents : Type 0 where
  pub err : Bool
  pub readable : Bool
  pub pri : Bool
  pub rdhup : Bool
  pub writable : Bool

-- `handle_events` over the state `S` of whoever owns the channel: a handler that is not set is
-- `none`, and each is looked up when its turn comes, for an earlier one may have closed the
-- channel. `alive` is whether the tied owner, if there is one, still exists.
module _ {ℓ} {S : Type ℓ} (error_cb read_cb write_cb : S → Option (S → Run S)) where
  call : (S → Option (S → Run S)) → Bool → S → Run S
  call cb false s = ok s
  call cb true s = elim (cb s) [ none ↦ ok s | some f ↦ f s ]

  unfoldable pub handle_events : Bool → Bool → Revents → S → Run S
  unfolding call
  handle_events tied alive r s =
      let dispatch = do
        a ← call error_cb r.err s
        b ← call read_cb (r.readable || r.pri || r.rdhup) a
        call write_cb r.writable b
      in if tied && not alive then ok s else dispatch
