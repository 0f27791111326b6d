-- ===== src/Net/EventLoop/Channels.antt =====
-- The channels that a loop of windz/net/EventLoop.cpp holds and windz/net/Epoller.cpp watches. A
-- channel is a number, what its object holds is a function of that; an error of `epoll_ctl` is only
-- logged. The calls are those of the thread of the loop, on its own channels.
pub mod Closing
mod Tests
use windz.Prelude.{
  ℕ, zero, suc, ◌≡◌, Bool, true, false, not, ◌||◌, List, [], ◌∷◌, ◌++◌, length, ◌==◌, if◌then◌else◌,
  Run, ok, fault, out_of_fuel, ◌>>=◌, ◌>>◌, assert,
}
use windz.Net.Channel.{Channel, disable_read_write, close}

-- `channels` is the set, its first element first; `polled` is what epoll watches.
pub record ChannelSet : Type 0 where
  pub channels : List ℕ
  pub polled : List ℕ
  pub object : ℕ → Channel

pub member : ℕ → List ℕ → Bool
member i [] = false
member i (j ∷ js) = (i == j) || member i js

pub without : ℕ → List ℕ → List ℕ
without i [] = []
without i (j ∷ js) = let rest = without i js in if i == j then rest else j ∷ rest

pub has_channel : ℕ → ChannelSet → Bool
unfolding member
has_channel i s = member i s.channels

-- `EPOLL_CTL_ADD` of a descriptor that is watched is an error.
pub poll_add : ℕ → ChannelSet → ChannelSet
unfolding member
poll_add i s = if member i s.polled then s else record s { polled = s.polled ++ i ∷ [] }

pub poll_remove : ℕ → ChannelSet → ChannelSet
unfolding without
poll_remove i s = record s { polled = without i s.polled }

pub add_channel : ℕ → ChannelSet → ChannelSet
unfolding has_channel poll_add
add_channel i s =
    poll_add i (if has_channel i s then s else record s { channels = s.channels ++ i ∷ [] })

-- `EPOLL_CTL_MOD` leaves what is watched as it is.
pub update_channel : ℕ → ChannelSet → ChannelSet
unfolding add_channel
update_channel i s = if has_channel i s then s else add_channel i s

pub remove_channel : ℕ → ChannelSet → ChannelSet
unfolding poll_remove
remove_channel i s = poll_remove i (record s { channels = without i s.channels })

pub put_object : ℕ → Channel → ChannelSet → ChannelSet
put_object i ch s = record s { object = λ j. if j == i then ch else s.object j }

-- `DisableReadWrite` and `Close` of the channel `i`, with what they call of the loop.
pub disable_channel : ℕ → ChannelSet → ChannelSet
unfolding update_channel put_object
disable_channel i s = update_channel i (put_object i (disable_read_write (s.object i)) s)

pub close_channel : ℕ → ChannelSet → Run ChannelSet
unfolding remove_channel put_object
close_channel i s = close (s.object i) >>= λ ch. ok (remove_channel i (put_object i ch s))

-- The loop of the destructor.
pub close_loop : ℕ → ChannelSet → Run ChannelSet
unfolding disable_channel close_channel
close_loop zero s = elim s.channels [ [] ↦ ok s | _ ∷ _ ↦ fault out_of_fuel ]
close_loop (suc fuel) s = elim s.channels [
  | [] ↦ ok s
  | i ∷ _ ↦ close_channel i (disable_channel i s) >>= close_loop fuel
]

-- `EventLoop::~EventLoop`; the fuel is the number of channels.
pub destruct : Bool → ChannelSet → Run ChannelSet
unfolding close_loop
destruct looping s = do assert (not looping); close_loop (length s.channels) s
