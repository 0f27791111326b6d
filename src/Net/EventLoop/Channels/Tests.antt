-- ===== src/Net/EventLoop/Channels/Tests.antt =====
-- The channels of windz/net/EventLoop.cpp at concrete inputs.
use windz.Prelude.{◌≡◌, refl, true, false, [], ◌∷◌, Returns}
use windz.Net.Channel.{Channel}
use windz.Net.EventLoop.Channels.{
  ChannelSet, update_channel, has_channel, add_channel, poll_add, member, destruct,
}
use windz.Net.EventLoop.Channels.Closing.{Closed, destruct-ends}

abbrev watched : Channel
watched = record { reading = true; writing = true; registered = true; handled = true }

abbrev two : ChannelSet
two = record { channels = 4 ∷ 6 ∷ []; polled = 4 ∷ 6 ∷ []; object = λ k. watched }

-- A channel that the loop does not hold yet is added, one that it holds is not added again.
two-update_channel : ((update_channel 5 two).polled ≡ 4 ∷ 6 ∷ 5 ∷ []) × (update_channel 6 two ≡ two)
unfolding update_channel has_channel add_channel poll_add member
two-update_channel = (refl, refl)

destruct-ends_example :
    Returns
      (λ s'. (s'.channels ≡ []) × (s'.polled ≡ []) × Closed (4 ∷ 6 ∷ []) two s')
      (destruct false two)
destruct-ends_example = destruct-ends two refl
