-- ===== src/Net/TcpConnection/Forced.antt =====
-- `ForceClose` of windz/net/TcpConnection.cpp, and what follows it.
use windz.Prelude.{◌≡◌, List, [], ◌∷◌}
use windz.Net.TcpConnection.{
  Connection, Call, establishes, destroys, forces, force_close_timer, sends, shuts, reads, writes,
  runs, disconnected,
}
use windz.Net.TcpConnection.Lifecycle.{closes}

-- What the user calls, and the functors that are queued or due; not what the socket reports.
abbrev pub IsOfUser : Call → Type 0
IsOfUser establishes = ⊥
IsOfUser destroys = ⊥
IsOfUser forces = Unit
IsOfUser force_close_timer = Unit
IsOfUser (sends in_loop w bytes) = Unit
IsOfUser (shuts in_loop) = Unit
IsOfUser (reads got) = ⊥
IsOfUser (writes w) = ⊥
IsOfUser (runs w t) = Unit

abbrev pub AreOfUser : List Call → Type 0
AreOfUser [] = Unit
AreOfUser (k ∷ ks) = IsOfUser k × AreOfUser ks

-- Marked as disconnected, but watched as before, and nobody was told; nothing more was sent.
pub record IsUnclosed (c c' : Connection) : Type 0 where
  marked : c'.state ≡ disconnected
  watched : c'.channel ≡ c.channel
  untold : closes c'.events ≡ closes c.events
  unsent : c'.sent ≡ c.sent
