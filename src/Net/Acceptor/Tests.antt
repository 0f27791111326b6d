-- ===== src/Net/Acceptor/Tests.antt =====
-- windz/net/Acceptor.cpp at concrete inputs.
use windz.Prelude.{◌≡◌, refl, true, false, [], ◌∷◌, some, Returns, arith}
use windz.Net.Socket.Interface.{InetAddr}
use windz.Net.Socket.Table.{Table, table, with_queue, accept_from-never_failed}
use windz.Net.Acceptor.{Acceptor, handle_read, handle_reads}
use windz.Net.Acceptor.Held.{Holds, Takes, handle_read-Takes}
use windz.Net.Acceptor.Draining.{handle_reads-drains}
use windz.Net.Acceptor.Whole.{whole_life, SameOpen, whole_life-SameOpen}

abbrev peer : InetAddr
peer = record { sin_family = 2; sin_port = 1; s_addr = 2 }

abbrev acceptor : Acceptor
acceptor = record {
  socket = some 1;
  channel = record { reading = true; writing = false; registered = true; handled = true };
  conn_cb = true;
  given = [];
  listenning = true;
  idle_fd = some 2;
}

-- No descriptor is left, and two connections wait.
abbrev full : Table
full = with_queue 4 (peer ∷ peer ∷ [])

full-Holds : Holds table acceptor full
full-Holds = record { fd = 2; held = refl; open_fd = refl; few = omega arith }

handle_read-Takes_example :
    Takes table peer
      (peer ∷ [])
      acceptor
      (handle_read table acceptor full).0
      full
      (handle_read table acceptor full).1
handle_read-Takes_example = handle_read-Takes table peer (peer ∷ []) acceptor full full-Holds refl

-- The same, where the limit of the system is reached.
abbrev system_full : Table
system_full = record full { of_system = true }

system_full-Holds : Holds table acceptor system_full
system_full-Holds = record { fd = 2; held = refl; open_fd = refl; few = omega arith }

handle_reads-drains_example :
    ((handle_reads table 2 acceptor system_full).1.queue ≡ [])
    × Holds table
        (handle_reads table 2 acceptor system_full).0
        (handle_reads table 2 acceptor system_full).1
handle_reads-drains_example =
    handle_reads-drains table (peer ∷ peer ∷ []) acceptor system_full accept_from-never_failed
      system_full-Holds refl

whole_life-SameOpen_example :
    Returns (SameOpen table (with_queue 2 [])) (whole_life table peer true (with_queue 2 []))
whole_life-SameOpen_example =
    whole_life-SameOpen table peer true (with_queue 2 []) refl (omega arith)
