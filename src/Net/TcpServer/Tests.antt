-- ===== src/Net/TcpServer/Tests.antt =====
-- windz/net/TcpServer.cpp at concrete inputs.
use windz.Prelude.{
  ℕ, ◌+◌, ◌≡◌, refl, sym, ap, ◌∙◌, true, false, List, [], ◌∷◌, replicate, ok, arith, some,
  get_elem?, length, length-replicate,
}
use windz.Net.Buffer.{Buffer, new_buffer, read_fd, store_at}
use windz.Net.Buffer.Copy.{store}
use windz.Net.Channel.{
  new_channel, disable_read, disable_write, enable_read, disable_read_write, close,
}
use windz.Net.TcpConnection.{
  Connection, connected, disconnected, closed, reads, new_connection, establish, destroy, notify,
  log, handle_read, after_read, handle_close,
}
use windz.Net.TcpConnection
use windz.Net.TcpServer.{
  TcpServer, Served, Call, accepts, loops, acts, new_server, run, step, new_tcp_connection,
  choose_loop, add_connection, run_in_loop, run_task, with_served, establish_served, destroy_served,
  act, remove_tcp_connection, remove_in_loop, post, oldest, is_owner_call, erase, assign, same_name,
  destruct, destroy_each,
}
use windz.Net.TcpServer.Names.{Apart}
use windz.Net.TcpServer.Pending.{pending, destroys_of}
use windz.Net.TcpServer.Once.{IsValid}
use windz.Net.TcpServer.Calls.{run-IsValid, new_server-IsValid}
use windz.Net.TcpServer.Destruct.{destruct-accounts}

-- Numbers written with one kind of digit.
abbrev ones : ℕ → List ℕ
ones n = replicate n 49

ones-Apart : (n : ℕ) → Apart ones n
ones-Apart n i j p q h = sym (length-replicate i 49) ∙ ap length h ∙ length-replicate j 49

abbrev empty_buffer : Buffer
empty_buffer = record { buffer = replicate 1032 0; read_index = 8; write_index = 8 }

-- The first connection ended and was destroyed, the second is in use.
abbrev open_connection : Connection
open_connection = record {
  state = connected;
  channel = record { reading = true; writing = false; registered = true; handled = true };
  input = empty_buffer;
  output = empty_buffer;
  high_mark = 67108864;
  has_connection_cb = false;
  has_low_cb = false;
  has_high_cb = false;
  tasks = [];
  events = [];
  sent = [];
  shut = false;
}

abbrev ended_connection : Connection
ended_connection = record open_connection {
  state = disconnected;
  channel = record { reading = false; writing = false; registered = false; handled = false };
  events = closed ∷ [];
}

abbrev after_two : TcpServer
after_two = record (new_server 0 (115 ∷ [])) {
  next_connid = 3;
  connections = (115 ∷ 35 ∷ 49 ∷ 49 ∷ [], 1) ∷ [];
  served =
      record {
        name = 115 ∷ 35 ∷ 49 ∷ [];
        loop = 0;
        connection = ended_connection;
        established = 1;
        destroyed = 1;
      }
      ∷ record {
        name = 115 ∷ 35 ∷ 49 ∷ 49 ∷ [];
        loop = 0;
        connection = open_connection;
        established = 1;
        destroyed = 0;
      }
      ∷ [];
}

abbrev some_calls : List Call
some_calls = accepts ∷ accepts ∷ acts 0 (reads (some [])) ∷ loops 0 ∷ []

some_calls-run : run ones some_calls (new_server 0 (115 ∷ [])) ≡ ok after_two
unfolding new_server run step new_tcp_connection choose_loop add_connection run_in_loop run_task
    with_served establish_served destroy_served act remove_tcp_connection remove_in_loop post oldest
    is_owner_call erase assign same_name new_connection new_buffer establish destroy notify log
    TcpConnection.step handle_read after_read handle_close read_fd store_at store disable_read
    disable_write enable_read disable_read_write close new_channel
some_calls-run = refl

run-IsValid_example : IsValid ones 5 after_two
run-IsValid_example =
    run-IsValid ones (ones-Apart 4294967296) some_calls (new_server 0 (115 ∷ [])) after_two
      (new_server-IsValid ones (ones-Apart 4294967296) 0 (115 ∷ []) 7 (omega arith)) some_calls-run

-- The destructor destroys the second connection at once, in its own thread.
abbrev gone_connection : Connection
gone_connection = record open_connection {
  state = disconnected;
  channel = record { reading = false; writing = false; registered = false; handled = false };
}

abbrev after_end : TcpServer
after_end = record after_two {
  connections = [];
  served =
      record {
        name = 115 ∷ 35 ∷ 49 ∷ [];
        loop = 0;
        connection = ended_connection;
        established = 1;
        destroyed = 1;
      }
      ∷ record {
        name = 115 ∷ 35 ∷ 49 ∷ 49 ∷ [];
        loop = 0;
        connection = gone_connection;
        established = 1;
        destroyed = 1;
      }
      ∷ [];
}

destruct-run : destruct after_two ≡ ok after_end
unfolding new_server destruct destroy_each run_in_loop run_task with_served destroy_served destroy
    notify disable_read_write close
destruct-run = refl

destruct-accounts_example :
    (after_end.connections ≡ [])
    × ((i : ℕ) (d : Served)
        → get_elem? after_end.served i ≡ some d
        → pending (destroys_of i) after_end.tasks + d.destroyed ≡ 1)
destruct-accounts_example =
    destruct-accounts ones {room = 5} after_two after_end
      (run-IsValid ones (ones-Apart 4294967296) some_calls (new_server 0 (115 ∷ [])) after_two
        (new_server-IsValid ones (ones-Apart 4294967296) 0 (115 ∷ []) 7 (omega arith))
        some_calls-run)
      destruct-run
