-- ===== src/Net/TcpClient/Tests.antt =====
-- windz/net/TcpClient.cpp at concrete inputs.
use windz.Prelude.{
  ◌≡◌, refl, true, false, [], ◌∷◌, replicate, List, ok, fault, assertion, some, none,
}
use windz.Net.Buffer.{Buffer, new_buffer, read_fd, store_at}
use windz.Net.Buffer.Copy.{store}
use windz.Net.Channel.{
  new_channel, disable_read, disable_write, enable_read, enable_write, disable_read_write, close,
}
use windz.Net.TcpConnection.{
  Connection, connected, disconnected, closed, reads, new_connection, establish, destroy, notify,
  log, handle_read, after_read, handle_close, shutdown, shutdown_in_loop, disconnecting,
}
use windz.Net.TcpConnection
use windz.Net.Connector.{
  Connector, none_or_in_progress, good, new_connector, init_retry_duration, connecting,
}
use windz.Net.Connector
use windz.Net.TcpClient.{
  TcpClient, Call, connects, disconnects, writable, runs_connector, acts, runs_destroy, new_client,
  run, step, connect, with_held, disconnect, new_tcp_connection, is_current, remove_tcp_connection,
  handle_writable, run_connector, run_destroy, is_owner_call, act,
}
use windz.Net.TcpClient.Single.{IsSingle}
use windz.Net.TcpClient.Calls.{run-IsSingle, new_client-IsSingle}
use windz.Net.TcpClient.Again.{connect_again-faults}

abbrev empty_buffer : Buffer
empty_buffer = record { buffer = replicate 1032 0; read_index = 8; write_index = 8 }

abbrev open_connection : Connection
open_connection = record {
  state = connected;
  channel = record { reading = true; writing = false; registered = true; handled = true };
  input = empty_buffer;
  output = empty_buffer;
  high_mark = 67108864;
  has_connection_cb = false;
  has_low_cb = false;
  has_high_cb = false;
  tasks = [];
  events = [];
  sent = [];
  shut = false;
}

-- A connector that has connected, and whose channel is gone.
abbrev linked : Connector
linked = record {
  start = true;
  state = Connector.connected;
  channel = none;
  retry_duration = init_retry_duration;
  tasks = [];
  delays = [];
  given = 1;
  closed = 0;
}

abbrev online : TcpClient
online = record {
  connector = linked;
  has_connection_cb = false;
  retry = false;
  start = true;
  connection = some 0;
  past = record { connection = open_connection; destroyed = 0 } ∷ [];
  tasks = [];
}

abbrev going_online : List Call
going_online =
    connects true none_or_in_progress ∷ writable good ∷ runs_connector none_or_in_progress ∷ []

going_online-run : run going_online new_client ≡ ok online
unfolding run step connect new_client handle_writable run_connector new_tcp_connection
    Connector.start_connecting Connector.start_in_loop Connector.connect Connector.wait_writable
    Connector.handle_write Connector.reset_channel Connector.run_task new_connector new_connection
    new_buffer establish notify log new_channel enable_read enable_write disable_read_write close
going_online-run = refl

run-IsSingle_example : IsSingle online
run-IsSingle_example =
    run-IsSingle going_online new_client online new_client-IsSingle going_online-run

-- The peer closes after `Disconnect`.
abbrev offline : TcpClient
offline = record online {
  start = false;
  connection = none;
  past =
      record {
        connection = record open_connection {
          state = disconnected;
          channel = record {
            reading = false;
            writing = false;
            registered = false;
            handled = false;
          };
          events = closed ∷ [];
          shut = true;
        };
        destroyed = 1;
      }
      ∷ [];
}

abbrev going_offline : List Call
going_offline = acts 0 (reads (some [])) none_or_in_progress ∷ runs_destroy ∷ []

going_offline-run : run (disconnects true ∷ going_offline) online ≡ ok offline
unfolding run step disconnect with_held act is_owner_call remove_tcp_connection is_current
    run_destroy TcpConnection.step shutdown shutdown_in_loop handle_read after_read handle_close
    destroy notify log read_fd store_at store disable_read disable_write disable_read_write close
going_offline-run = refl

connect_again-faults_example : connect true none_or_in_progress offline ≡ fault assertion
connect_again-faults_example =
    connect_again-faults true 0 going_offline none_or_in_progress online offline
      (run-IsSingle going_online new_client online new_client-IsSingle going_online-run) refl
      (tt, (tt, tt)) going_offline-run

-- A client that is set to retry.
abbrev insistent : TcpClient
insistent = record online { retry = true }
