-- ===== src/Net/TcpConnection/Tests.antt =====
-- windz/net/TcpConnection.cpp at concrete inputs.
use windz.Prelude.{
  List, ◌≤◌, ◌≡◌, refl, true, false, [], ◌∷◌, ◌++◌, replicate, ok, Returns, arith, some,
}
use windz.Net.Buffer.{Buffer, read_fd, store_at}
use windz.Net.Buffer.Copy.{read, store}
use windz.Net.Buffer.Valid as V
use windz.Net.Channel.{Channel, disable_read, disable_write}
use windz.Net.TcpConnection.{
  Connection, Call, runs, sends, forces, force_close_timer, connected, disconnected, wrote,
  would_block, send_in_loop, handle_write, force_close_task, run, reads, closed, written_fits, step,
  handle_read, after_read, handle_close, log,
}
use windz.Net.TcpConnection.Stream.{Sent, stream, send_in_loop_appends, handle_write-stream}
use windz.Net.TcpConnection.Lifecycle.{EndsOnce, run-EndsOnce}

abbrev empty_buffer : Buffer
empty_buffer = record { buffer = replicate 16 0; read_index = 8; write_index = 8 }

abbrev watched : Channel
watched = record { reading = true; writing = false; registered = true; handled = true }

-- An established connection with nothing to send.
abbrev idle : Connection
idle = record {
  state = connected;
  channel = watched;
  input = empty_buffer;
  output = empty_buffer;
  high_mark = 64;
  has_connection_cb = true;
  has_low_cb = true;
  has_high_cb = false;
  tasks = [];
  events = [];
  sent = [];
  shut = false;
}

-- One with two bytes left over.
abbrev busy : Connection
busy = record idle {
  channel = record watched { writing = true };
  output = record {
    buffer = replicate 8 0 ++ 5 ∷ 6 ∷ replicate 6 0;
    read_index = 8;
    write_index = 10;
  };
  sent = 4 ∷ [];
}

empty_buffer-IsValid : V.IsValid empty_buffer
empty_buffer-IsValid = omega arith

-- The kernel takes one byte of three.
send_in_loop_appends_example :
    Returns (Sent (1 ∷ 2 ∷ 3 ∷ []) idle) (send_in_loop (wrote 1) (1 ∷ 2 ∷ 3 ∷ []) idle)
unfolding read written_fits
send_in_loop_appends_example =
    send_in_loop_appends (wrote 1) (1 ∷ 2 ∷ 3 ∷ []) idle empty_buffer-IsValid (λ e. cc) refl
      (omega arith)

handle_write-stream_example :
    Returns (λ c'. V.IsValid c'.output × (stream c' ≡ 4 ∷ 5 ∷ 6 ∷ [])) (handle_write (wrote 2) busy)
unfolding read written_fits
handle_write-stream_example =
    handle_write-stream (wrote 2) busy (let v : V.IsValid busy.output = omega arith in v) refl

-- The functor runs, the user sends, and calls again.
abbrev calls : List Call
calls =
    runs would_block force_close_task
    ∷ sends true (wrote 1) (1 ∷ [])
    ∷ forces
    ∷ force_close_timer
    ∷ []

-- The peer closes: the read of no byte ends the connection.
abbrev ended : Connection
ended = record idle {
  state = disconnected;
  channel = record watched { reading = false };
  events = closed ∷ [];
}

idle-run : run (reads (some []) ∷ reads (some []) ∷ []) idle ≡ ok ended
unfolding run step handle_read after_read handle_close read_fd disable_read disable_write log
    store_at store
idle-run = refl

run-EndsOnce_example : (1 ≤ 3) × EndsOnce ended
run-EndsOnce_example =
    run-EndsOnce (reads (some []) ∷ reads (some []) ∷ []) idle ended idle-run
      (record { once = omega arith; over = λ h. absurd (omega arith) })
