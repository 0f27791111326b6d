-- ===== src/Net/TcpConnection.antt =====
-- windz/net/TcpConnection.{h,cpp}: one connection, in its loop's thread. What the kernel answers to
-- `write` and `readv` is an argument; a callback of the user is logged, and what it calls in turn
-- is a step of its own. A functor that is queued in the loop is a `Task`.
pub mod Stream
pub mod Lifecycle
pub mod Forced
mod Tests
use windz.Prelude.{
  ℕ, ◌+◌, ◌*◌, ◌≤◌, ◌<◌, ◌≡◌, Bool, true, false, not, ◌&&◌, ◌||◌, List, [], ◌∷◌, ◌++◌, length, take,
  drop, ltb, leb, ◌==◌, if◌then◌else◌, Option, none, some, Run, ok, fault, assertion, ◌>>=◌, ◌>>◌,
  assert,
}
use windz.Net.Channel.{
  Channel, enable_read, disable_read, enable_write, disable_write, disable_read_write, close,
  new_channel,
}
use windz.Net.Buffer.{
  Buffer, readable_bytes, add_size, sub_size, write, release, read_fd, new_buffer, init_size,
}
use windz.Net.Buffer.Copy.{read}

pub data State : Type 0 where
  connecting connected disconnected disconnecting : State

abbrev pub is_connected : State → Bool
is_connected connected = true
is_connected _ = false

abbrev pub is_disconnected : State → Bool
is_disconnected disconnected = true
is_disconnected _ = false

abbrev pub is_disconnecting : State → Bool
is_disconnecting disconnecting = true
is_disconnecting _ = false

abbrev pub is_connecting : State → Bool
is_connecting connecting = true
is_connecting _ = false

-- The user's and the owner's callbacks, as they are called.
pub data Event : Type 0 where
  connection message low_watermark closed : Event
  high_watermark : ℕ → Event

-- The functors that the connection queues in its loop.
pub data Task : Type 0 where
  send_in_loop_task : List ℕ → Task
  shutdown_task force_close_task low_watermark_task : Task

-- What `write` returns: the count of bytes taken, or an error.
pub data Written : Type 0 where
  wrote : ℕ → Written
  would_block broken other_error : Written

-- `sent` is what the kernel took from the connection, `shut` whether `shutdown(SHUT_WR)` was called.
pub record Connection : Type 0 where
  pub state : State
  pub channel : Channel
  pub input : Buffer
  pub output : Buffer
  pub high_mark : ℕ
  pub has_connection_cb : Bool
  pub has_low_cb : Bool
  pub has_high_cb : Bool
  pub tasks : List Task
  pub events : List Event
  pub sent : List ℕ
  pub shut : Bool

unfoldable pub log : Event → Connection → Connection
log e c = record c { events = c.events ++ e ∷ [] }

queue : Task → Connection → Connection
queue t c = record c { tasks = c.tasks ++ t ∷ [] }

unfoldable pub new_connection : Run Connection
new_connection = do
  input ← new_buffer init_size
  output ← new_buffer init_size
  ok (record {
    state = connecting;
    channel = record new_channel { handled = true };
    input = input;
    output = output;
    high_mark = 64 * 1024 * 1024;
    has_connection_cb = false;
    has_low_cb = false;
    has_high_cb = false;
    tasks = [];
    events = [];
    sent = [];
    shut = false;
  })

-- A call of `connection_cb_`, if it is set.
unfoldable pub notify : Connection → Connection
unfolding log
notify c = if c.has_connection_cb then log connection c else c

unfoldable pub establish : Connection → Run Connection
unfolding notify enable_read
establish c = do
  assert (is_connecting c.state)
  ok (notify (record c { state = connected; channel = enable_read c.channel }))

unfoldable pub destroy : Connection → Run Connection
unfolding notify close disable_read_write
destroy c =
    let c' = notify (record c { state = disconnected; channel = disable_read_write c.channel }) in
    do ch ← close c'.channel; ok (record c' { channel = ch })

-- The low watermark's functor is queued, if nothing is left and there is a callback.
tell_low : ℕ → Connection → Connection
unfolding queue
tell_low remain c = if remain == 0 && c.has_low_cb then queue low_watermark_task c else c

-- `SendInLoop`, the write to the socket: what is left to be buffered, whether the connection is
-- broken, and the new state.
direct_write : Written → List ℕ → Connection → List ℕ × Bool × Connection
unfolding tell_low
direct_write (wrote n) bytes c = (
  drop n bytes,
  false,
  tell_low (sub_size (length bytes) n) (record c { sent = c.sent ++ take n bytes }),
)
direct_write would_block bytes c = (bytes, false, c)
direct_write broken bytes c = (bytes, true, c)
direct_write other_error bytes c = (bytes, false, c)

-- `SendInLoop`, the bytes that are left: a call of the high watermark's callback, if they cross it.
raise_high : List ℕ → Connection → Connection
unfolding log
raise_high rest c =
    let old = readable_bytes c.output in
    let total = add_size old (length rest) in
    if leb old c.high_mark && ltb c.high_mark total && c.has_high_cb
    then log (high_watermark total) c
    else c

-- Then they go to the output buffer, and the socket is watched for writing.
append_rest : List ℕ → Connection → Run Connection
unfolding enable_write
append_rest rest c = do
  output ← write c.output rest
  ok (record c {
    output = output;
    channel = if c.channel.writing then c.channel else enable_write c.channel;
  })

keep_rest : List ℕ → Connection → Run Connection
unfolding raise_high append_rest
keep_rest rest c = append_rest rest (raise_high rest c)

-- `assert(remain <= len)` in `size_t`: `write` reports at most the length that it was given.
pub written_fits : Written → ℕ → Bool
written_fits (wrote n) len = leb n len
written_fits _ len = true

finish_send : List ℕ × Bool × Connection → Run Connection
unfolding keep_rest
finish_send (rest, err, c) = if not err && ltb 0 (length rest) then keep_rest rest c else ok c

-- `SendInLoop` writes to the socket at once.
abbrev pub is_idle : Connection → Bool
is_idle c = not c.channel.writing && readable_bytes c.output == 0

pub send_in_loop : Written → List ℕ → Connection → Run Connection
unfolding direct_write finish_send written_fits
send_in_loop w bytes c =
    let at_once = do assert (written_fits w (length bytes)); finish_send (direct_write w bytes c)
    in let later = finish_send (bytes, false, c) in
      if is_disconnected c.state then ok c else if is_idle c then at_once else later

-- `Send`, from the loop's thread or from another.
pub send : Bool → Written → List ℕ → Connection → Run Connection
unfolding send_in_loop queue
send in_loop w bytes c =
    if is_connected c.state
    then (if in_loop then send_in_loop w bytes c else ok (queue (send_in_loop_task bytes) c))
    else ok c

unfoldable pub shutdown_in_loop : Connection → Connection
shutdown_in_loop c = if c.channel.writing then c else record c { shut = true }

unfoldable pub shutdown : Bool → Connection → Connection
unfolding shutdown_in_loop queue
shutdown in_loop c =
    let c' = record c { state = disconnecting } in
    if is_connected c.state
    then (if in_loop then shutdown_in_loop c' else queue shutdown_task c')
    else c

unfoldable pub handle_close : Connection → Run Connection
unfolding disable_read disable_write log
handle_close c = do
  assert (is_connected c.state || is_disconnecting c.state || is_disconnected c.state)
  let c' = record c { state = disconnected; channel = disable_read c.channel }
  ok (
      if c'.channel.writing
      then c'
      else log closed (record c' { channel = disable_write c'.channel }))

pub force_close : Connection → Connection
unfolding queue
force_close c =
    if is_connected c.state || is_disconnecting c.state
    then queue force_close_task (record c { state = disconnected })
    else c

pub force_close_in_loop : Connection → Run Connection
unfolding handle_close
force_close_in_loop c =
    if is_connected c.state || is_disconnecting c.state then handle_close c else ok c

-- `HandleRead` after the read; `none` is an error of `readv`, which is only logged.
unfoldable pub after_read : Option ℕ → Connection → Run Connection
unfolding log handle_close
after_read none c = ok c
after_read (some n) c = if ltb 0 n then ok (log message c) else handle_close c

unfoldable pub handle_read : Option (List ℕ) → Connection → Run Connection
unfolding after_read
handle_read got c = do (n, input) ← read_fd c.input got; after_read n (record c { input = input })

-- `HandleWrite` with nothing left: the socket is watched no more, and what waited for that is done.
all_written : Connection → Run Connection
unfolding tell_low shutdown_in_loop handle_close disable_write
all_written c =
    let off = tell_low 0 (record c { channel = disable_write c.channel }) in
    let shut = if is_disconnecting off.state then shutdown_in_loop off else off in
    if is_disconnected shut.state then handle_close shut else ok shut

-- `HandleWrite` once the kernel has taken `n` bytes of the output.
drain : ℕ → Connection → Run Connection
unfolding all_written
drain n c = do
  output ← release c.output n
  let c' = record c { output = output; sent = c.sent ++ read c.output.buffer c.output.read_index n }
  if readable_bytes output == 0 then all_written c' else ok c'

pub handle_write : Written → Connection → Run Connection
unfolding drain
handle_write w c =
    let got : Run Connection = elim w [
      | wrote n ↦ if ltb 0 n then drain n c else ok c
      | _ ↦ ok c
    ] in
    if c.channel.writing then got else ok c

-- The loop runs the oldest task.
pub run_task : Written → Connection → Task → Run Connection
unfolding send_in_loop shutdown_in_loop force_close_in_loop log
run_task w c (send_in_loop_task bytes) = send_in_loop w bytes c
run_task w c shutdown_task = ok (shutdown_in_loop c)
run_task w c force_close_task = force_close_in_loop c
run_task w c low_watermark_task = ok (log low_watermark c)

-- What the loop, the user and the owner do with a connection. The loop reports a descriptor
-- readable only while the channel asks for it.
pub data Call : Type 0 where
  establishes destroys forces force_close_timer : Call
  sends : Bool → Written → List ℕ → Call
  shuts : Bool → Call
  reads : Option (List ℕ) → Call
  writes : Written → Call
  runs : Written → Task → Call

unfoldable pub step : Call → Connection → Run Connection
step establishes c = establish c
step destroys c = destroy c
step forces c = ok (force_close c)
step force_close_timer c = force_close_in_loop c
step (sends in_loop w bytes) c = send in_loop w bytes c
step (shuts in_loop) c = ok (shutdown in_loop c)
step (reads got) c = if c.channel.reading then handle_read got c else ok c
step (writes w) c = handle_write w c
step (runs w t) c = run_task w c t

pub run : List Call → Connection → Run Connection
run [] c = ok c
run (k ∷ ks) c = step k c >>= run ks
