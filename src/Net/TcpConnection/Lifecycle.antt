-- ===== src/Net/TcpConnection/Lifecycle.antt =====
-- The states of a connection (windz/net/TcpConnection.cpp) and its single end.
use windz.Prelude.{
  ℕ, suc, Bool-cases, fault-ne-ok, Run-cases, ok-injective, ok_of_bind, inl, inr, ◌≢◌, take, ◌<◌,
  ◌+◌, ◌≤◌, ◌≡◌, refl, Bool, true, false, List, [], ◌∷◌, ◌++◌, if◌then◌else◌, ◌==◌, ◌⊎◌, Option,
  none, some, Run, ok, arith, length,
}
use windz.Net.Channel.{disable_write}
use windz.Net.Buffer.Copy.{read}
use windz.Net.Buffer.{add_size, sub_size, readable_bytes, release, read_fd, new_buffer, init_size}
use windz.Net.TcpConnection.{
  new_connection, Connection, Call, run, step, establishes, destroys, forces, force_close_timer,
  sends, shuts, reads, writes, runs, send_in_loop_task, shutdown_task, low_watermark_task,
  after_read, all_written, drain, tell_low, direct_write, raise_high, append_rest, finish_send,
  would_block, broken, other_error, State, connecting, connected, connection, message,
  low_watermark, high_watermark, disconnected, disconnecting, Task, Event, closed, Written, wrote,
  establish, destroy, send_in_loop, shutdown_in_loop, handle_close, force_close,
  force_close_in_loop, handle_read, handle_write, run_task, send, shutdown, is_disconnecting,
  force_close_task,
}

-- The order of a connection's life; no call goes back in it.
abbrev pub rank : State → ℕ
rank connecting = 0
rank connected = 1
rank disconnecting = 2
rank disconnected = 3

-- How often the owner was told that the connection is over.
abbrev pub closes : List Event → ℕ
closes [] = 0
closes (closed ∷ es) = suc (closes es)
closes (_ ∷ es) = closes es

pub closes-append : (es fs : List Event) → closes (es ++ fs) ≡ closes es + closes fs
closes-append [] fs = omega arith
closes-append (connection ∷ es) fs = closes-append es fs
closes-append (message ∷ es) fs = closes-append es fs
closes-append (low_watermark ∷ es) fs = closes-append es fs
closes-append (closed ∷ es) fs = omega (arith, closes-append es fs)
closes-append (high_watermark n ∷ es) fs = closes-append es fs

-- The owner was told at most once, and then the connection is over: disconnected, and watched for
-- nothing.
pub record EndsOnce (c : Connection) : Type 0 where
  pub once : closes c.events ≤ 1
  pub over :
      0 < closes c.events
      → (c.state ≡ disconnected) × (c.channel.reading ≡ false) × (c.channel.writing ≡ false)

pub EndsOnce-of_silent : (c : Connection) → c.events ≡ [] → EndsOnce c
EndsOnce-of_silent c silent = record {
  once = rw silent (omega arith);
  over = λ p. absurd (omega (arith, rw silent at p));
}

-- What a call does to the state and the end of a connection.
pub record Moves (c c' : Connection) : Type 0 where
  pub forward : rank c.state ≤ rank c'.state
  pub ends : EndsOnce c → EndsOnce c'
  pub grows : closes c.events ≤ closes c'.events

abbrev MovesTo : Connection → Run Connection → Type 0
MovesTo c r = (c' : Connection) → r ≡ ok c' → Moves c c'

pub establish-Moves : (c : Connection) → MovesTo c (establish c)
unfolding establish
establish-Moves c c' e = ground (arith, closes-append c.events (connection ∷ []))

pub destroy-Moves : (c : Connection) → MovesTo c (destroy c)
unfolding destroy
destroy-Moves c c' e = ground (arith, closes-append c.events (connection ∷ []))

-- A new connection has called nobody.
pub new_connection-silent : (c : Connection) → new_connection ≡ ok c → c.events ≡ []
unfolding new_connection
new_connection-silent c e =
    let (input, f, g) = ok_of_bind (new_buffer init_size) _ e in
    let (output, f', g') = ok_of_bind (new_buffer init_size) _ g in rw (← ok-injective g') refl

-- `EstablishConnection` and `DestroyConnection` tell the owner nothing.
pub establish-closes :
    (c c' : Connection) → establish c ≡ ok c' → closes c'.events ≡ closes c.events
unfolding establish
establish-closes c c' e = ground (arith, closes-append c.events (connection ∷ []))

pub destroy-closes : (c c' : Connection) → destroy c ≡ ok c' → closes c'.events ≡ closes c.events
unfolding destroy
destroy-closes c c' e = ground (arith, closes-append c.events (connection ∷ []))

-- `HandleClose` ends a connection, or leaves that to the last write.
record Closes (c c' : Connection) : Type 0 where
  state : c'.state ≡ disconnected
  reading : c'.channel.reading ≡ false
  told :
      ((closes c'.events ≡ closes c.events) × (c'.channel.writing ≡ true))
      ⊎ ((closes c'.events ≡ closes c.events + 1) × (c'.channel.writing ≡ false))

handle_close-Closes : (c c' : Connection) → handle_close c ≡ ok c' → Closes c c'
unfolding handle_close
handle_close-Closes c c' e = ground (arith, closes-append c.events (closed ∷ []))

-- The parts of a connection that its life stands in.
record SameLife (c c' : Connection) : Type 0 where
  state : c'.state ≡ c.state
  ends : closes c'.events ≡ closes c.events

tell_low-SameLife : (n : ℕ) (c : Connection) → SameLife c (tell_low n c)
unfolding tell_low
tell_low-SameLife n c = ground arith

direct_write-SameLife :
    (w : Written) (bytes : List ℕ) (c : Connection) → SameLife c (direct_write w bytes c).2
unfolding direct_write
direct_write-SameLife (wrote n) bytes c =
    let same =
      tell_low-SameLife (sub_size (length bytes) n) (record c { sent = c.sent ++ take n bytes }) in
    record { state = same.state; ends = same.ends }
direct_write-SameLife would_block bytes c = record { state = refl; ends = refl }
direct_write-SameLife broken bytes c = record { state = refl; ends = refl }
direct_write-SameLife other_error bytes c = record { state = refl; ends = refl }

raise_high-SameLife : (rest : List ℕ) (c : Connection) → SameLife c (raise_high rest c)
unfolding raise_high
raise_high-SameLife rest c = ground (
  arith,
  closes-append c.events (high_watermark (add_size (readable_bytes c.output) (length rest)) ∷ []),
)

append_rest-SameLife :
    (rest : List ℕ) (c c' : Connection) → append_rest rest c ≡ ok c' → SameLife c c'
unfolding append_rest
append_rest-SameLife rest c c' e = ground arith

finish_send-SameLife :
    (rest : List ℕ) (err : Bool) (c c' : Connection)
    → finish_send (rest, err, c) ≡ ok c'
    → SameLife c c'
unfolding finish_send
finish_send-SameLife rest err c c' e =
    ground (arith, raise_high-SameLife rest c, append_rest-SameLife rest (raise_high rest c) c')

-- On a connection that has not ended, such a call changes nothing of its life.
alive-Moves : {c c' : Connection} → c.state ≢ disconnected → SameLife c c' → Moves c c'
alive-Moves alive same = ground (arith, same)

send_in_loop-Moves :
    (w : Written) (bytes : List ℕ) (c : Connection) → MovesTo c (send_in_loop w bytes c)
unfolding send_in_loop
send_in_loop-Moves w bytes c c' e =
    let (rest, err, d) = direct_write w bytes c in
    let same = direct_write-SameLife w bytes c in
    ground (
      arith,
      same,
      finish_send-SameLife rest err d c',
      finish_send-SameLife bytes false c c',
      alive-Moves {c = c} {c' = c'},
    )

after_read-Moves :
    (n : Option ℕ) (c : Connection) → c.channel.reading ≡ true → MovesTo c (after_read n c)
unfolding after_read
after_read-Moves none c on c' e = ground arith
after_read-Moves (some n) c on c' e =
    ground (arith, closes-append c.events (message ∷ []), handle_close-Closes c c')

handle_read-Moves :
    (got : Option (List ℕ)) (c : Connection)
    → c.channel.reading ≡ true
    → MovesTo c (handle_read got c)
unfolding handle_read
handle_read-Moves got c on c' e = elim (Run-cases (read_fd c.input got)) [
  | inl ((n, input), f) ↦
      let m = after_read-Moves n (record c { input = input }) on c' (rw (f, handle_read) at e) in
      record {
        forward = m.forward;
        ends = λ v. m.ends (record { once = v.once; over = v.over });
        grows = m.grows;
      }
  | inr (fl, f) ↦ absurd (fault-ne-ok (rw (f, handle_read) at e))
]

-- What the end of the output does.
record Empties (c c' : Connection) : Type 0 where
  forward : rank c.state ≤ rank c'.state
  told :
      (closes c'.events ≡ closes c.events)
      ⊎ ((closes c'.events ≡ closes c.events + 1)
          × (c'.state ≡ disconnected)
          × (c'.channel.reading ≡ false)
          × (c'.channel.writing ≡ false))

all_written-Empties : (c c' : Connection) → all_written c ≡ ok c' → Empties c c'
unfolding all_written
all_written-Empties c c' e =
    let off = record c { channel = disable_write c.channel } in
    let low = tell_low 0 off in
    let shut = if is_disconnecting low.state then shutdown_in_loop low else low in
    ground (arith, tell_low-SameLife 0 off, handle_close-Closes shut c')

drain-Empties : (n : ℕ) (c c' : Connection) → drain n c ≡ ok c' → Empties c c'
unfolding drain
drain-Empties n c c' e = elim (Run-cases (release c.output n)) [
  | inl (b, f) ↦
      let gone = read c.output.buffer c.output.read_index n in
      let d = record c { output = b; sent = c.sent ++ gone } in
      let rest = rw (f, drain) at e in
      elim (Bool-cases (readable_bytes b == 0)) [
        | inl z ↦
            let m = all_written-Empties d c' (rw z at rest) in
            record { forward = m.forward; told = m.told }
        | inr z ↦ let same = rw z at rest in ground (arith, same)
      ]
  | inr (fl, f) ↦ absurd (fault-ne-ok (rw (f, drain) at e))
]

handle_write-Moves : (w : Written) (c : Connection) → MovesTo c (handle_write w c)
unfolding handle_write
handle_write-Moves (wrote n) c c' e = ground (arith, drain-Empties n c c')
handle_write-Moves would_block c c' e = ground arith
handle_write-Moves broken c c' e = ground arith
handle_write-Moves other_error c c' e = ground arith

force_close_in_loop-Moves : (c : Connection) → MovesTo c (force_close_in_loop c)
unfolding force_close_in_loop
force_close_in_loop-Moves c c' e = ground (arith, handle_close-Closes c c')

run_task-Moves : (w : Written) (c : Connection) (t : Task) → MovesTo c (run_task w c t)
unfolding run_task
run_task-Moves w c (send_in_loop_task bytes) c' e = send_in_loop-Moves w bytes c c' e
run_task-Moves w c shutdown_task c' e = ground arith
run_task-Moves w c force_close_task c' e = force_close_in_loop-Moves c c' e
run_task-Moves w c low_watermark_task c' e =
    ground (arith, closes-append c.events (low_watermark ∷ []))

if-Moves :
    (b : Bool) (c : Connection) (r : Run Connection)
    → (b ≡ true → MovesTo c r)
    → MovesTo c (if b then r else ok c)
if-Moves true c r m = m refl
if-Moves false c r m = λ c' e. ground arith

pub step-Moves : (k : Call) (c c' : Connection) → step k c ≡ ok c' → Moves c c'
unfolding step send shutdown force_close
step-Moves establishes c c' e = establish-Moves c c' e
step-Moves destroys c c' e = destroy-Moves c c' e
step-Moves forces c c' e = ground arith
step-Moves force_close_timer c c' e = force_close_in_loop-Moves c c' e
step-Moves (sends in_loop w bytes) c c' e = ground (arith, send_in_loop-Moves w bytes c c')
step-Moves (shuts in_loop) c c' e = ground arith
step-Moves (reads got) c c' e =
    if-Moves c.channel.reading c (handle_read got c) (handle_read-Moves got c) c' e
step-Moves (writes w) c c' e = handle_write-Moves w c c' e
step-Moves (runs w t) c c' e = run_task-Moves w c t c' e

-- However its calls are ordered, a connection goes only forwards in its life, from connecting over
-- connected and disconnecting to disconnected, and its owner is told of the end at most once, after
-- which it is disconnected and watched for nothing.
pub run-EndsOnce :
    (ks : List Call) (c c' : Connection)
    → run ks c ≡ ok c'
    → EndsOnce c
    → (rank c.state ≤ rank c'.state) × EndsOnce c'
unfolding run
run-EndsOnce [] c c' e v = ground arith
run-EndsOnce (k ∷ ks) c c' e v = elim (Run-cases (step k c)) [
  | inl (d, f) ↦
      let m = step-Moves k c d f in
      let (up, w) = run-EndsOnce ks d c' (rw (f, run) at e) (m.ends v) in
      (omega (arith, m.forward), w)
  | inr (fl, f) ↦ absurd (fault-ne-ok (rw (f, run) at e))
]

-- `Shutdown` tells the owner nothing.
pub shutdown-closes :
    (b : Bool) (c : Connection)
    → (closes (shutdown b c).events ≡ closes c.events) × (EndsOnce c → EndsOnce (shutdown b c))
unfolding shutdown step
shutdown-closes b c = (ground arith, λ v. (step-Moves (shuts b) c (shutdown b c) refl).ends v)
