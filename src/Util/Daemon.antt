-- ===== src/Util/Daemon.antt =====
-- windz/util/Daemon.cpp: a process that is told by its pid file. Files, signals and forks are those
-- of the system, whose answers are parameters: `kill` by the number of signals with_signal before, the
-- others in a record. Characters are their codes. What is printed to stderr is left out.
pub mod PidFile
pub mod Stopping
pub mod Starting
mod Tests
use windz.Prelude.{
  ℕ, zero, suc, ◌+◌, ◌-◌, ◌*◌, Bool, true, false, ◌&&◌, ◌||◌, List, [], ◌∷◌, ◌++◌, length, take,
  drop, set, leb, ltb, ◌==◌, if◌then◌else◌, Option, none, some,
}
use windz.Prelude.Int.{ℤ, pos, sub_ℕ, ltb_ℤ}
use windz.Util.Config.Chars.{eq_text, is_space}

pub data KillAnswer : Type 0 where
  delivered not_permitted no_process : KillAnswer

-- `kill(pid, 0)` only asks.
pub data Signal : Type 0 where
  probe sigquit : Signal

-- `pid_file` is what the file holds, `none` if it cannot be opened; `descriptors` are those that
-- were opened and not closed.
pub record Machine : Type 0 where
  pub pid_file : Option (List ℕ)
  pub signals : List (ℤ × Signal)
  pub descriptors : ℕ
  pub umask_cleared : Bool
  pub session : Bool
  pub null_stdio : Bool
  pub unlink_at_exit : Bool

-- `isdigit`
abbrev pub is_digit : ℕ → Bool
is_digit c = leb 48 c && leb c 57

pub read_digits : ℕ → List ℕ → ℕ
read_digits n [] = n
read_digits n (c ∷ cs) = elim (is_digit c) [ true ↦ read_digits (n * 10 + (c - 48)) cs | false ↦ n ]

-- `atoi` of the characters up to the '\0'.
pub signed : List ℕ → ℤ
unfolding read_digits
signed [] = pos 0
signed (c ∷ cs) =
    if c == 45
    then sub_ℕ 0 (read_digits 0 cs)
    else if c == 43
    then pos (read_digits 0 cs)
    else pos (read_digits 0 (c ∷ cs))

pub atoi : List ℕ → ℤ
unfolding signed
atoi [] = pos 0
atoi (c ∷ cs) = elim (is_space c) [ true ↦ atoi cs | false ↦ signed (c ∷ cs) ]

-- `char buf[16]` with what was on the stack, and the bytes that `read` puts to its front.
abbrev pub buf_size : ℕ
buf_size = 16

pub buffer_of : List ℕ → List ℕ → List ℕ
buffer_of stale file = set (take buf_size file ++ drop (length (take buf_size file)) stale) 15 0

abbrev pub no_pid : ℤ
no_pid = sub_ℕ 0 1

-- `GetPidFromFile`, with what its array held before.
pub get_pid_from_file : List ℕ → Machine → ℤ
unfolding buffer_of atoi
get_pid_from_file stale m = elim m.pid_file [
  | none ↦ no_pid
  | some [] ↦ no_pid
  | some (c ∷ cs) ↦ atoi (buffer_of stale (c ∷ cs))
]

-- What `open`, `lockf` and `write` answer for the pid file, and the others for the process.
pub data ForkAnswer : Type 0 where
  fork_failed in_parent in_child : ForkAnswer

pub record Answers : Type 0 where
  pub pid_opened : Bool
  pub locked : Bool
  pub writable : ℕ
  pub own_pid : ℕ
  pub parent_pid : ℕ
  pub first_fork : ForkAnswer
  pub second_fork : ForkAnswer
  pub null_opened : Bool

-- A call that returns, or a process that exits.
pub data Ended : Type 0 where
  returned : Bool → Ended
  exited : ℕ → Ended

-- What the arrays of the calls of `GetPidFromFile` held.
pub record Stale : Type 0 where
  pub at_restart : List ℕ
  pub at_stop : List ℕ
  pub at_start : List ℕ

-- "start", "stop" and "restart"
abbrev pub start_text : List ℕ
start_text = 115 ∷ 116 ∷ 97 ∷ 114 ∷ 116 ∷ []

abbrev pub stop_text : List ℕ
stop_text = 115 ∷ 116 ∷ 111 ∷ 112 ∷ []

abbrev pub restart_text : List ℕ
restart_text = 114 ∷ 101 ∷ start_text

-- What follows a call that returned true; otherwise `exit(1)`.
abbrev pub exit_unless : Ended × Machine → Option ℕ × Machine
exit_unless (returned true, m) = (none, m)
exit_unless (returned false, m) = (some 1, m)
exit_unless (exited code, m) = (some code, m)

abbrev pub exit_always : Ended × Machine → Option ℕ × Machine
exit_always (returned true, m) = (some 0, m)
exit_always (returned false, m) = (some 1, m)
exit_always (exited code, m) = (some code, m)

abbrev pub with_signal : ℤ → Signal → Machine → Machine
with_signal pid s m = record m { signals = m.signals ++ (pid, s) ∷ [] }

abbrev pub exists : KillAnswer → Bool
exists delivered = true
exists not_permitted = true
exists no_process = false

abbrev pub stop_rounds : ℕ
stop_rounds = 500

module _ (snprintf_d : ℕ → List ℕ) where
  -- `WritePidFile`. The file is empty once it is opened, and it is not closed if the lock fails.
  pub write_pid_file : Answers → Machine → Bool × Machine
  write_pid_file a m =
      let text = snprintf_d a.own_pid in
      if a.pid_opened
      then if a.locked
        then (leb (length text) a.writable, record m { pid_file = some (take a.writable text) })
        else (false, record m { pid_file = some []; descriptors = suc m.descriptors })
      else (false, m)

  -- The end of `Start`: the pid file, and /dev/null for the standard streams, if the descriptors 0 to 2
  -- were open before, so that the one that is closed at the end is another.
  pub finish : Answers → Machine → Ended × Machine
  unfolding write_pid_file
  finish a m =
      let (written, m') = write_pid_file a m in
      if written
      then if a.null_opened
        then (returned true, record m' { null_stdio = true; unlink_at_exit = true })
        else (returned false, m')
      else (returned false, m')

  pub fork_twice : Answers → Machine → Ended × Machine
  unfolding finish
  fork_twice a m = elim a.first_fork [
    | fork_failed ↦ (returned false, record m { umask_cleared = true })
    | in_parent ↦ (exited 0, record m { umask_cleared = true })
    | in_child ↦ elim a.second_fork [
      | fork_failed ↦ (returned false, record m { umask_cleared = true; session = true })
      | in_parent ↦ (exited 0, record m { umask_cleared = true; session = true })
      | in_child ↦ finish a (record m { umask_cleared = true; session = true })
    ]
  ]

  -- The part of `Start` behind the test of the pid file.
  pub become_daemon : Answers → Machine → Ended × Machine
  unfolding fork_twice
  become_daemon a m = if a.parent_pid == 1 then (returned false, m) else fork_twice a m

module _ (kill : ℕ → ℤ → KillAnswer) where
  -- The next answer to `kill`.
  abbrev pub answer : ℤ → Machine → KillAnswer
  answer pid m = kill (length m.signals) pid

  -- The loop of `Stop`, of 500 rounds.
  pub stop_loop : ℕ → ℤ → Machine → Ended × Machine
  stop_loop zero pid m = (returned false, m)
  stop_loop (suc rounds) pid m = elim (kill (length m.signals) pid) [
    | delivered ↦ stop_loop rounds pid (with_signal pid sigquit m)
    | not_permitted ↦
        (returned true, record m { signals = m.signals ++ (pid, sigquit) ∷ []; pid_file = none })
    | no_process ↦
        (returned true, record m { signals = m.signals ++ (pid, sigquit) ∷ []; pid_file = none })
  ]

  pub stop : List ℕ → Machine → Ended × Machine
  unfolding get_pid_from_file stop_loop
  stop stale m =
      let pid = get_pid_from_file stale m in
      if ltb_ℤ (pos 0) pid
      then elim (answer pid m) [
        | delivered ↦ stop_loop stop_rounds pid (with_signal pid sigquit m)
        | not_permitted ↦ (returned false, with_signal pid sigquit m)
        | no_process ↦ (returned false, with_signal pid sigquit m)
      ]
      else (returned false, m)

module _ (kill : ℕ → ℤ → KillAnswer) (snprintf_d : ℕ → List ℕ) where
  pub start : Answers → List ℕ → Machine → Ended × Machine
  unfolding get_pid_from_file become_daemon
  start a stale m =
      let pid = get_pid_from_file stale m in
      if ltb_ℤ (pos 0) pid
      then if exists (answer kill pid m)
        then (returned false, with_signal pid probe m)
        else become_daemon snprintf_d a (with_signal pid probe m)
      else become_daemon snprintf_d a m

  -- What `Restart` does after `Stop`.
  pub start_if_stopped : Answers → List ℕ → Ended × Machine → Ended × Machine
  unfolding start
  start_if_stopped a stale (returned true, m) = start a stale m
  start_if_stopped a stale (returned false, m) = (returned false, m)
  start_if_stopped a stale (exited code, m) = (exited code, m)

  pub restart : Answers → Stale → Machine → Ended × Machine
  unfolding get_pid_from_file start stop start_if_stopped
  restart a stale m =
      let pid = get_pid_from_file stale.at_restart m in
      if ltb_ℤ (pos 0) pid
      then elim (answer kill pid m) [
        | delivered ↦
            start_if_stopped a stale.at_start (stop kill stale.at_stop (with_signal pid probe m))
        | not_permitted ↦ (returned false, with_signal pid probe m)
        | no_process ↦ start a stale.at_start (with_signal pid probe m)
      ]
      else start a stale.at_start m

  -- `Process` for the command of the command line; the code it exits with, if it does.
  pub process : Answers → Stale → Option (List ℕ) → Machine → Option ℕ × Machine
  unfolding start stop restart
  process a stale none m = exit_unless (start a stale.at_start m)
  process a stale (some cmd) m =
      if eq_text cmd start_text
      then exit_unless (start a stale.at_start m)
      else if eq_text cmd stop_text
      then exit_always (stop kill stale.at_stop m)
      else if eq_text cmd restart_text
      then exit_unless (restart a stale m)
      else (some 1, m)
