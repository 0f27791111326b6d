-- ===== src/Util/Daemon/Tests.antt =====
-- windz/util/Daemon.cpp at concrete inputs.
use windz.Prelude.{
  ℕ, zero, suc, ◌≡◌, ◌⊎◌, refl, true, false, List, [], ◌∷◌, none, some, replicate, arith, set,
}
use windz.Prelude.Int.{ℤ, pos, ltb_ℤ}
use windz.Util.Daemon.{
  Machine, KillAnswer, delivered, no_process, probe, Answers, in_child, returned, Stale,
  get_pid_from_file, atoi, signed, read_digits, buffer_of, with_signal, answer, write_pid_file,
  finish, fork_twice, become_daemon, start, restart,
}
use windz.Util.Daemon.PidFile.{IsDecimal, get_pid_from_file-write_pid_file}
use windz.Util.Daemon.Stopping.{after}
use windz.Util.Daemon.Starting.{IsDaemon, start-IsDaemon, restart-fork_twice}

-- "42", whatever the number.
abbrev print_42 : ℕ → List ℕ
print_42 n = 52 ∷ 50 ∷ []

print_42-IsDecimal : IsDecimal 42 (print_42 42)
unfolding read_digits
print_42-IsDecimal = record {
  all_digits = (refl, (refl, tt));
  some_digit = omega arith;
  short = omega arith;
  value = refl;
}

abbrev clean : List ℕ
clean = replicate 16 0

-- A '7' behind the place of the second digit.
abbrev dirty : List ℕ
dirty = set clean 2 55

abbrev machine : Machine
machine = record {
  pid_file = none;
  signals = [];
  descriptors = 0;
  umask_cleared = false;
  session = false;
  null_stdio = false;
  unlink_at_exit = false;
}

abbrev running : Machine
running = record machine { pid_file = some (print_42 42) }

abbrev answers : Answers
answers = record {
  pid_opened = true;
  locked = true;
  writable = 2;
  own_pid = 42;
  parent_pid = 7;
  first_fork = in_child;
  second_fork = in_child;
  null_opened = true;
}

-- The process is gone after three signals.
abbrev kill_3 : ℕ → ℤ → KillAnswer
kill_3 zero pid = delivered
kill_3 (suc zero) pid = delivered
kill_3 (suc (suc zero)) pid = delivered
kill_3 (suc (suc (suc n))) pid = no_process

running-pid : get_pid_from_file clean running ≡ pos 42
unfolding get_pid_from_file buffer_of atoi signed read_digits
running-pid = refl

get_pid_from_file-write_pid_file_example :
    get_pid_from_file clean (write_pid_file print_42 answers machine).1 ≡ pos 42
get_pid_from_file-write_pid_file_example =
    get_pid_from_file-write_pid_file print_42 answers clean machine refl refl (omega arith)
      print_42-IsDecimal refl refl

some_pid : ltb_ℤ (pos 0) (get_pid_from_file clean running) ≡ true
some_pid = rw running-pid refl

abbrev started : Machine
started = record {
  pid_file = some (print_42 42);
  signals = [];
  descriptors = 0;
  umask_cleared = true;
  session = true;
  null_stdio = true;
  unlink_at_exit = true;
}

machine-start : start kill_3 print_42 answers clean machine ≡ (returned true, started)
unfolding start get_pid_from_file become_daemon fork_twice finish write_pid_file
machine-start = refl

start-IsDaemon_example :
    ((ltb_ℤ (pos 0) (get_pid_from_file clean machine) ≡ false)
      × IsDaemon print_42 answers machine started)
    ⊎ ((answer kill_3 (get_pid_from_file clean machine) machine ≡ no_process)
        × IsDaemon print_42 answers
            (with_signal (get_pid_from_file clean machine) probe machine)
            started)
start-IsDaemon_example = start-IsDaemon kill_3 print_42 answers clean machine started machine-start

abbrev stale : Stale
stale = record { at_restart = clean; at_stop = clean; at_start = clean }

restart-fork_twice_example :
    restart kill_3 print_42 answers stale running
    ≡ fork_twice print_42 answers (
        after 3 true
          (get_pid_from_file clean running)
          (with_signal (get_pid_from_file clean running) probe running))
restart-fork_twice_example =
    restart-fork_twice kill_3 print_42 answers stale running 2 some_pid refl (omega arith)
      (omega arith) (refl, (refl, (refl, tt))) (λ e. cc) (omega arith)
