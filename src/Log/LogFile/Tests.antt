-- ===== src/Log/LogFile/Tests.antt =====
-- windz/log/LogFile.cpp at concrete inputs.
use windz.Prelude.{
  ℕ, refl, List, [], ◌∷◌, length, ok, Option, some, Run, ◌>>=◌, arith, Returns, map, min,
}
use windz.Prelude.Int.{pos}
use windz.Log.FileUtil.{AppendFile, append, append_loop, new_append_file}
use windz.Log.LogFile.{
  LogFile, Moment, new_log_file, append_all, append_unlocked, check_time, roll_file, left,
}
use windz.Log.LogFile.Rolls.{IsLog, append_all-IsLog, new_log_file-IsLog}

-- A stream that takes two bytes at a time.
abbrev two_at_most : List ℕ → List ℕ → ℕ
two_at_most taken line = min 2 (length line)

abbrev times : ℕ → List ℕ
times now = now ∷ []

abbrev at : ℕ → Moment
at now = record { now = now; roll_now = now; garbage = 0 }

abbrev fresh : LogFile
fresh = new_log_file times [] two_at_most (119 ∷ []) (pos 4) (pos 3) (pos 2) (at 100)

abbrev some_calls : List (Moment × List ℕ)
some_calls = (at 100, 1 ∷ 2 ∷ 3 ∷ 10 ∷ []) ∷ (at 101, 4 ∷ 5 ∷ 10 ∷ []) ∷ (at 101, 6 ∷ 10 ∷ []) ∷ []

abbrev files : LogFile → List (List ℕ) × ℕ × Option AppendFile
files l = (map (λ (f : AppendFile). f.taken) l.closed, l.last_roll, l.file)

-- The second line makes the file too long, so that the third begins a new one.
fresh-append_all :
    Path
      (Run (List (List ℕ) × ℕ × Option AppendFile))
      (append_all times [] two_at_most some_calls fresh >>= λ l. ok (files l))
      (ok (
        (1 ∷ 2 ∷ 3 ∷ 10 ∷ 4 ∷ 5 ∷ 10 ∷ []) ∷ [],
        101,
        some (record {
          filename = 119 ∷ 101 ∷ 46 ∷ 108 ∷ 111 ∷ 103 ∷ [];
          taken = 6 ∷ 10 ∷ [];
          flushed = 0;
          written_bytes = 2;
        }),
      ))
unfolding append_all append_unlocked check_time roll_file left new_log_file append append_loop
    new_append_file
fresh-append_all = refl

append_all-IsLog_example :
    Returns
      (IsLog times [] two_at_most ((1 ∷ 2 ∷ 3 ∷ 10 ∷ []) ∷ (4 ∷ 5 ∷ 10 ∷ []) ∷ (6 ∷ 10 ∷ []) ∷ []))
      (append_all times [] two_at_most some_calls fresh)
append_all-IsLog_example =
    append_all-IsLog times [] two_at_most (λ taken line h. (omega arith, omega arith)) some_calls
      fresh
      (new_log_file-IsLog times [] two_at_most (119 ∷ []) (pos 4) (pos 3) (pos 2) (at 100)
        (omega arith))
