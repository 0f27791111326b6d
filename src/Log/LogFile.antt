-- ===== src/Log/LogFile.antt =====
-- windz/log/LogFile.{h,cpp}: a log that goes on in a new file when the file has grown too long or
-- the day has changed. The lock makes a call one step.
pub mod Rolls
mod Tests
use windz.Prelude.{
  ℕ, ◌+◌, ◌*◌, ◌/◌, ◌<◌, ◌≡◌, Bool, true, false, not, List, [], ◌∷◌, ◌++◌, ltb, ◌==◌, if◌then◌else◌,
  Option, none, some, Run, ok, fault, out_of_bounds, ◌>>=◌,
}
use windz.Prelude.Int.{ℤ, pos, sub_ℕ, ltb_ℤ, leb_ℤ}
use windz.Log.FileUtil.{AppendFile, new_append_file, off_t, append, flush}

abbrev pub roll_per_seconds : ℕ
roll_per_seconds = 60 * 60 * 24

-- `closed` are the files that were left, oldest first. Times are in seconds.
pub record LogFile : Type 0 where
  pub basename : List ℕ
  pub roll_size : ℤ
  pub flush_interval : ℤ
  pub check_every_n : ℤ
  pub count : ℕ
  pub start_of_day : ℕ
  pub last_roll : ℕ
  pub last_flush : ℕ
  pub file : Option AppendFile
  pub closed : List AppendFile

-- What a call finds: the two times that it asks for, and what is in the memory of a new file.
pub record Moment : Type 0 where
  pub now : ℕ
  pub roll_now : ℕ
  pub garbage : ℕ

abbrev pub day_of : ℕ → ℕ
day_of now = now / roll_per_seconds * roll_per_seconds

-- The old file, if there is one, is closed.
left : Option AppendFile → List AppendFile
left none = []
left (some f) = f ∷ []

-- The local time as `strftime` writes it, the process, and `fwrite_unlocked`.
module _ (timebuf : ℕ → List ℕ) (pidbuf : List ℕ) (fwrite : List ℕ → List ℕ → ℕ) where
  -- Between them, and at the end `.log`.
  abbrev pub make_log_file_name : List ℕ → ℕ → List ℕ
  make_log_file_name basename now = basename ++ timebuf now ++ pidbuf ++ 46 ∷ 108 ∷ 111 ∷ 103 ∷ []

  pub roll_file : Moment → LogFile → Bool × LogFile
  unfolding left
  roll_file m l =
      let now = m.roll_now in
      let rolled = record l {
        last_roll = now;
        last_flush = now;
        start_of_day = day_of now;
        file = some (new_append_file m.garbage (make_log_file_name l.basename now));
        closed = l.closed ++ left l.file;
      } in
      if ltb l.last_roll now then (true, rolled) else (false, l)

  pub new_log_file : List ℕ → ℤ → ℤ → ℤ → Moment → LogFile
  unfolding roll_file
  new_log_file basename roll_size flush_interval check_every_n m =
      (roll_file m (record {
        basename = basename;
        roll_size = roll_size;
        flush_interval = flush_interval;
        check_every_n = check_every_n;
        count = 0;
        start_of_day = 0;
        last_roll = 0;
        last_flush = 0;
        file = none;
        closed = [];
      })).1

  -- The check that is due after `check_every_n_` lines.
  check_time : Moment → AppendFile → LogFile → LogFile
  unfolding roll_file
  check_time m f l =
      if not (day_of m.now == l.start_of_day)
      then (roll_file m l).1
      else if leb_ℤ l.flush_interval (sub_ℕ m.now l.last_flush)
      then record l { last_flush = m.now; file = some (flush f) }
      else l

  -- `AppendUnlocked`. A null pointer is not followed in C++; here it is a fault.
  pub append_unlocked : Moment → List ℕ → LogFile → Run LogFile
  unfolding check_time
  append_unlocked m logline l =
      let next = λ (old : AppendFile).
        let f = append fwrite old logline in
        let l' = record l { file = some f } in
        if ltb_ℤ l.roll_size (off_t f.written_bytes)
        then (roll_file m l').1
        else if leb_ℤ l.check_every_n (pos (l.count + 1))
        then check_time m f (record l' { count = 0 })
        else record l' { count = l.count + 1 } in
      elim l.file [ none ↦ fault out_of_bounds | some old ↦ ok (next old) ]

  pub append_all : List (Moment × List ℕ) → LogFile → Run LogFile
  unfolding append_unlocked
  append_all [] l = ok l
  append_all ((m, logline) ∷ rest) l = append_unlocked m logline l >>= append_all rest

pub flush_file : LogFile → Run LogFile
flush_file l = elim l.file [
  | none ↦ fault out_of_bounds
  | some f ↦ ok (record l { file = some (flush f) })
]
