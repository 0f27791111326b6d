-- ===== src/Log/FileUtil.antt =====
-- windz/log/FileUtil.{h,cpp}: a file that lines are appended to. How many bytes `fwrite_unlocked`
-- takes is a parameter, a function of what the stream has taken before and of what it is given.
pub mod Appending
use windz.Prelude.{
  ℕ, zero, suc, ◌+◌, ◌-◌, ◌%◌, ◌^◌, ◌≤◌, ◌<◌, List, [], ◌∷◌, ◌++◌, length, take, drop, ltb, ◌==◌,
  if◌then◌else◌,
}
use windz.Prelude.Int.{ℤ, pos, negsuc}

-- `taken` is what the stream has taken, and `flushed` how much of it has been flushed. An `off_t`
-- is kept as its pattern of 64 bits.
pub record AppendFile : Type 0 where
  pub filename : List ℕ
  pub taken : List ℕ
  pub flushed : ℕ
  pub written_bytes : ℕ

-- The constructor sets the stream only: `written_bytes_` is what was in the memory.
unfoldable pub new_append_file : ℕ → List ℕ → AppendFile
new_append_file garbage filename = record {
  filename = filename;
  taken = [];
  flushed = 0;
  written_bytes = garbage;
}

-- `written_byte`, a signed number.
abbrev pub off_t : ℕ → ℤ
off_t n = if ltb n (2 ^ 63) then pos n else negsuc (2 ^ 64 - 1 - n)

module _ (fwrite : List ℕ → List ℕ → ℕ) where
  -- The loop of `Append`: the stream after it. The fuel is the number of bytes that are left.
  unfoldable pub append_loop : ℕ → List ℕ → List ℕ → List ℕ
  append_loop zero remain taken = taken
  append_loop (suc fuel) remain taken =
      let n = fwrite taken remain in
      let rest = append_loop fuel (drop n remain) (taken ++ take n remain) in
      if length remain == 0 then taken else if n == 0 then taken else rest

  unfoldable pub append : AppendFile → List ℕ → AppendFile
  unfolding append_loop
  append f logline =
      let nwriten = fwrite f.taken logline in
      record f {
        taken =
            append_loop (length logline) (drop nwriten logline) (f.taken ++ take nwriten logline);
        written_bytes = (f.written_bytes + length logline) % 2 ^ 64;
      }

unfoldable pub flush : AppendFile → AppendFile
flush f = record f { flushed = length f.taken }
