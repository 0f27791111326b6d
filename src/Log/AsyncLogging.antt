-- ===== src/Log/AsyncLogging.antt =====
-- windz/log/AsyncLogging.{h,cpp}: log lines gathered in buffers that a thread of its own writes to
-- the file. A call of `Append` and the exchange of the buffers are steps under the lock; the rest
-- of a round of the thread touches only what is the thread's own.
pub mod Lossless
mod Tests
use windz.Prelude.{
  ℕ, zero, suc, ◌+◌, ◌-◌, ◌≤◌, ◌<◌, ◌≡◌, Bool, true, false, not, List, [], ◌∷◌, ◌++◌, length, take,
  ltb, leb, ◌==◌, if◌then◌else◌, Option, none, some, Run, ok, fault, assertion, ◌>>=◌, ◌>>◌, assert,
}
use windz.Log.LogStream.{
  FixBuffer, new_fix_buffer, large_buffer, avail, append, reset, buffer_length,
}

-- `spare_1` and `spare_2` are the thread's `new_buffer1` and `new_buffer2`; a null pointer is
-- `none`. `written` is what went to the file.
pub record AsyncLogging : Type 0 where
  pub running : Bool
  pub current : FixBuffer
  pub next : Option FixBuffer
  pub buffers : List FixBuffer
  pub spare_1 : Option FixBuffer
  pub spare_2 : Option FixBuffer
  pub written : List ℕ

pub new_logging : AsyncLogging
unfolding new_fix_buffer
new_logging = record {
  running = false;
  current = new_fix_buffer large_buffer;
  next = some (new_fix_buffer large_buffer);
  buffers = [];
  spare_1 = none;
  spare_2 = none;
  written = [];
}

-- `Start`, and what the thread does before its first round.
pub start : AsyncLogging → AsyncLogging
unfolding new_fix_buffer
start s = record s {
  running = true;
  spare_1 = some (new_fix_buffer large_buffer);
  spare_2 = some (new_fix_buffer large_buffer);
}

-- `Stop`: the thread ends before its next round, and then only flushes the file.
pub stop : AsyncLogging → AsyncLogging
stop s = record s { running = false }

abbrev pub or_new : Option FixBuffer → FixBuffer
or_new (some b) = b
or_new none = record { size = large_buffer; data_ = [] }

pub append_line : List ℕ → AsyncLogging → AsyncLogging
unfolding append
append_line line s =
    if ltb (length line) (avail s.current)
    then record s { current = append line s.current }
    else record s {
      buffers = s.buffers ++ s.current ∷ [];
      current = append line (or_new s.next);
      next = none;
    }

abbrev pub is_empty : Option FixBuffer → Bool
is_empty none = false
is_empty (some b) = buffer_length b == 0

abbrev pub is_null : Option FixBuffer → Bool
is_null none = true
is_null (some b) = false

-- The texts of buffers, in order.
abbrev pub texts : List FixBuffer → List ℕ
texts [] = []
texts (b ∷ bs) = b.data_ ++ texts bs

-- The exchange under the lock; a buffer that was moved from is null. It gives the buffers to write.
pub exchange : AsyncLogging → List FixBuffer × AsyncLogging
exchange s = (
  s.buffers ++ s.current ∷ [],
  record s {
    buffers = [];
    current = or_new s.spare_1;
    spare_1 = none;
    next = if is_null s.next then s.spare_2 else s.next;
    spare_2 = if is_null s.next then none else s.spare_2;
  },
)

-- The last buffer, and those before it.
pub pop_back : List FixBuffer → Option (List FixBuffer × FixBuffer)
pop_back [] = none
pop_back (b ∷ bs) = elim (pop_back bs) [ none ↦ some ([], b) | some (cs, c) ↦ some (b ∷ cs, c) ]

-- A spare buffer that was given away is replaced by the last of those that were written.
pub refill : Option FixBuffer → List FixBuffer → Run (Option FixBuffer × List FixBuffer)
unfolding pop_back reset
refill (some b) bs = ok (some b, bs)
refill none bs = elim (pop_back bs) [
  | none ↦ fault assertion
  | some (cs, c) ↦ ok (some (reset c), cs)
]

-- More than 25 buffers are cut to two, and a notice, the text of `snprintf`, is written first.
abbrev pub limit : ℕ
limit = 25

module _ (notice : ℕ → List ℕ) where
  pub overload : List FixBuffer → List ℕ × List FixBuffer
  overload bs = if ltb limit (length bs) then (notice (length bs - 2), take 2 bs) else ([], bs)

  -- A round of `ThreadFunc`.
  pub thread_round : AsyncLogging → Run AsyncLogging
  thread_round s = do
    assert (is_empty s.spare_1)
    assert (is_empty s.spare_2)
    let (all, t) = exchange s
    let (text, bs) = overload all
    let kept = if ltb 2 (length bs) then take 2 bs else bs
    (spare_1, ks) ← refill t.spare_1 kept
    (spare_2, ls) ← refill t.spare_2 ks
    ok (record t { spare_1 = spare_1; spare_2 = spare_2; written = t.written ++ text ++ texts bs })

  pub thread_func : ℕ → AsyncLogging → Run AsyncLogging
  unfolding thread_round
  thread_func zero s = ok s
  thread_func (suc n) s =
      let go = thread_round s >>= thread_func n in if s.running then go else ok s
