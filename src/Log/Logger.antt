-- ===== src/Log/Logger.antt =====
-- windz/log/Logger.{h,cpp}: a statement of the log. A Logger puts the head of the line to its
-- stream, the statement what stands behind the macro, and the destructor the rest, and gives the
-- line to the output. The texts of the clock, the thread id and the error are arguments.
pub mod Line
pub mod Whole
mod Tests
use windz.Prelude.{
  ℕ, suc, ◌+◌, Bool, true, false, not, List, [], ◌∷◌, ◌++◌, length, leb, ◌==◌, if◌then◌else◌,
  Option, none, some, Run, ok, ◌>>=◌, ◌>>◌, assert,
}
use windz.Prelude.Int.{ℤ, pos, eqb_ℤ}
use windz.Log.LogStream.{
  FixBuffer, new_fix_buffer, small_buffer, format_integer, format_char, format_string,
}

pub data LogLevel : Type 0 where
  trace debug info warn error fatal : LogLevel

pub severity : LogLevel → ℕ
severity trace = 0
severity debug = 1
severity info = 2
severity warn = 3
severity error = 4
severity fatal = 5

-- `LogLevelName`: "TRACE ", "DEBUG ", "INFO  ", "WARN  ", "ERROR ", "FATAL ".
abbrev pub log_level_name : LogLevel → List ℕ
log_level_name trace = 84 ∷ 82 ∷ 65 ∷ 67 ∷ 69 ∷ 32 ∷ []
log_level_name debug = 68 ∷ 69 ∷ 66 ∷ 85 ∷ 71 ∷ 32 ∷ []
log_level_name info = 73 ∷ 78 ∷ 70 ∷ 79 ∷ 32 ∷ 32 ∷ []
log_level_name warn = 87 ∷ 65 ∷ 82 ∷ 78 ∷ 32 ∷ 32 ∷ []
log_level_name error = 69 ∷ 82 ∷ 82 ∷ 79 ∷ 82 ∷ 32 ∷ []
log_level_name fatal = 70 ∷ 65 ∷ 84 ∷ 65 ∷ 76 ∷ 32 ∷ []

-- What stands behind a `<<`.
pub data Item : Type 0 where
  number : ℤ → Item
  char : ℕ → Item
  string : List ℕ → Item

pub put : Item → FixBuffer → Run FixBuffer
unfolding format_char format_string
put (number v) b = format_integer v b
put (char c) b = ok (format_char c b)
put (string s) b = ok (format_string s b)

-- A chain of `<<`.
pub put_all : List Item → FixBuffer → Run FixBuffer
put_all [] b = ok b
put_all (i ∷ is) b = put i b >>= λ b. put_all is b

pub record Logger : Type 0 where
  pub stream : FixBuffer
  pub filename : List ℕ
  pub line : ℕ
  pub level : LogLevel

-- What the thread and the system give to a line.
pub record Stamp : Type 0 where
  pub timebuf : List ℕ
  pub tid_str : List ℕ
  pub strerror : ℤ → List ℕ

-- `strrchr(filename, '/')`, and what follows it.
pub after_slash : List ℕ → Option (List ℕ)
after_slash [] = none
after_slash (c ∷ cs) = elim (after_slash cs) [
  | none ↦ if c == 47 then some cs else none
  | some p ↦ some p
]

unfoldable pub base_of : List ℕ → List ℕ
unfolding after_slash
base_of filename = elim (after_slash filename) [ none ↦ filename | some p ↦ p ]

-- " (errno=" and ") "
abbrev pub errno_items : Stamp → ℤ → List Item
errno_items m saved_errno =
    if eqb_ℤ saved_errno (pos 0)
    then []
    else string (m.strerror saved_errno)
      ∷ string (32 ∷ 40 ∷ 101 ∷ 114 ∷ 114 ∷ 110 ∷ 111 ∷ 61 ∷ [])
      ∷ number saved_errno
      ∷ string (41 ∷ 32 ∷ [])
      ∷ []

abbrev pub func_items : Option (List ℕ) → List Item
func_items none = []
func_items (some f) = string f ∷ string (32 ∷ []) ∷ []

abbrev pub time_length : ℕ
time_length = 25

pub format_time : Stamp → FixBuffer → Run FixBuffer
unfolding put_all put
format_time m b = do assert (length m.timebuf == time_length); put_all (string m.timebuf ∷ []) b

pub new_logger : Stamp → List ℕ → ℕ → LogLevel → Option (List ℕ) → ℤ → Run Logger
unfolding new_fix_buffer format_time put_all put
new_logger m filename line level func saved_errno = do
  b ← format_time m (new_fix_buffer small_buffer)
  b ← put_all (string m.tid_str ∷ string (log_level_name level) ∷ []) b
  b ← put_all (errno_items m saved_errno) b
  b ← put_all (func_items func) b
  ok (record { stream = b; filename = base_of filename; line = line; level = level })

-- `g_loglevel`, and what `g_output` was given, how often `g_flush` was called, and whether `abort`
-- was.
pub record Globals : Type 0 where
  pub log_level : LogLevel
  pub output : List (List ℕ)
  pub flushes : ℕ
  pub aborted : Bool

unfoldable pub set_level : LogLevel → Globals → Globals
set_level level g = record g { log_level = level }

abbrev pub is_fatal : LogLevel → Bool
is_fatal level = severity level == 5

unfoldable pub flush_if_fatal : LogLevel → Globals → Globals
unfolding severity
flush_if_fatal level g =
    if is_fatal level then record g { flushes = suc g.flushes; aborted = true } else g

-- " - ", the file, ':', the line and '\n'
abbrev pub tail_items : List ℕ → ℕ → List Item
tail_items filename line =
    string (32 ∷ 45 ∷ 32 ∷ []) ∷ string filename ∷ char 58 ∷ number (pos line) ∷ char 10 ∷ []

-- The destructor.
pub destruct : Logger → Globals → Run Globals
unfolding put_all put flush_if_fatal
destruct l g = do
  b ← put_all (tail_items l.filename l.line) l.stream
  ok (flush_if_fatal l.level (record g { output = g.output ++ b.data_ ∷ [] }))

-- The macros.
pub data Macro : Type 0 where
  log_trace log_debug log_info log_warn log_error log_fatal log_syserr log_sysfatal : Macro

pub level_of : Macro → LogLevel
level_of log_trace = trace
level_of log_debug = debug
level_of log_info = info
level_of log_warn = warn
level_of log_error = error
level_of log_fatal = fatal
level_of log_syserr = error
level_of log_sysfatal = fatal

-- `if (Level() <= ...)`, which the macros up to LOG_INFO have.
pub enabled : Macro → LogLevel → Bool
unfolding level_of severity
enabled m level =
    if leb (severity (level_of m)) 2 then leb (severity level) (severity (level_of m)) else true

-- `__func__`, which the same macros pass.
pub func_of : Macro → List ℕ → Option (List ℕ)
unfolding level_of severity
func_of m func = if leb (severity (level_of m)) 2 then some func else none

pub errno_of : Macro → ℤ → ℤ
errno_of log_syserr errno = errno
errno_of log_sysfatal errno = errno
errno_of _ errno = pos 0

-- Where a statement stands.
pub record Site : Type 0 where
  pub file : List ℕ
  pub line : ℕ
  pub func : List ℕ

-- The statement: the macro and the items behind it.
pub statement : Stamp → ℤ → Macro → Site → List Item → Globals → Run Globals
unfolding enabled new_logger put_all put destruct level_of func_of errno_of
statement m errno macro site items g =
    let logged = do
      l ←
          new_logger m site.file site.line (level_of macro) (func_of macro site.func)
            (errno_of macro errno)
      b ← put_all items l.stream
      destruct (record l { stream = b }) g
    in if enabled macro g.log_level then logged else ok g
