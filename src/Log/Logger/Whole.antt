-- ===== src/Log/Logger/Whole.antt =====
-- The macros of windz/log/Logger.h: what the output is given.
use windz.Prelude.{
  ℕ, suc, ◌<◌, ◌≡◌, refl, sym, subst, ◌∙◌, Bool-cases, ◌||◌, if◌then◌else◌, ap, Returns-map, inl,
  inr, true, false, List, [], ◌∷◌, ◌++◌, length, ◌==◌, Option, Run, ok, ◌>>=◌, Returns, returns,
  Returns-bind, arith,
}
use windz.Prelude.Int.{ℤ, pos}
use windz.Log.LogStream.{FixBuffer, new_fix_buffer, small_buffer}
use windz.Log.Logger.{
  is_fatal, LogLevel, log_level_name, Item, string, put_all, Logger, Stamp, base_of, errno_items,
  func_items, time_length, format_time, new_logger, Globals, flush_if_fatal, tail_items, destruct,
  Macro, level_of, enabled, func_of, errno_of, Site, statement,
}
use windz.Log.Logger.Line.{
  append-AreSized, errno_items-AreSized, func_items-AreSized, errno_of-IsInteger, IsInteger,
  AreSized, AreTexts, room_all, put_all-Put, bind_assoc, put_all_then,
}

abbrev head_items : Stamp → LogLevel → Option (List ℕ) → ℤ → List Item
head_items m level func errno =
    (string m.timebuf ∷ [])
    ++ (string m.tid_str ∷ string (log_level_name level) ∷ [])
    ++ errno_items m errno
    ++ func_items func

-- All that a statement puts to its line.
abbrev pub line_items : Stamp → ℤ → Macro → Site → List Item → List Item
line_items m errno macro site items =
    head_items m (level_of macro) (func_of macro site.func) (errno_of macro errno)
    ++ (items ++ tail_items (base_of site.file) site.line)

-- What becomes of a line.
abbrev pub written : LogLevel → Globals → FixBuffer → Run Globals
written level g b = ok (flush_if_fatal level (record g { output = g.output ++ b.data_ ∷ [] }))

abbrev new_line : List ℕ → ℕ → LogLevel → FixBuffer → Run Logger
new_line filename line level b =
    ok (record { stream = b; filename = base_of filename; line = line; level = level })

new_logger-chain :
    (m : Stamp) (filename : List ℕ) (line : ℕ) (level : LogLevel) (func : Option (List ℕ)) (e : ℤ)
    → length m.timebuf ≡ time_length
    → new_logger m filename line level func e ≡ (
        put_all (head_items m level func e) (new_fix_buffer small_buffer)
        >>= new_line filename line level)
unfolding new_logger format_time
new_logger-chain m filename line level func e h =
    let timed : (length m.timebuf == time_length) ≡ true = ground (arith, h) in
    let k = new_line filename line level in
    let names = string m.tid_str ∷ string (log_level_name level) ∷ [] in
    let with_func : FixBuffer → Run Logger = λ b. put_all (func_items func) b >>= k in
    let with_errno : FixBuffer → Run Logger = λ b. put_all (errno_items m e) b >>= with_func in
    let with_names : FixBuffer → Run Logger = λ b. put_all names b >>= with_errno in
    rw timed (
      put_all_then (string m.timebuf ∷ []) (names ++ errno_items m e ++ func_items func)
        (new_fix_buffer small_buffer) with_names k
        λ b.
          put_all_then names (errno_items m e ++ func_items func) b with_errno k
            λ b. put_all_then (errno_items m e) (func_items func) b with_func k λ b. refl)

-- A macro that the level lets pass puts one chain of items to an empty stream: the time, the
-- thread, the level, the error, the function, what stands behind the macro, the file after its
-- last slash and the line.
statement-chain :
    (m : Stamp) (errno : ℤ) (macro : Macro) (site : Site) (items : List Item) (g : Globals)
    → length m.timebuf ≡ time_length
    → enabled macro g.log_level ≡ true
    → statement m errno macro site items g ≡ (
        put_all (line_items m errno macro site items) (new_fix_buffer small_buffer)
        >>= written (level_of macro) g)
unfolding statement destruct
statement-chain m errno macro site items g h on =
    let level = level_of macro in
    let head = head_items m level (func_of macro site.func) (errno_of macro errno) in
    let tail = tail_items (base_of site.file) site.line in
    let last : FixBuffer → Run Globals = λ b. put_all tail b >>= written level g in
    let rest : Logger → Run Globals =
      λ l. put_all items l.stream >>= λ b. destruct (record l { stream = b }) g in
    let body : FixBuffer → Run Globals = λ b. put_all items b >>= last in
    let start = new_fix_buffer small_buffer in
    rw
      (
        on,
        new_logger-chain m site.file site.line level (func_of macro site.func)
            (errno_of macro errno) h,
      )
      (sym
          (bind_assoc (put_all head start) (new_line site.file site.line level) rest body λ b. refl)
        ∙ put_all_then head (items ++ tail) start body (written level g)
            λ b. put_all_then items tail b last (written level g) λ b. refl)

-- What a line that is given to the output leaves.
pub record Logged (level : LogLevel) (g g' : Globals) : Type 0 where
  message : List ℕ
  sent : g'.output ≡ g.output ++ message ∷ []
  short : length message < small_buffer
  level_kept : g'.log_level ≡ g.log_level
  stops_if_fatal : g'.aborted ≡ (is_fatal level || g.aborted)
  flushed_if_fatal : g'.flushes ≡ (if is_fatal level then suc g.flushes else g.flushes)

line_items-AreSized :
    (m : Stamp) (errno : ℤ) (macro : Macro) (site : Site) (items : List Item)
    → AreSized items
    → IsInteger errno
    → IsInteger (pos site.line)
    → AreSized (line_items m errno macro site items)
line_items-AreSized m errno macro site items w e l =
    let e' = errno_of macro errno in
    let func = func_of macro site.func in
    append-AreSized (errno_items m e' ++ func_items func)
      (items ++ tail_items (base_of site.file) site.line)
      (append-AreSized (errno_items m e') (func_items func)
        (errno_items-AreSized m e' (errno_of-IsInteger macro errno e)) (func_items-AreSized func))
      (append-AreSized items (tail_items (base_of site.file) site.line) w (l, tt))

written-Logged :
    (level : LogLevel) (g : Globals) (b : FixBuffer)
    → length b.data_ < small_buffer
    → Returns (Logged level g) (written level g b)
unfolding flush_if_fatal
written-Logged level g b h = elim (Bool-cases (is_fatal level)) [
  | inl fatal ↦ rw fatal (
      returns (record {
        message = b.data_;
        sent = refl;
        short = h;
        level_kept = refl;
        stops_if_fatal = rw fatal refl;
        flushed_if_fatal = rw fatal refl;
      }))
  | inr harmless ↦ rw harmless (
      returns (record {
        message = b.data_;
        sent = refl;
        short = h;
        level_kept = refl;
        stops_if_fatal = rw harmless refl;
        flushed_if_fatal = rw harmless refl;
      }))
]

written-output :
    (level : LogLevel) (g : Globals) (b : FixBuffer)
    → Returns (λ (g' : Globals). g'.output ≡ g.output ++ b.data_ ∷ []) (written level g b)
unfolding flush_if_fatal
written-output level g b = elim (Bool-cases (is_fatal level)) [
  | inl fatal ↦ rw fatal (returns refl)
  | inr harmless ↦ rw harmless (returns refl)
]

-- A statement whose numbers have at most 20 digits returns, if the text of the time has 25
-- characters. One that the level does not let pass leaves everything as it is. Another gives the
-- output one line of fewer than 4000 characters, however much stands behind the macro, and then
-- flushes and aborts if its level is FATAL, and only then.
pub statement-Logged :
    (m : Stamp) (errno : ℤ) (macro : Macro) (site : Site) (items : List Item) (g : Globals)
    → length m.timebuf ≡ time_length
    → AreSized items
    → IsInteger errno
    → IsInteger (pos site.line)
    → (enabled macro g.log_level ≡ false → statement m errno macro site items g ≡ ok g)
      × (enabled macro g.log_level ≡ true
          → Returns (Logged (level_of macro) g) (statement m errno macro site items g))
unfolding statement new_fix_buffer
statement-Logged m errno macro site items g h w e l = (
  (λ off. rw off refl),
  (λ on. subst (Returns _) (sym (statement-chain m errno macro site items g h on)) (
      Returns-bind
        (put_all-Put (line_items m errno macro site items) (new_fix_buffer small_buffer)
          (line_items-AreSized m errno macro site items w e l) (omega arith))
        λ b p. written-Logged (level_of macro) g b (omega (arith, p.inside, p.same_size)))),
)

-- A statement that the level lets pass, whose numbers have at most 20 digits and whose items need
-- fewer than 4000 characters, with 32 for a number, gives the output one line more, and that is
-- the texts of all of its items, one after the other, each number as a text that reads as it.
pub statement-AreTexts :
    (m : Stamp) (errno : ℤ) (macro : Macro) (site : Site) (items : List Item) (g : Globals)
    → length m.timebuf ≡ time_length
    → AreSized items
    → IsInteger errno
    → IsInteger (pos site.line)
    → enabled macro g.log_level ≡ true
    → room_all (line_items m errno macro site items) < small_buffer
    → Returns
        (λ (g' : Globals).
          (message : List ℕ) × AreTexts (line_items m errno macro site items) message
          × (g'.output ≡ g.output ++ message ∷ []))
        (statement m errno macro site items g)
unfolding new_fix_buffer
statement-AreTexts m errno macro site items g h w e l on r =
    subst (Returns _) (sym (statement-chain m errno macro site items g h on)) (
      Returns-bind
        (put_all-Put (line_items m errno macro site items) (new_fix_buffer small_buffer)
          (line_items-AreSized m errno macro site items w e l) (omega arith))
        λ b p.
          let t = p.text (omega (arith, r)) in
          Returns-map (written-output (level_of macro) g b)
            λ g' same. (t.0, t.1, same ∙ ap (λ d. g.output ++ d ∷ []) t.2))
