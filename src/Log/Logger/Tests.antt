-- ===== src/Log/Logger/Tests.antt =====
-- windz/log/Logger.cpp at concrete inputs.
use windz.Prelude.{◌<◌, ℕ, ◌≡◌, refl, true, false, List, [], ◌∷◌, ok, Returns, arith}
use windz.Prelude.Int.{pos}
use windz.Log.LogStream.{small_buffer}
use windz.Log.Logger.{
  LogLevel, Item, number, string, Stamp, base_of, Globals, Macro, level_of, errno_of, func_of,
  enabled, Site, statement,
}
use windz.Log.Logger.Line.{AreTexts, room_all}
use windz.Log.Logger.Whole.{statement-AreTexts, line_items, Logged, statement-Logged}

abbrev moment : Stamp
moment = record {
  timebuf =
      50 ∷ 48 ∷ 50 ∷ 49 ∷ 48 ∷ 49 ∷ 48 ∷ 49 ∷ 32 ∷ 48 ∷ 48 ∷ 58 ∷ 48 ∷ 48 ∷ 58 ∷ 48 ∷ 48 ∷ 46 ∷ 48
      ∷ 48 ∷ 48 ∷ 48 ∷ 48 ∷ 49 ∷ 32 ∷ [];
  tid_str = 49 ∷ 50 ∷ 51 ∷ 32 ∷ [];
  strerror = λ e. 69 ∷ [];
}

-- "a/b.cc"
abbrev site : Site
site = record { file = 97 ∷ 47 ∷ 98 ∷ 46 ∷ 99 ∷ 99 ∷ []; line = 12; func = 102 ∷ [] }

abbrev globals : Globals
globals = record { log_level = LogLevel.info; output = []; flushes = 0; aborted = false }

abbrev some_items : List Item
some_items = string (104 ∷ 105 ∷ []) ∷ number (pos 7) ∷ []

file-base_of : base_of site.file ≡ 98 ∷ 46 ∷ 99 ∷ 99 ∷ []
unfolding base_of
file-base_of = refl

syserr-enabled : enabled Macro.log_syserr LogLevel.info ≡ true
unfolding enabled
syserr-enabled = refl

statement-Logged_example :
    (enabled Macro.log_sysfatal LogLevel.info ≡ false
      → statement moment (pos 2) Macro.log_sysfatal site some_items globals ≡ ok globals)
    × (enabled Macro.log_sysfatal LogLevel.info ≡ true
        → Returns
            (Logged (level_of Macro.log_sysfatal) globals)
            (statement moment (pos 2) Macro.log_sysfatal site some_items globals))
statement-Logged_example =
    statement-Logged moment (pos 2) Macro.log_sysfatal site some_items globals refl
      (omega arith, tt) (omega arith) (omega arith)

some_room : room_all (line_items moment (pos 2) Macro.log_syserr site some_items) < small_buffer
unfolding errno_of func_of base_of level_of
some_room = omega arith

statement-AreTexts_example :
    Returns
      (λ (g' : Globals).
        (message : List ℕ) × AreTexts
          (line_items moment (pos 2) Macro.log_syserr site some_items)
          message
        × (g'.output ≡ message ∷ []))
      (statement moment (pos 2) Macro.log_syserr site some_items globals)
statement-AreTexts_example =
    statement-AreTexts moment (pos 2) Macro.log_syserr site some_items globals refl
      (omega arith, tt) (omega arith) (omega arith) syserr-enabled some_room
