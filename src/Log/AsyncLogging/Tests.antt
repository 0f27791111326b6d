-- ===== src/Log/AsyncLogging/Tests.antt =====
-- windz/log/AsyncLogging.cpp at concrete inputs.
use windz.Prelude.{ℕ, refl, true, List, [], ◌∷◌, some, none, Returns, arith}
use windz.Log.LogStream.{FixBuffer, large_buffer}
use windz.Log.AsyncLogging.{AsyncLogging, thread_round}
use windz.Log.AsyncLogging.Lossless.{IsSound, Flushed, thread_round-Flushed}

abbrev blank : FixBuffer
blank = record { size = large_buffer; data_ = [] }

-- A full buffer waits, and the next one is in use.
abbrev busy : AsyncLogging
busy = record {
  running = true;
  current = record { size = large_buffer; data_ = 3 ∷ [] };
  next = none;
  buffers = record { size = large_buffer; data_ = 1 ∷ 2 ∷ [] } ∷ [];
  spare_1 = some blank;
  spare_2 = some blank;
  written = [];
}

busy-IsSound : IsSound busy
busy-IsSound = record {
  spares = (refl, refl);
  next_blank = refl;
  waiting = λ h. omega arith;
  large = (refl, (refl, tt));
}

abbrev notice : ℕ → List ℕ
notice n = n ∷ []

thread_round-Flushed_example : Returns (Flushed busy) (thread_round notice busy)
thread_round-Flushed_example = thread_round-Flushed notice busy busy-IsSound (omega arith)
