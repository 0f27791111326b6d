-- ===== src/Log/LogStream/Tests.antt =====
-- windz/log/LogStream.cpp at concrete inputs.
use windz.Prelude.{[], ◌∷◌, Returns, arith}
use windz.Prelude.Int.{negsuc}
use windz.Log.LogStream.{FixBuffer, convert}
use windz.Log.LogStream.Decimal.{Reads, convert-parse}

convert-parse_example : Returns (Reads (negsuc 119)) (convert (negsuc 119))
convert-parse_example = convert-parse (negsuc 119) (omega arith)

abbrev line : FixBuffer
line = record { size = 40; data_ = 58 ∷ [] }
