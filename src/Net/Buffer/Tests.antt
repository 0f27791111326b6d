-- ===== src/Net/Buffer/Tests.antt =====
-- windz/net/Buffer.cpp at concrete inputs.
use windz.Prelude.{◌≡◌, refl, [], ◌∷◌, ◌++◌, replicate, ok, ◌>>=◌, arith, none, List}
use windz.Net.Buffer.{Buffer, write, read_bytes, store_at, extend_space, release, align_prepend}
use windz.Net.Buffer.Copy.{read, store, copy_forward}
use windz.Net.Buffer.Valid.{IsValid, contents}
use windz.Net.Buffer.Queue.{
  Call, writes, reads, releases, un_writes, reads_fd, nothing, bytes, count, call_all, call_queue,
  call_buffer, Refines, call_all-Refines,
}

-- Four bytes, of which two are read, in a vector of sixteen.
abbrev sample : Buffer
sample = record {
  buffer = replicate 8 0 ++ 1 ∷ 2 ∷ 3 ∷ 4 ∷ replicate 4 0;
  read_index = 10;
  write_index = 12;
}

sample-IsValid : IsValid sample
sample-IsValid = omega arith

-- A write that fits only once the bytes have moved to the front.
write_moves :
    (write sample (5 ∷ 6 ∷ 7 ∷ 8 ∷ 9 ∷ []) >>= λ b. read_bytes b 7 >>= λ r. ok r.0)
    ≡ ok (3 ∷ 4 ∷ 5 ∷ 6 ∷ 7 ∷ 8 ∷ 9 ∷ [])
unfolding write read_bytes release read extend_space align_prepend copy_forward store_at store
write_moves = refl

-- A buffer whose bytes begin inside the prepend area.
abbrev prepended : Buffer
prepended = record sample { read_index = 4 }

-- Reads and writes that move the bytes, and one read too many.
abbrev some_calls : List Call
some_calls = writes (5 ∷ 6 ∷ 7 ∷ 8 ∷ 9 ∷ []) ∷ reads 3 ∷ un_writes 1 ∷ reads_fd none ∷ reads 2 ∷ []

some_calls-run :
    call_all call_queue some_calls (3 ∷ 4 ∷ [])
    ≡ ok (nothing ∷ bytes (3 ∷ 4 ∷ 5 ∷ []) ∷ nothing ∷ count none ∷ bytes (6 ∷ 7 ∷ []) ∷ [], 8 ∷ [])
unfolding call_all call_queue
some_calls-run = refl

call_all-Refines_example :
    Refines
      (call_all call_queue (some_calls ++ releases 2 ∷ []) (contents sample))
      (call_all call_buffer (some_calls ++ releases 2 ∷ []) sample)
unfolding read
call_all-Refines_example =
    call_all-Refines (some_calls ++ releases 2 ∷ []) sample-IsValid (omega arith)
