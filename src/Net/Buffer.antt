-- ===== src/Net/Buffer.antt =====
-- windz/net/Buffer.{h,cpp}: the byte buffer that a connection reads into and writes from.
-- An operation that changes the buffer returns the new one; a failed `assert`, an access outside
-- the vector and `std::length_error` are faults. Bytes are only moved, so a byte is any number.
pub mod Copy
pub mod Valid
pub mod Contents
mod Tests
pub mod Align
mod Queue
use windz.Prelude.{
  ℕ, zero, suc, ◌+◌, ◌-◌, ◌%◌, ◌^◌, ◌≤◌, ◌≡◌, Bool, List, [], ◌∷◌, ◌++◌, length, replicate, take,
  ltb, leb, ◌==◌, if◌then◌else◌, Run, ok, fault, out_of_bounds, length_error, ◌>>=◌, ◌>>◌, assert,
  require, Option, none, some, drop, ◌&&◌,
}
use Copy.{read, store, copy_forward, copy_backward}

-- `size_t` sums and differences wrap.
abbrev pub add_size : ℕ → ℕ → ℕ
add_size a b = (a + b) % 2 ^ 64

abbrev pub sub_size : ℕ → ℕ → ℕ
sub_size a b = (a + 2 ^ 64 - b) % 2 ^ 64

-- `std::vector<char>::max_size()`
abbrev pub max_size : ℕ
max_size = 2 ^ 63 - 1

abbrev pub prepend_size : ℕ
prepend_size = 8

abbrev pub init_size : ℕ
init_size = 1024

pub record Buffer : Type 0 where
  pub buffer : List ℕ
  pub read_index : ℕ
  pub write_index : ℕ

-- `vector::resize`: cut, or filled up with zeros.
unfoldable pub resize : ℕ → List ℕ → Run (List ℕ)
resize n xs =
    if ltb max_size n then fault length_error else ok (take n xs ++ replicate (n - length xs) 0)

unfoldable pub new_buffer : ℕ → Run Buffer
new_buffer n =
    if ltb max_size (add_size prepend_size n)
    then fault length_error
    else ok (record {
      buffer = replicate (add_size prepend_size n) 0;
      read_index = prepend_size;
      write_index = prepend_size;
    })

-- `Buffer::Swap`: the two buffers, in the order of the call.
pub swap : Buffer → Buffer → Buffer × Buffer
swap self other = (
  record { buffer = other.buffer; read_index = other.read_index; write_index = other.write_index },
  record { buffer = self.buffer; read_index = self.read_index; write_index = self.write_index },
)

abbrev pub readable_bytes : Buffer → ℕ
readable_bytes b = sub_size b.write_index b.read_index

abbrev pub writable_bytes : Buffer → ℕ
writable_bytes b = sub_size (length b.buffer) b.write_index

abbrev pub prependable_bytes : Buffer → ℕ
prependable_bytes b = b.read_index

pub release : Buffer → ℕ → Run Buffer
release b len = do
  assert (leb len (readable_bytes b))
  ok (
      if ltb len (readable_bytes b)
      then record b { read_index = add_size b.read_index len }
      else record b { read_index = prepend_size; write_index = prepend_size })

-- The pointer `c` is given by its index in the vector.
pub release_until : Buffer → ℕ → Run Buffer
release_until b c = do assert (leb b.read_index c); release b (sub_size c b.read_index)

pub release_all : Buffer → Run Buffer
release_all b = release b (readable_bytes b)

-- `std::string s(Peek(), len)` reads `len` bytes of the vector.
pub read_bytes : Buffer → ℕ → Run (List ℕ × Buffer)
read_bytes b len = do
  assert (leb len (readable_bytes b))
  require (leb (b.read_index + len) (length b.buffer)) out_of_bounds
  b' ← release b len
  ok (read b.buffer b.read_index len, b')

pub read_all : Buffer → Run (List ℕ × Buffer)
read_all b = read_bytes b (readable_bytes b)

-- `std::copy` from outside the vector to its index `i`.
unfoldable pub store_at : List ℕ → ℕ → List ℕ → Run (List ℕ)
store_at xs i bytes = do
  require (leb (i + length bytes) (length xs)) out_of_bounds
  ok (store xs i bytes)

-- The vector is made longer where the aligned bytes would not fit.
grow_to : List ℕ → ℕ → Run (List ℕ)
grow_to xs n = if ltb (length xs) n then resize n xs else ok xs

aligned : Buffer → List ℕ → Buffer
aligned b xs = record {
  buffer = xs;
  read_index = prepend_size;
  write_index = add_size prepend_size (readable_bytes b);
}

align_towards_end : Buffer → Run Buffer
unfolding aligned grow_to resize
align_towards_end b = do
  let dest_last = add_size (readable_bytes b) prepend_size
  xs ← grow_to b.buffer dest_last
  ys ← copy_backward xs b.read_index b.write_index dest_last
  ok (aligned b ys)

align_towards_front : Buffer → Run Buffer
unfolding aligned
align_towards_front b = do
  ys ← copy_forward b.buffer b.read_index b.write_index prepend_size
  ok (aligned b ys)

pub align_prepend : Buffer → Run Buffer
unfolding align_towards_end align_towards_front
align_prepend b =
    if b.read_index == prepend_size
    then ok b
    else if ltb b.read_index prepend_size
    then align_towards_end b
    else align_towards_front b

pub extend_space : Buffer → ℕ → Run Buffer
extend_space b len = do
  a ← align_prepend b
  if ltb (writable_bytes a) len
      then (do xs ← resize (add_size a.write_index len) a.buffer; ok (record a { buffer = xs }))
      else ok a

pub write : Buffer → List ℕ → Run Buffer
write b bytes = do
  a ← if ltb (writable_bytes b) (length bytes) then extend_space b (length bytes) else ok b
  assert (leb (length bytes) (writable_bytes a))
  xs ← store_at a.buffer a.write_index bytes
  ok (record a { buffer = xs; write_index = add_size a.write_index (length bytes) })

pub un_write : Buffer → ℕ → Run Buffer
un_write b len = do
  assert (leb len (readable_bytes b))
  ok (record b { write_index = sub_size b.write_index len })

pub prepend : Buffer → List ℕ → Run Buffer
prepend b bytes = do
  assert (leb (length bytes) (prependable_bytes b))
  let i = sub_size b.read_index (length bytes)
  xs ← store_at b.buffer i bytes
  ok (record b { buffer = xs; read_index = i })

-- `shrink_to_fit` changes the capacity only, which no other operation reads.
pub shrink : Buffer → ℕ → Run Buffer
shrink b reserve = do
  a ← align_prepend b
  xs ← resize (add_size (add_size prepend_size (readable_bytes a)) reserve) a.buffer
  ok (record a { buffer = xs })

abbrev pub extra_size : ℕ
extra_size = 65536

-- `readv` is the kernel's: `none` for -1, or the bytes that it delivered to the two parts in turn,
-- the writable rest of the vector and `extra_buf`.
unfoldable pub read_fd : Buffer → Option (List ℕ) → Run (Option ℕ × Buffer)
read_fd b none = ok (none, b)
read_fd b (some bytes) =
    let n = length bytes in
    let write_byte = writable_bytes b in
    let fits = do
      xs ← store_at b.buffer b.write_index bytes
      ok (some n, record b { buffer = xs; write_index = add_size b.write_index n })
    in let spills = do
      xs ← store_at b.buffer b.write_index (take write_byte bytes)
      b' ← write (record b { buffer = xs; write_index = length b.buffer }) (drop write_byte bytes)
      ok (some n, b')
      in if leb n write_byte then fits else spills
