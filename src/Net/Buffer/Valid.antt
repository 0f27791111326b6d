-- ===== src/Net/Buffer/Valid.antt =====
-- The invariant of windz/net/Buffer.h, the bytes that a buffer holds, and the copies on a valid
-- buffer.
use windz.Prelude.{
  ℕ, ◌+◌, ◌-◌, ◌^◌, ◌≤◌, ◌≡◌, refl, List, [], length, replicate, take, length-take-min,
  length-append, length-replicate, ltb, ok, arith, Returns, returns, Returns-if,
}
use windz.Net.Buffer.{
  Buffer, max_size, prepend_size, new_buffer, resize, readable_bytes, writable_bytes, store_at,
  add_size,
}
use windz.Net.Buffer.Copy.{read, store, read-take_append}

-- The indices are in order and inside a vector that the allocator can hold, and no byte before the
-- prepend area has been made writable.
pub record IsValid (b : Buffer) : Type 0 where
  pub ordered : b.read_index ≤ b.write_index
  pub inside : b.write_index ≤ length b.buffer
  pub small : length b.buffer ≤ max_size
  pub prefix : prepend_size ≤ length b.buffer

-- What the buffer holds, oldest byte first.
abbrev pub contents : Buffer → List ℕ
contents b = read b.buffer b.read_index (b.write_index - b.read_index)

pub new_buffer-IsValid :
    (n : ℕ)
    → n ≤ 2 ^ 62
    → Returns (λ b. IsValid b × (contents b ≡ []) × (writable_bytes b ≡ n)) (new_buffer n)
unfolding new_buffer read
new_buffer-IsValid n h =
    let e : add_size prepend_size n ≡ 8 + n = omega arith in
    rw (e, new_buffer)
      (Returns-if (ltb max_size (8 + n)) (λ t. absurd (ground arith))
        λ t. returns (
          record {
            ordered = omega arith;
            inside = omega (arith, length-replicate {A = ℕ} (8 + n) 0);
            small = omega (arith, length-replicate {A = ℕ} (8 + n) 0);
            prefix = omega (arith, length-replicate {A = ℕ} (8 + n) 0);
          },
          refl,
          omega (arith, length-replicate {A = ℕ} (8 + n) 0),
        ))

pub readable_bytes-length :
    {b : Buffer} → IsValid b → readable_bytes b ≡ b.write_index - b.read_index
readable_bytes-length v = omega arith

pub writable_bytes_lem :
    {b : Buffer} → IsValid b → writable_bytes b ≡ length b.buffer - b.write_index
writable_bytes_lem v = omega arith

pub resize_lem :
    (n : ℕ) (xs : List ℕ)
    → n ≤ max_size
    → Returns
        (λ ys.
          (length ys ≡ n) × ((i k : ℕ) → i + k ≤ length xs → i + k ≤ n → read ys i k ≡ read xs i k))
        (resize n xs)
unfolding resize
resize_lem n xs h =
    Returns-if (ltb max_size n) (λ t. absurd (ground arith))
      λ t. returns (
        omega (
          arith,
          length-append (take n xs) (replicate {A = ℕ} (n - length xs) 0),
          length-take-min n xs,
          length-replicate {A = ℕ} (n - length xs) 0,
        ),
        λ i k p q. read-take_append xs (replicate (n - length xs) 0) n i k p q,
      )

pub store_at_lem :
    (xs : List ℕ) (i : ℕ) (bytes : List ℕ)
    → i + length bytes ≤ length xs
    → store_at xs i bytes ≡ ok (store xs i bytes)
unfolding store_at
store_at_lem xs i bytes h = ground arith
