-- ===== src/Net/Buffer/Contents.antt =====
-- The operations of windz/net/Buffer.cpp against the queue of bytes that the buffer stands for.
use windz.Prelude.{
  ℕ, ◌+◌, ◌-◌, ◌≤◌, ◌<◌, ◌≡◌, refl, sym, ◌∙◌, ap, ap₂, length-append, List, ◌++◌, length, take,
  drop, ltb, leb, if◌then◌else◌, ok, fault, assertion, false, Bool-cases, inl, inr, Returns-require,
  arith, Returns, returns, Returns-bind, Returns-if, some, append_assoc, append-nil,
  take-append-drop, length-take-min, length-drop,
}
use windz.Net.Buffer.{
  Buffer, max_size, prepend_size, readable_bytes, writable_bytes, prependable_bytes, release,
  read_bytes, write, un_write, prepend, shrink, read_fd, add_size, sub_size, extend_space,
}
use windz.Net.Buffer.Copy.{
  read, store, length-read, length-store, read-store, read-store_apart, read-append,
}
use windz.Net.Buffer.Valid.{IsValid, contents, store_at_lem, resize_lem}
use windz.Net.Buffer.Align.{align_prepend_lem, extend_space_lem, Extended}

-- A buffer in good order that holds just these bytes.
abbrev pub Holds : List ℕ → Buffer → Type 0
Holds bytes b = IsValid b × (contents b ≡ bytes)

pub length-contents : {b : Buffer} → IsValid b → length (contents b) ≡ readable_bytes b
length-contents {b} v =
    length-read b.buffer b.read_index (b.write_index - b.read_index) ∙ omega arith

-- The bytes of a valid buffer, parted after the first `n`.
contents-split :
    {b : Buffer} (n : ℕ)
    → IsValid b
    → n ≤ readable_bytes b
    → contents b
      ≡ read b.buffer b.read_index n
        ++ read b.buffer (b.read_index + n) (b.write_index - (b.read_index + n))
contents-split {b} n v h =
    ap (read b.buffer b.read_index) (
      let e : b.write_index - b.read_index ≡ n + (b.write_index - (b.read_index + n)) =
        omega arith in
      e)
    ∙ read-append b.buffer b.read_index n (b.write_index - (b.read_index + n))

abbrev pub Released : Buffer → ℕ → Buffer → Type 0
Released b len b' = IsValid b' × (contents b ≡ read b.buffer b.read_index len ++ contents b')

-- `Release(len)` drops the first `len` bytes and no other.
pub release_lem :
    {b : Buffer} (len : ℕ)
    → IsValid b
    → len ≤ readable_bytes b
    → Returns (Released b len) (release b len)
unfolding release read
release_lem {b} len v h = Returns-require (leb len (readable_bytes b)) _ (ground arith) (
    returns (elim (Bool-cases (ltb len (readable_bytes b))) [
      | inl t ↦ rw t (part (ground arith))
      | inr t ↦ rw t (whole (ground arith))
    ]))
  where
    part :
        len < readable_bytes b
        → Released b len (record b { read_index = add_size b.read_index len })
    part p =
        let e : b.read_index + len ≡ add_size b.read_index len = omega arith in
        (
          record { ordered = omega arith; inside = v.inside; small = v.small; prefix = v.prefix },
          contents-split len v h
              ∙ ap (λ i. read b.buffer b.read_index len ++ read b.buffer i (b.write_index - i)) e,
        )

    whole :
        readable_bytes b ≤ len
        → Released b len (record b { read_index = prepend_size; write_index = prepend_size })
    whole p = (
      record { ordered = omega arith; inside = v.prefix; small = v.small; prefix = v.prefix },
      ap (read b.buffer b.read_index)
            (let e : b.write_index - b.read_index ≡ len = omega arith in e)
          ∙ sym (append-nil (read b.buffer b.read_index len)),
    )

-- `Read(len)` of at most as many bytes as are held returns the first `len` of them and leaves the
-- others, in order.
pub read_bytes_takes :
    {b : Buffer} (len : ℕ)
    → IsValid b
    → len ≤ length (contents b)
    → Returns
        (λ (s, b'). IsValid b' × (length s ≡ len) × (contents b ≡ s ++ contents b'))
        (read_bytes b len)
unfolding read_bytes
read_bytes_takes {b} len v h =
    let few : len ≤ readable_bytes b = omega (arith, length-contents v) in
    Returns-require (leb len (readable_bytes b)) _ (ground arith) (
      Returns-require (leb (b.read_index + len) (length b.buffer)) _ (ground arith) (
        Returns-bind (release_lem len v few)
          λ b' r. returns (r.0, length-read b.buffer b.read_index len, r.1)))

-- `Read(len)`, `Release(len)` and `UnWrite(len)` of more bytes than are held fail their assertion.
pub short_buffer_faults :
    {b : Buffer} (len : ℕ)
    → IsValid b
    → length (contents b) < len
    → (read_bytes b len ≡ fault assertion)
      × (release b len ≡ fault assertion)
      × (un_write b len ≡ fault assertion)
unfolding read_bytes release un_write
short_buffer_faults {b} len v h =
    let few : readable_bytes b < len = omega (arith, length-contents v) in
    let test : leb len (readable_bytes b) ≡ false = ground arith in (rw test, rw test, rw test)

-- Bytes stored behind the held ones.
append_in :
    {b : Buffer} (bytes : List ℕ)
    → IsValid b
    → length bytes ≤ length b.buffer - b.write_index
    → (w : ℕ) → w ≡ b.write_index + length bytes
    → Holds
        (contents b ++ bytes)
        (record b { buffer = store b.buffer b.write_index bytes; write_index = w })
append_in {b} bytes v h w e =
    let n = b.write_index - b.read_index in
    let size = length-store b.buffer b.write_index bytes in
    let fits : b.write_index + length bytes ≤ length b.buffer = omega arith in
    (
      record {
        ordered = omega arith;
        inside = omega (arith, size);
        small = omega (arith, size);
        prefix = omega (arith, size);
      },
      ap (read (store b.buffer b.write_index bytes) b.read_index)
            (let e' : w - b.read_index ≡ n + length bytes = omega arith in e')
          ∙ read-append (store b.buffer b.write_index bytes) b.read_index n (length bytes)
          ∙ ap₂ ◌++◌
              (read-store_apart b.buffer b.write_index bytes b.read_index n fits
                (inl (omega arith)))
              (ap (λ i. read (store b.buffer b.write_index bytes) i (length bytes))
                  (let e' : b.read_index + n ≡ b.write_index = omega arith in e')
                ∙ read-store b.buffer b.write_index bytes fits),
    )

-- The first step of `Write`: a buffer with the same bytes and with room.
make_room :
    {b : Buffer} (len : ℕ)
    → IsValid b
    → prepend_size + length (contents b) + len ≤ max_size
    → Returns (Extended b len) (if ltb (writable_bytes b) len then extend_space b len else ok b)
make_room {b} len v h =
    Returns-if (ltb (writable_bytes b) len)
      (λ t. extend_space_lem len v (omega (arith, length-contents v)))
      λ t. returns (record { valid = v; same = refl; room = ground arith; held = refl })

-- `Write` appends exactly the bytes, whatever space is left, unless the vector would outgrow
-- `max_size`.
pub write_appends :
    {b : Buffer} (bytes : List ℕ)
    → IsValid b
    → prepend_size + length (contents b) + length bytes ≤ max_size
    → Returns (Holds (contents b ++ bytes)) (write b bytes)
unfolding write
write_appends {b} bytes v h = Returns-bind (make_room (length bytes) v h) λ a x.
    let fits : length bytes ≤ length a.buffer - a.write_index = omega arith in
    Returns-require (leb (length bytes) (writable_bytes a)) _ (ground arith) (
      rw (store_at_lem a.buffer a.write_index bytes (omega arith), ← x.same)
        (returns (append_in bytes x.valid fits _ (omega arith))))

-- `UnWrite(len)` takes the last `len` bytes back.
pub un_write_lem :
    {b : Buffer} (len : ℕ)
    → IsValid b
    → len ≤ length (contents b)
    → Returns
        (λ b'.
          IsValid b'
          × (length (contents b') + len ≡ length (contents b))
          × ((rest : List ℕ) × (contents b ≡ contents b' ++ rest)))
        (un_write b len)
unfolding un_write
un_write_lem {b} len v h =
    let few : len ≤ readable_bytes b = omega (arith, length-contents v) in
    let n = sub_size b.write_index len - b.read_index in
    let v' : IsValid (record b { write_index = sub_size b.write_index len }) = record {
      ordered = omega arith;
      inside = omega arith;
      small = v.small;
      prefix = v.prefix;
    } in
    Returns-require (leb len (readable_bytes b)) _ (ground arith) (
      returns (
        v',
        omega (arith, length-contents v, length-contents v'),
        (
          read b.buffer (b.read_index + n) len,
          ap (read b.buffer b.read_index)
                (let e : b.write_index - b.read_index ≡ n + len = omega arith in e)
              ∙ read-append b.buffer b.read_index n len,
        ),
      ))

-- `Prepend` puts the bytes in front.
prepend_lem :
    {b : Buffer} (bytes : List ℕ)
    → IsValid b
    → length bytes ≤ prependable_bytes b
    → Returns (Holds (bytes ++ contents b)) (prepend b bytes)
unfolding prepend
prepend_lem {b} bytes v h =
    let k = length bytes in
    let n = b.write_index - b.read_index in
    let i = sub_size b.read_index k in
    let e : i + k ≡ b.read_index = omega arith in
    let fits : i + k ≤ length b.buffer = omega arith in
    let size = length-store b.buffer i bytes in
    let xs = store b.buffer i bytes in
    Returns-require (leb k (prependable_bytes b)) _ (ground arith) (
      rw (store_at_lem b.buffer i bytes fits) (
        returns (
          record {
            ordered = omega arith;
            inside = omega (arith, size);
            small = omega (arith, size);
            prefix = omega (arith, size);
          },
          ap (read xs i) (let e' : b.write_index - i ≡ k + n = omega arith in e')
              ∙ read-append xs i k n
              ∙ ap₂ ◌++◌ (read-store b.buffer i bytes fits) (
                  ap (λ j. read xs j n) e
                  ∙ read-store_apart b.buffer i bytes b.read_index n fits (inr (omega arith))),
        )))

-- `Shrink(reserve)` keeps the bytes and leaves exactly `reserve` writable.
pub shrink_lem :
    {b : Buffer} (reserve : ℕ)
    → IsValid b
    → prepend_size + length (contents b) + reserve ≤ max_size
    → Returns (λ b'. Holds (contents b) b' × (writable_bytes b' ≡ reserve)) (shrink b reserve)
unfolding shrink
shrink_lem {b} reserve v h =
    let held = length-contents v in
    Returns-bind (align_prepend_lem v (omega arith)) λ a al.
      let n = b.write_index - b.read_index in
      let size : add_size (add_size prepend_size (readable_bytes a)) reserve
          ≡ prepend_size + n + reserve =
        omega (arith, al.held, al.at_front) in
      rw size (
        Returns-bind (resize_lem (prepend_size + n + reserve) a.buffer (omega arith))
          λ xs (grown, same). returns (
            (
              record {
                ordered = omega arith;
                inside = omega arith;
                small = omega arith;
                prefix = omega arith;
              },
              same a.read_index (a.write_index - a.read_index) (omega arith) (omega arith)
                  ∙ al.same,
            ),
            omega arith,
          ))

-- `ReadFd` appends what the kernel delivered, in order, also what went to the extra buffer, and
-- returns its length, unless the vector would outgrow `max_size`.
pub read_fd_appends :
    {b : Buffer} (bytes : List ℕ)
    → IsValid b
    → prepend_size + length (contents b) + length bytes ≤ max_size
    → Returns
        (λ (n, b'). (n ≡ some (length bytes)) × Holds (contents b ++ bytes) b')
        (read_fd b (some bytes))
unfolding read_fd
read_fd_appends {b} bytes v h =
    let room = writable_bytes b in
    let head = take room bytes in
    let rest = drop room bytes in
    let cut = length-take-min room bytes in
    let left = length-drop room bytes in
    let held = length-contents v in
    Returns-if (leb (length bytes) room)
      (λ t.
        let fits : length bytes ≤ length b.buffer - b.write_index = ground arith in
        rw (store_at_lem b.buffer b.write_index bytes (omega arith))
          (returns (refl, append_in bytes v fits _ (omega arith))))
      λ t.
        let over : room < length bytes = ground arith in
        let (v', filled) = append_in head v (omega arith) (length b.buffer) (omega arith) in
        let size = length-append (contents b) head in
        rw (store_at_lem b.buffer b.write_index head (omega arith)) (
          Returns-bind (write_appends rest v' (rw filled (omega arith))) λ b' (v'', all). returns (
            refl,
            (
              v'',
              all
                  ∙ ap (λ xs. xs ++ rest) filled
                  ∙ append_assoc (contents b) head rest
                  ∙ ap (◌++◌ (contents b)) (take-append-drop room bytes),
            ),
          ))
