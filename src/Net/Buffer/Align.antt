-- ===== src/Net/Buffer/Align.antt =====
-- `Buffer::AlignPrepend` and `Buffer::ExtendSpace` of windz/net/Buffer.cpp.
use windz.Prelude.{
  ℕ, ◌+◌, ◌-◌, ◌≤◌, ◌≡◌, refl, ◌∙◌, ap, List, length, ltb, ◌==◌, arith, Returns, returns,
  Returns-bind, Returns-if, Returns-map,
}
use windz.Net.Buffer.{
  Buffer, max_size, prepend_size, readable_bytes, writable_bytes, align_prepend, align_towards_end,
  align_towards_front, grow_to, aligned, extend_space, add_size,
}
use windz.Net.Buffer.Copy.{read, copy_forward_lem, copy_backward_lem}
use windz.Net.Buffer.Valid.{IsValid, contents, resize_lem}

-- `a` holds the bytes of `b`, from the end of the prepend area on, in at least as much space.
pub record Aligned (b a : Buffer) : Type 0 where
  pub valid : IsValid a
  pub at_front : a.read_index ≡ prepend_size
  pub held : a.write_index ≡ prepend_size + (b.write_index - b.read_index)
  pub same : contents a ≡ contents b
  pub room : length b.buffer ≤ length a.buffer

-- What the two moves have in common: a vector that holds the bytes at the prepend area's end.
aligned-Aligned :
    {b : Buffer} (xs : List ℕ)
    → IsValid b
    → length b.buffer ≤ length xs
    → length xs ≤ max_size
    → prepend_size + (b.write_index - b.read_index) ≤ length xs
    → read xs prepend_size (b.write_index - b.read_index) ≡ contents b
    → Aligned b (aligned b xs)
unfolding aligned
aligned-Aligned {b} xs v h k m e = record {
  valid = record { ordered = omega arith; inside = omega arith; small = k; prefix = omega arith };
  at_front = refl;
  held = omega arith;
  same =
      ap (read xs prepend_size) (
        let size : add_size prepend_size (readable_bytes b) - prepend_size
            ≡ b.write_index - b.read_index =
          omega arith in
        size)
      ∙ e;
  room = h;
}

grow_to_lem :
    (n : ℕ) (xs : List ℕ)
    → n ≤ max_size
    → length xs ≤ max_size
    → Returns
        (λ ys.
          (length xs ≤ length ys)
          × (n ≤ length ys)
          × (length ys ≤ max_size)
          × ((i k : ℕ) → i + k ≤ length xs → read ys i k ≡ read xs i k))
        (grow_to xs n)
unfolding grow_to
grow_to_lem n xs h k =
    Returns-if (ltb (length xs) n)
      (λ t. Returns-map (resize_lem n xs h) λ ys (size, same).
        (ground arith, omega arith, omega arith, λ i m p. same i m p (ground arith)))
      λ t. returns (omega arith, ground arith, k, λ i m p. refl)

towards_end :
    {b : Buffer}
    → IsValid b
    → prepend_size + (b.write_index - b.read_index) ≤ max_size
    → b.read_index ≤ prepend_size
    → Returns (Aligned b) (align_towards_end b)
unfolding align_towards_end
towards_end {b} v h p =
    let n = b.write_index - b.read_index in
    let dest_last : add_size (readable_bytes b) prepend_size ≡ prepend_size + n = omega arith in
    rw dest_last (
      Returns-bind (grow_to_lem (prepend_size + n) b.buffer h v.small)
        λ xs (longer, fits, small, same).
          Returns-bind
            (copy_backward_lem xs b.read_index b.write_index (prepend_size + n) v.ordered
              (omega arith) fits)
            λ ys (size, moved). returns (
              aligned-Aligned ys v (omega arith) (omega arith) (omega arith) (
                ap (λ d. read ys d n)
                  (let e : prepend_size ≡ prepend_size + n - n = omega arith in e)
                ∙ moved
                ∙ same b.read_index n (omega arith))))

towards_front :
    {b : Buffer}
    → IsValid b
    → prepend_size ≤ b.read_index
    → Returns (Aligned b) (align_towards_front b)
unfolding align_towards_front
towards_front {b} v p =
    Returns-bind
      (copy_forward_lem b.buffer b.read_index b.write_index prepend_size v.ordered v.inside p)
      λ ys (size, moved).
        returns (aligned-Aligned ys v (omega arith) (omega arith) (omega arith) moved)

-- A buffer whose bytes fit behind the prepend area is moved there without a fault.
pub align_prepend_lem :
    {b : Buffer}
    → IsValid b
    → prepend_size + (b.write_index - b.read_index) ≤ max_size
    → Returns (Aligned b) (align_prepend b)
unfolding align_prepend
align_prepend_lem {b} v h =
    Returns-if (b.read_index == prepend_size)
      (λ t. returns (record {
        valid = v;
        at_front = ground arith;
        held = ground arith;
        same = refl;
        room = omega arith;
      }))
      λ t.
        Returns-if (ltb b.read_index prepend_size) (λ p. towards_end v h (ground arith))
          λ p. towards_front v (ground arith)

-- `ExtendSpace` keeps the bytes and makes room for `len` more.
pub record Extended (b : Buffer) (len : ℕ) (a : Buffer) : Type 0 where
  pub valid : IsValid a
  pub same : contents a ≡ contents b
  pub room : len ≤ writable_bytes a
  pub held : a.write_index - a.read_index ≡ b.write_index - b.read_index

pub extend_space_lem :
    {b : Buffer} (len : ℕ)
    → IsValid b
    → prepend_size + (b.write_index - b.read_index) + len ≤ max_size
    → Returns (Extended b len) (extend_space b len)
unfolding extend_space
extend_space_lem {b} len v h = Returns-bind (align_prepend_lem v (omega arith)) λ a al.
    Returns-if (ltb (writable_bytes a) len)
      (λ t.
        let size : add_size a.write_index len ≡ a.write_index + len = omega (arith, al.held) in
        rw size (
          Returns-bind (resize_lem (a.write_index + len) a.buffer (omega arith)) λ xs (grown, same).
            returns (record {
              valid = record {
                ordered = omega arith;
                inside = omega arith;
                small = omega arith;
                prefix = omega arith;
              };
              same =
                  same a.read_index (a.write_index - a.read_index) (omega arith) (omega arith)
                  ∙ al.same;
              room = omega arith;
              held = omega arith;
            })))
      λ t.
        returns
          (record { valid = al.valid; same = al.same; room = ground arith; held = omega arith })
