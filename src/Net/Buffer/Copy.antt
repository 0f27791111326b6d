-- ===== src/Net/Buffer/Copy.antt =====
-- The copies of windz/net/Buffer.cpp: `std::copy` and `std::copy_backward`, byte by byte in the
-- order that the standard gives them, since source and target overlap in `AlignPrepend`.
use Prim.Native.Nat.add
use native.Mathlib.Nat.{add-zero}
use mathlib.Core.Path.{subst₂}
use windz.Prelude.{
  get_or-cons, get_or-append, get_or-take, length-take-min, ℕ, zero, suc, ◌+◌, ◌-◌, ◌≤◌, ◌<◌, ◌≡◌,
  refl, ap, ap₂, ◌∙◌, List, [], ◌∷◌, ◌++◌, length, get_or, set, take, ◌⊎◌, length-set, get_or-set,
  ltb, leb, if◌then◌else◌, Run, ok, true, out_of_bounds, ◌>>◌, require, Returns, returns, ◌&&◌,
  arith,
}

-- The `n` bytes from index `i` on.
unfoldable pub read : List ℕ → ℕ → ℕ → List ℕ
read xs i zero = []
read xs i (suc n) = get_or xs i 0 ∷ read xs (i + 1) n

-- The bytes written one after the other, from index `i` on.
unfoldable pub store : List ℕ → ℕ → List ℕ → List ℕ
store xs i [] = xs
store xs i (x ∷ bytes) = store (set xs i x) (i + 1) bytes

-- `n` bytes from `first` to `dest`, the first byte first.
unfoldable pub forward : List ℕ → ℕ → ℕ → ℕ → List ℕ
forward xs first dest zero = xs
forward xs first dest (suc n) = forward (set xs dest (get_or xs first 0)) (first + 1) (dest + 1) n

-- `n` bytes from `first` to `dest`, the last byte first.
unfoldable pub backward : List ℕ → ℕ → ℕ → ℕ → List ℕ
backward xs first dest zero = xs
backward xs first dest (suc n) = backward (set xs (dest + n) (get_or xs (first + n) 0)) first dest n

-- `std::copy(&xs[first], &xs[last], &xs[dest])`
unfoldable pub copy_forward : List ℕ → ℕ → ℕ → ℕ → Run (List ℕ)
unfolding forward
copy_forward xs first last dest = do
  require (leb first last && leb last (length xs) && leb (dest + (last - first)) (length xs))
      out_of_bounds
  ok (forward xs first dest (last - first))

-- `std::copy_backward(&xs[first], &xs[last], &xs[dest_last])`
unfoldable pub copy_backward : List ℕ → ℕ → ℕ → ℕ → Run (List ℕ)
unfolding backward
copy_backward xs first last dest_last = do
  require
      (leb first last
        && leb last (length xs)
        && leb dest_last (length xs)
        && leb (last - first) dest_last)
      out_of_bounds
  ok (backward xs first (dest_last - (last - first)) (last - first))

pub length-read : (xs : List ℕ) (i n : ℕ) → length (read xs i n) ≡ n
unfolding read
length-read xs i zero = refl
length-read xs i (suc n) = ap suc (length-read xs (i + 1) n)

pub length-store : (xs : List ℕ) (i : ℕ) (bytes : List ℕ) → length (store xs i bytes) ≡ length xs
unfolding store
length-store xs i [] = refl
length-store xs i (x ∷ bytes) = length-store (set xs i x) (i + 1) bytes ∙ length-set xs i x

pub length-forward : (xs : List ℕ) (f d n : ℕ) → length (forward xs f d n) ≡ length xs
unfolding forward
length-forward xs f d zero = refl
length-forward xs f d (suc n) =
    length-forward (set xs d (get_or xs f 0)) (f + 1) (d + 1) n ∙ length-set xs d _

pub length-backward : (xs : List ℕ) (f d n : ℕ) → length (backward xs f d n) ≡ length xs
unfolding backward
length-backward xs f d zero = refl
length-backward xs f d (suc n) =
    length-backward (set xs (d + n) (get_or xs (f + n) 0)) f d n ∙ length-set xs (d + n) _

pub get_or-store :
    (xs : List ℕ) (i : ℕ) (bytes : List ℕ) (j : ℕ)
    → i + length bytes ≤ length xs
    → get_or (store xs i bytes) j 0
      ≡ (if leb i j && ltb j (i + length bytes) then get_or bytes (j - i) 0 else get_or xs j 0)
unfolding store
get_or-store xs i [] j h = ground arith
get_or-store xs i (x ∷ bytes) j h = ground (
  arith,
  length-set xs i x,
  get_or-store (set xs i x) (i + 1) bytes j,
  get_or-set xs i j x 0,
  get_or-cons x bytes (j - i) 0,
)

-- Forwards a copy may go towards the front, over its own source.
pub get_or-forward :
    (xs : List ℕ) (f d n j : ℕ)
    → d ≤ f
    → f + n ≤ length xs
    → get_or (forward xs f d n) j 0
      ≡ (if leb d j && ltb j (d + n) then get_or xs (f + (j - d)) 0 else get_or xs j 0)
unfolding forward
get_or-forward xs f d zero j h k = ground arith
get_or-forward xs f d (suc n) j h k = ground (
  arith,
  length-set xs d (get_or xs f 0),
  get_or-forward (set xs d (get_or xs f 0)) (f + 1) (d + 1) n j,
  get_or-set xs d j (get_or xs f 0) 0,
  get_or-set xs d (f + 1 + (j - (d + 1))) (get_or xs f 0) 0,
)

-- One round of a backward copy, given what the rest of it does.
backward_round :
    (xs : List ℕ) (f d n j r : ℕ)
    → f ≤ d
    → d + suc n ≤ length xs
    → let ys = set xs (d + n) (get_or xs (f + n) 0) in
      r ≡ (if leb d j && ltb j (d + n) then get_or ys (f + (j - d)) 0 else get_or ys j 0)
      → r ≡ (if leb d j && ltb j (d + suc n) then get_or xs (f + (j - d)) 0 else get_or xs j 0)
backward_round xs f d n j r h k e = ground (
  arith,
  get_or-set xs (d + n) j (get_or xs (f + n) 0) 0,
  get_or-set xs (d + n) (f + (j - d)) (get_or xs (f + n) 0) 0,
)

-- Backwards it may go towards the end.
pub get_or-backward :
    (xs : List ℕ) (f d n j : ℕ)
    → f ≤ d
    → d + n ≤ length xs
    → get_or (backward xs f d n) j 0
      ≡ (if leb d j && ltb j (d + n) then get_or xs (f + (j - d)) 0 else get_or xs j 0)
unfolding backward
get_or-backward xs f d zero j h k = ground arith
get_or-backward xs f d (suc n) j h k = backward_round xs f d n j _ h k (
    get_or-backward (set xs (d + n) (get_or xs (f + n) 0)) f d n j h
      (omega (arith, length-set xs (d + n) (get_or xs (f + n) 0))))

-- Reads at the same bytes give the same list.
pub read_ext :
    (xs ys : List ℕ) (i k n : ℕ)
    → ((j : ℕ) → j < n → get_or xs (i + j) 0 ≡ get_or ys (k + j) 0)
    → read xs i n ≡ read ys k n
unfolding read
read_ext xs ys i k zero h = refl
read_ext xs ys i k (suc n) h =
    ap₂ ◌∷◌
      (subst₂ (λ a b. get_or xs a 0 ≡ get_or ys b 0) (add-zero i) (add-zero k) (h 0 (omega arith)))
      (read_ext xs ys (i + 1) (k + 1) n λ j p.
        ap (λ a. get_or xs a 0) (omega arith)
        ∙ h (suc j) (omega arith)
        ∙ ap (λ a. get_or ys a 0) (omega arith))

pub read-append : (xs : List ℕ) (i n m : ℕ) → read xs i (n + m) ≡ read xs i n ++ read xs (i + n) m
unfolding read
read-append xs i zero m = rw (add-zero, add.zero)
read-append xs i (suc n) m = rw add.suc (
    ap (◌∷◌ (get_or xs i 0))
      (rw (read-append xs (i + 1) n m) (ap (λ a. read xs (i + 1) n ++ read xs a m) (omega arith))))

read-cons : (x : ℕ) (xs : List ℕ) (i n : ℕ) → read (x ∷ xs) (suc i) n ≡ read xs i n
read-cons x xs i n = read_ext (x ∷ xs) xs (suc i) i n (λ j p. rw add.suc)

read_whole : (xs : List ℕ) → read xs 0 (length xs) ≡ xs
unfolding read
read_whole [] = refl
read_whole (x ∷ xs) = ap (◌∷◌ x) (
    ap (λ a. read (x ∷ xs) a (length xs)) (omega arith)
    ∙ read-cons x xs 0 (length xs)
    ∙ read_whole xs)

-- What was stored is read back.
pub read-store :
    (xs : List ℕ) (i : ℕ) (bytes : List ℕ)
    → i + length bytes ≤ length xs
    → read (store xs i bytes) i (length bytes) ≡ bytes
read-store xs i bytes h =
    read_ext (store xs i bytes) bytes i 0 (length bytes) (λ j p. ground (
      arith,
      get_or-store xs i bytes (i + j),
      ap (λ a. get_or bytes a 0) (let e : i + j - i ≡ 0 + j = omega arith in e),
    ))
    ∙ read_whole bytes

-- What is stored elsewhere leaves a range as it was.
pub read-store_apart :
    (xs : List ℕ) (i : ℕ) (bytes : List ℕ) (k n : ℕ)
    → i + length bytes ≤ length xs
    → (k + n ≤ i) ⊎ (i + length bytes ≤ k)
    → read (store xs i bytes) k n ≡ read xs k n
read-store_apart xs i bytes k n h apart =
    read_ext (store xs i bytes) xs k k n λ j p. ground (arith, get_or-store xs i bytes (k + j))

-- The three moves of `AlignPrepend` keep the bytes of the source range.
pub read-forward :
    (xs : List ℕ) (f d n : ℕ)
    → d ≤ f
    → f + n ≤ length xs
    → read (forward xs f d n) d n ≡ read xs f n
read-forward xs f d n h k = read_ext (forward xs f d n) xs d f n λ j p. ground (
  arith,
  get_or-forward xs f d n (d + j),
  ap (λ a. get_or xs a 0) (let e : f + (d + j - d) ≡ f + j = omega arith in e),
)

pub read-backward :
    (xs : List ℕ) (f d n : ℕ)
    → f ≤ d
    → d + n ≤ length xs
    → read (backward xs f d n) d n ≡ read xs f n
read-backward xs f d n h k = read_ext (backward xs f d n) xs d f n λ j p. ground (
  arith,
  get_or-backward xs f d n (d + j),
  ap (λ a. get_or xs a 0) (let e : f + (d + j - d) ≡ f + j = omega arith in e),
)

-- A vector that only grows or is cut behind the range keeps it.
pub read-take_append :
    (xs ys : List ℕ) (m i n : ℕ)
    → i + n ≤ length xs
    → i + n ≤ m
    → read (take m xs ++ ys) i n ≡ read xs i n
read-take_append xs ys m i n h k = read_ext (take m xs ++ ys) xs i i n λ j p. ground (
  arith,
  get_or-append (take m xs) ys (i + j) 0,
  length-take-min m xs,
  get_or-take m xs (i + j) 0,
)

-- The copies of the source, inside the vector, return and keep the bytes of the source range.
pub copy_forward_lem :
    (xs : List ℕ) (first last dest : ℕ)
    → first ≤ last
    → last ≤ length xs
    → dest ≤ first
    → Returns
        (λ ys.
          (length ys ≡ length xs) × (read ys dest (last - first) ≡ read xs first (last - first)))
        (copy_forward xs first last dest)
unfolding copy_forward
copy_forward_lem xs first last dest h k m =
    let test : (leb first last && leb last (length xs) && leb (dest + (last - first)) (length xs))
        ≡ true =
      ground arith in
    rw test (
      returns (
        length-forward xs first dest (last - first),
        read-forward xs first dest (last - first) m (omega arith),
      ))

pub copy_backward_lem :
    (xs : List ℕ) (first last dest_last : ℕ)
    → first ≤ last
    → last ≤ dest_last
    → dest_last ≤ length xs
    → Returns
        (λ ys.
          (length ys ≡ length xs)
          × (read ys (dest_last - (last - first)) (last - first) ≡ read xs first (last - first)))
        (copy_backward xs first last dest_last)
unfolding copy_backward
copy_backward_lem xs first last dest_last h k m =
    let dest = dest_last - (last - first) in
    let test : (leb first last
          && leb last (length xs)
          && leb dest_last (length xs)
          && leb (last - first) dest_last)
        ≡ true =
      ground arith in
    rw test (
      returns (
        length-backward xs first dest (last - first),
        read-backward xs first dest (last - first) (omega arith) (omega arith),
      ))
