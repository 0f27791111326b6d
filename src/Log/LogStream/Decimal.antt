-- ===== src/Log/LogStream/Decimal.antt =====
-- `Convert` of windz/log/LogStream.cpp, read back.
use windz.Prelude.{
  ℕ, zero, suc, ◌+◌, ◌-◌, ◌*◌, ◌/◌, ◌%◌, ◌^◌, ◌≤◌, ◌<◌, ◌≡◌, refl, ap, ◌∙◌, Bool-cases, ◌⊎◌, inl,
  inr, true, false, List, [], ◌∷◌, ◌++◌, length, length-append, ltb, lt→ltb, le→leb,
  Returns-require, ◌==◌, if◌then◌else◌, ok, Returns, returns, Returns-bind, Returns-map, Returns-if,
  arith,
}
use windz.Prelude.Int.{ℤ, pos, negsuc, pos_part, neg_part, sub_ℕ, ltb_ℤ, eqb_ℤ, quot_ℕ, rem_ℕ, ◌+ℤ◌}
use windz.Log.LogStream.{
  digits, table, reverse, convert_loop, convert, convert_fuel, minus, FixBuffer, avail,
  max_numeric_size, format_integer, write_text,
}

abbrev pub magnitude : ℤ → ℕ
magnitude z = pos_part z + neg_part z

-- The number that decimal digits show, the first digit first.
abbrev read_from : ℕ → List ℕ → ℕ
read_from n [] = n
read_from n (c ∷ cs) = read_from (n * 10 + (c - 48)) cs

-- An integer in decimal, as it is read: a '-' in front makes it negative.
abbrev pub parse : List ℕ → ℤ
parse [] = pos 0
parse (c ∷ cs) = if c == minus then sub_ℕ 0 (read_from 0 cs) else pos (read_from 0 (c ∷ cs))

-- The same number, the last digit first.
abbrev value : List ℕ → ℕ
value [] = 0
value (c ∷ cs) = (c - 48) + 10 * value cs

read_from-append :
    (n : ℕ) (cs : List ℕ) (c : ℕ) → read_from n (cs ++ c ∷ []) ≡ read_from n cs * 10 + (c - 48)
read_from-append n [] c = refl
read_from-append n (d ∷ cs) c = read_from-append (n * 10 + (d - 48)) cs c

read_from-reverse : (cs : List ℕ) → read_from 0 (reverse cs) ≡ value cs
unfolding reverse
read_from-reverse [] = refl
read_from-reverse (c ∷ cs) = omega (arith, read_from-append 0 (reverse cs) c, read_from-reverse cs)

digit_of :
    (k : ℕ) → k < 10 → (table digits (9 + k) ≡ ok (48 + k)) × (table digits (9 - k) ≡ ok (48 + k))
unfolding table
digit_of zero h = (refl, refl)
digit_of (suc zero) h = (refl, refl)
digit_of (suc (suc zero)) h = (refl, refl)
digit_of (suc (suc (suc zero))) h = (refl, refl)
digit_of (suc (suc (suc (suc zero)))) h = (refl, refl)
digit_of (suc (suc (suc (suc (suc zero))))) h = (refl, refl)
digit_of (suc (suc (suc (suc (suc (suc zero)))))) h = (refl, refl)
digit_of (suc (suc (suc (suc (suc (suc (suc zero))))))) h = (refl, refl)
digit_of (suc (suc (suc (suc (suc (suc (suc (suc zero)))))))) h = (refl, refl)
digit_of (suc (suc (suc (suc (suc (suc (suc (suc (suc zero))))))))) h = (refl, refl)
digit_of (suc (suc (suc (suc (suc (suc (suc (suc (suc (suc k)))))))))) h = absurd (omega arith)

last_index :
    (i : ℤ)
    → (pos_part (pos 9 +ℤ rem_ℕ i 10) ≡ 9 + magnitude i % 10)
      ⊎ (pos_part (pos 9 +ℤ rem_ℕ i 10) ≡ 9 - magnitude i % 10)
unfolding ◌+ℤ◌ rem_ℕ
last_index (pos n) = inl (ground arith)
last_index (negsuc n) = inr (ground arith)

last_digit : (i : ℤ) → table digits (pos_part (pos 9 +ℤ rem_ℕ i 10)) ≡ ok (48 + magnitude i % 10)
last_digit i =
    let d = digit_of (magnitude i % 10) (omega arith) in
    elim (last_index i) [ inl e ↦ ap (table digits) e ∙ d.0 | inr e ↦ ap (table digits) e ∙ d.1 ]

magnitude-zero : (z : ℤ) → eqb_ℤ z (pos 0) ≡ true → magnitude z ≡ 0
magnitude-zero (pos n) h = ground arith
magnitude-zero (negsuc n) h = ground arith

zero-magnitude : (z : ℤ) → eqb_ℤ z (pos 0) ≡ false → 0 < magnitude z
zero-magnitude (pos n) h = ground arith
zero-magnitude (negsuc n) h = ground arith

magnitude-quot : (i : ℤ) → magnitude (quot_ℕ i 10) ≡ magnitude i / 10
unfolding quot_ℕ
magnitude-quot i = ground arith

abbrev pub AreDigits : List ℕ → Type 0
AreDigits [] = Unit
AreDigits (c ∷ cs) = (48 ≤ c) × AreDigits cs

snoc-AreDigits : (cs : List ℕ) (c : ℕ) → AreDigits cs → 48 ≤ c → AreDigits (cs ++ c ∷ [])
snoc-AreDigits [] c v h = (h, tt)
snoc-AreDigits (d ∷ cs) c v h = (v.0, snoc-AreDigits cs c v.1 h)

reverse-AreDigits : (cs : List ℕ) → AreDigits cs → AreDigits (reverse cs)
unfolding reverse
reverse-AreDigits [] v = tt
reverse-AreDigits (c ∷ cs) v = snoc-AreDigits (reverse cs) c (reverse-AreDigits cs v.1) v.0

reverse-snoc : (cs : List ℕ) (x : ℕ) → reverse (cs ++ x ∷ []) ≡ x ∷ reverse cs
unfolding reverse
reverse-snoc [] x = refl
reverse-snoc (c ∷ cs) x = ap (λ ys. ys ++ c ∷ []) (reverse-snoc cs x)

length-reverse : (cs : List ℕ) → length (reverse cs) ≡ length cs
unfolding reverse
length-reverse [] = refl
length-reverse (c ∷ cs) = omega (arith, length-append (reverse cs) (c ∷ []), length-reverse cs)

parse-digits : (cs : List ℕ) → AreDigits cs → parse cs ≡ pos (read_from 0 cs)
parse-digits [] v = refl
parse-digits (c ∷ cs) v = ground (arith, v.0)

-- Digits, in number at least one and at most `n`, that show `m`.
record Shows (n m : ℕ) (cs : List ℕ) : Type 0 where
  shown : value cs ≡ m
  some_digit : 0 < length cs
  short : length cs ≤ n
  only_digits : AreDigits cs

-- The digits before the last one, if there are any.
record ShowsRest (n m : ℕ) (cs : List ℕ) : Type 0 where
  shown : value cs ≡ m
  short : length cs ≤ n
  only_digits : AreDigits cs

more_fuel : (fuel m : ℕ) → m < 10 ^ fuel → 0 < m → 0 < fuel
more_fuel zero m h p = absurd (omega arith)
more_fuel (suc fuel) m h p = omega arith

with_last : (n m : ℕ) (cs : List ℕ) → ShowsRest n (m / 10) cs → Shows (suc n) m ((48 + m % 10) ∷ cs)
with_last n m cs v = record {
  shown = omega (arith, v.shown);
  some_digit = omega arith;
  short = omega (arith, v.short);
  only_digits = (omega arith, v.only_digits);
}

-- With fuel for as many digits as the number has, the loop gives them.
convert_loop-Shows :
    (fuel : ℕ) (i : ℤ)
    → magnitude i < 10 ^ fuel
    → 0 < fuel
    → Returns (Shows fuel (magnitude i)) (convert_loop fuel i)
unfolding convert_loop
convert_loop-Shows zero i h p = absurd (omega arith)
convert_loop-Shows (suc fuel) i h p =
    let q = quot_ℕ i 10 in
    let smaller : magnitude q < 10 ^ fuel = omega (arith, magnitude-quot i, h) in
    rw (convert_loop, last_digit i)
      (Returns-bind
        (Returns-if (eqb_ℤ q (pos 0))
          (λ t. returns (record {
            shown = omega (arith, magnitude-quot i, magnitude-zero q t);
            short = omega arith;
            only_digits = tt;
          }))
          λ f.
            Returns-map
              (convert_loop-Shows fuel q smaller
                (more_fuel fuel (magnitude q) smaller (zero-magnitude q f)))
              λ cs v. record {
                shown = v.shown ∙ magnitude-quot i;
                short = v.short;
                only_digits = v.only_digits;
              })
        λ cs v. returns (with_last fuel (magnitude i) cs v))

-- A text that reads as `v`.
pub record Reads (v : ℤ) (text : List ℕ) : Type 0 where
  same : parse text ≡ v
  some_digit : 0 < length text
  pub short : length text ≤ 21

positive-Reads :
    (v : ℤ) (cs : List ℕ)
    → ltb_ℤ v (pos 0) ≡ false
    → Shows convert_fuel (magnitude v) cs
    → Reads v (reverse cs)
positive-Reads (pos n) cs h s = record {
  same =
      parse-digits (reverse cs) (reverse-AreDigits cs s.only_digits)
      ∙ ap pos (read_from-reverse cs ∙ s.shown ∙ omega arith);
  some_digit = omega (arith, length-reverse cs, s.some_digit);
  short = omega (arith, length-reverse cs, s.short);
}
positive-Reads (negsuc n) cs h s = absurd (ground arith)

negative-Reads :
    (v : ℤ) (cs : List ℕ)
    → ltb_ℤ v (pos 0) ≡ true
    → Shows convert_fuel (magnitude v) cs
    → Reads v (reverse (cs ++ minus ∷ []))
negative-Reads (pos n) cs h s = absurd (ground arith)
negative-Reads (negsuc n) cs h s = rw (reverse-snoc cs minus) (record {
  same = ap (sub_ℕ 0) (read_from-reverse cs ∙ s.shown) ∙ ground arith;
  some_digit = omega arith;
  short = omega (arith, length-reverse cs, s.short);
})

-- `Convert` of a number of at most 20 digits, as every 64-bit one is, ends and gives a text of at
-- most 21 characters, not empty, that reads as the number.
pub convert-parse : (v : ℤ) → magnitude v < 10 ^ convert_fuel → Returns (Reads v) (convert v)
unfolding convert
convert-parse v h = Returns-bind (convert_loop-Shows convert_fuel v h (omega arith)) λ cs s.
    elim (Bool-cases (ltb_ℤ v (pos 0))) [
      | inl t ↦ rw t (returns (negative-Reads v cs t s))
      | inr f ↦ rw f (returns (positive-Reads v cs f s))
    ]

-- The buffer after a number was put to it.
pub record Printed (v : ℤ) (b b' : FixBuffer) : Type 0 where
  pub inside : length b'.data_ < b.size
  pub same_size : b'.size ≡ b.size
  pub printed : (text : List ℕ) × Reads v text × (b'.data_ ≡ b.data_ ++ text)

-- A number of at most 20 digits is put to a buffer with room for 32 characters as a text that reads
-- as the number, and neither the text nor its final '\0' is written past the end of the array; a
-- buffer with less room stays as it is.
pub format_integer-Printed :
    (v : ℤ) (b : FixBuffer)
    → magnitude v < 10 ^ convert_fuel
    → (max_numeric_size ≤ avail b → Returns (Printed v b) (format_integer v b))
      × (avail b < max_numeric_size → format_integer v b ≡ ok b)
unfolding format_integer write_text
format_integer-Printed v b h = (
  (λ room. rw (le→leb _ _ room) (
      Returns-bind (convert-parse v h) λ text r.
        Returns-require (ltb (length text) (avail b)) _ (lt→ltb _ _ (omega (arith, r.short))) (
          returns (record {
            inside = omega (arith, r.short, length-append b.data_ text);
            same_size = refl;
            printed = (text, r, refl);
          })))),
  (λ full. ground arith),
)
