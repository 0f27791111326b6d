-- ===== src/Log/LogStream.antt =====
-- windz/log/LogStream.{h,cpp}: a line of the log in a buffer of fixed size, and the conversion of
-- integers to text. Characters are their codes. A write past the end of the array is a fault, and
-- so is the end of the fuel of a conversion, its number of digits.
pub mod Decimal
mod Tests
use windz.Prelude.{
  ℕ, zero, suc, ◌+◌, ◌-◌, ◌*◌, ◌/◌, ◌%◌, ◌^◌, ◌≤◌, ◌<◌, ◌≡◌, Bool, true, false, not, List, [], ◌∷◌,
  ◌++◌, length, get_elem?, ltb, leb, ◌==◌, if◌then◌else◌, Option, none, some, Run, ok, fault,
  out_of_bounds, out_of_fuel, ◌>>=◌, ◌>>◌, require,
}
use windz.Prelude.Int.{ℤ, pos, pos_part, neg_part, ltb_ℤ, eqb_ℤ, quot_ℕ, rem_ℕ, ◌+ℤ◌}

abbrev pub small_buffer : ℕ
small_buffer = 4000

abbrev pub large_buffer : ℕ
large_buffer = 4000 * 1000

-- `size` is the length of the array, `data` what stands before `cur_`.
pub record FixBuffer : Type 0 where
  pub size : ℕ
  pub data_ : List ℕ

unfoldable pub new_fix_buffer : ℕ → FixBuffer
new_fix_buffer size = record { size = size; data_ = [] }

abbrev pub avail : FixBuffer → ℕ
avail b = b.size - length b.data_

abbrev pub buffer_length : FixBuffer → ℕ
buffer_length b = length b.data_

-- `FixBuffer::Append`: nothing is kept of what does not fit.
unfoldable pub append : List ℕ → FixBuffer → FixBuffer
append bytes b = if ltb (length bytes) (avail b) then record b { data_ = b.data_ ++ bytes } else b

unfoldable pub reset : FixBuffer → FixBuffer
reset b = record b { data_ = [] }

-- The text "9876543210123456789" and the text "0123456789abcdef".
abbrev pub digits : List ℕ
digits =
    57 ∷ 56 ∷ 55 ∷ 54 ∷ 53 ∷ 52 ∷ 51 ∷ 50 ∷ 49 ∷ 48 ∷ 49 ∷ 50 ∷ 51 ∷ 52 ∷ 53 ∷ 54 ∷ 55 ∷ 56 ∷ 57
    ∷ []

abbrev pub digits_hex : List ℕ
digits_hex = 48 ∷ 49 ∷ 50 ∷ 51 ∷ 52 ∷ 53 ∷ 54 ∷ 55 ∷ 56 ∷ 57 ∷ 97 ∷ 98 ∷ 99 ∷ 100 ∷ 101 ∷ 102 ∷ []

pub table : List ℕ → ℕ → Run ℕ
table xs i = elim (get_elem? xs i) [ none ↦ fault out_of_bounds | some c ↦ ok c ]

-- `std::reverse`
pub reverse : List ℕ → List ℕ
reverse [] = []
reverse (x ∷ xs) = reverse xs ++ x ∷ []

-- The loop of `Convert`: the digits from the last one on. `zero[lsd]` is read around the middle.
pub convert_loop : ℕ → ℤ → Run (List ℕ)
unfolding table
convert_loop zero i = fault out_of_fuel
convert_loop (suc fuel) i =
    let lsd = pos 9 +ℤ rem_ℕ i 10 in
    let rest = convert_loop fuel (quot_ℕ i 10) in
    do
      c ← table digits (pos_part lsd)
      cs ← if eqb_ℤ (quot_ℕ i 10) (pos 0) then ok [] else rest
      ok (c ∷ cs)

-- 64 bits have at most 20 digits.
abbrev pub convert_fuel : ℕ
convert_fuel = 20

abbrev pub minus : ℕ
minus = 45

pub convert : ℤ → Run (List ℕ)
unfolding convert_loop reverse
convert value = do
  cs ← convert_loop convert_fuel value
  ok (reverse (if ltb_ℤ value (pos 0) then cs ++ minus ∷ [] else cs))

pub hex_loop : ℕ → ℕ → Run (List ℕ)
unfolding table
hex_loop zero i = fault out_of_fuel
hex_loop (suc fuel) i =
    let rest = hex_loop fuel (i / 16) in
    do c ← table digits_hex (i % 16); cs ← if i / 16 == 0 then ok [] else rest; ok (c ∷ cs)

abbrev pub hex_fuel : ℕ
hex_fuel = 16

pub convert_hex : ℕ → Run (List ℕ)
unfolding hex_loop reverse
convert_hex value = hex_loop hex_fuel value >>= λ cs. ok (reverse cs)

abbrev pub max_numeric_size : ℕ
max_numeric_size = 32

-- The text and its final '\0' are written at `cur_`, which then moves over the text.
pub write_text : List ℕ → FixBuffer → Run FixBuffer
write_text text b = do
  require (ltb (length text) (avail b)) out_of_bounds
  ok (record b { data_ = b.data_ ++ text })

pub format_integer : ℤ → FixBuffer → Run FixBuffer
unfolding convert write_text
format_integer v b =
    let formatted = convert v >>= λ text. write_text text b in
    if leb max_numeric_size (avail b) then formatted else ok b

pub format_pointer : ℕ → FixBuffer → Run FixBuffer
unfolding convert_hex write_text
format_pointer v b =
    let formatted = convert_hex v >>= λ text. write_text (48 ∷ 120 ∷ text) b in
    if leb max_numeric_size (avail b) then formatted else ok b

pub format_bool : Bool → FixBuffer → FixBuffer
unfolding append
format_bool v b = append (if v then 49 ∷ [] else 48 ∷ []) b

unfoldable pub format_char : ℕ → FixBuffer → FixBuffer
unfolding append
format_char v b = append (v ∷ []) b

-- A null pointer is `none`, and is shown as "(null)".
pub format_cstring : Option (List ℕ) → FixBuffer → FixBuffer
unfolding append
format_cstring none b = append (40 ∷ 110 ∷ 117 ∷ 108 ∷ 108 ∷ 41 ∷ []) b
format_cstring (some s) b = append s b

unfoldable pub format_string : List ℕ → FixBuffer → FixBuffer
unfolding append
format_string s b = append s b
