-- ===== src/Base/Util/Formatted.antt =====
-- `Format` of windz/base/Util.cpp.
use windz.Prelude.{
  ℕ, zero, suc, ◌-◌, ◌≤◌, ◌<◌, ◌≡◌, refl, sym, ap, ◌∙◌, Bool-cases, inl, inr, false, List, [], ◌∷◌,
  ◌++◌, length, length-take, take, set, leb, leb→le, ◌==◌, arith,
}
use windz.Base.Util.{vsnprintf, c_string, small_size, large_size, format_large, format}

-- No character is '\0'.
abbrev NoZero : List ℕ → Type 0
NoZero [] = Unit
NoZero (c ∷ cs) = (0 < c) × NoZero cs

take-NoZero : (n : ℕ) (cs : List ℕ) → NoZero cs → NoZero (take n cs)
take-NoZero zero cs h = tt
take-NoZero (suc n) [] h = tt
take-NoZero (suc n) (c ∷ cs) h = (h.0, take-NoZero n cs h.1)

c_string-append : (cs : List ℕ) → NoZero cs → c_string (cs ++ 0 ∷ []) ≡ cs
unfolding c_string
c_string-append [] h = refl
c_string-append (c ∷ cs) h =
    let other : (c == 0) ≡ false = ground (arith, h.0) in
    rw (c_string, other) (ap (◌∷◌ c) (c_string-append cs h.1))

take_short : (m n : ℕ) (cs : List ℕ) → length cs ≤ m → length cs ≤ n → take m cs ≡ take n cs
take_short zero zero [] h k = refl
take_short zero (suc n) [] h k = refl
take_short (suc m) zero [] h k = refl
take_short (suc m) (suc n) [] h k = refl
take_short zero n (c ∷ cs) h k = absurd (omega (arith, h))
take_short (suc m) zero (c ∷ cs) h k = absurd (omega (arith, k))
take_short (suc m) (suc n) (c ∷ cs) h k =
    ap (◌∷◌ c) (take_short m n cs (omega (arith, h)) (omega (arith, k)))

set-last : (cs : List ℕ) (i : ℕ) → i ≡ length cs → set (cs ++ 0 ∷ []) i 0 ≡ cs ++ 0 ∷ []
set-last [] zero h = refl
set-last [] (suc i) h = refl
set-last (c ∷ cs) zero h = absurd (omega (arith, h))
set-last (c ∷ cs) (suc i) h = ap (◌∷◌ c) (set-last cs i (omega (arith, h)))

format_large_lem : (text : List ℕ) → format_large text ≡ take (large_size - 1) text ++ 0 ∷ []
unfolding format_large vsnprintf
format_large_lem text = elim (Bool-cases (leb large_size (length text))) [
  | inl cut ↦ rw cut (
      set-last (take (large_size - 1) text) (large_size - 1)
        (sym (length-take (large_size - 1) text (omega (arith, leb→le _ _ cut)))))
  | inr whole ↦ rw whole refl
]

-- A text of fewer than 30000 characters is formatted whole, and of a longer one its first 29999
-- characters.
format-take : (text : List ℕ) → NoZero text → format text ≡ take (large_size - 1) text
unfolding format vsnprintf
format-take text h = elim (Bool-cases (leb small_size (length text))) [
  | inl large ↦
      rw (format, large)
        (ap c_string (format_large_lem text)
          ∙ c_string-append (take (large_size - 1) text) (take-NoZero (large_size - 1) text h))
  | inr small ↦
      let short : length text < small_size = ground (arith, small) in
      rw (format, small)
        (c_string-append (take (small_size - 1) text) (take-NoZero (small_size - 1) text h)
          ∙ take_short (small_size - 1) (large_size - 1) text (omega (arith, short))
              (omega (arith, short)))
]
