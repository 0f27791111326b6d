-- ===== src/Util/Config/Chars.antt =====
-- `LineParser` of windz/util/Config.cpp. Its position is the rest of the line, and an operation
-- gives the text that it took and the new position. The character classes are those of the C
-- locale.
use windz.Prelude.{
  ℕ, ◌+◌, ◌≡◌, refl, Bool, true, false, ◌&&◌, ◌||◌, List, [], ◌∷◌, leb, ◌==◌, if◌then◌else◌, arith,
}

unfoldable pub to_lower : ℕ → ℕ
to_lower c = if leb 65 c && leb c 90 then c + 32 else c

abbrev pub is_space : ℕ → Bool
is_space c = c == 32 || (leb 9 c && leb c 13)

abbrev pub eq_text : List ℕ → List ℕ → Bool
eq_text [] [] = true
eq_text [] (y ∷ ys) = false
eq_text (x ∷ xs) [] = false
eq_text (x ∷ xs) (y ∷ ys) = x == y && eq_text xs ys

pub eq_text_refl : (xs : List ℕ) → eq_text xs xs ≡ true
eq_text_refl [] = refl
eq_text_refl (x ∷ xs) = ground (arith, eq_text_refl xs)

pub eq_text→eq : (xs ys : List ℕ) → eq_text xs ys ≡ true → xs ≡ ys
eq_text→eq [] [] h = refl
eq_text→eq [] (y ∷ ys) h = cc
eq_text→eq (x ∷ xs) [] h = cc
eq_text→eq (x ∷ xs) (y ∷ ys) h = ground (arith, eq_text→eq xs ys)

-- `SkipSpace`
unfoldable pub skip_space : List ℕ → List ℕ
skip_space [] = []
skip_space (c ∷ cs) = if is_space c then skip_space cs else c ∷ cs

-- `Strip` at the end of a text: spaces there are cut.
strip_end : List ℕ → List ℕ
strip_end [] = []
strip_end (c ∷ cs) = elim (strip_end cs) [
  | [] ↦ if is_space c then [] else c ∷ []
  | d ∷ ds ↦ c ∷ d ∷ ds
]

unfoldable pub strip : List ℕ → List ℕ
unfolding strip_end skip_space
strip cs = strip_end (skip_space cs)

-- `Peek`, 0 at the end of the line.
unfoldable pub peek : List ℕ → ℕ
unfolding skip_space
peek line = elim (skip_space line) [ [] ↦ 0 | c ∷ _ ↦ c ]

unfoldable pub match : ℕ → List ℕ → Bool
unfolding peek
match c line = peek line == c

-- The text up to the first character that ends it, and the line from there.
unfoldable pub span : (ℕ → Bool) → List ℕ → List ℕ × List ℕ
span ends [] = ([], [])
span ends (c ∷ cs) =
    let rest = span ends cs in if ends c then ([], c ∷ cs) else (c ∷ rest.0, rest.1)

-- `Till`: the position stays where `c` does not follow.
unfoldable pub till : ℕ → List ℕ → List ℕ × List ℕ
unfolding span strip skip_space
till c line =
    let at = skip_space line in
    let (text, rest) = span (λ d. d == c) at in
    elim rest [ [] ↦ ([], at) | d ∷ ds ↦ (strip text, d ∷ ds) ]

unfoldable pub till_end : List ℕ → List ℕ × List ℕ
unfolding span strip skip_space
till_end line =
    let (text, rest) = span (λ d. is_space d || d == 35) (skip_space line) in (strip text, rest)

unfoldable pub till_space : List ℕ → List ℕ × List ℕ
unfolding span strip skip_space
till_space line = let (text, rest) = span is_space (skip_space line) in (strip text, rest)
