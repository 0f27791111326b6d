-- ===== src/Util/Config/Tests.antt =====
-- windz/util/Config.cpp at concrete inputs.
use windz.Prelude.{◌+◌, ◌≡◌, refl, false, true, List, [], ◌∷◌, ◌++◌, length, some}
use windz.Prelude.Int.{pos}
use windz.Util.Config.{Text, parse_assignment, parse_line, parse_loop, parse}
use windz.Util.Config.Chars.{skip_space, peek, match, span, till}
use windz.Util.Config.Parsing.{fresh, parse-first_bad}

-- "a = b"
abbrev good_line : Text
good_line = 97 ∷ 32 ∷ 61 ∷ 32 ∷ 98 ∷ 10 ∷ []

-- "a"
abbrev bad_line : Text
bad_line = 97 ∷ 10 ∷ []

good-run : (parse_loop (good_line ∷ []) (fresh [])).error ≡ false
unfolding parse_loop parse_line parse_assignment skip_space peek match span till
good-run = refl

bad-run : (parse_line bad_line (parse_loop (good_line ∷ []) (fresh []))).error ≡ true
unfolding parse_loop parse_line parse_assignment skip_space peek match span till
bad-run = refl

parse-first_bad_example :
    (parse (some (good_line ∷ [])) [] ≡ (pos 0, (parse_loop (good_line ∷ []) (fresh [])).entries))
    × ((bad : Text) (rest : List Text)
        → (parse_line bad (parse_loop (good_line ∷ []) (fresh []))).error ≡ true
        → parse (some ((good_line ∷ []) ++ bad ∷ rest)) [] ≡ (
          pos (length {A = Text} (good_line ∷ []) + 1),
          (parse_line bad (parse_loop (good_line ∷ []) (fresh []))).entries,
        ))
parse-first_bad_example = parse-first_bad (good_line ∷ []) good-run
