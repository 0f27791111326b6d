-- ===== src/Util/Config.antt =====
-- windz/util/Config.{h,cpp}: a file of sections, names and values. A line is what `fgets` gives,
-- as the codes of its characters without the final '\0'; the map is an association list.
pub mod Chars
pub mod Parsing
mod Tests
use windz.Prelude.{
  ℕ, zero, suc, ◌+◌, ◌≤◌, ◌<◌, ◌≡◌, Bool, true, false, not, ◌&&◌, ◌||◌, List, [], ◌∷◌, ◌++◌, drop,
  map, ltb, leb, ◌==◌, if◌then◌else◌, Option, none, some, Run, ok, fault, out_of_bounds, ◌>>=◌,
}
use windz.Prelude.Int.{ℤ, pos, negsuc}
use Chars.{to_lower, is_space, eq_text, skip_space, peek, match, till, till_end, till_space}

abbrev pub Text : Type 0
Text = List ℕ

abbrev pub Entries : Type 0
Entries = List (Text × List Text)

-- `MakeKey`: 46 is the full stop.
pub make_key : Text → Text → Text
make_key section name = map to_lower (section ++ 46 ∷ name)

-- `config_.find(key)`
pub find_key : Text → Entries → Option (List Text)
find_key key [] = none
find_key key ((k, vs) ∷ rest) = if eq_text k key then some vs else find_key key rest

-- `config_[key].push_back(v)`
pub push_back : Text → Text → Entries → Entries
push_back key v [] = (key, v ∷ []) ∷ []
push_back key v ((k, vs) ∷ rest) =
    if eq_text k key then (k, vs ++ v ∷ []) ∷ rest else (k, vs) ∷ push_back key v rest

-- The variables of `Parse`, with the map that it fills.
pub record Parser : Type 0 where
  pub section : Text
  pub name : Text
  pub line_num : ℕ
  pub error : Bool
  pub entries : Entries

-- A line that begins with '[' (91): the section is closed by ']' (93).
parse_section : Text → Parser → Parser
parse_section line p =
    let (section, rest) = till 93 (drop 1 line) in
    record p { section = section; error = not (match 93 rest); name = [] }

-- A line that begins with a space: one more value of the last name.
parse_continuation : Text → Parser → Parser
unfolding make_key push_back
parse_continuation line p = elim p.name [
  | [] ↦ record p { error = true }
  | _ ∷ _ ↦ record p { entries = push_back (make_key p.section p.name) (till_end line).0 p.entries }
]

-- Any other line: a name, '=' (61) or else ':' (58), and a value.
parse_assignment : Text → Parser → Parser
unfolding make_key push_back
parse_assignment line p =
    let equal = till 61 line in
    let colon = till 58 line in
    let (name, rest) = if match 61 equal.1 then equal else colon in
    let bad = not (match 61 equal.1) && not (match 58 colon.1) in
    let key = make_key p.section name in
    record p {
      name = name;
      error = bad;
      entries =
          if bad
          then p.entries
          else push_back key (till_space (drop 1 (skip_space rest))).0 p.entries;
    }

-- `line[0]`
abbrev pub first_char : Text → ℕ
first_char [] = 0
first_char (c ∷ cs) = c

-- The body of the loop of `Parse`; 35 is '#'.
pub parse_line : Text → Parser → Parser
unfolding parse_section parse_continuation parse_assignment
parse_line line p =
    let q = record p { line_num = p.line_num + 1 } in
    let at = skip_space line in
    let c = peek line in
    if c == 35 || c == 0
    then q
    else if c == 91
    then parse_section at q
    else if is_space (first_char line)
    then parse_continuation at q
    else parse_assignment at q

pub parse_loop : List Text → Parser → Parser
unfolding parse_line
parse_loop [] p = p
parse_loop (line ∷ lines) p = if p.error then p else parse_loop lines (parse_line line p)

-- `Parse`: -1 if the file cannot be opened, the number of the first bad line, or 0.
pub parse : Option (List Text) → Entries → ℤ × Entries
unfolding parse_loop
parse none entries = (negsuc 0, entries)
parse (some lines) entries =
    let p =
      parse_loop lines
        (record { section = []; name = []; line_num = 0; error = false; entries = entries }) in
    (pos (if p.error then p.line_num else 0), p.entries)

-- `GetString`: `front()` of an empty list is undefined, and a fault here.
pub get_string : Text → Text → Text → Entries → Run Text
unfolding make_key find_key
get_string section name default entries = elim (find_key (make_key section name) entries) [
  | none ↦ ok default
  | some [] ↦ fault out_of_bounds
  | some (v ∷ _) ↦ ok v
]

pub get_list : Text → Text → Entries → List Text
unfolding make_key find_key
get_list section name entries = elim (find_key (make_key section name) entries) [
  | none ↦ []
  | some vs ↦ vs
]

-- `strtol` with base 0 is the C library's: the number and whether anything was read.
pub get_int : (Text → ℤ × Bool) → Text → Text → ℤ → Entries → Run ℤ
unfolding get_string
get_int strtol section name default entries = get_string section name [] entries >>= λ s.
    let (val, some_read) = strtol s in ok (if some_read then val else default)

-- `GetDouble`, over the numbers `D` of the C library's `strtod`.
pub get_double {ℓ} : {D : Type ℓ} → (Text → D × Bool) → Text → Text → D → Entries → Run D
unfolding get_string
get_double strtod section name default entries = get_string section name [] entries >>= λ s.
    let (val, some_read) = strtod s in ok (if some_read then val else default)

-- The words of `GetBool`.
abbrev pub is_yes : Text → Bool
is_yes s =
    eq_text s (116 ∷ 114 ∷ 117 ∷ 101 ∷ [])
    || eq_text s (121 ∷ 101 ∷ 115 ∷ [])
    || eq_text s (111 ∷ 110 ∷ [])
    || eq_text s (49 ∷ [])

abbrev pub is_no : Text → Bool
is_no s =
    eq_text s (102 ∷ 97 ∷ 108 ∷ 115 ∷ 101 ∷ [])
    || eq_text s (110 ∷ 111 ∷ [])
    || eq_text s (111 ∷ 102 ∷ 102 ∷ [])
    || eq_text s (48 ∷ [])

pub get_bool : Text → Text → Bool → Entries → Run Bool
unfolding get_string
get_bool section name default entries = get_string section name [] entries >>= λ s.
    let word = map to_lower s in
    ok (if is_yes word then true else if is_no word then false else default)
