-- ===== src/Util/Config/Parsing.antt =====
-- What `Parse` of windz/util/Config.cpp reads, and what the getters then find.
use windz.Prelude.{
  ℕ, ◌+◌, ◌<◌, ◌≡◌, refl, sym, ap, subst, ◌∙◌, Bool, false≢true, true, false, ◌||◌, Bool-cases, inl,
  inr, List, [], ◌∷◌, ◌++◌, length, length-append, ◌==◌, if◌then◌else◌, Option, none, some, ok,
  arith,
}
use windz.Prelude.Int.{ℤ, pos}
use windz.Util.Config.{
  Text, Entries, Parser, make_key, find_key, first_char, push_back, parse_section,
  parse_continuation, parse_assignment, parse_line, parse_loop, parse, get_string, get_list,
}
use windz.Util.Config.Chars.{eq_text, eq_text_refl, eq_text→eq, peek, is_space, skip_space}

-- The values under a key, none if the key is missing.
abbrev pub values : Text → Entries → List Text
values key entries = elim (find_key key entries) [ none ↦ [] | some vs ↦ vs ]

values-skip :
    (k key : Text) (vs : List Text) (rest : Entries)
    → eq_text k key ≡ false
    → values key ((k, vs) ∷ rest) ≡ values key rest
unfolding find_key
values-skip k key vs rest e = rw (values, find_key, e) refl

-- `push_back` adds the value at the end of those of its key, and changes no other key.
pub find-push_back :
    (key other v : Text) (entries : Entries)
    → (values key (push_back key v entries) ≡ values key entries ++ v ∷ [])
      × (eq_text key other ≡ false
          → find_key other (push_back key v entries) ≡ find_key other entries)
unfolding find_key push_back
find-push_back key other v [] =
    (rw (values, find_key, push_back, eq_text_refl key) refl, λ h. rw (find_key, push_back, h) refl)
find-push_back key other v ((k, vs) ∷ rest) =
    let ih = find-push_back key other v rest in
    elim (Bool-cases (eq_text k key)) [
      | inl e ↦ (
        rw (values, find_key, push_back, e, e) refl,
        λ h.
            let apart : eq_text k other ≡ false = rw (eq_text→eq k key e) h in
            rw (find_key, push_back, e, apart) refl,
      )
      | inr e ↦ (
        ap
              (λ b.
                values key (if b then (k, vs ++ v ∷ []) ∷ rest else (k, vs) ∷ push_back key v rest))
              e
            ∙ values-skip k key vs (push_back key v rest) e
            ∙ ih.0
            ∙ ap (λ xs. xs ++ v ∷ []) (sym (values-skip k key vs rest e)),
        λ h.
            rw (find_key, push_back, e) (ap (λ f. if eq_text k other then some vs else f) (ih.1 h)),
      )
    ]

-- No key has an empty list.
abbrev pub IsFilled : Entries → Type 0
IsFilled [] = Unit
IsFilled ((k, vs) ∷ rest) = (0 < length vs) × IsFilled rest

push_back-IsFilled :
    (key v : Text) (entries : Entries) → IsFilled entries → IsFilled (push_back key v entries)
unfolding push_back
push_back-IsFilled key v [] f = (omega arith, tt)
push_back-IsFilled key v ((k, vs) ∷ rest) f = elim (Bool-cases (eq_text k key)) [
  | inl e ↦ rw e (omega (arith, length-append vs (v ∷ [])), f.1)
  | inr e ↦ rw e (f.0, push_back-IsFilled key v rest f.1)
]

-- No key has an empty list, and `n` lines were read.
record Filled (n : ℕ) (p : Parser) : Type 0 where
  held : IsFilled p.entries
  number : p.line_num ≡ n

if-Filled :
    {n : ℕ} (b : Bool) {p q : Parser} → Filled n p → Filled n q → Filled n (if b then p else q)
if-Filled true f g = f
if-Filled false f g = g

continuation-Filled :
    {n : ℕ} (line : Text) (p : Parser) (name : Text)
    → p.name ≡ name
    → Filled n p
    → Filled n (parse_continuation line p)
unfolding parse_continuation
continuation-Filled line p [] e f = rw e (record { held = f.held; number = f.number })
continuation-Filled line p (c ∷ cs) e f =
    rw e (record { held = push_back-IsFilled _ _ _ f.held; number = f.number })

stored-IsFilled :
    (bad : Bool) (key v : Text) (entries : Entries)
    → IsFilled entries
    → IsFilled (if bad then entries else push_back key v entries)
stored-IsFilled true key v entries f = f
stored-IsFilled false key v entries f = push_back-IsFilled key v entries f

assignment-Filled :
    {n : ℕ} (line : Text) (p : Parser) → Filled n p → Filled n (parse_assignment line p)
unfolding parse_assignment
assignment-Filled line p f = record {
  held = stored-IsFilled _ _ _ p.entries f.held;
  number = f.number;
}

section-Filled : {n : ℕ} (line : Text) (p : Parser) → Filled n p → Filled n (parse_section line p)
unfolding parse_section
section-Filled line p f = record { held = f.held; number = f.number }

parse_line-Filled :
    {n : ℕ} (line : Text) (p : Parser) → Filled n p → Filled (n + 1) (parse_line line p)
unfolding parse_line
parse_line-Filled {n} line p f =
    let q : Parser = record p { line_num = p.line_num + 1 } in
    let g : Filled (n + 1) q = record { held = f.held; number = ap (λ k. k + 1) f.number } in
    let at = skip_space line in
    if-Filled (peek line == 35 || peek line == 0) g (
      if-Filled (peek line == 91) (section-Filled at q g) (
        if-Filled (is_space (first_char line)) (continuation-Filled at q q.name refl g)
          (assignment-Filled at q g)))

loop-step :
    (line : Text) (lines : List Text) (p : Parser)
    → p.error ≡ false
    → parse_loop (line ∷ lines) p ≡ parse_loop lines (parse_line line p)
unfolding parse_loop
loop-step line lines p e = ap (λ b. if b then p else parse_loop lines (parse_line line p)) e

loop-stop : (lines : List Text) (p : Parser) → p.error ≡ true → parse_loop lines p ≡ p
unfolding parse_loop
loop-stop [] p e = refl
loop-stop (line ∷ lines) p e = ap (λ b. if b then p else parse_loop lines (parse_line line p)) e

loop-append :
    (good more : List Text) (p : Parser)
    → (parse_loop good p).error ≡ false
    → parse_loop (good ++ more) p ≡ parse_loop more (parse_loop good p)
unfolding parse_loop
loop-append [] more p h = refl
loop-append (line ∷ good) more p h = elim (Bool-cases p.error) [
  | inl e ↦
      absurd (false≢true (sym h ∙ ap (λ (q : Parser). q.error) (loop-stop (line ∷ good) p e) ∙ e))
  | inr e ↦
      let first = loop-step line good p e in
      loop-step line (good ++ more) p e
      ∙ loop-append good more (parse_line line p) (ap (λ (q : Parser). q.error) (sym first) ∙ h)
      ∙ ap (parse_loop more) (sym first)
]

-- Where no line was bad, every line was read.
loop-Filled :
    (lines : List Text) {n : ℕ} (p : Parser)
    → Filled n p
    → ((m : ℕ) × Filled m (parse_loop lines p))
      × ((parse_loop lines p).error ≡ false → (parse_loop lines p).line_num ≡ n + length lines)
unfolding parse_loop
loop-Filled [] {n} p f = ((n, f), λ h. f.number ∙ omega arith)
loop-Filled (line ∷ lines) {n} p f = elim (Bool-cases p.error) [
  | inl e ↦
      let stop = loop-stop (line ∷ lines) p e in
      (
        (n, subst (Filled n) (sym stop) f),
        λ h. absurd (false≢true (sym h ∙ ap (λ (q : Parser). q.error) stop ∙ e)),
      )
  | inr e ↦
      let next = loop-step line lines p e in
      let rest = loop-Filled lines (parse_line line p) (parse_line-Filled line p f) in
      (
        (rest.0.0, subst (Filled rest.0.0) (sym next) rest.0.1),
        λ h.
            ap (λ (q : Parser). q.line_num) next
            ∙ rest.1 (sym (ap (λ (q : Parser). q.error) next) ∙ h)
            ∙ omega arith,
      )
]

pub parse-IsFilled :
    (file : Option (List Text)) (entries : Entries)
    → IsFilled entries
    → IsFilled (parse file entries).1
unfolding parse
parse-IsFilled none entries f = f
parse-IsFilled (some lines) entries f =
    (loop-Filled lines _ (record { held = f; number = refl })).0.1.held

-- The first value, or the default where there is none.
abbrev pub first_or : Text → List Text → Text
first_or default [] = default
first_or default (v ∷ vs) = v

find_key-IsFilled :
    (section name default : Text) (entries : Entries)
    → IsFilled entries
    → get_string section name default entries
      ≡ ok (first_or default (get_list section name entries))
unfolding get_string get_list find_key
find_key-IsFilled section name default [] f = refl
find_key-IsFilled section name default ((k, []) ∷ rest) f = absurd (omega (arith, f.0))
find_key-IsFilled section name default ((k, v ∷ vs) ∷ rest) f =
    elim (Bool-cases (eq_text k (make_key section name))) [
      | inl e ↦ rw (get_string, get_list, find_key, e) refl
      | inr e ↦
          rw (get_string, get_list, find_key, e) (find_key-IsFilled section name default rest f.1)
    ]

-- Whatever a file holds, `GetString` on what `Parse` has read never takes the front of an empty
-- list: it gives the first of the values that `GetList` gives, or the default if there are none.
get_string-get_list :
    (file : Option (List Text)) (section name default : Text)
    → let entries = (parse file []).1 in
      get_string section name default entries
      ≡ ok (first_or default (get_list section name entries))
get_string-get_list file section name default =
    find_key-IsFilled section name default (parse file []).1 (parse-IsFilled file [] tt)

-- The variables of `Parse` before the first line.
abbrev pub fresh : Entries → Parser
fresh entries = record { section = []; name = []; line_num = 0; error = false; entries = entries }

-- `Parse` of an open file gives 0 and reads every line if none is bad. Otherwise it gives the number
-- of the first bad line, counted from 1, and reads nothing after it.
pub parse-first_bad :
    (good : List Text)
    → (parse_loop good (fresh [])).error ≡ false
    → (parse (some good) [] ≡ (pos 0, (parse_loop good (fresh [])).entries))
      × ((bad : Text) (rest : List Text)
          → (parse_line bad (parse_loop good (fresh []))).error ≡ true
          → parse (some (good ++ bad ∷ rest)) []
            ≡ (pos (length good + 1), (parse_line bad (parse_loop good (fresh []))).entries))
unfolding parse
parse-first_bad good h =
    let f : Filled 0 (fresh []) = record { held = tt; number = refl } in
    let result : Parser → ℤ × Entries = λ p. (pos (if p.error then p.line_num else 0), p.entries) in
    let p = parse_loop good (fresh []) in
    let number = (loop-Filled good (fresh []) f).1 h in
    (
      ap (λ b. (pos (if b then p.line_num else 0), p.entries)) h,
      λ bad rest e.
          let q = parse_line bad p in
          let g : Filled (length good) p = record {
            held = (loop-Filled good (fresh []) f).0.1.held;
            number = number ∙ omega arith;
          } in
          ap result (
            loop-append good (bad ∷ rest) (fresh []) h
            ∙ loop-step bad rest p h
            ∙ loop-stop rest q e)
          ∙ ap (λ b. (pos (if b then q.line_num else 0), q.entries)) e
          ∙ ap (λ k. (pos k, q.entries)) (parse_line-Filled bad p g).number,
    )
