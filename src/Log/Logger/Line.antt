-- ===== src/Log/Logger/Line.antt =====
-- A line of windz/log/Logger.cpp: one chain of `<<`, and its text.
use windz.Prelude.{
  Option, none, some, ℕ, ◌+◌, ◌^◌, ◌≤◌, ◌<◌, ◌≡◌, refl, sym, ap, ◌∙◌, Bool-cases, inl, inr, List,
  [], ◌∷◌, ◌++◌, append-nil, append_assoc, length, length-append, ltb, leb, leb→le, Run, ok, fault,
  ◌>>=◌, Returns, returns, Returns-bind, Returns-map, arith,
}
use windz.Prelude.Int.{ℤ, pos, eqb_ℤ}
use windz.Log.LogStream.{
  FixBuffer, avail, convert_fuel, max_numeric_size, append, format_integer, format_char,
  format_string,
}
use windz.Log.LogStream.Decimal.{magnitude, Reads, format_integer-Printed}
use windz.Log.Logger.{
  Item, number, char, string, put, put_all, Stamp, errno_items, func_items, Macro, errno_of,
}

-- At most 20 digits, as every `int` has.
abbrev pub IsInteger : ℤ → Type 0
IsInteger v = magnitude v < 10 ^ convert_fuel

abbrev pub AreSized : List Item → Type 0
AreSized [] = Unit
AreSized (number v ∷ is) = IsInteger v × AreSized is
AreSized (char c ∷ is) = AreSized is
AreSized (string s ∷ is) = AreSized is

abbrev pub IsSized : Item → Type 0
IsSized (number v) = IsInteger v
IsSized (char c) = Unit
IsSized (string s) = Unit

-- The text of an item.
abbrev pub IsText : Item → List ℕ → Type 0
IsText (number v) t = Reads v t
IsText (char c) t = t ≡ c ∷ []
IsText (string s) t = t ≡ s

abbrev pub AreTexts : List Item → List ℕ → Type 0
AreTexts [] t = t ≡ []
AreTexts (i ∷ is) t =
    (s : List ℕ) × (rest : List ℕ) × IsText i s × AreTexts is rest × (t ≡ s ++ rest)

-- The room that an item asks for.
abbrev pub room : Item → ℕ
room (number v) = max_numeric_size
room (char c) = 1
room (string s) = length s

abbrev pub room_all : List Item → ℕ
room_all [] = 0
room_all (i ∷ is) = room i + room_all is

-- The buffer after items were put to it.
pub record Put (needed : ℕ) (TextOf : List ℕ → Type 0) (b b' : FixBuffer) : Type 0 where
  pub inside : length b'.data_ < b'.size
  pub same_size : b'.size ≡ b.size
  pub text :
      needed < avail b → (t : List ℕ) × TextOf t × (b'.data_ ≡ b.data_ ++ t) × (length t ≤ needed)

append-Put :
    (s : List ℕ) (b : FixBuffer)
    → length b.data_ < b.size
    → Put (length s) (λ t. t ≡ s) b (append s b)
unfolding append
append-Put s b h = elim (Bool-cases (ltb (length s) (avail b))) [
  | inl fits ↦ rw fits (record {
    inside = ground (arith, length-append b.data_ s, fits);
    same_size = refl;
    text = λ r. (s, refl, refl, omega arith);
  })
  | inr full ↦
      rw full
        (record { inside = h; same_size = refl; text = λ r. absurd (ground (arith, full, r)) })
]

number-Put :
    (v : ℤ) (b : FixBuffer)
    → IsInteger v
    → length b.data_ < b.size
    → Returns (Put max_numeric_size (Reads v) b) (format_integer v b)
number-Put v b w h =
    let printed = format_integer-Printed v b w in
    elim (Bool-cases (leb max_numeric_size (avail b))) [
      | inl fits ↦ Returns-map (printed.0 (leb→le _ _ fits)) λ b' p. record {
        inside = omega (arith, p.inside, p.same_size);
        same_size = p.same_size;
        text = λ r. (p.printed.0, p.printed.1, p.printed.2, omega (arith, p.printed.1.short));
      }
      | inr full ↦ rw (printed.1 (ground (arith, full))) (
          returns
            (record { inside = h; same_size = refl; text = λ r. absurd (ground (arith, r, full)) }))
    ]

IsSized-head : (i : Item) (is : List Item) → AreSized (i ∷ is) → IsSized i
IsSized-head (number v) is w = w.0
IsSized-head (char c) is w = tt
IsSized-head (string s) is w = tt

AreSized-tail : (i : Item) (is : List Item) → AreSized (i ∷ is) → AreSized is
AreSized-tail (number v) is w = w.1
AreSized-tail (char c) is w = w
AreSized-tail (string s) is w = w

put-Put :
    (i : Item) (b : FixBuffer)
    → IsSized i
    → length b.data_ < b.size
    → Returns (Put (room i) (IsText i) b) (put i b)
unfolding put format_char format_string
put-Put (number v) b w h = number-Put v b w h
put-Put (char c) b w h = returns (append-Put (c ∷ []) b h)
put-Put (string s) b w h = returns (append-Put s b h)

-- Items within the room that is left are put one after the other, and others never past the end.
pub put_all-Put :
    (is : List Item) (b : FixBuffer)
    → AreSized is
    → length b.data_ < b.size
    → Returns (Put (room_all is) (AreTexts is) b) (put_all is b)
unfolding put_all
put_all-Put [] b w h = returns (record {
  inside = h;
  same_size = refl;
  text = λ r. ([], refl, sym (append-nil b.data_), omega arith);
})
put_all-Put (i ∷ is) b w h = Returns-bind (put-Put i b (IsSized-head i is w) h) λ b1 p.
    Returns-map (put_all-Put is b1 (AreSized-tail i is w) p.inside) λ b2 q. record {
      inside = q.inside;
      same_size = q.same_size ∙ p.same_size;
      text = λ r.
          let first = p.text (omega (arith, r)) in
          let next = q.text (
            omega
              (arith, r, first.3, p.same_size, ap length first.2, length-append b.data_ first.0)) in
          (
            first.0 ++ next.0,
            (first.0, next.0, first.1, next.1, refl),
            next.2 ∙ ap (λ d. d ++ next.0) first.2 ∙ append_assoc b.data_ first.0 next.0,
            omega (arith, length-append first.0 next.0, first.3, next.3),
          );
    }

pub bind_assoc :
    {A B C : Type 0} (r : Run A) (f : A → Run B) (g : B → Run C) (h : A → Run C)
    → ((a : A) → h a ≡ (f a >>= g))
    → (r >>= h) ≡ ((r >>= f) >>= g)
bind_assoc (ok a) f g h same = same a
bind_assoc (fault e) f g h same = refl

put_all-append :
    (is js : List Item) (b : FixBuffer)
    → put_all (is ++ js) b ≡ (put_all is b >>= λ b. put_all js b)
unfolding put_all
put_all-append [] js b = refl
put_all-append (i ∷ is) js b =
    bind_assoc (put i b) (put_all is) (put_all js) (put_all (is ++ js))
      λ b1. put_all-append is js b1

-- A chain that a longer chain goes on with.
pub put_all_then :
    {A : Type 0} (is js : List Item) (b : FixBuffer) (l k : FixBuffer → Run A)
    → ((b : FixBuffer) → l b ≡ (put_all js b >>= k))
    → (put_all is b >>= l) ≡ (put_all (is ++ js) b >>= k)
put_all_then is js b l k same =
    bind_assoc (put_all is b) (put_all js) k l same
    ∙ ap (λ r. r >>= k) (sym (put_all-append is js b))

pub append-AreSized : (is js : List Item) → AreSized is → AreSized js → AreSized (is ++ js)
append-AreSized [] js v w = w
append-AreSized (number n ∷ is) js v w = (v.0, append-AreSized is js v.1 w)
append-AreSized (char c ∷ is) js v w = append-AreSized is js v w
append-AreSized (string s ∷ is) js v w = append-AreSized is js v w

pub errno_items-AreSized : (m : Stamp) (e : ℤ) → IsInteger e → AreSized (errno_items m e)
errno_items-AreSized m e h = elim (Bool-cases (eqb_ℤ e (pos 0))) [
  | inl none_set ↦ rw none_set tt
  | inr set ↦ rw set (h, tt)
]

pub func_items-AreSized : (func : Option (List ℕ)) → AreSized (func_items func)
func_items-AreSized none = tt
func_items-AreSized (some f) = tt

pub errno_of-IsInteger : (macro : Macro) (e : ℤ) → IsInteger e → IsInteger (errno_of macro e)
unfolding errno_of
errno_of-IsInteger Macro.log_trace e h = omega arith
errno_of-IsInteger Macro.log_debug e h = omega arith
errno_of-IsInteger Macro.log_info e h = omega arith
errno_of-IsInteger Macro.log_warn e h = omega arith
errno_of-IsInteger Macro.log_error e h = omega arith
errno_of-IsInteger Macro.log_fatal e h = omega arith
errno_of-IsInteger Macro.log_syserr e h = h
errno_of-IsInteger Macro.log_sysfatal e h = h
