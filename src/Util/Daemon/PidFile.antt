-- ===== src/Util/Daemon/PidFile.antt =====
-- windz/util/Daemon.cpp: the pid file, written and read back.
use windz.Prelude.{
  ℕ, zero, suc, ◌+◌, ◌-◌, ◌*◌, ◌≤◌, ◌<◌, ◌≡◌, refl, ap, ◌∙◌, true, false, List, [], ◌∷◌, ◌++◌,
  length, take, drop, set, get_or, some, arith,
}
use windz.Prelude.Int.{pos, pos_part}
use windz.Util.Daemon.{
  Machine, Answers, is_digit, read_digits, signed, atoi, buf_size, buffer_of, get_pid_from_file,
  write_pid_file,
}

abbrev pub AreDigits : List ℕ → Type 0
AreDigits [] = Unit
AreDigits (c ∷ cs) = (is_digit c ≡ true) × AreDigits cs

-- What `snprintf` with "%d" gives for a pid: at most ten digits, that read as it.
pub record IsDecimal (n : ℕ) (text : List ℕ) : Type 0 where
  pub all_digits : AreDigits text
  pub some_digit : 0 < length text
  pub short : length text ≤ 10
  pub value : read_digits 0 text ≡ n

read_digits-append :
    (n : ℕ) (text rest : List ℕ)
    → AreDigits text
    → read_digits n (text ++ rest) ≡ read_digits (read_digits n text) rest
unfolding read_digits
read_digits-append n [] rest d = refl
read_digits-append n (c ∷ cs) rest d =
    rw (read_digits, d.0) (read_digits-append (n * 10 + (c - 48)) cs rest d.1)

le-read_digits : (n : ℕ) (text : List ℕ) → n ≤ read_digits n text
unfolding read_digits
le-read_digits n [] = omega arith
le-read_digits n (c ∷ cs) = ground (arith, le-read_digits (n * 10 + (c - 48)) cs)

-- A text that begins with a digit.
atoi-digits :
    (c : ℕ) (cs : List ℕ) → is_digit c ≡ true → atoi (c ∷ cs) ≡ pos (read_digits 0 (c ∷ cs))
unfolding atoi signed
atoi-digits c cs d = ground (arith, d)

set-append :
    (xs ys : List ℕ) (i k v : ℕ) → i ≡ length xs + k → set (xs ++ ys) i v ≡ xs ++ set ys k v
set-append [] ys i k v h = ap (λ j. set ys j v) (omega (arith, h))
set-append (x ∷ xs) ys zero k v h = absurd (omega (arith, h))
set-append (x ∷ xs) ys (suc i) k v h = ap (◌∷◌ x) (set-append xs ys i k v (omega (arith, h)))

take-all : (n : ℕ) (xs : List ℕ) → length xs ≤ n → take n xs ≡ xs
take-all zero [] h = refl
take-all zero (x ∷ xs) h = absurd (omega arith)
take-all (suc n) [] h = refl
take-all (suc n) (x ∷ xs) h = ap (◌∷◌ x) (take-all n xs (omega arith))

-- The first entry that stands behind `n` others.
drop-cons : (n : ℕ) (xs : List ℕ) → n < length xs → drop n xs ≡ get_or xs n 0 ∷ drop (suc n) xs
drop-cons n [] h = absurd (omega arith)
drop-cons zero (x ∷ xs) h = refl
drop-cons (suc n) (x ∷ xs) h = drop-cons n xs (omega arith)

-- The array behind a short text holds what it held before.
behind :
    (stale text : List ℕ)
    → length stale ≡ buf_size
    → length text ≤ 10
    → (cs : List ℕ) × (buffer_of stale text ≡ text ++ get_or stale (length text) 0 ∷ cs)
unfolding buffer_of
behind stale text s h =
    let k = 14 - length text in
    let all = take-all buf_size text (omega (arith, h)) in
    let next = drop-cons (length text) stale (omega (arith, s, h)) in
    (
      set (drop (suc (length text)) stale) k 0,
      ap (λ front. set (front ++ drop (length front) stale) 15 0) all
          ∙ set-append text (drop (length text) stale) 15 (suc k) 0 (omega (arith, h))
          ∙ ap (λ rest. text ++ set rest (suc k) 0) next,
    )

-- The number that is read when a pid file holds a pid.
read-pid :
    (stale text : List ℕ) (m : Machine) (pid : ℕ)
    → m.pid_file ≡ some text
    → IsDecimal pid text
    → length stale ≡ buf_size
    → (cs : List ℕ) × (get_pid_from_file stale m
        ≡ pos (read_digits pid (get_or stale (length text) 0 ∷ cs)))
unfolding get_pid_from_file
read-pid stale [] m pid h d s = absurd (omega (arith, d.some_digit))
read-pid stale (c ∷ text) m pid h d s =
    let b = behind stale (c ∷ text) s d.short in
    (
      b.0,
      rw h (
          ap atoi b.1
          ∙ atoi-digits c (text ++ get_or stale (length (c ∷ text)) 0 ∷ b.0) d.all_digits.0
          ∙ ap pos (
              read_digits-append 0 (c ∷ text) (get_or stale (length (c ∷ text)) 0 ∷ b.0)
                d.all_digits
              ∙ ap (λ n. read_digits n (get_or stale (length (c ∷ text)) 0 ∷ b.0)) d.value)),
    )

module _ (snprintf_d : ℕ → List ℕ) (a : Answers) (stale : List ℕ) (m : Machine) where
  abbrev pub after_write : Machine
  after_write = (write_pid_file snprintf_d a m).1

  written :
      a.pid_opened ≡ true
      → a.locked ≡ true
      → length (snprintf_d a.own_pid) ≤ a.writable
      → after_write.pid_file ≡ some (snprintf_d a.own_pid)
  unfolding write_pid_file
  written o l w = ground (arith, o, l, take-all a.writable (snprintf_d a.own_pid) w)

  -- A pid that was written whole to the pid file is read back, if the array that it is read to does
  -- not happen to hold a digit right behind it.
  pub get_pid_from_file-write_pid_file :
      a.pid_opened ≡ true
      → a.locked ≡ true
      → length (snprintf_d a.own_pid) ≤ a.writable
      → IsDecimal a.own_pid (snprintf_d a.own_pid)
      → length stale ≡ buf_size
      → is_digit (get_or stale (length (snprintf_d a.own_pid)) 0) ≡ false
      → get_pid_from_file stale after_write ≡ pos a.own_pid
  unfolding read_digits
  get_pid_from_file-write_pid_file o l w d s e =
      let r = read-pid stale (snprintf_d a.own_pid) after_write a.own_pid (written o l w) d s in
      r.1 ∙ ap pos (rw (read_digits, e) refl)

  -- Where the array does hold a digit there, another number is read: one that is ten times the pid
  -- at least.
  stale_digit-pid :
      a.pid_opened ≡ true
      → a.locked ≡ true
      → length (snprintf_d a.own_pid) ≤ a.writable
      → IsDecimal a.own_pid (snprintf_d a.own_pid)
      → length stale ≡ buf_size
      → is_digit (get_or stale (length (snprintf_d a.own_pid)) 0) ≡ true
      → 10 * a.own_pid ≤ pos_part (get_pid_from_file stale after_write)
  unfolding read_digits
  stale_digit-pid o l w d s e =
      let r = read-pid stale (snprintf_d a.own_pid) after_write a.own_pid (written o l w) d s in
      let c = get_or stale (length (snprintf_d a.own_pid)) 0 in
      let more = le-read_digits (a.own_pid * 10 + (c - 48)) r.0 in
      let same : read_digits a.own_pid (c ∷ r.0) ≡ read_digits (a.own_pid * 10 + (c - 48)) r.0 =
        rw (read_digits, e) refl in
      omega (arith, more, same, ap pos_part r.1)
