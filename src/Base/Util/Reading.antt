-- ===== src/Base/Util/Reading.antt =====
-- `Readn` of windz/base/Util.cpp, and what it reads of what `WriteFd` wrote.
use windz.Prelude.{
  ℕ, zero, suc, ◌+◌, ◌-◌, ◌≤◌, ◌≡◌, sym, ap, ap₂, ◌∙◌, List, [], ◌∷◌, ◌++◌, append-nil,
  append_assoc, length, length-append, take, take-length_append, Option, some, Run, ok, ◌>>=◌,
  arith,
}
use windz.Base.Util.{
  WriteAnswer, write_fd, ReadAnswer, got, read_interrupted, read_would_block, read_failed, readn,
}
use windz.Base.Util.Complete.{delivered, Takes, write_fd_lem}

-- `read` never gives more than it was asked for: the rest of `n` bytes.
abbrev pub Fits : List ReadAnswer → ℕ → Type 0
Fits [] n = Unit
Fits (got bs ∷ answers) n = (length bs ≤ n) × Fits answers (n - length bs)
Fits (read_interrupted ∷ answers) n = Fits answers n
Fits (read_would_block ∷ answers) n = Unit
Fits (read_failed ∷ answers) n = Unit

-- The answers give `n` bytes, or lead to the end of the file or to an empty socket.
abbrev pub Suffices : List ReadAnswer → ℕ → Type 0
Suffices answers zero = Unit
Suffices [] (suc n) = ⊥
Suffices (got [] ∷ answers) (suc n) = Unit
Suffices (got (b ∷ bs) ∷ answers) (suc n) = Suffices answers (suc n - length (b ∷ bs))
Suffices (read_interrupted ∷ answers) (suc n) = Suffices answers (suc n)
Suffices (read_would_block ∷ answers) (suc n) = Unit
Suffices (read_failed ∷ answers) (suc n) = ⊥

take-append_of_le :
    (xs ys : List ℕ) (n : ℕ) → length xs ≤ n → take n (xs ++ ys) ≡ xs ++ take (n - length xs) ys
take-append_of_le [] ys n h = ap (λ k. take k ys) (omega arith)
take-append_of_le (x ∷ xs) ys zero h = absurd (omega (arith, h))
take-append_of_le (x ∷ xs) ys (suc n) h =
    ap (◌∷◌ x)
      (take-append_of_le xs ys n (omega (arith, h)) ∙ ap (λ k. xs ++ take k ys) (omega arith))

abbrev pub done : ℕ → List ℕ → Run (Option ℕ × List ℕ)
done n bytes = ok (some n, bytes)

-- What a call that stops now gives.
nothing_more : (sum : ℕ) (buf : List ℕ) → done sum buf ≡ done (sum + 0) (buf ++ [])
nothing_more sum buf = ap₂ done (omega arith) (sym (append-nil buf))

readn-take :
    (answers : List ReadAnswer) (n sum : ℕ) (buf : List ℕ)
    → Fits answers n
    → Suffices answers n
    → readn answers n sum buf
      ≡ done (sum + length (take n (delivered answers))) (buf ++ take n (delivered answers))
unfolding readn
readn-take [] zero sum buf f e = nothing_more sum buf
readn-take (a ∷ answers) zero sum buf f e = nothing_more sum buf
readn-take [] (suc n) sum buf f e = absurd e
readn-take (got [] ∷ answers) (suc n) sum buf f e = nothing_more sum buf
readn-take (got (b ∷ bs) ∷ answers) (suc n) sum buf f e =
    let rest = take (suc n - length (b ∷ bs)) (delivered answers) in
    let all : take (suc n) ((b ∷ bs) ++ delivered answers) ≡ (b ∷ bs) ++ rest =
      take-append_of_le (b ∷ bs) (delivered answers) (suc n) f.0 in
    readn-take answers (suc n - length (b ∷ bs)) (sum + length (b ∷ bs)) (buf ++ b ∷ bs) f.1 e
    ∙ ap₂ done (omega (arith, ap length all, length-append (b ∷ bs) rest))
        (append_assoc buf (b ∷ bs) rest ∙ ap (λ l. buf ++ l) (sym all))
readn-take (read_interrupted ∷ answers) (suc n) sum buf f e = readn-take answers (suc n) sum buf f e
readn-take (read_would_block ∷ answers) (suc n) sum buf f e = nothing_more sum buf
readn-take (read_failed ∷ answers) (suc n) sum buf f e = absurd e

-- Bytes that are written by `WriteFd`, and come to another process in their order, before others or
-- not, are read there by `Readn`: all of them and no others, however the two calls are cut into
-- parts or interrupted, as long as no call of the system fails.
pub readn-write_fd :
    (taken : List WriteAnswer) (answers : List ReadAnswer) (buf more : List ℕ)
    → Takes taken (length buf)
    → delivered answers ≡ buf ++ more
    → Fits answers (length buf)
    → Suffices answers (length buf)
    → (write_fd taken buf >>= λ (n, sent). readn answers (length sent) 0 []) ≡ done (length buf) buf
readn-write_fd taken answers buf more t d f e =
    let all : take (length buf) (delivered answers) ≡ buf =
      ap (take (length buf)) d ∙ take-length_append buf more in
    ap (λ (r : Run (Option ℕ × List ℕ)). r >>= λ (n, sent). readn answers (length sent) 0 [])
      (write_fd_lem taken buf t)
    ∙ readn-take answers (length buf) 0 [] f e
    ∙ ap₂ done (omega (arith, ap length all)) all
