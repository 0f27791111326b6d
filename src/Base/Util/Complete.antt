-- ===== src/Base/Util/Complete.antt =====
-- When the loops of windz/base/Util.cpp are done, and with what.
use windz.Prelude.{
  ℕ, ◌+◌, ◌-◌, ◌≤◌, ◌≡◌, sym, ap, ap₂, ◌∙◌, subst, List, [], ◌∷◌, ◌++◌, append-nil, append_assoc,
  length, length-append, length-drop, take, drop, take-append-drop, some, ok, arith,
}
use windz.Base.Util.{
  WriteAnswer, wrote, write_interrupted, write_failed, writen, write_fd, ReadAnswer, got,
  read_interrupted, read_would_block, read_failed, read_all_of, read_fd_to,
}

-- The answers to `write` for `n` bytes: no error, never more taken than is left, and all of it in
-- the end.
abbrev pub Takes : List WriteAnswer → ℕ → Type 0
Takes [] n = (n ≡ 0)
Takes (wrote k ∷ answers) n = (k ≤ n) × Takes answers (n - k)
Takes (write_interrupted ∷ answers) n = Takes answers n
Takes (write_failed ∷ answers) n = ⊥

writen-all :
    (answers : List WriteAnswer) (bytes : List ℕ) (sum : ℕ) (sent : List ℕ)
    → Takes answers (length bytes)
    → writen answers bytes sum sent ≡ ok (some (sum + length bytes), sent ++ bytes)
unfolding writen
writen-all [] [] sum sent t = ap₂ (λ n xs. ok (some n, xs)) (omega arith) (sym (append-nil sent))
writen-all [] (b ∷ bs) sum sent t = absurd (omega (arith, t))
writen-all (wrote n ∷ answers) [] sum sent t =
    ap₂ (λ n xs. ok (some n, xs)) (omega arith) (sym (append-nil sent))
writen-all (write_interrupted ∷ answers) [] sum sent t =
    ap₂ (λ n xs. ok (some n, xs)) (omega arith) (sym (append-nil sent))
writen-all (write_failed ∷ answers) bytes sum sent t = absurd t
writen-all (write_interrupted ∷ answers) (b ∷ bs) sum sent t =
    writen-all answers (b ∷ bs) sum sent t
writen-all (wrote n ∷ answers) (b ∷ bs) sum sent t =
    let left = length-drop n (b ∷ bs) in
    writen-all answers (drop n (b ∷ bs)) (sum + n) (sent ++ take n (b ∷ bs))
      (subst (Takes answers) (sym left) t.1)
    ∙ ap₂ (λ k xs. ok (some k, xs)) (omega (arith, left, t.0))
        (append_assoc sent (take n (b ∷ bs)) (drop n (b ∷ bs))
          ∙ ap (◌++◌ sent) (take-append-drop n (b ∷ bs)))

-- `WriteFd` gives the length of the string, and the kernel has all of it in order, however often it
-- takes a part or is interrupted.
pub write_fd_lem :
    (answers : List WriteAnswer) (buf : List ℕ)
    → Takes answers (length buf)
    → write_fd answers buf ≡ ok (some (length buf), buf)
unfolding write_fd
write_fd_lem answers buf t =
    writen-all answers buf 0 [] t ∙ ap (λ n. ok (some n, buf)) (omega arith)

-- The bytes that are read before the end.
abbrev pub delivered : List ReadAnswer → List ℕ
delivered [] = []
delivered (got [] ∷ answers) = []
delivered (got (b ∷ bs) ∷ answers) = (b ∷ bs) ++ delivered answers
delivered (read_interrupted ∷ answers) = delivered answers
delivered (read_would_block ∷ answers) = []
delivered (read_failed ∷ answers) = []

-- The answers lead to the end of the file, or to an empty socket, without an error.
abbrev pub Ends : List ReadAnswer → Type 0
Ends [] = ⊥
Ends (got [] ∷ answers) = Unit
Ends (got (b ∷ bs) ∷ answers) = Ends answers
Ends (read_interrupted ∷ answers) = Ends answers
Ends (read_would_block ∷ answers) = Unit
Ends (read_failed ∷ answers) = ⊥

read-all :
    (answers : List ReadAnswer) (sum : ℕ) (buf : List ℕ)
    → Ends answers
    → read_all_of answers sum buf
      ≡ ok (some (sum + length (delivered answers)), buf ++ delivered answers)
unfolding read_all_of
read-all [] sum buf e = absurd e
read-all (got [] ∷ answers) sum buf e =
    ap₂ (λ n xs. ok (some n, xs)) (omega arith) (sym (append-nil buf))
read-all (got (b ∷ bs) ∷ answers) sum buf e =
    read-all answers (sum + length (b ∷ bs)) (buf ++ b ∷ bs) e
    ∙ ap₂ (λ n xs. ok (some n, xs)) (omega (arith, length-append (b ∷ bs) (delivered answers)))
        (append_assoc buf (b ∷ bs) (delivered answers))
read-all (read_interrupted ∷ answers) sum buf e = read-all answers sum buf e
read-all (read_would_block ∷ answers) sum buf e =
    ap₂ (λ n xs. ok (some n, xs)) (omega arith) (sym (append-nil buf))
read-all (read_failed ∷ answers) sum buf e = absurd e

-- `ReadFd` appends everything that arrives before the end of the file, or before the socket is
-- empty, to the string, and gives its length.
read_fd_to_lem :
    (answers : List ReadAnswer) (buf : List ℕ)
    → Ends answers
    → read_fd_to answers buf ≡ ok (some (length (delivered answers)), buf ++ delivered answers)
unfolding read_fd_to
read_fd_to_lem answers buf e =
    read-all answers 0 buf e ∙ ap (λ n. ok (some n, buf ++ delivered answers)) (omega arith)
