-- ===== src/Net/EventLoopThreadPool/Turns.antt =====
-- `Next` of windz/net/EventLoopThreadPool.cpp over several calls.
use windz.Prelude.{
  ℕ, zero, suc, ◌+◌, ◌<◌, ◌≡◌, refl, ap, subst, true, false, List, [], ◌∷◌, ◌++◌, append_assoc,
  length, length-append, map, get_elem?, leb, ◌==◌, if◌then◌else◌, Option, some, Run, ok, ◌>>=◌,
  Returns, returns, Returns-bind, arith,
}
use windz.Net.EventLoopThreadPool.{EventLoopThreadPool, next_loop}

-- The loops that `n` calls give.
pub calls : ℕ → EventLoopThreadPool → Run (List (Option ℕ) × EventLoopThreadPool)
calls zero p = ok ([], p)
calls (suc n) p = do (l, q) ← next_loop p; (ls, r) ← calls n q; ok (l ∷ ls, r)

abbrev pool : List ℕ → ℕ → EventLoopThreadPool
pool loops next = record { started = true; next = next; loops = loops }

get_elem?-middle : (pre rest : List ℕ) (x : ℕ) → get_elem? (pre ++ x ∷ rest) (length pre) ≡ some x
get_elem?-middle [] rest x = refl
get_elem?-middle (y ∷ pre) rest x = get_elem?-middle pre rest x

next_loop-middle :
    (pre rest : List ℕ) (x : ℕ)
    → next_loop (pool (pre ++ x ∷ rest) (length pre))
      ≡ ok (some x, pool (pre ++ x ∷ rest) (if length rest == 0 then 0 else length pre + 1))
unfolding next_loop
next_loop-middle pre rest x =
    let loops = pre ++ x ∷ rest in
    let size = length-append pre (x ∷ rest) in
    let some_loop : (length loops == 0) ≡ false = ground (arith, size) in
    let wraps : leb (length loops) (length pre + 1) ≡ (length rest == 0) = ground (arith, size) in
    rw (some_loop, get_elem?-middle pre rest x, wraps) refl

-- The loops `rest` in turn, and the first one's turn after them.
abbrev InTurn : List ℕ → List ℕ → List (Option ℕ) × EventLoopThreadPool → Type 0
InTurn loops rest r = (r.0 ≡ map some rest) × (r.1 ≡ pool loops 0)

rest-InTurn :
    (pre rest : List ℕ) (x : ℕ)
    → Returns
        (InTurn (pre ++ x ∷ rest) (x ∷ rest))
        (calls (length (x ∷ rest)) (pool (pre ++ x ∷ rest) (length pre)))
unfolding calls
rest-InTurn pre [] x = rw (next_loop-middle pre [] x) (returns (refl, refl))
rest-InTurn pre (y ∷ rest) x =
    let assoc = append_assoc pre (x ∷ []) (y ∷ rest) in
    let n : length (pre ++ x ∷ []) ≡ length pre + 1 = omega (arith, length-append pre (x ∷ [])) in
    let later =
      subst
        (λ k.
          Returns (InTurn (pre ++ x ∷ y ∷ rest) (y ∷ rest))
            (calls (length (y ∷ rest)) (pool (pre ++ x ∷ y ∷ rest) k)))
        n
        (subst
          (λ ls.
            Returns (InTurn ls (y ∷ rest))
              (calls (length (y ∷ rest)) (pool ls (length (pre ++ x ∷ [])))))
          assoc (rest-InTurn (pre ++ x ∷ []) rest y)) in
    let more : (length (y ∷ rest) == 0) ≡ false = ground arith in
    rw (next_loop-middle pre (y ∷ rest) x, more)
      (Returns-bind later λ r t. returns (ap (◌∷◌ (some x)) t.0, t.1))

-- As many calls of `Next` as a started pool has loops give each loop once, in order, and then it is
-- the first one's turn again.
pub calls-InTurn :
    (loops : List ℕ)
    → 0 < length loops
    → Returns
        (λ r. (r.0 ≡ map some loops) × (r.1 ≡ record { started = true; next = 0; loops = loops }))
        (calls (length loops) (record { started = true; next = 0; loops = loops }))
calls-InTurn [] h = absurd (omega arith)
calls-InTurn (x ∷ rest) h = rest-InTurn [] rest x
