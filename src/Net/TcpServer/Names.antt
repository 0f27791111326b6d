-- ===== src/Net/TcpServer/Names.antt =====
-- The map of windz/net/TcpServer.cpp from the names of connections to their places.
use windz.Prelude.{
  ℕ, suc, ◌+◌, ◌<◌, ◌≡◌, ◌≢◌, refl, sym, ◌∙◌, ap, true, Bool-cases, inl, inr, List, [], ◌∷◌, ◌==◌,
  if◌then◌else◌, arith, false≢true,
}
use windz.Net.TcpServer.{same_name, assign, erase}

same_name_sound : (xs ys : List ℕ) → same_name xs ys ≡ true → xs ≡ ys
unfolding same_name
same_name_sound [] [] h = refl
same_name_sound (x ∷ xs) [] h = absurd (false≢true h)
same_name_sound [] (y ∷ ys) h = absurd (false≢true h)
same_name_sound (x ∷ xs) (y ∷ ys) h = grind (arith, same_name_sound xs ys)

same_name_refl : (xs : List ℕ) → same_name xs xs ≡ true
unfolding same_name
same_name_refl [] = refl
same_name_refl (x ∷ xs) = ground (arith, same_name_refl xs)

-- How many entries lead to a place.
abbrev pub held : ℕ → List (List ℕ × ℕ) → ℕ
held i [] = 0
held i ((name, j) ∷ m) = (if i == j then 1 else 0) + held i m

-- Every entry stands under the name `f` of its place, which is one of the first `n`.
abbrev pub Named : (ℕ → List ℕ) → ℕ → List (List ℕ × ℕ) → Type 0
Named f n [] = Unit {0}
Named f n ((name, j) ∷ m) = (j < n) × (name ≡ f j) × Named f n m

-- No two of the first `n` places have one name.
abbrev pub Apart : (ℕ → List ℕ) → ℕ → Type 0
Apart f n = (i j : ℕ) → i < n → j < n → f i ≡ f j → i ≡ j

module _ (f : ℕ → List ℕ) (n : ℕ) where
  pub Named-erase : (name : List ℕ) (m : List (List ℕ × ℕ)) → Named f n m → Named f n (erase name m)
  unfolding erase
  Named-erase name [] v = tt
  Named-erase name ((other, j) ∷ m) v = elim (Bool-cases (same_name name other)) [
    | inl e ↦ rw e (Named-erase name m v.2)
    | inr e ↦ rw e (v.0, v.1, Named-erase name m v.2)
  ]

  -- `erase` takes the entry of that place away and no other.
  pub held-erase :
      (i j : ℕ) (m : List (List ℕ × ℕ))
      → Apart f n
      → i < n
      → Named f n m
      → held j (erase (f i) m) ≡ (if i == j then 0 else held j m)
  unfolding erase
  held-erase i j [] apart p v = ground arith
  held-erase i j ((name, k) ∷ m) apart p v =
      let rest = held-erase i j m apart p v.2 in
      elim (Bool-cases (same_name (f i) name)) [
        | inl e ↦
            let same = apart i k p v.0 (same_name_sound (f i) name e ∙ v.1) in
            rw e (ground (arith, same, rest))
        | inr e ↦ rw e (
            let other : i ≢ k = λ q.
              false≢true
                (sym e ∙ ap (same_name (f i)) (v.1 ∙ ap f (sym q)) ∙ same_name_refl (f i)) in
            ground (arith, rest))
      ]

  -- A new name leads to a new entry.
  pub held-assign :
      (j : ℕ) (m : List (List ℕ × ℕ))
      → Apart f (suc n)
      → Named f n m
      → held j (assign (f n) n m) ≡ held j m + (if j == n then 1 else 0)
  unfolding assign
  held-assign j [] apart v = ground arith
  held-assign j ((name, k) ∷ m) apart v =
      let rest = held-assign j m apart v.2 in
      elim (Bool-cases (same_name (f n) name)) [
        | inl e ↦
            let same =
              apart n k (omega arith) (omega (arith, v.0)) (same_name_sound (f n) name e ∙ v.1) in
            absurd (omega (arith, same, v.0))
        | inr e ↦ rw e (omega (arith, rest))
      ]

  pub Named-assign :
      (m : List (List ℕ × ℕ)) → Apart f (suc n) → Named f n m → Named f (suc n) (assign (f n) n m)
  unfolding assign
  Named-assign [] apart v = (omega arith, refl, tt)
  Named-assign ((name, k) ∷ m) apart v =
      let rest = Named-assign m apart v.2 in
      elim (Bool-cases (same_name (f n) name)) [
        | inl e ↦
            let same =
              apart n k (omega arith) (omega (arith, v.0)) (same_name_sound (f n) name e ∙ v.1) in
            absurd (omega (arith, same, v.0))
        | inr e ↦ rw e (omega (arith, v.0), v.1, rest)
      ]
