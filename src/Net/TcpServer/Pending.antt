-- ===== src/Net/TcpServer/Pending.antt =====
-- The functors that windz/net/TcpServer.cpp has queued, counted.
use windz.Prelude.{
  ℕ, ◌+◌, ◌≡◌, inl, inr, List, [], ◌∷◌, ◌++◌, ◌==◌, if◌then◌else◌, arith, Option-cases, some,
}
use windz.Net.TcpServer.{Task, establish_task, remove_task, destroy_task, oldest}

abbrev pub one_if : ℕ → ℕ → ℕ
one_if i j = if i == j then 1 else 0

-- What a functor counts for: the establishing, the removal, the destruction of a place.
abbrev pub establishes_of : ℕ → Task → ℕ
establishes_of i (establish_task j) = one_if i j
establishes_of i _ = 0

abbrev pub removes_of : ℕ → Task → ℕ
removes_of i (remove_task j) = one_if i j
removes_of i _ = 0

abbrev pub destroys_of : ℕ → Task → ℕ
destroys_of i (destroy_task j) = one_if i j
destroys_of i _ = 0

abbrev pub pending : (Task → ℕ) → List (ℕ × Task) → ℕ
pending weight [] = 0
pending weight ((l, t) ∷ ts) = weight t + pending weight ts

pub pending-append :
    (weight : Task → ℕ) (ts us : List (ℕ × Task))
    → pending weight (ts ++ us) ≡ pending weight ts + pending weight us
pending-append weight [] us = omega arith
pending-append weight ((l, t) ∷ ts) us = omega (arith, pending-append weight ts us)

-- The functor that a loop takes is counted no more.
pub pending-oldest :
    (weight : Task → ℕ) (l : ℕ) (ts : List (ℕ × Task)) {t : Task} {rest : List (ℕ × Task)}
    → oldest l ts ≡ some (t, rest)
    → pending weight ts ≡ weight t + pending weight rest
unfolding oldest
pending-oldest weight l [] h = ground arith
pending-oldest weight l ((l', t) ∷ ts) h = elim (Option-cases (oldest l ts)) [
  | inl e ↦ ground arith
  | inr ((u, us), e) ↦ ground (arith, pending-oldest weight l ts e)
]
