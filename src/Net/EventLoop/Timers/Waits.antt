-- ===== src/Net/EventLoop/Timers/Waits.antt =====
-- How long a loop of windz/net/EventLoop.cpp waits for its timers.
use windz.Prelude.{
  ℕ, ◌+◌, ◌*◌, ◌/◌, if◌then◌else◌, refl, ◌≤◌, ◌<◌, ◌≡◌, ◌⊎◌, inl, inr, [], ◌∷◌, length, arith,
  Bool-cases, leb, leb→le,
}
use windz.Prelude.Int.{
  ℤ, pos, pos_part, neg_part, negsuc, leb_ℤ, ltb_ℤ, ◌+ℤ◌, ◌-ℤ◌, ◌≤ℤ◌, ◌<ℤ◌, quot_ℕ, +ℤ_parts,
  -ℤ_parts,
}
use windz.Net.Timer.{next_timeout}
use windz.Net.Timer.Heap.{TimerHeap}
use windz.Net.Timer.Heap.Order.{IsHeap, due_at, root_earliest}
use windz.Net.EventLoop.Timers.{wait_ms}

-- The time at the end of a wait of `w` milliseconds.
abbrev pub after_ms : ℤ → ℕ → ℤ
after_ms now w = now +ℤ pos (w * 1_000_000)

-- A wait of `w` milliseconds is ten seconds at most, and ends before any timer of the future is due;
-- if it is shorter, then some timer is due within a millisecond of its end.
pub record Waits (now : ℤ) (heap : TimerHeap) (w : ℕ) : Type 0 where
  pub limited : w ≤ 10_000
  pub punctual : (i : ℕ) → i < length heap → now ≤ℤ due_at heap i → after_ms now w ≤ℤ due_at heap i
  pub needed : w < 10_000 → (0 < length heap) × (due_at heap 0 <ℤ after_ms now (w + 1))

-- The milliseconds that a duration has, none below 0.
whole_ms :
    (d : ℤ) → (if ltb_ℤ d (pos 0) then pos 0 else quot_ℕ d 1_000_000) ≡ pos (pos_part d / 1_000_000)
unfolding quot_ℕ
whole_ms (pos n) = ground arith
whole_ms (negsuc n) = ground arith

at_most_limit :
    (m : ℕ)
    → (w : ℕ) × ((if leb_ℤ (pos 10_000) (pos m) then pos 10_000 else pos m) ≡ pos w)
      × (w ≤ 10_000)
      × (w ≤ m)
      × (w < 10_000 → w ≡ m)
at_most_limit m = elim (Bool-cases (leb 10_000 m)) [
  | inl e ↦
      (10_000, ground arith, omega arith, omega (arith, leb→le _ _ e), λ p. absurd (omega arith))
  | inr e ↦ (m, ground arith, ground arith, omega arith, λ p. refl)
]

-- An integer has one part only.
one_part : (d : ℤ) → (pos_part d ≡ 0) ⊎ (neg_part d ≡ 0)
one_part (pos n) = inr refl
one_part (negsuc n) = inl refl

module _ (now when : ℤ) (w : ℕ) where
  reaches :
      (due : ℤ)
      → w ≤ pos_part (when -ℤ now) / 1_000_000
      → when ≤ℤ due
      → now ≤ℤ due
      → after_ms now w ≤ℤ due
  reaches due h p q = elim (one_part (when -ℤ now)) [
    | inl e ↦ omega (arith, -ℤ_parts when now, +ℤ_parts now (pos (w * 1_000_000)))
    | inr e ↦ omega (arith, -ℤ_parts when now, +ℤ_parts now (pos (w * 1_000_000)))
  ]

  passes : w ≡ pos_part (when -ℤ now) / 1_000_000 → when <ℤ after_ms now (w + 1)
  passes h = elim (one_part (when -ℤ now)) [
    | inl e ↦ omega (arith, -ℤ_parts when now, +ℤ_parts now (pos ((w + 1) * 1_000_000)))
    | inr e ↦ omega (arith, -ℤ_parts when now, +ℤ_parts now (pos ((w + 1) * 1_000_000)))
  ]

-- For timers in heap order, the wait of a round is a number of milliseconds, ten seconds at most; a
-- timer that is not overdue is not due before its end; and if it is shorter than ten seconds, then
-- the timer at the root is due within a millisecond of its end, or before.
pub wait_ms-Waits :
    (now : ℤ) (heap : TimerHeap)
    → IsHeap heap
    → (w : ℕ) × (wait_ms now heap ≡ pos w) × Waits now heap w
unfolding wait_ms next_timeout
wait_ms-Waits now [] v = (
  10_000,
  refl,
  record {
    limited = omega arith;
    punctual = λ i p. absurd (omega arith);
    needed = λ p. absurd (omega arith);
  },
)
wait_ms-Waits now (t ∷ heap) v =
    let d = t.when -ℤ now in
    let (w, e, limit, under, full) = at_most_limit (pos_part d / 1_000_000) in
    (
      w,
      rw (whole_ms d) e,
      record {
        limited = limit;
        punctual = λ i p.
            reaches now t.when w (due_at (t ∷ heap) i) under (root_earliest (t ∷ heap) i v p);
        needed = λ short. (omega arith, passes now t.when w (full short));
      },
    )
