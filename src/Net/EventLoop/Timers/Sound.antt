-- ===== src/Net/EventLoop/Timers/Sound.antt =====
-- `Cancel` of windz/net/Timer.cpp, in the thread of the loop, on timers that are not canceled yet.
use mathlib.Core.List.{
  Perm, Mem, Nodup, Nodup-cons, mem-cons, mem-cons_self, mem-append_left, mem-append_right,
  mem-map_of_mem, Nodup-append, mem-map, map-append,
}
use mathlib.Core.List.Perm
use mathlib.Core.HLevel.{⊥_prop}
use mathlib.Core.Logic.{∥∥₁_elim}
use mathlib.Core.Logic.Or
use native.Mathlib.Bridge.{le_prop}
use windz.Prelude.{
  ℕ, suc, ◌<◌, ◌≡◌, ◌⊎◌, inl, inr, refl, sym, ap, ap₂, subst, ◌∙◌, Bool-cases, true, not, false,
  false≢true, ◌==◌, List, [], ◌∷◌, ◌++◌, length, none, some, assertion, Returns, returns,
  Returns-bind, Returns-require, arith,
}
use windz.Prelude.Int.{pos, ◌<ℤ◌}
use windz.Net.Timer.Heap.{Timer, TimerHeap}
use windz.Net.Timer.Heap.Order.{IsHeap}
use windz.Net.Timer.{find, cancel}
use windz.Net.Timer.Expiry.{Advances, ids}
use windz.Net.EventLoop.Timers.{LoopTimers, cancel_now}
use windz.Net.EventLoop.Timers.Marked.{
  marked, marks, pushed, canceling, held, update-marks, marks_absent, find_job-pushed,
  pushed-update_jobs, canceling-update_jobs, length-update_jobs, find-IsFound, marks-IsHeap,
  ids-marks,
}

-- The timers of a loop that has made `made` objects, of which those in `future` will be canceled.
pub record Sound (future : List ℕ) (made : ℕ) (xs : TimerHeap) : Type 0 where
  pub distinct : Nodup (ids xs)
  pub numbered : (t : Timer) → Mem t xs → t.id < made
  pub live : (t : Timer) → Mem t xs → t.canceled ≡ true → ¬ Mem t.id future
  pub advances : Advances xs

pub Sound-perm :
    {future : List ℕ} {made : ℕ} {xs ys : TimerHeap}
    → Perm ys xs
    → Sound future made xs
    → Sound future made ys
Sound-perm p v = record {
  distinct = Perm.nodup (Perm.map _ (Perm.symm p)) v.distinct;
  numbered = λ t m. v.numbered t ((Perm.mem_iff p).0 m);
  live = λ t m. v.live t ((Perm.mem_iff p).0 m);
  advances = λ t m. v.advances t ((Perm.mem_iff p).0 m);
}

-- Fewer cancels to come.
pub Sound-future :
    {future fewer : List ℕ} {made : ℕ} {xs : TimerHeap}
    → ((i : ℕ) → Mem i fewer → Mem i future)
    → Sound future made xs
    → Sound fewer made xs
Sound-future h v = record {
  distinct = v.distinct;
  numbered = v.numbered;
  live = λ t m c k. v.live t m c (h t.id k);
  advances = v.advances;
}

pub Sound-cons :
    {future : List ℕ} {made : ℕ} {xs : TimerHeap} (t : Timer)
    → t.id ≡ made
    → t.canceled ≡ false
    → (t.repeat ≡ true → pos 0 <ℤ t.interval)
    → Sound future made xs
    → Sound future (suc made) (t ∷ xs)
Sound-cons {made = made} t e f a v = record {
  distinct = Nodup-cons.1 (
    λ m. ∥∥₁_elim (mem-map.0 m) ⊥_prop λ (u, k, d).
        let below : u.id < made = v.numbered u k in
        let same : u.id ≡ made = d ∙ e in absurd (omega arith),
    v.distinct,
  );
  numbered = λ u m.
      Or.elim le_prop (mem-cons.0 m) (λ d. rw d (omega (arith, e)))
        λ k. omega (arith, v.numbered u k);
  live = λ u m c n.
      Or.elim ⊥_prop (mem-cons.0 m)
        (λ d. false≢true (sym f ∙ ap (λ (w : Timer). w.canceled) (sym d) ∙ c)) λ k. v.live u k c n;
  advances = λ u m r.
      Or.elim le_prop (mem-cons.0 m) (λ d. rw d (a (ap (λ (w : Timer). w.repeat) (sym d) ∙ r)))
        λ k. v.advances u k r;
}

why_canceled :
    (id : ℕ) (t : Timer) → (marked (id ∷ []) t).canceled ≡ true → (t.canceled ≡ true) ⊎ (t.id ≡ id)
why_canceled id t c = elim (Bool-cases t.canceled) [
  | inl e ↦ inl e
  | inr e ↦ elim (Bool-cases (t.id == id)) [
    | inl d ↦ inr (ground arith)
    | inr d ↦ absurd (false≢true (ground arith))
  ]
]

pub Sound-marks :
    {future : List ℕ} {made : ℕ} {xs : TimerHeap} (id : ℕ)
    → ¬ Mem id future
    → Sound future made xs
    → Sound future made (marks (id ∷ []) xs)
Sound-marks {future} {xs = xs} id h v = record {
  distinct = rw (ids-marks (id ∷ []) xs) v.distinct;
  numbered = λ t m. ∥∥₁_elim (mem-map.0 m) le_prop λ (u, k, e). rw⁻¹ e (v.numbered u k);
  live = λ t m c n. ∥∥₁_elim (mem-map.0 m) ⊥_prop λ (u, k, e).
      let same : u.id ≡ t.id = ap (λ (w : Timer). w.id) e in
      let n' : Mem u.id future = subst (λ i. Mem i future) (sym same) n in
      elim (why_canceled id u (ap (λ (w : Timer). w.canceled) e ∙ c)) [
        | inl d ↦ v.live u k d n'
        | inr d ↦ h (subst (λ i. Mem i future) d n')
      ];
  advances = λ t m r.
      ∥∥₁_elim (mem-map.0 m) le_prop
        λ (u, k, e). rw⁻¹ e (v.advances u k (ap (λ (w : Timer). w.repeat) e ∙ r));
}

-- The functor of `Cancel` marks the timer, wherever it is, and nothing else.
pub record Canceled (id : ℕ) (l m : LoopTimers) : Type 0 where
  pub order : IsHeap m.heap
  pub changed : held m ≡ marks (id ∷ []) (held l)
  pub pending : canceling m.jobs ≡ canceling l.jobs
  pub counted : m.made ≡ l.made
  pub sized : length m.jobs ≡ length l.jobs

module _ (id : ℕ) (future : List ℕ) (made : ℕ) (l : LoopTimers) (order : IsHeap l.heap)
    (v : Sound (id ∷ future) made (held l)) where
  -- A timer that is still to be canceled is not canceled yet.
  passes_assert : (t : Timer) → Mem t (held l) → t.id ≡ id → not t.canceled ≡ true
  passes_assert t m e = elim (Bool-cases t.canceled) [
    | inl c ↦ absurd (v.live t m c (rw e mem-cons_self))
    | inr c ↦ ground arith
  ]

  nodup : Nodup (ids (pushed l.jobs) ++ ids l.heap)
  nodup = subst Nodup (map-append _ (pushed l.jobs) l.heap) v.distinct

  in_heap :
      (t : Timer)
      → find id l.heap ≡ some t
      → Mem t l.heap
      → t.id ≡ id
      → Returns (Canceled id l) (cancel_now id l)
  unfolding cancel_now cancel
  in_heap t f m e =
      let once : ¬ Mem id (ids (pushed l.jobs)) = λ k.
        (Nodup-append.0 nodup).2 id k
          (subst (λ i. Mem i (ids l.heap)) e (mem-map_of_mem (λ u. u.id) m)) in
      rw (cancel_now, f, cancel, f)
        (Returns-bind
          (Returns-require {P = λ h. h ≡ marks (id ∷ []) l.heap} (not t.canceled) assertion
            (passes_assert t (mem-append_right (pushed l.jobs) m) e)
            (returns (update-marks id l.heap)))
          λ h d. returns (record {
            order = rw d (marks-IsHeap (id ∷ []) l.heap order);
            changed = rw d (
                ap (λ ts. ts ++ marks (id ∷ []) l.heap) (sym (marks_absent id _ once))
                ∙ sym (map-append _ (pushed l.jobs) l.heap));
            pending = refl;
            counted = refl;
            sized = refl;
          }))

  not_in_heap :
      find id l.heap ≡ none → ¬ Mem id (ids l.heap) → Returns (Canceled id l) (cancel_now id l)
  unfolding cancel_now
  not_in_heap n absent = elim (find-IsFound id (pushed l.jobs)) [
    | inl (n', absent') ↦
        rw (cancel_now, n, find_job-pushed id l.jobs, n')
          (returns (record {
            order = order;
            changed =
                ap₂ ◌++◌ (sym (marks_absent id _ absent')) (sym (marks_absent id _ absent))
                ∙ sym (map-append _ (pushed l.jobs) l.heap);
            pending = refl;
            counted = refl;
            sized = refl;
          }))
    | inr (t, f, m, e) ↦
        rw (cancel_now, n, find_job-pushed id l.jobs, f)
          (Returns-require (not t.canceled) assertion (passes_assert t (mem-append_left l.heap m) e)
            (returns (record {
              order = order;
              changed =
                  ap₂ ◌++◌ (pushed-update_jobs id _ l.jobs ∙ update-marks id (pushed l.jobs))
                    (sym (marks_absent id _ absent))
                  ∙ sym (map-append _ (pushed l.jobs) l.heap);
              pending = canceling-update_jobs id _ l.jobs;
              counted = refl;
              sized = length-update_jobs id _ l.jobs;
            })))
  ]

  pub cancel_now-Canceled : Returns (Canceled id l) (cancel_now id l)
  cancel_now-Canceled = elim (find-IsFound id l.heap) [
    | inl (n, absent) ↦ not_in_heap n absent
    | inr (t, f, m, e) ↦ in_heap t f m e
  ]
