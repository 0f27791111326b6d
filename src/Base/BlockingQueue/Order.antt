-- ===== src/Base/BlockingQueue/Order.antt =====
-- What goes through a queue (windz/base/BlockingQueue.h), over any calls of its users.
use windz.Prelude.{
  ℕ, ◌≤◌, ◌<◌, ◌≡◌, sym, ap, ◌∙◌, Bool, Bool-cases, true, false, ◌||◌, inl, inr, List, [], ◌∷◌,
  ◌++◌, append_assoc, length, length-append, ltb, ◌==◌, if◌then◌else◌, none, some, Run, ok, ◌>>=◌,
  Returns, returns, Returns-bind, arith,
}
use windz.Base.BlockingQueue.{BlockingQueue, push, pop, wake_up, restore, set_maxsize}

pub data Call {ℓ} (A : Type ℓ) : Type ℓ where
  pushes : A → Call A
  limits : ℕ → Call A
  pops wakes restores : Call A

-- The queue with what was pushed into it and what was popped out of it so far.
pub record Traffic {ℓ} (A : Type ℓ) : Type ℓ where
  pub state : BlockingQueue A
  pub entered : List A
  pub left : List A

module _ {ℓ} {A : Type ℓ} (default : A) where
  -- A call that would wait changes nothing; one on a woken queue is not counted, for it neither
  -- takes nor gives an element.
  pub step : Call A → Traffic A → Run (Traffic A)
  step (pushes x) t = push x t.state >>= λ r. elim r [
    | none ↦ ok t
    | some q ↦ ok (record t {
      state = q;
      entered = if t.state.wakeup then t.entered else t.entered ++ x ∷ [];
    })
  ]
  step pops t = elim (pop default t.state) [
    | none ↦ ok t
    | some (x, q) ↦
        ok (record t { state = q; left = if t.state.wakeup then t.left else t.left ++ x ∷ [] })
  ]
  step wakes t = ok (record t { state = wake_up t.state })
  step restores t = ok (record t { state = restore t.state })
  step (limits n) t = ok (record t { state = set_maxsize n t.state })

  pub run : List (Call A) → Traffic A → Run (Traffic A)
  unfolding step
  run [] t = ok t
  run (c ∷ cs) t = step c t >>= run cs

  -- `n` bounds the limits and what is held; 0 is no bound.
  abbrev pub IsWithin : ℕ → ℕ → Type 0
  IsWithin n maxsize = 0 < n → (0 < maxsize) × (maxsize ≤ n)

  abbrev pub AreWithin : ℕ → List (Call A) → Type 0
  AreWithin n [] = Unit
  AreWithin n (pushes x ∷ cs) = AreWithin n cs
  AreWithin n (pops ∷ cs) = AreWithin n cs
  AreWithin n (wakes ∷ cs) = AreWithin n cs
  AreWithin n (restores ∷ cs) = AreWithin n cs
  AreWithin n (limits m ∷ cs) = IsWithin n m × AreWithin n cs

  -- First in, first out: what left and what is held is what entered, in that order.
  pub record IsFifo (n : ℕ) (t : Traffic A) : Type ℓ where
    pub order : t.entered ≡ t.left ++ t.state.queue
    pub limited : IsWithin n t.state.maxsize
    pub bounded : 0 < n → length t.state.queue ≤ n

  abbrev traffic : List A → ℕ → Bool → List A → List A → Traffic A
  traffic q n w e l = record {
    state = record { queue = q; maxsize = n; wakeup = w };
    entered = e;
    left = l;
  }

  push-IsFifo :
      (b : ℕ) (x : A) (q : List A) (n : ℕ) (w : Bool) (e l : List A)
      → IsFifo b (traffic q n w e l)
      → Returns (IsFifo b) (step (pushes x) (traffic q n w e l))
  unfolding step push
  push-IsFifo b x q n true e l v =
      returns (record { order = v.order; limited = v.limited; bounded = v.bounded })
  push-IsFifo b x q n false e l v = elim (Bool-cases (n == 0 || ltb (length q) n)) [
    | inl room ↦ rw room (
        returns (record {
          order = ap (λ ys. ys ++ x ∷ []) v.order ∙ append_assoc l q (x ∷ []);
          limited = v.limited;
          bounded = λ h. ground (arith, length-append q (x ∷ []), v.limited h);
        }))
    | inr full ↦ rw full (returns v)
  ]

  pop-IsFifo :
      (b : ℕ) (q : List A) (n : ℕ) (w : Bool) (e l : List A)
      → IsFifo b (traffic q n w e l)
      → Returns (IsFifo b) (step pops (traffic q n w e l))
  unfolding step pop
  pop-IsFifo b q n true e l v =
      returns (record { order = v.order; limited = v.limited; bounded = v.bounded })
  pop-IsFifo b [] n false e l v = returns v
  pop-IsFifo b (y ∷ q) n false e l v = returns (record {
    order = v.order ∙ sym (append_assoc l (y ∷ []) q);
    limited = v.limited;
    bounded = λ h. omega (arith, v.bounded h);
  })

  -- Whatever calls are made of a queue, a new limit included, and in whatever order they come, no
  -- assertion fails, and the elements leave in the order in which they entered, none lost or
  -- doubled. If every limit, the first one too, is from 1 to `n`, it never holds more than `n`.
  pub run-IsFifo :
      (n : ℕ) (cs : List (Call A)) (t : Traffic A)
      → AreWithin n cs
      → IsFifo n t
      → Returns (IsFifo n) (run cs t)
  unfolding run step wake_up restore set_maxsize
  run-IsFifo n [] t a v = returns v
  run-IsFifo n (pushes x ∷ cs) t a v =
      Returns-bind (push-IsFifo n x t.state.queue t.state.maxsize t.state.wakeup t.entered t.left v)
        λ t' v'. run-IsFifo n cs t' a v'
  run-IsFifo n (pops ∷ cs) t a v =
      Returns-bind (pop-IsFifo n t.state.queue t.state.maxsize t.state.wakeup t.entered t.left v)
        λ t' v'. run-IsFifo n cs t' a v'
  run-IsFifo n (wakes ∷ cs) t a v =
      run-IsFifo n cs _ a (record { order = v.order; limited = v.limited; bounded = v.bounded })
  run-IsFifo n (restores ∷ cs) t a v =
      run-IsFifo n cs _ a (record { order = v.order; limited = v.limited; bounded = v.bounded })
  run-IsFifo n (limits m ∷ cs) t (w, a) v =
      run-IsFifo n cs _ a (record { order = v.order; limited = w; bounded = v.bounded })
