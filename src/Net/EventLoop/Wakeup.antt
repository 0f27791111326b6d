-- ===== src/Net/EventLoop/Wakeup.antt =====
-- No functor of windz/net/EventLoop.cpp waits without a wakeup, and each runs in its turn.
use windz.Prelude.{
  ℕ, ◌≤◌, ◌<◌, ◌≡◌, refl, sym, ap, ap₂, subst, ◌∙◌, Bool-cases, false≢true, inl, inr, ltb, ltb→lt,
  true, false, List, [], ◌∷◌, ◌++◌, append-nil, append_assoc, length, length-append, some, Returns,
  returns, Returns-bind, Returns-map, arith,
}
use windz.Base.BlockingQueue.{BlockingQueue, push, pop}
use windz.Net.EventLoop.{
  EventLoop, queue_in_loop, queue_all, invoke, call_functors, call_pending_functors, invoke_all,
  loop_once, handle_read, wake_up,
}

-- The queue of a loop: no limit, and never woken.
pub record IsOpen (l : EventLoop) : Type 0 where
  pub limitless : l.pending_functors.maxsize ≡ 0
  pub asleep : l.pending_functors.wakeup ≡ false

-- From `l` to `l'` the functors `fs` were queued, and `called` were called.
pub record Moved (fs called : List ℕ) (l l' : EventLoop) : Type 0 where
  pub opened : IsOpen l'
  pub pending : l'.pending_functors.queue ≡ l.pending_functors.queue ++ fs
  pub log : l'.called ≡ l.called ++ called
  pub calling : l'.pending_functors_calling ≡ l.pending_functors_calling
  pub awake : l.wakeups ≤ l'.wakeups
  pub woken : l.pending_functors_calling ≡ true → 0 < length fs → 0 < l'.wakeups

queue-Moved :
    (f : ℕ) (l : EventLoop) → IsOpen l → Returns (Moved (f ∷ []) [] l) (queue_in_loop true f l)
unfolding queue_in_loop push wake_up
queue-Moved f l v = elim (Bool-cases l.pending_functors_calling) [
  | inl e ↦
      rw (v.asleep, v.limitless, e)
        (returns (record {
          opened = record { limitless = refl; asleep = refl };
          pending = refl;
          log = sym (append-nil l.called);
          calling = refl;
          awake = omega arith;
          woken = λ _ _. omega arith;
        }))
  | inr e ↦
      rw (v.asleep, v.limitless, e)
        (returns (record {
          opened = record { limitless = refl; asleep = refl };
          pending = refl;
          log = sym (append-nil l.called);
          calling = refl;
          awake = omega arith;
          woken = λ t _. absurd (false≢true t);
        }))
]

Moved-trans :
    {fs gs cs ds : List ℕ} {l m n : EventLoop}
    → Moved fs cs l m
    → Moved gs ds m n
    → Moved (fs ++ gs) (cs ++ ds) l n
Moved-trans {fs} {gs} {cs} {ds} {l} {m} {n} a b = record {
  opened = b.opened;
  pending = b.pending ∙ ap (λ xs. xs ++ gs) a.pending ∙ append_assoc l.pending_functors.queue fs gs;
  log = b.log ∙ ap (λ xs. xs ++ ds) a.log ∙ append_assoc l.called cs ds;
  calling = b.calling ∙ a.calling;
  awake = omega (arith, a.awake, b.awake);
  woken = λ t h. elim (Bool-cases (ltb 0 (length fs))) [
    | inl e ↦ omega (arith, a.woken t (ltb→lt _ _ e), b.awake)
    | inr e ↦ b.woken (a.calling ∙ t) (ground (arith, length-append fs gs))
  ];
}

queue_all-Moved :
    (fs : List ℕ) (l : EventLoop) → IsOpen l → Returns (Moved fs [] l) (queue_all fs l)
unfolding queue_all
queue_all-Moved [] l v = returns (record {
  opened = v;
  pending = sym (append-nil l.pending_functors.queue);
  log = sym (append-nil l.called);
  calling = refl;
  awake = omega arith;
  woken = λ _ h. absurd (omega arith);
})
queue_all-Moved (f ∷ fs) l v =
    Returns-bind (queue-Moved f l v)
      λ m a. Returns-map (queue_all-Moved fs m a.opened) λ n b. Moved-trans a b

pop-front :
    (q : BlockingQueue ℕ) (x : ℕ) (xs : List ℕ)
    → q.wakeup ≡ false
    → q.queue ≡ x ∷ xs
    → pop 0 q ≡ some (x, record q { queue = xs })
unfolding pop
pop-front q x xs w e = simp (w, e) refl

module _ (queues : ℕ → List ℕ) where
  -- What a run of functors queues, in order.
  abbrev pub queued : List ℕ → List ℕ
  queued [] = []
  queued (f ∷ fs) = queues f ++ queued fs

  invoke-Moved :
      (f : ℕ) (l : EventLoop) → IsOpen l → Returns (Moved (queues f) (f ∷ []) l) (invoke queues f l)
  unfolding invoke
  invoke-Moved f l v =
      Returns-map
        (queue_all-Moved (queues f) (record l { called = l.called ++ f ∷ [] })
          (record { limitless = v.limitless; asleep = v.asleep }))
        λ m a. record {
          opened = a.opened;
          pending = a.pending;
          log = a.log ∙ append-nil (l.called ++ f ∷ []);
          calling = a.calling;
          awake = a.awake;
          woken = a.woken;
        }

  invoke_all-Moved :
      (fs : List ℕ) (l : EventLoop)
      → IsOpen l
      → Returns (Moved (queued fs) fs l) (invoke_all queues fs l)
  unfolding invoke_all
  invoke_all-Moved [] l v = queue_all-Moved [] l v
  invoke_all-Moved (f ∷ fs) l v =
      Returns-bind (invoke-Moved f l v)
        λ m a. Returns-map (invoke_all-Moved fs m a.opened) λ n b. Moved-trans a b

  -- The functors `fs` in front of the queue were called in order; what they queue follows `rest`.
  record Called (fs rest : List ℕ) (l l' : EventLoop) : Type 0 where
    opened : IsOpen l'
    pending : l'.pending_functors.queue ≡ rest ++ queued fs
    log : l'.called ≡ l.called ++ fs
    awake : l.wakeups ≤ l'.wakeups
    woken : 0 < length (queued fs) → 0 < l'.wakeups

  call_functors-Called :
      (fs rest : List ℕ) (l : EventLoop)
      → IsOpen l
      → l.pending_functors_calling ≡ true
      → l.pending_functors.queue ≡ fs ++ rest
      → Returns (Called fs rest l) (call_functors queues (length fs) l)
  unfolding call_functors
  call_functors-Called [] rest l v c e = returns (record {
    opened = v;
    pending = e ∙ sym (append-nil rest);
    log = sym (append-nil l.called);
    awake = omega arith;
    woken = λ h. absurd (omega arith);
  })
  call_functors-Called (f ∷ fs) rest l v c e =
      let l₁ : EventLoop = record l {
        pending_functors = record l.pending_functors { queue = fs ++ rest };
      } in
      rw (call_functors, pop-front l.pending_functors f (fs ++ rest) v.asleep e)
        (Returns-bind (invoke-Moved f l₁ (record { limitless = v.limitless; asleep = v.asleep }))
          λ m a.
            Returns-map
              (call_functors-Called fs (rest ++ queues f) m a.opened (a.calling ∙ c)
                (a.pending ∙ append_assoc fs rest (queues f)))
              λ n b. record {
                opened = b.opened;
                pending = b.pending ∙ append_assoc rest (queues f) (queued fs);
                log = b.log ∙ ap (λ xs. xs ++ fs) a.log ∙ append_assoc l.called (f ∷ []) fs;
                awake = omega (arith, a.awake, b.awake);
                woken = λ h. elim (Bool-cases (ltb 0 (length (queues f)))) [
                  | inl t ↦ omega (arith, a.woken c (ltb→lt _ _ t), b.awake)
                  | inr t ↦ b.woken (ground (arith, length-append (queues f) (queued fs)))
                ];
              })

  -- A round of pending functors: those that were pending were called, in order, and those that
  -- they queued are pending, with a wakeup.
  pub record Serviced (l l' : EventLoop) : Type 0 where
    pub opened : IsOpen l'
    pub pending : l'.pending_functors.queue ≡ queued l.pending_functors.queue
    pub log : l'.called ≡ l.called ++ l.pending_functors.queue
    pub woken : 0 < length l'.pending_functors.queue → 0 < l'.wakeups

  -- `CallPendingFunctors` calls the functors that are pending, in order, and leaves those that they
  -- queue pending, with a wakeup if there are any.
  pub call_pending_functors-Serviced :
      (l : EventLoop) → IsOpen l → Returns (Serviced l) (call_pending_functors queues l)
  unfolding call_pending_functors
  call_pending_functors-Serviced l v =
      Returns-bind
        (call_functors-Called l.pending_functors.queue []
          (record l { pending_functors_calling = true })
          (record { limitless = v.limitless; asleep = v.asleep }) refl
          (sym (append-nil l.pending_functors.queue)))
        λ m a. returns (record {
          opened = record { limitless = a.opened.limitless; asleep = a.opened.asleep };
          pending = a.pending;
          log = a.log;
          woken = λ h. a.woken (subst (λ xs. 0 < length xs) a.pending h);
        })

  -- After a round of the loop: the handlers of the round and then every functor that was pending
  -- when they were done were called, in order; what these queued is pending.
  pub record Turned (hs : List ℕ) (l l' : EventLoop) : Type 0 where
    pub opened : IsOpen l'
    pub log : l'.called ≡ l.called ++ hs ++ (l.pending_functors.queue ++ queued hs)
    pub pending : l'.pending_functors.queue ≡ queued (l.pending_functors.queue ++ queued hs)
    pub woken : 0 < length l'.pending_functors.queue → 0 < l'.wakeups

  -- A round of `Loop` calls every functor that was pending, or that its handlers queue, once and
  -- in order. What is left was queued by these functors, and then a wakeup is due: the next wait
  -- for events ends at once.
  pub loop_once-Turned :
      (hs : List ℕ) (l : EventLoop) → IsOpen l → Returns (Turned hs l) (loop_once queues hs l)
  unfolding loop_once handle_read
  loop_once-Turned hs l v =
      Returns-bind
        (invoke_all-Moved hs (record l { wakeups = 0 })
          (record { limitless = v.limitless; asleep = v.asleep }))
        λ m a. Returns-map (call_pending_functors-Serviced m a.opened) λ n b. record {
          opened = b.opened;
          log = b.log ∙ ap₂ ◌++◌ a.log a.pending;
          pending = b.pending ∙ ap queued a.pending;
          woken = b.woken;
        }
