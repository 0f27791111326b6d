-- ===== src/Net/Timer/Expiry.antt =====
-- `TimerManager::HandleExpired` of windz/net/Timer.cpp.
use mathlib.Core.List.{
  Perm, Permᴰ, Mem, Nodup, Nodup-cons, mem-cons, mem-cons_of_mem, mem-cons_self,
}
use mathlib.Core.List.Perm
use mathlib.Core.Logic.{∥∥₁_elim}
use mathlib.Core.Logic.Or
use native.Mathlib.Nat.{ℕ_set}
use native.Mathlib.Bridge.{le_prop}
use windz.Prelude.{
  ℕ, zero, suc, ◌+◌, ◌≤◌, ◌<◌, ◌≡◌, ◌≢◌, refl, sym, ap, ap₂, subst, ◌∙◌, true, false, ◌||◌, List,
  [], ◌∷◌, ◌++◌, length, get_or-cons, map, append-nil, append_assoc, if◌then◌else◌, arith, Returns,
  returns, Returns-bind, Returns-map, Returns-if,
}
use windz.Prelude.Int.{ℤ, pos, +ℤ_parts, ◌≤ℤ◌, ◌<ℤ◌, leb_ℤ}
use windz.Net.Timer.Heap.{Timer, TimerHeap, no_timer}
use windz.Net.Timer.Heap.Order.{above, due_at, IsHeap, root_earliest}
use windz.Net.Timer.Heap.Down.{Sinking, down_restores, pop_in_heap_lem}
use windz.Net.Timer.{Manager, restart, update, fire, handle_loop, handle_expired}

-- The timers that a run must deal with: canceled, or due.
abbrev weight : ℤ → Timer → ℕ
weight now t = if t.canceled || leb_ℤ t.when now then 1 else 0

abbrev pub count_due : ℤ → TimerHeap → ℕ
count_due now [] = 0
count_due now (t ∷ heap) = weight now t + count_due now heap

-- The ids of the timers that are to run: due, and not canceled.
abbrev emit : ℤ → Timer → List ℕ → List ℕ
emit now t out = if t.canceled then out else if leb_ℤ t.when now then t.id ∷ out else out

abbrev pub ripe : ℤ → TimerHeap → List ℕ
ripe now [] = []
ripe now (t ∷ heap) = emit now t (ripe now heap)

abbrev pub ids : TimerHeap → List ℕ
ids = map λ t. t.id

count_dueᴰ : (now : ℤ) {a b : TimerHeap} → Permᴰ a b → count_due now a ≡ count_due now b
count_dueᴰ now Permᴰ.nil = refl
count_dueᴰ now (Permᴰ.cons e p) = ap₂ (λ t n. weight now t + n) e (count_dueᴰ now p)
count_dueᴰ now (Permᴰ.swap d e) = omega (arith, ap (weight now) d, ap (weight now) e)
count_dueᴰ now (Permᴰ.trans p q) = count_dueᴰ now p ∙ count_dueᴰ now q

count_due-perm : (now : ℤ) {a b : TimerHeap} → Perm a b → count_due now a ≡ count_due now b
count_due-perm now p = ∥∥₁_elim p (ℕ_set _ _) (count_dueᴰ now)

emit-perm :
    (now : ℤ) (t u : Timer) {xs ys : List ℕ}
    → t ≡ u
    → Perm xs ys
    → Perm (emit now t xs) (emit now u ys)
emit-perm now t u {xs} {ys} e p =
    subst (λ v. Perm (emit now t xs) (emit now v ys)) e (ground (arith, p, Perm.cons t.id p))

emit-swap :
    (now : ℤ) (t u : Timer) (xs : List ℕ)
    → Perm (emit now t (emit now u xs)) (emit now u (emit now t xs))
emit-swap now t u xs =
    let same : Perm xs xs = Perm.rfl in
    ground (arith, same, Perm.cons t.id same, Perm.cons u.id same, Perm.swap u.id t.id xs)

ripeᴰ : (now : ℤ) {a b : TimerHeap} → Permᴰ a b → Perm (ripe now a) (ripe now b)
ripeᴰ now Permᴰ.nil = Perm.nil
ripeᴰ now (Permᴰ.cons e p) = emit-perm now _ _ e (ripeᴰ now p)
ripeᴰ now (Permᴰ.swap {a = a} {b = b} d e) =
    Perm.trans (emit-swap now a b _) (emit-perm now b _ e (emit-perm now a _ d Perm.rfl))
ripeᴰ now (Permᴰ.trans p q) = Perm.trans (ripeᴰ now p) (ripeᴰ now q)

pub ripe-perm : (now : ℤ) {a b : TimerHeap} → Perm a b → Perm (ripe now a) (ripe now b)
ripe-perm now p = ∥∥₁_elim p squash₁ (ripeᴰ now)

update_absent :
    (id : ℕ) (f : Timer → Timer) (heap : TimerHeap) → ¬ Mem id (ids heap) → update id f heap ≡ heap
unfolding update
update_absent id f [] h = refl
update_absent id f (t ∷ heap) h =
    let other : t.id ≢ id = λ e. h (rw e mem-cons_self) in
    ap₂ ◌∷◌ (ground arith) (update_absent id f heap (λ m. h (mem-cons_of_mem t.id m)))

-- A changed root leaves only the edges right below it in doubt.
change_root : (t u : Timer) (rest : TimerHeap) → IsHeap (t ∷ rest) → Sinking (u ∷ rest) 0
change_root t u rest h = record {
  edges = λ c p q n. ground (
    arith,
    h c,
    get_or-cons t rest c no_timer,
    get_or-cons u rest c no_timer,
    get_or-cons t rest (above c) no_timer,
    get_or-cons u rest (above c) no_timer,
  );
  below = λ c p q e n. absurd (omega arith);
}

-- A repeating timer has a positive interval.
abbrev pub Advances : TimerHeap → Type 0
Advances heap = (t : Timer) → Mem t heap → t.repeat ≡ true → pos 0 <ℤ t.interval

-- What a run needs of the timers: the heap order, an identity each, and intervals that pass.
pub record Ready (heap : TimerHeap) : Type 0 where
  pub order : IsHeap heap
  pub distinct : Nodup (ids heap)
  pub advances : Advances heap

-- What a run from `heap` with the log `fired` ends in.
pub record Expired (now : ℤ) (heap : TimerHeap) (fired : List ℕ) (m : Manager) : Type 0 where
  pub order : IsHeap m.heap
  pub later : (i : ℕ) → i < length m.heap → now <ℤ due_at m.heap i
  pub ran : (r : List ℕ) × (m.fired ≡ fired ++ r) × Perm r (ripe now heap)

pub Ready-perm : {a b : TimerHeap} → IsHeap b → Perm b a → Nodup (ids a) → Advances a → Ready b
Ready-perm h p distinct advances = record {
  order = h;
  distinct = Perm.nodup (Perm.map _ (Perm.symm p)) distinct;
  advances = λ t m. advances t ((Perm.mem_iff p).0 m);
}

Ready-tail : {t : Timer} {rest b : TimerHeap} → IsHeap b → Perm b rest → Ready (t ∷ rest) → Ready b
Ready-tail {t} h p v =
    Ready-perm h p (Nodup-cons.0 v.distinct).1 (λ u m. v.advances u (mem-cons_of_mem t m))

restart_keeps :
    (later : ℤ) (t : Timer)
    → ((restart later t).id ≡ t.id) × ((restart later t).canceled ≡ t.canceled)
unfolding restart
restart_keeps later t = (refl, refl)

restart-Advances :
    (later : ℤ) (t : Timer) (rest : TimerHeap)
    → Advances (t ∷ rest)
    → Advances (restart later t ∷ rest)
unfolding restart
restart-Advances later t rest v u m r =
    Or.elim le_prop (mem-cons.0 m)
      (λ e.
        let kept : t.repeat ≡ true = ap (λ (w : Timer). w.repeat) (sym e) ∙ r in
        rw e (v t mem-cons_self kept))
      λ k. v u (mem-cons_of_mem t k) r

-- A repeating timer, restarted at a time not before `now`, is not due at `now`.
restart-weight :
    (now later : ℤ) (t : Timer)
    → now ≤ℤ later
    → t.repeat ≡ true
    → t.canceled ≡ false
    → pos 0 <ℤ t.interval
    → leb_ℤ (restart later t).when now ≡ false
unfolding restart
restart-weight now later t h r c p = ground (arith, +ℤ_parts later t.interval)

none_ripe :
    (now : ℤ) (heap : TimerHeap)
    → ((i : ℕ) → i < length heap → now <ℤ due_at heap i)
    → ripe now heap ≡ []
none_ripe now [] h = refl
none_ripe now (t ∷ heap) h =
    ground (arith, h 0, none_ripe now heap (λ i p. h (suc i) (omega arith)))

abbrev manager : TimerHeap → List ℕ → ℕ → Manager
manager heap fired reads = record { heap = heap; fired = fired; reads = reads }

-- The manager after its root `t` has run.
record Fired (now : ℤ) (t : Timer) (rest : TimerHeap) (m m' : Manager) : Type 0 where
  ready : Ready m'.heap
  logged : m'.fired ≡ m.fired ++ t.id ∷ []
  ticked : m.reads ≤ m'.reads
  fewer : count_due now m'.heap ≡ count_due now rest
  left : Perm (ripe now m'.heap) (ripe now rest)

module _ (call : ℕ → TimerHeap → TimerHeap) (clock : ℕ → ℤ)
    (quiet : (cb : ℕ) (h : TimerHeap) → call cb h ≡ h) where
  fire_lem :
      (now : ℤ) (t : Timer) (rest : TimerHeap) (fired : List ℕ) (reads : ℕ)
      → now ≤ℤ clock reads
      → t.canceled ≡ false
      → Ready (t ∷ rest)
      → Returns
          (Fired now t rest (manager (t ∷ rest) fired reads))
          (fire call clock t (manager (t ∷ rest) fired reads))
  unfolding fire update
  fire_lem now t rest fired reads tick c v = rw (quiet t.cb (t ∷ rest)) (
      Returns-if t.repeat
        (λ r.
          let u = restart (clock reads) t in
          let fresh = (Nodup-cons.0 v.distinct).0 in
          let kept : update t.id (restart (clock reads)) (t ∷ rest) ≡ u ∷ rest =
            ap₂ ◌∷◌ (ground arith) (update_absent t.id (restart (clock reads)) rest fresh) in
          let settled =
            restart-weight now (clock reads) t tick r c (v.advances t mem-cons_self r) in
          rw kept (
            Returns-bind (down_restores (u ∷ rest) 0 (change_root t u rest v.order)) λ b (h, p).
              returns (record {
                ready =
                    Ready-perm h p (rw (restart_keeps (clock reads) t).0 v.distinct)
                      (restart-Advances (clock reads) t rest v.advances);
                logged = refl;
                ticked = omega arith;
                fewer =
                    count_due-perm now p
                    ∙ ground (arith, settled, (restart_keeps (clock reads) t).1);
                left =
                    Perm.trans (ripe-perm now p)
                      (simp ((restart_keeps (clock reads) t).1, c, settled) Perm.rfl);
              })))
        λ r. Returns-bind (pop_in_heap_lem (t ∷ rest) v.order (omega arith)) λ b (h, p).
          let q = Perm.cons_inv p in
          returns (record {
            ready = Ready-tail h q v;
            logged = refl;
            ticked = omega arith;
            fewer = count_due-perm now q;
            left = ripe-perm now q;
          }))

  loop_expires :
      (fuel : ℕ) (now : ℤ) (heap : TimerHeap) (fired : List ℕ) (reads : ℕ)
      → ((r : ℕ) → reads ≤ r → now ≤ℤ clock r)
      → Ready heap
      → count_due now heap < fuel
      → Returns
          (Expired now heap fired)
          (handle_loop call clock fuel now (manager heap fired reads))
  unfolding handle_loop
  loop_expires zero now heap fired reads ticks v f = absurd (omega arith)
  loop_expires (suc fuel) now [] fired reads ticks v f = returns (record {
    order = v.order;
    later = λ i p. absurd (omega arith);
    ran = ([], sym (append-nil fired), Perm.nil);
  })
  loop_expires (suc fuel) now (t ∷ rest) fired reads ticks v f =
      Returns-if t.canceled
        (λ c. Returns-bind (pop_in_heap_lem (t ∷ rest) v.order (omega arith)) λ b (h, p).
          let q = Perm.cons_inv p in
          Returns-map
            (loop_expires fuel now b fired reads ticks (Ready-tail h q v)
              (ground (arith, count_due-perm now q)))
            λ m x.
              let (r, e, s) = x.ran in
              record {
                order = x.order;
                later = x.later;
                ran = (r, e, rw c (Perm.trans s (ripe-perm now q)));
              })
        λ c.
          Returns-if (leb_ℤ t.when now)
            (λ d.
              Returns-bind (fire_lem now t rest fired reads (ticks reads (omega arith)) c v) λ m' x.
                Returns-map
                  (loop_expires fuel now m'.heap m'.fired m'.reads
                    (λ r p. ticks r (omega (arith, x.ticked))) x.ready (ground (arith, x.fewer)))
                  λ m y.
                    let (r, e, s) = y.ran in
                    record {
                      order = y.order;
                      later = y.later;
                      ran = (
                        t.id ∷ r,
                        e ∙ ap (λ xs. xs ++ r) x.logged ∙ append_assoc fired (t.id ∷ []) r,
                        rw (c, d) (Perm.cons t.id (Perm.trans s x.left)),
                      );
                    })
            λ d.
              let later : (i : ℕ) → i < length (t ∷ rest) → now <ℤ due_at (t ∷ rest) i =
                λ i p. ground (arith, root_earliest (t ∷ rest) i v.order p) in
              returns (record {
                order = v.order;
                later = later;
                ran = (
                  [],
                  sym (append-nil fired),
                  subst (Perm []) (sym (none_ripe now (t ∷ rest) later)) Perm.nil,
                );
              })

count_due-le : (now : ℤ) (heap : TimerHeap) → count_due now heap ≤ length heap
count_due-le now [] = omega arith
count_due-le now (t ∷ heap) = ground (arith, count_due-le now heap)

-- For timers in heap order, each an object of its own, of which those that repeat have an interval
-- above 0, `HandleExpired` ends, and with fuel above the number of timers never runs out: with
-- functions that leave the timers alone and a clock that does not go back, each timer that was due
-- and not canceled has run exactly once, nothing in the heap is due any more, and the heap is in
-- order.
pub handle_expired_runs_due :
    (call : ℕ → TimerHeap → TimerHeap) (clock : ℕ → ℤ) (fuel : ℕ) (m : Manager)
    → ((cb : ℕ) (h : TimerHeap) → call cb h ≡ h)
    → ((r : ℕ) → m.reads ≤ r → clock m.reads ≤ℤ clock r)
    → Ready m.heap
    → length m.heap < fuel
    → Returns (Expired (clock m.reads) m.heap m.fired) (handle_expired call clock fuel m)
unfolding handle_expired
handle_expired_runs_due call clock fuel m quiet ticks v f =
    loop_expires call clock quiet fuel (clock m.reads) m.heap m.fired (m.reads + 1)
      (λ r p. ticks r (omega arith)) v (omega (arith, count_due-le (clock m.reads) m.heap))

-- Where the function of a one-shot timer `t` leaves another timer `u` at the root, as `RunAt` of an
-- earlier time does, the branch drops `u`, which has not run, and keeps `t`, which has.
pub fire_drops_root :
    (call : ℕ → TimerHeap → TimerHeap) (clock : ℕ → ℤ) (t u : Timer) (rest : TimerHeap)
    (m : Manager)
    → t.repeat ≡ false
    → call t.cb m.heap ≡ u ∷ rest
    → Ready (u ∷ rest)
    → Mem t rest
    → Returns
        (λ m'. Mem t m'.heap × (¬ Mem u.id (ids m'.heap)) × (m'.fired ≡ m.fired ++ t.id ∷ []))
        (fire call clock t m)
unfolding fire
fire_drops_root call clock t u rest m once e v held = rw e (
    Returns-if t.repeat (λ r. cc)
      λ _. Returns-bind (pop_in_heap_lem (u ∷ rest) v.order (omega arith)) λ b (h, p).
        let q = Perm.cons_inv p in
        returns (
          (Perm.mem_iff q).1 held,
          λ k. (Nodup-cons.0 v.distinct).0 ((Perm.mem_iff (Perm.map _ q)).0 k),
          refl,
        ))
