-- ===== src/Net/Acceptor/Held.antt =====
-- `HandleRead` of windz/net/Acceptor.cpp: what becomes of a connection that waits, also where no
-- descriptor is left for it.
use windz.Prelude.{
  ℕ, suc, ◌≤◌, ◌<◌, ◌≡◌, refl, sym, ap, ◌∙◌, subst, Bool-cases, ◌⊎◌, inl, inr, true, false, List,
  [], ◌∷◌, ◌++◌, some, ltb, ltb→lt, arith,
}
use windz.Net.Socket.Interface.{InetAddr, Kernel, Accepted, got, accept_failed, Taken, Refused}
use windz.Net.Socket.{accept, close}
use windz.Net.Acceptor.{Acceptor, close_accepted, drop_connection, after_accept, handle_read}

module _ (k : Kernel) where
  open k use {System, in_use, is_open, waiting, max_in_use}

  -- The held descriptor is open, and the process has no more descriptors than it may.
  pub record Holds (a : Acceptor) (s : System) : Type 0 where
    pub fd : ℕ
    pub held : a.idle_fd ≡ some fd
    pub open_fd : is_open s fd ≡ true
    pub few : in_use s ≤ max_in_use

  -- What `HandleRead` does about the first of the connections that wait: the callback is given it; or
  -- it is dropped, for no callback is set or no descriptor is left; or a call of `accept4` has failed
  -- for another reason, and it waits on, if its peer has not given it up.
  pub record Takes (c : InetAddr) (cs : List InetAddr) (a a' : Acceptor) (s s' : System)
      : Type 0 where
    pub holds : Holds a' s'
    pub cb_kept : a'.conn_cb ≡ a.conn_cb
    pub outcome :
        ((fd : ℕ) × (a'.given ≡ a.given ++ (fd, c) ∷ [])
          × (is_open s' fd ≡ true)
          × (in_use s' ≡ suc (in_use s))
          × (waiting s' ≡ cs))
        ⊎ (((a'.given ≡ a.given)
              × (in_use s' ≡ in_use s)
              × (waiting s' ≡ cs)
              × ((a.conn_cb ≡ false) ⊎ (max_in_use ≤ in_use s)))
            ⊎ ((a'.given ≡ a.given)
                × (in_use s' ≡ in_use s)
                × ((waiting s' ≡ c ∷ cs) ⊎ (waiting s' ≡ cs))
                × (t : System) × ((t ≡ s) ⊎ (t ≡ (close k a.idle_fd s).1))
                × (waiting t ≡ c ∷ cs)
                × ((k.accept4 t).0 ≡ accept_failed)))

  -- The held descriptor `h.fd` is closed, the connection taken and closed or not, which leaves `t`,
  -- and `fd'` taken.
  held_again :
      (a : Acceptor) (s t s4 : System) (fd' : ℕ) (h : Holds a s)
      → close_accepted k (k.accept4 (k.close h.fd s).1) ≡ t
      → k.open_null t ≡ (some fd', s4)
      → drop_connection k a s ≡ (record a { idle_fd = some fd' }, s4)
  unfolding drop_connection accept close
  held_again a s t s4 fd' h e op =
      let got_null : k.open_null (close_accepted k (k.accept4 (close k a.idle_fd s).1))
          ≡ (some fd', s4) =
        ap (λ d. k.open_null (close_accepted k (k.accept4 (close k d s).1))) h.held
        ∙ ap k.open_null e
        ∙ op in
      ap (λ r. (record a { idle_fd = r.0 }, r.1)) got_null

  -- The state behind the second `Accept`: the held descriptor is free.
  record Freed (c : InetAddr) (cs : List InetAddr) (a : Acceptor) (s t : System) (h : Holds a s)
      : Type 0 where
    accepted : close_accepted k (k.accept4 (k.close h.fd s).1) ≡ t
    fewer : suc (in_use t) ≡ in_use s
    left :
        (waiting t ≡ cs)
        ⊎ (((waiting t ≡ c ∷ cs) ⊎ (waiting t ≡ cs))
            × ((k.accept4 (k.close h.fd s).1).0 ≡ accept_failed))

  second_accept :
      (c : InetAddr) (cs : List InetAddr) (a : Acceptor) (s : System) (h : Holds a s)
      → waiting s ≡ c ∷ cs
      → max_in_use ≤ in_use s
      → (t : System) × Freed c cs a s t h
  unfolding close
  second_accept c cs a s h w full =
      let n1 = k.close_in_use h.fd s h.open_fd in
      let s1 = (k.close h.fd s).1 in
      let room : in_use s1 < max_in_use = omega (arith, n1, h.few, k.some_room) in
      elim (k.accept4_room s1 c cs (k.close_waiting h.fd s ∙ w) room) [
        | inl r ↦ (
          (k.close r.fd r.after).1,
          record {
            accepted = ap (close_accepted k) r.same;
            fewer =
                let n2 = k.close_in_use r.fd r.after (r.taken.opened r.fd ∙ ground arith) in
                omega (arith, n1, n2, r.taken.counted, full, k.some_room);
            left = inl (k.close_waiting r.fd r.after ∙ r.rest);
          },
        )
        | inr r ↦ (
          r.after,
          record {
            accepted = ap (close_accepted k) r.same;
            fewer = omega (arith, n1, r.table.same_count, full, k.some_room);
            left = inr (r.rest, ap (λ x. x.0) r.same);
          },
        )
      ]

  drop_connection-Takes :
      (c : InetAddr) (cs : List InetAddr) (a : Acceptor) (s : System)
      → Holds a s
      → waiting s ≡ c ∷ cs
      → max_in_use ≤ in_use s
      → Takes c cs a (drop_connection k a s).0 s (drop_connection k a s).1
  unfolding close
  drop_connection-Takes c cs a s h w full =
      let (t, f) = second_accept c cs a s h w full in
      let op = k.open_null_room t (omega (arith, f.fewer, h.few)) in
      let u = op.4 in
      let count : in_use op.1 ≡ in_use s = omega (arith, u.counted, f.fewer) in
      subst (λ r. Takes c cs a r.0 s r.1) (sym (held_again a s t op.1 op.0 h f.accepted op.2))
        (record {
          holds = record {
            fd = op.0;
            held = refl;
            open_fd = u.opened op.0 ∙ ground arith;
            few = omega (arith, count, h.few);
          };
          cb_kept = refl;
          outcome = elim f.left [
            | inl e ↦ inr (inl (refl, count, op.3 ∙ e, inr full))
            | inr (e, failed) ↦ inr (
                inr (
                  refl,
                  count,
                  elim e [ inl x ↦ inl (op.3 ∙ x) | inr x ↦ inr (op.3 ∙ x) ],
                  (k.close h.fd s).1,
                  inr (ap (λ d. (close k d s).1) (sym h.held)),
                  k.close_waiting h.fd s ∙ w,
                  failed,
                ))
          ];
        })

  Refused-Takes :
      (c : InetAddr) (cs : List InetAddr) (a : Acceptor) (s : System)
      → Holds a s
      → waiting s ≡ c ∷ cs
      → (r : Refused in_use is_open waiting c cs s (k.accept4 s)) → Takes c cs a a s r.after
  Refused-Takes c cs a s h w r = record {
    holds = record {
      fd = h.fd;
      held = h.held;
      open_fd = r.table.same_open h.fd ∙ h.open_fd;
      few = omega (arith, r.table.same_count, h.few);
    };
    cb_kept = refl;
    outcome = inr (inr (refl, r.table.same_count, r.rest, s, inl refl, w, ap (λ x. x.0) r.same));
  }

  -- A descriptor that is taken is not the one that is held.
  still_open :
      (fd j : ℕ) (s s' : System)
      → Taken in_use is_open fd s s'
      → is_open s j ≡ true
      → is_open s' j ≡ true
  still_open fd j s s' t h = ground (arith, t.opened j, h)

  still_held :
      (fd j : ℕ) (s s' : System)
      → Taken in_use is_open fd s s'
      → is_open s j ≡ true
      → is_open (k.close fd s').1 j ≡ true
  still_held fd j s s' t h = ground (arith, k.close_is_open fd s' j, t.opened j, t.was_free, h)

  Taken-Takes :
      (c : InetAddr) (cs : List InetAddr) (a : Acceptor) (s s' : System) (fd : ℕ)
      → Holds a s
      → waiting s' ≡ cs
      → Taken in_use is_open fd s s'
      → in_use s < max_in_use
      → Takes c cs a (after_accept k a (got fd c, s')).0 s (after_accept k a (got fd c, s')).1
  unfolding after_accept close
  Taken-Takes c cs a s s' fd h w t room = elim (Bool-cases a.conn_cb) [
    | inl set ↦
        rw (after_accept, set)
          (record {
            holds = record {
              fd = h.fd;
              held = h.held;
              open_fd = still_open fd h.fd s s' t h.open_fd;
              few = omega (arith, t.counted, room);
            };
            cb_kept = refl;
            outcome = inl (fd, refl, t.opened fd ∙ ground arith, t.counted, w);
          })
    | inr unset ↦
        let n = k.close_in_use fd s' (t.opened fd ∙ ground arith) in
        rw (after_accept, unset)
          (record {
            holds = record {
              fd = h.fd;
              held = h.held;
              open_fd = still_held fd h.fd s s' t h.open_fd;
              few = omega (arith, t.counted, n, room);
            };
            cb_kept = refl;
            outcome =
                inr (inl (refl, omega (arith, t.counted, n), k.close_waiting fd s' ∙ w, inl refl));
          })
  ]

  -- Whether descriptors are left or not, and whichever error says so, `HandleRead` takes the first
  -- of the waiting connections off the queue, if no `accept4` fails for another reason. The callback
  -- is given it, with an open descriptor; if no callback is set or no descriptor is left it is dropped
  -- instead, and no descriptor more is in use. Where an `accept4` fails for another reason, the
  -- callback is given nothing, the connection waits on or is gone, and the same number of
  -- descriptors is in use. The acceptor holds an open descriptor back again in any case.
  pub handle_read-Takes :
      (c : InetAddr) (cs : List InetAddr) (a : Acceptor) (s : System)
      → Holds a s
      → waiting s ≡ c ∷ cs
      → Takes c cs a (handle_read k a s).0 s (handle_read k a s).1
  unfolding handle_read accept after_accept
  handle_read-Takes c cs a s h w =
      let Result : Accepted × System → Type 0 =
        λ r. Takes c cs a (after_accept k a r).0 s (after_accept k a r).1 in
      elim (Bool-cases (ltb (in_use s) max_in_use)) [
        | inl room ↦ elim (k.accept4_room s c cs w (ltb→lt _ _ room)) [
          | inl r ↦
              subst Result (sym r.same)
                (Taken-Takes c cs a s r.after r.fd h r.rest r.taken (ltb→lt _ _ room))
          | inr r ↦ subst Result (sym r.same) (Refused-Takes c cs a s h w r)
        ]
        | inr none_left ↦
            let full : max_in_use ≤ in_use s = ground (arith, none_left) in
            let dropped = drop_connection-Takes c cs a s h w full in
            elim (k.accept4_full s c cs w full) [
              | inl e ↦ subst Result (sym e) dropped
              | inr (inl e) ↦ subst Result (sym e) dropped
              | inr (inr r) ↦ subst Result (sym r.same) (Refused-Takes c cs a s h w r)
            ]
      ]
