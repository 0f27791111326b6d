-- ===== src/Net/Socket/Table.antt =====
-- A system of windz/net/Socket/Interface, to run the models of windz/net/Socket.cpp and
-- windz/net/Acceptor.cpp on.
use windz.Prelude.{
  ℕ, suc, ◌-◌, ◌≤◌, ◌<◌, ◌≡◌, refl, ap, ◌∙◌, Bool, true, false, List, [], ◌∷◌, ltb, lt→ltb, ◌==◌,
  if◌then◌else◌, Option, none, some, arith, Bool-cases, ◌⊎◌, inl, inr,
}
use windz.Prelude.Int.{pos}
use windz.Net.Socket.Interface.{
  InetAddr, Accepted, got, emfile, enfile, accept_failed, Taken, Received, Kernel,
}

-- Descriptors are numbered in the order in which they are taken; `closed` says which of them were
-- closed, and `used` how many are in use. `of_system` says whose limit is reached first.
pub record Table : Type 0 where
  pub next : ℕ
  pub closed : ℕ → Bool
  pub used : ℕ
  pub queue : List InetAddr
  pub of_system : Bool

abbrev pub opened : Table → ℕ → Bool
opened t j = if t.closed j then false else ltb j t.next

abbrev pub room : ℕ
room = 4

abbrev pub taken : Table → Table
taken t = record t {
  next = suc t.next;
  closed = λ j. if j == t.next then false else t.closed j;
  used = suc t.used;
}

abbrev pub take_one : Table → Option ℕ × Table
take_one t = if ltb t.used room then (some t.next, taken t) else (none, t)

abbrev pub accept_from : List InetAddr → Table → Accepted × Table
accept_from [] t = (accept_failed, t)
accept_from (c ∷ cs) t =
    if ltb t.used room
    then (got t.next c, record (taken t) { queue = cs })
    else (if t.of_system then enfile else emfile, t)

abbrev pub give_back : ℕ → Table → Table
give_back fd t = record t { closed = λ j. if j == fd then true else t.closed j; used = t.used - 1 }

taken-Taken :
    (t : Table) (cs : List InetAddr)
    → Taken (λ (t : Table). t.used) opened t.next t (record (taken t) { queue = cs })
taken-Taken t cs = record { was_free = ground arith; opened = λ j. ground arith; counted = refl }

pub accept_from-room :
    (t : Table) (c : InetAddr) (cs : List InetAddr)
    → t.queue ≡ c ∷ cs
    → t.used < room
    → Received
        (λ (t : Table). t.used)
        opened
        (λ (t : Table). t.queue)
        c
        cs
        t
        (accept_from t.queue t)
accept_from-room t c cs w h = record {
  fd = t.next;
  after = record (taken t) { queue = cs };
  same = ap (λ q. accept_from q t) w ∙ rw (lt→ltb _ _ h) refl;
  rest = refl;
  taken = taken-Taken t cs;
}

pub accept_from-full :
    (t : Table) (c : InetAddr) (cs : List InetAddr)
    → t.queue ≡ c ∷ cs
    → room ≤ t.used
    → (accept_from t.queue t ≡ (emfile, t)) ⊎ (accept_from t.queue t ≡ (enfile, t))
accept_from-full t c cs w h =
    let none_left : ltb t.used room ≡ false = ground (arith, h) in
    let first = ap (λ q. accept_from q t) w in
    elim (Bool-cases t.of_system) [
      | inl e ↦ inr (first ∙ rw (none_left, e) refl)
      | inr e ↦ inl (first ∙ rw (none_left, e) refl)
    ]

-- A connection that waits is refused only where no descriptor is left.
pub accept_from-never_failed :
    (t : Table) → (accept_from t.queue t).0 ≡ accept_failed → t.queue ≡ []
accept_from-never_failed t e = ground (arith, e)

pub take_one-room :
    (t : Table)
    → t.used < room
    → (fd : ℕ) × (t' : Table) × (take_one t ≡ (some fd, t'))
      × (t'.queue ≡ t.queue)
      × Taken (λ (t : Table). t.used) opened fd t t'
take_one-room t h = (t.next, taken t, rw (lt→ltb _ _ h) refl, refl, taken-Taken t t.queue)

pub given_back-opened :
    (fd : ℕ) (t : Table) (j : ℕ)
    → opened (give_back fd t) j ≡ (if j == fd then false else opened t j)
given_back-opened fd t j = ground arith

abbrev pub table : Kernel
table = record {
  System = Table;
  max_in_use = room;
  in_use = λ t. t.used;
  is_open = opened;
  waiting = λ t. t.queue;
  accept4 = λ t. accept_from t.queue t;
  close = λ fd t. (pos 0, give_back fd t);
  open_null = take_one;
  socket = take_one;
  bind = λ fd a t. (pos 0, t);
  listen = λ fd n t. (pos 0, t);
  setsockopt = λ fd o t. (pos 0, t);
  connect = λ fd a t. (pos 0, t);
  shutdown = λ fd n t. (pos 0, t);
  getsockname = λ fd t. (pos 0, record { sin_family = 0; sin_port = 0; s_addr = 0 });
  getpeername = λ fd t. (pos 0, record { sin_family = 0; sin_port = 0; s_addr = 0 });
  getsockopt_error = λ fd t. (pos 0, pos 0);
  errno = λ t. pos 0;
  some_room = omega arith;
  accept4_full =
      λ t c cs w h. elim (accept_from-full t c cs w h) [ inl e ↦ inl e | inr e ↦ inr (inl e) ];
  accept4_room = λ t c cs w h. inl (accept_from-room t c cs w h);
  open_null_room = take_one-room;
  close_waiting = λ fd t. refl;
  close_in_use = λ fd t h. refl;
  close_is_open = given_back-opened;
  socket_room = λ t h. let r = take_one-room t h in (r.0, r.1, r.2, r.4);
  bind_same = λ fd a t. record { same_count = refl; same_open = λ j. refl };
  listen_same = λ fd n t. record { same_count = refl; same_open = λ j. refl };
  setsockopt_same = λ fd o t. record { same_count = refl; same_open = λ j. refl };
}

-- Descriptors up to the max_in_use are in use, and `queue` waits.
abbrev pub with_queue : ℕ → List InetAddr → Table
with_queue n queue = record {
  next = n;
  closed = λ j. false;
  used = n;
  queue = queue;
  of_system = false;
}
