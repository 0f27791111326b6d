-- ===== src/Log/AsyncLogging/Lossless.antt =====
-- What becomes of the lines in windz/log/AsyncLogging.cpp.
use windz.Prelude.{
  ℕ, zero, suc, ◌+◌, ◌≤◌, ◌<◌, ◌≡◌, refl, sym, ap, ◌∙◌, false≢true, true, Bool-cases, inl, inr,
  List, [], ◌∷◌, ◌++◌, append-nil, append_assoc, length, length-append, take, length-take, ltb,
  if◌then◌else◌, Option, none, some, ok, Returns, returns, Returns-require, lt→ltb, arith,
}
use windz.Log.LogStream.{FixBuffer, large_buffer, avail, reset}
use windz.Log.AsyncLogging.{
  AsyncLogging, append_line, or_new, is_empty, is_null, texts, exchange, pop_back, refill, limit,
  overload, thread_round,
}

-- A buffer of the full size with nothing in it.
abbrev blank : FixBuffer
blank = record { size = large_buffer; data_ = [] }

abbrev AreLarge : List FixBuffer → Type 0
AreLarge [] = Unit
AreLarge (b ∷ bs) = (b.size ≡ large_buffer) × AreLarge bs

-- Between two rounds: the spare buffers are empty, the next one too if it is there, and where it
-- is not, a full buffer waits.
pub record IsSound (s : AsyncLogging) : Type 0 where
  pub spares : (s.spare_1 ≡ some blank) × (s.spare_2 ≡ some blank)
  pub next_blank : or_new s.next ≡ blank
  pub waiting : is_null s.next ≡ true → 0 < length s.buffers
  pub large : AreLarge (s.buffers ++ s.current ∷ [])

-- What was logged and is not written yet, in order.
abbrev pub pending : AsyncLogging → List ℕ
pending s = texts (s.buffers ++ s.current ∷ [])

texts-append : (bs cs : List FixBuffer) → texts (bs ++ cs) ≡ texts bs ++ texts cs
texts-append [] cs = refl
texts-append (b ∷ bs) cs =
    ap (◌++◌ b.data_) (texts-append bs cs) ∙ sym (append_assoc b.data_ (texts bs) (texts cs))

AreLarge-append : (bs cs : List FixBuffer) → AreLarge bs → AreLarge cs → AreLarge (bs ++ cs)
AreLarge-append [] cs v w = w
AreLarge-append (b ∷ bs) cs v w = (v.0, AreLarge-append bs cs v.1 w)

AreLarge-init : (bs cs : List FixBuffer) → AreLarge (bs ++ cs) → AreLarge bs × AreLarge cs
AreLarge-init [] cs v = (tt, v)
AreLarge-init (b ∷ bs) cs v = let r = AreLarge-init bs cs v.1 in ((v.0, r.0), r.1)

take-AreLarge : (n : ℕ) (bs : List FixBuffer) → AreLarge bs → AreLarge (take n bs)
take-AreLarge zero bs v = tt
take-AreLarge (suc n) [] v = tt
take-AreLarge (suc n) (b ∷ bs) v = (v.0, take-AreLarge n bs v.1)

texts-snoc : (bs : List FixBuffer) (b : FixBuffer) → texts (bs ++ b ∷ []) ≡ texts bs ++ b.data_
texts-snoc bs b = texts-append bs (b ∷ []) ∙ ap (◌++◌ (texts bs)) (append-nil b.data_)

-- `Append` of a line that a buffer can hold adds exactly that line.
append_line_lem :
    (line : List ℕ) (s : AsyncLogging)
    → IsSound s
    → length line < large_buffer
    → IsSound (append_line line s) × (pending (append_line line s) ≡ pending s ++ line)
unfolding append_line
append_line_lem line s v h =
    let parts = AreLarge-init s.buffers (s.current ∷ []) v.large in
    elim (Bool-cases (ltb (length line) (avail s.current))) [
      | inl t ↦ rw t (
        record {
          spares = v.spares;
          next_blank = v.next_blank;
          waiting = v.waiting;
          large = AreLarge-append s.buffers _ parts.0 (parts.1.0, tt);
        },
        texts-snoc s.buffers _
            ∙ sym (append_assoc (texts s.buffers) s.current.data_ line)
            ∙ ap (λ xs. xs ++ line) (sym (texts-snoc s.buffers s.current)),
      )
      | inr f ↦
          rw (f, v.next_blank, lt→ltb (length line) large_buffer h)
            (
              record {
                spares = v.spares;
                next_blank = refl;
                waiting = λ _. omega (arith, length-append s.buffers (s.current ∷ []));
                large = AreLarge-append _ _ v.large (refl, tt);
              },
              texts-snoc (s.buffers ++ s.current ∷ []) (record blank { data_ = line }),
            )
    ]

-- The last of some large buffers.
record Last (bs : List FixBuffer) : Type 0 where
  front : List FixBuffer
  back : FixBuffer
  found : pop_back bs ≡ some (front, back)
  front_large : AreLarge front
  back_large : back.size ≡ large_buffer
  fewer : length front + 1 ≡ length bs

pop_back-Last : (b : FixBuffer) (bs : List FixBuffer) → AreLarge (b ∷ bs) → Last (b ∷ bs)
unfolding pop_back
pop_back-Last b [] v = record {
  front = [];
  back = b;
  found = refl;
  front_large = tt;
  back_large = v.0;
  fewer = refl;
}
pop_back-Last b (c ∷ cs) v =
    let r = pop_back-Last c cs v.1 in
    record {
      front = b ∷ r.front;
      back = r.back;
      found = rw (pop_back, r.found) refl;
      front_large = (v.0, r.front_large);
      back_large = r.back_large;
      fewer = omega (arith, r.fewer);
    }

-- One of some large buffers becomes a spare one.
refill-large :
    (bs : List FixBuffer)
    → AreLarge bs
    → 0 < length bs
    → (cs : List FixBuffer) × (refill none bs ≡ ok (some blank, cs))
      × AreLarge cs
      × (length cs + 1 ≡ length bs)
unfolding refill reset
refill-large [] v h = absurd (omega arith)
refill-large (b ∷ bs) v h =
    let r = pop_back-Last b bs v in
    (r.front, rw (refill, r.found, r.back_large) refl, r.front_large, r.fewer)

refill-kept :
    {o : Option FixBuffer} (bs : List FixBuffer)
    → o ≡ some blank
    → refill o bs ≡ ok (some blank, bs)
unfolding refill
refill-kept bs e = rw e refl

-- What a round does: everything that was pending is written, in order, and nothing else.
pub record Flushed (s t : AsyncLogging) : Type 0 where
  pub sound : IsSound t
  pub none_pending : pending t ≡ []
  pub output : t.written ≡ s.written ++ pending s

two_at_most :
    (bs : List FixBuffer)
    → AreLarge bs
    → 0 < length bs
    → let ks = if ltb 2 (length bs) then take 2 bs else bs in
      AreLarge ks × (0 < length ks) × (1 < length bs → 1 < length ks)
two_at_most bs v h = elim (Bool-cases (ltb 2 (length bs))) [
  | inl t ↦
      let n : length (take 2 bs) ≡ 2 = length-take 2 bs (ground arith) in
      rw t (take-AreLarge 2 bs v, omega (arith, n), λ _. omega (arith, n))
  | inr f ↦ rw f (v, h, λ g. g)
]

overload-few :
    (notice : ℕ → List ℕ) (bs : List FixBuffer) → length bs ≤ limit → overload notice bs ≡ ([], bs)
unfolding overload
overload-few notice bs h = ground arith

-- A round of the thread with at most 25 buffers to write fails no assertion, writes everything that
-- was logged before, in order and once, and leaves the buffers ready for the next round.
pub thread_round-Flushed :
    (notice : ℕ → List ℕ) (s : AsyncLogging)
    → IsSound s
    → length s.buffers < limit
    → Returns (Flushed s) (thread_round notice s)
unfolding thread_round exchange
thread_round-Flushed notice s v few =
    let all = s.buffers ++ s.current ∷ [] in
    let size : length all ≡ length s.buffers + 1 =
      omega (arith, length-append s.buffers (s.current ∷ [])) in
    let k = two_at_most all v.large (omega (arith, size)) in
    let r = refill-large _ k.0 k.1 in
    Returns-require (is_empty s.spare_1) _ (ap is_empty v.spares.0) (
      Returns-require (is_empty s.spare_2) _ (ap is_empty v.spares.1) (
        rw (overload-few notice all (omega (arith, size)), r.1)
          (elim (Bool-cases (is_null s.next)) [
            | inl e ↦
                let q =
                  refill-large r.0 r.2
                    (omega (arith, r.3, k.2 (omega (arith, size, v.waiting e)))) in
                rw (e, q.1)
                  (returns (record {
                    sound = record {
                      spares = (refl, refl);
                      next_blank = ap or_new v.spares.1;
                      waiting = λ h. absurd (false≢true (sym (ap is_null v.spares.1) ∙ h));
                      large = (ap (λ o. (or_new o).size) v.spares.0, tt);
                    };
                    none_pending = ap (λ o. (or_new o).data_ ++ []) v.spares.0;
                    output = ap (λ xs. xs ++ texts all) (append-nil s.written);
                  }))
            | inr e ↦
                rw (e, refill-kept r.0 v.spares.1)
                  (returns (record {
                    sound = record {
                      spares = (refl, refl);
                      next_blank = v.next_blank;
                      waiting = λ h. absurd (false≢true (sym e ∙ h));
                      large = (ap (λ o. (or_new o).size) v.spares.0, tt);
                    };
                    none_pending = ap (λ o. (or_new o).data_ ++ []) v.spares.0;
                    output = ap (λ xs. xs ++ texts all) (append-nil s.written);
                  }))
          ])))
