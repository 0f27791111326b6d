-- ===== src/Net/Buffer/Queue.antt =====
-- windz/net/Buffer.cpp as the implementation of a queue of bytes: what a caller of the buffer may
-- rely on, without the vector and its two indices, and the sequences of calls that it can make.
use windz.Prelude.{
  ℕ, ◌+◌, ◌-◌, ◌≤◌, ◌<◌, ◌≡◌, refl, sym, ap, subst, List, [], ◌∷◌, ◌++◌, length, take, drop, leb,
  if◌then◌else◌, Run, ok, fault, assertion, Fault, ◌>>=◌, Option, none, some, arith, Returns,
  Returns-inv, Bool-cases, inl, inr, take-length_append, drop-length_append, length-append,
  length-take-min, length-drop,
}
use windz.Net.Buffer.{
  Buffer, max_size, prepend_size, release, read_bytes, write, un_write, shrink, read_fd,
}
use windz.Net.Buffer.Copy.{read, length-read}
use windz.Net.Buffer.Valid.{IsValid, contents}
use windz.Net.Buffer.Contents.{
  Holds, read_bytes_takes, release_lem, length-contents, short_buffer_faults, write_appends,
  un_write_lem, shrink_lem, read_fd_appends,
}

-- One call: `Write`, `Read`, `Release`, `UnWrite`, `Shrink`, and `ReadFd` with the kernel's answer.
pub data Call : Type 0 where
  writes : List ℕ → Call
  reads releases un_writes shrinks : ℕ → Call
  reads_fd : Option (List ℕ) → Call

-- What the call gives its caller.
pub data Output : Type 0 where
  nothing : Output
  bytes : List ℕ → Output
  count : Option ℕ → Output

pub call_buffer : Call → Buffer → Run (Output × Buffer)
call_buffer (writes new) b = write b new >>= λ b'. ok (nothing, b')
call_buffer (reads n) b = read_bytes b n >>= λ (s, b'). ok (bytes s, b')
call_buffer (releases n) b = release b n >>= λ b'. ok (nothing, b')
call_buffer (un_writes n) b = un_write b n >>= λ b'. ok (nothing, b')
call_buffer (shrinks n) b = shrink b n >>= λ b'. ok (nothing, b')
call_buffer (reads_fd answer) b = read_fd b answer >>= λ (n, b'). ok (count n, b')

-- The queue: the same calls on the bytes alone.
unfoldable pub call_queue : Call → List ℕ → Run (Output × List ℕ)
call_queue (writes new) q = ok (nothing, q ++ new)
call_queue (reads n) q =
    if leb n (length q) then ok (bytes (take n q), drop n q) else fault assertion
call_queue (releases n) q = if leb n (length q) then ok (nothing, drop n q) else fault assertion
call_queue (un_writes n) q =
    if leb n (length q) then ok (nothing, take (length q - n) q) else fault assertion
call_queue (shrinks n) q = ok (nothing, q)
call_queue (reads_fd none) q = ok (count none, q)
call_queue (reads_fd (some new)) q = ok (count (some (length new)), q ++ new)

-- A sequence of calls, up to the first that faults.
module _ {S : Type 0} (call : Call → S → Run (Output × S)) where
  unfoldable pub call_all : List Call → S → Run (List Output × S)
  call_all [] s = ok ([], s)
  call_all (c ∷ calls) s = do
    (out, s') ← call c s
    (outs, s'') ← call_all calls s'
    ok (out ∷ outs, s'')

-- The space that a call asks for at most.
abbrev pub demand : Call → ℕ
demand (writes new) = length new
demand (shrinks n) = n
demand (reads_fd (some new)) = length new
demand c = 0

abbrev pub demands : List Call → ℕ
demands [] = 0
demands (c ∷ calls) = demand c + demands calls

-- The buffer's run does what the queue's does: it gives the same and then holds the queue's bytes,
-- or it ends with the same fault.
pub data Refines {O : Type 0} : Run (O × List ℕ) → Run (O × Buffer) → Type 0 where
  both_return :
      {out : O} {q : List ℕ} {b : Buffer} → Holds q b → Refines (ok (out, q)) (ok (out, b))
  both_fault : (e : Fault) → Refines (fault e) (fault e)

module _ {O : Type 0} where
  Refines-if :
      {q_run : Run (O × List ℕ)} {b_run : Run (O × Buffer)} (n m : ℕ)
      → (n ≤ m → Refines q_run b_run)
      → (m < n → b_run ≡ fault assertion)
      → Refines (if leb n m then q_run else fault assertion) b_run
  Refines-if n m enough short = elim (Bool-cases (leb n m)) [
    | inl t ↦ rw t (enough (ground arith))
    | inr t ↦ rw (t, short (ground arith)) (both_fault assertion)
  ]

  -- A call of the buffer whose result is known to hold the queue's bytes.
  Refines-map :
      {A : Type 0} {P : A → Type 0} {r : Run A} {out : O} {q : List ℕ} (result : A → O × Buffer)
      → Returns P r
      → ((a : A) → P a → ((result a).0 ≡ out) × Holds q (result a).1)
      → Refines (ok (out, q)) (r >>= λ a. ok (result a))
  Refines-map {A} {P} {r} {out} {q} result r_returns follow =
      let (a, e, held) = Returns-inv r_returns in
      let (same, holds) = follow a held in rw (e, ← same) (both_return holds)

-- A list that begins with `n` bytes, cut there.
cut_front :
    (q s rest : List ℕ) (n : ℕ) → length s ≡ n → q ≡ s ++ rest → (take n q ≡ s) × (drop n q ≡ rest)
cut_front q s rest n e h = rw (h, ← e) ((take-length_append s rest, drop-length_append s rest))

read_bytes-Refines :
    {b : Buffer} (n : ℕ)
    → IsValid b
    → Refines (call_queue (reads n) (contents b)) (call_buffer (reads n) b)
unfolding call_queue call_buffer
read_bytes-Refines {b} n v =
    Refines-if n (length (contents b))
      (λ h.
        Refines-map (λ (s, b'). (bytes s, b')) (read_bytes_takes n v h)
          λ (s, b') (v', size, same).
            let (front, back) = cut_front (contents b) s (contents b') n size same in
            (ap bytes (sym front), (v', sym back)))
      λ h. rw (short_buffer_faults n v h).0 refl

release-Refines :
    {b : Buffer} (n : ℕ)
    → IsValid b
    → Refines (call_queue (releases n) (contents b)) (call_buffer (releases n) b)
unfolding call_queue call_buffer
release-Refines {b} n v =
    Refines-if n (length (contents b))
      (λ h.
        Refines-map (λ b'. (nothing, b')) (release_lem n v (omega (arith, length-contents v)))
          λ b' (v', same).
            let dropped = read b.buffer b.read_index n in
            let (front, back) =
              cut_front (contents b) dropped (contents b') n (length-read b.buffer b.read_index n)
                same in
            (refl, (v', sym back)))
      λ h. rw (short_buffer_faults n v h).1 refl

un_write-Refines :
    {b : Buffer} (n : ℕ)
    → IsValid b
    → Refines (call_queue (un_writes n) (contents b)) (call_buffer (un_writes n) b)
unfolding call_queue call_buffer
un_write-Refines {b} n v =
    Refines-if n (length (contents b))
      (λ h.
        Refines-map (λ b'. (nothing, b')) (un_write_lem n v h)
          λ b' (v', size, (rest, same)).
            let (front, back) =
              cut_front (contents b) (contents b') rest (length (contents b) - n) (omega arith)
                same in
            (refl, (v', sym front)))
      λ h. rw (short_buffer_faults n v h).2 refl

call-Refines :
    (c : Call) {b : Buffer}
    → IsValid b
    → prepend_size + length (contents b) + demand c ≤ max_size
    → Refines (call_queue c (contents b)) (call_buffer c b)
unfolding call_queue call_buffer read_fd
call-Refines (writes new) v h =
    Refines-map (λ b'. (nothing, b')) (write_appends new v h) λ b' held. (refl, held)
call-Refines (reads n) v h = read_bytes-Refines n v
call-Refines (releases n) v h = release-Refines n v
call-Refines (un_writes n) v h = un_write-Refines n v
call-Refines (shrinks n) v h =
    Refines-map (λ b'. (nothing, b')) (shrink_lem n v h) λ b' (held, room). (refl, held)
call-Refines (reads_fd none) v h = both_return (v, refl)
call-Refines (reads_fd (some new)) v h =
    Refines-map (λ (n, b'). (count n, b')) (read_fd_appends new v h)
      λ (n, b') (all, held). (ap count all, held)

-- A call makes the queue longer by at most what it asks for.
call_queue-demand :
    (c : Call) (q : List ℕ)
    → {out : Output} {q' : List ℕ} → call_queue c q ≡ ok (out, q')
    → length q' ≤ length q + demand c
unfolding call_queue
call_queue-demand (writes new) q h = grind (arith, length-append q new)
call_queue-demand (reads n) q h = grind (arith, length-drop n q)
call_queue-demand (releases n) q h = grind (arith, length-drop n q)
call_queue-demand (un_writes n) q h = grind (arith, length-take-min (length q - n) q)
call_queue-demand (shrinks n) q h = grind arith
call_queue-demand (reads_fd none) q h = grind arith
call_queue-demand (reads_fd (some new)) q h = grind (arith, length-append q new)

-- The rest of a sequence.
Refines-bind :
    {O O' : Type 0} {q_run : Run (O × List ℕ)} {b_run : Run (O × Buffer)}
    (q_next : O × List ℕ → Run (O' × List ℕ)) (b_next : O × Buffer → Run (O' × Buffer))
    → Refines q_run b_run
    → ((out : O) (q : List ℕ) (b : Buffer)
        → q_run ≡ ok (out, q)
        → Holds q b
        → Refines (q_next (out, q)) (b_next (out, b)))
    → Refines (q_run >>= q_next) (b_run >>= b_next)
Refines-bind q_next b_next (both_return held) follow = follow _ _ _ refl held
Refines-bind q_next b_next (both_fault e) follow = both_fault e

-- Whatever sequence of `Write`, `Read`, `Release`, `UnWrite`, `Shrink` and `ReadFd` is called on a
-- valid buffer, it gives what the queue of the buffer's bytes gives for the same calls and holds
-- the queue's bytes in the end, or it fails the same assertion, as long as all bytes ever asked
-- for fit into one vector.
pub call_all-Refines :
    (calls : List Call) {b : Buffer}
    → IsValid b
    → prepend_size + length (contents b) + demands calls ≤ max_size
    → Refines (call_all call_queue calls (contents b)) (call_all call_buffer calls b)
unfolding call_all
call_all-Refines [] v h = both_return (v, refl)
call_all-Refines (c ∷ calls) {b} v h =
    Refines-bind _ _ (call-Refines c v (omega arith)) λ out q b' returned (v', held).
      let grown = call_queue-demand c (contents b) returned in
      let rest = call_all-Refines calls v' (omega (arith, ap length held)) in
      Refines-bind _ _
        (subst (λ p. Refines (call_all call_queue calls p) (call_all call_buffer calls b')) held
          rest)
        λ outs q' b'' e held'. both_return held'
