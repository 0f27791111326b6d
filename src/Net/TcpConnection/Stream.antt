-- ===== src/Net/TcpConnection/Stream.antt =====
-- The bytes of a connection (windz/net/TcpConnection.cpp): what was sent is what the kernel took
-- followed by what the output buffer still holds.
use windz.Prelude.{
  ℕ, ◌+◌, ◌-◌, ◌≤◌, ◌≡◌, ◌≢◌, refl, sym, subst, ap, ap₂, ◌∙◌, Bool, true, false, not, ◌&&◌, List,
  [], ◌∷◌, ◌++◌, length, take, drop, ltb, ◌==◌, if◌then◌else◌, append-nil, append_assoc,
  take-append-drop, length-drop, Bool-cases, inl, inr, arith, ok, Run, Returns, returns, Returns-if,
  Returns-bind, Returns-map, Returns-require,
}
use windz.Net.Channel.{disable_write}
use windz.Net.Buffer.{Buffer, sub_size, max_size, prepend_size, readable_bytes}
use windz.Net.Buffer.Copy.{read}
use windz.Net.Buffer.Valid as V
use windz.Net.Buffer.Valid.{contents}
use windz.Net.Buffer.Contents.{length-contents, write_appends, release_lem}
use windz.Net.TcpConnection.{
  Connection, all_written, is_disconnecting, tell_low, shutdown_in_loop, Written, wrote,
  would_block, broken, other_error, State, disconnected, is_disconnected, written_fits, is_idle,
  finish_send, raise_high, append_rest, direct_write, keep_rest, send_in_loop, handle_write, drain,
  handle_close,
}

-- The bytes that went out and those that wait, in order.
abbrev pub stream : Connection → List ℕ
stream c = c.sent ++ contents c.output

-- What `SendInLoop` takes of a message: all of it, or nothing if the write finds the connection
-- broken.
abbrev pub accepted : Written → List ℕ → List ℕ
accepted broken bytes = []
accepted _ bytes = bytes

no_contents : {b : Buffer} → V.IsValid b → readable_bytes b ≡ 0 → contents b ≡ []
unfolding read
no_contents {b} v h =
    ap (read b.buffer b.read_index) (let e : b.write_index - b.read_index ≡ 0 = omega arith in e)

-- The parts of a connection that its bytes stand in.
record SameBytes (c c' : Connection) : Type 0 where
  output : c'.output ≡ c.output
  sent : c'.sent ≡ c.sent
  state : c'.state ≡ c.state

raise_high-SameBytes : (rest : List ℕ) (c : Connection) → SameBytes c (raise_high rest c)
unfolding raise_high
raise_high-SameBytes rest c = ground arith

-- A connection in good order, in the state `s`, with the bytes `gone` sent and `waiting` held.
record Carries (s : State) (gone waiting : List ℕ) (c : Connection) : Type 0 where
  valid : V.IsValid c.output
  state : c.state ≡ s
  sent : c.sent ≡ gone
  held : contents c.output ≡ waiting

append_rest_lem :
    (rest : List ℕ) (c : Connection)
    → V.IsValid c.output
    → prepend_size + length (contents c.output) + length rest ≤ max_size
    → Returns (Carries c.state c.sent (contents c.output ++ rest)) (append_rest rest c)
unfolding append_rest
append_rest_lem rest c v h =
    Returns-bind (write_appends rest v h)
      λ b (v', e). returns (record { valid = v'; state = refl; sent = refl; held = e })

keep_rest_lem :
    (rest : List ℕ) (c : Connection)
    → V.IsValid c.output
    → prepend_size + length (contents c.output) + length rest ≤ max_size
    → Returns (Carries c.state c.sent (contents c.output ++ rest)) (keep_rest rest c)
unfolding keep_rest
keep_rest_lem rest c v h =
    let same = raise_high-SameBytes rest c in
    let held = ap contents same.output in
    Returns-map
      (append_rest_lem rest (raise_high rest c) (subst V.IsValid (sym same.output) v) (rw held h))
      λ c' x. record {
        valid = x.valid;
        state = x.state ∙ same.state;
        sent = x.sent ∙ same.sent;
        held = x.held ∙ ap (λ xs. xs ++ rest) held;
      }

tell_low-SameBytes : (remain : ℕ) (c : Connection) → SameBytes c (tell_low remain c)
unfolding tell_low
tell_low-SameBytes remain c = ground arith

-- The write to the socket splits the message.
record Split (kept : List ℕ) (n : ℕ) (c : Connection) (r : List ℕ × Bool × Connection)
    : Type 0 where
  output : r.2.output ≡ c.output
  state : r.2.state ≡ c.state
  shorter : length r.0 ≤ n
  whole : r.2.sent ++ (if r.1 then [] else r.0) ≡ c.sent ++ kept

direct_write-Split :
    (w : Written) (bytes : List ℕ) (c : Connection)
    → Split (accepted w bytes) (length bytes) c (direct_write w bytes c)
unfolding direct_write
direct_write-Split (wrote n) bytes c =
    let same =
      tell_low-SameBytes (sub_size (length bytes) n) (record c { sent = c.sent ++ take n bytes }) in
    record {
      output = same.output;
      state = same.state;
      shorter = omega (arith, length-drop n bytes);
      whole =
          ap (λ xs. xs ++ drop n bytes) same.sent
          ∙ append_assoc c.sent (take n bytes) (drop n bytes)
          ∙ ap (◌++◌ c.sent) (take-append-drop n bytes);
    }
direct_write-Split would_block bytes c = record {
  output = refl;
  state = refl;
  shorter = omega arith;
  whole = refl;
}
direct_write-Split broken bytes c = record {
  output = refl;
  state = refl;
  shorter = omega arith;
  whole = refl;
}
direct_write-Split other_error bytes c = record {
  output = refl;
  state = refl;
  shorter = omega arith;
  whole = refl;
}

length-zero : (xs : List ℕ) → length xs ≤ 0 → xs ≡ []
length-zero [] h = refl
length-zero (x ∷ xs) h = absurd (omega arith)

nothing_left :
    (err : Bool) (rest : List ℕ)
    → (not err && ltb 0 (length rest)) ≡ false
    → (if err then [] else rest) ≡ []
nothing_left true rest h = refl
nothing_left false [] h = refl
nothing_left false (x ∷ rest) h = ground arith

-- What `SendInLoop` comes to: the kept bytes follow the stream.
abbrev pub Sent : List ℕ → Connection → Connection → Type 0
Sent kept c c' = V.IsValid c'.output × (c'.state ≡ c.state) × (stream c' ≡ stream c ++ kept)

-- With an empty output buffer, after the write to the socket.
finish_idle :
    (kept rest : List ℕ) (err : Bool) (n : ℕ) (c d : Connection)
    → V.IsValid c.output
    → contents c.output ≡ []
    → Split kept n c (rest, err, d)
    → prepend_size + n ≤ max_size
    → Returns (Sent kept c) (finish_send (rest, err, d))
unfolding finish_send
finish_idle kept rest err n c d v none s small =
    let valid = subst V.IsValid (sym s.output) v in
    let empty : contents d.output ≡ [] = ap contents s.output ∙ none in
    let goal : c.sent ++ kept ≡ stream c ++ kept =
      ap (λ xs. xs ++ kept) (sym (append-nil c.sent) ∙ ap (◌++◌ c.sent) (sym none)) in
    Returns-if (not err && ltb 0 (length rest))
      (λ t.
        let fine : err ≡ false = ground arith in
        Returns-map (keep_rest_lem rest d valid (rw empty (omega (arith, s.shorter)))) λ c' x. (
          x.valid,
          x.state ∙ s.state,
          ap₂ ◌++◌ x.sent (x.held ∙ ap (λ xs. xs ++ rest) empty) ∙ (rw fine at s.whole) ∙ goal,
        ))
      λ t.
        let left = nothing_left err rest t in
        returns (valid, s.state, ap (◌++◌ d.sent) (empty ∙ sym left) ∙ s.whole ∙ goal)

-- With bytes still waiting, no write is tried.
finish_busy :
    (bytes : List ℕ) (c : Connection)
    → V.IsValid c.output
    → prepend_size + length (contents c.output) + length bytes ≤ max_size
    → Returns (Sent bytes c) (finish_send (bytes, false, c))
unfolding finish_send
finish_busy bytes c v small =
    Returns-if (ltb 0 (length bytes))
      (λ t. Returns-map (keep_rest_lem bytes c v small) λ c' x. (
        x.valid,
        x.state,
        ap₂ ◌++◌ x.sent x.held ∙ sym (append_assoc c.sent (contents c.output) bytes),
      ))
      λ t.
        let none : bytes ≡ [] = nothing_left false bytes t in
        returns (v, refl, sym (ap (◌++◌ (stream c)) none ∙ append-nil (stream c)))

-- `SendInLoop` on a connection that is not disconnected loses, doubles and reorders no byte: the
-- message follows what was sent before, unless the write finds the connection broken, when none of
-- it is kept.
pub send_in_loop_appends :
    (w : Written) (bytes : List ℕ) (c : Connection)
    → V.IsValid c.output
    → c.state ≢ disconnected
    → written_fits w (length bytes) ≡ true
    → prepend_size + length (contents c.output) + length bytes ≤ max_size
    → Returns (Sent (if is_idle c then accepted w bytes else bytes) c) (send_in_loop w bytes c)
unfolding send_in_loop
send_in_loop_appends w bytes c v alive fits small =
    Returns-if (is_disconnected c.state) (λ d. absurd (alive (ground arith)))
      λ _. elim (Bool-cases (is_idle c)) [
        | inl e ↦ rw e (
            Returns-require (written_fits w (length bytes)) _ fits (
              finish_idle _ _ _ (length bytes) c _ v (no_contents v (ground arith))
                (direct_write-Split w bytes c) (omega arith)))
        | inr e ↦ rw e (finish_busy bytes c v small)
      ]

-- `SendInLoop` on a disconnected connection does nothing.
send_in_loop_disconnected :
    (w : Written) (bytes : List ℕ) (c : Connection)
    → c.state ≡ disconnected
    → send_in_loop w bytes c ≡ ok c
unfolding send_in_loop
send_in_loop_disconnected w bytes c h = ground arith

-- A call that ends well and touches neither the output buffer nor what was sent.
abbrev Quiet : Connection → Run Connection → Type 0
Quiet c r = Returns (λ c'. (c'.output ≡ c.output) × (c'.sent ≡ c.sent)) r

handle_close-Quiet : (c : Connection) → is_disconnected c.state ≡ true → Quiet c (handle_close c)
unfolding handle_close
handle_close-Quiet c h = Returns-require _ _ (ground arith) (returns (ground arith))

all_written-Quiet : (c : Connection) → Quiet c (all_written c)
unfolding all_written
all_written-Quiet c =
    let off = record c { channel = disable_write c.channel } in
    let low = tell_low 0 off in
    let same = tell_low-SameBytes 0 off in
    let shut = if is_disconnecting low.state then shutdown_in_loop low else low in
    let kept : (shut.output ≡ c.output) × (shut.sent ≡ c.sent) = ground (arith, same) in
    Returns-if (is_disconnected shut.state)
      (λ d. Returns-map (handle_close-Quiet shut d) λ c' x. (x.0 ∙ kept.0, x.1 ∙ kept.1))
      λ _. returns kept

drain-stream :
    (n : ℕ) (c : Connection)
    → V.IsValid c.output
    → n ≤ length (contents c.output)
    → Returns (λ c'. V.IsValid c'.output × (stream c' ≡ stream c)) (drain n c)
unfolding drain
drain-stream n c v h =
    Returns-bind (release_lem n v (omega (arith, length-contents v))) λ b (v', e).
      let moved =
        append_assoc c.sent (read c.output.buffer c.output.read_index n) (contents b)
        ∙ ap (◌++◌ c.sent) (sym e) in
      Returns-if (readable_bytes b == 0)
        (λ _.
          Returns-map
            (all_written-Quiet (record c {
              output = b;
              sent = c.sent ++ read c.output.buffer c.output.read_index n;
            }))
            λ c' x. (subst V.IsValid (sym x.0) v', ap₂ ◌++◌ x.1 (ap contents x.0) ∙ moved))
        λ _. returns (v', moved)

-- `HandleWrite` moves bytes from the front of the output buffer to the kernel: the stream stays as
-- it was, also when the last byte leads to a shutdown or a close.
pub handle_write-stream :
    (w : Written) (c : Connection)
    → V.IsValid c.output
    → written_fits w (length (contents c.output)) ≡ true
    → Returns (λ c'. V.IsValid c'.output × (stream c' ≡ stream c)) (handle_write w c)
unfolding handle_write written_fits
handle_write-stream (wrote n) c v fits =
    Returns-if c.channel.writing
      (λ _. Returns-if (ltb 0 n) (λ _. drain-stream n c v (ground arith)) λ _. returns (v, refl))
      λ _. returns (v, refl)
handle_write-stream would_block c v fits =
    Returns-if c.channel.writing (λ _. returns (v, refl)) λ _. returns (v, refl)
handle_write-stream broken c v fits =
    Returns-if c.channel.writing (λ _. returns (v, refl)) λ _. returns (v, refl)
handle_write-stream other_error c v fits =
    Returns-if c.channel.writing (λ _. returns (v, refl)) λ _. returns (v, refl)
