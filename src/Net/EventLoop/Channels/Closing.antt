-- ===== src/Net/EventLoop/Channels/Closing.antt =====
-- Why the destructor of windz/net/EventLoop.cpp comes to an end.
use windz.Prelude.{
  ℕ, zero, suc, ◌≡◌, ◌≤◌, refl, sym, ◌∙◌, ap, ap₂, true, false, Bool-cases, inl, inr, List, [], ◌∷◌,
  length, ◌==◌, if◌then◌else◌, Returns, returns, Returns-bind, Returns-map, arith,
}
use windz.Net.Channel.{Channel, disable_read_write, close}
use windz.Net.EventLoop.Channels.{
  ChannelSet, member, without, has_channel, update_channel, remove_channel, poll_remove, put_object,
  disable_channel, close_channel, close_loop, destruct,
}

length-without : (i : ℕ) (js : List ℕ) → length (without i js) ≤ length js
unfolding without
length-without i [] = omega arith
length-without i (j ∷ js) = ground (arith, length-without i js)

member-without :
    (i k : ℕ) (js : List ℕ) → member k (without i js) ≡ (if k == i then false else member k js)
unfolding member without
member-without i k [] = ground arith
member-without i k (j ∷ js) = ground (arith, member-without i k js)

-- A channel that has let go of its loop.
abbrev off : Channel → Channel
off ch = record ch { reading = false; writing = false; registered = false; handled = false }

-- One round closes the first channel and touches no other.
round :
    (i : ℕ) (rest : List ℕ) (s : ChannelSet)
    → s.channels ≡ i ∷ rest
    → Returns
        (λ s'.
          (s'.channels ≡ without i s.channels)
          × (s'.polled ≡ without i s.polled)
          × ((k : ℕ) → s'.object k ≡ (if k == i then off (s.object i) else s.object k)))
        (close_channel i (disable_channel i s))
unfolding close_channel disable_channel update_channel has_channel put_object remove_channel
    poll_remove member close disable_read_write
round i rest s first =
    let same : (i == i) ≡ true = ground arith in
    let held : member i s.channels ≡ true = rw first (ground arith) in
    rw (close_channel, disable_channel, update_channel, has_channel, held, same)
      (returns
        (refl, refl, λ k. elim (Bool-cases (k == i)) [ inl e ↦ rw e refl | inr e ↦ rw e refl ]))

-- The state of each channel once those in `js` have been closed.
abbrev pub Closed : List ℕ → ChannelSet → ChannelSet → Type 0
Closed js s s' = (k : ℕ) → s'.object k ≡ (if member k js then off (s.object k) else s.object k)

first_gone : (j : ℕ) (js : List ℕ) → without j (j ∷ js) ≡ without j js
unfolding without
first_gone j js = (let same : (j == j) ≡ true = ground arith in rw same refl)

Closed-first :
    (j : ℕ) (js : List ℕ) (s s1 s' : ChannelSet)
    → ((k : ℕ) → s1.object k ≡ (if k == j then off (s.object j) else s.object k))
    → Closed (without j js) s1 s'
    → Closed (j ∷ js) s s'
unfolding member
Closed-first j js s s1 s' first rest k = elim (Bool-cases (k == j)) [
  | inl e ↦
      let here : k ≡ j = ground arith in
      let out : member k (without j js) ≡ false = member-without j k js ∙ rw e refl in
      rw e (rw out at (rest k) ∙ rw e at (first k) ∙ ap (λ i. off (s.object i)) (sym here))
  | inr e ↦
      let kept : member k (without j js) ≡ member k js = member-without j k js ∙ rw e refl in
      let object : s1.object k ≡ s.object k = rw e at (first k) in
      rw e (rest k ∙ ap₂ (λ b ch. if b then off ch else ch) kept object)
]

close_loop-Closed :
    (fuel : ℕ) (js : List ℕ) (s : ChannelSet)
    → s.channels ≡ js
    → length js ≤ fuel
    → s.polled ≡ s.channels
    → Returns (λ s'. (s'.channels ≡ []) × (s'.polled ≡ []) × Closed js s s') (close_loop fuel s)
unfolding close_loop member
close_loop-Closed zero [] s e p same = rw (e, close_loop) (returns (e, same ∙ e, λ k. refl))
close_loop-Closed (suc fuel) [] s e p same = rw (e, close_loop) (returns (e, same ∙ e, λ k. refl))
close_loop-Closed zero (j ∷ js) s e p same = absurd (omega arith)
close_loop-Closed (suc fuel) (j ∷ js) s e p same =
    rw (e, close_loop)
      (Returns-bind (round j js s e) λ s1 (channels, polled, object).
        let shorter = channels ∙ ap (without j) e ∙ first_gone j js in
        Returns-map
          (close_loop-Closed fuel (without j js) s1 shorter (omega (arith, length-without j js))
            (polled ∙ ap (without j) same ∙ sym channels))
          λ s' (c', p', o'). (c', p', Closed-first j js s s1 s' object o'))

-- The destructor of a loop that is not looping returns, as many rounds as it has channels being
-- enough; no channel is held or watched any more, those that were are closed, and no other channel
-- is touched, if epoll watched just the channels of the set.
pub destruct-ends :
    (s : ChannelSet)
    → s.polled ≡ s.channels
    → Returns
        (λ s'. (s'.channels ≡ []) × (s'.polled ≡ []) × Closed s.channels s s')
        (destruct false s)
unfolding destruct
destruct-ends s same = close_loop-Closed (length s.channels) s.channels s refl (omega arith) same
