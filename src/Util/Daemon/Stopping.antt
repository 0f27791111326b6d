-- ===== src/Util/Daemon/Stopping.antt =====
-- windz/util/Daemon.cpp: `Stop`.
use windz.Prelude.{
  subst, ℕ, zero, suc, ◌+◌, ◌≤◌, ◌<◌, ◌≡◌, ◌≢◌, ◌⊎◌, inl, inr, refl, sym, ap, ◌∙◌, Bool, true,
  false, List, [], ◌∷◌, ◌++◌, append_assoc, length, length-append, replicate, if◌then◌else◌, none,
  arith,
}
use windz.Prelude.Int.{ℤ, pos, ltb_ℤ}
use windz.Util.Daemon.{
  Machine, KillAnswer, delivered, not_permitted, no_process, sigquit, Ended, returned,
  get_pid_from_file, with_signal, answer, stop_loop, stop_rounds, stop,
}

pub KillAnswer-cases : (x : KillAnswer) → (x ≡ delivered) ⊎ ((x ≡ not_permitted) ⊎ (x ≡ no_process))
KillAnswer-cases delivered = inl refl
KillAnswer-cases not_permitted = inr (inl refl)
KillAnswer-cases no_process = inr (inr refl)

-- `m` after `n` signals to a process, and after the removal of the pid file if it is gone.
abbrev pub after : ℕ → Bool → ℤ → Machine → Machine
after n gone pid m = record m {
  signals = m.signals ++ replicate n (pid, sigquit);
  pid_file = if gone then none else m.pid_file;
}

after-sent :
    (n : ℕ) (gone : Bool) (pid : ℤ) (m : Machine)
    → after n gone pid (with_signal pid sigquit m) ≡ after (suc n) gone pid m
after-sent n gone pid m =
    ap (λ xs. record m { signals = xs; pid_file = if gone then none else m.pid_file })
      (append_assoc m.signals ((pid, sigquit) ∷ []) (replicate n (pid, sigquit)))

module _ (kill : ℕ → ℤ → KillAnswer) where
  -- The answers to `k` signals, the first of them the `n`-th of all.
  abbrev pub Lives : ℕ → ℕ → ℤ → Type 0
  Lives n zero pid = Unit
  Lives n (suc k) pid = (kill n pid ≡ delivered) × Lives (n + 1) k pid

  delivered-step :
      (rounds : ℕ) (pid : ℤ) (m : Machine)
      → answer kill pid m ≡ delivered
      → stop_loop kill (suc rounds) pid m ≡ stop_loop kill rounds pid (with_signal pid sigquit m)
  unfolding stop_loop
  delivered-step rounds pid m e = rw (stop_loop, e) refl

  gone-step :
      (rounds : ℕ) (pid : ℤ) (m : Machine)
      → answer kill pid m ≢ delivered
      → stop_loop kill (suc rounds) pid m ≡ (returned true, after 1 true pid m)
  unfolding stop_loop
  gone-step rounds pid m g = elim (KillAnswer-cases (answer kill pid m)) [
    | inl e ↦ absurd (g e)
    | inr (inl e) ↦ rw (stop_loop, e) refl
    | inr (inr e) ↦ rw (stop_loop, e) refl
  ]

  length-with_signal :
      (pid : ℤ) (m : Machine) → length (with_signal pid sigquit m).signals ≡ length m.signals + 1
  length-with_signal pid m = length-append m.signals ((pid, sigquit) ∷ [])

  stop_loop-gone :
      (rounds k : ℕ) (pid : ℤ) (m : Machine)
      → k < rounds
      → Lives (length m.signals) k pid
      → kill (length m.signals + k) pid ≢ delivered
      → stop_loop kill rounds pid m ≡ (returned true, after (suc k) true pid m)
  stop_loop-gone zero k pid m h l g = absurd (omega (arith, h))
  stop_loop-gone (suc rounds) zero pid m h l g =
      gone-step rounds pid m λ e. g (ap (λ n. kill n pid) (omega arith) ∙ e)
  stop_loop-gone (suc rounds) (suc k) pid m h l g =
      delivered-step rounds pid m l.0
      ∙ stop_loop-gone rounds k pid (with_signal pid sigquit m) (omega (arith, h))
          (subst (λ n. Lives n k pid) (sym (length-with_signal pid m)) l.1)
          (λ e. g (ap (λ n. kill n pid) (omega (arith, length-with_signal pid m)) ∙ e))
      ∙ ap (λ m'. (returned true, m')) (after-sent (suc k) true pid m)

  -- The result of a call that signals a process at most `n` times.
  pub record Ends (n : ℕ) (pid : ℤ) (m : Machine) (call : Ended × Machine) : Type 0 where
    gone : Bool
    count : ℕ
    few : count ≤ n
    same : call ≡ (returned gone, after count gone pid m)

  -- Nothing is sent and the file stays, if it gives no pid; or the process of the pid is signaled.
  pub Stops : ℤ → Machine → Ended × Machine → Type 0
  Stops pid m call =
      ((ltb_ℤ (pos 0) pid ≡ false) × (call ≡ (returned false, m)))
      ⊎ ((ltb_ℤ (pos 0) pid ≡ true) × Ends (suc stop_rounds) pid m call)

  -- A process of the pid file that lives through the first signal and is gone after `k` of at most
  -- 500 is stopped: `Stop` returns true and the pid file is removed, and one signal more was sent.
  pub stop-gone :
      (stale : List ℕ) (m : Machine) (k : ℕ)
      → ltb_ℤ (pos 0) (get_pid_from_file stale m) ≡ true
      → 0 < k
      → k ≤ stop_rounds
      → Lives (length m.signals) k (get_pid_from_file stale m)
      → kill (length m.signals + k) (get_pid_from_file stale m) ≢ delivered
      → stop kill stale m ≡ (returned true, after (suc k) true (get_pid_from_file stale m) m)
  unfolding stop
  stop-gone stale m zero p h s l g = absurd (omega (arith, h))
  stop-gone stale m (suc k) p h s l g =
      let pid = get_pid_from_file stale m in
      rw (p, l.0)
        (stop_loop-gone stop_rounds k pid (with_signal pid sigquit m) (omega (arith, s))
            (subst (λ n. Lives n k pid) (sym (length-with_signal pid m)) l.1)
            (λ e. g (ap (λ n. kill n pid) (omega (arith, length-with_signal pid m)) ∙ e))
          ∙ ap (λ m'. (returned true, m')) (after-sent (suc k) true pid m))
