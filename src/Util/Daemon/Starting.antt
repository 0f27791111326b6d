-- ===== src/Util/Daemon/Starting.antt =====
-- windz/util/Daemon.cpp: `Start` and `Restart`.
use windz.Prelude.{
  ℕ, suc, ◌+◌, ◌≤◌, ◌<◌, ◌≡◌, ◌≢◌, ◌⊎◌, inl, inr, sym, ap, ◌∙◌, subst, Bool-cases, true, false,
  List, [], ◌∷◌, length, length-append, leb, some, arith, take,
}
use windz.Prelude.Int.{ℤ, pos, ltb_ℤ}
use windz.Util.Daemon.{
  Machine, KillAnswer, delivered, no_process, probe, Answers, in_child, returned, Stale,
  get_pid_from_file, with_signal, answer, stop, stop_rounds, write_pid_file, finish, fork_twice,
  become_daemon, start, start_if_stopped, restart,
}
use windz.Util.Daemon.Stopping.{KillAnswer-cases, after, Lives, stop-gone}

module _ (snprintf_d : ℕ → List ℕ) (a : Answers) where
  -- What holds when the second child of `Start` goes on as the daemon.
  pub record IsDaemon (m m' : Machine) : Type 0 where
    written_whole : leb (length (snprintf_d a.own_pid)) a.writable ≡ true
    pid_kept : m'.pid_file ≡ some (take a.writable (snprintf_d a.own_pid))
    stdio : m'.null_stdio ≡ true
    removed_at_exit : m'.unlink_at_exit ≡ true
    own_session : m'.session ≡ true
    closed : m'.descriptors ≡ m.descriptors
    same_signals : m'.signals ≡ m.signals
    second_child : (a.first_fork ≡ in_child) × (a.second_fork ≡ in_child)

  become_daemon-IsDaemon :
      (m m' : Machine) → become_daemon snprintf_d a m ≡ (returned true, m') → IsDaemon m m'
  unfolding become_daemon fork_twice finish write_pid_file
  become_daemon-IsDaemon m m' h = ground arith

  become_daemon-fork_twice :
      (m : Machine) → a.parent_pid ≢ 1 → become_daemon snprintf_d a m ≡ fork_twice snprintf_d a m
  unfolding become_daemon
  become_daemon-fork_twice m h = ground arith

module _ (kill : ℕ → ℤ → KillAnswer) (snprintf_d : ℕ → List ℕ) (a : Answers) where
  -- `Start` returns true only in the second child, and only if the pid file gave no pid or the
  -- process that it gave is not there; the pid file then holds the pid of the child, whole.
  pub start-IsDaemon :
      (stale : List ℕ) (m m' : Machine)
      → start kill snprintf_d a stale m ≡ (returned true, m')
      → ((ltb_ℤ (pos 0) (get_pid_from_file stale m) ≡ false) × IsDaemon snprintf_d a m m')
        ⊎ ((answer kill (get_pid_from_file stale m) m ≡ no_process)
            × IsDaemon snprintf_d a (with_signal (get_pid_from_file stale m) probe m) m')
  unfolding start
  start-IsDaemon stale m m' h =
      let pid = get_pid_from_file stale m in
      elim (Bool-cases (ltb_ℤ (pos 0) pid)) [
        | inr no_pid ↦ inl (no_pid, become_daemon-IsDaemon snprintf_d a m m' (rw no_pid at h))
        | inl some_pid ↦ elim (KillAnswer-cases (answer kill pid m)) [
          | inl e ↦ ground (arith, h, some_pid, e)
          | inr (inl e) ↦ ground (arith, h, some_pid, e)
          | inr (inr e) ↦ inr (
            e,
            become_daemon-IsDaemon snprintf_d a (with_signal pid probe m) m'
                (rw (some_pid, e) at h),
          )
        ]
      ]

  -- `Restart` of a process that lives through the question whether it is there, and through `k` of
  -- the signals of `Stop`, and then is gone, by a process whose parent is not the process 1: `Start`
  -- follows, which finds no pid file any more and goes on to fork.
  pub restart-fork_twice :
      (stale : Stale) (m : Machine) (k : ℕ)
      → ltb_ℤ (pos 0) (get_pid_from_file stale.at_restart m) ≡ true
      → get_pid_from_file stale.at_stop m ≡ get_pid_from_file stale.at_restart m
      → 0 < k
      → k ≤ stop_rounds
      → Lives kill (length m.signals) (suc k) (get_pid_from_file stale.at_restart m)
      → kill (length m.signals + suc k) (get_pid_from_file stale.at_restart m) ≢ delivered
      → a.parent_pid ≢ 1
      → restart kill snprintf_d a stale m
        ≡ fork_twice snprintf_d a (
            after
              (suc k)
              true
              (get_pid_from_file stale.at_restart m)
              (with_signal (get_pid_from_file stale.at_restart m) probe m))
  unfolding restart start start_if_stopped get_pid_from_file
  restart-fork_twice stale m k p q h s l g other =
      let pid = get_pid_from_file stale.at_restart m in
      let m1 = with_signal pid probe m in
      let same : get_pid_from_file stale.at_stop m1 ≡ pid = q in
      let one : length m1.signals ≡ length m.signals + 1 =
        length-append m.signals ((pid, probe) ∷ []) in
      let stopped : stop kill stale.at_stop m1 ≡ (returned true, after (suc k) true pid m1) =
        subst (λ x. stop kill stale.at_stop m1 ≡ (returned true, after (suc k) true x m1)) same
          (stop-gone kill stale.at_stop m1 k (subst (λ x. ltb_ℤ (pos 0) x ≡ true) (sym same) p) h s
            (subst (λ x. Lives kill (length m1.signals) k x) (sym same)
              (subst (λ n. Lives kill n k pid) (sym one) l.1))
            (λ e. g (
              ap (λ n. kill n pid) (omega (arith, one))
              ∙ ap (kill (length m1.signals + k)) (sym same)
              ∙ e))) in
      rw (p, l.0)
        (ap (start_if_stopped kill snprintf_d a stale.at_start) stopped
          ∙ become_daemon-fork_twice snprintf_d a _ other)
