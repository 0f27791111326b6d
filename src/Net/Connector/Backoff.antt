-- ===== src/Net/Connector/Backoff.antt =====
-- The delays between the attempts of windz/net/Connector.cpp.
use windz.Prelude.{
  ℕ, zero, suc, ◌+◌, ◌*◌, ◌^◌, ◌≡◌, refl, sym, ap, ap₂, ◌∙◌, min, true, List, [], ◌∷◌, ◌++◌,
  append-nil, append_assoc, Run, ok, ◌>>=◌, Returns, returns, Returns-bind, arith,
}
use windz.Net.Connector.{
  Connector, disconnected, retryable, capped, init_retry_duration, max_retry_duration,
  start_in_loop, connect, retry,
}

-- The delay before attempt `n + 2`, as it is meant: doubled each time, 30 seconds at most.
abbrev pub backoff : ℕ → ℕ
backoff n = min (init_retry_duration * 2 ^ n) max_retry_duration

abbrev pub backoffs : ℕ → List ℕ
backoffs zero = []
backoffs (suc n) = backoffs n ++ backoff n ∷ []

capped-backoff : (n : ℕ) → capped (backoff n * 2) ≡ backoff (suc n)
capped-backoff n = ground arith

-- `n` attempts that fail in a way that is worth another.
pub attempts : ℕ → Connector → Run Connector
attempts zero c = ok c
attempts (suc n) c = attempts n c >>= start_in_loop retryable

-- Started, not connected, and to wait the `n`-th delay next; the delays before it were asked for.
pub record IsPaced (delays : List ℕ) (closed n : ℕ) (c : Connector) : Type 0 where
  pub started : c.start ≡ true
  pub unconnected : c.state ≡ disconnected
  pub next : c.retry_duration ≡ backoff n
  pub asked : c.delays ≡ delays ++ backoffs n
  pub released : c.closed ≡ closed + n

attempt-IsPaced :
    (ds : List ℕ) (k n : ℕ) (c : Connector)
    → IsPaced ds k n c
    → Returns (IsPaced ds k (suc n)) (start_in_loop retryable c)
unfolding start_in_loop connect retry
attempt-IsPaced ds k n c v =
    rw (v.unconnected, v.started)
      (returns (record {
        started = refl;
        unconnected = refl;
        next = ap (λ d. capped (d * 2)) v.next ∙ capped-backoff n;
        asked =
            ap₂ (λ xs d. xs ++ d ∷ []) v.asked v.next
            ∙ append_assoc ds (backoffs n) (backoff n ∷ []);
        released = omega (arith, v.released);
      }))

-- While every attempt fails in a way that is worth another, the delays of a connector with the
-- initial delay are 0.1, 0.2, 0.4 seconds and so on, never above 30, and the socket of every
-- attempt is closed.
pub attempts-IsPaced :
    (n : ℕ) (c : Connector)
    → c.start ≡ true
    → c.state ≡ disconnected
    → c.retry_duration ≡ init_retry_duration
    → Returns (IsPaced c.delays c.closed n) (attempts n c)
unfolding attempts
attempts-IsPaced zero c s u r = returns (record {
  started = s;
  unconnected = u;
  next = r;
  asked = sym (append-nil c.delays);
  released = omega arith;
})
attempts-IsPaced (suc n) c s u r =
    Returns-bind (attempts-IsPaced n c s u r) λ d v. attempt-IsPaced c.delays c.closed n d v
