-- ===== src/Net/EventLoopThreadPool.antt =====
-- windz/net/EventLoopThreadPool.{h,cpp}: the loops of some threads, handed out in turn. A loop is a
-- number; `make i` is the one that the `i`-th new thread starts.
pub mod Turns
mod Tests
use windz.Prelude.{
  ℕ, zero, suc, ◌+◌, ◌≤◌, ◌<◌, ◌≡◌, Bool, true, false, not, List, [], ◌∷◌, ◌++◌, length, get_elem?,
  ltb, leb, ◌==◌, if◌then◌else◌, Option, none, some, Run, ok, fault, out_of_bounds, ◌>>=◌, ◌>>◌,
  assert,
}

pub record EventLoopThreadPool : Type 0 where
  pub started : Bool
  pub next : ℕ
  pub loops : List ℕ

pub new_pool : EventLoopThreadPool
new_pool = record { started = false; next = 0; loops = [] }

start_threads : (ℕ → ℕ) → ℕ → ℕ → List ℕ
start_threads make zero i = []
start_threads make (suc n) i = make i ∷ start_threads make n (i + 1)

-- `Start`, in the thread that made the pool.
pub start : (ℕ → ℕ) → ℕ → EventLoopThreadPool → Run EventLoopThreadPool
unfolding start_threads
start make thread_num p = do
  assert (not p.started)
  ok (record p { started = true; loops = p.loops ++ start_threads make thread_num 0 })

advance : EventLoopThreadPool → EventLoopThreadPool
advance p = record p { next = if leb (length p.loops) (p.next + 1) then 0 else p.next + 1 }

-- `Next`: no loop, a null pointer, if there are none.
pub next_loop : EventLoopThreadPool → Run (Option ℕ × EventLoopThreadPool)
unfolding advance
next_loop p =
    let pick : Run (Option ℕ × EventLoopThreadPool) = elim (get_elem? p.loops p.next) [
      | none ↦ fault out_of_bounds
      | some l ↦ ok (some l, advance p)
    ] in
    assert p.started >> (if length p.loops == 0 then ok (none, p) else pick)
