-- ===== src/Base/BlockingQueue.antt =====
-- windz/base/BlockingQueue.h: a bounded queue. Its lock makes a call one step: the result is `none`
-- where the call would wait on its condition, and it is then made again later.
pub mod Order
mod Tests
use windz.Prelude.{
  ℕ, ◌≤◌, ◌<◌, ◌≡◌, Bool, true, false, not, ◌&&◌, ◌||◌, List, [], ◌∷◌, ◌++◌, length, ltb, ◌==◌,
  if◌then◌else◌, Option, none, some, Run, ok, ◌>>=◌, ◌>>◌, assert,
}

-- `maxsize` 0 means no limit.
pub record BlockingQueue {ℓ} (A : Type ℓ) : Type ℓ where
  pub queue : List A
  pub maxsize : ℕ
  pub wakeup : Bool

module _ {ℓ} {A : Type ℓ} where
  unfoldable pub new_queue : ℕ → BlockingQueue A
  new_queue maxsize = record { queue = []; maxsize = maxsize; wakeup = false }

  abbrev pub has_room : BlockingQueue A → Bool
  has_room q = q.maxsize == 0 || ltb (length q.queue) q.maxsize

  unfoldable pub push : A → BlockingQueue A → Run (Option (BlockingQueue A))
  push x q =
      let pushed = do assert (has_room q); ok (some (record q { queue = q.queue ++ x ∷ [] }))
      in if not (q.wakeup || has_room q) then ok none else if q.wakeup then ok (some q) else pushed

  -- `T()` is what a woken `Pop` returns.
  unfoldable pub pop : A → BlockingQueue A → Option (A × BlockingQueue A)
  pop default q =
      if q.wakeup
      then some (default, q)
      else elim q.queue [ [] ↦ none | x ∷ xs ↦ some (x, record q { queue = xs }) ]

  abbrev pub size : BlockingQueue A → ℕ
  size q = length q.queue

  abbrev pub is_empty : BlockingQueue A → Bool
  is_empty q = size q == 0

  unfoldable pub wake_up : BlockingQueue A → BlockingQueue A
  wake_up q = record q { wakeup = true }

  unfoldable pub restore : BlockingQueue A → BlockingQueue A
  restore q = record q { wakeup = false }

  unfoldable pub set_maxsize : ℕ → BlockingQueue A → BlockingQueue A
  set_maxsize n q = record q { maxsize = n }
