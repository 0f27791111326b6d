-- ===== src/Net/Timer.antt =====
-- windz/net/Timer.{h,cpp}: timers in a binary min-heap by due time. An entry of the heap is the
-- only owner of its timer (a TimerId holds a weak pointer), so the heap holds the timers
-- themselves, each with the identity of its object.
pub mod Heap
pub mod Expiry
mod Tests
use windz.Prelude.{
  ℕ, zero, suc, ◌+◌, ◌-◌, ◌*◌, ◌/◌, ◌%◌, ◌^◌, ◌≤◌, ◌<◌, ◌≡◌, Bool, true, false, not, ◌&&◌, List, [],
  ◌∷◌, ◌++◌, length, map, take, ltb, leb, ◌==◌, if◌then◌else◌, Run, ok, fault, assertion,
  out_of_bounds, out_of_fuel, ◌>>=◌, ◌>>◌, require, assert, Option, none, some, get_elem?, set,
}
use windz.Prelude.Int.{ℤ, pos, negsuc, pos_part, neg_part, ◌+ℤ◌, ◌-ℤ◌, ltb_ℤ, leb_ℤ, eqb_ℤ, quot_ℕ}
use Heap.{Timer, TimerHeap, push_in_heap, pop_in_heap, down_in_heap}

unfoldable pub new_timer : ℕ → ℕ → ℤ → ℤ → Timer
new_timer id cb when interval = record {
  id = id;
  cb = cb;
  when = when;
  interval = interval;
  repeat = not (eqb_ℤ interval (pos 0));
  canceled = false;
}

-- `Timer::Restart`
pub restart : ℤ → Timer → Timer
restart now t = record t { when = if t.repeat then now +ℤ t.interval else pos 0 }

-- What the pointer to timer `id` reaches, changed.
unfoldable pub update : ℕ → (Timer → Timer) → TimerHeap → TimerHeap
update id f [] = []
update id f (t ∷ heap) = (if t.id == id then f t else t) ∷ update id f heap

unfoldable pub find : ℕ → TimerHeap → Option Timer
find id [] = none
find id (t ∷ heap) = if t.id == id then some t else find id heap

-- `TimerManager::Cancel`, in the loop's thread: nothing if the timer is gone.
unfoldable pub cancel : ℕ → TimerHeap → Run TimerHeap
unfolding find update
cancel id heap = elim (find id heap) [
  | none ↦ ok heap
  | some t ↦ assert (not t.canceled) >> ok (update id (λ u. record u { canceled = true }) heap)
]

abbrev pub int64_max : ℕ
int64_max = 2 ^ 63 - 1

-- `NextTimeout`: milliseconds to the earliest due time.
unfoldable pub next_timeout : ℤ → TimerHeap → ℤ
next_timeout now [] = pos int64_max
next_timeout now (t ∷ _) =
    let timeout = t.when -ℤ now in if ltb_ℤ timeout (pos 0) then pos 0 else quot_ℕ timeout 1_000_000

-- The manager in a run of `HandleExpired`: its heap, the timers that have run, and how often the
-- clock was read.
pub record Manager : Type 0 where
  pub heap : TimerHeap
  pub fired : List ℕ
  pub reads : ℕ

-- A timer's function may itself add and cancel timers; the clock is the system's.
module _ (call : ℕ → TimerHeap → TimerHeap) (clock : ℕ → ℤ) where
  -- The `else if` branch, for the timer `t` at the root: run it, then restart or drop it.
  pub fire : Timer → Manager → Run Manager
  unfolding update
  fire t m =
      let called = call t.cb m.heap in
      let fired = m.fired ++ t.id ∷ [] in
      let again = down_in_heap (update t.id (restart (clock m.reads)) called) 0 >>= λ heap.
      ok (record { heap = heap; fired = fired; reads = m.reads + 1 }) in
      let done = pop_in_heap called >>= λ heap.
      ok (record { heap = heap; fired = fired; reads = m.reads }) in
      if t.repeat then again else done

  -- `HandleExpired` after the clock was read first.
  pub handle_loop : ℕ → ℤ → Manager → Run Manager
  unfolding fire
  handle_loop zero now m = fault out_of_fuel
  handle_loop (suc fuel) now m =
      let drop = pop_in_heap m.heap >>= λ heap. handle_loop fuel now (record m { heap = heap }) in
      elim m.heap [
        | [] ↦ ok m
        | t ∷ _ ↦
            let run = fire t m >>= handle_loop fuel now in
            if t.canceled then drop else if leb_ℤ t.when now then run else ok m
      ]

  pub handle_expired : ℕ → Manager → Run Manager
  unfolding handle_loop
  handle_expired fuel m = handle_loop fuel (clock m.reads) (record m { reads = m.reads + 1 })
