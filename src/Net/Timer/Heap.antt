-- ===== src/Net/Timer/Heap.antt =====
-- The heap operations of windz/net/Timer.cpp. An index outside the vector is a fault; the loops
-- take fuel, the size of the heap, which `up_restores` and `down_restores` show to be enough.
pub mod Order
pub mod Up
pub mod Down
pub mod Bag
use windz.Prelude.{
  ℕ, zero, suc, ◌+◌, ◌-◌, ◌*◌, ◌/◌, ◌%◌, ◌^◌, ◌<◌, ◌≡◌, Bool, false, List, [], ◌∷◌, ◌++◌, length,
  get_elem?, get_or, set, take, get_elem?-get_or, ltb, leb, if◌then◌else◌, Option, none, some, Run,
  ok, fault, out_of_bounds, out_of_fuel, ◌>>=◌,
}
use windz.Prelude.Int.{ℤ, pos, ltb_ℤ, leb_ℤ}

pub record Timer : Type 0 where
  pub id : ℕ
  pub cb : ℕ
  pub when : ℤ
  pub interval : ℤ
  pub repeat : Bool
  pub canceled : Bool

abbrev pub TimerHeap : Type 0
TimerHeap = List Timer

-- `heap_[i]`
unfoldable pub load : TimerHeap → ℕ → Run Timer
load heap i = elim (get_elem? heap i) [ none ↦ fault out_of_bounds | some t ↦ ok t ]

unfoldable pub swap_in_heap : TimerHeap → ℕ → ℕ → Run TimerHeap
unfolding load
swap_in_heap heap l r = do a ← load heap l; b ← load heap r; ok (set (set heap l b) r a)

-- `(index - 1) / 2` in `size_t`, which wraps at the root.
abbrev pub parent_of : ℕ → ℕ
parent_of i = ((i + 2 ^ 64 - 1) % 2 ^ 64) / 2

unfoldable pub earlier : TimerHeap → ℕ → ℕ → Run Bool
unfolding load
earlier heap i j = do a ← load heap i; b ← load heap j; ok (ltb_ℤ a.when b.when)

unfoldable pub up_loop : ℕ → TimerHeap → ℕ → Run TimerHeap
up_loop zero heap i = fault out_of_fuel
up_loop (suc fuel) heap i =
    let rise = swap_in_heap heap i (parent_of i) >>= λ h. up_loop fuel h (parent_of i) in
    let test = earlier heap i (parent_of i) >>= λ above. if above then rise else ok heap in
    if ltb 0 i then test else ok heap

unfoldable pub up_in_heap : TimerHeap → ℕ → Run TimerHeap
unfolding up_loop swap_in_heap earlier
up_in_heap heap i = up_loop (length heap) heap i

-- The child that `DownInHeap` compares with: of two, the right one unless the left is earlier.
unfoldable pub min_child : TimerHeap → ℕ → Run ℕ
unfolding earlier
min_child heap child =
    let pick = earlier heap child (child + 1) >>= λ left. ok (if left then child else child + 1) in
    if ltb child (length heap - 1) then pick else ok child

unfoldable pub down_loop : ℕ → TimerHeap → ℕ → Run TimerHeap
unfolding min_child swap_in_heap load
down_loop zero heap i = fault out_of_fuel
down_loop (suc fuel) heap i =
    let step : Run TimerHeap = do
      m ← min_child heap (i * 2 + 1)
      a ← load heap i
      b ← load heap m
      let sink = swap_in_heap heap i m >>= λ h. down_loop fuel h m
      if leb_ℤ a.when b.when then ok heap else sink
    in if ltb (i * 2 + 1) (length heap) then step else ok heap

unfoldable pub down_in_heap : TimerHeap → ℕ → Run TimerHeap
unfolding down_loop
down_in_heap heap i = down_loop (length heap + 1) heap i

unfoldable pub push_in_heap : TimerHeap → Timer → Run TimerHeap
unfolding up_in_heap
push_in_heap heap t = up_in_heap (heap ++ t ∷ []) (length (heap ++ t ∷ []) - 1)

-- `pop_back` takes the last entry away; both are called on a heap that is not empty.
unfoldable pub pop_in_heap : TimerHeap → Run TimerHeap
unfolding down_in_heap swap_in_heap
pop_in_heap heap = do
  h ← swap_in_heap heap 0 (length heap - 1)
  down_in_heap (take (length heap - 1) h) 0

abbrev pub no_timer : Timer
no_timer = record {
  id = 0;
  cb = 0;
  when = pos 0;
  interval = pos 0;
  repeat = false;
  canceled = false;
}
