-- ===== src/Heap/Alloc.antt =====
-- Taking memory from the buddy allocator and giving it back, kernel/src/generic/heap/balloc.c and
-- bfree.c.
pub mod Rounding
pub mod Fitting
pub mod Giving
use fors_kernel.Prelude.{
  ℕ, zero, suc, ◌+◌, ◌-◌, ◌*◌, ◌/◌, ◌%◌, ◌^◌, Bool, true, false, ◌||◌, not, Option, none, some,
  List, ◌==◌, ltb, leb, if◌then◌else◌, get_elem?, Run, ok, fault, out_of_fuel, ◌>>=◌, deref,
}
use fors_kernel.Heap.{BuddyAllocator, remove_block, insert_block, get_buddy, split, merge}

-- `sizeof(buddy_block)`
abbrev pub header_size : ℕ
header_size = 24

-- The highest bit of a number, of those below `n`.
unfoldable pub top_bit : ℕ → ℕ → ℕ
top_bit zero x = 0
top_bit (suc n) x = let rest = top_bit n x in if leb (2 ^ n) x then n else rest

-- `__builtin_clz` and `__builtin_ctz` of 32 bits, which have no value for 0.
unfoldable pub clz : ℕ → Run ℕ
unfolding top_bit
clz x = if x % 2 ^ 32 == 0 then fault else ok (31 - top_bit 32 (x % 2 ^ 32))

-- The zeros below the lowest bit, of the lowest `n` bits.
unfoldable pub zeros_below : ℕ → ℕ → Run ℕ
zeros_below zero x = fault
zeros_below (suc n) x =
    let rest = zeros_below n (x / 2) in if x % 2 == 1 then ok 0 else (do k ← rest; ok (k + 1))

unfoldable pub ctz : ℕ → Run ℕ
unfolding zeros_below
ctz x = zeros_below 32 x

-- The head of the list at an index, a fault outside the array.
unfoldable pub head_of : BuddyAllocator → ℕ → Run ℕ
head_of a order =
    if ltb order a.min_order then fault else deref (get_elem? a.order_lists (order - a.min_order))

-- The loop over the orders from `n` on, `k` of them: the first block found, with its order.
unfoldable pub find_larger : BuddyAllocator → ℕ → ℕ → Run (Option (ℕ × ℕ))
unfolding head_of
find_larger a n zero = ok none
find_larger a n (suc k) = do
  bl ← head_of a n
  let rest = find_larger a (n + 1) k
  if bl == 0 then rest else ok (some (n, bl))

-- The loop that splits; what `split` returns is dropped.
unfoldable pub split_times : ℕ → BuddyAllocator → ℕ → Run BuddyAllocator
unfolding split
split_times zero a bl = ok a
split_times (suc k) a bl = do (br, a) ← split a bl; split_times k a bl

-- The block of an order, 0 where none is found, and the allocator.
unfoldable pub pick_block : BuddyAllocator → ℕ → Run (ℕ × BuddyAllocator)
unfolding head_of find_larger split_times
pick_block a order = do
  head ← head_of a order
  if head == 0
      then (do
        found ← find_larger a (order + 1) (a.max_order - order)
        elim found [
          | none ↦ ok (0, a)
          | some (n, bl) ↦ do a ← split_times (n - order) a bl; ok (bl, a)
        ])
      else (do a ← remove_block a head; ok (head, a))

-- `shifted n` is `1 << n` on an `int` as a `size_t`, for `n` of 32 and more: C leaves it undefined,
-- and the machine decides.
module _ (shifted : ℕ → Run ℕ) where
  unfoldable pub round_up : ℕ → Run ℕ
  unfolding clz
  round_up size = if size == 1 then ok 1 else (do z ← clz (size - 1); shifted (64 - z))

  -- The order of the block for a size.
  unfoldable pub order_for : BuddyAllocator → ℕ → Run ℕ
  unfolding round_up ctz
  order_for a size = do
    size ← round_up ((size + header_size) % 2 ^ 64)
    if leb 32 a.min_order
        then fault
        else ctz (if ltb size (2 ^ a.min_order) then 2 ^ a.min_order else size)

  -- The pointer, 0 for NULL, and the allocator. Where no block is found it goes on with NULL.
  unfoldable pub balloc : ℕ → BuddyAllocator → Run (ℕ × BuddyAllocator)
  unfolding order_for pick_block remove_block
  balloc size a = if ltb a.size size then ok (0, a) else if size == 0 then ok (0, a) else (do
    order ← order_for a size
    (ret_block, a) ← pick_block a order
    a ← remove_block a ret_block
    ok (ret_block + header_size, a))

  -- On `kheap_alloc`.
  unfoldable pub kalloc : ℕ → BuddyAllocator → Run (ℕ × BuddyAllocator)
  unfolding balloc
  kalloc size kheap_alloc = balloc size kheap_alloc

-- The loop of `bfree`. A round that goes on makes the order larger by one, and a block of order 31
-- or more ends in a fault, so 33 rounds are enough.
unfoldable pub merge_loop : ℕ → BuddyAllocator → ℕ → Run BuddyAllocator
unfolding get_buddy merge
merge_loop zero a bl = out_of_fuel
merge_loop (suc fuel) a bl = if a.order bl == a.max_order then ok a else (do
  buddy ← get_buddy a bl
  if buddy == 0 then fault else if not (a.taken buddy == 0) then ok a else (do
    (bl, a) ← merge a bl
    let rest = merge_loop fuel a bl
    if bl == 0 then ok a else rest))

unfoldable pub bfree : ℕ → BuddyAllocator → Run BuddyAllocator
unfolding get_buddy insert_block merge_loop
bfree ptr a = if ptr == 0 then ok a else if ltb ptr header_size then fault else (do
  let bl = ptr - header_size
  buddy ← get_buddy a bl
  if buddy == 0
      then ok a
      else if not (a.order buddy == a.order bl) || not (a.taken buddy == 0)
      then insert_block a bl
      else merge_loop 33 a bl)

unfoldable pub kfree : ℕ → BuddyAllocator → Run BuddyAllocator
unfolding bfree
kfree ptr kheap_alloc = bfree ptr kheap_alloc
