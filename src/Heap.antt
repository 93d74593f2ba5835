-- ===== src/Heap.antt =====
-- The free lists of the buddy allocator, kernel/src/generic/heap/buddy_util.c: one doubly linked
-- list of blocks for each order, whose headers stand in the memory that is given out. A pointer is
-- an address, NULL is 0.
pub mod Alloc
pub mod Blocks
use fors_kernel.Prelude.{
  ℕ, zero, suc, ◌+◌, ◌-◌, ◌*◌, ◌/◌, ◌%◌, ◌^◌, Bool, true, false, ◌||◌, Option, none, some, List,
  ◌==◌, ltb, leb, if◌then◌else◌, get_elem?, set, replicate, Run, ok, fault, ◌>>=◌, deref,
}
use fors_kernel.Prelude.Int.{ℤ, pos, negsuc}
use fors_kernel.Frames.{update}

abbrev pub buddy_num_lists : ℕ
buddy_num_lists = 32

-- `buddy_allocator`, and the `buddy_block` header at each address.
pub record BuddyAllocator : Type 0 where
  pub min_order : ℕ
  pub max_order : ℕ
  pub size : ℕ
  pub memory_start : ℕ
  pub order_lists : List ℕ
  pub order : ℕ → ℕ
  pub taken : ℕ → ℕ
  pub next : ℕ → ℕ
  pub prev : ℕ → ℕ

-- `order_lists[bl->order - min_order]`: its index, and a fault where that is negative.
unfoldable pub list_of : BuddyAllocator → ℕ → Run ℕ
list_of a bl = if ltb (a.order bl) a.min_order then fault else ok (a.order bl - a.min_order)

unfoldable pub remove_block : BuddyAllocator → ℕ → Run BuddyAllocator
unfolding list_of
remove_block a bl = if bl == 0 then fault else do
  let left = a.prev bl
  let right = a.next bl
  let unlinked = record a {
    taken = update a.taken bl 1;
    next = if left == 0 then a.next else update a.next left right;
    prev = if right == 0 then a.prev else update a.prev right left;
  }
  if left == 0
      then (do
        i ← list_of a bl
        head ← deref (get_elem? a.order_lists i)
        ok (record unlinked { order_lists = set a.order_lists i right }))
      else ok unlinked

unfoldable pub insert_block : BuddyAllocator → ℕ → Run BuddyAllocator
unfolding list_of
insert_block a bl = if bl == 0 then fault else do
  i ← list_of a bl
  head ← deref (get_elem? a.order_lists i)
  let prev = update a.prev bl 0
  ok (record a {
    taken = update a.taken bl 0;
    next = update a.next bl head;
    prev = if head == 0 then prev else update prev head bl;
    order_lists = set a.order_lists i bl;
  })

-- The `k` with `2 ^ k` equal to the number, of those below `n`.
unfoldable pub exponent : ℕ → ℕ → Option ℕ
exponent zero size = none
exponent (suc n) size = let rest = exponent n size in if size == 2 ^ n then some n else rest

-- `size & (size - 1)` is not 0 where the size is neither 0 nor a power of two. `__builtin_ctz` takes
-- 32 bits, and has no value where they are all 0.
unfoldable pub buddy_init : ℕ → ℕ → ℕ → BuddyAllocator → Run (ℤ × BuddyAllocator)
unfolding exponent insert_block
buddy_init size ptr min_order a =
    let init = λ (k : ℕ). (do
      let a = record a {
        order_lists = replicate buddy_num_lists 0;
        min_order = min_order % 2 ^ 16;
        max_order = k;
        size = size;
        memory_start = ptr;
        order = update a.order ptr k;
      }
      a ← insert_block a ptr
      ok (pos 0, a)) in
    elim (exponent 64 size) [
      | none ↦
          if size == 0 then (if ptr == 0 then ok (negsuc 0, a) else fault) else ok (negsuc 0, a)
      | some k ↦ if ptr == 0 then ok (negsuc 0, a) else if leb 32 k then fault else init k
    ]

-- `1 << bl->order` on an `int`, a fault where it does not fit.
unfoldable pub mask_of : BuddyAllocator → ℕ → Run ℕ
mask_of a bl = if leb 31 (a.order bl) then fault else ok (2 ^ a.order bl)

-- Whether the address has the bit of a mask.
abbrev pub has_bit : ℕ → ℕ → Bool
has_bit x m = (x / m) % 2 == 1

-- The address with the bit flipped, or 0 for NULL.
unfoldable pub get_buddy : BuddyAllocator → ℕ → Run ℕ
unfolding mask_of
get_buddy a bl =
    if bl == 0
    then fault
    else if a.order bl == a.max_order
    then ok 0
    else (do m ← mask_of a bl; ok (if has_bit bl m then bl - m else bl + m))

-- The right half, 0 for NULL, and the allocator.
unfoldable pub split : BuddyAllocator → ℕ → Run (ℕ × BuddyAllocator)
unfolding remove_block insert_block get_buddy
split a bl = if bl == 0 then fault else if leb (a.order bl) a.min_order then ok (0, a) else (do
  a ← remove_block a bl
  let a = record a { order = update a.order bl (a.order bl - 1) }
  br ← get_buddy a bl
  if br == 0 then fault else do
    let a = record a { order = update a.order br (a.order bl) }
    a ← insert_block a bl
    a ← insert_block a br
    ok (br, a))

-- The merged block, 0 for NULL, and the allocator.
unfoldable pub merge : BuddyAllocator → ℕ → Run (ℕ × BuddyAllocator)
unfolding remove_block insert_block get_buddy mask_of
merge a bl = if bl == 0 then fault else if a.order bl == a.max_order then ok (0, a) else (do
  m ← mask_of a bl
  let left_buddy = if has_bit bl m then bl - m else bl
  buddy ← get_buddy a left_buddy
  if buddy == 0
      then fault
      else if a.order left_buddy == a.order buddy
      then (do
        a ← remove_block a left_buddy
        right ← get_buddy a left_buddy
        a ← remove_block a right
        let a = record a { order = update a.order left_buddy ((a.order left_buddy + 1) % 2 ^ 16) }
        a ← insert_block a left_buddy
        ok (left_buddy, a))
      else ok (0, a))
