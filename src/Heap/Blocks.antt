-- ===== src/Heap/Blocks.antt =====
-- Putting a block on its free list and taking it off again, kernel/src/generic/heap/buddy_util.c.
use fors_kernel.Prelude.{
  ℕ, ◌-◌, ◌≤◌, ◌≡◌, refl, ◌≢◌, true, false, some, ◌==◌, ltb, if◌then◌else◌, get_elem?, set_at,
  set_back, arith, ok, ◌>>=◌, inl, inr, Bool-cases,
}
use fors_kernel.Frames.{update}
use fors_kernel.Heap.{BuddyAllocator, list_of, remove_block, insert_block}

-- A block put on its free list, whose head has nothing in front of it, and taken off again: the list
-- heads are as they were, and so are the headers of all other blocks; the block is marked taken.
pub remove_block-insert_block :
    (a : BuddyAllocator) (bl head : ℕ)
    → bl ≢ 0
    → a.min_order ≤ a.order bl
    → get_elem? a.order_lists (a.order bl - a.min_order) ≡ some head
    → head ≢ bl
    → (head ≢ 0 → a.prev head ≡ 0)
    → (a' : BuddyAllocator) × ((insert_block a bl >>= λ a. remove_block a bl) ≡ ok a')
      × (a'.order_lists ≡ a.order_lists)
      × (a'.taken bl ≡ 1)
      × ((x : ℕ)
          → x ≢ bl
          → (a'.next x ≡ a.next x) × (a'.prev x ≡ a.prev x) × (a'.taken x ≡ a.taken x))
unfolding insert_block remove_block list_of
remove_block-insert_block a bl head ne le at other first =
    let nz : (bl == 0) ≡ false = ground arith in
    let in_range : ltb (a.order bl) a.min_order ≡ false = ground arith in
    let i = a.order bl - a.min_order in
    let back = set_back a.order_lists i head bl at in
    let at' = set_at a.order_lists i head bl at in
    let self : (bl == bl) ≡ true = ground arith in
    let apart : (head == bl) ≡ false = ground arith in
    let final : BuddyAllocator = record a {
      taken = update (update a.taken bl 0) bl 1;
      next = update a.next bl head;
      prev =
          if head == 0
          then update a.prev bl 0
          else update (update (update a.prev bl 0) head bl) head 0;
    } in
    (
      final,
      elim (Bool-cases (head == 0)) [
        | inl z ↦ rw (nz, in_range, at, z, self, in_range, at', back) (rw z)
        | inr z ↦ rw (nz, in_range, at, z, apart, self, in_range, at', back) (rw z)
      ],
      refl,
      ground arith,
      λ x nx. (ground arith, ground (arith, first), ground arith),
    )
