-- ===== src/Heap/Alloc/Giving.antt =====
-- What `balloc` of balloc.c returns where a list has a block, and where none has.
use fors_kernel.Prelude.{
  set_at, ℕ, zero, suc, ◌+◌, ◌-◌, ◌≤◌, ◌<◌, ◌≡◌, ◌≢◌, refl, sym, ◌∙◌, false, some, none, ltb, ◌==◌,
  if◌then◌else◌, arith, Run, ok, fault, ◌>>=◌, get_elem?, get_elem?-set_ne, set,
}
use fors_kernel.Frames.{update}
use fors_kernel.Heap.{BuddyAllocator, list_of, remove_block}
use fors_kernel.Heap.Alloc.{header_size, head_of, find_larger, pick_block, order_for, balloc}

-- The first block of a list, taken off it.
abbrev without_head : BuddyAllocator → ℕ → ℕ → BuddyAllocator
without_head a i bl = record a {
  taken = update a.taken bl 1;
  prev = if a.next bl == 0 then a.prev else update a.prev (a.next bl) 0;
  order_lists = set a.order_lists i (a.next bl);
}

remove_block-head :
    (a : BuddyAllocator) (bl i head : ℕ)
    → bl ≢ 0
    → a.prev bl ≡ 0
    → a.min_order ≤ a.order bl
    → a.order bl - a.min_order ≡ i
    → get_elem? a.order_lists i ≡ some head
    → remove_block a bl ≡ ok (without_head a i bl)
unfolding remove_block list_of
remove_block-head a bl i head ne first over e at =
    let nz : (bl == 0) ≡ false = ground arith in
    let in_range : ltb (a.order bl) a.min_order ≡ false = ground arith in
    rw (remove_block, nz, first, list_of, in_range, e, at) refl

find_larger-empty :
    (a : BuddyAllocator) (n k : ℕ)
    → a.min_order ≤ n
    → ((i : ℕ) → n ≤ i → i < n + k → get_elem? a.order_lists (i - a.min_order) ≡ some 0)
    → find_larger a n k ≡ ok none
unfolding find_larger head_of
find_larger-empty a n zero over empty = refl
find_larger-empty a n (suc k) over empty =
    let in_range : ltb n a.min_order ≡ false = ground arith in
    rw (find_larger, head_of, in_range, empty n (omega arith) (omega arith))
      (find_larger-empty a (n + 1) k (omega arith) λ i le lt. empty i (omega arith) (omega arith))

module _ (shifted : ℕ → Run ℕ) (a : BuddyAllocator) (size k : ℕ) (pos : 0 < size)
    (within : size ≤ a.size) (order : order_for shifted a size ≡ ok k)
    (over : a.min_order ≤ k) where
  balloc-find :
      balloc shifted size a
      ≡ (pick_block a k >>= λ r. remove_block r.1 r.0 >>= λ a'. ok (r.0 + header_size, a'))
  unfolding balloc
  balloc-find =
      let enough : ltb a.size size ≡ false = ground arith in
      let some_size : (size == 0) ≡ false = ground arith in
      rw (balloc, enough, some_size, order) refl

  pick_block-head :
      (bl : ℕ)
      → get_elem? a.order_lists (k - a.min_order) ≡ some bl
      → bl ≢ 0
      → pick_block a k ≡ (remove_block a bl >>= λ a'. ok (bl, a'))
  unfolding pick_block head_of
  pick_block-head bl at ne =
      let nz : (bl == 0) ≡ false = ground arith in
      let in_range : ltb k a.min_order ≡ false = ground arith in
      rw (pick_block, head_of, in_range, at, nz) refl

  -- Where the list of the order for a size has a block, `balloc` gives it: the block is marked taken,
  -- the list begins with the one behind it, and the other lists are as they were.
  pub balloc_head :
      (bl : ℕ)
      → get_elem? a.order_lists (k - a.min_order) ≡ some bl
      → bl ≢ 0
      → a.order bl ≡ k
      → a.prev bl ≡ 0
      → (a' : BuddyAllocator) × (balloc shifted size a ≡ ok (bl + header_size, a'))
        × (a'.taken bl ≡ 1)
        × (get_elem? a'.order_lists (k - a.min_order) ≡ some (a.next bl))
        × ((i : ℕ) → i ≢ k - a.min_order → get_elem? a'.order_lists i ≡ get_elem? a.order_lists i)
  balloc_head bl at ne has_order first =
      let i = k - a.min_order in
      let a1 = without_head a i bl in
      let once = remove_block-head a bl i bl ne first (omega arith) (omega arith) at in
      let still : a1.prev bl ≡ 0 = ground arith in
      let at1 = set_at a.order_lists i bl (a.next bl) at in
      let twice = remove_block-head a1 bl i (a.next bl) ne still (omega arith) (omega arith) at1 in
      (
        without_head a1 i bl,
        balloc-find ∙ rw (pick_block-head bl at ne, once, twice) refl,
        ground arith,
        set_at a1.order_lists i (a.next bl) (a.next bl) at1,
        λ j ne_j.
            get_elem?-set_ne a1.order_lists (a.next bl) (λ q. ne_j (sym q))
            ∙ get_elem?-set_ne a.order_lists (a.next bl) (λ q. ne_j (sym q)),
      )

  -- Where no list from the order for a size on has a block, `balloc` follows a null pointer.
  pub balloc_exhausted :
      ((i : ℕ)
        → k ≤ i
        → i < k + 1 + (a.max_order - k)
        → get_elem? a.order_lists (i - a.min_order) ≡ some 0)
      → balloc shifted size a ≡ fault
  unfolding pick_block head_of remove_block
  balloc_exhausted empty =
      let in_range : ltb k a.min_order ≡ false = ground arith in
      let none_larger =
        find_larger-empty a (k + 1) (a.max_order - k) (omega arith)
          λ i le lt. empty i (omega arith) (omega arith) in
      balloc-find
      ∙ rw (pick_block, head_of, in_range, empty k (omega arith) (omega arith), none_larger) refl
