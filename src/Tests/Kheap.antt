-- ===== src/Tests/Kheap.antt =====
-- The buddy allocator at concrete states: a heap of 256 bytes at 4096, with blocks of 32 bytes or more.
use fors_kernel.Prelude.{
  ℕ, zero, suc, ◌+◌, ◌-◌, ◌^◌, ◌≤◌, ◌≡◌, ◌≢◌, refl, some, List, ◌∷◌, replicate, ◌==◌, if◌then◌else◌,
  get_elem?, arith, Run, ok, fault, ◌>>=◌,
}
use fors_kernel.Prelude.Post.{Post}
use fors_kernel.Heap.{BuddyAllocator}
use fors_kernel.Heap.Alloc.{header_size, balloc, bfree}
use fors_kernel.Heap.Alloc.Rounding.{TakesMod32}
use fors_kernel.Heap.Alloc.Fitting.{HeadsOrdered, balloc-fits}
use fors_kernel.Heap.Alloc.Giving.{balloc_head, balloc_exhausted}

-- A shift that takes its count modulo 32.
abbrev shift_mod : ℕ → Run ℕ
shift_mod n = ok (2 ^ (n - 32))

shift_mod-TakesMod32 : TakesMod32 shift_mod
shift_mod-TakesMod32 n low high = refl

abbrev heap_with : List ℕ → BuddyAllocator
heap_with lists = record {
  min_order = 5;
  max_order = 8;
  size = 256;
  memory_start = 4096;
  order_lists = lists;
  order = λ p. if p == 4096 then 8 else 0;
  taken = λ p. 0;
  next = λ p. 0;
  prev = λ p. 0;
}

abbrev whole : BuddyAllocator
whole = heap_with (0 ∷ 0 ∷ 0 ∷ 4096 ∷ replicate 28 0)

zero_at : (n i head : ℕ) → get_elem? (replicate n 0) i ≡ some head → head ≡ 0
zero_at zero i head e = absurd (cc)
zero_at (suc n) zero head e = cc
zero_at (suc n) (suc i) head e = zero_at n i head e

whole-HeadsOrdered : HeadsOrdered whole
whole-HeadsOrdered (suc (suc (suc zero))) head e ne = let q : 4096 ≡ head = cc in ground arith
whole-HeadsOrdered (suc (suc (suc (suc i)))) head e ne = absurd (ne (zero_at 28 i head e))
whole-HeadsOrdered zero head e ne = absurd (ne (cc))
whole-HeadsOrdered (suc zero) head e ne = absurd (ne (cc))
whole-HeadsOrdered (suc (suc zero)) head e ne = absurd (ne (cc))

balloc-fits_example :
    Post
      (λ (r : ℕ × BuddyAllocator).
        (header_size ≤ r.0)
        × (40 + header_size ≤ 2 ^ r.1.order (r.0 - header_size))
        × (r.1.taken (r.0 - header_size) ≡ 1))
      (balloc shift_mod 40 whole)
balloc-fits_example =
    balloc-fits shift_mod whole 40 shift_mod-TakesMod32 whole-HeadsOrdered (omega arith)
      (omega arith) (omega arith) (omega arith)

-- 200 bytes need the whole heap.
balloc_head_example :
    (a' : BuddyAllocator) × (balloc shift_mod 200 whole ≡ ok (4096 + header_size, a'))
    × (a'.taken 4096 ≡ 1)
    × (get_elem? a'.order_lists (8 - whole.min_order) ≡ some (whole.next 4096))
    × ((i : ℕ)
        → i ≢ 8 - whole.min_order
        → get_elem? a'.order_lists i ≡ get_elem? whole.order_lists i)
unfolding balloc
balloc_head_example =
    balloc_head shift_mod whole 200 8 (omega arith) (omega arith) refl (omega arith) 4096 refl
      (omega arith) refl refl

abbrev empty_heap : BuddyAllocator
empty_heap = heap_with (replicate 32 0)

balloc_exhausted_example : balloc shift_mod 200 empty_heap ≡ fault
unfolding balloc
balloc_exhausted_example =
    balloc_exhausted shift_mod empty_heap 200 8 (omega arith) (omega arith) refl (omega arith)
      (λ i le lt. let q : i ≡ 8 = omega arith in rw q refl)

-- The last two of the blocks that these calls give, with all of them taken in between but the first
-- two: `bfree` merges a block that is on no list, whose links are stale, and so puts a block that is
-- taken at the head of a list.
abbrev given : Run (ℕ × ℕ)
given = do
  (p, a) ← balloc shift_mod 8 whole
  (q, a) ← balloc shift_mod 8 a
  (r, a) ← balloc shift_mod 8 a
  a ← bfree q a
  (q, a) ← balloc shift_mod 8 a
  (s, a) ← balloc shift_mod 8 a
  a ← bfree p a
  a ← bfree q a
  (t, a) ← balloc shift_mod 8 a
  ok (s, t)

gives_twice : given ≡ ok (4192 + header_size, 4192 + header_size)
unfolding balloc bfree
gives_twice = refl
