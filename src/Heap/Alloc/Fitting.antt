-- ===== src/Heap/Alloc/Fitting.antt =====
-- The blocks that `balloc` of balloc.c gives.
use fors_kernel.Prelude.{
  ℕ, zero, suc, ◌+◌, ◌-◌, ◌^◌, ◌≤◌, ◌<◌, ◌≡◌, ◌≢◌, refl, ap, ◌∙◌, inl, inr, false, Bool-cases,
  Option, some, none, leb, ltb, ◌==◌, arith, Run, get_elem?, deref,
}
use fors_kernel.Prelude.Post.{
  Post, returns, faults, Post-bind, Post-self, Post-deref, Post-if, Post-mono,
}
use fors_kernel.Frames.{update}
use fors_kernel.Heap.{BuddyAllocator, list_of, remove_block, insert_block, get_buddy, split}
use fors_kernel.Heap.Alloc.{header_size, head_of, find_larger, split_times, pick_block, balloc}
use fors_kernel.Heap.Alloc.Rounding.{TakesMod32, order_for-fits}

-- The head of each list has the list's order.
abbrev pub HeadsOrdered : BuddyAllocator → Type 0
HeadsOrdered a =
    (i head : ℕ) → get_elem? a.order_lists i ≡ some head → head ≢ 0 → a.order head ≡ a.min_order + i

-- The orders are as they were.
abbrev SameOrders : BuddyAllocator → BuddyAllocator → Type 0
SameOrders a a' = (a'.order ≡ a.order) × (a'.min_order ≡ a.min_order)

remove_block-taken :
    (a : BuddyAllocator) (bl : ℕ)
    → Post (λ a'. SameOrders a a' × (a'.taken bl ≡ 1)) (remove_block a bl)
unfolding remove_block
remove_block-taken a bl = Post-if (bl == 0) faults (
    Post-if (a.prev bl == 0)
      (Post-bind _ (Post-self (list_of a bl)) λ i _.
        Post-bind _ (Post-self (deref (get_elem? a.order_lists i)))
          λ head _. returns ((refl, refl), ground arith))
      (returns ((refl, refl), ground arith)))

insert_block-orders : (a : BuddyAllocator) (bl : ℕ) → Post (SameOrders a) (insert_block a bl)
unfolding insert_block
insert_block-orders a bl = Post-if (bl == 0) faults (
    Post-bind _ (Post-self (list_of a bl)) λ i _.
      Post-bind _ (Post-self (deref (get_elem? a.order_lists i))) λ head _. returns (refl, refl))

update_both : (f : ℕ → ℕ) (x y v : ℕ) → update (update f x v) y (update f x v x) x ≡ v
update_both f x y v = ground arith

-- `split` makes the block's order smaller by one.
split-order :
    (a : BuddyAllocator) (bl : ℕ)
    → a.min_order < a.order bl
    → Post (λ r. (r.1.order bl ≡ a.order bl - 1) × (r.1.min_order ≡ a.min_order)) (split a bl)
unfolding split
split-order a bl lt =
    let more : leb (a.order bl) a.min_order ≡ false = ground arith in
    Post-if (bl == 0) faults (
      rw more (
        Post-bind _ (remove_block-taken a bl) λ a1 s1.
          let a2 = record a1 { order = update a1.order bl (a1.order bl - 1) } in
          Post-bind _ (Post-self (get_buddy a2 bl)) λ br _. Post-if (br == 0) faults (
            Post-bind _
              (insert_block-orders (record a2 { order = update a2.order br (a2.order bl) }) bl)
              λ a3 s3. Post-bind _ (insert_block-orders a3 br) λ a4 s4. returns (
                ap (λ f. f bl) (s4.0 ∙ s3.0)
                    ∙ update_both a1.order bl br (a1.order bl - 1)
                    ∙ ap (λ f. f bl - 1) s1.0.0,
                s4.1 ∙ s3.1 ∙ s1.0.1,
              ))))

split_times-order :
    (k : ℕ) (a : BuddyAllocator) (bl : ℕ)
    → a.min_order + k ≤ a.order bl
    → Post (λ a'. a'.order bl ≡ a.order bl - k) (split_times k a bl)
unfolding split_times
split_times-order zero a bl le = returns (omega arith)
split_times-order (suc k) a bl le = Post-bind _ (split-order a bl (omega arith)) λ r s.
    Post-mono (split_times-order k r.1 bl (omega (arith, s.0, s.1))) λ a' e. omega (arith, e, s.0)

head_of-order :
    (a : BuddyAllocator) (n : ℕ)
    → HeadsOrdered a
    → Post (λ bl. bl ≢ 0 → a.order bl ≡ n) (head_of a n)
unfolding head_of
head_of-order a n ordered = elim (Bool-cases (ltb n a.min_order)) [
  | inl e ↦ rw (head_of, e) faults
  | inr e ↦
      rw (head_of, e)
        (Post-mono (Post-deref (get_elem? a.order_lists (n - a.min_order)))
          λ bl at ne. ordered (n - a.min_order) bl at ne ∙ ground arith)
]

abbrev IsLarger : BuddyAllocator → ℕ → Option (ℕ × ℕ) → Type 0
IsLarger a n none = Unit
IsLarger a n (some (m, bl)) = (n ≤ m) × (a.order bl ≡ m)

IsLarger-suc :
    (a : BuddyAllocator) (n : ℕ) (o : Option (ℕ × ℕ)) → IsLarger a (n + 1) o → IsLarger a n o
IsLarger-suc a n none h = tt
IsLarger-suc a n (some (m, bl)) (le, e) = (omega arith, e)

-- What the search of the larger orders finds is a block of its order.
find_larger-order :
    (a : BuddyAllocator) (n k : ℕ) → HeadsOrdered a → Post (IsLarger a n) (find_larger a n k)
unfolding find_larger
find_larger-order a n zero ordered = returns tt
find_larger-order a n (suc k) ordered = Post-bind _ (head_of-order a n ordered) λ bl o.
    elim (Bool-cases (bl == 0)) [
      | inl e ↦ rw e (Post-mono (find_larger-order a (n + 1) k ordered) (IsLarger-suc a n))
      | inr e ↦ rw e (returns (omega arith, o (ground arith)))
    ]

-- What is found is a block of the order, or none.
pick_block-order :
    (a : BuddyAllocator) (k : ℕ)
    → HeadsOrdered a
    → a.min_order ≤ k
    → Post (λ r. r.0 ≢ 0 → r.1.order r.0 ≡ k) (pick_block a k)
unfolding pick_block
pick_block-order a k ordered over = Post-bind _ (head_of-order a k ordered) λ head o.
    Post-if (head == 0)
      (Post-bind _ (find_larger-order a (k + 1) (a.max_order - k) ordered) (elim [
        | none ↦ λ f. returns λ ne. absurd (ne refl)
        | some (n, bl) ↦ λ (later, at).
            Post-bind _ (split_times-order (n - k) a bl (omega arith))
              λ a1 s1. returns λ ne. omega arith
      ]))
      (Post-bind _ (remove_block-taken a head)
        λ a1 s1. returns λ ne. ap (λ f. f head) s1.0.0 ∙ o ne)

-- `remove_block` of what was found: it is a block.
taken_block :
    (a : BuddyAllocator) (bl : ℕ)
    → Post (λ a'. (a'.order bl ≡ a.order bl) × (a'.taken bl ≡ 1) × (bl ≢ 0)) (remove_block a bl)
unfolding remove_block
taken_block a zero = faults
taken_block a (suc bl) =
    Post-mono (remove_block-taken a (suc bl))
      λ a' s. (ap (λ f. f (suc bl)) s.0.0, s.1, λ q. omega arith)

fitting :
    (size k bl : ℕ) (a : BuddyAllocator)
    → size + header_size ≤ 2 ^ k
    → a.order bl ≡ k
    → a.taken bl ≡ 1
    → (header_size ≤ bl + header_size)
      × (size + header_size ≤ 2 ^ a.order (bl + header_size - header_size))
      × (a.taken (bl + header_size - header_size) ≡ 1)
fitting size k bl a fits order taken =
    let back : bl + header_size - header_size ≡ bl = omega arith in
    (omega arith, rw (back, order) fits, rw back taken)

-- Over a heap whose lists' heads have the lists' orders.
pub balloc-fits :
    (shifted : ℕ → Run ℕ) (a : BuddyAllocator) (size : ℕ)
    → TakesMod32 shifted
    → HeadsOrdered a
    → a.min_order < 32
    → 0 < size
    → size ≤ a.size
    → size + header_size ≤ 2 ^ 30
    → Post
        (λ r.
          (header_size ≤ r.0)
          × (size + header_size ≤ 2 ^ r.1.order (r.0 - header_size))
          × (r.1.taken (r.0 - header_size) ≡ 1))
        (balloc shifted size a)
unfolding balloc
balloc-fits shifted a size machine ordered min pos within high =
    let (k, e, fits, over, word) = order_for-fits shifted machine a size min pos high in
    let enough : ltb a.size size ≡ false = ground arith in
    let some_size : (size == 0) ≡ false = ground arith in
    rw (balloc, enough, some_size, e)
      (Post-bind _ (pick_block-order a k ordered over) λ r f.
        Post-bind _ (taken_block r.1 r.0)
          λ a' s. returns (fitting size k r.0 a' fits (s.0 ∙ f s.2) s.1))
