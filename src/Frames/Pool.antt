-- ===== src/Frames/Pool.antt =====
-- The pool of phys.c as an ascending list of addresses: giving a frame back and taking one.
use fors_kernel.Prelude.{
  ℕ, suc, ◌+◌, ◌^◌, ◌<◌, ◌≤◌, ◌≡◌, refl, ap, ◌∙◌, inl, inr, true, false, Bool-cases, List, [], ◌∷◌,
  ltb, ◌==◌, arith, length, ok,
}
use fors_kernel.Frames.{Frames, update, inc_u64, insert_loop, frame_insert, pfalloc_one, pffree_one}
use fors_kernel.Frames.Insert.{
  IsAscending, IsAbsent, IsPool, insert_sorted, Chain-behind, insert_loop-Inserted,
}

insert_sorted-IsAscending :
    (p y : ℕ) (xs : List ℕ)
    → p < y
    → IsAbsent y xs
    → IsAscending p xs
    → IsAscending p (insert_sorted y xs)
insert_sorted-IsAscending p y [] py out asc = (py, tt)
insert_sorted-IsAscending p y (x ∷ xs) py out asc = elim (Bool-cases (ltb y x)) [
  | inl lt ↦ rw lt (py, (ground arith, asc.1))
  | inr ge ↦ rw ge (asc.0, insert_sorted-IsAscending x y xs (ground (arith, out.0)) out.1 asc.1)
]

length-insert_sorted : (y : ℕ) (xs : List ℕ) → length (insert_sorted y xs) ≡ length xs + 1
length-insert_sorted y [] = refl
length-insert_sorted y (x ∷ xs) = ground (arith, length-insert_sorted y xs)

-- Giving a frame back that is not in the pool succeeds, and the pool then holds it in its place by
-- address besides the frames it held, while the number of frames does not wrap round.
pub frame_insert_lem :
    (m : Frames) (y : ℕ) (xs : List ℕ)
    → IsPool m xs
    → 0 < y
    → IsAbsent y xs
    → length xs + 1 < 2 ^ 64
    → (m' : Frames) × (frame_insert m y ≡ ok m') × IsPool m' (insert_sorted y xs)
unfolding frame_insert
frame_insert_lem m y [] pool py out lt =
    let e : m.frame_list ≡ 0 = pool.chain in
    (
      record m {
        frame_list = y;
        free_frames = inc_u64 m.free_frames;
        next = update m.next y 0;
        prev = update m.prev y 0;
      },
      rw e,
      record {
        chain = (refl, ground arith, ground arith);
        ascending = (py, tt);
        counted = omega (arith, pool.counted);
      },
    )
frame_insert_lem m y (x ∷ xs) pool py out lt =
    let e : m.frame_list ≡ x = pool.chain.0 in
    let nz : (m.frame_list == 0) ≡ false = ground (arith, e, pool.ascending.0) in
    let (m', q, i) =
      insert_loop-Inserted (suc m.free_frames) m 0 y x xs (omega (arith, pool.counted))
        pool.ascending (refl, pool.chain.1, pool.chain.2) (λ ne. absurd (ne refl)) (λ z. e) py
        out in
    (
      m',
      rw nz (ap (λ c. insert_loop (suc m.free_frames) m y 0 c) e ∙ q),
      record {
        chain = rw (i.head refl) i.chain;
        ascending = insert_sorted-IsAscending 0 y (x ∷ xs) py out pool.ascending;
        counted = omega (arith, i.counted, pool.counted, length-insert_sorted y (x ∷ xs));
      },
    )

-- Taking a frame from a pool that holds one, and fewer than 2 ^ 64, gives the one with the lowest
-- address and leaves the others.
pub pfalloc_one_lem :
    (m : Frames) (x : ℕ) (xs : List ℕ)
    → IsPool m (x ∷ xs)
    → length (x ∷ xs) < 2 ^ 64
    → let (frame, m') = pfalloc_one m in (frame ≡ x) × IsPool m' xs
unfolding pfalloc_one
pfalloc_one_lem m x [] pool lt =
    let e : m.frame_list ≡ x = pool.chain.0 in
    let nz : (x == 0) ≡ false = ground (arith, pool.ascending.0) in
    let end : m.next x ≡ 0 = pool.chain.2 in
    rw (e, nz, end)
      (refl, record { chain = refl; ascending = tt; counted = omega (arith, pool.counted) })
pfalloc_one_lem m x (z ∷ zs) pool lt =
    let e : m.frame_list ≡ x = pool.chain.0 in
    let nz : (x == 0) ≡ false = ground (arith, pool.ascending.0) in
    let next : m.next x ≡ z = pool.chain.2.0 in
    let on : (z == 0) ≡ false = ground (arith, pool.ascending.1.0) in
    rw (e, nz, next, on)
      (
        refl,
        record {
          chain = (
            refl,
            ground arith,
            Chain-behind m (record m { prev = update m.prev z 0 }) z z zs (λ a l. refl)
                (λ a l. ground arith) (omega arith) pool.ascending.1.1 pool.chain.2.2,
          );
          ascending = (omega (arith, pool.ascending.1.0), pool.ascending.1.1);
          counted = omega (arith, pool.counted);
        },
      )

IsAbsent-below : (p y : ℕ) (xs : List ℕ) → y ≤ p → IsAscending p xs → IsAbsent y xs
IsAbsent-below p y [] le asc = tt
IsAbsent-below p y (x ∷ xs) le asc =
    (omega (arith, asc.0), IsAbsent-below x y xs (omega (arith, asc.0)) asc.1)

insert_sorted-cons : (y : ℕ) (xs : List ℕ) → IsAscending y xs → insert_sorted y xs ≡ y ∷ xs
insert_sorted-cons y [] asc = refl
insert_sorted-cons y (x ∷ xs) asc = let lt : ltb y x ≡ true = ground (arith, asc.0) in rw lt

-- A frame taken from a pool that holds one, and fewer than 2 ^ 64, and given back at once leaves a
-- pool of the same frames in the same order.
pub pffree_one-pfalloc_one :
    (m : Frames) (x : ℕ) (xs : List ℕ)
    → IsPool m (x ∷ xs)
    → length (x ∷ xs) < 2 ^ 64
    → let (frame, m') = pfalloc_one m in
      (m'' : Frames) × (pffree_one m' frame ≡ ok m'') × IsPool m'' (x ∷ xs)
unfolding pffree_one
pffree_one-pfalloc_one m x xs pool lt =
    let (e, pool') = pfalloc_one_lem m x xs pool lt in
    let (m'', q, back) =
      frame_insert_lem (pfalloc_one m).1 x xs pool' pool.ascending.0
        (IsAbsent-below x x xs (omega arith) pool.ascending.1) (omega arith) in
    (
      m'',
      ap (λ y. frame_insert (pfalloc_one m).1 y) e ∙ q,
      rw (insert_sorted-cons x xs pool.ascending.1) at back,
    )
