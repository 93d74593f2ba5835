-- ===== src/Frames.antt =====
-- The pool of free page frames, kernel/src/arch/x64/memory/phys.c: a doubly linked list in
-- ascending order of address, whose links stand in the frames themselves. A pointer is an address,
-- NULL is 0.
pub mod Insert
pub mod Pool
use fors_kernel.Prelude.{
  ℕ, zero, suc, ◌+◌, ◌-◌, ◌*◌, ◌/◌, ◌%◌, ◌^◌, Bool, true, false, ltb, ◌==◌, if◌then◌else◌, Run, ok,
  fault, out_of_fuel, ◌>>=◌, List, [], ◌∷◌,
}

abbrev pub page_size : ℕ
page_size = 4096

-- `frame_list`, `free_frames` and the `struct frame_marker` at each address.
pub record Frames : Type 0 where
  pub frame_list : ℕ
  pub free_frames : ℕ
  pub next : ℕ → ℕ
  pub prev : ℕ → ℕ

abbrev pub update : (ℕ → ℕ) → ℕ → ℕ → ℕ → ℕ
update f a v b = if a == b then v else f b

-- `n++` and `n - k` on an `unsigned long`.
abbrev pub inc_u64 : ℕ → ℕ
inc_u64 n = (n + 1) % 2 ^ 64

abbrev pub sub_u64 : ℕ → ℕ → ℕ
sub_u64 n k = (n + 2 ^ 64 - k) % 2 ^ 64

-- `to_ins` put between `prev`, NULL for none, and `curr`.
unfoldable pub insert_before : Frames → ℕ → ℕ → ℕ → Frames
insert_before m to_ins before curr =
    if before == 0
    then record m {
      frame_list = to_ins;
      free_frames = inc_u64 m.free_frames;
      next = update m.next to_ins curr;
      prev = update (update m.prev curr to_ins) to_ins 0;
    }
    else record m {
      free_frames = inc_u64 m.free_frames;
      next = update (update m.next to_ins curr) before to_ins;
      prev = update (update m.prev curr to_ins) to_ins before;
    }

-- `to_ins` put behind the last frame.
unfoldable pub insert_last : Frames → ℕ → ℕ → Frames
insert_last m to_ins curr = record m {
  free_frames = inc_u64 m.free_frames;
  next = update (update m.next curr to_ins) to_ins 0;
  prev = update m.prev to_ins curr;
}

-- The loop of `frame_insert`; behind its last round it panics.
unfoldable pub insert_loop : ℕ → Frames → ℕ → ℕ → ℕ → Run Frames
insert_loop zero m to_ins before curr = out_of_fuel
insert_loop (suc k) m to_ins before curr =
    let rest = insert_loop k m to_ins curr (m.next curr) in
    if curr == 0
    then fault
    else if ltb to_ins curr
    then ok (insert_before m to_ins before curr)
    else if m.next curr == 0
    then ok (insert_last m to_ins curr)
    else rest

-- The list has `free_frames` frames, so as many rounds are enough.
unfoldable pub frame_insert : Frames → ℕ → Run Frames
frame_insert m frame =
    if m.frame_list == 0
    then ok (record m {
      frame_list = frame;
      free_frames = inc_u64 m.free_frames;
      next = update m.next frame 0;
      prev = update m.prev frame 0;
    })
    else insert_loop (suc m.free_frames) m frame 0 m.frame_list

-- The frame, 0 for NULL, and the pool.
unfoldable pub pfalloc_one : Frames → ℕ × Frames
pfalloc_one m = if m.frame_list == 0 then (0, m) else (
  m.frame_list,
  record m {
    frame_list = m.next m.frame_list;
    free_frames = sub_u64 m.free_frames 1;
    prev = if m.next m.frame_list == 0 then m.prev else update m.prev (m.next m.frame_list) 0;
  },
)

unfoldable pub pffree_one : Frames → ℕ → Run Frames
unfolding frame_insert
pffree_one m frame = frame_insert m frame

-- The loop of `pffree_consecutive` from `b` on, `left` rounds.
unfoldable pub pffree_loop : ℕ → ℕ → ℕ → Frames → Run Frames
unfolding pffree_one
pffree_loop zero first b m = ok m
pffree_loop (suc left) first b m = do
  m ← pffree_one m (first + b * page_size)
  pffree_loop left first (b + 1) m

unfoldable pub pffree_consecutive : Frames → ℕ → ℕ → Run Frames
unfolding pffree_loop
pffree_consecutive m first n = pffree_loop n first 0 m

-- The search of `pfalloc_consecutive`: the start of the run, its last frame and its length.
unfoldable pub find_run : ℕ → Frames → ℕ → ℕ → ℕ → ℕ → Run (ℕ × ℕ × ℕ)
find_run zero m n start curr so_far = out_of_fuel
find_run (suc k) m n start curr so_far =
    let longer = find_run k m n start (m.next curr) (so_far + 1) in
    let anew = find_run k m n curr (m.next curr) 1 in
    if curr == 0
    then ok (start, curr, so_far)
    else if curr == m.prev curr + page_size
    then (if so_far + 1 == n then ok (start, curr, so_far + 1) else longer)
    else anew

-- Takes the run from `start` to `last` out of the list.
unfoldable pub cut_run : Frames → ℕ → ℕ → ℕ → Frames
cut_run m start last n = record m {
  frame_list = if m.prev start == 0 then m.next last else m.frame_list;
  free_frames = sub_u64 m.free_frames n;
  next = if m.prev start == 0 then m.next else update m.next (m.prev start) (m.next last);
  prev = if m.next last == 0 then m.prev else update m.prev (m.next last) (m.prev start);
}

unfoldable pub pfalloc_consecutive : Frames → ℕ → Run (ℕ × Frames)
unfolding pfalloc_one find_run cut_run
pfalloc_consecutive m n =
    if m.frame_list == 0 then ok (0, m) else if n == 1 then ok (pfalloc_one m) else (do
      (start, last, so_far) ← find_run (suc m.free_frames) m n m.frame_list (m.next m.frame_list) 1
      ok (if so_far == n then (start, cut_run m start last n) else (0, m)))

-- A `limine_memmap_entry`: its base, its length, and whether it is of the usable type.
pub record MemmapEntry : Type 0 where
  pub base : ℕ
  pub length : ℕ
  pub usable : Bool

-- The loop over an entry's frames, `n` of them, from the last down.
unfoldable pub insert_frames : ℕ → ℕ → ℕ → Frames → Run Frames
unfolding frame_insert
insert_frames zero base byte m = ok m
insert_frames (suc n) base byte m = do
  m ← frame_insert m (base + byte)
  insert_frames n base (byte - page_size) m

-- `int byte = ent->length - ARCH_PAGE_SIZE` keeps 32 bits; the loop runs while `byte` is not
-- negative.
unfoldable pub insert_entry : MemmapEntry → Frames → Run Frames
unfolding insert_frames
insert_entry ent m =
    let byte = (ent.length + 2 ^ 32 - page_size) % 2 ^ 32 in
    if ent.usable
    then (if ltb byte (2 ^ 31) then insert_frames (byte / page_size + 1) ent.base byte m else ok m)
    else ok m

-- `x64_init_physical_memory` on the memory map's entries, the last first.
unfoldable pub x64_init_physical_memory : List MemmapEntry → Frames → Run Frames
unfolding insert_entry
x64_init_physical_memory [] m = ok m
x64_init_physical_memory (ent ∷ ents) m = do m ← x64_init_physical_memory ents m; insert_entry ent m
