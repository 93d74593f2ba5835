-- ===== src/Tests/Memory.antt =====
-- A pool of frames and a buddy allocator at concrete addresses.
use fors_kernel.Prelude.{◌≡◌, refl, [], ◌∷◌, replicate, set, arith, ok}
use fors_kernel.Frames.{Frames, update, frame_insert, pfalloc_one, pffree_one}
use fors_kernel.Frames.Insert.{IsPool}
use fors_kernel.Frames.Pool.{frame_insert_lem, pfalloc_one_lem, pffree_one-pfalloc_one}
use fors_kernel.Heap.{BuddyAllocator}

-- Two free frames.
abbrev two_frames : Frames
two_frames = record {
  frame_list = 4096;
  free_frames = 2;
  next = update (λ a. 0) 4096 12288;
  prev = update (λ a. 0) 12288 4096;
}

two_frames-IsPool : IsPool two_frames (4096 ∷ 12288 ∷ [])
two_frames-IsPool = record {
  chain = (refl, refl, (refl, refl, refl));
  ascending = (omega arith, (omega arith, tt));
  counted = refl;
}

frame_insert_lem_example :
    (m' : Frames) × (frame_insert two_frames 8192 ≡ ok m') × IsPool m' (4096 ∷ 8192 ∷ 12288 ∷ [])
frame_insert_lem_example =
    frame_insert_lem two_frames 8192 (4096 ∷ 12288 ∷ []) two_frames-IsPool (omega arith)
      (omega arith, (omega arith, tt)) (omega arith)

pfalloc_one_lem_example :
    let (frame, m') = pfalloc_one two_frames in (frame ≡ 4096) × IsPool m' (12288 ∷ [])
pfalloc_one_lem_example =
    pfalloc_one_lem two_frames 4096 (12288 ∷ []) two_frames-IsPool (omega arith)

pffree_one-pfalloc_one_example :
    let (frame, m') = pfalloc_one two_frames in
    (m'' : Frames) × (pffree_one m' frame ≡ ok m'') × IsPool m'' (4096 ∷ 12288 ∷ [])
pffree_one-pfalloc_one_example =
    pffree_one-pfalloc_one two_frames 4096 (12288 ∷ []) two_frames-IsPool (omega arith)

-- Blocks of order 6; the one at 64 is free, the one at 128 is not.
abbrev one_free : BuddyAllocator
one_free = record {
  min_order = 5;
  max_order = 10;
  size = 1024;
  memory_start = 0;
  order_lists = set (replicate 32 0) 1 64;
  order = λ a. 6;
  taken = update (λ a. 1) 64 0;
  next = λ a. 0;
  prev = λ a. 0;
}
