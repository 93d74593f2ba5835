-- ===== src/Tests/Devices.antt =====
-- The timer and the block cache at concrete states.
use fors_kernel.Prelude.{
  ℕ, suc, ◌+◌, ◌≡◌, refl, ap, get_elem?, Option, some, List, [], ◌∷◌, replicate, take, none, zero,
  ◌<◌, arith, ok, c_string,
}
use fors_kernel.Prelude.Int.{pos}
use fors_kernel.Timer.{Timer}
use fors_kernel.Timer.Period.{count, calls_by, tick_times, tick_times_lem}
use fors_kernel.Store.{Store, StoreType, Cache, max_stores, find_block, bc_get}
use fors_kernel.Store.Cached.{bc_get_again}
use fors_kernel.Store.Full.{CanSave, bc_get_full}

-- Callback 7 every third tick, after 5 ticks.
abbrev one_handle : Timer
one_handle = record {
  ticks = 5;
  handles = replicate 8 (record { cbk = 7; n = 3 });
  next_handle_ind = 1;
}

tick_times_lem_example :
    let hs = take 1 one_handle.handles in
    (called : List ℕ) × (tick_times 4 one_handle ≡ ok (called, record one_handle { ticks = 9 }))
    × ((c : ℕ) → count c called + calls_by c 5 hs ≡ calls_by c 9 hs)
tick_times_lem_example = tick_times_lem 4 one_handle (omega arith, tt) (omega arith)

-- A type of store whose reads fill the buffer with the address.
abbrev test_type : StoreType ℕ
test_type = record {
  name = c_string "test";
  seg_sz = 2;
  init = λ d id cfg. (pos 1, d);
  rd = λ d id addr block. (pos 1, replicate 2 addr, suc d);
  wr = λ d id addr block. (pos 1, suc d);
}

abbrev one_store : Cache ℕ
one_store = record {
  bc_cached_count = 0;
  store_types = test_type ∷ [];
  stores = record { type = some 0; bc_first = [] } ∷ [];
  buffers = [];
  devices = 0;
}

abbrev memory : ℕ → Option (List ℕ)
memory n = some (replicate n 0)

-- The state behind the read of block 9.
abbrev read_9 : Cache ℕ
read_9 = record {
  bc_cached_count = 1;
  store_types = test_type ∷ [];
  stores = record { type = some 0; bc_first = record { addr = 9; buf = 0 } ∷ [] } ∷ [];
  buffers = (9 ∷ 9 ∷ []) ∷ [];
  devices = 1;
}

bc_get_again_example : bc_get memory read_9 (pos 0) 9 ≡ ok (pos 1, some 0, read_9)
unfolding bc_get
bc_get_again_example = bc_get_again memory memory one_store read_9 0 9 (pos 1) 0 refl

abbrev no_store : Store
no_store = record { type = none; bc_first = [] }

-- The cache full with blocks 9 and 5 of the one store, and seven stores without a type.
abbrev full_stores : List Store
full_stores =
    record {
      type = some 0;
      bc_first = record { addr = 5; buf = 1 } ∷ record { addr = 9; buf = 0 } ∷ [];
    }
    ∷ replicate 7 no_store

abbrev full_cache : Cache ℕ
full_cache = record {
  bc_cached_count = 2;
  store_types = test_type ∷ [];
  stores = full_stores;
  buffers = (9 ∷ 9 ∷ []) ∷ (5 ∷ 5 ∷ []) ∷ [];
  devices = 2;
}

empty_at : (n j : ℕ) → j < n → get_elem? (replicate n no_store) j ≡ some no_store
empty_at zero j lt = absurd (omega arith)
empty_at (suc n) zero lt = refl
empty_at (suc n) (suc j) lt = empty_at n j (omega arith)

full_cache-CanSave : (j : ℕ) → j < max_stores → CanSave full_cache j
full_cache-CanSave zero lt = (
  _,
  refl,
  λ bc bcs e.
      let at : bc.buf ≡ 1 = cc in
      (test_type, refl, 5 ∷ 5 ∷ [], ap (get_elem? full_cache.buffers) at),
)
full_cache-CanSave (suc j) lt = (_, empty_at 7 j (omega arith), λ bc bcs e. absurd (cc))

bc_get_full_example :
    (s' : Cache ℕ) × (bc_get memory full_cache (pos 0) 7 ≡ ok (pos 0, none, s'))
    × (s'.bc_cached_count ≡ 2)
unfolding find_block
bc_get_full_example = bc_get_full memory full_cache 0 7 _ refl refl refl full_cache-CanSave
