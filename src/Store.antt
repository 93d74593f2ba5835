-- ===== src/Store.antt =====
-- The block cache, kernel/src/generic/store.c: stores of some type, each with the list of its cached
-- blocks. A buffer is a number; what stands in the buffers is a list. The devices are in a state
-- `D` that only the operations of a store type read and write.
pub mod Cached
pub mod Full
use fors_kernel.Prelude.{
  ℕ, zero, suc, ◌+◌, Bool, true, false, not, Option, none, some, List, [], ◌∷◌, ◌==◌, if◌then◌else◌,
  get_elem?, get_or, set, Run, ok, fault, out_of_fuel, ◌>>=◌, deref, length, ◌++◌,
}
use fors_kernel.Prelude.Int.{ℤ, pos, negsuc, ltb_ℤ}
use fors_kernel.Str.{eq_int, strncmp}
use fors_kernel.Vfs.Slots.{is_null, first_free}

abbrev pub max_cached_blocks : ℕ
max_cached_blocks = 2

abbrev pub max_stores : ℕ
max_stores = 8

abbrev pub max_storetypes : ℕ
max_storetypes = 4

-- `store_type_t`: the operations take the number of the store whose device they use.
pub record StoreType (D : Type 0) : Type 0 where
  pub name : List ℕ
  pub seg_sz : ℕ
  pub init : D → ℕ → List ℕ → ℤ × D
  pub rd : D → ℕ → ℕ → List ℕ → ℤ × List ℕ × D
  pub wr : D → ℕ → ℕ → List ℕ → ℤ × D

-- `bc_entry_t`; `buf` is the number of the buffer that `data` points to.
pub record BcEntry : Type 0 where
  pub addr : ℕ
  pub buf : ℕ

-- `sizeof(bc_entry_t)`
abbrev pub entry_size : ℕ
entry_size = 32

-- `store_t`; `type` is the number of a store type.
pub record Store : Type 0 where
  pub type : Option ℕ
  pub bc_first : List BcEntry

-- The global arrays, the buffers and the devices.
pub record Cache (D : Type 0) : Type 0 where
  pub bc_cached_count : ℕ
  pub store_types : List (StoreType D)
  pub stores : List Store
  pub buffers : List (List ℕ)
  pub devices : D

-- The loop over a store's cached blocks.
unfoldable pub find_block : ℕ → List BcEntry → Option BcEntry
find_block addr [] = none
find_block addr (bc ∷ bcs) = if bc.addr == addr then some bc else find_block addr bcs

module _ {D : Type 0} where
  -- The loop of `find_storetype` from number `i` on.
  unfoldable pub match_type : List ℕ → ℕ → List (StoreType D) → Run ℤ
  match_type name i [] = ok (negsuc 0)
  match_type name i (t ∷ ts) = do
    z ← strncmp name t.name 8
    let rest = match_type name (i + 1) ts
    if eq_int z (pos 0) then ok (pos i) else rest

  unfoldable pub find_storetype : Cache D → List ℕ → Run ℤ
  unfolding match_type
  find_storetype s name = match_type name 0 s.store_types

  unfoldable pub register_storetype : Cache D → StoreType D → ℤ × Cache D
  unfolding first_free
  register_storetype s type =
      elim (first_free (λ (t : StoreType D). get_or t.name 0 0 == 0) s.store_types) [
        | none ↦ (negsuc 0, s)
        | some i ↦ (pos i, record s { store_types = set s.store_types i type })
      ]

  -- The store with its number, or none for NULL.
  unfoldable pub get_store_by_id : Cache D → ℤ → Option (ℕ × Store)
  get_store_by_id s (negsuc i) = none
  get_store_by_id s (pos i) = elim (get_elem? s.stores i) [ none ↦ none | some st ↦ some (i, st) ]

  abbrev pub type_of : Cache D → Store → Run (StoreType D)
  type_of s st = do i ← deref st.type; deref (get_elem? s.store_types i)

  -- The loop over the stores that looks for a block to give up, `n` stores from number `i` on: it
  -- saves the first block it finds and takes it out of its list.
  unfoldable pub evict : ℕ → ℕ → Cache D → Run (Cache D)
  evict i zero s = ok s
  evict i (suc n) s = do
    victim ← deref (get_elem? s.stores i)
    elim victim.bc_first [
      | [] ↦ evict (i + 1) n s
      | bc ∷ bcs ↦ do
        type ← type_of s victim
        block ← deref (get_elem? s.buffers bc.buf)
        let (saved, devices) = type.wr s.devices i bc.addr block
        let s = record s { devices = devices }
        let rest = evict (i + 1) n s
        if eq_int saved (pos 0)
            then rest
            else ok (record s { stores = set s.stores i (record victim { bc_first = bcs }) })
    ]

  -- What `bc_get` does where the block is not cached and there is room: `kalloc` gives the memory of
  -- some size, for an entry and then for a buffer, or none.
  unfoldable pub load :
      (ℕ → Option (List ℕ)) → Cache D → ℕ → Store → ℕ → Run (ℤ × Option ℕ × Cache D)
  load kalloc s i st addr = elim (kalloc entry_size) [
    | none ↦ ok (pos 0, none, s)
    | some entry ↦ do
      type ← type_of s st
      elim (kalloc type.seg_sz) [
        | none ↦ ok (pos 0, none, s)
        | some block ↦ do
          let buf = length s.buffers
          let st = record st { bc_first = record { addr = addr; buf = buf } ∷ st.bc_first }
          let (read, block, devices) = type.rd s.devices i addr block
          ok (
            read,
            some buf,
            record s {
              bc_cached_count = s.bc_cached_count + 1;
              stores = set s.stores i st;
              buffers = s.buffers ++ (block ∷ []);
              devices = devices;
            },
          )
      ]
  ]

  -- The status, the buffer (none where `*buf` is not assigned) and the new state. A full cache gives
  -- up a block and returns 0.
  unfoldable pub bc_get : (ℕ → Option (List ℕ)) → Cache D → ℤ → ℕ → Run (ℤ × Option ℕ × Cache D)
  unfolding get_store_by_id find_block evict load
  bc_get kalloc s id addr = elim (get_store_by_id s id) [
    | none ↦ ok (pos 0, none, s)
    | some (i, st) ↦ elim (find_block addr st.bc_first) [
      | some bc ↦ ok (pos 1, some bc.buf, s)
      | none ↦
          if s.bc_cached_count == max_cached_blocks
          then (do s ← evict 0 max_stores s; ok (pos 0, none, s))
          else load kalloc s i st addr
    ]
  ]

  unfoldable pub bc_put : Cache D → ℤ → ℕ → Run (ℤ × Cache D)
  unfolding get_store_by_id find_block
  bc_put s id addr = elim (get_store_by_id s id) [
    | none ↦ ok (negsuc 0, s)
    | some (i, st) ↦ elim (find_block addr st.bc_first) [
      | none ↦ ok (pos 1, s)
      | some bc ↦ do
        type ← type_of s st
        block ← deref (get_elem? s.buffers bc.buf)
        let (saved, devices) = type.wr s.devices i addr block
        ok (saved, record s { devices = devices })
    ]
  ]

  unfoldable pub register_store : Cache D → List ℕ → List ℕ → Run (ℤ × Cache D)
  unfolding first_free find_storetype
  register_store s storetype cfg = elim (first_free (λ (st : Store). is_null st.type) s.stores) [
    | none ↦ ok (negsuc 0, s)
    | some id ↦ do
      stid ← find_storetype s storetype
      elim stid [
        | negsuc e ↦ ok (negsuc 0, s)
        | pos t ↦ do
          type ← deref (get_elem? s.store_types t)
          let (ready, devices) = type.init s.devices id cfg
          let new = record s {
            stores = set s.stores id (record { type = some t; bc_first = [] });
            devices = devices;
          }
          ok (if eq_int ready (pos 0) then negsuc 0 else pos id, new)
      ]
  ]
