-- ===== src/Store/Full.antt =====
-- The full cache of store.c.
use fors_kernel.Prelude.{
  ℕ, zero, suc, ◌+◌, ◌<◌, ◌≡◌, refl, ◌⊎◌, inl, inr, Bool-cases, true, Option, some, none, List, [],
  ◌∷◌, ◌==◌, get_elem?, arith, ok,
}
use fors_kernel.Prelude.Int.{pos}
use fors_kernel.Str.{eq_int}
use fors_kernel.Store.{
  BcEntry, Store, StoreType, Cache, max_cached_blocks, max_stores, get_store_by_id, find_block,
  type_of, evict, bc_get,
}

-- Store `j` is there, and where it has a cached block, so are its type and the block's buffer.
abbrev pub CanSave : {D : Type 0} → Cache D → ℕ → Type 0
CanSave {D} s j =
    (st : Store) × (get_elem? s.stores j ≡ some st)
    × ((bc : BcEntry) (bcs : List BcEntry)
        → st.bc_first ≡ bc ∷ bcs
        → (type : StoreType D) × (type_of s st ≡ ok type)
          × (block : List ℕ) × (get_elem? s.buffers bc.buf ≡ some block))

first_cached :
    (st : Store)
    → (st.bc_first ≡ []) ⊎ ((bc : BcEntry) × (bcs : List BcEntry) × (st.bc_first ≡ bc ∷ bcs))
first_cached st = on_list st.bc_first
  where
    on_list :
        (l : List BcEntry) → (l ≡ []) ⊎ ((bc : BcEntry) × (bcs : List BcEntry) × (l ≡ bc ∷ bcs))
    on_list [] = inl refl
    on_list (bc ∷ bcs) = inr (bc, bcs, refl)

module _ {D : Type 0} where
  evict-count :
      (i n : ℕ) (s : Cache D)
      → ((j : ℕ) → j < i + n → CanSave s j)
      → (s' : Cache D) × (evict i n s ≡ ok s') × (s'.bc_cached_count ≡ s.bc_cached_count)
  unfolding evict
  evict-count i zero s saves = (s, refl, refl)
  evict-count i (suc n) s saves =
      let (st, at, save) = saves i (omega arith) in
      let rest =
        λ (d : D). evict-count (i + 1) n (record s { devices = d }) λ j lt. saves j (omega arith) in
      rw (evict, at)
        (elim (first_cached st) [
          | inl e ↦ rw e (rest s.devices)
          | inr (bc, bcs, e) ↦
              let (type, e_type, block, e_block) = save bc bcs e in
              let written = type.wr s.devices i bc.addr block in
              rw (e, e_type, e_block)
                (elim (Bool-cases (eq_int written.0 (pos 0))) [
                  | inl failed ↦ rw failed (rest written.1)
                  | inr saved ↦ rw saved (_, refl, refl)
                ])
        ])

-- With a full cache, whose stores are there and can each name the type and the buffer of their first
-- block, `bc_get` of a block that is not cached returns 0 and no buffer, and leaves the count of
-- cached blocks at its bound.
pub bc_get_full :
    {D : Type 0} (kalloc : ℕ → Option (List ℕ)) (s : Cache D) (i addr : ℕ) (st : Store)
    → get_elem? s.stores i ≡ some st
    → find_block addr st.bc_first ≡ none
    → s.bc_cached_count ≡ max_cached_blocks
    → ((j : ℕ) → j < max_stores → CanSave s j)
    → (s' : Cache D) × (bc_get kalloc s (pos i) addr ≡ ok (pos 0, none, s'))
      × (s'.bc_cached_count ≡ max_cached_blocks)
unfolding bc_get get_store_by_id
bc_get_full kalloc s i addr st at absent full saves =
    let (s', e, c) = evict-count 0 max_stores s saves in
    let is_full : (s.bc_cached_count == max_cached_blocks) ≡ true = ground arith in
    (s', rw (bc_get, get_store_by_id, at, absent, is_full, e) refl, cc)
