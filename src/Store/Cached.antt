-- ===== src/Store/Cached.antt =====
-- What `bc_get` of store.c leaves in the cache.
use fors_kernel.Prelude.{
  set_at, ℕ, ◌≡◌, refl, inl, inr, Option, some, Option-cases, List, ◌==◌, length, get_elem?, arith,
  ok,
}
use fors_kernel.Prelude.Int.{ℤ, pos}
use fors_kernel.Prelude.Post.{Post, returns, Post-bind, Post-self, Post-if, Post-ok}
use fors_kernel.Store.{
  BcEntry, Store, Cache, max_cached_blocks, max_stores, entry_size, get_store_by_id, find_block,
  type_of, evict, load, bc_get,
}

-- The store with number `i` has the block `addr` cached, in the buffer `b`.
abbrev pub IsCached : {D : Type 0} → ℕ → ℕ → ℕ → Cache D → Type 0
IsCached i addr b s =
    (st : Store) × (get_elem? s.stores i ≡ some st)
    × (bc : BcEntry) × (find_block addr st.bc_first ≡ some bc)
    × (bc.buf ≡ b)

-- Where the result has a buffer, the block is cached in it.
abbrev pub CachedIn : {D : Type 0} → ℕ → ℕ → ℤ × Option ℕ × Cache D → Type 0
CachedIn i addr r = (b : ℕ) → r.1 ≡ some b → IsCached i addr b r.2

module _ {D : Type 0} (kalloc : ℕ → Option (List ℕ)) where
  load-CachedIn :
      (s : Cache D) (i : ℕ) (st : Store) (addr : ℕ)
      → get_elem? s.stores i ≡ some st
      → Post (CachedIn i addr) (load kalloc s i st addr)
  unfolding load find_block
  load-CachedIn s i st addr at = elim (Option-cases (kalloc entry_size)) [
    | inl e ↦ rw (load, e) (returns λ b q. absurd (cc))
    | inr (entry, e) ↦
        rw (load, e)
          (Post-bind _ (Post-self (type_of s st)) λ type _.
            elim (Option-cases (kalloc type.seg_sz)) [
              | inl e' ↦ rw e' (returns λ b q. absurd (cc))
              | inr (block, e') ↦ rw e' (
                  returns λ b q. (
                    _,
                    set_at s.stores i st _ at,
                    record { addr = addr; buf = length s.buffers },
                    ground arith,
                    cc,
                  ))
            ])
  ]

  -- `bc_get` of a store, whatever its status, leaves the block cached where it gives a buffer.
  bc_get-CachedIn :
      (s : Cache D) (i addr : ℕ) → Post (CachedIn i addr) (bc_get kalloc s (pos i) addr)
  unfolding bc_get get_store_by_id
  bc_get-CachedIn s i addr = elim (Option-cases (get_elem? s.stores i)) [
    | inl e ↦ rw (bc_get, get_store_by_id, e) (returns λ b q. absurd (cc))
    | inr (st, e) ↦
        rw (bc_get, get_store_by_id, e)
          (elim (Option-cases (find_block addr st.bc_first)) [
            | inr (bc, f) ↦ rw f (returns λ b q. (st, e, bc, f, cc))
            | inl f ↦ rw f (
                Post-if (s.bc_cached_count == max_cached_blocks)
                  (Post-bind _ (Post-self (evict 0 max_stores s))
                    λ s' _. returns λ b q. absurd (cc))
                  (load-CachedIn s i st addr e))
          ])
  ]

  hit :
      (s : Cache D) (i addr b : ℕ)
      → IsCached i addr b s
      → bc_get kalloc s (pos i) addr ≡ ok (pos 1, some b, s)
  unfolding bc_get get_store_by_id
  hit s i addr b (st, e, bc, f, q) = rw (bc_get, get_store_by_id, e, f, q) refl

-- Where `bc_get` gives a buffer, whatever its status, the next `bc_get` of the same block returns 1
-- and the same buffer, and changes nothing.
pub bc_get_again :
    {D : Type 0} (kalloc kalloc' : ℕ → Option (List ℕ)) (s s' : Cache D) (i addr : ℕ) (z : ℤ)
    (b : ℕ)
    → bc_get kalloc s (pos i) addr ≡ ok (z, some b, s')
    → bc_get kalloc' s' (pos i) addr ≡ ok (pos 1, some b, s')
bc_get_again kalloc kalloc' s s' i addr z b h =
    hit kalloc' s' i addr b (Post-ok (bc_get-CachedIn kalloc s i addr) h b refl)
