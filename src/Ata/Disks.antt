-- ===== src/Ata/Disks.antt =====
-- The disks as a type of store, `ata_store_type` of ata.c, and what the cache of blocks of store.c
-- gives over it.
use fors_kernel.Prelude.{
  ℕ, zero, suc, ◌+◌, ◌*◌, ◌/◌, ◌%◌, ◌≡◌, refl, false, Option, none, some, List, [], ◌∷◌, ◌++◌, ◌==◌,
  if◌then◌else◌, arith, length, get_or, get_elem?, set, drop, c_string, ok,
}
use mathlib.Core.List.{append-nil}
use fors_kernel.Prelude.Int.{pos}
use fors_kernel.Ports.{Bus}
use fors_kernel.Ata.{AtaDevice, done, st_init, st_rd, st_wr, ata_read_sector}
use fors_kernel.Store.{
  type_of, Store, StoreType, Cache, max_cached_blocks, entry_size, get_store_by_id, find_block,
  load, bc_get,
}

-- The drive of each store, in its `dev`, and the devices behind the ports.
pub record Disks (D : Type 0) : Type 0 where
  pub drives : ℕ → AtaDevice
  pub device : D

-- The bytes of words in memory, and the words of bytes, the low byte first.
unfoldable pub bytes_of : List ℕ → List ℕ
bytes_of [] = []
bytes_of (w ∷ ws) = w % 256 ∷ w / 256 % 256 ∷ bytes_of ws

unfoldable pub words_of : List ℕ → List ℕ
words_of (low ∷ high ∷ bytes) = (low + 256 * high) ∷ words_of bytes
words_of _ = []

-- A sector has 512 bytes; a read that fails leaves the buffer as it was.
unfoldable pub ata_store_type : {D : Type 0} → Bus D → StoreType (Disks D)
unfolding st_init st_rd st_wr bytes_of words_of
ata_store_type bus = record {
  name = c_string "atapio";
  seg_sz = 512;
  init = λ d id cfg.
      let (drive, device) = st_init bus (get_or cfg 0 0) (get_or cfg 1 0) d.device in
      (pos 1, record { drives = λ i. if i == id then drive else d.drives i; device = device });
  rd = λ d id addr block.
      let (status, words, device) = st_rd bus (d.drives id) addr d.device in
      (
        pos status,
        if status == 0 then block else bytes_of words ++ drop 512 block,
        record d { device = device },
      );
  wr = λ d id addr block.
      let (status, device) = st_wr bus (d.drives id) addr (words_of block) d.device in
      (pos status, record d { device = device });
}

drop_whole : {A : Type 0} (xs : List A) (n : ℕ) → length xs ≡ n → drop n xs ≡ []
drop_whole [] zero e = refl
drop_whole [] (suc n) e = refl
drop_whole (x ∷ xs) zero e = absurd (omega arith)
drop_whole (x ∷ xs) (suc n) e = drop_whole xs n (omega arith)

at_end : {A : Type 0} (xs : List A) (x : A) → get_elem? (xs ++ (x ∷ [])) (length xs) ≡ some x
at_end [] x = refl
at_end (y ∷ ys) x = at_end ys x

st_rd-done :
    {D : Type 0} (bus : Bus D) (dev : AtaDevice) (addr : ℕ) (words : List ℕ) (d d' : D)
    → ata_read_sector bus dev addr d ≡ done words d'
    → st_rd bus dev addr d ≡ (1, words, d')
unfolding st_rd
st_rd-done bus dev addr words d d' e = rw (st_rd, e) refl

seg_sz-disk : {D : Type 0} (bus : Bus D) → (ata_store_type bus).seg_sz ≡ 512
unfolding ata_store_type
seg_sz-disk bus = refl

-- A read that succeeds, into a buffer of a sector.
rd-done :
    {D : Type 0} (bus : Bus D) (ds : Disks D) (i addr : ℕ) (block words : List ℕ) (d : D)
    → length block ≡ 512
    → ata_read_sector bus (ds.drives i) addr ds.device ≡ done words d
    → (ata_store_type bus).rd ds i addr block ≡ (pos 1, bytes_of words, record ds { device = d })
unfolding ata_store_type
rd-done bus ds i addr block words d len e =
    let got = st_rd-done bus (ds.drives i) addr words ds.device d e in
    rw (got, drop_whole block 512 len, append-nil) refl

-- Where the cache has room and not the block, the store's type is the disks', and `kalloc` gives an
-- entry and a buffer of 512 bytes: if the sector can be read, `bc_get` returns 1 and a new buffer
-- with the bytes of its words, and the devices are as the read left them.
pub bc_get-sector :
    {D : Type 0} (bus : Bus D) (kalloc : ℕ → Option (List ℕ)) (s : Cache (Disks D)) (i t addr : ℕ)
    (st : Store) (entry block words : List ℕ) (d : D)
    → get_elem? s.stores i ≡ some st
    → st.type ≡ some t
    → get_elem? s.store_types t ≡ some (ata_store_type bus)
    → find_block addr st.bc_first ≡ none
    → (s.bc_cached_count == max_cached_blocks) ≡ false
    → kalloc entry_size ≡ some entry
    → kalloc 512 ≡ some block
    → length block ≡ 512
    → ata_read_sector bus (s.devices.drives i) addr s.devices.device ≡ done words d
    → (s' : Cache (Disks D)) × (bc_get kalloc s (pos i) addr
        ≡ ok (pos 1, some (length s.buffers), s'))
      × (get_elem? s'.buffers (length s.buffers) ≡ some (bytes_of words))
      × (s'.devices.device ≡ d)
unfolding bc_get get_store_by_id load
bc_get-sector bus kalloc s i t addr st entry block words d at type known absent room has_entry
      has_block len read =
    let typed : type_of s st ≡ ok (ata_store_type bus) = rw (type, known) refl in
    (
      record s {
        bc_cached_count = s.bc_cached_count + 1;
        stores =
            set s.stores i (record st {
              bc_first = record { addr = addr; buf = length s.buffers } ∷ st.bc_first;
            });
        buffers = s.buffers ++ (bytes_of words ∷ []);
        devices = record s.devices { device = d };
      },
      rw
          (
            bc_get,
            get_store_by_id,
            at,
            absent,
            room,
            load,
            has_entry,
            typed,
            seg_sz-disk bus,
            has_block,
            rd-done bus s.devices i addr block words d len read,
          )
          refl,
      at_end s.buffers (bytes_of words),
      refl,
    )
