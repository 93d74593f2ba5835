-- ===== src/Ext2.antt =====
-- The second extended filesystem, kernel/src/generic/fs/ext2.c, over the cache of blocks: the
-- superblock, the blocks and where an inode stands. The structures of include/fors/fs/ext2.h are
-- packed, so a field is a number of bytes at an offset, the low byte first.

pub mod Place
pub mod Nodes
pub mod Stubs
use fors_kernel.Prelude.{
  ℕ, zero, suc, ◌+◌, ◌-◌, ◌*◌, ◌/◌, ◌%◌, ◌^◌, Option, none, some, List, [], ◌∷◌, drop, ltb, leb,
  ◌==◌, if◌then◌else◌, get_elem?, Run, ok, fault, ◌>>=◌, deref,
}
use fors_kernel.Prelude.Int.{ℤ, pos, negsuc, ◌-ℤ◌, as_size}
use fors_kernel.Str.{eq_int}
use fors_kernel.Vfs.{Fsnode, Mount}
use fors_kernel.Store.{Store, Cache, get_store_by_id, type_of, bc_get}

-- A field of `width` bytes, read from its first byte on.
unfoldable pub read_le : ℕ → List ℕ → Run ℕ
read_le zero bytes = ok 0
read_le (suc width) [] = fault
read_le (suc width) (b ∷ bytes) = do rest ← read_le width bytes; ok (b + 256 * rest)

abbrev pub field : ℕ → ℕ → List ℕ → Run ℕ
field offset width bytes = read_le width (drop offset bytes)

-- `ext2_superblock_t`
abbrev pub n_blks : List ℕ → Run ℕ
n_blks sb = field 4 4 sb

abbrev pub blk_sz : List ℕ → Run ℕ
blk_sz sb = field 24 4 sb

abbrev pub blks_per_group : List ℕ → Run ℕ
blks_per_group sb = field 32 4 sb

abbrev pub ino_per_group : List ℕ → Run ℕ
ino_per_group sb = field 40 4 sb

abbrev pub vers_major : List ℕ → Run ℕ
vers_major sb = field 76 4 sb

abbrev pub sz_ino_struct : List ℕ → Run ℕ
sz_ino_struct sb = field 88 2 sb

-- `a / b` and `a % b`, which have no value for 0.
abbrev pub quotient : ℕ → ℕ → Run ℕ
quotient a b = if b == 0 then fault else ok (a / b)

abbrev pub remainder : ℕ → ℕ → Run ℕ
remainder a b = if b == 0 then fault else ok (a % b)

-- The same of two `long`s, which round towards 0, as a `size_t`.
abbrev pub quotient_long : ℤ → ℕ → Run ℕ
quotient_long (pos a) b = quotient a b
quotient_long (negsuc a) b = do q ← quotient (suc a) b; ok (as_size (pos 0 -ℤ pos q))

abbrev pub remainder_long : ℤ → ℕ → Run ℕ
remainder_long (pos a) b = remainder a b
remainder_long (negsuc a) b = do r ← remainder (suc a) b; ok (as_size (pos 0 -ℤ pos r))

-- `1024 << blksz` on an `int`, a fault where it does not fit.
unfoldable pub blk_bytes : ℕ → Run ℕ
blk_bytes blksz = if leb 21 blksz then fault else ok (1024 * 2 ^ blksz)

unfoldable pub byte2blk : ℕ → ℕ → Run ℕ
unfolding blk_bytes
byte2blk blksz byte = do n ← blk_bytes blksz; quotient byte n

unfoldable pub blk2byte : ℕ → ℕ → Run ℕ
unfolding blk_bytes
blk2byte blksz blk = do n ← blk_bytes blksz; ok (blk * n % 2 ^ 64)

-- The place of an inode with index `ind` of its group: the block of the table, which begins at block
-- `first`, and the byte on the disk.
unfoldable pub inode_blk : ℕ → ℕ → ℕ → ℕ → ℕ
inode_blk n first ind size = (first + (ind * size % 2 ^ 64) / n) % 2 ^ 64

unfoldable pub inode_byte : ℕ → ℕ → ℕ → ℕ → ℕ
unfolding inode_blk
inode_byte n first ind size = (inode_blk n first ind size * n + (ind * size % 2 ^ 64) % n) % 2 ^ 64

-- Where the inode begins in the segment `lba`, of `seg` bytes.
abbrev pub byte_in_seg : ℕ → ℕ → ℕ → ℕ → ℕ → ℕ → ℕ
byte_in_seg n first ind size lba seg =
    (inode_byte n first ind size + 2 ^ 64 - lba * seg % 2 ^ 64) % 2 ^ 64

-- What `ext2_node_from_id` takes from an inode; what it prints reaches to `sz_hi`.
abbrev pub fill_node : ℤ → List ℕ → Fsnode → Run Fsnode
fill_node id ino node = do
  uid ← field 2 2 ino
  access ← field 8 4 ino
  create ← field 12 4 ino
  modify ← field 16 4 ino
  gid ← field 24 2 ino
  _ ← field 108 4 ino
  ok (record node {
    access_time = pos access;
    create_time = pos create;
    mod_time = pos modify;
    group = pos gid;
    user = pos uid;
    internal_id = id;
  })

module _ {D : Type 0} (kalloc : ℕ → Option (List ℕ)) where
  abbrev pub seg_sz_of : Cache D → Store → Run ℕ
  seg_sz_of s st = do type ← type_of s st; ok type.seg_sz

  -- The bytes of the superblock's segment, none for NULL.
  unfoldable pub get_sb : Cache D → ℤ → Run (Option (List ℕ) × Cache D)
  unfolding get_store_by_id bc_get
  get_sb s dev = elim (get_store_by_id s dev) [
    | none ↦ ok (none, s)
    | some (i, st) ↦ do
      seg ← seg_sz_of s st
      lba ← quotient 1024 seg
      (ret, buf, s) ← bc_get kalloc s dev lba
      if eq_int ret (pos 0)
          then ok (none, s)
          else (do b ← deref buf; sb ← deref (get_elem? s.buffers b); ok (some sb, s))
  ]

  -- The first segment of a block, `(size_t)-1` without a store; a NULL superblock is followed.
  unfoldable pub blk2lba : Cache D → ℤ → ℕ → Run (ℕ × Cache D)
  unfolding get_store_by_id get_sb blk2byte
  blk2lba s dev blk = elim (get_store_by_id s dev) [
    | none ↦ ok (2 ^ 64 - 1, s)
    | some (i, st) ↦ do
      (sb, s) ← get_sb s dev
      sb ← deref sb
      blksz ← blk_sz sb
      byte ← blk2byte blksz blk
      seg ← seg_sz_of s st
      lba ← quotient byte seg
      ok (lba, s)
  ]

  -- The sum is of 32 bits; the quotient is an `int`.
  unfoldable pub n_blkgroups : Cache D → ℤ → Run (ℤ × Cache D)
  unfolding get_sb
  n_blkgroups s dev = do
    (sb, s) ← get_sb s dev
    elim sb [
      | none ↦ ok (negsuc 0, s)
      | some sb ↦ do
        n ← n_blks sb
        per ← blks_per_group sb
        groups ← quotient ((n + (per + 2 ^ 32 - 1)) % 2 ^ 32) per
        ok (if ltb groups (2 ^ 31) then pos groups else negsuc (2 ^ 32 - 1 - groups), s)
    ]

  -- On the number of `ext2_type`.
  unfoldable pub ext2_initmnt : ℕ → Cache D → Mount → Run (ℤ × Mount × Cache D)
  unfolding get_store_by_id get_sb
  ext2_initmnt ext2_type s mnt = elim (get_store_by_id s mnt.dev) [
    | none ↦ ok (negsuc 0, mnt, s)
    | some _ ↦ do
      (sb, s) ← get_sb s mnt.dev
      sb ← deref sb
      version ← vers_major sb
      ok (
          if version == 0
          then (negsuc 0, mnt, s)
          else (pos 0, record mnt { fs = some ext2_type; root_fsnode = pos 2 }, s))
  ]

  -- The bytes of a segment that `bc_get` gives, and its status.
  abbrev pub segment : Cache D → ℤ → ℕ → Run (ℤ × Option (List ℕ) × Cache D)
  segment s dev lba = do
    (ret, buf, s) ← bc_get kalloc s dev lba
    ok (ret, elim buf [ none ↦ none | some b ↦ get_elem? s.buffers b ], s)

  -- On a node mounted on the device `dev`, and an id above the least. The status of the last `bc_get` is
  -- not looked at.
  unfoldable pub ext2_node_from_id : Cache D → ℤ → ℤ → Fsnode → Run (ℤ × Fsnode × Cache D)
  unfolding ◌-ℤ◌ get_sb blk2lba byte2blk blk_bytes inode_blk inode_byte get_store_by_id
  ext2_node_from_id s dev id node = do
    (sb, s) ← get_sb s dev
    sb ← deref sb
    blksz ← blk_sz sb
    size ← sz_ino_struct sb
    per ← ino_per_group sb
    blk_group ← quotient_long (id -ℤ pos 1) per
    ind_in_grp ← remainder_long (id -ℤ pos 1) per
    first_blk ← byte2blk blksz 1024
    (table_seg, s) ← blk2lba s dev (1 + first_blk)
    (ret, table, s) ← segment s dev table_seg
    if eq_int ret (pos 0) then ok (negsuc 0, node, s) else (do
      table ← deref table
      first ← field (blk_group * 32 + 8) 4 table
      n ← blk_bytes blksz
      (lba, s) ← blk2lba s dev (inode_blk n first ind_in_grp size)
      found ← deref (get_store_by_id s dev)
      seg ← seg_sz_of s found.1
      (ret, ino_seg, s) ← segment s dev lba
      bytes ← deref ino_seg
      node ← fill_node id (drop (byte_in_seg n first ind_in_grp size lba seg) bytes) node
      ok (pos 0, node, s))
