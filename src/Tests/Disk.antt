-- ===== src/Tests/Disk.antt =====
-- The second extended filesystem on a concrete disk of segments of 512 bytes, whose blocks have 1024.
use fors_kernel.Prelude.{
  ℕ, suc, ◌≡◌, refl, Option, some, none, List, [], ◌∷◌, ◌++◌, replicate, ◌==◌, ok, Run, fault,
  if◌then◌else◌, c_string,
}
use fors_kernel.Prelude.Int.{ℤ, pos, ◌-ℤ◌}
use fors_kernel.Vfs.{FsnType, Mount, Fsnode}
use fors_kernel.Store.{StoreType, Cache}
use fors_kernel.Prelude.Post.{Post}
use fors_kernel.Ext2.Nodes.{IsSameNode, ext2_node_from_id-IsSameNode}
use fors_kernel.Ext2.{ext2_initmnt, read_le, ext2_node_from_id}

-- 31 blocks, 8192 blocks and 8 inodes of 128 bytes to a group, version 1.
abbrev superblock : List ℕ
superblock =
    replicate 4 0
    ++ (31 ∷ replicate 28 0)
    ++ (32 ∷ 0 ∷ 0 ∷ replicate 4 0)
    ++ (8 ∷ replicate 35 0)
    ++ (1 ∷ replicate 11 0)
    ++ (128 ∷ replicate 20 0)

-- The table of the first group of inodes begins at block 5.
abbrev group_table : List ℕ
group_table = replicate 8 0 ++ (5 ∷ replicate 23 0)

abbrev inode : List ℕ
inode =
    0 ∷ 0 ∷ 7 ∷ 0 ∷ replicate 4 0
    ++ (1 ∷ 0 ∷ 0 ∷ 0 ∷ 2 ∷ 0 ∷ 0 ∷ 0 ∷ 3 ∷ replicate 7 0)
    ++ (9 ∷ replicate 90 0)

abbrev disk : StoreType ℕ
disk = record {
  name = c_string "disk";
  seg_sz = 512;
  init = λ d id cfg. (pos 1, d);
  rd = λ d id addr block. (
    pos 1,
    if addr == 2 then superblock else if addr == 4 then group_table else replicate 128 0 ++ inode,
    suc d,
  );
  wr = λ d id addr block. (pos 1, suc d);
}

abbrev cold : Cache ℕ
cold = record {
  bc_cached_count = 0;
  store_types = disk ∷ [];
  stores =
      record { type = some 0; bc_first = [] } ∷ replicate 7 (record { type = none; bc_first = [] });
  buffers = [];
  devices = 0;
}

abbrev memory : ℕ → Option (List ℕ)
memory n = some []

abbrev status : {A B : Type 0} → Run (ℤ × A × B) → Option ℤ
status (ok (z, _, _)) = some z
status _ = none

-- Mounting the disk.
mounts :
    status {A = Mount} {B = Cache ℕ}
      (ext2_initmnt memory 0 cold (record { dev = pos 0; fs = none; root_fsnode = pos 0 }))
    ≡ some (pos 0)
unfolding ext2_initmnt read_le
mounts = refl

abbrev blank : Fsnode
blank = record {
  mountpoint = none;
  internal_id = pos 0;
  type = FsnType.empty;
  perms = 0;
  user = pos 0;
  group = pos 0;
  access_time = pos 0;
  mod_time = pos 0;
  create_time = pos 0;
  ref_count = 0;
  child = none;
}

-- Node 2 of the disk: the third segment finds the cache full, and what `ext2_node_from_id` follows
-- has no value.
finds_no_inode : ext2_node_from_id memory cold (pos 0) (pos 2) blank ≡ fault
unfolding ext2_node_from_id read_le ◌-ℤ◌
finds_no_inode = refl

-- The same where the superblock is cached and does not count.
abbrev warm : Cache ℕ
warm = record cold {
  stores =
      record { type = some 0; bc_first = record { addr = 2; buf = 0 } ∷ [] }
      ∷ replicate 7 (record { type = none; bc_first = [] });
  buffers = superblock ∷ [];
}

abbrev node_of : {A : Type 0} → Run (ℤ × Fsnode × A) → Option Fsnode
node_of (ok (_, node, _)) = some node
node_of _ = none

finds_inode :
    node_of {A = Cache ℕ} (ext2_node_from_id memory warm (pos 0) (pos 2) blank)
    ≡ some (record blank {
      internal_id = pos 2;
      user = pos 7;
      group = pos 9;
      access_time = pos 1;
      create_time = pos 2;
      mod_time = pos 3;
    })
unfolding ext2_node_from_id read_le ◌-ℤ◌
finds_inode = refl

-- A node that was free counts as free still.
ext2_node_from_id-IsSameNode_example :
    Post
      (λ r. IsSameNode r.1 blank × (r.0 ≡ pos 0 → r.1.internal_id ≡ pos 2))
      (ext2_node_from_id memory warm (pos 0) (pos 2) blank)
ext2_node_from_id-IsSameNode_example =
    ext2_node_from_id-IsSameNode memory warm (pos 0) (pos 2) blank
