-- ===== src/Ext2/Nodes.antt =====
-- What `ext2_node_from_id` of kernel/src/generic/fs/ext2.c leaves of the node it fills.
use fors_kernel.Prelude.{ℕ, ◌≡◌, refl, Option, drop, List, Run, ◌>>=◌, deref, ◌+◌, ◌*◌}
use fors_kernel.Prelude.Int.{ℤ, pos, ◌-ℤ◌}
use fors_kernel.Prelude.Post.{Post, returns, Post-bind, Post-self, Post-if}
use fors_kernel.Str.{eq_int}
use fors_kernel.Vfs.{Fsnode}
use fors_kernel.Store.{Cache, get_store_by_id}
use fors_kernel.Ext2.{
  fill_node, field, get_sb, blk_sz, sz_ino_struct, ino_per_group, quotient_long, remainder_long,
  byte2blk, blk2lba, segment, blk_bytes, inode_blk, byte_in_seg, seg_sz_of, ext2_node_from_id,
}

-- Two nodes differ in their owner, times and number at most.
abbrev pub IsSameNode : Fsnode → Fsnode → Type 0
IsSameNode n m =
    (n.type ≡ m.type)
    × (n.perms ≡ m.perms)
    × (n.mountpoint ≡ m.mountpoint)
    × (n.ref_count ≡ m.ref_count)
    × (n.child ≡ m.child)

same : (n : Fsnode) → IsSameNode n n
same n = (refl, refl, refl, refl, refl)

-- Whatever a run returns, as the rest meets the postcondition for every value.
any :
    {A B : Type 0} {Q : B → Type 0} (m : Run A) (f : A → Run B)
    → ((a : A) → Post Q (f a))
    → Post Q (m >>= f)
any m f next = Post-bind f (Post-self m) λ a _. next a

fill_node-IsSameNode :
    (id : ℤ) (ino : List ℕ) (node : Fsnode)
    → Post (λ n. IsSameNode n node × (n.internal_id ≡ id)) (fill_node id ino node)
fill_node-IsSameNode id ino node = any (field 2 2 ino) _ λ uid. any (field 8 4 ino) _ λ access.
    any (field 12 4 ino) _ λ create. any (field 16 4 ino) _ λ modify.
      any (field 24 2 ino) _ λ gid. any (field 108 4 ino) _ λ read. returns (same node, refl)

-- Whatever the disk and the number, where ext2_node_from_id returns, the node has the type, the
-- permissions, the mountpoint, the reference count and the children that it had; where it returns 0,
-- the node has the number.
pub ext2_node_from_id-IsSameNode :
    {D : Type 0} (kalloc : ℕ → Option (List ℕ)) (s : Cache D) (dev : ℤ) (id : ℤ) (node : Fsnode)
    → Post
        (λ r. IsSameNode r.1 node × (r.0 ≡ pos 0 → r.1.internal_id ≡ id))
        (ext2_node_from_id kalloc s dev id node)
unfolding ext2_node_from_id
ext2_node_from_id-IsSameNode kalloc s dev id node = any (get_sb kalloc s dev) _ λ (found_sb, s).
    any (deref found_sb) _ λ sb. any (blk_sz sb) _ λ blksz. any (sz_ino_struct sb) _ λ size.
      any (ino_per_group sb) _ λ per. any (quotient_long (id -ℤ pos 1) per) _ λ blk_group.
        any (remainder_long (id -ℤ pos 1) per) _ λ ind. any (byte2blk blksz 1024) _ λ first_blk.
          any (blk2lba kalloc s dev (1 + first_blk)) _ λ (table_seg, s).
            any (segment kalloc s dev table_seg) _ λ (ret, table, s).
              Post-if (eq_int ret (pos 0)) (returns (same node, λ e. cc)) (
                any (deref table) _ λ table. any (field (blk_group * 32 + 8) 4 table) _ λ first.
                  any (blk_bytes blksz) _ λ n.
                    any (blk2lba kalloc s dev (inode_blk n first ind size)) _ λ (lba, s).
                      any (deref (get_store_by_id s dev)) _ λ found.
                        any (seg_sz_of kalloc s found.1) _ λ seg.
                          any (segment kalloc s dev lba) _ λ (ret, ino_seg, s).
                            any (deref ino_seg) _ λ bytes.
                              Post-bind _
                                (fill_node-IsSameNode id
                                  (drop (byte_in_seg n first ind size lba seg) bytes) node)
                                λ filled (i, e). returns (i, λ _. e))
