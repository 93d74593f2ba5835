-- ===== src/Ext2/Place.antt =====
-- Where ext2.c finds an inode on the disk.
use fors_kernel.Prelude.{ℕ, suc, ◌+◌, ◌*◌, ◌/◌, ◌%◌, ◌^◌, ◌<◌, ◌≤◌, ◌≡◌, refl, arith}
use fors_kernel.Ext2.{inode_blk, inode_byte}
use native.Mathlib.Nat.{div-add-mod', mod-eq_of_lt}

le-mul_suc : (a m : ℕ) → a ≤ a * suc m
le-mul_suc a m = omega arith

-- For blocks of at least one byte, and where the place fits into 64 bits, an inode's byte on the
-- disk, which `ext2_node_from_id` calculates from its block and its place in it, is the first byte of
-- the group's inode table and the sizes of the inodes before it.
pub inode_byte_lem :
    (m first ind size : ℕ)
    → first * suc m + ind * size < 2 ^ 64
    → inode_byte (suc m) first ind size ≡ first * suc m + ind * size
unfolding inode_byte inode_blk
inode_byte_lem m first ind size fits =
    let off = ind * size in
    let q = off / suc m in
    let split : q * suc m + off % suc m ≡ off = div-add-mod' off (suc m) in
    let less : first ≤ first * suc m = le-mul_suc first m in
    let less' : q ≤ q * suc m = le-mul_suc q m in
    let off_fits : off % 2 ^ 64 ≡ off = mod-eq_of_lt (omega arith) in
    let blk_fits : (first + q) % 2 ^ 64 ≡ first + q = mod-eq_of_lt (omega arith) in
    let dist : (first + q) * suc m ≡ first * suc m + q * suc m = omega arith in
    let sum : (first + q) * suc m + off % suc m ≡ first * suc m + off = omega arith in
    let all_fits : (first * suc m + off) % 2 ^ 64 ≡ first * suc m + off = mod-eq_of_lt fits in
    rw (inode_byte, inode_blk, off_fits, blk_fits, sum, all_fits) refl
