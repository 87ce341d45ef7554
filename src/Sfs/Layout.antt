-- ===== src/Sfs/Layout.antt =====
-- fs/sfs/sfs.c: where the parts of the file system stand.
use hurlex_ii.Base.{
  ℕ, zero, suc, ◌+◌, ◌-◌, ◌*◌, ◌%◌, ◌≤◌, ◌<◌, ◌≡◌, refl, sym, subst, inl, inr, Bool-cases, ==_iff,
  false, none, arith, ◌==◌, ltb, u32_mod,
}
use hurlex_ii.Mbr.{PartitionInfo}
use hurlex_ii.Sfs.{SfsSuperBlock, sfs_mkfs, find_partition, make_layout, sfs_t}

-- The super block, the two maps, the inodes and the blocks follow one another without gaps from the
-- map of inodes on, and each map has a byte for each of its items.
record IsLaidOut (b : SfsSuperBlock) (start : ℕ) : Type 0 where
  pub super_block : start + 4 < b.im_start
  pub block_map : b.bm_start ≡ b.im_start + b.im_secs
  pub inodes : b.in_start ≡ b.bm_start + b.bm_secs
  pub blocks : b.bl_start ≡ b.in_start + b.in_secs
  pub inodes_mapped : b.s_inode_count ≤ b.im_secs * 512
  pub blocks_mapped : b.s_block_count ≤ b.bm_secs * 512
  pub inodes_fit : b.s_inode_count ≤ b.in_secs
  pub blocks_fit : b.s_block_count * 4 ≤ b.bl_secs

-- On a partition of at least 12 sectors that ends 2^24 sectors or more below 2^32 sfs_mkfs
-- lays the parts out in order and without overlap, with a byte in the maps for each inode and block.
sfs_mkfs-IsLaidOut :
    (start stop : ℕ)
    → start + 12 ≤ stop
    → stop + 0x1000000 < u32_mod
    → IsLaidOut (sfs_mkfs start stop 2048) start
unfolding sfs_mkfs
sfs_mkfs-IsLaidOut start stop p q = record {
  super_block = omega arith;
  block_map = omega arith;
  inodes = omega arith;
  blocks = omega arith;
  inodes_mapped = omega arith;
  blocks_mapped = omega arith;
  inodes_fit = omega arith;
  blocks_fit = omega arith;
}

-- The maps are not counted in the sectors that are shared out: the blocks end as many sectors behind
-- the end of the partition as the maps have, less the remainder of the division by ten, and so
-- behind its end on every partition of 20492 sectors or more.
pub sfs_mkfs_overruns :
    (start stop : ℕ)
    → start + 12 ≤ stop
    → stop + 0x1000000 < u32_mod
    → let b = sfs_mkfs start stop 2048 in
      (b.bl_start + b.bl_secs + (stop - start - 12) % 10 ≡ stop + b.im_secs + b.bm_secs)
      × (20492 ≤ stop - start → stop < b.bl_start + b.bl_secs)
unfolding sfs_mkfs
sfs_mkfs_overruns start stop p q = (omega arith, λ h. omega arith)

find_partition_last :
    (n k : ℕ) (parts : ℕ → PartitionInfo)
    → k < n
    → (parts k).partition_type ≡ sfs_t
    → ((j : ℕ) → j < n → (parts j).partition_type ≡ sfs_t → j ≤ k)
    → find_partition n parts ≡ ((parts k).start_sector, (parts k).nr_sectors)
unfolding find_partition
find_partition_last zero k parts h t u = absurd (omega arith)
find_partition_last (suc n) k parts h t u = elim (Bool-cases (n == k)) [
  | inl e ↦
      let z : n ≡ k = ground arith in
      subst (λ j. find_partition (suc j) parts ≡ ((parts k).start_sector, (parts k).nr_sectors))
        (sym z) (rw t refl)
  | inr ne ↦
      let f : ((parts n).partition_type == sfs_t) ≡ false =
        elim (Bool-cases ((parts n).partition_type == sfs_t)) [
          | inl y ↦ absurd (let w = u n (omega arith) ((==_iff _ _).0 y) in ground arith)
          | inr ne ↦ ne
        ] in
      rw f (find_partition_last n k parts (ground arith) t (λ j l. u j (omega arith)))
]

-- The count of the sectors is taken for the end: if the last partition of the file system's type has
-- no more sectors than lie before it, no file system is laid out.
pub make_layout_needs :
    (parts : ℕ → PartitionInfo) (k : ℕ)
    → k < 4
    → (parts k).partition_type ≡ sfs_t
    → ((j : ℕ) → j < 4 → (parts j).partition_type ≡ sfs_t → j ≤ k)
    → (parts k).nr_sectors ≤ (parts k).start_sector
    → make_layout parts ≡ none
unfolding make_layout
make_layout_needs parts k h t u l =
    let c : ltb (parts k).start_sector (parts k).nr_sectors ≡ false = ground arith in
    rw (find_partition_last 4 k parts h t u) (ground (arith, c))
