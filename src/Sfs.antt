-- ===== src/Sfs.antt =====
-- fs/sfs/sfs.c and sfs.h: the layout of the simple file system on its partition. What reads and
-- writes the maps and the blocks is stubs in the code.
pub mod Layout
mod Tests
use hurlex_ii.Base.{
  ℕ, zero, suc, ◌+◌, ◌*◌, ◌/◌, ◌%◌, ◌^◌, ◌&&◌, Option, none, some, ◌==◌, ltb, if◌then◌else◌, add32,
  sub32, mul32,
}
use hurlex_ii.Registry.{Registry, add_filesystem}
use hurlex_ii.Mbr.{PartitionInfo, part, partition_count}

abbrev pub sfs_t : ℕ
sfs_t = 0xAA

abbrev pub super_block_offset : ℕ
super_block_offset = 4

abbrev pub inodemap_offset : ℕ
inodemap_offset = 12

abbrev pub block_size : ℕ
block_size = 2048

-- `P_BLOCK_MAP_SIZE` and `PP_BLOCK_MAP_SIZE`.
abbrev pub p_block_map_size : ℕ
p_block_map_size = 32

abbrev pub pp_block_map_size : ℕ
pp_block_map_size = 32

abbrev pub max_file_size : ℕ
max_file_size = p_block_map_size * block_size + pp_block_map_size * (block_size / 4) * block_size

pub record SfsSuperBlock : Type 0 where
  pub s_type : ℕ
  pub s_inode_count : ℕ
  pub s_block_count : ℕ
  pub s_block_size : ℕ
  pub s_max_file : ℕ
  pub s_root_inode : ℕ
  pub in_secs : ℕ
  pub bl_secs : ℕ
  pub im_start : ℕ
  pub im_secs : ℕ
  pub bm_start : ℕ
  pub bm_secs : ℕ
  pub in_start : ℕ
  pub bl_start : ℕ

-- The usable sectors of the partition.
abbrev pub all_sec : (start_sec end_sec : ℕ) → ℕ
all_sec start_sec end_sec = sub32 (sub32 end_sec start_sec) inodemap_offset

-- `size` is the parameter `block_size` of the code.
pub sfs_mkfs : (start_sec end_sec size : ℕ) → SfsSuperBlock
sfs_mkfs start_sec end_sec size =
    let ins = all_sec start_sec end_sec / 10 in
    let bls = mul32 (all_sec start_sec end_sec / 10) 9 in
    let im = add32 start_sec inodemap_offset in
    let ims = add32 (ins / 512) 1 in
    let bm = add32 im ims in
    let bms = add32 (bls / size) 1 in
    record {
      s_type = sfs_t;
      s_inode_count = ins;
      s_block_count = bls / (size / 512);
      s_block_size = size;
      s_max_file = max_file_size;
      s_root_inode = 0;
      in_secs = ins;
      bl_secs = bls;
      im_start = im;
      im_secs = ims;
      bm_start = bm;
      bm_secs = bms;
      in_start = add32 bm bms;
      bl_start = add32 (add32 bm bms) ins;
    }

-- The loop over the first `n` entries of the table: the start and the count of the last that has the
-- type of the file system.
pub find_partition : (n : ℕ) → (parts : ℕ → PartitionInfo) → ℕ × ℕ
find_partition zero parts = (0, 0)
find_partition (suc n) parts =
    if (parts n).partition_type == sfs_t
    then ((parts n).start_sector, (parts n).nr_sectors)
    else find_partition n parts

-- The layout that is computed, if any.
pub make_layout : (parts : ℕ → PartitionInfo) → Option SfsSuperBlock
unfolding find_partition
make_layout parts =
    let (start_sec, end_sec) = find_partition partition_count parts in
    if ltb 0 start_sec && ltb 0 end_sec && ltb start_sec end_sec
    then some (sfs_mkfs start_sec end_sec block_size)
    else none

-- `fs_sfs` is the address of the structure; that it could not be added is only printed.
pub sfs_init :
    (fuel fs_sfs : ℕ)
    → (parts : ℕ → PartitionInfo) → Registry
    → Option (Registry × Option SfsSuperBlock)
unfolding make_layout
sfs_init fuel fs_sfs parts s = elim (add_filesystem fuel fs_sfs s) [
  | none ↦ none
  | some (ret, s') ↦ some (s', make_layout parts)
]
