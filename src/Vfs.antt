-- ===== src/Vfs.antt =====
-- fs/vfs.c, fs/ramfs/ramfs.c and include/fs.h: the structures of the file systems, which come from
-- kmalloc, and the tree of mounts. Each kind of structure has a store of its own, by the address. That
-- shows the memory as long as no two structures overlap: kmalloc may hand a block out twice, and a
-- step that is given overlapping structures has no result here.
pub mod Alloc
pub mod Root
pub mod Files
mod Tests
use hurlex_ii.Base.{
  ℕ, zero, suc, ◌+◌, Bool, true, false, ◌&&◌, ◌||◌, leb, Option, none, some, List, [], ◌∷◌, ◌==◌,
  if◌then◌else◌, update,
}
use hurlex_ii.Links.{Links, init_list_head, list_add}
use hurlex_ii.Slob.{Heap, kmalloc, kfree}
use hurlex_ii.Registry.{Registry, add_filesystem}

abbrev pub ramfs_t : ℕ
ramfs_t = 0xA0

-- `s_list` is in the links, at `s_list` behind the address.
pub record SuperBlock : Type 0 where
  pub s_type : ℕ
  pub s_inode_count : ℕ
  pub s_block_count : ℕ
  pub s_block_size : ℕ
  pub s_max_file : ℕ
  pub s_root_inode : ℕ
  pub impl_sb : ℕ
  pub bdev : ℕ
  pub s_root : ℕ
  pub s_ops : ℕ

-- `i_list` is in the links, but nothing here uses it.
pub record Inode : Type 0 where
  pub i_type : ℕ
  pub i_ino : ℕ
  pub i_atime : ℕ
  pub i_mtime : ℕ
  pub i_ctime : ℕ
  pub i_size : ℕ
  pub i_blocks : ℕ
  pub i_bytes : ℕ
  pub impl_in : ℕ
  pub i_lock : ℕ
  pub i_count : ℕ
  pub i_sb : ℕ

-- `d_subdirs` and `d_child` are in the links.
pub record Dentry : Type 0 where
  pub d_count : ℕ
  pub d_lock : ℕ
  pub d_name : List ℕ
  pub d_status : ℕ
  pub d_parent : ℕ
  pub is_mounted : ℕ
  pub d_sb : ℕ
  pub d_inode : ℕ
  pub d_ops : ℕ

pub record VfsMount : Type 0 where
  pub mnt_devname : List ℕ
  pub mnt_sb : ℕ
  pub mnt_root : ℕ
  pub mnt_mountpoint : ℕ
  pub mnt_parent : ℕ

-- The offsets of the list nodes in `filesystem`, `super_block` and `dentry`.
abbrev pub fs_supers : ℕ
fs_supers = 12

abbrev pub s_list : ℕ
s_list = 28

abbrev pub d_subdirs : ℕ
d_subdirs = 140

abbrev pub d_child : ℕ
d_child = 148

-- The state; `vfsmount` is `current->files.vfsmount`.
pub record Vfs : Type 0 where
  pub heap : Heap
  pub registry : Registry
  pub links : Links
  pub super_blocks : ℕ → SuperBlock
  pub inodes : ℕ → Inode
  pub dentries : ℕ → Dentry
  pub mounts : ℕ → VfsMount
  pub vfsmount : ℕ

-- Steps on the state; `none` is a panic, fuel that is not enough for the walk over the heap, or
-- structures that overlap, which the stores do not show.
abbrev pub M : Type 0 → Type 0
M A = Vfs → Option (A × Vfs)

infixl 5 ◌>>=◌ ◌>>◌
abbrev pub ◌>>=◌ : {A B : Type 0} → M A → (A → M B) → M B
◌>>=◌ m f s = elim (m s) [ none ↦ none | some (a, s') ↦ f a s' ]

abbrev pub ◌>>◌ : {B : Type 0} → M (Unit {0}) → M B → M B
m >> k = m >>= λ _. k

abbrev pub modify : (Vfs → Vfs) → M (Unit {0})
modify f s = some (tt, f s)

-- The bytes from an address on, how many of them.
abbrev pub Area : Type 0
Area = ℕ × ℕ

-- Two areas, and all the areas of a list, have no byte in common.
abbrev pub is_apart : Area → Area → Bool
is_apart (a, n) (b, m) = leb (a + n) b || leb (b + m) a

abbrev pub is_apart_from : Area → List Area → Bool
is_apart_from a [] = true
is_apart_from a (b ∷ bs) = is_apart a b && is_apart_from a bs

abbrev pub are_apart : List Area → Bool
are_apart [] = true
are_apart (a ∷ bs) = is_apart_from a bs && are_apart bs

abbrev pub require : Bool → M (Unit {0})
require true s = some (tt, s)
require false s = none

-- `kmalloc(sizeof ...)` with the assertion that follows it, and `kfree` with the one before it.
abbrev pub alloc_struct : (fuel size : ℕ) → M ℕ
alloc_struct fuel size s = elim (kmalloc fuel size s.heap) [
  | none ↦ none
  | some (p, h) ↦ if p == 0 then none else some (p, record s { heap = h })
]

abbrev pub free_struct : (p : ℕ) → M (Unit {0})
free_struct p s = if p == 0 then none else some (tt, record s { heap = kfree p s.heap })

pub alloc_super_block : (fuel : ℕ) → M ℕ
alloc_super_block fuel = alloc_struct fuel 48

pub alloc_super_block_ops : (fuel : ℕ) → M ℕ
alloc_super_block_ops fuel = alloc_struct fuel 16

pub alloc_inode : (fuel : ℕ) → M ℕ
alloc_inode fuel = alloc_struct fuel 56

pub alloc_inode_ops : (fuel : ℕ) → M ℕ
alloc_inode_ops fuel = alloc_struct fuel 20

pub alloc_dentry : (fuel : ℕ) → M ℕ
alloc_dentry fuel = alloc_struct fuel 172

pub alloc_dentry_ops : (fuel : ℕ) → M ℕ
alloc_dentry_ops fuel = alloc_struct fuel 4

pub alloc_file : (fuel : ℕ) → M ℕ
alloc_file fuel = alloc_struct fuel 1052

pub alloc_file_ops : (fuel : ℕ) → M ℕ
alloc_file_ops fuel = alloc_struct fuel 20

pub free_super_block : (sb : ℕ) → M (Unit {0})
free_super_block sb = free_struct sb

pub free_super_block_ops : (sb_ops : ℕ) → M (Unit {0})
free_super_block_ops sb_ops = free_struct sb_ops

pub free_inode : (inode : ℕ) → M (Unit {0})
free_inode inode = free_struct inode

pub free_inode_ops : (inode_ops : ℕ) → M (Unit {0})
free_inode_ops inode_ops = free_struct inode_ops

pub free_dentry : (dentry : ℕ) → M (Unit {0})
free_dentry dentry = free_struct dentry

pub free_dentry_ops : (dentry_ops : ℕ) → M (Unit {0})
free_dentry_ops dentry_ops = free_struct dentry_ops

pub free_file : (file : ℕ) → M (Unit {0})
free_file file = free_struct file

pub free_file_ops : (file_ops : ℕ) → M (Unit {0})
free_file_ops file_ops = free_struct file_ops
