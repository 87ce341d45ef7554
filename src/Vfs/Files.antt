-- ===== src/Vfs/Files.antt =====
-- fs/vfs.c and fs/ramfs/ramfs.c: the operations on files and on the root file system that do nothing
-- yet. `fd` is the 32-bit pattern of the int.
use hurlex_ii.Base.{ℕ, ◌==◌, ◌||◌, if◌then◌else◌}
use hurlex_ii.Vfs.{M, alloc_inode, free_inode}

unfoldable pub vfs_open : (filename openflag : ℕ) → ℕ
vfs_open filename openflag = if filename == 0 || openflag == 0 then 0 else 0

unfoldable pub vfs_close : (fd : ℕ) → ℕ
vfs_close fd = fd

unfoldable pub vfs_read : (fd buff size : ℕ) → ℕ
vfs_read fd buff size = if buff == 0 || size == 0 then 0 else fd

unfoldable pub vfs_write : (fd buff size : ℕ) → ℕ
vfs_write fd buff size = if buff == 0 || size == 0 then 0 else fd

pub ramfs_alloc_inode : (fuel sb : ℕ) → M ℕ
ramfs_alloc_inode fuel sb = alloc_inode fuel

pub ramfs_destroy_inode : (inode : ℕ) → M (Unit {0})
ramfs_destroy_inode inode = free_inode inode

pub ramfs_sync_fs : (sb : ℕ) → ℕ
ramfs_sync_fs sb = 0
