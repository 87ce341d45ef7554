-- ===== src/Sfs/Tests.antt =====
-- fs/sfs/sfs.c: the theorems on a partition from sector 2048 on.
use hurlex_ii.Base.{◌+◌, ◌-◌, ◌≤◌, ◌<◌, ◌≡◌, arith}
use hurlex_ii.Sfs.{sfs_mkfs}
use hurlex_ii.Sfs.Layout.{sfs_mkfs_overruns}

sfs_mkfs_overruns_example :
    ((sfs_mkfs 2048 40960 2048).bl_start + (sfs_mkfs 2048 40960 2048).bl_secs + 0
      ≡ 40960 + (sfs_mkfs 2048 40960 2048).im_secs + (sfs_mkfs 2048 40960 2048).bm_secs)
    × (20492 ≤ 40960 - 2048
        → 40960 < (sfs_mkfs 2048 40960 2048).bl_start + (sfs_mkfs 2048 40960 2048).bl_secs)
sfs_mkfs_overruns_example = sfs_mkfs_overruns 2048 40960 (omega arith) (omega arith)
