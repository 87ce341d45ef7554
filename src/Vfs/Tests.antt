-- ===== src/Vfs/Tests.antt =====
-- fs/vfs.c: the theorems on a heap of one free block of 4000 bytes.
use hurlex_ii.Base.{
  ℕ, ◌≡◌, refl, false, ◌==◌, if◌then◌else◌, [], ◌∷◌, arith, Option, none, some, pos, update,
}
use hurlex_ii.Links.{list_add, list_add_between, list_empty}
use hurlex_ii.Slob.{Heap, kmalloc, find_block, request, split_chunk}
use hurlex_ii.Slob.Tiles.{IsHeap}
use hurlex_ii.Registry.{Registry, add_filesystem, add_char_dev, is_taken}
use hurlex_ii.Vfs.{
  Vfs, alloc_super_block, alloc_super_block_ops, alloc_inode, alloc_inode_ops, alloc_dentry,
  alloc_dentry_ops, alloc_file, alloc_file_ops,
}
use hurlex_ii.Vfs.Alloc.{Allocated, alloc_structs-Allocated}
use hurlex_ii.Vfs.Root.{Allocates, IsRooted, vfs_init, vfs_init-IsRooted}

abbrev one_block : Heap
one_block = record {
  links = record { next = λ p. if p == 0 then 1000 else 0; prev = λ p. if p == 0 then 1000 else 0 };
  used = λ b. false;
  len = λ b. 4000;
}

abbrev no_file_systems : Registry
no_file_systems = record { head = 0; next = λ p. 0; name = λ p. 114 ∷ [] }

abbrev fresh : Vfs
fresh = record {
  heap = one_block;
  registry = no_file_systems;
  links = record { next = λ p. 0; prev = λ p. 0 };
  super_blocks = λ p. record {
    s_type = 0;
    s_inode_count = 0;
    s_block_count = 0;
    s_block_size = 0;
    s_max_file = 0;
    s_root_inode = 0;
    impl_sb = 0;
    bdev = 0;
    s_root = 0;
    s_ops = 0;
  };
  inodes = λ p. record {
    i_type = 0;
    i_ino = 0;
    i_atime = 0;
    i_mtime = 0;
    i_ctime = 0;
    i_size = 0;
    i_blocks = 0;
    i_bytes = 0;
    impl_in = 0;
    i_lock = 0;
    i_count = 0;
    i_sb = 0;
  };
  dentries = λ p. record {
    d_count = 0;
    d_lock = 0;
    d_name = [];
    d_status = 0;
    d_parent = 0;
    is_mounted = 0;
    d_sb = 0;
    d_inode = 0;
    d_ops = 0;
  };
  mounts = λ p. record {
    mnt_devname = [];
    mnt_sb = 0;
    mnt_root = 0;
    mnt_mountpoint = 0;
    mnt_parent = 0;
  };
  vfsmount = 0;
}

one_block-IsHeap : IsHeap one_block 1000 5012 (1000 ∷ [])
one_block-IsHeap = record {
  ring = record { path = omega arith; distinct = (refl, (refl, tt)) };
  tiles = omega arith;
  not_null = omega arith;
  fits_word = omega arith;
  fits_field = omega arith;
}

alloc_structs-Allocated_example :
    Allocated fresh 1000 5012 48 (1000 ∷ []) (alloc_super_block 4 fresh)
    × Allocated fresh 1000 5012 16 (1000 ∷ []) (alloc_super_block_ops 4 fresh)
    × Allocated fresh 1000 5012 56 (1000 ∷ []) (alloc_inode 4 fresh)
    × Allocated fresh 1000 5012 20 (1000 ∷ []) (alloc_inode_ops 4 fresh)
    × Allocated fresh 1000 5012 172 (1000 ∷ []) (alloc_dentry 4 fresh)
    × Allocated fresh 1000 5012 4 (1000 ∷ []) (alloc_dentry_ops 4 fresh)
    × Allocated fresh 1000 5012 1052 (1000 ∷ []) (alloc_file 4 fresh)
    × Allocated fresh 1000 5012 20 (1000 ∷ []) (alloc_file_ops 4 fresh)
alloc_structs-Allocated_example =
    alloc_structs-Allocated 4 1000 5012 fresh (1000 ∷ []) one_block-IsHeap (omega arith)

-- The heap that is left, of a walk that ends.
abbrev left_by : Option (ℕ × Heap) → Heap
left_by none = one_block
left_by (some (p, h)) = h

h1 : Heap
h1 = left_by (kmalloc 6 20 one_block)

h2 : Heap
h2 = left_by (kmalloc 6 48 h1)

h3 : Heap
h3 = left_by (kmalloc 6 56 h2)

h4 : Heap
h4 = left_by (kmalloc 6 172 h3)

four_structs : Allocates 6 1012 1068 1140 1220 one_block h1 h2 h3 h4
unfolding h1 h2 h3 h4 kmalloc find_block request split_chunk list_add list_add_between list_empty
four_structs = (refl, refl, refl, refl, omega arith, omega arith, omega arith, omega arith)

abbrev one_file_system : Registry
one_file_system = record no_file_systems { head = 500; next = update no_file_systems.next 500 0 }

registered : add_filesystem 6 500 no_file_systems ≡ some (pos 0, one_file_system)
unfolding add_filesystem add_char_dev is_taken
registered = refl

vfs_init-IsRooted_example :
    (s' : Vfs) × (vfs_init 6 500 600 fresh ≡ some (tt, s'))
    × IsRooted s' 500 600 1012 1068 1140 1220
    × (s'.heap ≡ h4)
    × (s'.registry ≡ one_file_system)
vfs_init-IsRooted_example =
    vfs_init-IsRooted 6 500 600 1012 1068 1140 1220 fresh h1 h2 h3 h4 (pos 0) one_file_system
      four_structs registered refl
