-- ===== src/Vfs/Root.antt =====
-- fs/vfs.c and fs/ramfs/ramfs.c: vfs_init, which makes the root of the mount tree.
use hurlex_ii.Base.{true, List, ℕ, ◌+◌, ◌≡◌, ◌≢◌, refl, none, some, [], ◌∷◌, arith, update, ℤ}
use hurlex_ii.Links.{Links, init_list_head, list_add}
use hurlex_ii.Links.Ring.{IsRing, Distinct}
use hurlex_ii.Links.Fresh.{three_lists, three_lists-IsRing}
use hurlex_ii.Slob.{Heap, kmalloc}
use hurlex_ii.Registry.{Registry, add_filesystem}
use hurlex_ii.Vfs.{
  Area, are_apart, require, SuperBlock, Inode, Dentry, Vfs, M, ◌>>=◌, ◌>>◌, modify, alloc_struct,
  alloc_super_block, alloc_inode, alloc_dentry, ramfs_t, fs_supers, s_list, d_subdirs, d_child,
}

-- A structure that bzero has filled with null bytes.
abbrev zero_super_block : SuperBlock
zero_super_block = record {
  s_type = 0;
  s_inode_count = 0;
  s_block_count = 0;
  s_block_size = 0;
  s_max_file = 0;
  s_root_inode = 0;
  impl_sb = 0;
  bdev = 0;
  s_root = 0;
  s_ops = 0;
}

abbrev zero_inode : Inode
zero_inode = record {
  i_type = 0;
  i_ino = 0;
  i_atime = 0;
  i_mtime = 0;
  i_ctime = 0;
  i_size = 0;
  i_blocks = 0;
  i_bytes = 0;
  impl_in = 0;
  i_lock = 0;
  i_count = 0;
  i_sb = 0;
}

abbrev set_links : (Links → Links) → Vfs → Vfs
set_links f s = record s { links = f s.links }

abbrev set_super_block : (sb : ℕ) → SuperBlock → Vfs → Vfs
set_super_block sb b s = record s { super_blocks = update s.super_blocks sb b }

-- `add_filesystem`, whose result is not looked at.
abbrev register : (fuel fs : ℕ) → M (Unit {0})
register fuel fs s = elim (add_filesystem fuel fs s.registry) [
  | none ↦ none
  | some (ret, r) ↦ some (tt, record s { registry = r })
]

-- `sb_ops` is the address of `ramfs_sb_ops`.
unfoldable pub ramfs_read_super : (sb_ops sb : ℕ) → Vfs → Vfs
ramfs_read_super sb_ops sb s =
    set_super_block sb (record (s.super_blocks sb) { s_type = ramfs_t; s_ops = sb_ops }) s

-- The assignments to the root dentry; its lock and its operations keep what was in the memory.
abbrev root_dentry : (sb inode : ℕ) → Dentry → Dentry
root_dentry sb inode d = record d {
  d_count = 0;
  d_status = 1;
  d_parent = 0;
  d_sb = sb;
  d_inode = inode;
  is_mounted = 0;
  d_name = b'/' ∷ [];
}

-- The file system of ramfs.c, and the four structures of the tree.
abbrev structures : (fs_ramfs mount sb inode dentry : ℕ) → List Area
structures fs_ramfs mount sb inode dentry =
    (fs_ramfs, 24) ∷ (mount, 20) ∷ (sb, 48) ∷ (inode, 56) ∷ (dentry, 172) ∷ []

-- `fs_ramfs` and `sb_ops` are the addresses of the two structures of ramfs.c.
pub init_mount_tree : (fuel fs_ramfs sb_ops mount : ℕ) → M (Unit {0})
unfolding ramfs_read_super
init_mount_tree fuel fs_ramfs sb_ops mount = do
  register fuel fs_ramfs
  modify (set_links (init_list_head (fs_ramfs + fs_supers)))
  sb ← alloc_super_block fuel
  modify (set_super_block sb zero_super_block)
  modify (set_links (list_add (sb + s_list) (fs_ramfs + fs_supers)))
  modify (ramfs_read_super sb_ops sb)
  inode ← alloc_inode fuel
  modify λ s. record s { inodes = update s.inodes inode (record zero_inode { i_sb = sb }) }
  dentry ← alloc_dentry fuel
  require (are_apart (structures fs_ramfs mount sb inode dentry))
  modify (set_links (init_list_head (dentry + d_subdirs)))
  modify (set_links (init_list_head (dentry + d_child)))
  modify λ s. record s {
    dentries = update s.dentries dentry (root_dentry sb inode (s.dentries dentry));
  }
  modify λ s. set_super_block sb (record (s.super_blocks sb) { s_root = dentry }) s
  modify λ s. record s {
    mounts = update s.mounts mount record {
      mnt_devname = b'R' ∷ b'A' ∷ b'M' ∷ [];
      mnt_sb = sb;
      mnt_root = dentry;
      mnt_mountpoint = dentry;
      mnt_parent = 0;
    };
  }

-- `kmalloc(sizeof(struct vfsmount))`, the tree, and the task that runs.
pub vfs_init : (fuel fs_ramfs sb_ops : ℕ) → M (Unit {0})
vfs_init fuel fs_ramfs sb_ops = do
  mount ← alloc_struct fuel 20
  init_mount_tree fuel fs_ramfs sb_ops mount
  modify λ s. record s { vfsmount = mount }

-- The tree: a mount of one super block, whose root has no parent, no children and no mount above it,
-- and which is the only one in the list of its file system.
pub record IsRooted (s : Vfs) (fs_ramfs sb_ops m sb inode dentry : ℕ) : Type 0 where
  pub current : s.vfsmount ≡ m
  pub mounted : (s.mounts m).mnt_sb ≡ sb
  pub root : (s.mounts m).mnt_root ≡ dentry
  pub mountpoint : (s.mounts m).mnt_mountpoint ≡ dentry
  pub no_mount_above : (s.mounts m).mnt_parent ≡ 0
  pub root_of_block : (s.super_blocks sb).s_root ≡ dentry
  pub kind : (s.super_blocks sb).s_type ≡ ramfs_t
  pub operations : (s.super_blocks sb).s_ops ≡ sb_ops
  pub block_of_root : (s.dentries dentry).d_sb ≡ sb
  pub inode_of_root : (s.dentries dentry).d_inode ≡ inode
  pub no_parent : (s.dentries dentry).d_parent ≡ 0
  pub named : (s.dentries dentry).d_name ≡ b'/' ∷ []
  pub block_of_inode : (s.inodes inode).i_sb ≡ sb
  pub only_block : IsRing s.links (fs_ramfs + fs_supers) ((sb + s_list) ∷ [])
  pub no_children : IsRing s.links (dentry + d_subdirs) []
  pub no_siblings : IsRing s.links (dentry + d_child) []

-- The four calls of kmalloc that succeed, one after the other.
abbrev pub Allocates : (fuel m sb inode dentry : ℕ) (h0 h1 h2 h3 h4 : Heap) → Type 0
Allocates fuel m sb inode dentry h0 h1 h2 h3 h4 =
    (kmalloc fuel 20 h0 ≡ some (m, h1))
    × (kmalloc fuel 48 h1 ≡ some (sb, h2))
    × (kmalloc fuel 56 h2 ≡ some (inode, h3))
    × (kmalloc fuel 172 h3 ≡ some (dentry, h4))
    × (m ≢ 0)
    × (sb ≢ 0)
    × (inode ≢ 0)
    × (dentry ≢ 0)

-- Then the list nodes in them are different.
nodes_Distinct :
    (fs_ramfs m sb inode dentry : ℕ)
    → are_apart (structures fs_ramfs m sb inode dentry) ≡ true
    → Distinct
        ((fs_ramfs + fs_supers) ∷ (sb + s_list) ∷ (dentry + d_subdirs) ∷ (dentry + d_child) ∷ [])
nodes_Distinct fs_ramfs m sb inode dentry o =
    (ground (arith, o), (ground (arith, o), (ground (arith, o), (refl, tt))))

-- When the registration of the root file system ends, and the four structures are allocated at
-- places where no two of them overlap, nor one of them the file system, vfs_init ends with the tree
-- of the root, whether or not the file system could be registered.
pub vfs_init-IsRooted :
    (fuel fs_ramfs sb_ops m sb inode dentry : ℕ) (s : Vfs) (h1 h2 h3 h4 : Heap) (ret : ℤ)
    (r : Registry)
    → Allocates fuel m sb inode dentry s.heap h1 h2 h3 h4
    → add_filesystem fuel fs_ramfs s.registry ≡ some (ret, r)
    → are_apart (structures fs_ramfs m sb inode dentry) ≡ true
    → (s' : Vfs) × (vfs_init fuel fs_ramfs sb_ops s ≡ some (tt, s'))
      × IsRooted s' fs_ramfs sb_ops m sb inode dentry
      × (s'.heap ≡ h4)
      × (s'.registry ≡ r)
unfolding vfs_init init_mount_tree alloc_super_block alloc_inode alloc_dentry
vfs_init-IsRooted fuel fs_ramfs sb_ops m sb inode dentry s h1 h2 h3 h4 ret r a g o =
    let (l1, l2, l3) =
      three_lists-IsRing s.links (fs_ramfs + fs_supers) (sb + s_list) (dentry + d_subdirs)
        (dentry + d_child) (nodes_Distinct fs_ramfs m sb inode dentry o) in
    let u1 = update s.super_blocks sb zero_super_block in
    let u2 = update u1 sb (record (u1 sb) { s_type = ramfs_t; s_ops = sb_ops }) in
    let s' : Vfs = record s {
      heap = h4;
      registry = r;
      links =
          three_lists s.links (fs_ramfs + fs_supers) (sb + s_list) (dentry + d_subdirs)
            (dentry + d_child);
      super_blocks = update u2 sb (record (u2 sb) { s_root = dentry });
      inodes = update s.inodes inode (record zero_inode { i_sb = sb });
      dentries = update s.dentries dentry (root_dentry sb inode (s.dentries dentry));
      mounts = update s.mounts m record {
        mnt_devname = b'R' ∷ b'A' ∷ b'M' ∷ [];
        mnt_sb = sb;
        mnt_root = dentry;
        mnt_mountpoint = dentry;
        mnt_parent = 0;
      };
      vfsmount = m;
    } in
    (
      s',
      ground (arith, a, g, o),
      record {
        current = refl;
        mounted = ground arith;
        root = ground arith;
        mountpoint = ground arith;
        no_mount_above = ground arith;
        root_of_block = ground arith;
        kind = ground arith;
        operations = ground arith;
        block_of_root = ground arith;
        inode_of_root = ground arith;
        no_parent = ground arith;
        named = ground arith;
        block_of_inode = ground arith;
        only_block = l1;
        no_children = l2;
        no_siblings = l3;
      },
      refl,
      refl,
    )
