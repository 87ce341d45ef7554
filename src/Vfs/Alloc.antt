-- ===== src/Vfs/Alloc.antt =====
-- fs/vfs.c: the structures that the heap of mm/slob.c gives.
use hurlex_ii.Base.{
  ℕ, ◌≤◌, ◌<◌, ◌≡◌, ◌≢◌, ◌⊎◌, true, false, Option, none, some, List, arith, inl, inr, length,
}
use hurlex_ii.Links.Ring.{has}
use hurlex_ii.Slob.{Heap, request}
use hurlex_ii.Slob.Tiles.{IsHeap}
use hurlex_ii.Slob.Kmalloc.{Served, kmalloc-Served}
use hurlex_ii.Vfs.{
  Vfs, alloc_struct, alloc_super_block, alloc_super_block_ops, alloc_inode, alloc_inode_ops,
  alloc_dentry, alloc_dentry_ops, alloc_file, alloc_file_ops,
}

-- A structure of `size` bytes was asked for: the call panics and no free block is longer than the
-- request, or it returns a block that was free and is long enough, in a heap that is still tiled.
abbrev pub Allocated : (s : Vfs) (lo hi size : ℕ) (bs : List ℕ) → Option (ℕ × Vfs) → Type 0
Allocated s lo hi size bs r =
    ((r ≡ none) × ((v : ℕ) → has v bs ≡ true → s.heap.used v ≡ false → s.heap.len v ≤ request size))
    ⊎ ((p : ℕ) × (h : Heap) × (r ≡ some (p, record s { heap = h }))
        × (p ≢ 0)
        × Served s.heap h (request size) p bs
        × ((bs' : List ℕ) × IsHeap h lo hi bs'))

alloc_struct-Allocated :
    (fuel size lo hi : ℕ) (s : Vfs) (bs : List ℕ)
    → IsHeap s.heap lo hi bs
    → length bs < fuel
    → Allocated s lo hi size bs (alloc_struct fuel size s)
alloc_struct-Allocated fuel size lo hi s bs v f =
    let (p, h, e, t, o) = kmalloc-Served fuel size lo hi s.heap bs v f in
    elim o [
      | inl none_left ↦ inl (ground (arith, e, none_left.0), none_left.2)
      | inr served ↦
          let nz : p ≢ 0 = λ z. omega (arith, served.address, z) in
          inr (p, h, ground (arith, e, nz), nz, served, t)
    ]

-- On a tiled heap and with more fuel than blocks each of the eight calls for a structure ends: it
-- panics when no free block is longer than the request, or it returns the address of a block that
-- was free and holds the structure, and the heap stays tiled; nothing but the heap changes.
pub alloc_structs-Allocated :
    (fuel lo hi : ℕ) (s : Vfs) (bs : List ℕ)
    → IsHeap s.heap lo hi bs
    → length bs < fuel
    → Allocated s lo hi 48 bs (alloc_super_block fuel s)
      × Allocated s lo hi 16 bs (alloc_super_block_ops fuel s)
      × Allocated s lo hi 56 bs (alloc_inode fuel s)
      × Allocated s lo hi 20 bs (alloc_inode_ops fuel s)
      × Allocated s lo hi 172 bs (alloc_dentry fuel s)
      × Allocated s lo hi 4 bs (alloc_dentry_ops fuel s)
      × Allocated s lo hi 1052 bs (alloc_file fuel s)
      × Allocated s lo hi 20 bs (alloc_file_ops fuel s)
unfolding alloc_super_block alloc_super_block_ops alloc_inode alloc_inode_ops alloc_dentry
    alloc_dentry_ops alloc_file alloc_file_ops
alloc_structs-Allocated fuel lo hi s bs v f =
    let a = λ (size : ℕ). alloc_struct-Allocated fuel size lo hi s bs v f in
    (a 48, a 16, a 56, a 20, a 172, a 4, a 1052, a 20)
