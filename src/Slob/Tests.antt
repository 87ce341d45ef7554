-- ===== src/Slob/Tests.antt =====
-- mm/slob.c: the theorems at a heap of three blocks.
use hurlex_ii.Base.{
  ℕ, ◌≤◌, ◌⊎◌, ◌≡◌, refl, true, false, ◌==◌, if◌then◌else◌, List, [], ◌∷◌, arith, some, add32,
}
use hurlex_ii.Links.{Links}
use hurlex_ii.Links.Ring.{has}
use hurlex_ii.Slob.{Heap, header, request, found, kmalloc, kfree, set_used}
use hurlex_ii.Slob.Tiles.{IsHeap}
use hurlex_ii.Slob.Kmalloc.{Served, answer, kmalloc-first_fit, kmalloc-Served, kmalloc_repeats}
use hurlex_ii.Slob.Glue.{Glued}
use hurlex_ii.Slob.Kfree.{kfree-Glued}

-- Blocks of 100, 60 and 500 bytes at 1000, 1112 and 1184; the first is in use.
abbrev links : Links
links = record {
  next = λ p. if p == 0 then 1000 else if p == 1000 then 1112 else if p == 1112 then 1184 else 0;
  prev = λ p. if p == 0 then 1184 else if p == 1184 then 1112 else if p == 1112 then 1000 else 0;
}

abbrev heap : Heap
heap = record {
  links = links;
  used = λ b. b == 1000;
  len = λ b. if b == 1000 then 100 else if b == 1112 then 60 else 500;
}

abbrev blocks : List ℕ
blocks = 1000 ∷ 1112 ∷ 1184 ∷ []

heap-IsHeap : IsHeap heap 1000 1696 blocks
heap-IsHeap = record {
  ring = record { path = omega arith; distinct = (refl, (refl, (refl, (refl, tt)))) };
  tiles = omega arith;
  not_null = omega arith;
  fits_word = omega arith;
  fits_field = omega arith;
}

-- 112 bytes with the header: the first free block is too short, the next is split.
kmalloc-first_fit_example : kmalloc 4 100 heap ≡ some (answer heap 112 (found 1184))
unfolding request
kmalloc-first_fit_example = kmalloc-first_fit 4 100 1000 1696 heap blocks heap-IsHeap (omega arith)

kmalloc-Served_example :
    (p : ℕ) × (s' : Heap) × (kmalloc 4 100 heap ≡ some (p, s'))
    × ((bs : List ℕ) × IsHeap s' 1000 1696 bs)
    × ((p ≡ 0)
          × (s' ≡ heap)
          × ((v : ℕ) → has v blocks ≡ true → heap.used v ≡ false → heap.len v ≤ request 100)
        ⊎ Served heap s' (request 100) p blocks)
kmalloc-Served_example = kmalloc-Served 4 100 1000 1696 heap blocks heap-IsHeap (omega arith)

-- 500 bytes at 1184 have too little to spare for a request of 460 + 12.
kmalloc_repeats_example :
    (s' : Heap) × (kmalloc 4 460 heap ≡ some (add32 1184 header, s'))
    × (s'.used 1184 ≡ false)
    × (kmalloc 4 460 s' ≡ some (add32 1184 header, s'))
unfolding request
kmalloc_repeats_example =
    kmalloc_repeats 4 460 1000 1696 1184 heap blocks heap-IsHeap (omega arith) refl refl

kfree-Glued_example :
    (c : ℕ) × (bs : List ℕ) × IsHeap (kfree 1012 heap) 1000 1696 bs
    × Glued (set_used 1000 false heap) (kfree 1012 heap) 1000 c blocks bs
kfree-Glued_example = kfree-Glued heap 1000 1696 1000 blocks heap-IsHeap refl refl

abbrev empty : Heap
empty = record { links = record { next = λ p. 0; prev = λ p. 0 }; used = λ b. false; len = λ b. 0 }
