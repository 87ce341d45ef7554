-- ===== src/Slob/Kfree.antt =====
-- mm/slob.c: `slob_init` makes a tiled heap, and `kfree` keeps it one.
use hurlex_ii.Base.{
  ℕ, ◌+◌, ◌-◌, ◌*◌, ◌^◌, ◌<◌, ◌≡◌, ◌≢◌, refl, sym, true, false, some, List, [], ◌∷◌, arith, ◌==◌,
  sub32, ne→==_false,
}
use mathlib.Core.Path.{subst}
use hurlex_ii.Links.{list_add}
use hurlex_ii.Links.Cut.{has-split}
use hurlex_ii.Links.Ring.{has, IsRing}
use hurlex_ii.Links.Ops.{list_add-IsRing}
use hurlex_ii.Slob.{
  Heap, slob_head, header, slob_page_count, set_used, set_len, set_links, slob_init, glue_chunk,
  kfree,
}
use hurlex_ii.Slob.Tiles.{IsHeap, Tiles-within}
use hurlex_ii.Slob.Glue.{Glued, glue_chunk-Glued}

-- Freeing the address behind the header of a used block leaves a tiled heap in which that block is
-- part of a free block, no other block's mark changes, and every other used block is still listed
-- with its length.
pub kfree-Glued :
    (s : Heap) (lo hi b : ℕ) (bs : List ℕ)
    → IsHeap s lo hi bs
    → has b bs ≡ true
    → s.used b ≡ true
    → (c : ℕ) × (bs' : List ℕ) × IsHeap (kfree (b + header) s) lo hi bs'
      × Glued (set_used b false s) (kfree (b + header) s) b c bs bs'
unfolding kfree
kfree-Glued s lo hi b bs inv i u =
    let (us, (vs, e)) = has-split b bs i in
    let t = Tiles-within s.len lo hi b bs inv.tiles i in
    let a : sub32 (b + header) header ≡ b = omega (arith, t, inv.fits_word) in
    let free : (set_used b false s).used b ≡ false = ground arith in
    let inv' : IsHeap (set_used b false s) lo hi bs = record {
      ring = inv.ring;
      tiles = inv.tiles;
      not_null = inv.not_null;
      fits_word = inv.fits_word;
      fits_field = inv.fits_field;
    } in
    rw (a, u)
      (subst
        (λ l.
          IsHeap (set_used b false s) lo hi l
          → (c : ℕ) × (bs' : List ℕ) × IsHeap (glue_chunk b (set_used b false s)) lo hi bs'
            × Glued (set_used b false s) (glue_chunk b (set_used b false s)) b c l bs')
        (sym e) (λ k. glue_chunk-Glued (set_used b false s) lo hi b us vs k free) inv')

kfree-free : (s : Heap) (b : ℕ) → b + header < 2 ^ 32 → s.used b ≡ false → kfree (b + header) s ≡ s
unfolding kfree
kfree-free s b h u = let a : sub32 (b + header) header ≡ b = omega arith in rw (a, u)

-- A second `kfree` of the same address does nothing, as long as the block is still marked free.
pub kfree_twice :
    (s : Heap) (lo hi b : ℕ) (bs : List ℕ)
    → IsHeap s lo hi bs
    → has b bs ≡ true
    → s.used b ≡ true
    → kfree (b + header) (kfree (b + header) s) ≡ kfree (b + header) s
kfree_twice s lo hi b bs inv i u =
    let (c, bs', inv', g) = kfree-Glued s lo hi b bs inv i u in
    let t = Tiles-within s.len lo hi b bs inv.tiles i in
    let free : (kfree (b + header) s).used b ≡ false = ground (arith, g.same_used b) in
    kfree-free (kfree (b + header) s) b (omega (arith, t, inv.fits_word)) free

-- On pages that were allocated, `slob_init` makes one free block that fills them.
pub slob_init-IsHeap :
    (block : ℕ) (s : Heap)
    → IsRing s.links slob_head []
    → block ≢ 0
    → block + slob_page_count * 4096 < 2 ^ 32
    → (s' : Heap) × (slob_init block s ≡ some s')
      × IsHeap s' block (block + slob_page_count * 4096) (block ∷ [])
      × (s'.used block ≡ false)
unfolding slob_init
slob_init-IsHeap block s r ne h =
    let q : (block == 0) ≡ false = ne→==_false block 0 ne in
    let s1 = set_len block (slob_page_count * 4096 - header) (set_used block false s) in
    (
      set_links (list_add block slob_head s1.links) s1,
      rw q,
      record {
        ring = list_add-IsRing s.links block slob_head [] r (ground arith);
        tiles = (refl, ground arith);
        not_null = omega arith;
        fits_word = h;
        fits_field = omega arith;
      },
      ground arith,
    )
