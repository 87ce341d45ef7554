-- ===== src/Slob/Kmalloc.antt =====
-- mm/slob.c: what `kmalloc` returns, and what it leaves.
use hurlex_ii.Base.{
  ℕ, ◌+◌, ◌≤◌, ◌<◌, ◌≡◌, ◌≢◌, ◌⊎◌, inl, inr, refl, sym, ◌∙◌, true, false, List, [], ◌∷◌, ◌++◌,
  arith, ltb, add32, sub32, Bool-cases, some, length,
}
use mathlib.Core.Path.{subst}
use mathlib.Core.Bool.{false≢true}
use hurlex_ii.Links.Ring.{has, Right-of, has-append}
use hurlex_ii.Links.Splice.{list_empty-nil, list_empty-cons}
use hurlex_ii.Slob.{
  Heap, slob_head, header, slob_min_part, split_chunk, request, fits, Scan, found, exhausted,
  out_of_fuel, kmalloc, take_block,
}
use hurlex_ii.Slob.Tiles.{IsHeap, Tiles-within}
use hurlex_ii.Slob.Alloc.{
  first_fit, find_block-first_fit, Found, first_fit-Found, first_fit-none, split_chunk-carved,
  split_chunk-others, fits-lt, fresh,
}

-- The answer that the outcome of the search calls for.
abbrev pub answer : Heap → ℕ → Scan → ℕ × Heap
answer s len (found b) = (add32 b header, split_chunk b len s)
answer s len exhausted = (0, s)
answer s len out_of_fuel = (0, s)

first_fit-ends : (s : Heap) (len : ℕ) (bs : List ℕ) → first_fit s len bs ≢ out_of_fuel
first_fit-ends s len [] e = cc
first_fit-ends s len (b ∷ bs) e = elim (Bool-cases (fits s len b)) [
  | inl y ↦ ground arith
  | inr n ↦ first_fit-ends s len bs (rw n at e)
]

taken :
    (s : Heap) (len : ℕ) (o : Scan) → o ≢ out_of_fuel → take_block len s o ≡ some (answer s len o)
taken s len (found b) ne = refl
taken s len exhausted ne = refl
taken s len out_of_fuel ne = absurd (ne refl)

-- `kmalloc` with more fuel than blocks is first fit: it answers by the first free block that is
-- longer than the request, and by NULL with the heap unchanged if there is none.
pub kmalloc-first_fit :
    (fuel size lo hi : ℕ) (s : Heap) (bs : List ℕ)
    → IsHeap s lo hi bs
    → length bs < fuel
    → kmalloc fuel size s ≡ some (answer s (request size) (first_fit s (request size) bs))
unfolding kmalloc
kmalloc-first_fit fuel size lo hi s [] inv f = rw (list_empty-nil s.links slob_head inv.ring)
kmalloc-first_fit fuel size lo hi s (b ∷ bs) inv f =
    rw
      (
        list_empty-cons s.links slob_head b bs inv.ring,
        inv.ring.path.0.0,
        find_block-first_fit s (request size) fuel (b ∷ bs)
            (Right-of s.links slob_head slob_head (b ∷ bs) inv.ring.path) inv.ring.distinct.0 f,
      )
      (taken s (request size) (first_fit s (request size) (b ∷ bs))
        (first_fit-ends s (request size) (b ∷ bs)))

-- What a call returned, and what it left: NULL and the same heap; or the address behind the header
-- of a block that was free, is at least as long as the request, and is the only one that changed.
pub record Served (s s' : Heap) (len p : ℕ) (bs : List ℕ) : Type 0 where
  pub block : ℕ
  pub address : p ≡ block + header
  pub listed : has block bs ≡ true
  pub was_free : s.used block ≡ false
  pub enough : len ≤ s'.len block
  pub marked : ltb (header + slob_min_part) (sub32 (s.len block) len) ≡ true → s'.used block ≡ true
  pub others : (v : ℕ) → has v bs ≡ true → v ≢ block → (s'.used v ≡ s.used v) × (s'.len v ≡ s.len v)

-- A block with too little to spare is handed out whole, and nothing at all is written.
pub split_chunk-whole :
    (s : Heap) (len b : ℕ)
    → ltb (header + slob_min_part) (sub32 (s.len b) len) ≡ false
    → split_chunk b len s ≡ s
unfolding split_chunk
split_chunk-whole s len b w = rw w

abbrev Serving : Heap → (lo hi len b : ℕ) → List ℕ → Type 0
Serving s lo hi len b bs =
    Served s (split_chunk b len s) len (add32 b header) bs
    × ((bs' : List ℕ) × IsHeap (split_chunk b len s) lo hi bs')

module _ (s : Heap) (lo hi len b : ℕ) (us vs : List ℕ) (inv : IsHeap s lo hi (us ++ (b ∷ vs)))
    (good : fits s len b ≡ true) where
  listed : has b (us ++ (b ∷ vs)) ≡ true
  listed = ground (arith, has-append b us (b ∷ vs))

  address : add32 b header ≡ b + header
  address =
      let t = Tiles-within s.len lo hi b (us ++ (b ∷ vs)) inv.tiles listed in
      omega (arith, t, inv.fits_word)

  serve : Serving s lo hi len b (us ++ (b ∷ vs))
  serve = elim (Bool-cases (ltb (header + slob_min_part) (sub32 (s.len b) len))) [
    | inl room ↦
        let c = split_chunk-carved s lo hi len b us vs inv good room in
        (
          record {
            block = b;
            address = address;
            listed = listed;
            was_free = (fits-lt s len b good).0;
            enough = omega (arith, c.3);
            marked = λ m. c.1;
            others = split_chunk-others s lo hi len b us vs inv good room;
          },
          (us ++ (b ∷ fresh s lo hi len b us vs inv good room ∷ vs), c.0),
        )
    | inr tight ↦ rw (split_chunk-whole s len b tight) (
      record {
        block = b;
        address = address;
        listed = listed;
        was_free = (fits-lt s len b good).0;
        enough = omega (arith, fits-lt s len b good);
        marked = λ m. absurd (false≢true (sym tight ∙ m));
        others = λ v i ne. (refl, refl);
      },
      (us ++ (b ∷ vs), inv),
    )
  ]

Found-Serving :
    (s : Heap) (lo hi len b : ℕ) (bs : List ℕ)
    → IsHeap s lo hi bs
    → Found s len b bs
    → Serving s lo hi len b bs
Found-Serving s lo hi len b bs inv f =
    subst (Serving s lo hi len b) (sym f.split)
      (serve s lo hi len b f.before f.after (subst (IsHeap s lo hi) f.split inv) f.good)

-- Every call of `kmalloc` on a tiled heap returns, leaves a tiled heap over the same region, and
-- either gives NULL, changes nothing and no free block is longer than the request, or is served.
pub kmalloc-Served :
    (fuel size lo hi : ℕ) (s : Heap) (bs : List ℕ)
    → IsHeap s lo hi bs
    → length bs < fuel
    → (p : ℕ) × (s' : Heap) × (kmalloc fuel size s ≡ some (p, s'))
      × ((bs' : List ℕ) × IsHeap s' lo hi bs')
      × ((p ≡ 0)
            × (s' ≡ s)
            × ((v : ℕ) → has v bs ≡ true → s.used v ≡ false → s.len v ≤ request size)
          ⊎ Served s s' (request size) p bs)
kmalloc-Served fuel size lo hi s bs inv f = go (first_fit s (request size) bs) refl
  where
    go :
        (o : Scan)
        → first_fit s (request size) bs ≡ o
        → (p : ℕ) × (s' : Heap) × (kmalloc fuel size s ≡ some (p, s'))
          × ((bs' : List ℕ) × IsHeap s' lo hi bs')
          × ((p ≡ 0)
                × (s' ≡ s)
                × ((v : ℕ) → has v bs ≡ true → s.used v ≡ false → s.len v ≤ request size)
              ⊎ Served s s' (request size) p bs)
    go (found b) e =
        let w =
          Found-Serving s lo hi (request size) b bs inv (first_fit-Found s (request size) b bs e) in
        (
          add32 b header,
          split_chunk b (request size) s,
          rw (kmalloc-first_fit fuel size lo hi s bs inv f, e),
          w.1,
          inr w.0,
        )
    go exhausted e = (
      0,
      s,
      rw (kmalloc-first_fit fuel size lo hi s bs inv f, e),
      (bs, inv),
      inl (refl, refl, λ v i u. ground (arith, first_fit-none s (request size) bs e v i)),
    )
    go out_of_fuel e = absurd (first_fit-ends s (request size) bs e)

-- Where the first fit has too little to spare to be split, `kmalloc` hands it out but leaves it
-- marked as free: the same call gives the same address again.
pub kmalloc_repeats :
    (fuel size lo hi b : ℕ) (s : Heap) (bs : List ℕ)
    → IsHeap s lo hi bs
    → length bs < fuel
    → first_fit s (request size) bs ≡ found b
    → ltb (header + slob_min_part) (sub32 (s.len b) (request size)) ≡ false
    → (s' : Heap) × (kmalloc fuel size s ≡ some (add32 b header, s'))
      × (s'.used b ≡ false)
      × (kmalloc fuel size s' ≡ some (add32 b header, s'))
kmalloc_repeats fuel size lo hi b s bs inv f e tight =
    let once : kmalloc fuel size s ≡ some (add32 b header, s) = rw (
      kmalloc-first_fit fuel size lo hi s bs inv f,
      e,
      split_chunk-whole s (request size) b tight,
    ) in
    (s, once, (fits-lt s (request size) b (first_fit-Found s (request size) b bs e).good).0, once)
