-- ===== src/Slob/Tiles.antt =====
-- mm/slob.c: the invariant of the heap. Its blocks are a ring of the list, and tile the region.
use hurlex_ii.Base.{
  ℕ, ◌+◌, ◌^◌, ◌≤◌, ◌<◌, ◌≡◌, inl, inr, sym, true, List, [], ◌∷◌, ◌++◌, arith, ◌==◌, Bool-cases,
}
use mathlib.Core.Path.{subst}
use hurlex_ii.Links.Ring.{has, IsRing}
use hurlex_ii.Slob.{Heap, slob_head, header}

-- From `lo` to `hi` the blocks follow one another, each with its header and its length.
abbrev pub Tiles : (ℕ → ℕ) → ℕ → List ℕ → ℕ → Type 0
Tiles len lo [] hi = lo ≡ hi
Tiles len lo (b ∷ bs) hi = (b ≡ lo) × Tiles len (lo + header + len b) bs hi

pub record IsHeap (s : Heap) (lo hi : ℕ) (bs : List ℕ) : Type 0 where
  pub ring : IsRing s.links slob_head bs
  pub tiles : Tiles s.len lo bs hi
  pub not_null : 0 < lo
  pub fits_word : hi < 2 ^ 32
  pub fits_field : hi ≤ lo + 2 ^ 31

module _ (len : ℕ → ℕ) where
  pub Tiles-le : (lo hi : ℕ) (bs : List ℕ) → Tiles len lo bs hi → lo ≤ hi
  Tiles-le lo hi [] t = omega arith
  Tiles-le lo hi (b ∷ bs) t = omega (arith, Tiles-le (lo + header + len b) hi bs t.1)

  -- Where two parts of a tiling meet.
  pub Tiles-split :
      (lo hi : ℕ) (us : List ℕ) (b : ℕ) (vs : List ℕ)
      → Tiles len lo (us ++ (b ∷ vs)) hi
      → Tiles len lo us b × Tiles len (b + header + len b) vs hi
  Tiles-split lo hi [] b vs t =
      (omega arith, subst (λ k. Tiles len (k + header + len b) vs hi) (sym t.0) t.1)
  Tiles-split lo hi (u ∷ us) b vs t =
      let q = Tiles-split (lo + header + len u) hi us b vs t.1 in ((t.0, q.0), q.1)

  pub Tiles-join :
      (lo mid hi : ℕ) (us vs : List ℕ)
      → Tiles len lo us mid
      → Tiles len mid vs hi
      → Tiles len lo (us ++ vs) hi
  Tiles-join lo mid hi [] vs t r = rw t r
  Tiles-join lo mid hi (u ∷ us) vs t r = (t.0, Tiles-join (lo + header + len u) mid hi us vs t.1 r)

  -- A block of a tiling lies within its bounds.
  pub Tiles-within :
      (lo hi v : ℕ) (bs : List ℕ)
      → Tiles len lo bs hi
      → has v bs ≡ true
      → (lo ≤ v) × (v + header + len v ≤ hi)
  Tiles-within lo hi v [] t i = cc
  Tiles-within lo hi v (b ∷ bs) t i = elim (Bool-cases (v == b)) [
    | inl e ↦
        let q : v ≡ b = ground arith in
        rw q (omega (arith, Tiles-le (lo + header + len b) hi bs t.1))
    | inr e ↦ omega (arith, Tiles-within (lo + header + len b) hi v bs t.1 (ground arith))
  ]

  -- A tiling depends on the lengths of its own blocks only.
  pub Tiles-frame :
      (len' : ℕ → ℕ) (lo hi : ℕ) (bs : List ℕ)
      → Tiles len lo bs hi
      → ((v : ℕ) → has v bs ≡ true → len' v ≡ len v)
      → Tiles len' lo bs hi
  Tiles-frame len' lo hi [] t same = t
  Tiles-frame len' lo hi (b ∷ bs) t same = (
    t.0,
    rw (same b (ground arith))
        (Tiles-frame len' (lo + header + len b) hi bs t.1 (λ v i. same v (ground arith))),
  )
