-- ===== src/Slob/Free.antt =====
-- mm/slob.c: `kfree`. The freed block joins its free neighbours, and the heap stays tiled.
use hurlex_ii.Base.{ℕ, ◌+◌, ◌≤◌, ◌≡◌, refl, sym, List, [], ◌∷◌, ◌++◌, arith, update}
use mathlib.Core.Path.{subst}
use mathlib.Core.List.{append_assoc}
use hurlex_ii.Links.{list_del}
use hurlex_ii.Links.Ring.{has-append}
use hurlex_ii.Links.Ops.{list_del-IsRing}
use hurlex_ii.Slob.{Heap, slob_head, header, u31, set_len, set_links}
use hurlex_ii.Slob.Tiles.{Tiles, IsHeap, Tiles-split, Tiles-join, Tiles-within, Tiles-frame}

-- `b` joins the block `p` before it.
abbrev pub merged : ℕ → ℕ → Heap → Heap
merged p b s =
    let s1 = set_len p (s.len p + (s.len b + header)) s in set_links (list_del b s1.links) s1

module _ (s : Heap) (lo hi p b : ℕ) (us vs : List ℕ)
    (inv : IsHeap s lo hi (us ++ (p ∷ b ∷ vs))) where
  pub outer :
      Tiles s.len lo us p
      × (b ≡ p + header + s.len p)
      × Tiles s.len (p + header + s.len p + header + s.len b) vs hi
  outer = let t = Tiles-split s.len lo hi us p (b ∷ vs) inv.tiles in (t.0, t.1.0, t.1.1)

  bounds : (lo ≤ p) × (b + header + s.len b ≤ hi)
  bounds = (
    (Tiles-within s.len lo hi p (us ++ (p ∷ b ∷ vs)) inv.tiles
        (ground (arith, has-append p us (p ∷ b ∷ vs)))).0,
    (Tiles-within s.len lo hi b (us ++ (p ∷ b ∷ vs)) inv.tiles
        (ground (arith, has-append b us (p ∷ b ∷ vs)))).1,
  )

  abbrev pub merged_len : ℕ → ℕ
  merged_len = update s.len p (u31 (s.len p + (s.len b + header)))

  pub merged_at : merged_len p ≡ s.len p + (s.len b + header)
  merged_at = ground (arith, bounds, outer.1, inv.fits_field)

  pub merged-IsHeap : IsHeap (merged p b s) lo hi (us ++ (p ∷ vs))
  merged-IsHeap = record {
    ring = rw (append_assoc us (p ∷ []) vs) at (
        list_del-IsRing s.links b slob_head (us ++ (p ∷ [])) vs
          (rw (append_assoc us (p ∷ []) (b ∷ vs)) inv.ring));
    tiles =
        Tiles-join merged_len lo p hi us (p ∷ vs)
          (Tiles-frame s.len merged_len lo p us outer.0
            (λ v i. ground (arith, Tiles-within s.len lo p v us outer.0 i)))
          (refl, tail);
    not_null = inv.not_null;
    fits_word = inv.fits_word;
    fits_field = inv.fits_field;
  }
    where
      tail : Tiles merged_len (p + header + merged_len p) vs hi
      tail =
          let e : p + header + merged_len p ≡ p + header + s.len p + header + s.len b =
            omega (arith, merged_at) in
          subst (λ k. Tiles merged_len k vs hi) (sym e)
            (Tiles-frame s.len merged_len _ hi vs outer.2
              (λ v i. ground (arith, Tiles-within s.len _ hi v vs outer.2 i)))
