-- ===== src/Slob/Glue.antt =====
-- mm/slob.c: `glue_chunk` and `kfree`.
use hurlex_ii.Base.{
  ℕ, ◌+◌, ◌≤◌, ◌≡◌, ◌≢◌, ◌⊎◌, inl, inr, refl, sym, ap, ◌∙◌, true, false, List, [], ◌∷◌, ◌++◌, arith,
  ◌==◌, Bool-cases,
}
use mathlib.Core.Path.{subst}
use mathlib.Core.Bool.{false≢true}
use mathlib.Core.List.{append_assoc}
use hurlex_ii.Links.Ring.{has, first_or, first_link, split, has-append, ne_of_has}
use hurlex_ii.Links.Ops.{next-list_del}
use hurlex_ii.Slob.{Heap, slob_head, header, glue_prev, glue_next, glue_chunk}
use hurlex_ii.Slob.Tiles.{IsHeap}
use hurlex_ii.Slob.Free.{merged, merged-IsHeap, merged_at, outer}

-- From `s` to `s'` the free block `b` has become part of the free block `c`; used blocks stay.
pub record Glued (s s' : Heap) (b c : ℕ) (bs bs' : List ℕ) : Type 0 where
  pub listed : has c bs' ≡ true
  pub free : s'.used c ≡ false
  pub covers : (c ≤ b) × (b + header + s.len b ≤ c + header + s'.len c)
  pub same_used : (v : ℕ) → s'.used v ≡ s.used v
  pub kept : (v : ℕ) → has v bs ≡ true → s.used v ≡ true → (has v bs' ≡ true) × (s'.len v ≡ s.len v)

Glued-trans :
    {s s' s'' : Heap} {b c d : ℕ} {bs bs' bs'' : List ℕ}
    → Glued s s' b c bs bs'
    → Glued s' s'' c d bs' bs''
    → Glued s s'' b d bs bs''
Glued-trans {bs'} p q = record {
  listed = q.listed;
  free = q.free;
  covers = omega (arith, p.covers, q.covers);
  same_used = λ v. q.same_used v ∙ p.same_used v;
  kept = λ v i u.
      let (i', l) = p.kept v i u in
      let (i'', l') = q.kept v i' (p.same_used v ∙ u) in (i'', l' ∙ l);
}

Glued-refl :
    (s : Heap) (b : ℕ) (bs : List ℕ) → has b bs ≡ true → s.used b ≡ false → Glued s s b b bs bs
Glued-refl s b bs i u = record {
  listed = i;
  free = u;
  covers = omega arith;
  same_used = λ v. refl;
  kept = λ v i u. (i, refl);
}

module _ (s : Heap) (lo hi p b : ℕ) (us vs : List ℕ) (inv : IsHeap s lo hi (us ++ (p ∷ b ∷ vs)))
    (free_p : s.used p ≡ false) (free_b : s.used b ≡ false) where
  -- Both blocks of a merge are covered, and no used block leaves the list.
  keep :
      (v : ℕ)
      → has v (us ++ (p ∷ b ∷ vs)) ≡ true
      → s.used v ≡ true
      → (has v (us ++ (p ∷ vs)) ≡ true) × ((merged p b s).len v ≡ s.len v)
  keep v i u =
      let np : v ≢ p = λ e. false≢true (sym free_p ∙ (rw e at u)) in
      let nb : v ≢ b = λ e. false≢true (sym free_b ∙ (rw e at u)) in
      (ground (arith, has-append v us (p ∷ b ∷ vs), has-append v us (p ∷ vs)), ground arith)

  merged-Glued-first : Glued s (merged p b s) p p (us ++ (p ∷ b ∷ vs)) (us ++ (p ∷ vs))
  merged-Glued-first = record {
    listed = ground (arith, has-append p us (p ∷ vs));
    free = free_p;
    covers = omega (arith, merged_at s lo hi p b us vs inv);
    same_used = λ v. refl;
    kept = keep;
  }

  merged-Glued-second : Glued s (merged p b s) b p (us ++ (p ∷ b ∷ vs)) (us ++ (p ∷ vs))
  merged-Glued-second = record {
    listed = ground (arith, has-append p us (p ∷ vs));
    free = free_p;
    covers = omega (arith, merged_at s lo hi p b us vs inv, (outer s lo hi p b us vs inv).1);
    same_used = λ v. refl;
    kept = keep;
  }

-- What `glue_next` does for the block `c`, if the links lead from `le` to what follows `c`.
glue_next-Glued :
    (s : Heap) (lo hi le c : ℕ) (us vs : List ℕ)
    → IsHeap s lo hi (us ++ (c ∷ vs))
    → s.used c ≡ false
    → s.links.next le ≡ first_or vs slob_head
    → (bs' : List ℕ) × IsHeap (glue_next le c s) lo hi bs'
      × Glued s (glue_next le c s) c c (us ++ (c ∷ vs)) bs'
unfolding glue_next
glue_next-Glued s lo hi le c us [] inv u n =
    rw n (us ++ (c ∷ []), inv, Glued-refl s c _ (ground (arith, has-append c us (c ∷ []))) u)
glue_next-Glued s lo hi le c us (v ∷ vs) inv u n =
    let i : has v (us ++ (c ∷ v ∷ vs)) ≡ true = ground (arith, has-append v us (c ∷ v ∷ vs)) in
    let ne : (v == slob_head) ≡ false =
      ground (arith, ne_of_has v slob_head (us ++ (c ∷ v ∷ vs)) i inv.ring.distinct.0) in
    rw (n, ne)
      (elim (Bool-cases (s.used v)) [
        | inl y ↦ rw y (
          us ++ (c ∷ v ∷ vs),
          inv,
          Glued-refl s c _ (ground (arith, has-append c us (c ∷ v ∷ vs))) u,
        )
        | inr f ↦ rw f (
          us ++ (c ∷ vs),
          merged-IsHeap s lo hi c v us vs inv,
          merged-Glued-first s lo hi c v us vs inv u f,
        )
      ])

snoc-cases : (us : List ℕ) → (us ≡ []) ⊎ ((front : List ℕ) × ((p : ℕ) × (us ≡ front ++ (p ∷ []))))
snoc-cases [] = inl refl
snoc-cases (u ∷ us) = elim (snoc-cases us) [
  | inl e ↦ inr ([], (u, ap (λ l. u ∷ l) e))
  | inr (front, (p, e)) ↦ inr (u ∷ front, (p, ap (λ l. u ∷ l) e))
]

abbrev AfterPrev : Heap → (lo hi b : ℕ) → (bs vs : List ℕ) → ℕ × Heap → Type 0
AfterPrev s lo hi b bs vs r =
    (us : List ℕ) × IsHeap r.1 lo hi (us ++ (r.0 ∷ vs))
    × (r.1.links.next b ≡ first_or vs slob_head)
    × Glued s r.1 b r.0 bs (us ++ (r.0 ∷ vs))

-- A block that does not join the one before it.
stay :
    (s : Heap) (lo hi b : ℕ) (us vs : List ℕ)
    → IsHeap s lo hi (us ++ (b ∷ vs))
    → s.used b ≡ false
    → AfterPrev s lo hi b (us ++ (b ∷ vs)) vs (b, s)
stay s lo hi b us vs inv u =
    let q = split s.links slob_head b slob_head us vs inv.ring.path in
    (
      us,
      inv,
      (first_link s.links b slob_head vs q.1).0,
      Glued-refl s b _ (ground (arith, has-append b us (b ∷ vs))) u,
    )

glue_prev-first :
    (s : Heap) (lo hi b : ℕ) (vs : List ℕ)
    → IsHeap s lo hi (b ∷ vs)
    → s.used b ≡ false
    → AfterPrev s lo hi b (b ∷ vs) vs (glue_prev b s)
unfolding glue_prev
glue_prev-first s lo hi b vs inv u = rw inv.ring.path.0.1 (stay s lo hi b [] vs inv u)

glue_prev-next :
    (s : Heap) (lo hi p b : ℕ) (us vs : List ℕ)
    → IsHeap s lo hi (us ++ (p ∷ b ∷ vs))
    → s.used b ≡ false
    → AfterPrev s lo hi b (us ++ (p ∷ b ∷ vs)) vs (glue_prev b s)
unfolding glue_prev
glue_prev-next s lo hi p b us vs inv u =
    let q = (split s.links slob_head p slob_head us (b ∷ vs) inv.ring.path).1 in
    let i : has p (us ++ (p ∷ b ∷ vs)) ≡ true = ground (arith, has-append p us (p ∷ b ∷ vs)) in
    let ne : (p == slob_head) ≡ false =
      ground (arith, ne_of_has p slob_head (us ++ (p ∷ b ∷ vs)) i inv.ring.distinct.0) in
    let inv' : IsHeap s lo hi ((us ++ (p ∷ [])) ++ (b ∷ vs)) =
      rw (append_assoc us (p ∷ []) (b ∷ vs)) inv in
    rw (q.0.1, ne)
      (elim (Bool-cases (s.used p)) [
        | inl y ↦
            rw y (
              rw (append_assoc us (p ∷ []) (b ∷ vs)) at (stay s lo hi b (us ++ (p ∷ [])) vs inv' u))
        | inr f ↦ rw f (
          us,
          merged-IsHeap s lo hi p b us vs inv,
          next-list_del s.links b ∙ (first_link s.links b slob_head vs q.1).0,
          merged-Glued-second s lo hi p b us vs inv f u,
        )
      ])

glue_prev-AfterPrev :
    (s : Heap) (lo hi b : ℕ) (us vs : List ℕ)
    → IsHeap s lo hi (us ++ (b ∷ vs))
    → s.used b ≡ false
    → AfterPrev s lo hi b (us ++ (b ∷ vs)) vs (glue_prev b s)
glue_prev-AfterPrev s lo hi b us vs inv u = elim (snoc-cases us) [
  | inl e ↦
      subst
        (λ l.
          IsHeap s lo hi (l ++ (b ∷ vs)) → AfterPrev s lo hi b (l ++ (b ∷ vs)) vs (glue_prev b s))
        (sym e) (λ i. glue_prev-first s lo hi b vs i u) inv
  | inr (front, (p, e)) ↦
      subst
        (λ l.
          IsHeap s lo hi (l ++ (b ∷ vs)) → AfterPrev s lo hi b (l ++ (b ∷ vs)) vs (glue_prev b s))
        (sym e)
        (λ i.
          rw (append_assoc front (p ∷ []) (b ∷ vs)) (
            glue_prev-next s lo hi p b front vs (rw (append_assoc front (p ∷ []) (b ∷ vs)) at i) u))
        inv
]

pub glue_chunk-Glued :
    (s : Heap) (lo hi b : ℕ) (us vs : List ℕ)
    → IsHeap s lo hi (us ++ (b ∷ vs))
    → s.used b ≡ false
    → (c : ℕ) × (bs' : List ℕ) × IsHeap (glue_chunk b s) lo hi bs'
      × Glued s (glue_chunk b s) b c (us ++ (b ∷ vs)) bs'
unfolding glue_chunk
glue_chunk-Glued s lo hi b us vs inv u =
    let (us', inv', n, g) = glue_prev-AfterPrev s lo hi b us vs inv u in
    let (bs', inv'', g') =
      glue_next-Glued (glue_prev b s).1 lo hi b (glue_prev b s).0 us' vs inv' g.free n in
    ((glue_prev b s).0, bs', inv'', Glued-trans g g')
