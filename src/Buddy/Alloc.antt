-- ===== src/Buddy/Alloc.antt =====
-- mm/buddy_mm.c: `buddy_alloc_pages_sub`, which takes a block of the smallest order there is.
use hurlex_ii.Base.{
  ℕ, zero, suc, ◌+◌, ◌-◌, ◌^◌, ◌≤◌, ◌<◌, ◌≡◌, refl, true, false, List, [], ◌∷◌, arith, ◌==◌, Option,
  none, some, Bool-cases, inl, inr, update, sym, subst, ◌⊎◌, ◌∙◌, sub32, ap,
}
use hurlex_ii.Links.{list_del}
use hurlex_ii.Links.Ring.{has, IsRing}
use hurlex_ii.Links.Splice.{list_empty-nil, list_empty-cons}
use hurlex_ii.Buddy.{
  Buddy, page_node, set_page, split_block, take_block_of, alloc_from, buddy_alloc_pages_sub,
}
use hurlex_ii.Buddy.Total.{total, total-pop}
use hurlex_ii.Buddy.Blocks.{IsBuddy, Clear}
use hurlex_ii.Buddy.Split.{Halves, split_block-Halves, unmark-IsBuddy, pop-IsBuddy, popped-Clear}

-- The lists after an allocation: the first block of the list of `k` is taken, and its halves are put
-- on the lists from `order` on.
pub record Taken (order k page : ℕ) (free free' : ℕ → List ℕ) (rest : List ℕ) : Type 0 where
  pub taken : free' k ≡ rest
  pub half : (o : ℕ) → order ≤ o → o < k → free' o ≡ page_node (page + 2 ^ o) ∷ free o
  pub below : (o : ℕ) → o < order → free' o ≡ free o
  pub above : (o : ℕ) → k < o → free' o ≡ free o
  pub number : total 11 free' + 2 ^ order ≡ total 11 free

Taken-of :
    (order k page : ℕ) (free free3 : ℕ → List ℕ) (rest : List ℕ)
    → order ≤ k
    → k < 11
    → free k ≡ page_node page ∷ rest
    → Halves order k page (update free k rest) free3
    → Taken order k page free free3 rest
Taken-of order k page free free3 rest le lt f h = record {
  taken = let t : (k == k) ≡ true = ground arith in h.above k (omega arith) ∙ rw t refl;
  half = λ o l u. let n : (k == o) ≡ false = ground arith in h.half o l u ∙ rw n refl;
  below = λ o l. let n : (k == o) ≡ false = ground arith in h.below o l ∙ rw n refl;
  above = λ o l. let n : (k == o) ≡ false = ground arith in h.above o (omega arith) ∙ rw n refl;
  number = h.number ∙ total-pop 11 k (page_node page) free rest lt f;
}

take_block_of-Taken :
    (k order page : ℕ) (rest : List ℕ) (s : Buddy) (free : ℕ → List ℕ)
    → IsBuddy s free
    → order ≤ k
    → k < 11
    → free k ≡ page_node page ∷ rest
    → (s' : Buddy) × (free' : ℕ → List ℕ) × (take_block_of k order s ≡ (page, s'))
      × IsBuddy s' free'
      × Clear free' page order
      × Taken order k page free free' rest
unfolding take_block_of
take_block_of-Taken k order page rest s free i le a f =
    let n : s.links.next k ≡ page_node page =
      (subst (IsRing s.links k) f (i.rings.ring k a)).path.0.0 in
    let z : page_node page - 11 ≡ page = omega arith in
    let i1 = pop-IsBuddy s free k page rest i a f in
    let c1 = popped-Clear s free k page rest i a f in
    let s2 : Buddy = record s {
      links = list_del (page_node page) s.links;
      nr_free = update s.nr_free k (sub32 (s.nr_free k) 1);
    } in
    let q : k ≡ order + (k - order) = omega arith in
    let (free3, i3, c3, h) =
      split_block-Halves (k - order) order page s2 (update free k rest) i1 (omega arith)
        (subst (Clear (update free k rest) page) q c1) in
    let s3 = split_block (k - order) order page s2 in
    (
      set_page page (record (s3.pages page) { ordered = false }) s3,
      free3,
      rw (n, z) refl,
      unmark-IsBuddy s3 free3 page order i3 c3,
      c3,
      Taken-of order k page free free3 rest le a f
          (subst (λ m. Halves order m page (update free k rest) free3) (sym q) h),
    )

-- No free block of an order from `order` on below `k`.
abbrev pub Empty : (free : ℕ → List ℕ) (order k : ℕ) → Type 0
Empty free order k = (j : ℕ) → order ≤ j → j < k → free j ≡ []

-- Nothing is free and nothing is allocated; or the first block of the smallest order that has one is.
abbrev pub Allocated : (order : ℕ) (free : ℕ → List ℕ) (result : Option (ℕ × Buddy)) → Type 0
Allocated order free result =
    (Empty free order 11 × (result ≡ none))
    ⊎ ((k : ℕ) × (page : ℕ) × (rest : List ℕ) × (s' : Buddy) × (free' : ℕ → List ℕ) × (order ≤ k)
        × (k < 11)
        × Empty free order k
        × (free k ≡ page_node page ∷ rest)
        × (result ≡ some (page, s'))
        × IsBuddy s' free'
        × Clear free' page order
        × Taken order k page free free' rest)

Empty-suc :
    (free : ℕ → List ℕ) (order k : ℕ) → Empty free order k → free k ≡ [] → Empty free order (suc k)
Empty-suc free order k e f j l u = elim (Bool-cases (j == k)) [
  | inl y ↦ let z : j ≡ k = ground arith in rw z f
  | inr n ↦ e j l (ground arith)
]

nil_or_cons : (xs : List ℕ) → (xs ≡ []) ⊎ ((v : ℕ) × (rest : List ℕ) × (xs ≡ v ∷ rest))
nil_or_cons [] = inl refl
nil_or_cons (v ∷ rest) = inr (v, rest, refl)

alloc_from-Allocated :
    (rounds k order : ℕ) (s : Buddy) (free : ℕ → List ℕ)
    → IsBuddy s free
    → order ≤ k
    → k + rounds ≡ 11
    → Empty free order k
    → Allocated order free (alloc_from rounds k order s)
unfolding alloc_from
alloc_from-Allocated zero k order s free i le a e =
    let z : k ≡ 11 = omega arith in inl (subst (Empty free order) z e, refl)
alloc_from-Allocated (suc rounds) k order s free i le a e =
    let lt : k < 11 = omega arith in
    let r = i.rings.ring k lt in
    elim (nil_or_cons (free k)) [
      | inl f ↦
          let q = list_empty-nil s.links k (subst (IsRing s.links k) f r) in
          let z : k + 1 ≡ suc k = omega arith in
          rw (alloc_from, q, z)
            (alloc_from-Allocated rounds (suc k) order s free i (omega arith) (omega arith)
              (Empty-suc free order k e f))
      | inr (v, rest, f) ↦
          let q = list_empty-cons s.links k v rest (subst (IsRing s.links k) f r) in
          let m : has v (free k) ≡ true = rw f (ground arith) in
          let big = i.rings.behind k v lt m in
          let z : v ≡ page_node (v - 11) = omega arith in
          let g : free k ≡ page_node (v - 11) ∷ rest = f ∙ ap (λ w. w ∷ rest) z in
          let (s', free', t, i', c, h) =
            take_block_of-Taken k order (v - 11) rest s free i le lt g in
          inr (k, v - 11, rest, s', free', le, lt, e, g, rw (alloc_from, q, t) refl, i', c, h)
    ]

-- On free lists that are well linked and hold marked blocks without a common page,
-- `buddy_alloc_pages_sub` for an order of at most 10 returns NULL exactly if there is no free block of
-- that order or above. Otherwise it takes the first block of the smallest such order that has one,
-- puts the upper halves that it splits off on the lists of their orders, and keeps the invariant; the
-- block that it returns is clear of all that are still free, which are fewer by its pages.
pub buddy_alloc_pages_sub-Allocated :
    (order : ℕ) (s : Buddy) (free : ℕ → List ℕ)
    → IsBuddy s free
    → order < 11
    → Allocated order free (buddy_alloc_pages_sub order s)
unfolding buddy_alloc_pages_sub
buddy_alloc_pages_sub-Allocated order s free i a =
    alloc_from-Allocated (11 - order) order order s free i (omega arith) (omega arith)
      (λ j l u. absurd (omega arith))
