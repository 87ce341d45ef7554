-- ===== src/Buddy/Tests.antt =====
-- mm/buddy_mm.c: the theorems on an allocator with one block of four pages.
use Prim.Native.Nat.{ℕ, ◌+◌}
use hurlex_ii.Base.{
  ◌⊎◌, add32, mul32, ◌≡◌, refl, some, arith, ◌==◌, if◌then◌else◌, true, false, List, [], ◌∷◌,
  Bool-cases, inl, inr, subst, sym, ◌∙◌,
}
use hurlex_ii.Links.{list_empty}
use hurlex_ii.Buddy.{
  Buddy, page_node, get_order, buddy_alloc_pages, buddy_alloc_pages_sub, alloc_from, take_block_of,
  order_from, fill_lists, buddy_page_init,
}
use hurlex_ii.Links.Ring.{has, IsRing}
use hurlex_ii.Buddy.Blocks.{IsBuddy, Clear}
use hurlex_ii.Buddy.Total.{total}
use hurlex_ii.Pmm.{page_size}
use hurlex_ii.Buddy.Whole.{buddy_alloc_pages-Allocated}
use hurlex_ii.Buddy.Init.{IsBelow}
use hurlex_ii.Buddy.Boot.{Tested, buddy_page_init-Tested}
use hurlex_ii.Buddy.Alloc.{Empty, Taken, Allocated, buddy_alloc_pages_sub-Allocated}
use hurlex_ii.Buddy.Count.{buddy_alloc_pages_drifts}

abbrev four_pages : Buddy
four_pages = record {
  links = record {
    next = λ p. if p == 2 then 11 else if p == 11 then 2 else p;
    prev = λ p. if p == 2 then 11 else if p == 11 then 2 else p;
  };
  pages = λ p. record { ref = 0; ordered = p == 0; order = 2 };
  nr_free = λ o. if o == 2 then 1 else 0;
  mm_addr_start = 0x40_0000;
  mm_addr_end = 0x40_4000;
  phy_page_count = 4;
  phy_page_now_count = 4;
}

-- Three of the four pages are taken, and two are counted as free.
buddy_alloc_pages_drifts_example :
    (addr : ℕ) × (s' : Buddy) × (buddy_alloc_pages 0x40_0000 3 four_pages ≡ some (addr, s'))
    × (s'.phy_page_now_count + 3 ≡ 5)
unfolding buddy_alloc_pages_sub alloc_from get_order order_from list_empty take_block_of
buddy_alloc_pages_drifts_example =
    buddy_alloc_pages_drifts 0x40_0000 3 2 0 four_pages (take_block_of 2 2 four_pages).1
      (omega arith) (omega arith) (omega arith) (omega arith) refl refl (omega arith)

abbrev one_block : ℕ → List ℕ
one_block o = if o == 2 then 11 ∷ [] else []

only : (o v : ℕ) → has v (one_block o) ≡ true → (o ≡ 2) × (v ≡ 11)
only o v k = elim (Bool-cases (o == 2)) [
  | inl y ↦ let j : has v (11 ∷ []) ≡ true = rw y at k in (ground arith, ground arith)
  | inr n ↦ let j : false ≡ true = rw n at k in cc
]

four_pages-IsBuddy : IsBuddy four_pages one_block
four_pages-IsBuddy = record {
  rings = record {
    ring = λ o l. elim (Bool-cases (o == 2)) [
      | inl y ↦
          let z : 2 ≡ o = ground arith in
          rw y (
            subst (λ m. IsRing four_pages.links m (11 ∷ [])) z
              (record { path = ((refl, refl), (refl, refl)); distinct = (refl, (refl, tt)) }))
      | inr n ↦
          let m : (o == 11) ≡ false = ground arith in
          rw n (record { path = (rw (n, m) refl, rw (n, m) refl); distinct = (refl, tt) })
    ];
    behind = λ o v l k. let (a, b) = only o v k in omega arith;
    apart = λ o p v l m ne k. elim (Bool-cases (has v (one_block p))) [
      | inl y ↦ let (a, b) = only o v k in let (c, d) = only p v y in absurd (ne (a ∙ sym c))
      | inr n ↦ n
    ];
  };
  marked = λ o v l k. let (a, b) = only o v k in rw (a, b) (refl, refl);
  counted = λ o l. elim (Bool-cases (o == 2)) [ inl y ↦ rw y refl | inr n ↦ rw n refl ];
  disjoint = λ o p v w l m j k ne.
      let (a, b) = only o v j in let (c, d) = only p w k in absurd (ne (b ∙ sym d));
}

buddy_alloc_pages_sub-Allocated_example : Allocated 0 one_block (buddy_alloc_pages_sub 0 four_pages)
buddy_alloc_pages_sub-Allocated_example =
    buddy_alloc_pages_sub-Allocated 0 four_pages one_block four_pages-IsBuddy (omega arith)

buddy_page_init-Tested_example :
    (s1 : Buddy) × (free : ℕ → List ℕ) × (fill_lists 2000 0x40_0000 1800 four_pages ≡ some s1)
    × IsBuddy s1 free
    × IsBelow free 1800
    × (total 11 free ≡ 1800)
    × (s1.phy_page_now_count ≡ 1800)
    × Tested 0x40_0000 s1 (buddy_page_init 2000 0x40_0000 1800 four_pages)
buddy_page_init-Tested_example =
    buddy_page_init-Tested 2000 0x40_0000 1800 four_pages (omega arith) (omega arith) (omega arith)

buddy_alloc_pages-Allocated_example :
    (Empty one_block 1 11 × (buddy_alloc_pages 0x40_0000 2 four_pages ≡ some (0, four_pages)))
    ⊎ ((k : ℕ) × (page : ℕ) × (rest : List ℕ) × (s' : Buddy) × (free' : ℕ → List ℕ) × Empty
          one_block 1 k
        × (one_block k ≡ page_node page ∷ rest)
        × (buddy_alloc_pages 0x40_0000 2 four_pages
            ≡ some (add32 0x40_0000 (mul32 page page_size), s'))
        × IsBuddy s' free'
        × Clear free' page 1
        × Taken 1 k page one_block free' rest
        × (s'.phy_page_now_count + 2 ≡ 4))
buddy_alloc_pages-Allocated_example =
    buddy_alloc_pages-Allocated 0x40_0000 1 four_pages one_block (omega arith) (omega arith)
      four_pages-IsBuddy (omega arith) (omega arith)
