-- ===== src/Buddy/Whole.antt =====
-- mm/buddy_mm.c: `buddy_alloc_pages` for a number of pages that fills a block.
use native.Mathlib.Nat.{pow-suc, pow-le-pow_right}
use hurlex_ii.Base.{
  suc, Bool-cases, ℕ, ◌+◌, ◌-◌, ◌*◌, ◌^◌, ◌≤◌, ◌<◌, ◌≡◌, ◌≢◌, refl, true, false, List, ◌∷◌, arith,
  ◌==◌, ltb, ◌||◌, some, inl, inr, ◌⊎◌, ◌∙◌, ap, sub32, add32, mul32, pow_pos,
}
use hurlex_ii.Pmm.{page_size}
use hurlex_ii.Pmm.Bounds.{page_to_addr_lem}
use hurlex_ii.Buddy.{
  Buddy, get_order, give_back, buddy_alloc_pages, buddy_alloc_pages_sub, page_node,
}
use hurlex_ii.Buddy.Count.{get_order-Smallest, alloc_from-now}
use hurlex_ii.Buddy.Blocks.{IsBuddy, Clear}
use hurlex_ii.Buddy.Alloc.{Empty, Taken, buddy_alloc_pages_sub-Allocated}

-- The only order of a power of two.
order_of_pow : (o k : ℕ) → 2 ^ o ≤ 2 ^ k → 2 ^ k < 2 * 2 ^ o → k ≡ o
order_of_pow o k lo hi = elim (Bool-cases (ltb k o)) [
  | inl y ↦
      let l : k + 1 ≤ o = ground arith in
      let p = pow-le-pow_right {n = 2} (omega arith) l in
      let w = pow_pos k in let q : 2 ^ (k + 1) ≡ 2 ^ k * 2 = double k in absurd (omega arith)
  | inr n ↦ elim (Bool-cases (ltb o k)) [
    | inl y ↦
        let l : o + 1 ≤ k = ground arith in
        let p = pow-le-pow_right {n = 2} (omega arith) l in
        let q : 2 ^ (o + 1) ≡ 2 ^ o * 2 = double o in absurd (omega arith)
    | inr m ↦ ground arith
  ]
]
  where
    double : (m : ℕ) → 2 ^ (m + 1) ≡ 2 ^ m * 2
    double m = let z : m + 1 ≡ suc m = omega arith in rw z (pow-suc 2 m)

get_order-pow : (order : ℕ) → order < 11 → get_order (2 ^ order) ≡ some order
get_order-pow order a =
    let w = pow_pos order in
    let l : order ≤ 10 = omega arith in
    let p : 2 ^ order ≤ 2 ^ 10 = pow-le-pow_right {n = 2} (omega arith) l in
    let (k, e, lo, hi, m) = get_order-Smallest (2 ^ order) (omega arith) (omega arith) in
    e ∙ ap some (order_of_pow order k lo hi)

counted_off : (n : ℕ) (s : Buddy) → Buddy
counted_off n s = record s { phy_page_now_count = sub32 s.phy_page_now_count n }

counted_off-IsBuddy :
    (n : ℕ) (s : Buddy) (free : ℕ → List ℕ) → IsBuddy s free → IsBuddy (counted_off n s) free
unfolding counted_off
counted_off-IsBuddy n s free i = record {
  rings = i.rings;
  marked = i.marked;
  counted = i.counted;
  disjoint = i.disjoint;
}

-- With pages that are set up, free lists that keep the invariant, and a count of free pages that is a
-- word and covers the request, `buddy_alloc_pages` for `2 ^ order` pages, an order of at most 10,
-- returns 0 and changes nothing if no block of that order or above is free. Otherwise it
-- returns the address of the first block of the smallest such order that has one, puts the upper
-- halves on the lists of their orders, keeps the invariant with the block clear of all that are
-- still free, and counts `2 ^ order` pages off.
pub buddy_alloc_pages-Allocated :
    (start order : ℕ) (s : Buddy) (free : ℕ → List ℕ)
    → start ≢ 0
    → order < 11
    → IsBuddy s free
    → 2 ^ order ≤ s.phy_page_now_count
    → s.phy_page_now_count < 2 ^ 32
    → (Empty free order 11 × (buddy_alloc_pages start (2 ^ order) s ≡ some (0, s)))
      ⊎ ((k : ℕ) × (page : ℕ) × (rest : List ℕ) × (s' : Buddy) × (free' : ℕ → List ℕ) × Empty free
            order k
          × (free k ≡ page_node page ∷ rest)
          × (buddy_alloc_pages start (2 ^ order) s ≡ some (add32 start (mul32 page page_size), s'))
          × IsBuddy s' free'
          × Clear free' page order
          × Taken order k page free free' rest
          × (s'.phy_page_now_count + 2 ^ order ≡ s.phy_page_now_count))
unfolding buddy_alloc_pages give_back counted_off buddy_alloc_pages_sub
buddy_alloc_pages-Allocated start order s free ns a i enough small =
    let w = pow_pos order in
    let z : ((2 ^ order == 0) || ltb s.phy_page_now_count (2 ^ order)) ≡ false = ground arith in
    let y : (2 ^ order == 2 ^ order) ≡ true = ground arith in
    let o = get_order-pow order a in
    elim (buddy_alloc_pages_sub-Allocated order s free i a) [
      | inl (e, q) ↦ inl (e, rw (buddy_alloc_pages, z, o, q) refl)
      | inr (k, page, rest, s1, free', le, lt, e, f, q, i1, c, t) ↦
          let now = alloc_from-now (11 - order) order order page s s1 q in
          inr (
            k,
            page,
            rest,
            counted_off (2 ^ order) s1,
            free',
            e,
            f,
            rw (buddy_alloc_pages, z, o, q, y, page_to_addr_lem start page ns) refl,
            counted_off-IsBuddy (2 ^ order) s1 free' i1,
            c,
            t,
            omega (arith, now),
          )
    ]
