-- ===== src/Buddy/Rounds.antt =====
-- mm/buddy_mm.c: the rounds of the test of the buddy allocator, and what they do to the count.
use hurlex_ii.Base.{
  ℕ, ◌+◌, ◌-◌, ◌*◌, ◌^◌, ◌≤◌, ◌<◌, ◌≡◌, ◌≢◌, refl, true, false, List, [], ◌∷◌, arith, ◌==◌, Bool,
  ltb, ◌||◌, ◌⊎◌, Option, none, some, inl, inr, Bool-cases, ap, sub32, add32, mul32, length,
}
use hurlex_ii.Pmm.{page_size}
use hurlex_ii.Pmm.Bounds.{page_to_addr_lem}
use hurlex_ii.Buddy.{
  Buddy, get_order, give_back, buddy_alloc_pages, buddy_alloc_pages_sub, alloc_each, free_each,
  alloc_and_free,
}
use hurlex_ii.Buddy.Count.{get_order-Smallest, alloc_from-now, buddy_free_pages-count}

-- What is left of the smallest block that holds `n` pages.
abbrev slack : ℕ → ℕ
slack n = elim (get_order n) [ none ↦ 0 | some order ↦ 2 ^ order - n ]

-- A request that ends: it gets the address 0, or the count falls by `n` and rises by the slack.
abbrev Counted : (start n : ℕ) → Buddy → Type 0
Counted start n s =
    (addr : ℕ) × (s' : Buddy) × (buddy_alloc_pages start n s ≡ some (addr, s'))
    × ((addr ≡ 0) ⊎ (s'.phy_page_now_count + n ≡ s.phy_page_now_count + slack n))
    × (s'.phy_page_now_count ≤ s.phy_page_now_count + 1024)

give_back-count :
    (start n order page : ℕ) (s : Buddy)
    → start ≢ 0
    → n ≤ 2 ^ order
    → s.phy_page_now_count + 2 ^ order < 2 ^ 32
    → (s' : Buddy) × (give_back start n order page s ≡ some s')
      × (s'.phy_page_now_count ≡ s.phy_page_now_count + (2 ^ order - n))
unfolding give_back
give_back-count start n order page s ns le small = elim (Bool-cases (n == 2 ^ order)) [
  | inl y ↦ let z : n ≡ 2 ^ order = ground arith in (s, rw y refl, omega arith)
  | inr d ↦
      let (s', f, c) =
        buddy_free_pages-count start (add32 start (mul32 (page + n) page_size)) (2 ^ order - n) s ns
          (omega arith) in
      (s', rw (d, page_to_addr_lem start (page + n) ns) f, c)
]

buddy_alloc_pages-Counted :
    (start n : ℕ) (s : Buddy)
    → start ≢ 0
    → 0 < n
    → n ≤ 1024
    → s.phy_page_now_count < 2 ^ 31
    → Counted start n s
unfolding buddy_alloc_pages buddy_alloc_pages_sub
buddy_alloc_pages-Counted start n s ns pos le small =
    let (order, o, enough, tight, most) = get_order-Smallest n pos le in
    let g : slack n ≡ 2 ^ order - n = rw (slack, o) refl in
    elim (Bool-cases (ltb s.phy_page_now_count n)) [
      | inl y ↦
          let z : ((n == 0) || ltb s.phy_page_now_count n) ≡ true = ground arith in
          (0, s, rw (buddy_alloc_pages, z) refl, inl refl, omega arith)
      | inr f ↦
          let z : ((n == 0) || ltb s.phy_page_now_count n) ≡ false = ground arith in
          elim (sub_cases order) [
            | inl q ↦ (0, s, rw (buddy_alloc_pages, z, o, q) refl, inl refl, omega arith)
            | inr (page, s1, q) ↦
                let now = alloc_from-now (11 - order) order order page s s1 q in
                let (s2, b, c) =
                  give_back-count start n order page s1 ns enough (omega (arith, now)) in
                let f' : n ≤ s.phy_page_now_count = ground arith in
                (
                  add32 start (mul32 page page_size),
                  record s2 { phy_page_now_count = sub32 s2.phy_page_now_count n },
                  rw (buddy_alloc_pages, z, o, q, b, page_to_addr_lem start page ns) refl,
                  inr (omega (arith, g, now, c)),
                  omega (arith, now, c),
                )
          ]
    ]
  where
    sub_cases :
        (order : ℕ)
        → (buddy_alloc_pages_sub order s ≡ none)
          ⊎ ((page : ℕ) × (s1 : Buddy) × (buddy_alloc_pages_sub order s ≡ some (page, s1)))
    sub_cases order = cases (buddy_alloc_pages_sub order s)
      where
        cases :
            (r : Option (ℕ × Buddy))
            → (r ≡ none) ⊎ ((page : ℕ) × (s1 : Buddy) × (r ≡ some (page, s1)))
        cases none = inl refl
        cases (some (page, s1)) = inr (page, s1, refl)

-- The numbers that the allocator serves.
abbrev Served : List ℕ → Type 0
Served [] = Unit
Served (n ∷ ns) = (0 < n) × (n ≤ 1024) × Served ns

abbrev sum : List ℕ → ℕ
sum [] = 0
sum (n ∷ ns) = n + sum ns

abbrev slacks : List ℕ → ℕ
slacks [] = 0
slacks (n ∷ ns) = slack n + slacks ns

abbrev sizes : List (ℕ × ℕ) → List ℕ
sizes [] = []
sizes ((addr, n) ∷ blocks) = n ∷ sizes blocks

-- A request among them got the address 0.
abbrev has_null : List (ℕ × ℕ) → Bool
has_null [] = false
has_null ((addr, n) ∷ blocks) = (addr == 0) || has_null blocks

abbrev EachCounted : (start : ℕ) → List ℕ → Buddy → Type 0
EachCounted start ns s =
    (blocks : List (ℕ × ℕ)) × (s' : Buddy) × (alloc_each start ns s ≡ some (blocks, s'))
    × (sizes blocks ≡ ns)
    × ((has_null blocks ≡ true)
        ⊎ (s'.phy_page_now_count + sum ns ≡ s.phy_page_now_count + slacks ns))
    × (s'.phy_page_now_count ≤ s.phy_page_now_count + 1024 * length ns)

alloc_each-count :
    (start : ℕ) (ns : List ℕ) (s : Buddy)
    → start ≢ 0
    → Served ns
    → s.phy_page_now_count + 1024 * length ns < 2 ^ 31
    → EachCounted start ns s
unfolding alloc_each
alloc_each-count start [] s ns v small = ([], s, refl, refl, inr refl, omega arith)
alloc_each-count start (n ∷ rest) s ns v small =
    let (addr, s1, e, o, hi) = buddy_alloc_pages-Counted start n s ns v.0 v.1 (omega arith) in
    let (blocks, s2, e2, z, o2, hi2) = alloc_each-count start rest s1 ns v.2 (omega arith) in
    (
      (addr, n) ∷ blocks,
      s2,
      rw (alloc_each, e, e2) refl,
      ap (λ l. n ∷ l) z,
      elim o [
        | inl null ↦ inl (ground (arith, null))
        | inr c ↦ elim o2 [
          | inl null ↦ inl (ground (arith, null))
          | inr c2 ↦ inr (omega (arith, c, c2))
        ]
      ],
      omega (arith, hi, hi2),
    )

free_each-count :
    (start : ℕ) (blocks : List (ℕ × ℕ)) (s : Buddy)
    → start ≢ 0
    → s.phy_page_now_count + sum (sizes blocks) < 2 ^ 32
    → (s' : Buddy) × (free_each start blocks s ≡ some s')
      × (s'.phy_page_now_count ≡ s.phy_page_now_count + sum (sizes blocks))
unfolding free_each
free_each-count start [] s ns small = (s, refl, omega arith)
free_each-count start ((addr, n) ∷ blocks) s ns small =
    let (s1, e, c) = buddy_free_pages-count start addr n s ns (omega arith) in
    let (s2, e2, c2) = free_each-count start blocks s1 ns (omega arith) in
    (s2, rw (free_each, e) e2, omega (arith, c, c2))

alloc_and_free-steps :
    (start : ℕ) (ns : List ℕ) (s s1 s2 : Buddy) (blocks : List (ℕ × ℕ))
    → alloc_each start ns s ≡ some (blocks, s1)
    → free_each start blocks s1 ≡ some s2
    → alloc_and_free start ns s ≡ some s2
alloc_and_free-steps start ns s s1 s2 blocks e e2 = rw (alloc_and_free, e) e2

-- Some request for one of the numbers, one after another, gets the address 0.
abbrev pub IsRefused : (start : ℕ) → List ℕ → Buddy → Type 0
IsRefused start ns s =
    (blocks : List (ℕ × ℕ)) × (s' : Buddy) × (alloc_each start ns s ≡ some (blocks, s'))
    × (has_null blocks ≡ true)

-- A round of the test: a request gets the address 0, or all are served and given back, and the count rises.
pub alloc_and_free-count :
    (start : ℕ) (ns : List ℕ) (s : Buddy)
    → start ≢ 0
    → Served ns
    → s.phy_page_now_count + 1024 * length ns < 2 ^ 31
    → sum ns < 2 ^ 31
    → IsRefused start ns s
      ⊎ ((s' : Buddy) × (alloc_and_free start ns s ≡ some s')
          × (s'.phy_page_now_count ≡ s.phy_page_now_count + slacks ns))
alloc_and_free-count start ns s nz v small few =
    let (blocks, s1, e, z, o, hi) = alloc_each-count start ns s nz v small in
    let w : sum (sizes blocks) ≡ sum ns = ap sum z in
    let (s2, e2, c) = free_each-count start blocks s1 nz (omega (arith, w, hi, small, few)) in
    elim o [
      | inl null ↦ inl (blocks, s1, e, null)
      | inr d ↦ inr (s2, alloc_and_free-steps start ns s s1 s2 blocks e e2, omega (arith, w, d, c))
    ]
