-- ===== src/Buddy/Count.antt =====
-- mm/buddy_mm.c: orders, and the counts of free pages.
use Prim.Native.Nat.{ℕ, zero, suc, ◌+◌, ◌-◌, ◌*◌, ◌/◌, ◌%◌, ◌^◌, ◌<◌, ◌≤◌, bit_and, bit_xor}
use native.Mathlib.Nat.{pow-suc}
use hurlex_ii.Base.{
  ◌≡◌, refl, ap, sym, subst, ◌∙◌, ◌≢◌, true, false, ◌||◌, Option, none, some, arith, ◌==◌, ltb, leb,
  leb→le, Bool-cases, inl, inr, add32, sub32, mul32, ne→==_false,
}
use hurlex_ii.Links.{list_del, list_empty}
use hurlex_ii.Pmm.{addr_to_page}
use hurlex_ii.Pmm.Bounds.{page_to_addr_lem}
use hurlex_ii.Buddy.{
  Buddy, get_order, order_from, add_block, split_block, take_block_of, alloc_from,
  buddy_alloc_pages_sub, clear_refs, join_buddies, buddy_free_pages_sub, free_bits,
  buddy_free_pages, give_back, buddy_alloc_pages, set_page, count_free, page_node, page_is_buddy,
}

-- The order of the smallest power of two that holds `size` pages, at most `most`.
abbrev pub Smallest : (most size : ℕ) → Option ℕ → Type 0
Smallest most size r = (k : ℕ) × (r ≡ some k) × (size ≤ 2 ^ k) × (2 ^ k < 2 * size) × (k ≤ most)

order_from-Smallest :
    (rounds order size : ℕ)
    → 2 ^ order < 2 * size
    → size ≤ 2 ^ (order + rounds)
    → Smallest (order + rounds) size (order_from (suc rounds) order size)
unfolding order_from
order_from-Smallest zero order size lo hi =
    let e : order + 0 ≡ order = omega arith in
    let h : size ≤ 2 ^ order = subst (λ m. size ≤ 2 ^ m) e hi in
    let y : leb size (2 ^ order) ≡ true = ground arith in rw y (order, refl, h, lo, omega arith)
order_from-Smallest (suc rounds) order size lo hi = elim (Bool-cases (leb size (2 ^ order))) [
  | inl y ↦ rw y (order, refl, leb→le size (2 ^ order) y, lo, omega arith)
  | inr n ↦
      let e : order + suc rounds ≡ order + 1 + rounds = omega arith in
      let p : 2 ^ (order + 1) ≡ 2 ^ order * 2 =
        subst (λ m. 2 ^ m ≡ 2 ^ order * 2) (omega arith) (pow-suc 2 order) in
      let l : 2 ^ order < size = ground arith in
      let (k, q, a, b, c) =
        order_from-Smallest rounds (order + 1) size (omega arith)
          (subst (λ m. size ≤ 2 ^ m) e hi) in
      rw n (k, q, a, b, omega arith)
]

-- For 1 to 1024 pages `get_order` returns the order of the smallest power of two that holds them.
pub get_order-Smallest : (size : ℕ) → 1 ≤ size → size ≤ 1024 → Smallest 10 size (get_order size)
unfolding get_order
get_order-Smallest size lo hi = order_from-Smallest 10 0 size (omega arith) hi

-- No step changes the count of free pages but those that say so.
pub add_block-now :
    (p order : ℕ) (s : Buddy) → (add_block p order s).phy_page_now_count ≡ s.phy_page_now_count
unfolding add_block
add_block-now p order s = refl

split_block-now :
    (rounds order page : ℕ) (s : Buddy)
    → (split_block rounds order page s).phy_page_now_count ≡ s.phy_page_now_count
unfolding split_block
split_block-now zero order page s = refl
split_block-now (suc rounds) order page s =
    split_block-now rounds order page (add_block (page + 2 ^ (order + rounds)) (order + rounds) s)
    ∙ add_block-now (page + 2 ^ (order + rounds)) (order + rounds) s

take_block_of-now :
    (cur_order order : ℕ) (s : Buddy)
    → (take_block_of cur_order order s).1.phy_page_now_count ≡ s.phy_page_now_count
unfolding take_block_of
take_block_of-now cur_order order s =
    let page = s.links.next cur_order - 11 in
    let s1 = count_free cur_order (sub32 (s.nr_free cur_order) 1) s in
    split_block-now (cur_order - order) order page
      (record s1 { links = list_del (s.links.next cur_order) s1.links })

abbrev now_of : Option (ℕ × Buddy) → ℕ
now_of none = 0
now_of (some (p, s)) = s.phy_page_now_count

pub alloc_from-now :
    (rounds cur_order order page : ℕ) (s s1 : Buddy)
    → alloc_from rounds cur_order order s ≡ some (page, s1)
    → s1.phy_page_now_count ≡ s.phy_page_now_count
unfolding alloc_from
alloc_from-now zero cur_order order page s s1 e = cc
alloc_from-now (suc rounds) cur_order order page s s1 e =
    elim (Bool-cases (list_empty cur_order s.links)) [
      | inl y ↦ alloc_from-now rounds (cur_order + 1) order page s s1 (rw y at e)
      | inr n ↦ sym (ap now_of (rw n at e)) ∙ take_block_of-now cur_order order s
    ]

clear_refs-now :
    (rounds p : ℕ) (s : Buddy) → (clear_refs rounds p s).phy_page_now_count ≡ s.phy_page_now_count
unfolding clear_refs
clear_refs-now zero p s = refl
clear_refs-now (suc rounds) p s =
    clear_refs-now rounds (p + 1) (set_page p (record (s.pages p) { ref = 0 }) s)

join_buddies-now :
    (rounds page_idx order : ℕ) (s : Buddy)
    → let (p, o, s1) = join_buddies rounds page_idx order s in
      s1.phy_page_now_count ≡ s.phy_page_now_count
unfolding join_buddies
join_buddies-now zero page_idx order s = refl
join_buddies-now (suc rounds) page_idx order s =
    let buddy = bit_xor page_idx (2 ^ order) in
    let s1 = count_free order (sub32 (s.nr_free order) 1) s in
    let s2 = record s1 { links = list_del (page_node buddy) s1.links } in
    let s3 = set_page buddy (record (s2.pages buddy) { ordered = false }) s2 in
    elim (Bool-cases (page_is_buddy buddy order s)) [
      | inl y ↦ rw y (join_buddies-now rounds (bit_and page_idx buddy) (order + 1) s3)
      | inr n ↦ rw n refl
    ]

buddy_free_pages_sub-now :
    (base order : ℕ) (s : Buddy)
    → (buddy_free_pages_sub base order s).phy_page_now_count ≡ s.phy_page_now_count
unfolding buddy_free_pages_sub
buddy_free_pages_sub-now base order s =
    let s1 = clear_refs (2 ^ order) base s in
    let (p, o, s2) = join_buddies (10 - order) base order s1 in
    add_block-now p o s2
    ∙ (join_buddies-now (10 - order) base order s1 ∙ clear_refs-now (2 ^ order) base s)

free_bits-now :
    (rounds n base order : ℕ) (s : Buddy)
    → (free_bits rounds n base order s).phy_page_now_count ≡ s.phy_page_now_count
unfolding free_bits
free_bits-now zero n base order s = refl
free_bits-now (suc rounds) n base order s = elim (Bool-cases (leb (2 ^ order) n)) [
  | inl y ↦ elim (Bool-cases (n / 2 ^ order % 2 == 1)) [
    | inl b ↦
        rw (y, b)
          (free_bits-now rounds (n - 2 ^ order) (base + 2 ^ order) (order + 1)
              (buddy_free_pages_sub base order s)
            ∙ buddy_free_pages_sub-now base order s)
    | inr b ↦ rw (y, b) (free_bits-now rounds n base (order + 1) s)
  ]
  | inr z ↦ rw z refl
]

-- When the pages have been set up and the count stays a word, giving back `n` pages counts them as
-- free.
pub buddy_free_pages-count :
    (start addr n : ℕ) (s : Buddy)
    → start ≢ 0
    → s.phy_page_now_count + n < 2 ^ 32
    → (s1 : Buddy) × (buddy_free_pages start addr n s ≡ some s1)
      × (s1.phy_page_now_count ≡ s.phy_page_now_count + n)
unfolding buddy_free_pages addr_to_page
buddy_free_pages-count start addr n s ns small = elim (Bool-cases (n == 0)) [
  | inl y ↦ let z : n ≡ 0 = ground arith in rw y (s, refl, omega arith)
  | inr p ↦
      let q : (start == 0) ≡ false = ne→==_false start 0 ns in
      let base = sub32 (addr / 4096 * 4096) start / 4096 in
      let s0 = record s { phy_page_now_count = add32 s.phy_page_now_count n } in
      rw (p, q) (free_bits 32 n base 0 s0, refl, free_bits-now 32 n base 0 s0 ∙ omega arith)
]

-- An allocation that finds a block larger than what was asked for counts the rest as free a second
-- time: the count, if it stays a word, falls by `n` and rises by what is left of the block.
pub buddy_alloc_pages_drifts :
    (start n order page : ℕ) (s s1 : Buddy)
    → start ≢ 0
    → 0 < n
    → n ≤ s.phy_page_now_count
    → s.phy_page_now_count + 2 ^ order < 2 ^ 32
    → get_order n ≡ some order
    → buddy_alloc_pages_sub order s ≡ some (page, s1)
    → n < 2 ^ order
    → (addr : ℕ) × (s' : Buddy) × (buddy_alloc_pages start n s ≡ some (addr, s'))
      × (s'.phy_page_now_count + n ≡ s.phy_page_now_count + (2 ^ order - n))
unfolding buddy_alloc_pages give_back buddy_alloc_pages_sub
buddy_alloc_pages_drifts start n order page s s1 ns some_pages le small o b part =
    let z : ((n == 0) || ltb s.phy_page_now_count n) ≡ false = ground arith in
    let d : (n == 2 ^ order) ≡ false = ne→==_false n (2 ^ order) (omega arith) in
    let now = alloc_from-now (11 - order) order order page s s1 b in
    let (s2, f, c) =
      buddy_free_pages-count start (add32 start (mul32 (page + n) 4096)) (2 ^ order - n) s1 ns
        (omega arith) in
    rw (z, o, b, d, page_to_addr_lem start (page + n) ns, f, page_to_addr_lem start page ns)
      (
        add32 start (mul32 page 4096),
        record s2 { phy_page_now_count = sub32 s2.phy_page_now_count n },
        refl,
        omega arith,
      )
