-- ===== src/Buddy.antt =====
-- mm/buddy_mm.c: the buddy allocator of physical pages. A page is its index in the array of pages; the
-- heads of the eleven free lists stand at 0 to 10 in the store of links, and the node of a page
-- behind them. Besides, the code prints the state of the allocator.
pub mod Count
pub mod Rings
pub mod Blocks
pub mod Total
pub mod Split
pub mod Alloc
pub mod Init
pub mod Whole
pub mod Rounds
pub mod Boot
mod Tests
use Prim.Native.Nat.{bit_and, bit_xor}
use hurlex_ii.Base.{
  ℕ, zero, suc, ◌+◌, ◌-◌, ◌*◌, ◌/◌, ◌%◌, ◌^◌, Bool, true, false, not, ◌&&◌, ◌||◌, Option, none,
  some, List, [], ◌∷◌, ◌==◌, ltb, leb, if◌then◌else◌, add32, sub32, update,
}
use hurlex_ii.Links.{Links, init_list_head, list_add, list_del, list_empty}
use hurlex_ii.Pmm.{page_size, page_to_addr, addr_to_page}

abbrev pub max_order : ℕ
max_order = 10

-- `page_t`, with its PG_ORDER flag as a field; the list node of a page is in `Buddy.links`.
pub record BuddyPage : Type 0 where
  pub ref : ℕ
  pub ordered : Bool
  pub order : ℕ

pub record Buddy : Type 0 where
  pub links : Links
  pub pages : ℕ → BuddyPage
  pub nr_free : ℕ → ℕ
  pub mm_addr_start : ℕ
  pub mm_addr_end : ℕ
  pub phy_page_count : ℕ
  pub phy_page_now_count : ℕ

abbrev pub page_node : ℕ → ℕ
page_node p = p + 11

abbrev pub le_to_page : ℕ → ℕ
le_to_page le = le - 11

abbrev pub set_page : ℕ → BuddyPage → Buddy → Buddy
set_page p v s = record s { pages = update s.pages p v }

abbrev pub count_free : ℕ → ℕ → Buddy → Buddy
count_free order n s = record s { nr_free = update s.nr_free order n }

-- A block of `2 ^ order` pages from `p` on goes to the front of the list of its order.
pub add_block : (p order : ℕ) → Buddy → Buddy
add_block p order s =
    let s1 = set_page p (record (s.pages p) { ordered = true; order = order }) s in
    let s2 = record s1 { links = list_add (page_node p) order s1.links } in
    count_free order (add32 (s2.nr_free order) 1) s2

pub init_lists : (rounds i : ℕ) → Buddy → Buddy
init_lists zero i s = s
init_lists (suc rounds) i s =
    init_lists rounds (i + 1) (count_free i 0 (record s { links = init_list_head i s.links }))

-- The two loops of `buddy_page_init`; none is out of fuel.
pub init_blocks : (fuel n p order : ℕ) → Buddy → Option Buddy
init_blocks zero n p order s = none
init_blocks (suc fuel) n p order s =
    let whole = init_blocks fuel (n - 2 ^ order) (p + 2 ^ order) order (add_block p order s) in
    let smaller = init_blocks fuel n p (order - 1) s in
    if n == 0 then some s else if leb (2 ^ order) n then whole else smaller

-- `buddy_page_init` up to the printing and the test.
pub fill_lists : (fuel pmm_addr_start n : ℕ) → Buddy → Option Buddy
fill_lists fuel pmm_addr_start n s = elim (page_to_addr pmm_addr_start 0) [
  | none ↦ none
  | some first ↦ elim (page_to_addr pmm_addr_start (sub32 n 1)) [
    | none ↦ none
    | some last ↦
        let s1 = record s {
          phy_page_count = n;
          phy_page_now_count = n;
          mm_addr_start = first;
          mm_addr_end = add32 last page_size;
        } in
        init_blocks fuel n 0 max_order (init_lists (max_order + 1) 0 s1)
  ]
]

-- The loop of `get_order` over `rounds` orders from `order` on; none is the panic.
pub order_from : (rounds order size : ℕ) → Option ℕ
order_from zero order size = none
order_from (suc rounds) order size =
    let rest = order_from rounds (order + 1) size in
    if leb size (2 ^ order) then some order else rest

pub get_order : ℕ → Option ℕ
get_order size = order_from (max_order + 1) 0 size

-- The loop that splits a block of `page`, of order `order + rounds`, down to `order`.
pub split_block : (rounds order page : ℕ) → Buddy → Buddy
split_block zero order page s = s
split_block (suc rounds) order page s =
    let cur_order = order + rounds in
    let buddy = page + 2 ^ cur_order in split_block rounds order page (add_block buddy cur_order s)

-- The rest of a round: the first block of the list of `cur_order` is taken.
pub take_block_of : (cur_order order : ℕ) → Buddy → ℕ × Buddy
take_block_of cur_order order s =
    let le = s.links.next cur_order in
    let page = le_to_page le in
    let s1 = count_free cur_order (sub32 (s.nr_free cur_order) 1) s in
    let s2 = record s1 { links = list_del le s1.links } in
    let s3 = split_block (cur_order - order) order page s2 in
    (page, set_page page (record (s3.pages page) { ordered = false }) s3)

-- The search over `rounds` orders from `cur_order` on: none is the null pointer.
pub alloc_from : (rounds cur_order order : ℕ) → Buddy → Option (ℕ × Buddy)
alloc_from zero cur_order order s = none
alloc_from (suc rounds) cur_order order s =
    let rest = alloc_from rounds (cur_order + 1) order s in
    if not (list_empty cur_order s.links) then some (take_block_of cur_order order s) else rest

-- For an order of at most `max_order`, which the assertion asks for.
pub buddy_alloc_pages_sub : (order : ℕ) → Buddy → Option (ℕ × Buddy)
buddy_alloc_pages_sub order s = alloc_from (max_order + 1 - order) order order s

pub page_is_buddy : (page order : ℕ) → Buddy → Bool
page_is_buddy page order s =
    if ltb page s.phy_page_count
    then (s.pages page).ordered && ((s.pages page).order == order)
    else false

pub clear_refs : (rounds p : ℕ) → Buddy → Buddy
clear_refs zero p s = s
clear_refs (suc rounds) p s =
    clear_refs rounds (p + 1) (set_page p (record (s.pages p) { ref = 0 }) s)

-- The loop that joins a block with its buddy, in at most `rounds` rounds up to `max_order`.
pub join_buddies : (rounds page_idx order : ℕ) → Buddy → ℕ × ℕ × Buddy
join_buddies zero page_idx order s = (page_idx, order, s)
join_buddies (suc rounds) page_idx order s =
    let buddy = bit_xor page_idx (2 ^ order) in
    let s1 = count_free order (sub32 (s.nr_free order) 1) s in
    let s2 = record s1 { links = list_del (page_node buddy) s1.links } in
    let s3 = set_page buddy (record (s2.pages buddy) { ordered = false }) s2 in
    let rest = join_buddies rounds (bit_and page_idx buddy) (order + 1) s3 in
    if page_is_buddy buddy order s then rest else (page_idx, order, s)

pub buddy_free_pages_sub : (base order : ℕ) → Buddy → Buddy
buddy_free_pages_sub base order s =
    let s1 = clear_refs (2 ^ order) base s in
    let (page_idx, order1, s2) = join_buddies (max_order - order) base order s1 in
    add_block page_idx order1 s2

-- The loop of `buddy_free_pages` over the bits of `n`, from `order` on.
pub free_bits : (rounds n base order : ℕ) → Buddy → Buddy
free_bits zero n base order s = s
free_bits (suc rounds) n base order s =
    let freed =
      free_bits rounds (n - 2 ^ order) (base + 2 ^ order) (order + 1)
        (buddy_free_pages_sub base order s) in
    let skipped = free_bits rounds n base (order + 1) s in
    if leb (2 ^ order) n then if n / 2 ^ order % 2 == 1 then freed else skipped else s

-- 32 rounds go through all bits of a word; none is the failed assertion of `addr_to_page`.
pub buddy_free_pages : (pmm_addr_start addr n : ℕ) → Buddy → Option Buddy
buddy_free_pages pmm_addr_start addr n s =
    if n == 0 then some s else elim (addr_to_page pmm_addr_start addr) [
      | none ↦ none
      | some base ↦
          some
            (free_bits 32 n base 0 (record s { phy_page_now_count = add32 s.phy_page_now_count n }))
    ]

-- What `buddy_alloc_pages` does with a block: it gives back what was not asked for.
pub give_back : (pmm_addr_start n order page : ℕ) → Buddy → Option Buddy
unfolding buddy_free_pages
give_back pmm_addr_start n order page s =
    if n == 2 ^ order then some s else elim (page_to_addr pmm_addr_start (page + n)) [
      | none ↦ none
      | some addr ↦ buddy_free_pages pmm_addr_start addr (2 ^ order - n) s
    ]

-- The address, or 0, and the new state; none is a failed assertion or the panic of `get_order`.
pub buddy_alloc_pages : (pmm_addr_start n : ℕ) → Buddy → Option (ℕ × Buddy)
buddy_alloc_pages pmm_addr_start n s =
    if (n == 0) || ltb s.phy_page_now_count n then some (0, s) else elim (get_order n) [
      | none ↦ none
      | some order ↦ elim (buddy_alloc_pages_sub order s) [
        | none ↦ some (0, s)
        | some (page, s1) ↦ elim (give_back pmm_addr_start n order page s1) [
          | none ↦ none
          | some s2 ↦ elim (page_to_addr pmm_addr_start page) [
            | none ↦ none
            | some addr ↦
                some (addr, record s2 { phy_page_now_count = sub32 s2.phy_page_now_count n })
          ]
        ]
      ]
    ]

-- `buddy_alloc_pages` for each number: the addresses, with the numbers, in their order.
pub alloc_each : (pmm_addr_start : ℕ) → List ℕ → Buddy → Option (List (ℕ × ℕ) × Buddy)
unfolding buddy_alloc_pages
alloc_each pmm_addr_start [] s = some ([], s)
alloc_each pmm_addr_start (n ∷ ns) s = elim (buddy_alloc_pages pmm_addr_start n s) [
  | none ↦ none
  | some (addr, s1) ↦ elim (alloc_each pmm_addr_start ns s1) [
    | none ↦ none
    | some (blocks, s2) ↦ some ((addr, n) ∷ blocks, s2)
  ]
]

-- `buddy_free_pages` for each of them, also for an address that is 0.
pub free_each : (pmm_addr_start : ℕ) → List (ℕ × ℕ) → Buddy → Option Buddy
unfolding buddy_free_pages
free_each pmm_addr_start [] s = some s
free_each pmm_addr_start ((addr, n) ∷ blocks) s = elim (buddy_free_pages pmm_addr_start addr n s) [
  | none ↦ none
  | some s1 ↦ free_each pmm_addr_start blocks s1
]

abbrev pub alloc_and_free : (pmm_addr_start : ℕ) → List ℕ → Buddy → Option Buddy
alloc_and_free pmm_addr_start ns s = elim (alloc_each pmm_addr_start ns s) [
  | none ↦ none
  | some (blocks, s1) ↦ free_each pmm_addr_start blocks s1
]

pub buddy_test_mm : (pmm_addr_start : ℕ) → Buddy → Option Buddy
buddy_test_mm pmm_addr_start s = elim (alloc_and_free pmm_addr_start (1 ∷ 2 ∷ []) s) [
  | none ↦ none
  | some s1 ↦ alloc_and_free pmm_addr_start (8 ∷ 16 ∷ 18 ∷ 27 ∷ 32 ∷ 129 ∷ 547 ∷ []) s1
]

-- The lists are filled, and then the allocator is tested.
pub buddy_page_init : (fuel pmm_addr_start n : ℕ) → Buddy → Option Buddy
unfolding buddy_test_mm fill_lists
buddy_page_init fuel pmm_addr_start n s = elim (fill_lists fuel pmm_addr_start n s) [
  | none ↦ none
  | some s1 ↦ buddy_test_mm pmm_addr_start s1
]
