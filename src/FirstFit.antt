-- ===== src/FirstFit.antt =====
-- mm/ff_mm.c: the first-fit allocator of physical pages.
pub mod Blocks
pub mod Alloc
pub mod Take
pub mod Init
pub mod Insert
pub mod Free
mod Tests
use hurlex_ii.Base.{
  ℕ, zero, suc, ◌+◌, ◌-◌, Bool, true, false, not, ◌&&◌, ◌||◌, Option, none, some, ◌==◌, ltb, leb,
  if◌then◌else◌, add32, sub32, update,
}
use hurlex_ii.Links.{Links, init_list_head, list_add_before, list_del}
use hurlex_ii.Pmm.{page_size, page_to_addr, addr_to_page}

-- `page_t`. The bits of `flag` are three fields; the list node of a page is in `FirstFit.links`.
pub record Page : Type 0 where
  pub ref : ℕ
  pub reserved : Bool
  pub counted : Bool
  pub ncount : ℕ

-- `ff_mm_info` and the array of pages. The head of the free list stands at 0.
pub record FirstFit : Type 0 where
  pub links : Links
  pub pages : ℕ → Page
  pub mm_addr_start : ℕ
  pub mm_addr_end : ℕ
  pub phy_page_count : ℕ
  pub phy_page_now_count : ℕ

abbrev pub free_list : ℕ
free_list = 0

-- The list node of a page, and `le_to_page`. The code applies that to the head also, for a pointer
-- outside the array: the test that it makes of it fails, as it does here with page 0.
abbrev pub page_node : ℕ → ℕ
page_node p = suc p

abbrev pub le_to_page : ℕ → ℕ
le_to_page le = le - 1

abbrev pub set_links : Links → FirstFit → FirstFit
set_links l s = record s { links = l }

abbrev pub set_reserved : Bool → ℕ → FirstFit → FirstFit
set_reserved v p s = record s { pages = update s.pages p (record (s.pages p) { reserved = v }) }

abbrev pub set_counted : Bool → ℕ → FirstFit → FirstFit
set_counted v p s = record s { pages = update s.pages p (record (s.pages p) { counted = v }) }

abbrev pub set_ncount : ℕ → ℕ → FirstFit → FirstFit
set_ncount n p s = record s { pages = update s.pages p (record (s.pages p) { ncount = n }) }

abbrev pub set_ref : ℕ → ℕ → FirstFit → FirstFit
set_ref n p s = record s { pages = update s.pages p (record (s.pages p) { ref = n }) }

-- The loop of `ff_page_init` over `rounds` pages from `p` on.
pub init_pages : (rounds p : ℕ) → FirstFit → FirstFit
init_pages zero p s = s
init_pages (suc rounds) p s =
    let s1 = set_reserved true p s in
    init_pages rounds (p + 1) (set_links (list_add_before (page_node p) free_list s1.links) s1)

pub ff_page_init : (pmm_addr_start n : ℕ) → FirstFit → Option FirstFit
ff_page_init pmm_addr_start n s = elim (page_to_addr pmm_addr_start 0) [
  | none ↦ none
  | some first ↦ elim (page_to_addr pmm_addr_start (sub32 n 1)) [
    | none ↦ none
    | some last ↦
        let s1 = record s {
          phy_page_count = n;
          phy_page_now_count = n;
          mm_addr_start = first;
          mm_addr_end = add32 last page_size;
          links = init_list_head free_list s.links;
        } in
        some (set_counted true 0 (set_ncount n 0 (init_pages n 0 s1)))
  ]
]

-- The inner loop of `ff_alloc_pages`: it takes `n` pages off the list from `le` on, and returns
-- the node behind them.
pub take_pages : (n le : ℕ) → FirstFit → ℕ × FirstFit
take_pages zero le s = (le, s)
take_pages (suc n) le s =
    let len = s.links.next le in
    let s1 = set_reserved false (le_to_page le) s in
    take_pages n len (set_links (list_del le s1.links) s1)

-- What follows the inner loop: `p` is the first page taken, `le` the node that the loop ended at.
pub settle : (n p le : ℕ) → FirstFit → FirstFit
settle n p le s =
    let s1 =
      if ltb n (s.pages p).ncount
      then set_ncount ((s.pages p).ncount - n) (le_to_page le) (set_counted true (le_to_page le) s)
      else s in
    let s2 = set_counted false p (set_ncount 0 p s1) in
    record s2 { phy_page_now_count = sub32 s2.phy_page_now_count n }

-- The body of the outer loop, which returns in its first round: `p` is the first page of the list.
pub take_first : (n le : ℕ) → FirstFit → FirstFit
take_first n le s =
    let p = le_to_page le in
    let (le1, s1) =
      if (s.pages p).counted && leb n (s.pages p).ncount then take_pages n le s else (le, s) in
    settle n p le1 s1

-- The address, or 0, and the new state; `none` is the failed assertion of `page_to_addr`.
pub ff_alloc_pages : (pmm_addr_start n : ℕ) → FirstFit → Option (ℕ × FirstFit)
ff_alloc_pages pmm_addr_start n s =
    if (n == 0) || ltb s.phy_page_now_count n
    then some (0, s)
    else (let le = s.links.next free_list in
        if le == free_list
        then some (0, s)
        else elim (page_to_addr pmm_addr_start (le_to_page le)) [
          | none ↦ none
          | some addr ↦ some (addr, take_first n le s)
        ])

-- The first node behind `le` whose page lies above `base`, or the head; `none` is out of fuel.
pub find_above : (fuel le base : ℕ) → Links → Option ℕ
find_above zero le base h = none
find_above (suc fuel) le base h =
    let rest = find_above fuel (h.next le) base h in
    if h.next le == free_list
    then some free_list
    else if ltb base (le_to_page (h.next le))
    then some (h.next le)
    else rest

-- It puts `rounds` pages from `p` on before the node `le`.
pub insert_pages : (rounds p le : ℕ) → FirstFit → FirstFit
insert_pages zero p le s = s
insert_pages (suc rounds) p le s =
    insert_pages rounds (p + 1) le (set_links (list_add_before (page_node p) le s.links) s)

-- The loop that gives the pages of `base` to the block before it, back to the head.
pub merge_back : (fuel le base : ℕ) → FirstFit → Option FirstFit
merge_back zero le base s = none
merge_back (suc fuel) le base s =
    let p = le_to_page le in
    let s1 =
      if (s.pages p).counted
      then set_ncount 0 base
          (set_counted false base (set_ncount ((s.pages p).ncount + (s.pages base).ncount) p s))
      else s in
    let rest = merge_back fuel (s.links.prev le) base s1 in if le == free_list then some s else rest

-- `none` is a failed assertion, or out of fuel.
pub ff_free_pages : (fuel pmm_addr_start addr n : ℕ) → FirstFit → Option FirstFit
ff_free_pages fuel pmm_addr_start addr n s =
    if n == 0 then some s else elim (addr_to_page pmm_addr_start addr) [
      | none ↦ none
      | some base ↦
          if (s.pages base).reserved
          then none
          else (let s1 = set_ncount n base (set_counted true base (set_ref 0 base s)) in
              elim (find_above fuel free_list base s1.links) [
                | none ↦ none
                | some le ↦
                    let s2 = insert_pages n base le s1 in
                    let p = le_to_page le in
                    let s3 =
                      if base + n == p
                      then set_ncount 0 p (
                          set_counted false p
                            (set_ncount ((s2.pages base).ncount + (s2.pages p).ncount) base s2))
                      else s2 in
                    let before = s3.links.prev (page_node base) in
                    let merged =
                      if not (before == free_list) && (le_to_page before + 1 == base)
                      then merge_back fuel before base s3
                      else some s3 in
                    elim merged [
                      | none ↦ none
                      | some s4 ↦
                          some (record s4 { phy_page_now_count = add32 s4.phy_page_now_count n })
                    ]
              ])
    ]
