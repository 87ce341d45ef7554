-- ===== src/Pmm.antt =====
-- arch/i386/mm/pmm.c and pmm.h: physical pages. A `page_t *` into `phy_pages` is its index.
pub mod Bounds
use hurlex_ii.Base.{
  ℕ, zero, suc, ◌+◌, ◌-◌, ◌*◌, ◌/◌, ◌%◌, ◌^◌, Bool, true, false, ◌&&◌, Option, none, some, List, [],
  ◌∷◌, ◌++◌, ◌==◌, ltb, leb, if◌then◌else◌, add32, sub32, mul32,
}

abbrev pub page_size : ℕ
page_size = 0x1000

-- `x & PMM_PAGE_MASK`, the mask 0xFFFFF000.
abbrev pub page_mask : ℕ → ℕ
page_mask x = x / page_size * page_size

abbrev pub zone_highmem_addr : ℕ
zone_highmem_addr = 0x3800_0000

abbrev pub ram_kernel_start : ℕ
ram_kernel_start = 0x10_0000

abbrev pub kernbase : ℕ
kernbase = 0xC000_0000

-- An entry of the memory map of the boot loader.
pub record MmapEntry : Type 0 where
  pub base_addr_low : ℕ
  pub base_addr_high : ℕ
  pub length_low : ℕ
  pub length_high : ℕ
  pub type : ℕ

-- An entry of `e820map_t`; the map is the list of its first `count` entries.
pub record E820Entry : Type 0 where
  pub addr_low : ℕ
  pub addr_high : ℕ
  pub length_low : ℕ
  pub length_high : ℕ
  pub type : ℕ

-- The test of `get_ram_info`.
abbrev pub is_kernel_ram : MmapEntry → Bool
is_kernel_ram e = (e.type == 1) && (e.base_addr_low == ram_kernel_start)

-- The entry that it adds, with the type `E820_ARM`.
abbrev pub region : MmapEntry → E820Entry
region e = record {
  addr_low = e.base_addr_low;
  addr_high = e.base_addr_high;
  length_low = e.length_low;
  length_high = e.length_high;
  type = 1;
}

-- The loop of `get_ram_info` over `rounds` entries from entry `i` on.
ram_loop : (ℕ → MmapEntry) → (rounds i : ℕ) → List E820Entry → List E820Entry
ram_loop entries zero i map = map
ram_loop entries (suc rounds) i map =
    let e = entries i in
    ram_loop entries rounds (i + 1) (if is_kernel_ram e then map ++ (region e ∷ []) else map)

-- The end pointer is the start plus `mmap_length`, in entries.
pub get_ram_info : (entries : ℕ → MmapEntry) (mmap_length : ℕ) → List E820Entry
get_ram_info entries mmap_length = ram_loop entries mmap_length 0 []

-- The first loop of `phy_pages_init`.
pub ram_length : List E820Entry → ℕ → ℕ
ram_length [] acc = acc
ram_length (e ∷ es) acc =
    let rest = ram_length es (add32 acc e.length_low) in
    if ltb zone_highmem_addr e.addr_low
    then acc
    else if ltb zone_highmem_addr (add32 e.addr_low e.length_low)
    then zone_highmem_addr
    else rest

-- `for (addr = start; addr < end; addr += PMM_PAGE_SIZE) phy_pages_count++`
pub count_pages : (fuel addr end count : ℕ) → Option ℕ
count_pages zero addr end count = none
count_pages (suc fuel) addr end count =
    let rest = count_pages fuel (add32 addr page_size) end (add32 count 1) in
    if ltb addr end then rest else some count

-- The globals that `phy_pages_init` sets.
pub record Phys : Type 0 where
  pub addr_start : ℕ
  pub addr_end : ℕ
  pub pages_count : ℕ

-- `sizeof(page_t)`
abbrev pub sizeof_page : ℕ
sizeof_page = 20

-- `pmm_addr_start`, for the array `phy_pages` at a kernel address.
pub pmm_start : (phy_pages phy_mem_length : ℕ) → ℕ
pmm_start phy_pages phy_mem_length =
    let pages_mem_length = mul32 sizeof_page (phy_mem_length / page_size) in
    page_mask (add32 (add32 (sub32 phy_pages kernbase) pages_mem_length) page_size)

-- One round of the second loop, over one entry of the map.
pub add_region : (fuel : ℕ) → E820Entry → Phys → Option Phys
add_region fuel e p =
    let end = add32 e.addr_low e.length_low in
    let start_addr = if ltb e.addr_low p.addr_start then p.addr_start else e.addr_low in
    let end_addr = if ltb zone_highmem_addr end then zone_highmem_addr else end in
    elim (count_pages fuel start_addr end_addr p.pages_count) [
      | none ↦ none
      | some n ↦ some (record p { addr_end = end_addr; pages_count = n })
    ]

add_regions : (fuel : ℕ) → List E820Entry → Phys → Option Phys
add_regions fuel [] p = some p
add_regions fuel (e ∷ es) p = elim (add_region fuel e p) [
  | none ↦ none
  | some q ↦ add_regions fuel es q
]

-- `phy_pages_init` up to its assertions.
pub phy_pages_init : (fuel phy_pages : ℕ) → List E820Entry → Option Phys
phy_pages_init fuel phy_pages map =
    add_regions fuel map (record {
      addr_start = pmm_start phy_pages (ram_length map 0);
      addr_end = 0;
      pages_count = 0;
    })

-- `none` is the failed assertion: the memory was not initialised.
unfoldable pub addr_to_page : (pmm_addr_start addr : ℕ) → Option ℕ
addr_to_page pmm_addr_start addr =
    if pmm_addr_start == 0 then none else some (sub32 (page_mask addr) pmm_addr_start / page_size)

unfoldable pub page_to_addr : (pmm_addr_start page : ℕ) → Option ℕ
page_to_addr pmm_addr_start page =
    if pmm_addr_start == 0 then none else some (add32 pmm_addr_start (mul32 page page_size))
