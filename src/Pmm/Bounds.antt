-- ===== src/Pmm/Bounds.antt =====
-- arch/i386/mm/pmm.c: addresses and pages, the count of pages, and the reading of the memory map.
use hurlex_ii.Base.{
  ◌==◌, false, refl, ℕ, zero, suc, ◌+◌, ◌-◌, ◌*◌, ◌/◌, ◌%◌, ◌^◌, ◌≤◌, ◌<◌, ◌≡◌, ◌≢◌, true, inl, inr,
  some, List, [], ◌∷◌, ◌++◌, arith, length, length-append, ne→==_false, Bool-cases, add32, mul32,
  ltb, ltb→lt, ltb_false→le, sym, ◌∙◌, ap,
}
use mathlib.Core.Bool.{false≢true}
use hurlex_ii.Pmm.{
  page_size, zone_highmem_addr, addr_to_page, page_to_addr, count_pages, MmapEntry, E820Entry,
  is_kernel_ram, region, ram_loop, get_ram_info,
}

-- For a page below 4 GB `page_to_addr` gives a page boundary, and `addr_to_page` gives the page
-- back from there and from every address within the page.
pub addr_to_page-page_to_addr :
    (start page off : ℕ)
    → start ≢ 0
    → start % page_size ≡ 0
    → start + page * page_size + off < 2 ^ 32
    → off < page_size
    → (addr : ℕ) × (page_to_addr start page ≡ some addr)
      × (addr % page_size ≡ 0)
      × (addr_to_page start (addr + off) ≡ some page)
unfolding addr_to_page page_to_addr
addr_to_page-page_to_addr start page off ne al h o =
    let q = ne→==_false start 0 ne in
    let a : add32 start (mul32 page page_size) ≡ start + page * page_size = omega arith in
    (start + page * page_size, rw q (ap some a), omega arith, rw q (ap some (omega arith)))

-- The loop counts the pages from `addr` up to `end`, the last of them perhaps in part.
pub count_pages-ceil :
    (fuel addr end count : ℕ)
    → end ≤ zone_highmem_addr
    → addr ≤ end + page_size
    → count + (end - addr) < 2 ^ 31
    → end - addr + page_size ≤ fuel * page_size
    → count_pages fuel addr end count ≡ some (count + (end + (page_size - 1) - addr) / page_size)
unfolding count_pages
count_pages-ceil zero addr end count hi le small enough = absurd (omega arith)
count_pages-ceil (suc fuel) addr end count hi le small enough = elim (Bool-cases (ltb addr end)) [
  | inl y ↦
      let l : addr < end = ltb→lt addr end y in
      let a : add32 addr page_size ≡ addr + page_size = omega arith in
      let c : add32 count 1 ≡ count + 1 = omega arith in
      rw (y, a, c)
        (count_pages-ceil fuel (addr + page_size) end (count + 1) hi (omega arith) (omega arith)
            (omega arith)
          ∙ ap some (omega arith))
  | inr n ↦ rw n (ap some (omega (arith, ltb_false→le addr end n)))
]

ram_loop-grows :
    (entries : ℕ → MmapEntry) (rounds i : ℕ) (map : List E820Entry)
    → length map ≤ length (ram_loop entries rounds i map)
unfolding ram_loop
ram_loop-grows entries zero i map = omega arith
ram_loop-grows entries (suc rounds) i map =
    let more = map ++ (region (entries i) ∷ []) in
    elim (Bool-cases (is_kernel_ram (entries i))) [
      | inl y ↦ rw y (
          omega (
            arith,
            ram_loop-grows entries rounds (i + 1) more,
            length-append {0} map (region (entries i) ∷ []),
          ))
      | inr n ↦ rw n (ram_loop-grows entries rounds (i + 1) map)
    ]

ram_loop-takes :
    (entries : ℕ → MmapEntry) (rounds i j : ℕ) (map : List E820Entry)
    → i ≤ j
    → j < i + rounds
    → is_kernel_ram (entries j) ≡ true
    → length map < length (ram_loop entries rounds i map)
unfolding ram_loop
ram_loop-takes entries zero i j map le lt m = absurd (omega arith)
ram_loop-takes entries (suc rounds) i j map le lt m =
    let more = map ++ (region (entries i) ∷ []) in
    elim (Bool-cases (is_kernel_ram (entries i))) [
      | inl y ↦ rw y (
          omega (
            arith,
            ram_loop-grows entries rounds (i + 1) more,
            length-append {0} map (region (entries i) ∷ []),
          ))
      | inr n ↦
          let ne : i ≢ j = λ e. false≢true (sym n ∙ (rw (sym e) at m)) in
          rw n (ram_loop-takes entries rounds (i + 1) j map (omega arith) (omega arith) m)
    ]

-- On a map of `k` entries of 24 bytes, `mmap_length` is `24 * k`, and `get_ram_info` also takes in
-- what looks like an entry of RAM at the kernel's address anywhere in the `23 * k` places behind it.
pub get_ram_info_overruns :
    (entries : ℕ → MmapEntry) (k j : ℕ)
    → k ≤ j
    → j < 24 * k
    → is_kernel_ram (entries j) ≡ true
    → 0 < length (get_ram_info entries (24 * k))
unfolding get_ram_info
get_ram_info_overruns entries k j le lt m =
    ram_loop-takes entries (24 * k) 0 j [] (omega arith) (omega arith) m

-- The address of a page, as a word.
pub page_to_addr_lem :
    (start page : ℕ)
    → start ≢ 0
    → page_to_addr start page ≡ some (add32 start (mul32 page page_size))
unfolding page_to_addr
page_to_addr_lem start page ns = let q : (start == 0) ≡ false = ne→==_false start 0 ns in rw q refl
