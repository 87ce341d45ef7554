-- ===== src/Vmm.antt =====
-- arch/i386/mm/vmm.c and vmm.h: the two levels of page tables. A page table is known by its physical
-- address, from which the code gets at it through the mapping of the kernel.
pub mod Map
pub mod Init
mod Tests
use Prim.Native.Nat.{bit_or}
use hurlex_ii.Base.{
  ℕ, zero, suc, ◌+◌, ◌-◌, ◌*◌, ◌/◌, ◌%◌, ◌^◌, Bool, true, false, not, ◌&&◌, Option, none, some,
  ◌==◌, if◌then◌else◌, update,
}

-- `PGD_INDEX` and `PTE_INDEX`: bits 22 to 31, and bits 12 to 21.
abbrev pub pgd_index : ℕ → ℕ
pgd_index x = x / 2 ^ 22 % 1024

abbrev pub pte_index : ℕ → ℕ
pte_index x = x / 2 ^ 12 % 1024

-- `x & PAGE_MASK`.
abbrev pub masked : ℕ → ℕ
masked x = x / 4096 * 4096

-- The directory that the calls are given, and the entries of the page table at each address.
pub record Vmm : Type 0 where
  pub pgd : ℕ → ℕ
  pub table : ℕ → ℕ → ℕ

abbrev pub write_entry : (pte index entry : ℕ) → Vmm → Vmm
write_entry pte index entry s = record s {
  table = update s.table pte (update (s.table pte) index entry);
}

-- `PAGE_PRESENT | PAGE_WRITE`.
abbrev pub present_write : ℕ
present_write = 3

-- `page` is what `alloc_pages(1)` returns, if it is called.
pub map : (page va pa flags : ℕ) → Vmm → Vmm
map page va pa flags s =
    let pte = masked (s.pgd (pgd_index va)) in
    if pte == 0
    then write_entry page (pte_index va) (bit_or (masked pa) flags)
        (record s { pgd = update s.pgd (pgd_index va) (bit_or page present_write) })
    else write_entry pte (pte_index va) (bit_or (masked pa) flags) s

pub unmap : (va : ℕ) → Vmm → Vmm
unmap va s =
    let pte = masked (s.pgd (pgd_index va)) in
    if pte == 0 then s else write_entry pte (pte_index va) 0 s

-- The address written through `pa`, or none where the call returns 0; `wanted` says that the pointer
-- is not null.
pub get_mapping : (va : ℕ) (wanted : Bool) → Vmm → Option ℕ
get_mapping va wanted s =
    let pte = masked (s.pgd (pgd_index va)) in
    let entry = s.table pte (pte_index va) in
    if pte == 0 then none else if not (entry == 0) && wanted then some (masked entry) else none

-- The loop over the directory; `tables` is the physical address of `pte_addr`.
pub fill_pgd : (rounds i tables : ℕ) → Vmm → Vmm
fill_pgd zero i tables s = s
fill_pgd (suc rounds) i tables s =
    fill_pgd rounds (i + 1) tables
      (record s { pgd = update s.pgd i (bit_or (tables + i * 4096) present_write) })

-- The loop over the entries of the tables, counted from the first entry of table number `first`.
pub fill_tables : (rounds i first tables : ℕ) → Vmm → Vmm
fill_tables zero i first tables s = s
fill_tables (suc rounds) i first tables s = fill_tables rounds (i + 1) first tables (
    write_entry (tables + (first + i / 1024) * 4096) (i % 1024) (bit_or (i * 4096) present_write) s)

-- `PGD_INDEX(PAGE_OFFSET)` and `PTE_COUNT`. The page fault handler is registered besides, and the
-- processor switches to the directory at the end.
abbrev pub first_table : ℕ
first_table = 768

abbrev pub pte_count : ℕ
pte_count = 224

pub vmm_init : (tables : ℕ) → Vmm → Vmm
vmm_init tables s =
    fill_tables (1024 * pte_count) 0 first_table tables (fill_pgd pte_count first_table tables s)
