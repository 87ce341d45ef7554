-- ===== src/Slob.antt =====
-- mm/slob.c: the kernel's heap, a list of blocks over the links of include/lib/list.h.
pub mod Tiles
pub mod Alloc
pub mod Kmalloc
pub mod Free
pub mod Glue
pub mod Kfree
mod Tests
use hurlex_ii.Base.{
  ℕ, zero, suc, ◌+◌, ◌-◌, ◌*◌, ◌%◌, ◌^◌, Bool, true, false, not, ◌&&◌, Option, none, some, ◌==◌,
  ltb, if◌then◌else◌, add32, sub32, update,
}
use hurlex_ii.Links.{Links, list_add, list_del, list_empty}

-- The list node of a block stands at a constant offset in it: a block and its node share one name.
-- `used` is the bit `allocated` (`SLOB_USED` is `true`), `len` the 31 bits `length`.
pub record Heap : Type 0 where
  pub links : Links
  pub used : ℕ → Bool
  pub len : ℕ → ℕ

-- The address of the list head `slob_head`.
abbrev pub slob_head : ℕ
slob_head = 0

-- `sizeof(slob_block_t)`: a word of bit fields and two pointers.
abbrev pub header : ℕ
header = 12

abbrev pub slob_page_count : ℕ
slob_page_count = 1024

abbrev pub slob_min_part : ℕ
slob_min_part = 0x20

-- A store to the bit field `length : 31`.
abbrev pub u31 : ℕ → ℕ
u31 n = n % 2 ^ 31

abbrev pub set_used : ℕ → Bool → Heap → Heap
set_used b v s = record s { used = update s.used b v }

abbrev pub set_len : ℕ → ℕ → Heap → Heap
set_len b n s = record s { len = update s.len b (u31 n) }

abbrev pub set_links : Links → Heap → Heap
set_links l s = record s { links = l }

-- `block` is the address that `__slob_alloc_pages` returned; `none` is the failed assertion.
pub slob_init : (block : ℕ) → Heap → Option Heap
slob_init block s =
    if block == 0
    then none
    else let s1 = set_len block (slob_page_count * 4096 - header) (set_used block false s) in
      some (set_links (list_add block slob_head s1.links) s1)

unfoldable pub split_chunk : (chunk len : ℕ) → Heap → Heap
split_chunk chunk len s =
    if ltb (header + slob_min_part) (sub32 (s.len chunk) len)
    then (let new_chunk = add32 chunk (header + len) in
        let s1 = set_used new_chunk false s in
        let s2 = set_len new_chunk (sub32 (sub32 (s1.len chunk) len) header) s1 in
        let s3 = set_links (list_add new_chunk chunk s2.links) s2 in
        set_used chunk true (set_len chunk len s3))
    else s

-- The two halves of `glue_chunk`. The first returns the block that the second extends; `le` is
-- the node of the chunk that was freed, also when that chunk has left the list.
pub glue_prev : (le : ℕ) → Heap → ℕ × Heap
glue_prev le s =
    let prev_block = s.links.prev le in
    if prev_block == slob_head
    then (le, s)
    else if s.used prev_block
    then (le, s)
    else let s1 = set_len prev_block (s.len prev_block + (s.len le + header)) s in
      (prev_block, set_links (list_del le s1.links) s1)

pub glue_next : (le chunk : ℕ) → Heap → Heap
glue_next le chunk s =
    let next_block = s.links.next le in
    if next_block == slob_head
    then s
    else if s.used next_block
    then s
    else let s1 = set_len chunk (s.len chunk + (s.len next_block + header)) s in
      set_links (list_del next_block s1.links) s1

pub glue_chunk : (chunk : ℕ) → Heap → Heap
glue_chunk chunk s = let (c, s1) = glue_prev chunk s in glue_next chunk c s1

-- The length that `kmalloc` looks for.
unfoldable pub request : ℕ → ℕ
request size = add32 (if ltb slob_min_part size then size else slob_min_part) header

abbrev pub fits : Heap → (len block : ℕ) → Bool
fits s len block = not (s.used block) && ltb len (s.len block)

-- What the walk of `kmalloc` over the list ends with.
pub data Scan : Type 0 where
  found : ℕ → Scan
  exhausted : Scan
  out_of_fuel : Scan

unfoldable pub find_block : (fuel le len : ℕ) → Heap → Scan
find_block zero le len s = out_of_fuel
find_block (suc fuel) le len s =
    let rest = find_block fuel (s.links.next le) len s in
    if le == slob_head then exhausted else if fits s len le then found le else rest

-- What `kmalloc` does at the end of the walk: the address, or NULL, and the heap.
abbrev pub take_block : (len : ℕ) → Heap → Scan → Option (ℕ × Heap)
take_block len s (found block) = some (add32 block header, split_chunk block len s)
take_block len s exhausted = some (0, s)
take_block len s out_of_fuel = none

-- `none` if the fuel is not enough for the walk.
unfoldable pub kmalloc : (fuel size : ℕ) → Heap → Option (ℕ × Heap)
kmalloc fuel size s =
    if list_empty slob_head s.links
    then some (0, s)
    else take_block (request size) s (find_block fuel (s.links.next slob_head) (request size) s)

pub kfree : (addr : ℕ) → Heap → Heap
kfree addr s =
    let block = sub32 addr header in
    if s.used block then glue_chunk block (set_used block false s) else s
