-- ===== src/Vmm/Map.antt =====
-- arch/i386/mm/vmm.c: what mapping and unmapping a page does to the mappings.
use Prim.Native.Nat.{ℕ, ◌+◌, ◌*◌, ◌/◌, ◌%◌, ◌^◌, ◌<◌, bit_or}
use hurlex_ii.Base.{
  ◌≡◌, refl, sym, subst, ◌≢◌, ◌⊎◌, true, false, none, some, arith, ◌==◌, Bool-cases, inl, inr,
  ne→==_false, bit_or-low,
}
use hurlex_ii.Vmm.{Vmm, pgd_index, pte_index, masked, write_entry, map, unmap, get_mapping}

-- The physical address of the table that serves an address, or 0.
abbrev pub table_of : ℕ → Vmm → ℕ
table_of va s = masked (s.pgd (pgd_index va))

entry_lem : (pa flags : ℕ) → flags < 4096 → bit_or (masked pa) flags ≡ masked pa + flags
entry_lem pa flags h = bit_or-low 12 (pa / 4096) flags h

-- Writing an entry keeps the mapping of an address that does not use it.
pub read_same :
    (pte index entry other : ℕ) (s : Vmm)
    → (pte ≡ table_of other s → index ≢ pte_index other)
    → get_mapping other true (write_entry pte index entry s) ≡ get_mapping other true s
unfolding get_mapping
read_same pte index entry other s h = elim (Bool-cases (pte == table_of other s)) [
  | inl y ↦
      let e : pte ≡ table_of other s = ground arith in
      let n : (index == pte_index other) ≡ false = ne→==_false index (pte_index other) (h e) in
      rw (y, n, e) refl
  | inr n ↦ rw n refl
]

-- Two pages under one table have different places in it.
pub other_place :
    (va other : ℕ) (s : Vmm)
    → other / 4096 ≢ va / 4096
    → other < 2 ^ 32
    → va < 2 ^ 32
    → (pgd_index other ≡ pgd_index va) ⊎ (table_of other s ≢ table_of va s)
    → table_of va s ≡ table_of other s
    → pte_index va ≢ pte_index other
other_place va other s far ho hv (inl y) e = omega arith
other_place va other s far ho hv (inr n) e = absurd (n (sym e))

-- Mapping a page in a table that is there, with flags from 1 to 4095: the address is then mapped to the page, and every
-- address of another page, whose table is another one or the same one at the same place of the
-- directory, is mapped as before.
pub map-get_mapping :
    (page va pa flags other : ℕ) (s : Vmm)
    → table_of va s ≢ 0
    → 0 < flags
    → flags < 4096
    → other / 4096 ≢ va / 4096
    → other < 2 ^ 32
    → va < 2 ^ 32
    → (pgd_index other ≡ pgd_index va) ⊎ (table_of other s ≢ table_of va s)
    → (get_mapping va true (map page va pa flags s) ≡ some (masked pa))
      × (get_mapping other true (map page va pa flags s) ≡ get_mapping other true s)
unfolding map get_mapping
map-get_mapping page va pa flags other s ne pos low far ho hv apart =
    let n : (table_of va s == 0) ≡ false = ne→==_false (table_of va s) 0 ne in
    let e : (table_of va s == table_of va s) ≡ true = ground arith in
    let e2 : (pte_index va == pte_index va) ≡ true = ground arith in
    let z : (masked pa + flags == 0) ≡ false = ground arith in
    let m : masked (masked pa + flags) ≡ masked pa = omega arith in
    rw (n, n, entry_lem pa flags low)
      (
        rw (e, e2, z, m) refl,
        read_same (table_of va s) (pte_index va) (masked pa + flags) other s
            (other_place va other s far ho hv apart),
      )

-- Unmapping an address: it is not mapped, and every address of another page, whose table is another
-- one or the same one at the same place of the directory, is mapped as before.
pub unmap-get_mapping :
    (va other : ℕ) (s : Vmm)
    → other / 4096 ≢ va / 4096
    → other < 2 ^ 32
    → va < 2 ^ 32
    → (pgd_index other ≡ pgd_index va) ⊎ (table_of other s ≢ table_of va s)
    → (get_mapping va true (unmap va s) ≡ none)
      × (get_mapping other true (unmap va s) ≡ get_mapping other true s)
unfolding unmap get_mapping
unmap-get_mapping va other s far ho hv apart = elim (Bool-cases (table_of va s == 0)) [
  | inl y ↦ rw y (rw y refl, refl)
  | inr n ↦
      let e : (table_of va s == table_of va s) ≡ true = ground arith in
      let e2 : (pte_index va == pte_index va) ≡ true = ground arith in
      rw n (
        rw (n, e, e2) refl,
        read_same (table_of va s) (pte_index va) 0 other s (other_place va other s far ho hv apart),
      )
]

-- Mapping a page where there is no table yet: the new table is the page that was allocated, as it
-- is, so that another address under it is mapped to whatever the page holds.
map_uncleared :
    (page va pa flags other : ℕ) (s : Vmm)
    → table_of va s ≡ 0
    → page ≢ 0
    → page % 4096 ≡ 0
    → pgd_index other ≡ pgd_index va
    → pte_index other ≢ pte_index va
    → s.table page (pte_index other) ≢ 0
    → get_mapping other true (map page va pa flags s)
      ≡ some (masked (s.table page (pte_index other)))
unfolding map get_mapping
map_uncleared page va pa flags other s z np al same ne dirty =
    let q : (table_of va s == 0) ≡ true = ground arith in
    let e : (pgd_index va == pgd_index va) ≡ true = ground arith in
    let b : bit_or page 3 ≡ page + 3 =
      subst (λ p. bit_or p 3 ≡ p + 3) (omega arith) (bit_or-low 12 (page / 4096) 3 (omega arith)) in
    let m : (page + 3) / 4096 * 4096 ≡ page = omega arith in
    let n0 : (page == 0) ≡ false = ne→==_false page 0 np in
    let p : (page == page) ≡ true = ground arith in
    let i : (pte_index va == pte_index other) ≡ false = ground arith in
    let d : (s.table page (pte_index other) == 0) ≡ false =
      ne→==_false (s.table page (pte_index other)) 0 dirty in
    rw (q, same, e, b, m, n0, p) (rw (i, d) refl)
