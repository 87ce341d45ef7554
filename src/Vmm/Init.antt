-- ===== src/Vmm/Init.antt =====
-- arch/i386/mm/vmm.c: the mapping of the kernel that `vmm_init` sets up.
use Prim.Native.Nat.{ℕ, zero, suc, ◌+◌, ◌-◌, ◌*◌, ◌/◌, ◌%◌, ◌<◌, ◌≤◌, bit_or}
use hurlex_ii.Base.{
  ◌≡◌, refl, ap, sym, subst, ◌∙◌, ◌≢◌, ◌⊎◌, true, false, some, arith, ◌==◌, Bool-cases, inl, inr,
  update, ne→==_false, bit_or-low,
}
use hurlex_ii.Pmm.{kernbase}
use hurlex_ii.Vmm.{
  Vmm, pgd_index, pte_index, masked, write_entry, get_mapping, fill_pgd, fill_tables, vmm_init,
}

fill_pgd-out :
    (rounds i tables k : ℕ) (s : Vmm)
    → (k < i) ⊎ (i + rounds ≤ k)
    → (fill_pgd rounds i tables s).pgd k ≡ s.pgd k
unfolding fill_pgd
fill_pgd-out zero i tables k s o = refl
fill_pgd-out (suc rounds) i tables k s o =
    let n : (i == k) ≡ false = ground arith in
    fill_pgd-out rounds (i + 1) tables k
      (record s { pgd = update s.pgd i (bit_or (tables + i * 4096) 3) }) (ground arith)
    ∙ rw n refl

fill_pgd-in :
    (rounds i tables k : ℕ) (s : Vmm)
    → i ≤ k
    → k < i + rounds
    → (fill_pgd rounds i tables s).pgd k ≡ bit_or (tables + k * 4096) 3
unfolding fill_pgd
fill_pgd-in zero i tables k s l h = absurd (omega arith)
fill_pgd-in (suc rounds) i tables k s l h =
    let s1 = record s { pgd = update s.pgd i (bit_or (tables + i * 4096) 3) } in
    elim (Bool-cases (i == k)) [
      | inl y ↦
          let e : i ≡ k = ground arith in
          fill_pgd-out rounds (i + 1) tables k s1 (inl (omega arith))
          ∙ rw y (ap (λ j. bit_or (tables + j * 4096) 3) e)
      | inr n ↦
          let ne : i ≢ k = ground arith in
          fill_pgd-in rounds (i + 1) tables k s1 (omega arith) (omega arith)
    ]

fill_tables-pgd :
    (rounds i first tables k : ℕ) (s : Vmm) → (fill_tables rounds i first tables s).pgd k ≡ s.pgd k
unfolding fill_tables
fill_tables-pgd zero i first tables k s = refl
fill_tables-pgd (suc rounds) i first tables k s =
    fill_tables-pgd rounds (i + 1) first tables k
      (write_entry (tables + (first + i / 1024) * 4096) (i % 1024) (bit_or (i * 4096) 3) s)

-- The place of entry number `j`.
abbrev entry_at : (first tables j : ℕ) → Vmm → ℕ
entry_at first tables j s = s.table (tables + (first + j / 1024) * 4096) (j % 1024)

fill_tables-out :
    (rounds i first tables j : ℕ) (s : Vmm)
    → j < i
    → entry_at first tables j (fill_tables rounds i first tables s) ≡ entry_at first tables j s
unfolding fill_tables
fill_tables-out zero i first tables j s h = refl
fill_tables-out (suc rounds) i first tables j s h =
    let t = tables + (first + i / 1024) * 4096 in
    let u = tables + (first + j / 1024) * 4096 in
    let s1 = write_entry t (i % 1024) (bit_or (i * 4096) 3) s in
    fill_tables-out rounds (i + 1) first tables j s1 (omega arith) ∙ elim (Bool-cases (t == u)) [
      | inl y ↦
          let e : t ≡ u = ground arith in
          let n : (i % 1024 == j % 1024) ≡ false =
            ne→==_false (i % 1024) (j % 1024) (omega arith) in
          rw (y, n) (ap (λ p. s.table p (j % 1024)) e)
      | inr n ↦ rw n refl
    ]

fill_tables-in :
    (rounds i first tables j : ℕ) (s : Vmm)
    → i ≤ j
    → j < i + rounds
    → entry_at first tables j (fill_tables rounds i first tables s) ≡ bit_or (j * 4096) 3
unfolding fill_tables
fill_tables-in zero i first tables j s l h = absurd (omega arith)
fill_tables-in (suc rounds) i first tables j s l h =
    let t = tables + (first + i / 1024) * 4096 in
    let s1 = write_entry t (i % 1024) (bit_or (i * 4096) 3) s in
    elim (Bool-cases (i == j)) [
      | inl y ↦
          let e : i ≡ j = ground arith in
          let a : (t == t) ≡ true = ground arith in
          let b : (i % 1024 == i % 1024) ≡ true = ground arith in
          subst
            (λ k.
              entry_at first tables k (fill_tables rounds (i + 1) first tables s1)
              ≡ bit_or (k * 4096) 3)
            e (fill_tables-out rounds (i + 1) first tables i s1 (omega arith) ∙ rw (a, b) refl)
      | inr n ↦
          let ne : i ≢ j = ground arith in
          fill_tables-in rounds (i + 1) first tables j s1 (omega arith) (omega arith)
    ]

-- After `vmm_init` every address of the kernel's 896 MB from 0xC0000000 on is mapped, to the
-- physical address 0xC0000000 below it; the tables lie at an aligned physical
-- address other than 0.
pub vmm_init-get_mapping :
    (tables va : ℕ) (s : Vmm)
    → tables ≢ 0
    → tables % 4096 ≡ 0
    → kernbase ≤ va
    → va < kernbase + 0x3800_0000
    → get_mapping va true (vmm_init tables s) ≡ some (masked (va - kernbase))
unfolding get_mapping vmm_init
vmm_init-get_mapping tables va s nz al lo hi =
    let s1 = fill_pgd 224 768 tables s in
    let k = pgd_index va in
    let j = (va - kernbase) / 4096 in
    let d : (vmm_init tables s).pgd k ≡ bit_or (tables + k * 4096) 3 =
      fill_tables-pgd 229376 0 768 tables k s1
      ∙ fill_pgd-in 224 768 tables k s (omega arith) (omega arith) in
    let a : tables + k * 4096 ≡ (tables / 4096 + k) * 4096 = omega arith in
    let b : bit_or (tables + k * 4096) 3 ≡ tables + k * 4096 + 3 =
      subst (λ p. bit_or p 3 ≡ p + 3) (sym a) (bit_or-low 12 (tables / 4096 + k) 3 (omega arith)) in
    let m : (tables + k * 4096 + 3) / 4096 * 4096 ≡ tables + k * 4096 = omega arith in
    let n : (tables + k * 4096 == 0) ≡ false = ne→==_false (tables + k * 4096) 0 (omega arith) in
    let f : entry_at 768 tables j (vmm_init tables s) ≡ bit_or (j * 4096) 3 =
      fill_tables-in 229376 0 768 tables j s1 (omega arith) (omega arith) in
    let h1 : k ≡ 768 + j / 1024 = omega arith in
    let h2 : pte_index va ≡ j % 1024 = omega arith in
    let g : (vmm_init tables s).table (tables + k * 4096) (pte_index va) ≡ j * 4096 + 3 =
      ap (λ x. (vmm_init tables s).table (tables + x * 4096) (pte_index va)) h1
      ∙ (ap (λ x. (vmm_init tables s).table (tables + (768 + j / 1024) * 4096) x) h2
          ∙ (f ∙ bit_or-low 12 j 3 (omega arith))) in
    let z : (j * 4096 + 3 == 0) ≡ false = ne→==_false (j * 4096 + 3) 0 (omega arith) in
    rw (d ∙ b, m, n, g, z) (ap some (omega arith))
