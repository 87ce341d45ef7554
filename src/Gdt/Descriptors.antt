-- ===== src/Gdt/Descriptors.antt =====
-- arch/i386/mm/gdt.c: what the processor reads out of the descriptors.
use Prim.Native.Nat.{bit_or}
use hurlex_ii.Base.{
  bit_or-high, ℕ, ◌+◌, ◌-◌, ◌*◌, ◌/◌, ◌%◌, ◌^◌, ◌<◌, ◌≡◌, ◌≢◌, refl, arith, u32_mod, add32,
}
use hurlex_ii.Gdt.{GdtEntry, Gdt, gdt_set_gate, tss_set_gate, gdt_init, tss_size}

-- The base, the limit, the flags and the privilege level of an entry, put together from its fields.
abbrev pub segment_base : GdtEntry → ℕ
segment_base e = e.base_low + e.base_middle * 2 ^ 16 + e.base_high * 2 ^ 24

abbrev pub segment_limit : GdtEntry → ℕ
segment_limit e = e.limit_low + e.granularity % 16 * 2 ^ 16

abbrev pub segment_flags : GdtEntry → ℕ
segment_flags e = e.granularity / 16

abbrev pub segment_dpl : GdtEntry → ℕ
segment_dpl e = e.access / 32 % 4

-- The last address of a segment that counts its limit in pages.
abbrev pub last_byte : GdtEntry → ℕ
last_byte e = segment_base e + segment_limit e * 4096 + 4095

-- What an entry was set from is read back from it.
pub record IsSegment (e : GdtEntry) (base limit access flags : ℕ) : Type 0 where
  pub based : segment_base e ≡ base
  pub limited : segment_limit e ≡ limit
  pub accessed : e.access ≡ access
  pub flagged : segment_flags e ≡ flags

-- For words `base` and `limit` and a byte `gran` gdt_set_gate makes a descriptor from which the
-- processor reads the same base, the low 20 bits of the limit, the access byte and the high four bits
-- of `gran`; the other descriptors stay.
pub gdt_set_gate-IsSegment :
    (num base limit access gran : ℕ) (s : Gdt)
    → base < u32_mod
    → limit < u32_mod
    → gran < 256
    → IsSegment
        ((gdt_set_gate num base limit access gran s).gdt_entries num)
        base
        (limit % 2 ^ 20)
        access
        (gran / 16)
      × ((k : ℕ)
          → k ≢ num
          → (gdt_set_gate num base limit access gran s).gdt_entries k ≡ s.gdt_entries k)
unfolding gdt_set_gate
gdt_set_gate-IsSegment num base limit access gran s hb hl hg =
    let e : bit_or (limit / 2 ^ 16 % 16) (gran % 256 / 16 * 16)
        ≡ gran % 256 / 16 * 16 + limit / 2 ^ 16 % 16 =
      bit_or-high 4 (gran % 256 / 16) (limit / 2 ^ 16 % 16) (omega arith) in
    (ground (arith, e), λ k ne. ground (arith, ne))

-- A segment over all 4 GB whose limit counts pages, of 32 bits, with the access byte.
abbrev pub IsFlat : (e : GdtEntry) (access : ℕ) → Type 0
IsFlat e access = IsSegment e 0 0xFFFFF access 12 × (last_byte e ≡ u32_mod - 1)

-- gdt_init makes the null descriptor zero, and the code and data segments of the kernel and of the
-- user flat over all 4 GB, with the privilege levels 0 and 3; GDTR covers the six entries.
pub gdt_init-IsFlat :
    (tss entries : ℕ) (s : Gdt)
    → IsSegment ((gdt_init tss entries s).gdt_entries 0) 0 0 0 0
      × IsFlat ((gdt_init tss entries s).gdt_entries 1) 0x9A
      × IsFlat ((gdt_init tss entries s).gdt_entries 2) 0x92
      × IsFlat ((gdt_init tss entries s).gdt_entries 3) 0xFA
      × IsFlat ((gdt_init tss entries s).gdt_entries 4) 0xF2
      × (segment_dpl ((gdt_init tss entries s).gdt_entries 1) ≡ 0)
      × (segment_dpl ((gdt_init tss entries s).gdt_entries 3) ≡ 3)
      × ((gdt_init tss entries s).limit ≡ 6 * 8 - 1)
      × ((gdt_init tss entries s).base ≡ entries)
unfolding gdt_init
gdt_init-IsFlat tss entries s = (
  record { based = refl; limited = refl; accessed = refl; flagged = refl },
  (record { based = refl; limited = refl; accessed = refl; flagged = refl }, refl),
  (record { based = refl; limited = refl; accessed = refl; flagged = refl }, refl),
  (record { based = refl; limited = refl; accessed = refl; flagged = refl }, refl),
  (record { based = refl; limited = refl; accessed = refl; flagged = refl }, refl),
  refl,
  refl,
  refl,
  refl,
)

-- For a task state segment at a word address, gdt_init makes its descriptor present, at its address,
-- but with the low 20 bits of its end as the limit, which is the limit 103 that its size asks for
-- only if the segment stands at the last byte before a multiple of 2^20. The stack segment and the
-- data segments in the task state are those of the kernel and of the user.
gdt_init_tss :
    (tss entries : ℕ) (s : Gdt)
    → tss < u32_mod
    → IsSegment ((gdt_init tss entries s).gdt_entries 5) tss ((tss + 104) % 2 ^ 20) 0x89 4
      × (segment_limit ((gdt_init tss entries s).gdt_entries 5) ≡ 103 → tss % 2 ^ 20 ≡ 2 ^ 20 - 1)
      × ((gdt_init tss entries s).tss_entry.ts_ss0 ≡ 2 * 8)
      × ((gdt_init tss entries s).tss_entry.ts_ds ≡ 4 * 8 + 3)
      × ((gdt_init tss entries s).tss_entry.ts_cs ≡ 3 * 8 + 3)
unfolding gdt_init tss_set_gate
gdt_init_tss tss entries s h =
    let e : bit_or (add32 tss tss_size / 2 ^ 16 % 16) (4 * 16)
        ≡ 4 * 16 + add32 tss tss_size / 2 ^ 16 % 16 =
      bit_or-high 4 4 (add32 tss tss_size / 2 ^ 16 % 16) (omega arith) in
    (
      record {
        based = omega arith;
        limited = omega (arith, e);
        accessed = refl;
        flagged = omega (arith, e);
      },
      λ w. omega (arith, e, w),
      refl,
      refl,
      refl,
    )
