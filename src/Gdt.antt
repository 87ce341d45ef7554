-- ===== src/Gdt.antt =====
-- arch/i386/mm/gdt.c and gdt.h: the global descriptor table, its six entries and the task state
-- segment. What the processor reads out of an entry is in Gdt/Descriptors.
pub mod Descriptors
mod Tests
use Prim.Native.Nat.{bit_or}
use hurlex_ii.Base.{ℕ, ◌+◌, ◌-◌, ◌*◌, ◌/◌, ◌%◌, ◌^◌, add32, update}

-- `GDT_LENGTH`.
abbrev pub gdt_length : ℕ
gdt_length = 6

-- The positions of the segments in the table.
abbrev pub seg_null : ℕ
seg_null = 0

abbrev pub seg_ktext : ℕ
seg_ktext = 1

abbrev pub seg_kdata : ℕ
seg_kdata = 2

abbrev pub seg_utext : ℕ
seg_utext = 3

abbrev pub seg_udata : ℕ
seg_udata = 4

abbrev pub seg_tss : ℕ
seg_tss = 5

-- `(SEG << 3) | DPL`: the low three bits of the first part are clear.
abbrev selector : (seg dpl : ℕ) → ℕ
selector seg dpl = bit_or (seg * 2 ^ 3) dpl

abbrev pub kernel_cs : ℕ
kernel_cs = selector seg_ktext 0

abbrev pub kernel_ds : ℕ
kernel_ds = selector seg_kdata 0

abbrev pub user_cs : ℕ
user_cs = selector seg_utext 3

abbrev pub user_ds : ℕ
user_ds = selector seg_udata 3

pub record GdtEntry : Type 0 where
  pub limit_low : ℕ
  pub base_low : ℕ
  pub base_middle : ℕ
  pub access : ℕ
  pub granularity : ℕ
  pub base_high : ℕ

pub record TssEntry : Type 0 where
  pub ts_link : ℕ
  pub ts_esp0 : ℕ
  pub ts_ss0 : ℕ
  pub ts_padding1 : ℕ
  pub ts_esp1 : ℕ
  pub ts_ss1 : ℕ
  pub ts_padding2 : ℕ
  pub ts_esp2 : ℕ
  pub ts_ss2 : ℕ
  pub ts_padding3 : ℕ
  pub ts_cr3 : ℕ
  pub ts_eip : ℕ
  pub ts_eflags : ℕ
  pub ts_eax : ℕ
  pub ts_ecx : ℕ
  pub ts_edx : ℕ
  pub ts_ebx : ℕ
  pub ts_esp : ℕ
  pub ts_ebp : ℕ
  pub ts_esi : ℕ
  pub ts_edi : ℕ
  pub ts_es : ℕ
  pub ts_padding4 : ℕ
  pub ts_cs : ℕ
  pub ts_padding5 : ℕ
  pub ts_ss : ℕ
  pub ts_padding6 : ℕ
  pub ts_ds : ℕ
  pub ts_padding7 : ℕ
  pub ts_fs : ℕ
  pub ts_padding8 : ℕ
  pub ts_gs : ℕ
  pub ts_padding9 : ℕ
  pub ts_ldt : ℕ
  pub ts_padding10 : ℕ
  pub ts_t : ℕ
  pub ts_iomb : ℕ

-- `sizeof(tss_entry_t)`: 22 words of 32 bits, the selectors padded, and four half-words.
abbrev pub tss_size : ℕ
tss_size = 104

-- The variables of gdt.c; `limit` and `base` are those of `gdt_ptr`.
pub record Gdt : Type 0 where
  pub gdt_entries : ℕ → GdtEntry
  pub tss_entry : TssEntry
  pub limit : ℕ
  pub base : ℕ

pub gdt_set_gate : (num base limit access gran : ℕ) → Gdt → Gdt
gdt_set_gate num base limit access gran s = record s {
  gdt_entries = update s.gdt_entries num record {
    limit_low = limit % 2 ^ 16;
    base_low = base % 2 ^ 16;
    base_middle = base / 2 ^ 16 % 256;
    access = access;
    granularity = bit_or (limit / 2 ^ 16 % 16) (gran % 256 / 16 * 16);
    base_high = base / 2 ^ 24 % 256;
  };
}

-- `tss` is the address of `tss_entry`.
pub tss_set_gate : (tss num ss0 esp0 : ℕ) → Gdt → Gdt
unfolding gdt_set_gate
tss_set_gate tss num ss0 esp0 s = record (gdt_set_gate num tss (add32 tss tss_size) 0x89 0x40 s) {
  tss_entry = record s.tss_entry {
    ts_ss0 = ss0;
    ts_esp0 = esp0;
    ts_cs = user_cs;
    ts_ss = user_ds;
    ts_ds = user_ds;
    ts_es = user_ds;
    ts_fs = user_ds;
    ts_gs = user_ds;
  };
}

-- The table of flat segments; `entries` is the address of `gdt_entries`. The loads of the two
-- registers follow in assembly.
pub gdt_init : (tss entries : ℕ) → Gdt → Gdt
unfolding gdt_set_gate tss_set_gate
gdt_init tss entries s =
    let s1 : Gdt = record s { limit = 8 * gdt_length - 1; base = entries } in
    let s2 = gdt_set_gate seg_null 0 0 0 0 s1 in
    let s3 = gdt_set_gate seg_ktext 0 0xFFFFFFFF 0x9A 0xC0 s2 in
    let s4 = gdt_set_gate seg_kdata 0 0xFFFFFFFF 0x92 0xC0 s3 in
    let s5 = gdt_set_gate seg_utext 0 0xFFFFFFFF 0xFA 0xC0 s4 in
    let s6 = gdt_set_gate seg_udata 0 0xFFFFFFFF 0xF2 0xC0 s5 in
    tss_set_gate tss seg_tss kernel_ds 0 s6
