-- ===== src/Gdt/Tests.antt =====
-- arch/i386/mm/gdt.c: the theorems at addresses of the kernel.
use hurlex_ii.Base.{ℕ, ◌%◌, ◌^◌, ◌≡◌, ◌≢◌, arith}
use hurlex_ii.Gdt.{GdtEntry, Gdt, gdt_set_gate}
use hurlex_ii.Gdt.Descriptors.{IsSegment, gdt_set_gate-IsSegment}

abbrev no_entry : GdtEntry
no_entry = record {
  limit_low = 0;
  base_low = 0;
  base_middle = 0;
  access = 0;
  granularity = 0;
  base_high = 0;
}

abbrev no_table : Gdt
no_table = record {
  gdt_entries = λ i. no_entry;
  tss_entry = record {
    ts_link = 0;
    ts_esp0 = 0;
    ts_ss0 = 0;
    ts_padding1 = 0;
    ts_esp1 = 0;
    ts_ss1 = 0;
    ts_padding2 = 0;
    ts_esp2 = 0;
    ts_ss2 = 0;
    ts_padding3 = 0;
    ts_cr3 = 0;
    ts_eip = 0;
    ts_eflags = 0;
    ts_eax = 0;
    ts_ecx = 0;
    ts_edx = 0;
    ts_ebx = 0;
    ts_esp = 0;
    ts_ebp = 0;
    ts_esi = 0;
    ts_edi = 0;
    ts_es = 0;
    ts_padding4 = 0;
    ts_cs = 0;
    ts_padding5 = 0;
    ts_ss = 0;
    ts_padding6 = 0;
    ts_ds = 0;
    ts_padding7 = 0;
    ts_fs = 0;
    ts_padding8 = 0;
    ts_gs = 0;
    ts_padding9 = 0;
    ts_ldt = 0;
    ts_padding10 = 0;
    ts_t = 0;
    ts_iomb = 0;
  };
  limit = 0;
  base = 0;
}

gdt_set_gate-IsSegment_example :
    IsSegment
      ((gdt_set_gate 3 0xC0123456 0xABCDEF01 0xFA 0xCF no_table).gdt_entries 3)
      0xC0123456
      (0xABCDEF01 % 2 ^ 20)
      0xFA
      12
    × ((k : ℕ)
        → k ≢ 3
        → (gdt_set_gate 3 0xC0123456 0xABCDEF01 0xFA 0xCF no_table).gdt_entries k ≡ no_entry)
gdt_set_gate-IsSegment_example =
    gdt_set_gate-IsSegment 3 0xC0123456 0xABCDEF01 0xFA 0xCF no_table (omega arith) (omega arith)
      (omega arith)
