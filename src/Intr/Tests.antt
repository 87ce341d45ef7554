-- ===== src/Intr/Tests.antt =====
-- arch/i386/intr/intr.c: the theorems with stubs that are 16 bytes apart.
use hurlex_ii.Base.{ℕ, ◌+◌, ◌*◌, ◌≤◌, ◌<◌, ◌≡◌, ◌≢◌, [], arith}
use hurlex_ii.Intr.{Intr, idt_init}
use hurlex_ii.Intr.Gates.{IsGate, gate_dpl, idt_init-IsGate}

abbrev nothing_set : Intr
nothing_set = record {
  idt_entries = λ i. record { base_lo = 0; sel = 0; always0 = 0; flags = 0; base_hi = 0 };
  limit = 0;
  base = 0;
  interrupt_handlers = λ i. 0;
  trace = [];
}

abbrev stub : ℕ → ℕ
stub i = 0xC0100000 + i * 16

idt_init-IsGate_example :
    ((k : ℕ)
      → k < 48
      → IsGate ((idt_init stub 0xC0100800 0xC0112000 nothing_set).idt_entries k) (stub k) 0x8E
        × (gate_dpl ((idt_init stub 0xC0100800 0xC0112000 nothing_set).idt_entries k) ≡ 0))
    × IsGate ((idt_init stub 0xC0100800 0xC0112000 nothing_set).idt_entries 128) 0xC0100800 0xEF
    × (gate_dpl ((idt_init stub 0xC0100800 0xC0112000 nothing_set).idt_entries 128) ≡ 3)
    × ((k : ℕ)
        → 48 ≤ k
        → k ≢ 128
        → (idt_init stub 0xC0100800 0xC0112000 nothing_set).idt_entries k
          ≡ nothing_set.idt_entries k)
idt_init-IsGate_example =
    idt_init-IsGate stub 0xC0100800 0xC0112000 nothing_set (λ k h. omega arith) (omega arith)
