-- ===== src/Intr/Gates.antt =====
-- arch/i386/intr/intr.c: the gates that idt_init sets, and the handlers that are called.
use hurlex_ii.Base.{
  ℕ, zero, suc, ◌+◌, ◌*◌, ◌/◌, ◌%◌, ◌^◌, ◌≤◌, ◌<◌, ◌≡◌, ◌≢◌, refl, ap, false, arith, Bool-cases,
  inl, inr, ◌==◌, u32_mod,
}
use hurlex_ii.Intr.{
  IdtEntry, Intr, call, idt_set_gate, set_gates, idt_init, idt_start, register_interrupt_handler,
  isr_handler, irq_handler,
}

-- A gate as the processor reads it: the address that it calls, with the code segment of the kernel.
pub record IsGate (e : IdtEntry) (handler flags : ℕ) : Type 0 where
  pub offset : e.base_lo + e.base_hi * 2 ^ 16 ≡ handler
  pub selected : e.sel ≡ 8
  pub reserved : e.always0 ≡ 0
  pub flagged : e.flags ≡ flags

-- The privilege level from which a program may call the gate.
abbrev pub gate_dpl : IdtEntry → ℕ
gate_dpl e = e.flags / 32 % 4

-- The entry that idt_set_gate writes.
abbrev entry_of : (base flags : ℕ) → IdtEntry
entry_of base flags = record {
  base_lo = base % 2 ^ 16;
  base_hi = base / 2 ^ 16 % 2 ^ 16;
  sel = 8;
  always0 = 0;
  flags = flags;
}

entry_of-IsGate : (h flags : ℕ) → h < u32_mod → IsGate (entry_of h flags) h flags
entry_of-IsGate h flags b = record {
  offset = omega arith;
  selected = refl;
  reserved = refl;
  flagged = refl;
}

set_gates_below :
    (f : ℕ → ℕ) (n k : ℕ) (s : Intr)
    → n ≤ 256
    → k < n
    → (set_gates f n s).idt_entries k ≡ entry_of (f k) 0x8E
unfolding set_gates idt_set_gate
set_gates_below f zero k s b h = absurd (omega arith)
set_gates_below f (suc n) k s b h =
    let m : n % 256 ≡ n = omega arith in
    rw m (elim (Bool-cases (n == k)) [
      | inl e ↦ let p : n ≡ k = ground arith in rw e (ap (λ j. entry_of (f j) 0x8E) p)
      | inr ne ↦ rw ne (set_gates_below f n k s (omega arith) (ground arith))
    ])

set_gates_from :
    (f : ℕ → ℕ) (n k : ℕ) (s : Intr)
    → n ≤ 256
    → n ≤ k
    → (set_gates f n s).idt_entries k ≡ s.idt_entries k
unfolding set_gates idt_set_gate
set_gates_from f zero k s b h = refl
set_gates_from f (suc n) k s b h =
    let m : n % 256 ≡ n = omega arith in
    let ne : (n == k) ≡ false = ground arith in
    rw (m, ne) (set_gates_from f n k s (omega arith) (omega arith))

-- When the entry stubs are at word addresses, idt_init makes each of the vectors 0 to 47 an interrupt
-- gate of the kernel to its stub, and vector 128 a gate to the stub of system calls that programs of
-- level 3 may call; all other vectors keep what they had.
pub idt_init-IsGate :
    (f : ℕ → ℕ) (isr128 entries : ℕ) (s : Intr)
    → ((k : ℕ) → k < 48 → f k < u32_mod)
    → isr128 < u32_mod
    → ((k : ℕ)
        → k < 48
        → IsGate ((idt_init f isr128 entries s).idt_entries k) (f k) 0x8E
          × (gate_dpl ((idt_init f isr128 entries s).idt_entries k) ≡ 0))
      × IsGate ((idt_init f isr128 entries s).idt_entries 128) isr128 0xEF
      × (gate_dpl ((idt_init f isr128 entries s).idt_entries 128) ≡ 3)
      × ((k : ℕ) → 48 ≤ k → k ≢ 128 → (idt_init f isr128 entries s).idt_entries k ≡ s.idt_entries k)
unfolding idt_init idt_set_gate
idt_init-IsGate f isr128 entries s hf h = (
  λ k b.
      let ne : (128 == k) ≡ false = ground arith in
      rw (ne, set_gates_below f 48 k (idt_start entries s) (omega arith) b)
        (entry_of-IsGate (f k) 0x8E (hf k b), refl),
  entry_of-IsGate isr128 0xEF h,
  refl,
  λ k b e.
      let ne : (128 == k) ≡ false = ground (arith, e) in
      rw (ne, set_gates_from f 48 k (idt_start entries s) (omega arith) b) refl,
)

-- After a handler has been registered for a vector an interrupt of the vector calls it, whether it
-- comes as an exception or from a device, and no other vector is served differently.
pub register_interrupt_handler_lem :
    (n h : ℕ) (s : Intr)
    → n < 256
    → h ≢ 0
    → (isr_handler n (register_interrupt_handler n h s) ≡ call h)
      × ((irq_handler n (register_interrupt_handler n h s)).0 ≡ call h)
      × ((k : ℕ)
          → k ≢ n
          → (isr_handler k (register_interrupt_handler n h s) ≡ isr_handler k s)
            × ((irq_handler k (register_interrupt_handler n h s)).0 ≡ (irq_handler k s).0))
unfolding register_interrupt_handler isr_handler irq_handler
register_interrupt_handler_lem n h s b nz =
    let m : n % 256 ≡ n = omega arith in
    (ground arith, ground arith, λ k ne. (ground arith, ground arith))
