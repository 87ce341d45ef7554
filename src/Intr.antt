-- ===== src/Intr.antt =====
-- arch/i386/intr/intr.c and intr.h: the interrupt descriptor table, the table of the handlers, and
-- the calls of them. The entry stubs are assembly: their addresses are parameters.
pub mod Gates
mod Tests
use hurlex_ii.Base.{
  ℕ, zero, suc, ◌+◌, ◌-◌, ◌*◌, ◌/◌, ◌%◌, ◌^◌, List, [], ◌∷◌, ◌++◌, ◌==◌, ltb, if◌then◌else◌, update,
}
use hurlex_ii.Ports.{Event, init_interrupt_chip, clear_interrupt_chip}

-- `INTERRUPT_MAX`.
abbrev pub interrupt_max : ℕ
interrupt_max = 256

pub record IdtEntry : Type 0 where
  pub base_lo : ℕ
  pub sel : ℕ
  pub always0 : ℕ
  pub flags : ℕ
  pub base_hi : ℕ

-- The variables of intr.c, and the bytes written to ports. A handler is its address, 0 for none;
-- `limit` and `base` are those of `idt_ptr`.
pub record Intr : Type 0 where
  pub idt_entries : ℕ → IdtEntry
  pub limit : ℕ
  pub base : ℕ
  pub interrupt_handlers : ℕ → ℕ
  pub trace : List Event

-- The table and its register as idt_init finds them, with the controllers set up.
abbrev pub idt_start : (entries : ℕ) → Intr → Intr
idt_start entries s = record s {
  trace = s.trace ++ init_interrupt_chip;
  limit = 8 * interrupt_max - 1;
  base = entries;
}

-- What a handler of the stubs does last: it calls a handler, prints and halts, or returns.
pub data Action : Type 0 where
  call : (handler : ℕ) → Action
  halt : (name : ℕ) → Action
  return : Action

-- `num` is a `uint8_t`, `sel` a `uint16_t` and `flags` a `uint8_t`.
pub idt_set_gate : (num base sel flags : ℕ) → Intr → Intr
idt_set_gate num base sel flags s = record s {
  idt_entries = update s.idt_entries (num % 256) record {
    base_lo = base % 2 ^ 16;
    base_hi = base / 2 ^ 16 % 2 ^ 16;
    sel = sel;
    always0 = 0;
    flags = flags;
  };
}

-- The loop over the first `n` vectors.
pub set_gates : (isr_irq_func : ℕ → ℕ) (n : ℕ) → Intr → Intr
set_gates isr_irq_func zero s = s
set_gates isr_irq_func (suc n) s =
    idt_set_gate n (isr_irq_func n) 0x08 0x8E (set_gates isr_irq_func n s)

-- `entries` is the address of `idt_entries`; the load of the register follows in assembly.
pub idt_init : (isr_irq_func : ℕ → ℕ) (isr128 entries : ℕ) → Intr → Intr
idt_init isr_irq_func isr128 entries s =
    idt_set_gate 128 isr128 0x08 0xEF (set_gates isr_irq_func 48 (idt_start entries s))

-- The position in `intrnames` of the text that is returned: every number from 20 on has that of 15.
pub intrname : (intrno : ℕ) → ℕ
intrname intrno = if ltb intrno 20 then intrno else 15

-- `n` is a `uint8_t`.
pub register_interrupt_handler : (n h : ℕ) → Intr → Intr
register_interrupt_handler n h s = record s {
  interrupt_handlers = update s.interrupt_handlers (n % 256) h;
}

pub isr_handler : (int_no : ℕ) → Intr → Action
unfolding intrname
isr_handler int_no s =
    if s.interrupt_handlers int_no == 0
    then halt (intrname int_no)
    else call (s.interrupt_handlers int_no)

pub irq_handler : (int_no : ℕ) → Intr → Action × Intr
irq_handler int_no s = (
  (if s.interrupt_handlers int_no == 0 then return else call (s.interrupt_handlers int_no)),
  record s { trace = s.trace ++ clear_interrupt_chip int_no },
)
