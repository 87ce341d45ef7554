-- ===== src/Ports.antt =====
-- arch/i386/include/common.h, arch/i386/driver/pic.c and clock.c: port output as the list of what is
-- written, in its order, and the interrupt controllers and the timer that are driven by it.
use hurlex_ii.Base.{ℕ, ◌/◌, ◌%◌, ◌^◌, List, [], ◌∷◌, ◌++◌, leb, if◌then◌else◌}

-- One byte `value` written to `port`, and `cnt` double words read from `port` to memory at `addr` or
-- written from there to `port`.
pub data Event : Type 0 where
  out : (port value : ℕ) → Event
  ins : (port addr cnt : ℕ) → Event
  outs : (port addr cnt : ℕ) → Event

-- A `uint16_t` port and a `uint8_t` value.
abbrev pub outb : (port value : ℕ) → Event
outb port value = out (port % 2 ^ 16) (value % 256)

-- `IO_PIC1`, `IO_PIC1C`, `IO_PIC2` and `IO_PIC2C`.
abbrev pub io_pic1 : ℕ
io_pic1 = 0x20

abbrev pub io_pic1c : ℕ
io_pic1c = 0x21

abbrev pub io_pic2 : ℕ
io_pic2 = 0xA0

abbrev pub io_pic2c : ℕ
io_pic2c = 0xA1

pub init_interrupt_chip : List Event
init_interrupt_chip =
    outb io_pic1 0x11
    ∷ outb io_pic2 0x11
    ∷ outb io_pic1c 0x20
    ∷ outb io_pic2c 0x28
    ∷ outb io_pic1c 0x04
    ∷ outb io_pic2c 0x02
    ∷ outb io_pic1c 0x01
    ∷ outb io_pic2c 0x01
    ∷ outb io_pic1c 0x0
    ∷ outb io_pic2c 0x0
    ∷ []

unfoldable pub clear_interrupt_chip : (intr_no : ℕ) → List Event
clear_interrupt_chip intr_no =
    (if leb 40 intr_no then outb io_pic2 0x20 ∷ [] else []) ++ (outb io_pic1 0x20 ∷ [])

-- arch/i386/driver/clock.c: 1193180 / 100 rounds of the timer for an interrupt, low byte first. The
-- registration of the handler before it is left to the caller.
pub clock_init : List Event
clock_init =
    let divisor : ℕ = 1193180 / 100 in
    outb 0x43 0x34 ∷ outb 0x40 (divisor % 256) ∷ outb 0x40 (divisor / 2 ^ 8 % 256) ∷ []
