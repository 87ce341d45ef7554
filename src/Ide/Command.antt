-- ===== src/Ide/Command.antt =====
-- driver/ide.c: the registers of the disk, as the writes to its ports leave them.
use Prim.Native.Nat.{bit_or}
use hurlex_ii.Base.{
  ℕ, ◌+◌, ◌*◌, ◌/◌, ◌%◌, ◌^◌, ◌<◌, ◌≡◌, refl, ◌∙◌, List, [], ◌∷◌, ◌++◌, arith, ◌==◌, if◌then◌else◌,
  bit_or-low,
}
use hurlex_ii.Ports.{Event, out, ins, outs}
use hurlex_ii.Ide.{Ide, command}

-- The byte written to a port last, or `d` if there was none.
abbrev pub latest : (port : ℕ) → List Event → (d : ℕ) → ℕ
latest port [] d = d
latest port (out p v ∷ es) d = latest port es (if port == p then v else d)
latest port (ins p a c ∷ es) d = latest port es d
latest port (outs p a c ∷ es) d = latest port es d

pub latest-append :
    (port : ℕ) (es fs : List Event) (d : ℕ)
    → latest port (es ++ fs) d ≡ latest port fs (latest port es d)
latest-append port [] fs d = refl
latest-append port (out p v ∷ es) fs d = latest-append port es fs (if port == p then v else d)
latest-append port (ins p a c ∷ es) fs d = latest-append port es fs d
latest-append port (outs p a c ∷ es) fs d = latest-append port es fs d

-- No register is written between two states.
abbrev pub Silent : Ide → Ide → Type 0
Silent s s' = (p d : ℕ) → latest p s'.trace d ≡ latest p s.trace d

-- The registers hold the command, the count of sectors, and the 28 bits of the sector's number, for
-- the first disk and in the mode in which sectors are numbered through.
pub record Commanded (es : List Event) (secno nsecs cmd : ℕ) : Type 0 where
  pub counted : latest 0x1F2 es 0 ≡ nsecs
  pub placed :
      latest 0x1F3 es 0
        + latest 0x1F4 es 0 * 2 ^ 8
        + latest 0x1F5 es 0 * 2 ^ 16
        + latest 0x1F6 es 0 % 16 * 2 ^ 24
      ≡ secno
  pub selected : latest 0x1F6 es 0 / 16 ≡ 0xE
  pub commanded : latest 0x1F7 es 0 ≡ cmd

pub command_registers :
    (es : List Event) (secno nsecs cmd : ℕ)
    → secno < 2 ^ 28
    → nsecs < 256
    → cmd < 256
    → Commanded (es ++ command secno nsecs cmd) secno nsecs cmd
unfolding command
command_registers es secno nsecs cmd p q r =
    let w : bit_or 0xE0 (secno / 2 ^ 24 % 16) ≡ 7 * 2 ^ 5 + secno / 2 ^ 24 % 16 =
      bit_or-low 5 7 (secno / 2 ^ 24 % 16) (omega arith) in
    let last = λ (x : ℕ). latest-append x es (command secno nsecs cmd) 0 in
    record {
      counted = last 0x1F2 ∙ omega arith;
      placed = omega (arith, last 0x1F3, last 0x1F4, last 0x1F5, last 0x1F6, w);
      selected = omega (arith, last 0x1F6, w);
      commanded = last 0x1F7 ∙ omega arith;
    }

-- The registers stay as they are while no register is written.
pub Commanded-Silent :
    (s s' : Ide) (secno nsecs cmd : ℕ)
    → Silent s s'
    → Commanded s.trace secno nsecs cmd
    → Commanded s'.trace secno nsecs cmd
Commanded-Silent s s' secno nsecs cmd h c = record {
  counted = omega (arith, h 0x1F2 0, c.counted);
  placed = omega (arith, h 0x1F3 0, h 0x1F4 0, h 0x1F5 0, h 0x1F6 0, c.placed);
  selected = omega (arith, h 0x1F6 0, c.selected);
  commanded = omega (arith, h 0x1F7 0, c.commanded);
}
