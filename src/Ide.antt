-- ===== src/Ide.antt =====
-- driver/ide.c and include/block_dev.h: the driver of the disk. The disk is what it answers: the bytes
-- that reads of its status port give one after another, and the double words that it has for `insl`.
pub mod Wait
pub mod Command
pub mod Transfer
pub mod Request
pub mod Ident
mod Tests
use Prim.Native.Nat.{bit_or}
use hurlex_ii.Base.{
  ℕ, zero, suc, ◌+◌, ◌*◌, ◌/◌, ◌%◌, ◌^◌, Bool, true, false, not, ◌&&◌, ◌||◌, Option, none, some,
  List, [], ◌∷◌, ◌++◌, ◌==◌, ltb, leb, if◌then◌else◌, update, has_bit, ℤ, pos, negsuc, add32, mul32,
}
use hurlex_ii.Ports.{Event, ins, outs, outb}
use hurlex_ii.Registry.{is_zero}

abbrev pub sectsize : ℕ
sectsize = 512

-- `IOBASE` and `IOCTRL`.
abbrev pub iobase : ℕ
iobase = 0x1F0

abbrev pub ioctrl : ℕ
ioctrl = 0x3F4

abbrev pub max_nsecs : ℕ
max_nsecs = 128

abbrev pub max_disk_nsecs : ℕ
max_disk_nsecs = 0x10000000

abbrev pub ide_desc_len : ℕ
ide_desc_len = 40

-- The fields of `ide_device`; memory by double words; the port output; and the disk: its status
-- bytes still to come, its double words, how many of them have been read, and the double words that
-- were sent to it.
pub record Ide : Type 0 where
  pub valid : ℕ
  pub sets : ℕ
  pub size : ℕ
  pub desc : ℕ → ℕ
  pub memory : ℕ → ℕ
  pub trace : List Event
  pub status : List ℕ
  pub words : ℕ → ℕ
  pub taken : ℕ
  pub sent : ℕ → ℕ
  pub count : ℕ

-- How a call ends: it polls the status for ever, it panics, or it returns.
pub data Outcome : Type 0 where
  waiting : Outcome
  panicked : Outcome
  returned : (ret : ℤ) → Ide → Outcome

-- Bit 7 is `IDE_BSY`, bits 5 and 0 are `IDE_DF` and `IDE_ERR`.
pub ide_wait_ready : (check_error : Bool) → (status : List ℕ) → Option (ℤ × List ℕ)
ide_wait_ready check_error [] = none
ide_wait_ready check_error (r ∷ status) =
    let rest = ide_wait_ready check_error status in
    if has_bit 7 r
    then rest
    else some ((if check_error && (has_bit 5 r || has_bit 0 r) then negsuc 0 else pos 0), status)

-- A wait, and what follows it.
abbrev pub after_wait : Bool → Ide → (ℤ → Ide → Outcome) → Outcome
after_wait check_error s k = elim (ide_wait_ready check_error s.status) [
  | none ↦ waiting
  | some (ret, status) ↦ k ret (record s { status = status })
]

pub insl : (addr cnt : ℕ) → Ide → Ide
insl addr zero s = s
insl addr (suc cnt) s =
    insl (addr + 4) cnt
      (record s { memory = update s.memory addr (s.words s.taken); taken = s.taken + 1 })

pub outsl : (addr cnt : ℕ) → Ide → Ide
outsl addr zero s = s
outsl addr (suc cnt) s =
    outsl (addr + 4) cnt
      (record s { sent = update s.sent s.count (s.memory addr); count = s.count + 1 })

-- The writes to the registers of the disk before a transfer.
pub command : (secno nsecs cmd : ℕ) → List Event
command secno nsecs cmd =
    outb (ioctrl + 2) 0
    ∷ outb (iobase + 2) nsecs
    ∷ outb (iobase + 3) (secno % 256)
    ∷ outb (iobase + 4) (secno / 2 ^ 8 % 256)
    ∷ outb (iobase + 5) (secno / 2 ^ 16 % 256)
    ∷ outb (iobase + 6) (bit_or 0xE0 (secno / 2 ^ 24 % 16))
    ∷ outb (iobase + 7) cmd
    ∷ []

-- The loops over the sectors.
pub read_sectors : (nsecs dst : ℕ) → Ide → Outcome
unfolding ide_wait_ready
read_sectors zero dst s = returned (pos 0) s
read_sectors (suc nsecs) dst s = after_wait true s λ ret s1.
    let s2 = record s1 { trace = s1.trace ++ (ins iobase dst 128 ∷ []) } in
    let rest = read_sectors nsecs (dst + sectsize) (insl dst 128 s2) in
    if is_zero ret then rest else returned ret s1

pub write_sectors : (nsecs src : ℕ) → Ide → Outcome
unfolding ide_wait_ready
write_sectors zero src s = returned (pos 0) s
write_sectors (suc nsecs) src s = after_wait true s λ ret s1.
    let s2 = record s1 { trace = s1.trace ++ (outs iobase src 128 ∷ []) } in
    let rest = write_sectors nsecs (src + sectsize) (outsl src 128 s2) in
    if is_zero ret then rest else returned ret s1

-- The two assertions of a transfer.
abbrev pub in_range : (secno nsecs : ℕ) → Ide → Bool
in_range secno nsecs s =
    leb nsecs max_nsecs
    && s.valid == 1
    && (ltb secno max_disk_nsecs && leb (add32 secno nsecs) max_disk_nsecs)

pub ide_read_secs : (secno dst nsecs : ℕ) → Ide → Outcome
ide_read_secs secno dst nsecs s =
    if in_range secno nsecs s
    then (after_wait false s λ ret s1.
        read_sectors nsecs dst (record s1 { trace = s1.trace ++ command secno nsecs 0x20 }))
    else panicked

pub ide_write_secs : (secno src nsecs : ℕ) → Ide → Outcome
ide_write_secs secno src nsecs s =
    if in_range secno nsecs s
    then (after_wait false s λ ret s1.
        write_sectors nsecs src (record s1 { trace = s1.trace ++ command secno nsecs 0x30 }))
    else panicked

pub record IoRequest : Type 0 where
  pub io_type : ℕ
  pub secno : ℕ
  pub nsecs : ℕ
  pub buffer : ℕ
  pub bsize : ℕ

abbrev pub io_read : ℕ
io_read = 0

abbrev pub io_write : ℕ
io_write = 1

pub ide_request : IoRequest → Ide → Outcome
ide_request req s =
    if req.io_type == io_read
    then (if ltb req.bsize (mul32 sectsize req.nsecs)
        then returned (negsuc 0) s
        else ide_read_secs req.secno req.buffer req.nsecs s)
    else if req.io_type == io_write
    then (if ltb req.bsize (mul32 sectsize req.nsecs)
        then returned (negsuc 0) s
        else ide_write_secs req.secno req.buffer req.nsecs s)
    else returned (negsuc 0) s

pub ide_device_valid : Ide → Bool
ide_device_valid s = s.valid == 1

pub ide_get_nr_block : Ide → ℕ
unfolding ide_device_valid
ide_get_nr_block s = if ide_device_valid s then s.size else 0

pub ide_ioctl : (op flag : ℕ) → ℤ
ide_ioctl op flag = if not (op == 0) && not (flag == 0) then negsuc 0 else pos 0
