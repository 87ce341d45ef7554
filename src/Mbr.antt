-- ===== src/Mbr.antt =====
-- fs/mbr.c and include/mbr.h: the partition table, which is read from the first sector of a disk.
pub mod Partitions
mod Tests
use hurlex_ii.Base.{
  ℕ, zero, suc, ◌+◌, ◌*◌, ◌/◌, ◌%◌, ◌^◌, List, [], ◌∷◌, ◌==◌, if◌then◌else◌, ℤ, pos, negsuc,
}
use hurlex_ii.Registry.{is_zero}
use hurlex_ii.Ide.{Ide, Outcome, waiting, panicked, returned, IoRequest, io_read}

-- `MBR_CODE_LENGTH`, `PARTITION_SIZE` and `PARTITION_COUNT`.
abbrev pub mbr_code_length : ℕ
mbr_code_length = 446

abbrev pub partition_size : ℕ
partition_size = 16

abbrev pub partition_count : ℕ
partition_count = 4

-- `sizeof(mbr_info)`: the code, four entries and the magic number.
abbrev pub mbr_size : ℕ
mbr_size = 512

pub record PartitionInfo : Type 0 where
  pub active_flag : ℕ
  pub start_chs : List ℕ
  pub partition_type : ℕ
  pub end_chs : List ℕ
  pub start_sector : ℕ
  pub nr_sectors : ℕ

-- Byte `i`, and the 32-bit number at byte `i`, of a buffer of double words.
abbrev pub byte_of : (buffer : ℕ → ℕ) (i : ℕ) → ℕ
byte_of buffer i = buffer (i / 4) / 256 ^ (i % 4) % 256

abbrev pub word_of : (buffer : ℕ → ℕ) (i : ℕ) → ℕ
word_of buffer i =
    byte_of buffer i
    + byte_of buffer (i + 1) * 2 ^ 8
    + byte_of buffer (i + 2) * 2 ^ 16
    + byte_of buffer (i + 3) * 2 ^ 24

-- `mbr_info.part[k]`, as the packed structures lay it out in the sector.
pub part : (buffer : ℕ → ℕ) (k : ℕ) → PartitionInfo
part buffer k =
    let start : ℕ = mbr_code_length + partition_size * k in
    record {
      active_flag = byte_of buffer start;
      start_chs =
          byte_of buffer (start + 1) ∷ byte_of buffer (start + 2) ∷ byte_of buffer (start + 3) ∷ [];
      partition_type = byte_of buffer (start + 4);
      end_chs =
          byte_of buffer (start + 5) ∷ byte_of buffer (start + 6) ∷ byte_of buffer (start + 7) ∷ [];
      start_sector = word_of buffer (start + 8);
      nr_sectors = word_of buffer (start + 12);
    }

-- The double words of `mbr_info`, which stands at `mbr` in memory.
abbrev pub mbr_info : (mbr : ℕ) → Ide → ℕ → ℕ
mbr_info mbr s i = s.memory (mbr + 4 * i)

abbrev pub mbr_request : (mbr : ℕ) → IoRequest
mbr_request mbr = record { io_type = io_read; secno = 0; nsecs = 1; buffer = mbr; bsize = mbr_size }

-- `request` is the operation of the block device.
pub read_mbr_info : (request : IoRequest → Ide → Outcome) (mbr : ℕ) → Ide → Outcome
read_mbr_info request mbr s = elim (request (mbr_request mbr) s) [
  | waiting ↦ waiting
  | panicked ↦ panicked
  | returned ret s' ↦ if is_zero ret then returned (pos 0) s' else returned (negsuc 0) s'
]
