-- ===== src/Mbr/Tests.antt =====
-- fs/mbr.c: the theorem at a disk that is ready at once.
use hurlex_ii.Base.{◌+◌, ℕ, ◌*◌, ◌<◌, ◌≡◌, refl, [], ◌∷◌, arith, pos}
use hurlex_ii.Ide.{Ide, returned, ide_request}
use hurlex_ii.Ide.Wait.{after_ready, good}
use hurlex_ii.Ide.Command.{Commanded}
use hurlex_ii.Mbr.{part, mbr_info, read_mbr_info}
use hurlex_ii.Mbr.Partitions.{sector_byte, IsEntry, read_mbr_info-part}

abbrev disk : Ide
disk = record {
  valid = 1;
  sets = 0;
  size = 0x1000;
  desc = λ i. 0;
  memory = λ a. 0;
  trace = [];
  status = 0x40 ∷ 0x58 ∷ [];
  words = λ i. i * 0x01010101;
  taken = 0;
  sent = λ i. 0;
  count = 0;
}

read_mbr_info-part_example :
    (s' : Ide) × (read_mbr_info ide_request 0x9000 disk ≡ returned (pos 0) s')
    × Commanded s'.trace 0 1 0x20
    × (0 < good (after_ready disk.status)
        → (k : ℕ) → k < 4
        → IsEntry (sector_byte disk) (446 + 16 * k) (part (mbr_info 0x9000 s') k))
read_mbr_info-part_example = read_mbr_info-part 0x9000 disk refl (omega arith)
