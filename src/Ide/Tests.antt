-- ===== src/Ide/Tests.antt =====
-- driver/ide.c: the theorems at a disk that is busy now and then, and fails at the third sector.
use hurlex_ii.Base.{ℕ, ◌*◌, ◌≡◌, ◌⊎◌, refl, true, false, [], ◌∷◌, arith, pos, negsuc}
use hurlex_ii.Ide.{Ide, returned, ide_read_secs, IoRequest}
use hurlex_ii.Ide.Command.{Commanded}
use hurlex_ii.Ide.Wait.{first_ready, has_failed}
use hurlex_ii.Ide.Transfer.{Read}
use hurlex_ii.Ide.Request.{delivered, ide_read_secs-Read}
use hurlex_ii.Ide.Ident.{ide_init}
use hurlex_ii.Ide.Ident.Probe.{IsKept, IsKnown, ide_init-Described}

-- Busy once, ready for the command and two sectors, and with a fault at the third.
abbrev disk : Ide
disk = record {
  valid = 1;
  sets = 0;
  size = 0x1000;
  desc = λ i. 0;
  memory = λ a. 0;
  trace = [];
  status = 0x80 ∷ 0x40 ∷ 0x40 ∷ 0x80 ∷ 0x40 ∷ 0x41 ∷ [];
  words = λ i. i;
  taken = 0;
  sent = λ i. 0;
  count = 0;
}

abbrev three : IoRequest
three = record { io_type = 0; secno = 0x1234567; nsecs = 3; buffer = 0x8000; bsize = 2048 }

ide_read_secs-Read_example :
    (s' : Ide) × (ide_read_secs 0x1234567 0x8000 3 disk ≡ returned (negsuc 0) s')
    × Read disk s' 0x8000 (128 * delivered 3 disk)
    × Commanded s'.trace 0x1234567 3 0x20
ide_read_secs-Read_example = ide_read_secs-Read 0x1234567 0x8000 3 disk refl (omega arith)

-- A disk that is asked what it is: three waits, the test of the status, and the last wait.
abbrev new_disk : Ide
new_disk = record disk { valid = 0; status = 0x40 ∷ 0x40 ∷ 0x80 ∷ 0x40 ∷ 0x58 ∷ 0x58 ∷ [] }

ide_init-Described_example :
    (((◌≡◌ {A = ℕ} 0x58 0) ⊎ (has_failed (first_ready (0x58 ∷ [])) ≡ true))
      × ((s' : Ide) × (ide_init 0x7000 new_disk ≡ returned (negsuc 0) s') × IsKept new_disk s'))
    ⊎ ((◌≡◌ {A = ℕ} 0x58 0 → ⊥)
        × (has_failed (first_ready (0x58 ∷ [])) ≡ false)
        × ((s' : Ide) × (ide_init 0x7000 new_disk ≡ returned (pos 0) s')
            × IsKnown new_disk s' 0x7000))
ide_init-Described_example =
    ide_init-Described 0x7000 new_disk 0x58 (0x58 ∷ []) (omega arith) refl (omega arith)
