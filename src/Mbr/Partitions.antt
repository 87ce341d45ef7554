-- ===== src/Mbr/Partitions.antt =====
-- fs/mbr.c: the partition table that comes from a disk of driver/ide.c.
use hurlex_ii.Base.{ℕ, ◌+◌, ◌*◌, ◌/◌, ◌%◌, ◌^◌, ◌<◌, ◌≡◌, refl, ap, [], ◌∷◌, arith, inl, inr}
use hurlex_ii.Ide.{Ide, returned, ide_request}
use hurlex_ii.Ide.Wait.{ready, after_ready, good}
use hurlex_ii.Ide.Transfer.{result}
use hurlex_ii.Ide.Request.{ide_request-Read}
use hurlex_ii.Ide.Command.{Commanded}
use hurlex_ii.Mbr.{PartitionInfo, part, byte_of, word_of, mbr_info, mbr_request, read_mbr_info}

-- Byte `i` of the sector that the disk sends next, in double words with the low byte first.
abbrev pub sector_byte : Ide → ℕ → ℕ
sector_byte s i = s.words (s.taken + i / 4) / 256 ^ (i % 4) % 256

-- The number `v` stands in the bytes from `i` on, the low byte first.
pub record IsWord (bytes : ℕ → ℕ) (i v : ℕ) : Type 0 where
  pub byte_0 : v % 256 ≡ bytes i
  pub byte_1 : v / 2 ^ 8 % 256 ≡ bytes (i + 1)
  pub byte_2 : v / 2 ^ 16 % 256 ≡ bytes (i + 2)
  pub byte_3 : v / 2 ^ 24 ≡ bytes (i + 3)

-- The 16 bytes from `at` on are those of the entry `p`: flag, first place, kind, last place, and the
-- numbers of the first sector and of all.
pub record IsEntry (bytes : ℕ → ℕ) (at : ℕ) (p : PartitionInfo) : Type 0 where
  pub active : p.active_flag ≡ bytes at
  pub first : p.start_chs ≡ bytes (at + 1) ∷ bytes (at + 2) ∷ bytes (at + 3) ∷ []
  pub kind : p.partition_type ≡ bytes (at + 4)
  pub last : p.end_chs ≡ bytes (at + 5) ∷ bytes (at + 6) ∷ bytes (at + 7) ∷ []
  pub start : IsWord bytes (at + 8) p.start_sector
  pub number : IsWord bytes (at + 12) p.nr_sectors

byte_of-sector_byte :
    (buffer : ℕ → ℕ) (s : Ide)
    → ((j : ℕ) → j < 128 → buffer j ≡ s.words (s.taken + j))
    → (i : ℕ) → i < 512
    → byte_of buffer i ≡ sector_byte s i
byte_of-sector_byte buffer s e i l =
    ap (λ (w : ℕ). w / 256 ^ (i % 4) % 256) (e (i / 4) (omega arith))

word_of-IsWord :
    (buffer bytes : ℕ → ℕ) (i : ℕ)
    → ((j : ℕ) → j < 512 → byte_of buffer j ≡ bytes j)
    → i + 3 < 512
    → IsWord bytes i (word_of buffer i)
word_of-IsWord buffer bytes i e l =
    let b0 = e i (omega arith) in
    let b1 = e (i + 1) (omega arith) in
    let b2 = e (i + 2) (omega arith) in
    let b3 = e (i + 3) (omega arith) in
    record {
      byte_0 = omega (arith, b0);
      byte_1 = omega (arith, b1);
      byte_2 = omega (arith, b2);
      byte_3 = omega (arith, b3);
    }

part-IsEntry :
    (buffer bytes : ℕ → ℕ) (k : ℕ)
    → ((j : ℕ) → j < 512 → byte_of buffer j ≡ bytes j)
    → k < 4
    → IsEntry bytes (446 + 16 * k) (part buffer k)
unfolding part
part-IsEntry buffer bytes k e h =
    let p = 446 + 16 * k in
    record {
      active = e p (omega arith);
      first = λ i.
          e (p + 1) (omega arith) i ∷ e (p + 2) (omega arith) i ∷ e (p + 3) (omega arith) i ∷ [];
      kind = e (p + 4) (omega arith);
      last = λ i.
          e (p + 5) (omega arith) i ∷ e (p + 6) (omega arith) i ∷ e (p + 7) (omega arith) i ∷ [];
      start = word_of-IsWord buffer bytes (p + 8) e (omega arith);
      number = word_of-IsWord buffer bytes (p + 12) e (omega arith);
    }

-- From a valid disk that gets ready for the command and for the sector read_mbr_info returns, after
-- the command to read one sector, number 0: 0 if the disk reports no fault for it, and then the
-- four entries of the table are what stands in the sector from byte 446 on, 16 bytes for each; and
-- -1 otherwise.
pub read_mbr_info-part :
    (mbr : ℕ) (s : Ide)
    → s.valid ≡ 1
    → 1 < ready s.status
    → (s' : Ide) × (read_mbr_info ide_request mbr s
        ≡ returned (result 1 (good (after_ready s.status))) s')
      × Commanded s'.trace 0 1 0x20
      × (0 < good (after_ready s.status)
          → (k : ℕ) → k < 4
          → IsEntry (sector_byte s) (446 + 16 * k) (part (mbr_info mbr s') k))
unfolding read_mbr_info
read_mbr_info-part mbr s v r = elim (ide_request-Read (mbr_request mbr) s refl r) [
  | inl refused ↦ absurd (omega (arith, refused.0))
  | inr (inl beyond) ↦ absurd (beyond.1 (omega arith, v, omega arith, omega arith))
  | inr (inr (le, d, (s', e, q, c, o))) ↦ (
    s',
    ground (arith, e),
    c,
    λ g k h.
        part-IsEntry (mbr_info mbr s') (sector_byte s) k
          (byte_of-sector_byte (mbr_info mbr s') s (λ j l. q.filled j (omega arith))) h,
  )
]
