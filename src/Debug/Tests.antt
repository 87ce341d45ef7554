-- ===== src/Debug/Tests.antt =====
-- arch/i386/debug/debug.c: the theorem on three symbols, of which the last two are functions.
use hurlex_ii.Base.{ℕ, ◌*◌, ◌==◌, if◌then◌else◌}
use hurlex_ii.Debug.{ElfSymbol, Elf, elf_lookup_symbol}
use hurlex_ii.Debug.Symbols.{Looked, elf_lookup_symbol-Looked}

abbrev symbols : ℕ → ElfSymbol
symbols i = record {
  name = 10 * i;
  value = 0x1000 * i;
  size = 0x800;
  info = if i == 0 then 0x11 else 0x12;
}

abbrev elf : Elf
elf = record { symtab = 0xC0120000; symtabsz = 48; strtab = 0xC0121000; strtabsz = 30 }

elf_lookup_symbol-Looked_example :
    Looked 0 3 0x2100 symbols elf (elf_lookup_symbol 0x2100 symbols elf)
elf_lookup_symbol-Looked_example = elf_lookup_symbol-Looked 0x2100 symbols elf
