-- ===== src/Debug.antt =====
-- arch/i386/debug/debug.c, include/elf.h and arch/i386/mm/fault.c: the symbols of the kernel, and what
-- a page fault reports.
pub mod Symbols
mod Tests
use hurlex_ii.Base.{
  ℕ, zero, suc, ◌+◌, ◌/◌, ◌%◌, ◌^◌, Bool, true, false, not, ◌&&◌, Option, none, some, List, [], ◌∷◌,
  ◌++◌, ◌==◌, ltb, leb, if◌then◌else◌, has_bit, add32, get_elem?,
}
use hurlex_ii.Registry.{strcmp, is_zero}

abbrev pub page_offset : ℕ
page_offset = 0xC0000000

-- The fields of `elf_section_header_t` that are used.
pub record SectionHeader : Type 0 where
  pub sh_name : ℕ
  pub addr : ℕ
  pub size : ℕ

pub record ElfSymbol : Type 0 where
  pub name : ℕ
  pub value : ℕ
  pub size : ℕ
  pub info : ℕ

-- `elf_t`: addresses and sizes of the two tables.
pub record Elf : Type 0 where
  pub symtab : ℕ
  pub symtabsz : ℕ
  pub strtab : ℕ
  pub strtabsz : ℕ

-- ".strtab" and ".symtab".
abbrev pub strtab_name : List ℕ
strtab_name = b'.' ∷ b's' ∷ b't' ∷ b'r' ∷ b't' ∷ b'a' ∷ b'b' ∷ []

abbrev pub symtab_name : List ℕ
symtab_name = b'.' ∷ b's' ∷ b'y' ∷ b'm' ∷ b't' ∷ b'a' ∷ b'b' ∷ []

-- One round of the loop over the sections. `text` gives the text at an address.
pub load_section : (text : ℕ → List ℕ) (shstrtab : ℕ) → SectionHeader → Elf → Elf
load_section text shstrtab sh s =
    let name = text (add32 (add32 shstrtab sh.sh_name) page_offset) in
    let s1 =
      if is_zero (strcmp name strtab_name)
      then record s { strtab = add32 sh.addr page_offset; strtabsz = sh.size }
      else s in
    if is_zero (strcmp name symtab_name)
    then record s1 { symtab = add32 sh.addr page_offset; symtabsz = sh.size }
    else s1

-- The rounds for the first `n` sections.
pub load_sections : (text : ℕ → List ℕ) (shstrtab n : ℕ) (sh : ℕ → SectionHeader) → Elf → Elf
load_sections text shstrtab zero sh s = s
load_sections text shstrtab (suc n) sh s =
    load_section text shstrtab (sh n) (load_sections text shstrtab n sh s)

-- `num` and `shndx` are those of the boot information.
pub elf_from_multiboot : (text : ℕ → List ℕ) (num shndx : ℕ) (sh : ℕ → SectionHeader) → Elf → Elf
elf_from_multiboot text num shndx sh s = load_sections text (sh shndx).addr num sh s

-- `ELF32_ST_TYPE(info) == 0x2`, a function.
abbrev pub is_function : ElfSymbol → Bool
is_function sym = sym.info % 16 == 2

abbrev pub covers : (addr : ℕ) → ElfSymbol → Bool
covers addr sym = leb sym.value addr && ltb addr (add32 sym.value sym.size)

-- The loop from symbol `i` on, with `left` symbols to go; `symbols` is what `elf->symtab` points to.
pub lookup_from : (left i addr : ℕ) (symbols : ℕ → ElfSymbol) → Elf → Option ℕ
lookup_from zero i addr symbols elf = none
lookup_from (suc left) i addr symbols elf =
    let rest = lookup_from left (i + 1) addr symbols elf in
    if not (is_function (symbols i))
    then rest
    else if covers addr (symbols i)
    then some (add32 elf.strtab (symbols i).name)
    else rest

-- `sizeof(elf_symbol_t)` is 16. The result is the address of the name; `none` is NULL.
pub elf_lookup_symbol : (addr : ℕ) (symbols : ℕ → ElfSymbol) → Elf → Option ℕ
elf_lookup_symbol addr symbols elf = lookup_from (elf.symtabsz / 16) 0 addr symbols elf

-- The lines that a page fault prints behind the error code.
pub data FaultLine : Type 0 where
  not_present : FaultLine
  write_error : FaultLine
  read_error : FaultLine
  user_mode : FaultLine
  kernel_mode : FaultLine
  reserved_bits : FaultLine
  instruction_fetch : FaultLine

pub do_page_fault : (err_code : ℕ) → List FaultLine
do_page_fault err_code =
    (if has_bit 0 err_code then [] else not_present ∷ [])
    ++ ((if has_bit 1 err_code then write_error ∷ [] else read_error ∷ [])
        ++ ((if has_bit 2 err_code then user_mode ∷ [] else kernel_mode ∷ [])
            ++ ((if has_bit 3 err_code then reserved_bits ∷ [] else [])
                ++ (if has_bit 4 err_code then instruction_fetch ∷ [] else []))))
