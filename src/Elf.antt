-- ===== src/Elf.antt =====
-- Programs in ELF files, src/elf.c and include/elf.h: what the loader reads of a file, whether it takes it, and
-- what it puts into a page. The file is a table of bytes. Elf/Load is the loading itself.
pub mod Contents
pub mod Load
mod Tests
use microkernel_os.Prelude.{
  ℕ, zero, suc, ◌+◌, ◌-◌, ◌*◌, ◌/◌, ◌%◌, ◌^◌, ◌≤◌, ◌<◌, ◌≡◌, ◌≢◌, ◌⊎◌, ◌↔◌, ◌∙◌, refl, sym, ap,
  fun_ext, Bool, true, false, not, ◌&&◌, ◌||◌, Option, none, some, List, [], ◌∷◌, ◌++◌, map, inl,
  inr, arith, ltb, leb, ◌==◌, if◌then◌else◌, Bool-cases, Option-cases, Table, update, first_from,
  count_from, for_range, IsFirst, first_from-IsFirst, first_from-none, first_from_eq,
  first_from_congr, count_from_congr, count_from-flip, count_from-le, count_from-lt_of_miss,
  count_from_all, for_range_inv, below_suc, length, get_or, take, drop, replicate, length-append,
  length-replicate, length-drop, lt→ltb, leb→le, ltb→lt, ==_iff, if-intro, option_case,
  option_case-intro,
}
use microkernel_os.Task.Create.{minus_one}

abbrev pub elf_magic : ℕ
elf_magic = 0x464C457F

abbrev pub user_base : ℕ
user_base = 0xC0000000

abbrev pub user_stack_top : ℕ
user_stack_top = 0xE0000000

abbrev pub user_stack_pages : ℕ
user_stack_pages = 4

abbrev pub user_vga_vaddr : ℕ
user_vga_vaddr = 0xB0000000

abbrev pub vga_phys_base : ℕ
vga_phys_base = 0xB8000

abbrev pub temp_map_va : ℕ
temp_map_va = 0x3FD00000

-- Numbers of the file, the low byte first.
abbrev pub read_u16 : Table ℕ → ℕ → ℕ
read_u16 d i = d i + 256 * d (i + 1)

abbrev pub read_u32 : Table ℕ → ℕ → ℕ
read_u32 d i = d i + 256 * d (i + 1) + 65536 * d (i + 2) + 16777216 * d (i + 3)

-- `elf32_ehdr_t` at the start of the file, as far as the loader reads it.
pub record Ehdr : Type 0 where
  pub e_ident_magic : ℕ
  pub e_ident_class : ℕ
  pub e_ident_data : ℕ
  pub e_type : ℕ
  pub e_machine : ℕ
  pub e_entry : ℕ
  pub e_phoff : ℕ
  pub e_phentsize : ℕ
  pub e_phnum : ℕ

abbrev pub ehdr_size : ℕ
ehdr_size = 52

unfoldable pub read_ehdr : Table ℕ → Ehdr
read_ehdr d = record {
  e_ident_magic = read_u32 d 0;
  e_ident_class = d 4;
  e_ident_data = d 5;
  e_type = read_u16 d 16;
  e_machine = read_u16 d 18;
  e_entry = read_u32 d 24;
  e_phoff = read_u32 d 28;
  e_phentsize = read_u16 d 42;
  e_phnum = read_u16 d 44;
}

-- `elf32_phdr_t`, as far as the loader reads it.
pub record Phdr : Type 0 where
  pub p_type : ℕ
  pub p_offset : ℕ
  pub p_vaddr : ℕ
  pub p_filesz : ℕ
  pub p_memsz : ℕ
  pub p_flags : ℕ

abbrev pub phdr_size : ℕ
phdr_size = 32

unfoldable pub read_phdr : Table ℕ → (at_byte : ℕ) → Phdr
read_phdr d p = record {
  p_type = read_u32 d p;
  p_offset = read_u32 d (p + 4);
  p_vaddr = read_u32 d (p + 8);
  p_filesz = read_u32 d (p + 16);
  p_memsz = read_u32 d (p + 20);
  p_flags = read_u32 d (p + 24);
}

-- 0 if the file is a program that can be loaded; the file is not NULL.
unfoldable pub elf_validate : (file_data : Table ℕ) (size : ℕ) → ℕ
elf_validate file_data size =
    let h : Ehdr = read_ehdr file_data in
    if ltb size ehdr_size
    then minus_one
    else if not (h.e_ident_magic == elf_magic)
    then minus_one
    else if not (h.e_ident_class == 1)
        || not (h.e_ident_data == 1)
        || not (h.e_type == 2)
        || not (h.e_machine == 3)
    then minus_one
    else if h.e_phnum == 0 || h.e_phoff == 0
    then minus_one
    else if ltb size ((h.e_phoff + h.e_phnum * h.e_phentsize) % 2 ^ 32)
    then minus_one
    else if ltb h.e_entry user_base
    then minus_one
    else 0

-- The bytes of the page at `page_vaddr` of a segment: zero, and over it what the file has for the page.
unfoldable pub page_bytes : Phdr → (file_data : Table ℕ) → (page_vaddr : ℕ) → Table ℕ
page_bytes phdr file_data page_vaddr o =
    let seg_file_start : ℕ = phdr.p_vaddr in
    let seg_file_end : ℕ = (phdr.p_vaddr + phdr.p_filesz) % 2 ^ 32 in
    let page_end : ℕ = (page_vaddr + 4096) % 2 ^ 32 in
    let copy_start : ℕ = if ltb page_vaddr seg_file_start then seg_file_start else page_vaddr in
    let copy_end : ℕ = if ltb seg_file_end page_end then seg_file_end else page_end in
    let file_offset : ℕ = (phdr.p_offset + (copy_start - phdr.p_vaddr)) % 2 ^ 32 in
    let page_offset : ℕ = copy_start - page_vaddr in
    let copy_len : ℕ = (copy_end + 2 ^ 32 - copy_start) % 2 ^ 32 in
    if ltb page_vaddr seg_file_end && ltb seg_file_start page_end
    then (if leb page_offset o && ltb o (page_offset + copy_len)
        then file_data (file_offset + (o - page_offset))
        else 0)
    else 0

-- Whether the loop of `elf_load` maps a header, skips it or refuses it.
pub data Verdict : Type 0 where
  skip : Verdict
  refuse : Verdict
  load : Verdict

unfoldable pub judge : Phdr → (size : ℕ) → Verdict
judge phdr size =
    if not (phdr.p_type == 1)
    then skip
    else if phdr.p_memsz == 0
    then skip
    else if ltb phdr.p_vaddr user_base
    then refuse
    else if ltb size ((phdr.p_offset + phdr.p_filesz) % 2 ^ 32)
    then refuse
    else load
