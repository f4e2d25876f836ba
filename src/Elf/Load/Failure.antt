-- ===== src/Elf/Load/Failure.antt =====
-- Files that `elf_load` of src/elf.c refuses: no task, and no page is lost.
use microkernel_os.Prelude.{
  ℕ, zero, suc, ◌+◌, ◌*◌, ◌%◌, ◌^◌, ◌<◌, ◌≡◌, ◌≢◌, ◌⊎◌, refl, Bool, true, false, List, inl, inr,
  arith, ltb, ◌==◌, if◌then◌else◌, Bool-cases, Table,
}
use microkernel_os.Pmm.{bm_test}
use microkernel_os.Pmm.Invariant.{IsValid}
use microkernel_os.Paging.User.Fresh.{IsReserved}
use microkernel_os.Paging.Spaces.{paging_create_isolated_space}
use microkernel_os.Paging.Spaces.Isolated.{
  paging_destroy_address_space-paging_create_isolated_space,
}
use microkernel_os.Task.Create.{minus_one}
use microkernel_os.Elf.{
  read_ehdr, read_phdr, elf_validate, Phdr, user_base, skip, refuse, load, judge,
}
use microkernel_os.Elf.Load.{Loader, destroy, load_segments, fill_space, elf_load}

-- The program header of a number.
abbrev pub header : Table ℕ → (i : ℕ) → Phdr
header file_data i =
    read_phdr file_data
      (((read_ehdr file_data).e_phoff + i * (read_ehdr file_data).e_phentsize) % 2 ^ 32)

-- A header that is not of a segment to load: of another type than PT_LOAD, or of no bytes.
abbrev pub IsIgnored : Phdr → Type 0
IsIgnored p = (p.p_type ≢ 1) ⊎ (p.p_memsz ≡ 0)

-- A segment to load that lies below the user's addresses, or whose bytes go beyond the end of the file.
pub record IsBad (p : Phdr) (size : ℕ) : Type 0 where
  pub loadable : p.p_type ≡ 1
  pub sized : p.p_memsz ≢ 0
  pub outside :
      (p.p_vaddr < user_base)
      ⊎ ((p.p_offset + p.p_filesz < 2 ^ 32) × (size < p.p_offset + p.p_filesz))

judge-ignored : (p : Phdr) (size : ℕ) → IsIgnored p → judge p size ≡ skip
unfolding judge
judge-ignored p size h = elim h [
  | inl ne ↦ let e : (p.p_type == 1) ≡ false = ground arith in rw e refl
  | inr z ↦ elim (Bool-cases (p.p_type == 1)) [
    | inl e ↦ let e' : (p.p_memsz == 0) ≡ true = ground arith in rw (e, e') refl
    | inr e ↦ rw e refl
  ]
]

judge-IsBad : (p : Phdr) (size : ℕ) → IsBad p size → judge p size ≡ refuse
unfolding judge
judge-IsBad p size b =
    let e : (p.p_type == 1) ≡ true = ground (arith, b.loadable) in
    let e' : (p.p_memsz == 0) ≡ false = ground (arith, b.sized) in
    rw (e, e')
      (elim (Bool-cases (ltb p.p_vaddr user_base)) [
        | inl low ↦ rw low refl
        | inr high ↦ rw high (beyond b.outside high)
      ])
  where
    beyond :
        (p.p_vaddr < user_base)
          ⊎ ((p.p_offset + p.p_filesz < 2 ^ 32) × (size < p.p_offset + p.p_filesz))
        → ltb p.p_vaddr user_base ≡ false
        → (if ltb size ((p.p_offset + p.p_filesz) % 2 ^ 32) then refuse else load) ≡ refuse
    beyond h high = elim h [
      | inl low ↦ absurd (ground arith)
      | inr (fits, gone) ↦
          let e : ltb size ((p.p_offset + p.p_filesz) % 2 ^ 32) ≡ true = ground arith in rw e refl
    ]

-- The first header from `i` on that is not ignored, in `rounds` of them, is bad.
pub data IsRefused (file_data : Table ℕ) (size : ℕ) : (rounds i : ℕ) → Type 0 where
  at_once :
      {rounds i : ℕ} → IsBad (header file_data i) size → IsRefused file_data size (suc rounds) i
  later :
      {rounds i : ℕ}
      → IsIgnored (header file_data i)
      → IsRefused file_data size rounds (i + 1)
      → IsRefused file_data size (suc rounds) i

load_segments-refused :
    (rounds i pd : ℕ) (file_data : Table ℕ) (size : ℕ) (s : Loader)
    → IsRefused file_data size rounds i
    → load_segments rounds i pd file_data size s ≡ (false, s)
unfolding load_segments
load_segments-refused zero i pd file_data size s r = elim r [ ]
load_segments-refused (suc rounds) i pd file_data size s (at_once b) =
    rw (judge-IsBad (header file_data i) size b, load_segments)
load_segments-refused (suc rounds) i pd file_data size s (later h r) = rw (
  judge-ignored (header file_data i) size h,
  load_segments-refused rounds (i + 1) pd file_data size s r,
  load_segments,
)

fill_space-refused :
    (pd : ℕ) (file_data : Table ℕ) (size : ℕ) (name : List ℕ) (priority : ℕ) (io_privileged : Bool)
    (flags : ℕ) (s : Loader)
    → IsRefused file_data size (read_ehdr file_data).e_phnum 0
    → fill_space pd file_data size name priority io_privileged flags s ≡ (minus_one, destroy pd s)
unfolding fill_space
fill_space-refused pd file_data size name priority io_privileged flags s r =
    rw (load_segments-refused (read_ehdr file_data).e_phnum 0 pd file_data size s r)

elf_load-fills :
    (file_data : Table ℕ) (size : ℕ) (name : List ℕ) (priority : ℕ) (io_privileged : Bool)
    (flags : ℕ) (s : Loader)
    → elf_validate file_data size ≡ 0
    → (paging_create_isolated_space s.paging).0 ≢ 0
    → elf_load file_data size name priority io_privileged flags s
      ≡ fill_space
          (paging_create_isolated_space s.paging).0
          file_data
          size
          name
          priority
          io_privileged
          flags
          (record s { paging = (paging_create_isolated_space s.paging).1 })
unfolding elf_load
elf_load-fills file_data size name priority io_privileged flags s e made =
    let e1 : ((paging_create_isolated_space s.paging).0 == 0) ≡ false = ground arith in rw (e, e1)

-- A program that passes `elf_validate`, and whose first program header of type PT_LOAD with a size in memory that
-- is not 0 starts below the user's addresses, or has its bytes end behind the end of the file, where that end does
-- not wrap around 2^32, is answered with -1: the task table is as before, and every page that the loader took is
-- given back. There was memory for the directory, the allocator's counter agrees with its bitmap, and the kernel's
-- tables are marked as in use.
pub elf_load-refused :
    (file_data : Table ℕ) (size : ℕ) (name : List ℕ) (priority : ℕ) (io_privileged : Bool)
    (flags : ℕ) (s : Loader) (j : ℕ)
    → elf_validate file_data size ≡ 0
    → IsRefused file_data size (read_ehdr file_data).e_phnum 0
    → IsReserved s.paging
    → IsValid s.paging.pmm
    → (paging_create_isolated_space s.paging).0 ≢ 0
    → ((elf_load file_data size name priority io_privileged flags s).0 ≡ minus_one)
      × ((elf_load file_data size name priority io_privileged flags s).1.sched ≡ s.sched)
      × (bm_test (elf_load file_data size name priority io_privileged flags s).1.paging.pmm j
          ≡ bm_test s.paging.pmm j)
elf_load-refused file_data size name priority io_privileged flags s j e r reserved valid made =
    rw
      (
        elf_load-fills file_data size name priority io_privileged flags s e made,
        fill_space-refused (paging_create_isolated_space s.paging).0 file_data size name priority
            io_privileged flags (record s { paging = (paging_create_isolated_space s.paging).1 }) r,
      )
      (
        refl,
        refl,
        paging_destroy_address_space-paging_create_isolated_space s.paging j reserved valid made,
      )

-- A file that `elf_validate` refuses changes nothing.
pub elf_load-invalid :
    (file_data : Table ℕ) (size : ℕ) (name : List ℕ) (priority : ℕ) (io_privileged : Bool)
    (flags : ℕ) (s : Loader)
    → elf_validate file_data size ≢ 0
    → elf_load file_data size name priority io_privileged flags s ≡ (minus_one, s)
unfolding elf_load
elf_load-invalid file_data size name priority io_privileged flags s ne =
    let e : (elf_validate file_data size == 0) ≡ false = ground arith in rw e
