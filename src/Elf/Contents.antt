-- ===== src/Elf/Contents.antt =====
-- What a page of a program holds, and that the loader of src/elf.c reads inside the file.
use microkernel_os.Prelude.{
  ℕ, ◌+◌, ◌-◌, ◌*◌, ◌%◌, ◌^◌, ◌≤◌, ◌<◌, ◌≡◌, ◌⊎◌, ◌∙◌, sym, ap, Bool, true, false, not, ◌&&◌, inl,
  inr, arith, ltb, leb, ◌==◌, if◌then◌else◌, Bool-cases, Table,
}
use native.Mathlib.Nat.{mul-le-mul_right}
use microkernel_os.Elf.{
  user_base, ehdr_size, phdr_size, Ehdr, read_ehdr, Phdr, elf_validate, page_bytes, Verdict, skip,
  refuse, load, judge,
}

-- The byte of a segment at an address: from the file where the file has it, and zero elsewhere.
abbrev pub segment_byte : Phdr → Table ℕ → (address : ℕ) → ℕ
segment_byte phdr file_data address =
    if leb phdr.p_vaddr address && ltb address (phdr.p_vaddr + phdr.p_filesz)
    then file_data (phdr.p_offset + (address - phdr.p_vaddr))
    else 0

-- The part of the page from `start` to `stop` that is copied from the file.
copied_byte :
    (phdr : Phdr) (file_data : Table ℕ) (page_vaddr o start stop : ℕ)
    → phdr.p_vaddr + phdr.p_filesz < 2 ^ 32
    → phdr.p_offset + phdr.p_filesz < 2 ^ 32
    → o < 4096
    → start ≤ stop
    → stop < 2 ^ 32
    → page_vaddr ≤ start
    → phdr.p_vaddr ≤ start
    → (start ≡ page_vaddr) ⊎ (start ≡ phdr.p_vaddr)
    → stop ≤ phdr.p_vaddr + phdr.p_filesz
    → (stop ≡ phdr.p_vaddr + phdr.p_filesz) ⊎ (stop ≡ page_vaddr + 4096)
    → (if leb (start - page_vaddr) o
          && ltb o (start - page_vaddr + (stop + 2 ^ 32 - start) % 2 ^ 32)
        then file_data
            ((phdr.p_offset + (start - phdr.p_vaddr)) % 2 ^ 32 + (o - (start - page_vaddr)))
        else 0)
      ≡ segment_byte phdr file_data (page_vaddr + o)
copied_byte phdr file_data page_vaddr o start stop fit1 fit2 small lt top h1 h2 h3 h4 h5 =
    let e1 : (stop + 2 ^ 32 - start) % 2 ^ 32 ≡ stop - start = omega arith in
    let e2 : (phdr.p_offset + (start - phdr.p_vaddr)) % 2 ^ 32
        ≡ phdr.p_offset + (start - phdr.p_vaddr) =
      omega arith in
    let test : (leb (start - page_vaddr) o && ltb o (start - page_vaddr + (stop - start))) ≡ (
        leb phdr.p_vaddr (page_vaddr + o) && ltb (page_vaddr + o) (phdr.p_vaddr + phdr.p_filesz)) =
      ground arith in
    rw (e1, e2, test)
      (elim (Bool-cases (
        leb phdr.p_vaddr (page_vaddr + o) && ltb (page_vaddr + o) (phdr.p_vaddr + phdr.p_filesz))) [
          | inl e ↦
              let index : phdr.p_offset + (start - phdr.p_vaddr) + (o - (start - page_vaddr))
                  ≡ phdr.p_offset + (page_vaddr + o - phdr.p_vaddr) =
                ground (arith, test, e) in
              rw (e, index)
          | inr e ↦ rw e
        ])

-- The page that the loader fills holds, at each address, the byte of the segment. The segment's end in the file
-- and in memory and the page's end must not wrap.
pub page_bytes-segment_byte :
    (phdr : Phdr) (file_data : Table ℕ) (page_vaddr o : ℕ)
    → phdr.p_vaddr + phdr.p_filesz < 2 ^ 32
    → phdr.p_offset + phdr.p_filesz < 2 ^ 32
    → page_vaddr + 4096 < 2 ^ 32
    → o < 4096
    → page_bytes phdr file_data page_vaddr o ≡ segment_byte phdr file_data (page_vaddr + o)
unfolding page_bytes
page_bytes-segment_byte phdr file_data page_vaddr o fit1 fit2 fit3 small =
    let e1 : (phdr.p_vaddr + phdr.p_filesz) % 2 ^ 32 ≡ phdr.p_vaddr + phdr.p_filesz = omega arith in
    let e2 : (page_vaddr + 4096) % 2 ^ 32 ≡ page_vaddr + 4096 = omega arith in
    rw (e1, e2, page_bytes)
      (elim (Bool-cases
        (ltb page_vaddr (phdr.p_vaddr + phdr.p_filesz) && ltb phdr.p_vaddr (page_vaddr + 4096))) [
          | inl e ↦ rw e (
              copied_byte phdr file_data page_vaddr o
                (if ltb page_vaddr phdr.p_vaddr then phdr.p_vaddr else page_vaddr)
                (if ltb (phdr.p_vaddr + phdr.p_filesz) (page_vaddr + 4096)
                  then phdr.p_vaddr + phdr.p_filesz
                  else page_vaddr + 4096)
                fit1 fit2 small (ground arith) (ground arith) (ground arith) (ground arith)
                (ground arith) (ground arith) (ground arith))
          | inr e ↦ rw e (ground arith)
        ])

abbrev is_load : Verdict → Bool
is_load skip = false
is_load refuse = false
is_load load = true

-- The tests that a header passes.
is_load-judge :
    (phdr : Phdr) (size : ℕ)
    → is_load (judge phdr size) ≡ (
        (phdr.p_type == 1)
        && (not (phdr.p_memsz == 0)
            && (not (ltb phdr.p_vaddr user_base)
                && not (ltb size ((phdr.p_offset + phdr.p_filesz) % 2 ^ 32)))))
unfolding judge
is_load-judge phdr size = elim (Bool-cases (phdr.p_type == 1)) [
  | inr e ↦ rw e
  | inl e ↦ elim (Bool-cases (phdr.p_memsz == 0)) [
    | inl f ↦ rw (e, f)
    | inr f ↦ elim (Bool-cases (ltb phdr.p_vaddr user_base)) [
      | inl g ↦ rw (e, f, g)
      | inr g ↦ elim (Bool-cases (ltb size ((phdr.p_offset + phdr.p_filesz) % 2 ^ 32))) [
        | inl h ↦ rw (e, f, g, h)
        | inr h ↦ rw (e, f, g, h)
      ]
    ]
  ]
]

pub judge-load :
    (phdr : Phdr) (size : ℕ)
    → judge phdr size ≡ load
    → (user_base ≤ phdr.p_vaddr) × ((phdr.p_offset + phdr.p_filesz) % 2 ^ 32 ≤ size)
judge-load phdr size e =
    let tests = sym (is_load-judge phdr size) ∙ ap is_load e in
    (ground (arith, tests), ground (arith, tests))

-- A segment that the loader accepts is filled from the file's own bytes: what lies behind the end of the file
-- has no effect on any page. The ends must not wrap.
pub page_bytes-inside :
    (phdr : Phdr) (size : ℕ) (file_data other : Table ℕ) (page_vaddr o : ℕ)
    → judge phdr size ≡ load
    → phdr.p_vaddr + phdr.p_filesz < 2 ^ 32
    → phdr.p_offset + phdr.p_filesz < 2 ^ 32
    → page_vaddr + 4096 < 2 ^ 32
    → o < 4096
    → ((i : ℕ) → i < size → file_data i ≡ other i)
    → page_bytes phdr file_data page_vaddr o ≡ page_bytes phdr other page_vaddr o
page_bytes-inside phdr size file_data other page_vaddr o e fit1 fit2 fit3 small same =
    page_bytes-segment_byte phdr file_data page_vaddr o fit1 fit2 fit3 small
    ∙ inside
    ∙ sym (page_bytes-segment_byte phdr other page_vaddr o fit1 fit2 fit3 small)
  where
    end : phdr.p_offset + phdr.p_filesz ≤ size
    end = omega (arith, (judge-load phdr size e).1)

    inside : segment_byte phdr file_data (page_vaddr + o) ≡ segment_byte phdr other (page_vaddr + o)
    inside =
        elim (Bool-cases (
          leb phdr.p_vaddr (page_vaddr + o)
          && ltb (page_vaddr + o) (phdr.p_vaddr + phdr.p_filesz))) [
            | inl f ↦
                rw (
                  f,
                  same (phdr.p_offset + (page_vaddr + o - phdr.p_vaddr)) (ground (arith, end, f)),
                )
            | inr f ↦ rw f
          ]

validate_tests :
    (file_data : Table ℕ) (size : ℕ)
    → elf_validate file_data size ≡ 0
    → (ehdr_size ≤ size)
      × (((read_ehdr file_data).e_phoff
              + (read_ehdr file_data).e_phnum * (read_ehdr file_data).e_phentsize)
            % 2 ^ 32
          ≤ size)
unfolding elf_validate
validate_tests file_data size e = (ground (arith, e), ground (arith, e))

-- In a file that `elf_validate` accepts, the header and every program header lie inside the file, if an entry is
-- at least as large as a program header and the end of the table does not wrap.
pub elf_validate-bounds :
    (file_data : Table ℕ) (size i : ℕ)
    → elf_validate file_data size ≡ 0
    → (read_ehdr file_data).e_phoff
        + (read_ehdr file_data).e_phnum * (read_ehdr file_data).e_phentsize
      < 2 ^ 32
    → phdr_size ≤ (read_ehdr file_data).e_phentsize
    → i < (read_ehdr file_data).e_phnum
    → (ehdr_size ≤ size)
      × ((read_ehdr file_data).e_phoff + i * (read_ehdr file_data).e_phentsize + phdr_size ≤ size)
elf_validate-bounds file_data size i e fit room lt =
    let h : Ehdr = read_ehdr file_data in
    let tests = validate_tests file_data size e in
    let m : (i + 1) * h.e_phentsize ≤ h.e_phnum * h.e_phentsize =
      mul-le-mul_right h.e_phentsize (omega arith) in
    (tests.0, omega (arith, m, tests.1, fit, room))
