-- ===== src/Elf/Tests.antt =====
-- The loader of src/elf.c at concrete files.
use microkernel_os.Prelude.{
  ℕ, ◌≡◌, ◌≢◌, refl, true, false, none, List, [], ◌∷◌, ◌++◌, inl, arith, ltb, if◌then◌else◌, Table,
  get_or,
}
use microkernel_os.Pmm.{bm_test}
use microkernel_os.Heap.{Heap}
use microkernel_os.Paging.Samples.{pages, pages-IsValid, memory, memory-IsReserved, first_free}
use microkernel_os.Paging.Spaces.{paging_create_isolated_space}
use microkernel_os.Task.State.{zero_task}
use microkernel_os.Task.Create.{minus_one}
use microkernel_os.Elf.{read_ehdr, Phdr, read_phdr, elf_validate, page_bytes, judge, load}
use microkernel_os.Elf.Contents.{page_bytes-segment_byte, page_bytes-inside}
use microkernel_os.Elf.Load.{Loader, elf_load}
use microkernel_os.Elf.Load.Failure.{IsRefused, at_once, elf_load-refused}

-- The header of a file with one program header, which follows.
abbrev header_bytes : List ℕ
header_bytes =
    127 ∷ 69 ∷ 76 ∷ 70 ∷ 1 ∷ 1 ∷ 1 ∷ 0 ∷ 0 ∷ 0 ∷ 0 ∷ 0 ∷ 0 ∷ 0 ∷ 0 ∷ 0 ∷ 2 ∷ 0 ∷ 3 ∷ 0 ∷ 1 ∷ 0 ∷ 0
    ∷ 0 ∷ 0 ∷ 0 ∷ 0 ∷ 192 ∷ 52 ∷ 0 ∷ 0 ∷ 0 ∷ 0 ∷ 0 ∷ 0 ∷ 0 ∷ 0 ∷ 0 ∷ 0 ∷ 0 ∷ 52 ∷ 0 ∷ 32 ∷ 0 ∷ 1 ∷ 0
    ∷ 0 ∷ 0 ∷ 0 ∷ 0 ∷ 0 ∷ 0 ∷ []

-- A segment of 16 bytes at the start of the user's addresses, 8 of them in the file.
abbrev segment_header : List ℕ
segment_header =
    1 ∷ 0 ∷ 0 ∷ 0 ∷ 84 ∷ 0 ∷ 0 ∷ 0 ∷ 0 ∷ 0 ∷ 0 ∷ 192 ∷ 0 ∷ 0 ∷ 0 ∷ 0 ∷ 8 ∷ 0 ∷ 0 ∷ 0 ∷ 16 ∷ 0 ∷ 0
    ∷ 0 ∷ 5 ∷ 0 ∷ 0 ∷ 0 ∷ 0 ∷ 0 ∷ 0 ∷ 0 ∷ []

-- The same segment below the user's addresses.
abbrev low_header : List ℕ
low_header =
    1 ∷ 0 ∷ 0 ∷ 0 ∷ 84 ∷ 0 ∷ 0 ∷ 0 ∷ 0 ∷ 0 ∷ 0 ∷ 64 ∷ 0 ∷ 0 ∷ 0 ∷ 0 ∷ 8 ∷ 0 ∷ 0 ∷ 0 ∷ 16 ∷ 0 ∷ 0 ∷ 0
    ∷ 5 ∷ 0 ∷ 0 ∷ 0 ∷ 0 ∷ 0 ∷ 0 ∷ 0 ∷ []

-- What the file has for the segment.
abbrev content : List ℕ
content = 11 ∷ 12 ∷ 13 ∷ 14 ∷ 15 ∷ 16 ∷ 17 ∷ 18 ∷ []

abbrev program : Table ℕ
program i = get_or (header_bytes ++ (segment_header ++ content)) i 0

abbrev low_program : Table ℕ
low_program i = get_or (header_bytes ++ (low_header ++ content)) i 0

-- The file with other bytes behind its end.
abbrev padded : Table ℕ
padded i = if ltb i 92 then program i else 7

abbrev segment : Phdr
segment = read_phdr program 52

abbrev no_heap : Heap
no_heap = record {
  header = λ x. record { magic = 0; size = 0; free = false; next = 0; prev = 0 };
  bytes = λ x. 0;
  heap_start = 0;
  heap_total = 0;
}

abbrev loader : Loader
loader = record {
  paging = memory;
  bytes = λ f o. 0;
  heap = no_heap;
  sched = record {
    tasks = λ i. zero_task;
    current_task = none;
    next_pid = 1;
    scheduler_enabled = true;
    preemptive_enabled = true;
    default_quantum = 1;
    sched_lock_count = 0;
    switch_new_esp = 0;
    switch_pending = false;
    total_ctx_switches = 0;
    cr3 = 0;
    tss_esp0 = 0;
    memory = λ a. 0;
  };
}

program_valid : elf_validate program 92 ≡ 0
unfolding elf_validate read_ehdr
program_valid = refl

low_program_valid : elf_validate low_program 92 ≡ 0
unfolding elf_validate read_ehdr
low_program_valid = refl

segment_load : judge segment 92 ≡ load
unfolding judge read_phdr
segment_load = refl

low-IsRefused : IsRefused low_program 92 (read_ehdr low_program).e_phnum 0
unfolding read_phdr read_ehdr
low-IsRefused =
    at_once (record { loadable = refl; sized = omega arith; outside = inl (omega arith) })

page_bytes-segment_byte_example : page_bytes segment program 0xC0000000 3 ≡ 14
unfolding read_phdr
page_bytes-segment_byte_example =
    page_bytes-segment_byte segment program 0xC0000000 3 (omega arith) (omega arith) (omega arith)
      (omega arith)

page_bytes-inside_example :
    page_bytes segment program 0xC0000000 9 ≡ page_bytes segment padded 0xC0000000 9
unfolding read_phdr
page_bytes-inside_example =
    page_bytes-inside segment 92 program padded 0xC0000000 9 segment_load (omega arith)
      (omega arith) (omega arith) (omega arith) (λ i lt. ground arith)

space_made : (paging_create_isolated_space memory).0 ≢ 0
unfolding paging_create_isolated_space
space_made = ground (arith, first_free)

elf_load-refused_example :
    ((elf_load low_program 92 [] 1 false 0 loader).0 ≡ minus_one)
    × ((elf_load low_program 92 [] 1 false 0 loader).1.sched ≡ loader.sched)
    × (bm_test (elf_load low_program 92 [] 1 false 0 loader).1.paging.pmm 4 ≡ bm_test pages 4)
elf_load-refused_example =
    elf_load-refused low_program 92 [] 1 false 0 loader 4 low_program_valid low-IsRefused
      memory-IsReserved pages-IsValid space_made
