-- ===== src/Elf/Load.antt =====
-- `elf_load` of src/elf.c and its steps, over the page allocator, the page tables, the heap and the tasks. The
-- bytes of the pages that a program gets are kept apart from the words of the page tables, since no page is
-- both.
pub mod Failure
use microkernel_os.Prelude.{
  ℕ, zero, suc, ◌+◌, ◌-◌, ◌*◌, ◌/◌, ◌%◌, ◌^◌, ◌≤◌, ◌<◌, ◌≡◌, ◌≢◌, ◌⊎◌, ◌↔◌, ◌∙◌, refl, sym, ap,
  fun_ext, Bool, true, false, not, ◌&&◌, ◌||◌, Option, none, some, List, [], ◌∷◌, ◌++◌, map, inl,
  inr, arith, ltb, leb, ◌==◌, if◌then◌else◌, Bool-cases, Option-cases, Table, update, first_from,
  count_from, for_range, IsFirst, first_from-IsFirst, first_from-none, first_from_eq,
  first_from_congr, count_from_congr, count_from-flip, count_from-le, count_from-lt_of_miss,
  count_from_all, for_range_inv, below_suc, length, get_or, take, drop, replicate, length-append,
  length-replicate, length-drop, lt→ltb, leb→le, ltb→lt, ==_iff, if-intro, option_case,
  option_case-intro,
}
use microkernel_os.Pmm.{Pmm, pmm_alloc_page}
use microkernel_os.Heap.{Heap, kmalloc, kfree}
use microkernel_os.Paging.{
  Paging, page_present, page_write, page_user, paging_map_page, paging_unmap_page,
}
use microkernel_os.Paging.User.{window, paging_map_user}
use microkernel_os.Paging.Spaces.{paging_create_isolated_space, paging_destroy_address_space}
use microkernel_os.Task.State.{Sched, kernel_stack_size}
use microkernel_os.Task.Create.{minus_one, task_create_from_elf}
use microkernel_os.Elf.{
  user_stack_top, user_stack_pages, user_vga_vaddr, vga_phys_base, temp_map_va, Ehdr, read_ehdr,
  Phdr, read_phdr, elf_validate, page_bytes, Verdict, skip, refuse, load, judge,
}

pub record Loader : Type 0 where
  pub paging : Paging
  pub bytes : ℕ → ℕ → ℕ
  pub heap : Heap
  pub sched : Sched

-- The body of the loop of `map_segment`: one page, or no memory for it.
pub map_segment_page :
    (pd : ℕ) → Phdr → (file_data : Table ℕ) → (flags page_vaddr : ℕ) → Loader → Bool × Loader
map_segment_page pd phdr file_data flags page_vaddr s =
    let (frame_phys, m) = pmm_alloc_page s.paging.pmm in
    let p : Paging = record s.paging { pmm = m } in
    if frame_phys == 0 then (false, record s { paging = p }) else (
      true,
      record s {
        paging = paging_map_user pd page_vaddr frame_phys flags p;
        bytes = update s.bytes (frame_phys / 4096) (page_bytes phdr file_data page_vaddr);
      },
    )

-- `while` pages are left, `step` each; the loop ends at the first that fails.
pub pages_loop : (rounds i : ℕ) → (step : ℕ → Loader → Bool × Loader) → Loader → Bool × Loader
pages_loop zero i step s = (true, s)
pages_loop (suc rounds) i step s =
    let r = step i s in
    let rest = pages_loop rounds (i + 1) step r.1 in if r.0 then rest else (false, r.1)

-- The flags and the pages of a segment.
abbrev pub segment_flags : Phdr → ℕ
segment_flags phdr =
    if phdr.p_flags / 2 % 2 == 1
    then page_present + page_user + page_write
    else page_present + page_user

abbrev pub segment_start : Phdr → ℕ
segment_start phdr = phdr.p_vaddr / 4096 * 4096

abbrev pub segment_end : Phdr → ℕ
segment_end phdr = (phdr.p_vaddr + phdr.p_memsz + 0xFFF) % 2 ^ 32 / 4096 * 4096

pub map_segment : (pd : ℕ) → Phdr → (file_data : Table ℕ) → Loader → Bool × Loader
map_segment pd phdr file_data s =
    pages_loop ((segment_end phdr + 2 ^ 32 - segment_start phdr) % 2 ^ 32 / 4096) 0
      (λ i t.
        map_segment_page pd phdr file_data (segment_flags phdr)
          ((segment_start phdr + i * 4096) % 2 ^ 32) t)
      s

-- The loop of `elf_load` over the program headers.
pub load_segments :
    (rounds i : ℕ) → (pd : ℕ) → (file_data : Table ℕ) (size : ℕ) → Loader → Bool × Loader
load_segments zero i pd file_data size s = (true, s)
load_segments (suc rounds) i pd file_data size s =
    let h : Ehdr = read_ehdr file_data in
    let phdr : Phdr = read_phdr file_data ((h.e_phoff + i * h.e_phentsize) % 2 ^ 32) in
    let mapped = map_segment pd phdr file_data s in
    let skipped = load_segments rounds (i + 1) pd file_data size s in
    let after = load_segments rounds (i + 1) pd file_data size mapped.1 in
    elim (judge phdr size) [
      | skip ↦ skipped
      | refuse ↦ (false, s)
      | load ↦ if mapped.0 then after else (false, mapped.1)
    ]

-- The body of the loop for the stack, with the page cleared through its own window.
pub map_stack_page : (pd i : ℕ) → Loader → Bool × Loader
map_stack_page pd i s =
    let (frame_phys, m) = pmm_alloc_page s.paging.pmm in
    let p : Paging = record s.paging { pmm = m } in
    let p1 : Paging = paging_map_page temp_map_va frame_phys (page_present + page_write) p in
    let shown : ℕ = window temp_map_va p1 in
    let p2 : Paging = paging_unmap_page temp_map_va p1 in
    if frame_phys == 0 then (false, record s { paging = p }) else (
      true,
      record s {
        paging =
            paging_map_user pd (user_stack_top - user_stack_pages * 4096 + i * 4096) frame_phys
              (page_present + page_write + page_user) p2;
        bytes = update s.bytes shown (λ o. 0);
      },
    )

-- The text screen, for a server that asks for it.
pub map_vga : (pd flags : ℕ) → Loader → Loader
map_vga pd flags s =
    let all : ℕ = page_present + page_write + page_user in
    let p1 : Paging = paging_map_user pd user_vga_vaddr vga_phys_base all s.paging in
    if flags % 2 == 1
    then record s {
      paging = paging_map_user pd (user_vga_vaddr + 4096) (vga_phys_base + 4096) all p1;
    }
    else s

abbrev pub destroy : (pd : ℕ) → Loader → Loader
destroy pd s = record s { paging = paging_destroy_address_space pd s.paging }

-- The end of `elf_load`: the kernel stack and the task.
pub start_program :
    (pd entry : ℕ) → (name : List ℕ) (priority : ℕ) (io_privileged : Bool) → Loader → ℕ × Loader
start_program pd entry name priority io_privileged s =
    let (kernel_stack, h) = kmalloc kernel_stack_size s.heap in
    let s1 : Loader = record s { heap = h } in
    let (pid, q) =
      task_create_from_elf name entry user_stack_top pd kernel_stack kernel_stack_size priority
        io_privileged s.sched in
    if kernel_stack == 0
    then (minus_one, destroy pd s1)
    else if leb (2 ^ 31) pid
    then (minus_one, destroy pd (record s1 { heap = kfree kernel_stack h; sched = q }))
    else (pid, record s1 { sched = q })

-- What `elf_load` does in a new address space.
pub fill_space :
    (pd : ℕ) (file_data : Table ℕ) (size : ℕ) (name : List ℕ) (priority : ℕ) (io_privileged : Bool)
    (flags : ℕ)
    → Loader
    → ℕ × Loader
fill_space pd file_data size name priority io_privileged flags s =
    let h : Ehdr = read_ehdr file_data in
    let loaded = load_segments h.e_phnum 0 pd file_data size s in
    let stacked = pages_loop user_stack_pages 0 (map_stack_page pd) loaded.1 in
    if not loaded.0
    then (minus_one, destroy pd loaded.1)
    else if not stacked.0
    then (minus_one, destroy pd stacked.1)
    else start_program pd h.e_entry name priority io_privileged (map_vga pd flags stacked.1)

pub elf_load :
    (file_data : Table ℕ) (size : ℕ) (name : List ℕ) (priority : ℕ) (io_privileged : Bool)
    (flags : ℕ)
    → Loader
    → ℕ × Loader
elf_load file_data size name priority io_privileged flags s =
    let (pd, p) = paging_create_isolated_space s.paging in
    if not (elf_validate file_data size == 0)
    then (minus_one, s)
    else if pd == 0
    then (minus_one, record s { paging = p })
    else fill_space pd file_data size name priority io_privileged flags (record s { paging = p })
