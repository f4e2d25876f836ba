-- ===== src/Paging.antt =====
-- The page tables of src/paging.c and include/paging.h. Physical memory is words by page frame and index;
-- the code reaches it through the identity mapping of low memory and through two windows. The addresses of
-- `page_directory` and `page_tables` are the linker's. CR3 and the TLB are left out: each change of an entry
-- in the code is followed by the instruction that makes it visible.
pub mod Words
pub mod Kernel
pub mod Mapping
pub mod User
pub mod Spaces
pub mod Samples
mod Tests
use microkernel_os.Prelude.{
  ℕ, zero, suc, ◌+◌, ◌-◌, ◌*◌, ◌/◌, ◌%◌, ◌^◌, ◌≤◌, ◌<◌, ◌≡◌, ◌≢◌, ◌⊎◌, ◌↔◌, ◌∙◌, refl, sym, ap,
  fun_ext, Bool, true, false, not, ◌&&◌, ◌||◌, Option, none, some, List, [], ◌∷◌, ◌++◌, map, inl,
  inr, arith, ltb, leb, ◌==◌, if◌then◌else◌, Bool-cases, Option-cases, Table, update, first_from,
  count_from, for_range, IsFirst, first_from-IsFirst, first_from-none, first_from_eq,
  first_from_congr, count_from_congr, count_from-flip, count_from-le, count_from-lt_of_miss,
  count_from_all, for_range_inv, below_suc, length, get_or, take, drop, replicate, length-append,
  length-replicate, length-drop, lt→ltb, leb→le, ltb→lt, ==_iff, if-intro, option_case,
  option_case-intro,
}
use microkernel_os.Pmm.{Pmm, pmm_alloc_page, pmm_free_page}

pub record Paging : Type 0 where
  pub pmm : Pmm
  pub words : ℕ → ℕ → ℕ
  pub page_directory : ℕ
  pub page_tables : ℕ

-- `PAGE_PRESENT | PAGE_WRITE | PAGE_USER`, and the other flags.
abbrev pub page_present : ℕ
page_present = 1

abbrev pub page_write : ℕ
page_write = 2

abbrev pub page_user : ℕ
page_user = 4

abbrev pub page_write_through : ℕ
page_write_through = 8

abbrev pub page_cache_disable : ℕ
page_cache_disable = 16

-- The addresses of the windows.
abbrev pub temp_pd_va : ℕ
temp_pd_va = 0x3FE00000

abbrev pub temp_pt_va : ℕ
temp_pt_va = 0x3FE01000

-- `e | flag` for a flag of one bit.
abbrev pub or_flag : (flag e : ℕ) → ℕ
or_flag flag e = if e / flag % 2 == 1 then e else e + flag

-- `e & PAGE_PRESENT`
abbrev pub is_present : ℕ → Bool
is_present e = e % 2 == 1

-- `virt >> 22` and `(virt >> 12) & 0x3FF`
abbrev pub pd_index : ℕ → ℕ
pd_index virt = virt / 2 ^ 22

abbrev pub pt_index : ℕ → ℕ
pt_index virt = virt / 2 ^ 12 % 1024

-- `frame[i] = v`
abbrev pub poke : (frame i v : ℕ) → (ℕ → ℕ → ℕ) → ℕ → ℕ → ℕ
poke frame i v w f k = if frame == f && i == k then v else w f k

-- `memset(frame, 0, 4096)`
abbrev pub clear_page : (frame : ℕ) → (ℕ → ℕ → ℕ) → ℕ → ℕ → ℕ
clear_page frame w f k = if frame == f then 0 else w f k

-- The body of the inner loop of `paging_init`, for entry `p` of table `t`.
pub init_entry : (tables ram_pages t p : ℕ) → (ℕ → ℕ → ℕ) → ℕ → ℕ → ℕ
init_entry tables ram_pages t p w =
    let page_idx : ℕ = t * 1024 + p in
    if ltb page_idx ram_pages
    then poke (tables + t) p (page_idx * 4096 + page_present + page_write + page_user) w
    else w

-- The body of its outer loop.
pub init_table : (directory tables ram_pages t : ℕ) → (ℕ → ℕ → ℕ) → ℕ → ℕ → ℕ
init_table directory tables ram_pages t w =
    poke directory t ((tables + t) * 4096 + page_present + page_write + page_user)
      (for_range 1024 0 (init_entry tables ram_pages t) (clear_page (tables + t) w))

unfoldable pub paging_init : (mem_kb : ℕ) → Paging → Paging
paging_init mem_kb s =
    let ram_pages : ℕ = mem_kb * 1024 % 2 ^ 32 / 4096 in
    record s {
      words =
          for_range 1024 0 (init_table s.page_directory s.page_tables ram_pages)
            (clear_page s.page_directory s.words);
    }

-- The end of `paging_map_page`: the entry is written through the directory.
abbrev pub write_entry : (virt phys flags : ℕ) → Paging → Paging
write_entry virt phys flags s = record s {
  words =
      poke (s.words s.page_directory (pd_index virt) / 4096) (pt_index virt)
        (phys / 4096 * 4096 + or_flag page_present (flags % 4096)) s.words;
}

pub paging_map_page : (virt phys flags : ℕ) → Paging → Paging
paging_map_page virt phys flags s =
    if is_present (s.words s.page_directory (pd_index virt))
    then write_entry virt phys flags s
    else let (pt_phys, m) = pmm_alloc_page s.pmm in
      if pt_phys == 0
      then record s { pmm = m }
      else write_entry virt phys flags (record s {
        pmm = m;
        words =
            poke s.page_directory (pd_index virt)
              (pt_phys + page_present + page_write + page_cache_disable)
              (clear_page (pt_phys / 4096) s.words);
      })

pub paging_map_range : (virt phys size flags : ℕ) → Paging → Paging
paging_map_range virt phys size flags s =
    for_range ((size + 0xFFF) % 2 ^ 32 / 0x1000) 0
      (λ i (t : Paging).
        paging_map_page ((virt + i * 0x1000) % 2 ^ 32) ((phys + i * 0x1000) % 2 ^ 32) flags t)
      s

unfoldable pub paging_unmap_page : (virt : ℕ) → Paging → Paging
paging_unmap_page virt s = record s {
  words = poke (s.page_tables + pd_index virt) (pt_index virt) 0 s.words;
}

pub paging_get_physical : Paging → (virt : ℕ) → ℕ
paging_get_physical s virt =
    let e : ℕ = s.words (s.page_tables + pd_index virt) (pt_index virt) in
    if is_present e then e / 4096 * 4096 + virt % 4096 else 0

pub virt_to_phys : Paging → (v : ℕ) → ℕ
virt_to_phys s v =
    let pde : ℕ = s.words s.page_directory (pd_index v) in
    let pte : ℕ = s.words (pde / 4096) (pt_index v) in
    if not (is_present pde)
    then 0
    else if not (is_present pte)
    then 0
    else pte / 4096 * 4096 + v % 4096
