-- ===== src/Paging/User.antt =====
-- `paging_map_user` of src/paging.c: a page of another address space, through the windows of the kernel's
-- tables on its directory and its page table.
pub mod Laws
pub mod Fresh
use microkernel_os.Prelude.{
  ℕ, zero, suc, ◌+◌, ◌-◌, ◌*◌, ◌/◌, ◌%◌, ◌^◌, ◌≤◌, ◌<◌, ◌≡◌, ◌≢◌, ◌⊎◌, ◌↔◌, ◌∙◌, refl, sym, ap,
  fun_ext, Bool, true, false, not, ◌&&◌, ◌||◌, Option, none, some, List, [], ◌∷◌, ◌++◌, map, inl,
  inr, arith, ltb, leb, ◌==◌, if◌then◌else◌, Bool-cases, Option-cases, Table, update, first_from,
  count_from, for_range, IsFirst, first_from-IsFirst, first_from-none, first_from_eq,
  first_from_congr, count_from_congr, count_from-flip, count_from-le, count_from-lt_of_miss,
  count_from_all, for_range_inv, below_suc, length, get_or, take, drop, replicate, length-append,
  length-replicate, length-drop, lt→ltb, leb→le, ltb→lt, ==_iff, if-intro, option_case,
  option_case-intro,
}
use microkernel_os.Pmm.{Pmm, pmm_alloc_page}
use microkernel_os.Paging.{
  Paging, page_present, page_write, page_user, page_write_through, temp_pd_va, temp_pt_va, or_flag,
  is_present, pd_index, pt_index, poke, clear_page, paging_map_page, paging_unmap_page,
  virt_to_phys,
}

-- The page frame that a window of the kernel's tables shows.
abbrev pub window : (va : ℕ) → Paging → ℕ
window va s = virt_to_phys s va / 4096

-- A new page table for `paging_map_user`: cleared through the window and linked in the directory's window.
unfoldable pub link_new_table : (virt : ℕ) → Paging → Paging
link_new_table virt s =
    let (new_pt_phys, m) = pmm_alloc_page s.pmm in
    let t1 : Paging =
      paging_map_page temp_pt_va new_pt_phys (page_present + page_write) (record s { pmm = m }) in
    let t2 : Paging = record t1 { words = clear_page (window temp_pt_va t1) t1.words } in
    let t3 : Paging = record t2 {
      words =
          poke (window temp_pd_va t2) (pd_index virt)
            (new_pt_phys + page_present + page_write + page_user) t2.words;
    } in
    paging_unmap_page temp_pt_va t3

-- The page table for an address, found or made, with user access.
unfoldable pub user_table : (virt : ℕ) → Paging → Paging
user_table virt s =
    let pd : ℕ = window temp_pd_va s in
    let pde : ℕ = s.words pd (pd_index virt) in
    if is_present pde
    then record s { words = poke pd (pd_index virt) (or_flag page_user pde) s.words }
    else link_new_table virt s

-- The flags of an entry of `paging_map_user`.
abbrev pub final_flags : (virt flags : ℕ) → ℕ
final_flags virt flags =
    let f : ℕ = or_flag page_user (or_flag page_present flags) in
    if leb 0x30000000 virt && ltb virt 0x40000000 then or_flag page_write_through f else f

-- The entry is written through the window on the page table.
unfoldable pub write_user_entry : (virt phys flags : ℕ) → Paging → Paging
write_user_entry virt phys flags s =
    let pt_phys : ℕ = s.words (window temp_pd_va s) (pd_index virt) / 4096 * 4096 in
    let t : Paging = paging_map_page temp_pt_va pt_phys (page_present + page_write) s in
    record t {
      words =
          poke (window temp_pt_va t) (pt_index virt)
            (phys / 4096 * 4096 + final_flags virt flags % 4096) t.words;
    }

-- It works in the kernel's address space, whatever CR3 was.
unfoldable pub paging_map_user : (target_pd_phys virt phys flags : ℕ) → Paging → Paging
paging_map_user target_pd_phys virt phys flags s = paging_unmap_page temp_pd_va (
    paging_unmap_page temp_pt_va (
      write_user_entry virt phys flags (
        user_table virt (paging_map_page temp_pd_va target_pd_phys (page_present + page_write) s))))
