-- ===== src/Paging/User/Laws.antt =====
-- What `paging_map_user` of src/paging.c writes.
use microkernel_os.Prelude.{
  ℕ, ◌+◌, ◌*◌, ◌/◌, ◌%◌, ◌^◌, ◌≤◌, ◌<◌, ◌≡◌, ◌≢◌, ◌⊎◌, ◌∙◌, sym, ap, true, ◌&&◌, some, inl, inr,
  arith, ltb, leb, Bool-cases,
}
use microkernel_os.Paging.{
  Paging, page_present, page_write, page_user, page_write_through, temp_pd_va, temp_pt_va, or_flag,
  is_present, pd_index, pt_index, poke, paging_map_page, paging_unmap_page,
}
use microkernel_os.Paging.Words.{walk}
use microkernel_os.Paging.Kernel.{
  IsKernel, to_phys, kernel_entry, map_page_eq, poke-IsKernel, get_physical_lem,
  paging_get_physical-virt_to_phys,
}
use microkernel_os.Paging.User.{window, user_table, final_flags, write_user_entry, paging_map_user}

-- A page frame that is none of the kernel's tables.
abbrev pub IsOutside : Paging → ℕ → Type 0
IsOutside s f = (f ≢ s.page_directory) × ((f < s.page_tables) ⊎ (s.page_tables + 1024 ≤ f))

-- A window shows the frame in its entry.
window_lem :
    (va : ℕ) (s : Paging)
    → IsKernel s
    → va < 2 ^ 32
    → window va s ≡ to_phys (kernel_entry s va) va / 4096
window_lem va s k lt =
    ap (λ n. n / 4096) (sym (paging_get_physical-virt_to_phys s va k lt) ∙ get_physical_lem s va)

-- Writing outside of the kernel's tables keeps them.
pub outside-IsKernel :
    (s : Paging) (f i e : ℕ)
    → IsOutside s f
    → IsKernel s
    → IsKernel (record s { words = poke f i e s.words })
outside-IsKernel s f i e out k = record {
  apart = k.apart;
  linked = λ u small. ground (arith, k.linked u small, out);
}

pub map_pd_eq :
    (s : Paging) (frame : ℕ)
    → IsKernel s
    → paging_map_page temp_pd_va (frame * 4096) (page_present + page_write) s
      ≡ record s { words = poke (s.page_tables + 255) 512 (frame * 4096 + 3) s.words }
map_pd_eq s frame k =
    let e : frame * 4096 / 4096 * 4096 + 3 ≡ frame * 4096 + 3 = omega arith in
    rw (map_page_eq temp_pd_va (frame * 4096) 3 s k (omega arith), e)

pub map_pt_eq :
    (s : Paging) (frame : ℕ)
    → IsKernel s
    → paging_map_page temp_pt_va (frame * 4096) (page_present + page_write) s
      ≡ record s { words = poke (s.page_tables + 255) 513 (frame * 4096 + 3) s.words }
map_pt_eq s frame k =
    let e : frame * 4096 / 4096 * 4096 + 3 ≡ frame * 4096 + 3 = omega arith in
    rw (map_page_eq temp_pt_va (frame * 4096) 3 s k (omega arith), e)

pub window-pd :
    (s : Paging) (frame : ℕ)
    → IsKernel s
    → s.words (s.page_tables + 255) 512 ≡ frame * 4096 + 3
    → window temp_pd_va s ≡ frame
window-pd s frame k e = window_lem temp_pd_va s k (omega arith) ∙ rw e (ground arith)

pub window-pt :
    (s : Paging) (frame : ℕ)
    → IsKernel s
    → s.words (s.page_tables + 255) 513 ≡ frame * 4096 + 3
    → window temp_pt_va s ≡ frame
window-pt s frame k e = window_lem temp_pt_va s k (omega arith) ∙ rw e (ground arith)

-- The page table is there: the directory's entry allows user access.
user_table_found :
    (virt : ℕ) (s : Paging) (frame pde : ℕ)
    → IsKernel s
    → s.words (s.page_tables + 255) 512 ≡ frame * 4096 + 3
    → s.words frame (pd_index virt) ≡ pde
    → is_present pde ≡ true
    → user_table virt s
      ≡ record s { words = poke frame (pd_index virt) (or_flag page_user pde) s.words }
unfolding user_table
user_table_found virt s frame pde k e there p = rw (window-pd s frame k e, there, p)

-- The entry is written to the page table.
pub write_user_entry_lem :
    (virt phys flags : ℕ) (s : Paging) (frame table : ℕ)
    → IsKernel s
    → s.words (s.page_tables + 255) 512 ≡ frame * 4096 + 3
    → s.words frame (pd_index virt) / 4096 ≡ table
    → write_user_entry virt phys flags s ≡ record s {
      words =
          poke table
            (pt_index virt)
            (phys / 4096 * 4096 + final_flags virt flags % 4096)
            (poke (s.page_tables + 255) 513 (table * 4096 + 3) s.words);
    }
unfolding write_user_entry
write_user_entry_lem virt phys flags s frame table k e there =
    let t : Paging = record s {
      words = poke (s.page_tables + 255) 513 (table * 4096 + 3) s.words;
    } in
    let k' : IsKernel t = poke-IsKernel s 255 513 (table * 4096 + 3) (omega arith) k in
    rw (window-pd s frame k e, there, map_pt_eq s table k, window-pt t table k' (ground arith))

-- What `paging_map_user` leaves where the page table is there.
pub map_user_found :
    (target virt phys flags pde : ℕ) (s : Paging)
    → IsKernel s
    → virt < 2 ^ 32
    → IsOutside s target
    → s.words target (pd_index virt) ≡ pde
    → is_present pde ≡ true
    → IsOutside s (pde / 4096)
    → paging_map_user (target * 4096) virt phys flags s ≡ record s {
      words = poke (s.page_tables + 255) 512 0 (
          poke (s.page_tables + 255) 513 0 (
            poke (pde / 4096) (pt_index virt) (phys / 4096 * 4096 + final_flags virt flags % 4096) (
              poke (s.page_tables + 255) 513 (pde / 4096 * 4096 + 3) (
                poke target
                  (pd_index virt)
                  (or_flag page_user pde)
                  (poke (s.page_tables + 255) 512 (target * 4096 + 3) s.words)))));
    }
unfolding paging_map_user paging_unmap_page
map_user_found target virt phys flags pde s k lt out there p out_table =
    let s1 : Paging = record s {
      words = poke (s.page_tables + 255) 512 (target * 4096 + 3) s.words;
    } in
    let k1 : IsKernel s1 = poke-IsKernel s 255 512 (target * 4096 + 3) (omega arith) k in
    let s2 : Paging = record s1 {
      words = poke target (pd_index virt) (or_flag page_user pde) s1.words;
    } in
    let k2 : IsKernel s2 =
      outside-IsKernel s1 target (pd_index virt) (or_flag page_user pde) out k1 in
    rw (
      map_pd_eq s target k,
      user_table_found virt s1 target pde k1 (ground arith) (ground (arith, out, there)) p,
      write_user_entry_lem virt phys flags s2 target (pde / 4096) k2 (ground (arith, out))
          (ground (arith, p)),
    )

or_user : (e : ℕ) → (or_flag page_user e / 4096 ≡ e / 4096) × (or_flag page_user e % 2 ≡ e % 2)
or_user e = (ground arith, ground arith)

final_flags-odd : (virt flags : ℕ) → final_flags virt flags % 2 ≡ 1
final_flags-odd virt flags =
    let f : ℕ = or_flag page_user (or_flag page_present flags) in
    let odd : f % 2 ≡ 1 = (or_user (or_flag page_present flags)).1 ∙ ground arith in
    elim (Bool-cases (leb 0x30000000 virt && ltb virt 0x40000000)) [
      | inl e ↦ rw e (write_through_odd f odd)
      | inr e ↦ rw e odd
    ]
  where
    write_through_odd : (f : ℕ) → f % 2 ≡ 1 → or_flag page_write_through f % 2 ≡ 1
    write_through_odd f odd = ground arith

pub present_entry :
    (virt phys flags : ℕ) → is_present (phys / 4096 * 4096 + final_flags virt flags % 4096) ≡ true
present_entry virt phys flags =
    present_sum (phys / 4096) (final_flags virt flags) (final_flags-odd virt flags)
  where
    present_sum : (n f : ℕ) → f % 2 ≡ 1 → is_present (n * 4096 + f % 4096) ≡ true
    present_sum n f odd = ground arith

-- The words behind `paging_map_user`.
abbrev pub written : (a target table i k x y e d : ℕ) → (ℕ → ℕ → ℕ) → ℕ → ℕ → ℕ
written a target table i k x y e d w =
    poke a 512 0 (poke a 513 0 (poke table k e (poke a 513 x (poke target i d (poke a 512 y w)))))

-- The words that are written last, where the window's entries are in between.
pub read_table :
    (a target table i k x y e d : ℕ) (w : ℕ → ℕ → ℕ)
    → table ≢ a
    → written a target table i k x y e d w table k ≡ e
read_table a target table i k x y e d w ne = ground arith

-- The entry that the processor finds, from what the directory and the table hold.
pub walk_lem :
    (w : ℕ → ℕ → ℕ) (pd v i k pde e : ℕ)
    → pd_index v ≡ i
    → pt_index v ≡ k
    → w pd i ≡ pde
    → is_present pde ≡ true
    → w (pde / 4096) k ≡ e
    → is_present e ≡ true
    → walk w pd v ≡ some e
walk_lem w pd v i k pde e e1 e2 e3 p1 e4 p2 = rw (e1, e2, e3, e4, p1, p2)

-- Bit 2 of an entry lets user code in, bit 1 lets it write.
abbrev pub user_bit : ℕ → ℕ
user_bit e = e / 4 % 2

abbrev pub write_bit : ℕ → ℕ
write_bit e = e / 2 % 2
