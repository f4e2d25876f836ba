-- ===== src/Paging/Kernel.antt =====
-- The kernel's own tables of src/paging.c: what `paging_init` sets up, and what mapping and unmapping a page
-- change of the translation.
use microkernel_os.Prelude.{
  ℕ, ◌+◌, ◌*◌, ◌/◌, ◌%◌, ◌^◌, ◌<◌, ◌≡◌, ◌∙◌, refl, sym, true, arith, ltb, ◌==◌, if◌then◌else◌,
}
use microkernel_os.Paging.{
  Paging, is_present, or_flag, page_present, pd_index, pt_index, poke, paging_init, paging_map_page,
  paging_get_physical, virt_to_phys,
}
use microkernel_os.Paging.Words.{IsLayout, init-directory, init-tables}

-- Each entry of the directory is present and leads to the table of its number.
pub record IsKernel (s : Paging) : Type 0 where
  pub apart : IsLayout s.page_directory s.page_tables
  pub linked : (t : ℕ) → t < 1024 → s.words s.page_directory t ≡ (s.page_tables + t) * 4096 + 7

-- The entry for a page in the kernel's tables, and what an entry makes of an address.
abbrev pub kernel_entry : Paging → ℕ → ℕ
kernel_entry s v = s.words (s.page_tables + pd_index v) (pt_index v)

abbrev pub to_phys : (entry v : ℕ) → ℕ
to_phys e v = if is_present e then e / 4096 * 4096 + v % 4096 else 0

-- While each table is in its place, the two functions that look an address up agree.
pub paging_get_physical-virt_to_phys :
    (s : Paging) (v : ℕ) → IsKernel s → v < 2 ^ 32 → paging_get_physical s v ≡ virt_to_phys s v
unfolding paging_get_physical virt_to_phys
paging_get_physical-virt_to_phys s v k lt =
    let e : s.words s.page_directory (pd_index v) ≡ (s.page_tables + pd_index v) * 4096 + 7 =
      k.linked (pd_index v) (omega arith) in
    let e1 : ((s.page_tables + pd_index v) * 4096 + 7) / 4096 ≡ s.page_tables + pd_index v =
      omega arith in
    let e2 : is_present ((s.page_tables + pd_index v) * 4096 + 7) ≡ true = ground arith in
    rw (e, e1, e2) (ground arith)

pub get_physical_lem : (s : Paging) (v : ℕ) → paging_get_physical s v ≡ to_phys (kernel_entry s v) v
unfolding paging_get_physical
get_physical_lem s v = refl

pub paging_init-IsKernel :
    (mem_kb : ℕ) (s : Paging)
    → IsLayout s.page_directory s.page_tables
    → IsKernel (paging_init mem_kb s)
unfolding paging_init
paging_init-IsKernel mem_kb s apart = record {
  apart = apart;
  linked = λ t lt. init-directory s.page_directory s.page_tables _ t s.words apart lt;
}

-- Behind `paging_init` each address in memory is mapped to itself, and no other address is mapped. The
-- size of the memory in bytes is taken modulo 2^32.
pub virt_to_phys-paging_init :
    (mem_kb : ℕ) (s : Paging) (v : ℕ)
    → IsLayout s.page_directory s.page_tables
    → v < 2 ^ 32
    → IsKernel (paging_init mem_kb s)
      × (virt_to_phys (paging_init mem_kb s) v
          ≡ (if ltb (v / 4096) (mem_kb * 1024 % 2 ^ 32 / 4096) then v else 0))
unfolding paging_init
virt_to_phys-paging_init mem_kb s v apart lt =
    let k : IsKernel (paging_init mem_kb s) = paging_init-IsKernel mem_kb s apart in
    (
      k,
      sym (paging_get_physical-virt_to_phys (paging_init mem_kb s) v k lt)
          ∙ get_physical_lem (paging_init mem_kb s) v
          ∙ rw
              (init-tables s.page_directory s.page_tables (mem_kb * 1024 % 2 ^ 32 / 4096)
                (pd_index v) (pt_index v) s.words apart (omega arith) (omega arith))
              (ground arith),
    )

-- A change of one entry of the kernel's tables.
pub poke-IsKernel :
    (s : Paging) (t i e : ℕ)
    → t < 1024
    → IsKernel s
    → IsKernel (record s { words = poke (s.page_tables + t) i e s.words })
poke-IsKernel s t i e lt k = record {
  apart = k.apart;
  linked = λ u small. ground (arith, k.linked u small, k.apart);
}

pub map_page_eq :
    (virt phys flags : ℕ) (s : Paging)
    → IsKernel s
    → virt < 2 ^ 32
    → paging_map_page virt phys flags s ≡ record s {
      words =
          poke
            (s.page_tables + pd_index virt)
            (pt_index virt)
            (phys / 4096 * 4096 + or_flag page_present (flags % 4096))
            s.words;
    }
unfolding paging_map_page
map_page_eq virt phys flags s k lt =
    let e : s.words s.page_directory (pd_index virt) ≡ (s.page_tables + pd_index virt) * 4096 + 7 =
      k.linked (pd_index virt) (omega arith) in
    let e1 : ((s.page_tables + pd_index virt) * 4096 + 7) / 4096 ≡ s.page_tables + pd_index virt =
      omega arith in
    let e2 : is_present ((s.page_tables + pd_index virt) * 4096 + 7) ≡ true = ground arith in
    rw (e, e1, e2)

-- The translation when one entry changes.
pub poke-virt_to_phys :
    (s : Paging) (virt e v : ℕ)
    → IsKernel s
    → virt < 2 ^ 32
    → v < 2 ^ 32
    → virt_to_phys
        (record s { words = poke (s.page_tables + pd_index virt) (pt_index virt) e s.words })
        v
      ≡ (if v / 4096 == virt / 4096 then to_phys e v else virt_to_phys s v)
poke-virt_to_phys s virt e v k lt small =
    let s' : Paging = record s {
      words = poke (s.page_tables + pd_index virt) (pt_index virt) e s.words;
    } in
    let k' = poke-IsKernel s (pd_index virt) (pt_index virt) e (omega arith) k in
    sym (paging_get_physical-virt_to_phys s' v k' small)
    ∙ get_physical_lem s' v
    ∙ ground (arith, get_physical_lem s v, paging_get_physical-virt_to_phys s v k small)
