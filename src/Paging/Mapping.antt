-- ===== src/Paging/Mapping.antt =====
-- Mapping and unmapping in the kernel's tables of src/paging.c, by the translation of every address.
use microkernel_os.Prelude.{
  ℕ, ◌+◌, ◌-◌, ◌*◌, ◌/◌, ◌%◌, ◌^◌, ◌<◌, ◌≡◌, ◌∙◌, ◌&&◌, arith, ltb, leb, ◌==◌, if◌then◌else◌,
  for_range, for_range_inv,
}
use microkernel_os.Paging.{
  Paging, or_flag, page_present, pd_index, pt_index, paging_map_page, paging_unmap_page,
  paging_map_range, virt_to_phys,
}
use microkernel_os.Paging.Kernel.{IsKernel, to_phys, map_page_eq, poke-IsKernel, poke-virt_to_phys}

pub map_page-IsKernel :
    (virt phys flags : ℕ) (s : Paging)
    → IsKernel s
    → virt < 2 ^ 32
    → IsKernel (paging_map_page virt phys flags s)
map_page-IsKernel virt phys flags s k lt =
    rw (map_page_eq virt phys flags s k lt)
      (poke-IsKernel s (pd_index virt) (pt_index virt) _ (omega arith) k)

-- `paging_map_page` sends the addresses of one page to the physical page, whatever the flags, and leaves
-- every other address as it was.
pub virt_to_phys-paging_map_page :
    (virt phys flags v : ℕ) (s : Paging)
    → IsKernel s
    → virt < 2 ^ 32
    → v < 2 ^ 32
    → IsKernel (paging_map_page virt phys flags s)
      × (virt_to_phys (paging_map_page virt phys flags s) v
          ≡ (if v / 4096 == virt / 4096 then phys / 4096 * 4096 + v % 4096 else virt_to_phys s v))
virt_to_phys-paging_map_page virt phys flags v s k lt small =
    let e : ℕ = phys / 4096 * 4096 + or_flag page_present (flags % 4096) in
    let there : to_phys e v ≡ phys / 4096 * 4096 + v % 4096 = ground arith in
    (
      map_page-IsKernel virt phys flags s k lt,
      rw (map_page_eq virt phys flags s k lt) (poke-virt_to_phys s virt e v k lt small ∙ rw there),
    )

-- `paging_unmap_page` takes the addresses of one page out, and leaves every other address as it was.
pub virt_to_phys-paging_unmap_page :
    (virt v : ℕ) (s : Paging)
    → IsKernel s
    → virt < 2 ^ 32
    → v < 2 ^ 32
    → IsKernel (paging_unmap_page virt s)
      × (virt_to_phys (paging_unmap_page virt s) v
          ≡ (if v / 4096 == virt / 4096 then 0 else virt_to_phys s v))
unfolding paging_unmap_page
virt_to_phys-paging_unmap_page virt v s k lt small = (
  poke-IsKernel s (pd_index virt) (pt_index virt) 0 (omega arith) k,
  poke-virt_to_phys s virt 0 v k lt small ∙ ground arith,
)

-- The state of the loop of `paging_map_range` behind `n` pages.
record Mapped (virt phys v : ℕ) (s : Paging) (n : ℕ) (t : Paging) : Type 0 where
  pub kernel : IsKernel t
  pub there :
      virt_to_phys t v
      ≡ (if leb virt v && ltb v (virt + n * 4096) then phys + (v - virt) else virt_to_phys s v)

map_range-step :
    (virt phys flags v n : ℕ) (s t : Paging)
    → virt % 4096 ≡ 0
    → phys % 4096 ≡ 0
    → virt + n * 4096 < 2 ^ 32
    → phys + n * 4096 < 2 ^ 32
    → v < 2 ^ 32
    → Mapped virt phys v s n t
    → Mapped virt phys v s
        (n + 1)
        (paging_map_page ((virt + n * 0x1000) % 2 ^ 32) ((phys + n * 0x1000) % 2 ^ 32) flags t)
map_range-step virt phys flags v n s t a1 a2 fit1 fit2 small h =
    let page : ℕ = (virt + n * 0x1000) % 2 ^ 32 in
    let frame : ℕ = (phys + n * 0x1000) % 2 ^ 32 in
    let one = virt_to_phys-paging_map_page page frame flags v t h.kernel (omega arith) small in
    let e1 : page ≡ virt + n * 4096 = omega arith in
    let e2 : frame ≡ phys + n * 4096 = omega arith in
    record { kernel = one.0; there = one.1 ∙ ground (arith, h.there, e1, e2) }

-- While each of the kernel's tables is in its place, `paging_map_range` maps the pages of the range one by one:
-- the offset into the range is kept, and addresses outside of its pages are as they were. Both ranges start at
-- a page and end before 2^32.
pub virt_to_phys-paging_map_range :
    (virt phys size flags v : ℕ) (s : Paging)
    → IsKernel s
    → virt % 4096 ≡ 0
    → phys % 4096 ≡ 0
    → virt + size + 0xFFF < 2 ^ 32
    → phys + size + 0xFFF < 2 ^ 32
    → v < 2 ^ 32
    → virt_to_phys (paging_map_range virt phys size flags s) v ≡ (
        if leb virt v && ltb v (virt + (size + 0xFFF) / 4096 * 4096)
        then phys + (v - virt)
        else virt_to_phys s v)
unfolding paging_map_range
virt_to_phys-paging_map_range virt phys size flags v s k a1 a2 fit1 fit2 small =
    let e : (size + 0xFFF) % 2 ^ 32 / 0x1000 ≡ (size + 0xFFF) / 4096 = omega arith in
    let m : Mapped virt phys v s (0 + (size + 0xFFF) / 4096) (
        for_range ((size + 0xFFF) / 4096) 0
          (λ i (t : Paging).
            paging_map_page ((virt + i * 0x1000) % 2 ^ 32) ((phys + i * 0x1000) % 2 ^ 32) flags t)
          s) =
      for_range_inv (λ n t. Mapped virt phys v s n t) _ ((size + 0xFFF) / 4096) 0 s
        (λ n t lo hi h.
          map_range-step virt phys flags v n s t a1 a2 (omega arith) (omega arith) small h)
        (record { kernel = k; there = ground arith }) in
    rw e (m.there ∙ ground arith)
