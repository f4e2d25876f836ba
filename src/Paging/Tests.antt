-- ===== src/Paging/Tests.antt =====
-- The page tables of src/paging.c at concrete inputs.
use microkernel_os.Prelude.{◌/◌, ◌<◌, ◌≡◌, ◌≢◌, ◌↔◌, refl, true, none, some, arith}
use microkernel_os.Prelude.Bits.{test_bit}
use microkernel_os.Pmm.{bm_test, pmm_get_free_pages}
use microkernel_os.Paging.{paging_map_range, virt_to_phys}
use microkernel_os.Paging.Samples.{
  pages, pages-IsValid, many_pages-IsValid, large_memory, large_memory-IsKernel,
  large_memory-IsReserved, memory, memory-IsKernel, memory-IsReserved, first_free,
}
use microkernel_os.Paging.Words.{walk}
use microkernel_os.Paging.Mapping.{virt_to_phys-paging_map_range}
use microkernel_os.Paging.User.{paging_map_user}
use microkernel_os.Paging.User.Fresh.{walk-paging_map_user_new}
use microkernel_os.Paging.Spaces.{
  paging_create_isolated_space, paging_create_address_space, paging_destroy_address_space,
}
use microkernel_os.Paging.Spaces.Isolated.{
  walk-paging_create_isolated_space, paging_destroy_address_space-paging_create_isolated_space,
}
use microkernel_os.Paging.Spaces.Created.{
  page_of, paging_create_address_space-eq-null, walk-paging_create_address_space,
  paging_destroy_address_space-paging_create_address_space,
}

target_used : bm_test pages 1 ≡ true
unfolding bm_test test_bit
target_used = refl

virt_to_phys-paging_map_range_example :
    virt_to_phys (paging_map_range 0x5000 0x9000 0x1800 3 memory) 0x6123 ≡ 0xA123
virt_to_phys-paging_map_range_example =
    virt_to_phys-paging_map_range 0x5000 0x9000 0x1800 3 0x6123 memory memory-IsKernel refl refl
      (omega arith) (omega arith) (omega arith)

walk-paging_map_user_new_example :
    walk (paging_map_user 4096 0x405000 0x7000 2 memory).words 1 0x405123 ≡ some 0x7007
walk-paging_map_user_new_example =
    walk-paging_map_user_new 1 0x405000 0x7000 2 0x405123 memory memory-IsKernel memory-IsReserved
      pages-IsValid target_used (ground arith) refl (ground (arith, first_free)) refl

space_made : (paging_create_isolated_space memory).0 ≢ 0
unfolding paging_create_isolated_space
space_made = ground (arith, first_free)

walk-paging_create_isolated_space_example :
    walk
      (paging_create_isolated_space memory).1.words
      ((paging_create_isolated_space memory).0 / 4096)
      0x40000000
    ≡ none
walk-paging_create_isolated_space_example =
    walk-paging_create_isolated_space memory 0x40000000 memory-IsKernel memory-IsReserved
      pages-IsValid (omega arith) space_made

paging_destroy_address_space-paging_create_isolated_space_example :
    bm_test
      (paging_destroy_address_space
        (paging_create_isolated_space memory).0
        (paging_create_isolated_space memory).1).pmm
      4
    ≡ bm_test pages 4
paging_destroy_address_space-paging_create_isolated_space_example =
    paging_destroy_address_space-paging_create_isolated_space memory 4 memory-IsReserved
      pages-IsValid space_made

first_used : bm_test memory.pmm 0 ≡ true
unfolding bm_test test_bit
first_used = refl

first_used_large : bm_test large_memory.pmm 0 ≡ true
unfolding bm_test test_bit
first_used_large = refl

paging_create_address_space-eq-null_example :
    ((paging_create_address_space memory).0 ≡ 0) ↔ (pmm_get_free_pages memory.pmm < 1025)
paging_create_address_space-eq-null_example =
    paging_create_address_space-eq-null memory memory-IsKernel memory-IsReserved pages-IsValid
      first_used

enough_room : (paging_create_address_space large_memory).0 ≢ 0
unfolding pmm_get_free_pages
enough_room z = absurd (
    omega (
      arith,
      (paging_create_address_space-eq-null large_memory large_memory-IsKernel
            large_memory-IsReserved many_pages-IsValid first_used_large).0
          z,
    ))

first_mapped : walk large_memory.words 2000 0x10 ≡ some 3
first_mapped = refl

walk-paging_create_address_space_example :
    page_of
      (paging_create_address_space large_memory).1.words
      ((paging_create_address_space large_memory).0 / 4096)
      0x10
    ≡ some 0
walk-paging_create_address_space_example =
    walk-paging_create_address_space large_memory 0x10 large_memory-IsKernel large_memory-IsReserved
      many_pages-IsValid first_used_large (omega arith) enough_room

paging_destroy_address_space-paging_create_address_space_example :
    bm_test
      (paging_destroy_address_space
        (paging_create_address_space large_memory).0
        (paging_create_address_space large_memory).1).pmm
      9
    ≡ bm_test large_memory.pmm 9
paging_destroy_address_space-paging_create_address_space_example =
    paging_destroy_address_space-paging_create_address_space large_memory 9 large_memory-IsKernel
      large_memory-IsReserved many_pages-IsValid first_used_large
