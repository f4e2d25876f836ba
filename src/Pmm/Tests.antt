-- ===== src/Pmm/Tests.antt =====
-- The theorems on src/pmm.c at a memory of four pages.
use microkernel_os.Prelude.{
  ℕ, ◌<◌, ◌≡◌, ◌⊎◌, refl, true, inl, inr, arith, ◌==◌, if◌then◌else◌, first_from, count_from,
}
use microkernel_os.Pmm.{Pmm, bm_test, pmm_alloc_page}
use mathlib.Core.Path.{subst}
use microkernel_os.Prelude.Bits.{test_bit}
use microkernel_os.Pmm.Invariant.{IsValid}
use microkernel_os.Pmm.Alloc.{Allocated, pmm_alloc_page_lem}

-- Pages 0 and 2 are in use.
abbrev small : Pmm
small = record { bitmap = λ i. if i == 0 then 5 else 0; total_pages = 4; used_pages = 2 }

small-IsValid : IsValid small
unfolding bm_test test_bit count_from
small-IsValid = record { in_bitmap = omega arith; counted = refl }

alloc_small : (pmm_alloc_page small).0 ≡ 4096
unfolding pmm_alloc_page bm_test test_bit first_from
alloc_small = refl

small-Allocated : Allocated small (pmm_alloc_page small) 1
unfolding pmm_alloc_page bm_test test_bit first_from
small-Allocated = elim (pmm_alloc_page_lem small-IsValid) [
  | inl (e, full) ↦ absurd (ground (arith, full 1))
  | inr (i, a) ↦
      let one : i ≡ 1 = omega (arith, a.address) in
      subst (λ j. Allocated small (pmm_alloc_page small) j) one a
]

pmm_alloc_page_lem_example :
    ((pmm_alloc_page small ≡ (0, small))
      × ((j : ℕ) → j < small.total_pages → bm_test small j ≡ true))
    ⊎ ((i : ℕ) × Allocated small (pmm_alloc_page small) i)
pmm_alloc_page_lem_example = pmm_alloc_page_lem small-IsValid

page_zero_used : bm_test small 0 ≡ true
unfolding bm_test test_bit
page_zero_used = refl
