-- ===== src/Paging/Samples.antt =====
-- A small memory for tests: the kernel's directory and tables of src/paging.c, and eight pages.
use microkernel_os.Prelude.{
  ℕ, ◌+◌, ◌-◌, ◌*◌, ◌/◌, ◌%◌, ◌^◌, ◌≤◌, ◌≡◌, refl, true, false, ◌&&◌, inl, arith, ltb, ◌==◌,
  if◌then◌else◌, first_from, count_from,
}
use microkernel_os.Prelude.Bits.{test_bit, test_bit-all_ones}
use microkernel_os.Pmm.{Pmm, bm_test, pmm_alloc_page}
use microkernel_os.Pmm.Invariant.{IsValid}
use microkernel_os.Paging.{Paging}
use microkernel_os.Paging.Kernel.{IsKernel}
use microkernel_os.Paging.User.Fresh.{IsReserved}

-- Eight pages, the first four in use, as is everything behind.
abbrev pub pages : Pmm
pages = record { bitmap = λ i. if i == 0 then 15 else 2 ^ 32 - 1; total_pages = 8; used_pages = 4 }

pub pages-IsValid : IsValid pages
unfolding bm_test test_bit count_from
pages-IsValid = record { in_bitmap = omega arith; counted = refl }

-- The kernel's directory in page 64 and its tables, empty, from page 1024 on; the directory in page 1 has
-- one table, in page 2.
abbrev pub memory : Paging
memory = record {
  pmm = pages;
  words = λ f k. if f == 64 then (1024 + k) * 4096 + 7 else if f == 1 && k == 0 then 0x2007 else 0;
  page_directory = 64;
  page_tables = 1024;
}

pub memory-IsKernel : IsKernel memory
memory-IsKernel = record { apart = inl (omega arith); linked = λ t lt. refl }

page_used : (f : ℕ) → 32 ≤ f → bm_test pages f ≡ true
unfolding bm_test
page_used f le =
    let e : (f / 32 == 0) ≡ false = ground arith in rw e (test_bit-all_ones (f % 32) (omega arith))

pub memory-IsReserved : IsReserved memory
memory-IsReserved = record {
  directory_used = page_used 64 (omega arith);
  tables_used = λ t lt. page_used (1024 + t) (omega arith);
}

pub first_free : (pmm_alloc_page pages).0 ≡ 16384
unfolding pmm_alloc_page bm_test test_bit first_from
first_free = refl

-- 1,280 pages, the first in use, as is everything behind them.
abbrev pub many_pages : Pmm
many_pages = record {
  bitmap = λ i. if i == 0 then 1 else if ltb i 40 then 0 else 2 ^ 32 - 1;
  total_pages = 1280;
  used_pages = 1;
}

pub many_pages-IsValid : IsValid many_pages
unfolding bm_test test_bit count_from
many_pages-IsValid = record { in_bitmap = omega arith; counted = refl }

-- The kernel's directory in page 2000 and its tables, empty but for the first entry, from page 3000 on.
abbrev pub large_memory : Paging
large_memory = record {
  pmm = many_pages;
  words = λ f k. if f == 2000 then (3000 + k) * 4096 + 7 else if f == 3000 && k == 0 then 3 else 0;
  page_directory = 2000;
  page_tables = 3000;
}

pub large_memory-IsKernel : IsKernel large_memory
large_memory-IsKernel = record { apart = inl (omega arith); linked = λ t lt. refl }

many_page_used : (f : ℕ) → 1280 ≤ f → bm_test many_pages f ≡ true
unfolding bm_test test_bit
many_page_used f le =
    let e : (f / 32 == 0) ≡ false = ground arith in
    let e2 : ltb (f / 32) 40 ≡ false = ground arith in
    rw (e, e2) (test_bit-all_ones (f % 32) (omega arith))

pub large_memory-IsReserved : IsReserved large_memory
large_memory-IsReserved = record {
  directory_used = many_page_used 2000 (omega arith);
  tables_used = λ t lt. many_page_used (3000 + t) (omega arith);
}
