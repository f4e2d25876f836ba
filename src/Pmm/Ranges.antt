-- ===== src/Pmm/Ranges.antt =====
-- `pmm_init` and `pmm_reserve_range` of src/pmm.c: the loops over a range of pages.
use microkernel_os.Prelude.{
  ℕ, ◌+◌, ◌-◌, ◌/◌, ◌%◌, ◌^◌, ◌≤◌, ◌<◌, ◌≡◌, ◌∙◌, refl, sym, Bool, true, not, ◌&&◌, ◌||◌, inl, inr,
  arith, ltb, leb, if◌then◌else◌, Bool-cases, for_range, count_from_all, for_range_inv,
}
use microkernel_os.Prelude.Bits.{test_bit-all_ones}
use microkernel_os.Pmm.{
  Pmm, page_size, max_pages, bm_test, release_page, kernel_pages, reserve_all, pmm_init,
  reserve_page, pmm_reserve_range, last_page,
}
use microkernel_os.Pmm.Bitmap.{bm_test-take, bm_test-drop, total-take, total-drop, fill-ones}
use microkernel_os.Pmm.Invariant.{IsValid, take-IsValid, drop-IsValid}

abbrev pub within : ℕ → ℕ → ℕ → Bool
within first last j = leb first j && ltb j last

-- The pages from `first` up to `last` are in use, and the others are as they were.
pub record Reserved (m : Pmm) (first last : ℕ) (t : Pmm) : Type 0 where
  pub valid : IsValid t
  pub total_kept : t.total_pages ≡ m.total_pages
  pub bits : (j : ℕ) → bm_test t j ≡ (within first last j || bm_test m j)

reserve_page-Reserved :
    {m t : Pmm} (first k : ℕ)
    → first ≤ k
    → k < m.total_pages
    → Reserved m first k t
    → Reserved m first (k + 1) (reserve_page k t)
unfolding reserve_page
reserve_page-Reserved {m} {t} first k lo hi r = elim (Bool-cases (bm_test t k)) [
  | inl h ↦
      rw (h, reserve_page)
        (record {
          valid = r.valid;
          total_kept = r.total_kept;
          bits = λ j. ground (arith, r.bits j, h);
        })
  | inr h ↦
      rw (h, reserve_page)
        (record {
          valid = take-IsValid k (omega (arith, r.total_kept)) h r.valid;
          total_kept = total-take t k ∙ r.total_kept;
          bits = λ j. ground (arith, r.bits j, bm_test-take t k j);
        })
]

-- `pmm_reserve_range` puts every page that the range touches in use, up to the end of memory, leaves
-- all others alone and keeps the counters right.
pub pmm_reserve_range_lem :
    {m : Pmm} (start_addr size : ℕ)
    → IsValid m
    → Reserved m
        (start_addr / page_size)
        (last_page m start_addr size)
        (pmm_reserve_range m start_addr size)
unfolding pmm_reserve_range
pmm_reserve_range_lem {m} start_addr size v = record {
  valid = loop.valid;
  total_kept = loop.total_kept;
  bits = λ j. ground (arith, loop.bits j);
}
  where
    first : ℕ
    first = start_addr / page_size

    last : ℕ
    last = last_page m start_addr size

    in_memory : last ≤ m.total_pages
    in_memory = ground arith

    loop : Reserved m first (first + (last - first)) (for_range (last - first) first reserve_page m)
    loop =
        for_range_inv (λ k t. Reserved m first k t) reserve_page (last - first) first m
          (λ k t lo hi r. reserve_page-Reserved first k lo (omega (arith, in_memory)) r)
          (record { valid = v; total_kept = refl; bits = λ j. ground arith })

-- A range that ends within the last 4 KB of the 32-bit address space is not reserved at all: the
-- end of it wraps to page 0, and the loop makes no round.
pub pmm_reserve_range-wrap :
    (m : Pmm) (start_addr size : ℕ)
    → 2 ^ 32 - page_size < start_addr + size
    → start_addr + size ≤ 2 ^ 32
    → pmm_reserve_range m start_addr size ≡ m
unfolding pmm_reserve_range for_range
pmm_reserve_range-wrap m start_addr size lo hi =
    let no_rounds : last_page m start_addr size - start_addr / page_size ≡ 0 = ground arith in
    rw no_rounds

-- Every page of memory is in use behind the first loop of `pmm_init`.
reserve_all-full :
    (m : Pmm) (mem_size_kb j : ℕ) → j < max_pages → bm_test (reserve_all m mem_size_kb) j ≡ true
unfolding reserve_all bm_test
reserve_all-full m mem_size_kb j h =
    rw (fill-ones m.bitmap (j / 32) (omega arith)) (test_bit-all_ones (j % 32) (omega arith))

reserve_all-in_bitmap :
    (m : Pmm) (mem_size_kb : ℕ) → (reserve_all m mem_size_kb).total_pages ≤ max_pages
unfolding reserve_all
reserve_all-in_bitmap m mem_size_kb = ground arith

used-reserve_all :
    (m : Pmm) (mem_size_kb : ℕ)
    → (reserve_all m mem_size_kb).used_pages ≡ (reserve_all m mem_size_kb).total_pages
unfolding reserve_all
used-reserve_all m mem_size_kb = refl

total-reserve_all :
    (m : Pmm) (mem_size_kb : ℕ)
    → (reserve_all m mem_size_kb).total_pages
      ≡ (if ltb max_pages (mem_size_kb / 4) then max_pages else mem_size_kb / 4)
unfolding reserve_all
total-reserve_all m mem_size_kb = refl

reserve_all-IsValid : (m : Pmm) (mem_size_kb : ℕ) → IsValid (reserve_all m mem_size_kb)
reserve_all-IsValid m mem_size_kb = record {
  in_bitmap = reserve_all-in_bitmap m mem_size_kb;
  counted =
      used-reserve_all m mem_size_kb
      ∙ sym (
          count_from_all total 0 (bm_test (reserve_all m mem_size_kb)) (λ j lo hi.
            reserve_all-full m mem_size_kb j (omega (arith, reserve_all-in_bitmap m mem_size_kb))));
}
  where
    total : ℕ
    total = (reserve_all m mem_size_kb).total_pages

-- The pages from `first` up to `last` are free, and the others in use.
record Released (s : Pmm) (first last : ℕ) (t : Pmm) : Type 0 where
  valid : IsValid t
  total_kept : t.total_pages ≡ s.total_pages
  bits : (j : ℕ) → j < s.total_pages → bm_test t j ≡ not (within first last j)

release_page-Released :
    {s t : Pmm} (first k : ℕ)
    → first ≤ k
    → k < s.total_pages
    → Released s first k t
    → Released s first (k + 1) (release_page k t)
unfolding release_page
release_page-Released {s} {t} first k lo hi r = record {
  valid = drop-IsValid k (omega (arith, r.total_kept)) (ground (arith, r.bits k hi)) r.valid;
  total_kept = total-drop t k ∙ r.total_kept;
  bits = λ j lt. ground (arith, r.bits j lt, bm_test-drop t k j);
}

-- `pmm_init` manages one page for each 4 KB of memory, as far as the bitmap goes, and leaves exactly
-- the pages behind the kernel free, with the counters right.
pub pmm_init_lem :
    (kernel_end : ℕ) (m : Pmm) (mem_size_kb : ℕ)
    → let t = pmm_init kernel_end m mem_size_kb in
      IsValid t
      × (t.total_pages ≡ (if ltb max_pages (mem_size_kb / 4) then max_pages else mem_size_kb / 4))
      × ((j : ℕ) → j < t.total_pages → bm_test t j ≡ ltb j (kernel_pages kernel_end))
unfolding pmm_init
pmm_init_lem kernel_end m mem_size_kb =
    (loop.valid, loop.total_kept ∙ total, λ j lt. ground (arith, loop.bits j, loop.total_kept))
  where
    s : Pmm
    s = reserve_all m mem_size_kb

    start : ℕ
    start = kernel_pages kernel_end

    total : s.total_pages ≡ (if ltb max_pages (mem_size_kb / 4) then max_pages else mem_size_kb / 4)
    total = total-reserve_all m mem_size_kb

    all_used : (j : ℕ) → j < s.total_pages → bm_test s j ≡ true
    all_used j lt =
        reserve_all-full m mem_size_kb j (omega (arith, reserve_all-in_bitmap m mem_size_kb))

    loop :
        Released s start
          (start + (s.total_pages - start))
          (for_range (s.total_pages - start) start release_page s)
    loop =
        for_range_inv (λ k t. Released s start k t) release_page (s.total_pages - start) start s
          (λ k t lo hi r. release_page-Released start k lo (omega arith) r)
          (record {
            valid = reserve_all-IsValid m mem_size_kb;
            total_kept = refl;
            bits = λ j lt. ground (arith, all_used j lt);
          })
