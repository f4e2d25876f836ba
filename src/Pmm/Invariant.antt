-- ===== src/Pmm/Invariant.antt =====
-- What the counters of src/pmm.c say of the bitmap, and that taking and giving back one page keeps it.
use microkernel_os.Prelude.{
  ℕ, ◌+◌, ◌<◌, ◌≤◌, ◌≡◌, true, false, arith, count_from, count_from-flip, count_from-le,
}
use microkernel_os.Pmm.{Pmm, max_pages, bm_set, bm_clear, bm_test, used_inc, used_dec}
use microkernel_os.Pmm.Bitmap.{bm_test-bm_set, bm_test-bm_clear}

-- `used_pages` is the number of set bits below `total_pages`, which the bitmap has room for.
pub record IsValid (m : Pmm) : Type 0 where
  pub in_bitmap : m.total_pages ≤ max_pages
  pub counted : m.used_pages ≡ count_from m.total_pages 0 (bm_test m)

pub used-le-total : {m : Pmm} → IsValid m → m.used_pages ≤ m.total_pages
used-le-total {m} v = omega (arith, v.counted, count_from-le m.total_pages 0 (bm_test m))

module _ (m : Pmm) (i : ℕ) where
  take_count :
      i < m.total_pages
      → bm_test m i ≡ false
      → count_from m.total_pages 0 (bm_test (bm_set m i))
        ≡ count_from m.total_pages 0 (bm_test m) + 1
  take_count lt free =
      count_from-flip m.total_pages 0 i (bm_test m) (bm_test (bm_set m i)) (omega arith)
        (omega arith) free (ground (arith, bm_test-bm_set m i i))
        (λ j ne. ground (arith, bm_test-bm_set m i j))

  drop_count :
      i < m.total_pages
      → bm_test m i ≡ true
      → count_from m.total_pages 0 (bm_test m)
        ≡ count_from m.total_pages 0 (bm_test (bm_clear m i)) + 1
  drop_count lt used =
      count_from-flip m.total_pages 0 i (bm_test (bm_clear m i)) (bm_test m) (omega arith)
        (omega arith) (ground (arith, bm_test-bm_clear m i i)) used
        (λ j ne. ground (arith, bm_test-bm_clear m i j))

-- Marking a free page, or freeing a used one, keeps the count right, with no wrap.
pub take-IsValid :
    {m : Pmm} (i : ℕ)
    → i < m.total_pages
    → bm_test m i ≡ false
    → IsValid m
    → IsValid (used_inc (bm_set m i))
unfolding bm_set bm_test
take-IsValid {m} i lt free v = record {
  in_bitmap = v.in_bitmap;
  counted = omega (arith, v.counted, v.in_bitmap, take_count m i lt free, used-le-total v);
}

pub drop-IsValid :
    {m : Pmm} (i : ℕ)
    → i < m.total_pages
    → bm_test m i ≡ true
    → IsValid m
    → IsValid (used_dec (bm_clear m i))
unfolding bm_clear bm_test
drop-IsValid {m} i lt used v = record {
  in_bitmap = v.in_bitmap;
  counted = omega (arith, v.counted, v.in_bitmap, drop_count m i lt used, used-le-total v);
}
