-- ===== src/Pmm/Alloc.antt =====
-- `pmm_alloc_page` and `pmm_free_page` of src/pmm.c: which pages they take and give back.
use microkernel_os.Prelude.{
  ℕ, ◌+◌, ◌*◌, ◌/◌, ◌%◌, ◌^◌, ◌<◌, ◌≡◌, ◌≢◌, ◌⊎◌, ◌↔◌, ◌∙◌, refl, sym, ap, true, false, not, ◌&&◌,
  inl, inr, arith, ltb, ◌==◌, if◌then◌else◌, Bool-cases, Option-cases, first_from, IsFirst,
  first_from-IsFirst, first_from-none, count_from_congr, count_from-lt_of_miss, count_from_all,
}
use microkernel_os.Pmm.{
  Pmm, page_size, bm_set, bm_test, used_inc, pmm_alloc_page, pmm_free_page, pmm_get_free_pages,
}
use microkernel_os.Pmm.Bitmap.{bm_test-take, bm_test-drop, total-take, total-drop, used-take}
use microkernel_os.Pmm.Invariant.{IsValid, take-IsValid, drop-IsValid, used-le-total}

-- What a call of `pmm_alloc_page` that takes page `i` has done.
pub record Allocated (m : Pmm) (out : ℕ × Pmm) (i : ℕ) : Type 0 where
  pub in_range : i < m.total_pages
  pub was_free : bm_test m i ≡ false
  pub lowest : (j : ℕ) → j < i → bm_test m j ≡ true
  pub address : out.0 ≡ i * page_size
  pub bits : (j : ℕ) → bm_test out.1 j ≡ (if i == j then true else bm_test m j)
  pub total_kept : out.1.total_pages ≡ m.total_pages
  pub used_more : out.1.used_pages ≡ m.used_pages + 1
  pub valid : IsValid out.1

alloc_at :
    {m : Pmm} (i : ℕ)
    → IsValid m
    → IsFirst m.total_pages 0 (λ k. not (bm_test m k)) i
    → Allocated m (i * page_size % 2 ^ 32, used_inc (bm_set m i)) i
alloc_at {m} i v f =
    let lt : i < m.total_pages = omega (arith, f.below) in
    let free : bm_test m i ≡ false = ground (arith, f.hit) in
    record {
      in_range = lt;
      was_free = free;
      lowest = λ j h. ground (arith, f.missed j);
      address = omega (arith, lt, v.in_bitmap);
      bits = bm_test-take m i;
      total_kept = total-take m i;
      used_more = omega (arith, used-take m i, used-le-total v, v.in_bitmap);
      valid = take-IsValid i lt free v;
    }

-- Where the counter agrees with the bitmap, `pmm_alloc_page` either finds every page in use, returns 0 and changes
-- nothing, or it takes the lowest free page, returns its address, counts it, and leaves every other page alone. The
-- address of page 0 is 0 as well.
pub pmm_alloc_page_lem :
    {m : Pmm}
    → IsValid m
    → ((pmm_alloc_page m ≡ (0, m)) × ((j : ℕ) → j < m.total_pages → bm_test m j ≡ true))
      ⊎ ((i : ℕ) × Allocated m (pmm_alloc_page m) i)
unfolding pmm_alloc_page
pmm_alloc_page_lem {m} v =
    elim (Option-cases (first_from m.total_pages 0 (λ k. not (bm_test m k)))) [
      | inl e ↦ inl (
        rw (e, pmm_alloc_page),
        λ j h. ground (arith, first_from-none m.total_pages 0 (λ k. not (bm_test m k)) e j),
      )
      | inr (i, e) ↦ inr (i, rw (e, pmm_alloc_page) (alloc_at i v (first_from-IsFirst _ _ _ _ e)))
    ]

-- With page 0 reserved, NULL is returned only when no page is free.
pub pmm_alloc_page-eq-null :
    {m : Pmm}
    → IsValid m
    → bm_test m 0 ≡ true
    → ((pmm_alloc_page m).0 ≡ 0) ↔ (pmm_get_free_pages m ≡ 0)
unfolding pmm_get_free_pages
pmm_alloc_page-eq-null {m} v z = elim (pmm_alloc_page_lem v) [
  | inl (e, full) ↦ (λ h. omega (arith, no_room full), λ h. ap (λ (r : ℕ × Pmm). r.0) e)
  | inr (i, a) ↦ (
    λ h. absurd (omega (arith, a.address, a_ne i a)),
    λ h. absurd (omega (arith, v.in_bitmap, room_left i a)),
  )
]
  where
    no_room : ((j : ℕ) → j < m.total_pages → bm_test m j ≡ true) → m.used_pages ≡ m.total_pages
    no_room full =
        v.counted ∙ count_from_all m.total_pages 0 (bm_test m) (λ j lo hi. full j (omega arith))

    a_ne : (i : ℕ) → Allocated m (pmm_alloc_page m) i → i ≢ 0
    a_ne i a = ground (arith, a.was_free)

    room_left : (i : ℕ) → Allocated m (pmm_alloc_page m) i → m.used_pages < m.total_pages
    room_left i a = omega (
      arith,
      v.counted,
      count_from-lt_of_miss m.total_pages 0 i (bm_test m) (omega arith) (omega (arith, a.in_range))
          a.was_free,
    )

-- `pmm_free_page` gives back the page of an address if it is in range and in use, and changes
-- nothing otherwise.
pub pmm_free_page_lem :
    {m : Pmm} (addr : ℕ)
    → IsValid m
    → let m' = pmm_free_page m addr in
      IsValid m'
      × (m'.total_pages ≡ m.total_pages)
      × ((j : ℕ)
          → bm_test m' j ≡ (
              if ltb (addr / page_size) m.total_pages && addr / page_size == j
              then false
              else bm_test m j))
unfolding pmm_free_page
pmm_free_page_lem {m} addr v =
    elim (Bool-cases (ltb (addr / page_size) m.total_pages && bm_test m (addr / page_size))) [
      | inl h ↦
          rw (h, pmm_free_page)
            (
              drop-IsValid (addr / page_size) (ground arith) (ground arith) v,
              total-drop m (addr / page_size),
              λ j. ground (arith, bm_test-drop m (addr / page_size) j),
            )
      | inr h ↦ rw (h, pmm_free_page) (v, refl, λ j. ground arith)
    ]

-- Giving back the page that was just taken restores every bit and both counters.
pub pmm_free_page-pmm_alloc_page :
    {m : Pmm} (i : ℕ)
    → IsValid m
    → Allocated m (pmm_alloc_page m) i
    → let m' = pmm_free_page (pmm_alloc_page m).1 (pmm_alloc_page m).0 in
      ((j : ℕ) → bm_test m' j ≡ bm_test m j)
      × (m'.used_pages ≡ m.used_pages)
      × (m'.total_pages ≡ m.total_pages)
pmm_free_page-pmm_alloc_page {m} i v a = (bits, used, total)
  where
    freed : Pmm
    freed = pmm_free_page (pmm_alloc_page m).1 (pmm_alloc_page m).0

    total : freed.total_pages ≡ m.total_pages
    total = (pmm_free_page_lem (pmm_alloc_page m).0 a.valid).1 ∙ a.total_kept

    bits : (j : ℕ) → bm_test freed j ≡ bm_test m j
    bits j =
        let page : (pmm_alloc_page m).0 / page_size ≡ i = omega (arith, a.address) in
        (pmm_free_page_lem (pmm_alloc_page m).0 a.valid).2 j
        ∙ rw page (ground (arith, a.bits j, a.total_kept, a.in_range, a.was_free))

    used : freed.used_pages ≡ m.used_pages
    used =
        (pmm_free_page_lem (pmm_alloc_page m).0 a.valid).0.counted
        ∙ simp total (
            count_from_congr m.total_pages 0 (bm_test freed) (bm_test m) (λ j lo hi. bits j)
            ∙ sym v.counted)
