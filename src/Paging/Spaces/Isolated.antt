-- ===== src/Paging/Spaces/Isolated.antt =====
-- The space of `paging_create_isolated_space` of src/paging.c: what it maps, and that destroying it gives
-- back what it took.
use microkernel_os.Prelude.{
  ℕ, ◌+◌, ◌*◌, ◌/◌, ◌^◌, ◌<◌, ◌≡◌, ◌≢◌, ◌∙◌, refl, ap, false, ◌&&◌, ◌||◌, none, inl, inr, arith,
  ltb, leb, ◌==◌, if◌then◌else◌, Bool-cases, for_range, for_range_inv,
}
use microkernel_os.Pmm.{Pmm, bm_test, pmm_alloc_page, pmm_free_page}
use microkernel_os.Pmm.Invariant.{IsValid}
use microkernel_os.Pmm.Alloc.{Allocated, pmm_alloc_page_lem, pmm_free_page-pmm_alloc_page}
use microkernel_os.Paging.{Paging, pd_index, pt_index}
use microkernel_os.Paging.Words.{walk}
use microkernel_os.Paging.Kernel.{IsKernel}
use microkernel_os.Paging.User.Laws.{IsOutside}
use microkernel_os.Paging.User.Fresh.{IsReserved, free-IsOutside}
use microkernel_os.Paging.Spaces.{
  share_entry, paging_create_isolated_space, release_table, paging_destroy_address_space,
}

-- The entry of the new directory.
abbrev pub shared_entry : (w : ℕ → ℕ → ℕ) (directory i : ℕ) → ℕ
shared_entry w directory i = if leb 256 i && ltb i 768 then 0 else w directory i

-- The words that the loop leaves.
share_words :
    (w : ℕ → ℕ → ℕ) (directory pd n f k : ℕ)
    → directory ≢ pd
    → for_range n 0 (share_entry directory pd) w f k
      ≡ (if pd == f && ltb k n then shared_entry w directory k else w f k)
unfolding share_entry
share_words w directory pd n f k ne =
    (for_range_inv
        (λ j (v : ℕ → ℕ → ℕ).
          (f : ℕ)
          → (k : ℕ) → v f k ≡ (if pd == f && ltb k j then shared_entry w directory k else w f k))
        (share_entry directory pd) n 0 w (λ j v lo hi h f k. ground (arith, h f k, h directory j))
        (λ f k. ground arith))
      f k
    ∙ ground arith

-- What the call leaves where it takes page `i`.
create_lem :
    (s : Paging) (i : ℕ) (m : Pmm)
    → pmm_alloc_page s.pmm ≡ (i * 4096, m)
    → i ≢ 0
    → paging_create_isolated_space s ≡ (
      i * 4096,
      record s { pmm = m; words = for_range 1024 0 (share_entry s.page_directory i) s.words },
    )
unfolding paging_create_isolated_space
create_lem s i m e ne =
    let e1 : (i * 4096 == 0) ≡ false = ground arith in
    let e2 : i * 4096 / 4096 ≡ i = omega arith in rw (e, e1, e2)

create_full : (s : Paging) → (pmm_alloc_page s.pmm).0 ≡ 0 → (paging_create_isolated_space s).0 ≡ 0
unfolding paging_create_isolated_space
create_full s e = ground (arith, e)

-- A call that succeeds took some page.
abbrev Made : Paging → ℕ → Type 0
Made s i =
    Allocated s.pmm (pmm_alloc_page s.pmm) i
    × (paging_create_isolated_space s ≡ (
      i * 4096,
      record s {
        pmm = (pmm_alloc_page s.pmm).1;
        words = for_range 1024 0 (share_entry s.page_directory i) s.words;
      },
    ))

create_cases :
    (s : Paging) → IsValid s.pmm → (paging_create_isolated_space s).0 ≢ 0 → (i : ℕ) × Made s i
create_cases s valid made = elim (pmm_alloc_page_lem valid) [
  | inl (none_left, full) ↦ absurd (made (create_full s (ap (λ (x : ℕ × Pmm). x.0) none_left)))
  | inr (i, got) ↦
      let zero_page : i ≢ 0 = λ e. absurd (made (create_full s (got.address ∙ rw e))) in
      (
        i,
        (
          got,
          create_lem s i (pmm_alloc_page s.pmm).1
              (ap (λ n. (n, (pmm_alloc_page s.pmm).1)) got.address) zero_page,
        ),
      )
]

-- Translation in a space that shares the kernel's tables.
walk_shared :
    (s : Paging) (pd v : ℕ) (w : ℕ → ℕ → ℕ)
    → IsKernel s
    → IsOutside s pd
    → v < 2 ^ 32
    → ((f k : ℕ)
        → w f k ≡ (
            if pd == f && ltb k 1024 then shared_entry s.words s.page_directory k else s.words f k))
    → walk w pd v ≡ (
        if leb 256 (pd_index v) && ltb (pd_index v) 768
        then none
        else walk s.words s.page_directory v)
walk_shared s pd v w k out lt h =
    let d : ℕ = pd_index v in
    let own : s.words s.page_directory d ≡ (s.page_tables + d) * 4096 + 7 =
      k.linked d (omega arith) in
    let e1 : w pd d ≡ shared_entry s.words s.page_directory d = h pd d ∙ ground arith in
    let e2 : ((s.page_tables + d) * 4096 + 7) / 4096 ≡ s.page_tables + d = omega arith in
    let e3 : w (s.page_tables + d) (pt_index v) ≡ s.words (s.page_tables + d) (pt_index v) =
      h (s.page_tables + d) (pt_index v) ∙ ground (arith, out) in
    elim (Bool-cases (leb 256 d && ltb d 768)) [
      | inl e ↦ rw (e1, e)
      | inr e ↦ rw (e1, e, own, e2, e3)
    ]

range_eq :
    (v : ℕ)
    → (leb 256 (pd_index v) && ltb (pd_index v) 768) ≡ (leb 0x40000000 v && ltb v 0xC0000000)
range_eq v = ground arith

-- A space that `paging_create_isolated_space` made maps what the kernel's directory maps, but for the addresses
-- 0x40000000 to 0xBFFFFFFF, which it does not map. Each of the kernel's tables is in its place and marked as in
-- use.
pub walk-paging_create_isolated_space :
    (s : Paging) (v : ℕ)
    → IsKernel s
    → IsReserved s
    → IsValid s.pmm
    → v < 2 ^ 32
    → (paging_create_isolated_space s).0 ≢ 0
    → walk (paging_create_isolated_space s).1.words ((paging_create_isolated_space s).0 / 4096) v
      ≡ (if leb 0x40000000 v && ltb v 0xC0000000 then none else walk s.words s.page_directory v)
walk-paging_create_isolated_space s v k r valid lt made =
    let (i, (got, e)) = create_cases s valid made in
    let e1 : i * 4096 / 4096 ≡ i = omega arith in
    let out : IsOutside s i = free-IsOutside s i r got.was_free in
    rw (e, e1)
      (walk_shared s i v _ k out lt
          (λ f k'. share_words s.words s.page_directory i 1024 f k' (omega (arith, out)))
        ∙ ap (λ c. if c then none else walk s.words s.page_directory v) (range_eq v))

-- The loop of `paging_destroy_address_space` takes nothing from a directory that shares its tables.
release_shared :
    (s : Paging) (pd : ℕ)
    → ((k : ℕ) → k < 1024 → s.words pd k ≡ shared_entry s.words s.page_directory k)
    → for_range 1024 0 (release_table pd) s ≡ s
unfolding release_table
release_shared s pd h =
    for_range_inv (λ j (t : Paging). t ≡ s) (release_table pd) 1024 0 s
      (λ j t lo hi e. rw e (one j (h j (omega arith)))) refl
  where
    one :
        (j : ℕ) → s.words pd j ≡ shared_entry s.words s.page_directory j → release_table pd j s ≡ s
    one j e = elim (Bool-cases (leb 256 j && ltb j 768)) [
      | inl f ↦ rw (e, f)
      | inr f ↦ rw (e, f) (ground arith)
    ]

destroy_lem :
    (pd : ℕ) (s : Paging)
    → pd ≢ 0
    → pd ≢ s.page_directory * 4096
    → for_range 1024 0 (release_table (pd / 4096)) s ≡ s
    → paging_destroy_address_space pd s ≡ record s { pmm = pmm_free_page s.pmm pd }
unfolding paging_destroy_address_space
destroy_lem pd s ne ne' e =
    let e1 : (pd == 0 || pd == s.page_directory * 4096) ≡ false = ground arith in rw (e1, e)

-- Creating an isolated space and destroying it leaves every page as free or as used as it was: nothing leaks,
-- and none of the kernel's tables, which the space shares, is given back. They are marked as in use.
pub paging_destroy_address_space-paging_create_isolated_space :
    (s : Paging) (j : ℕ)
    → IsReserved s
    → IsValid s.pmm
    → (paging_create_isolated_space s).0 ≢ 0
    → bm_test
        (paging_destroy_address_space
          (paging_create_isolated_space s).0
          (paging_create_isolated_space s).1).pmm
        j
      ≡ bm_test s.pmm j
paging_destroy_address_space-paging_create_isolated_space s j r valid made =
    let (i, (got, e)) = create_cases s valid made in
    let out : IsOutside s i = free-IsOutside s i r got.was_free in
    let zero_page : i ≢ 0 = λ z. absurd (made (ap (λ (x : ℕ × Paging). x.0) e ∙ rw z)) in
    let t : Paging = record s {
      pmm = (pmm_alloc_page s.pmm).1;
      words = for_range 1024 0 (share_entry s.page_directory i) s.words;
    } in
    let own : (f k : ℕ)
        → t.words f k ≡ (
            if i == f && ltb k 1024 then shared_entry s.words s.page_directory k else s.words f k) =
      λ f k. share_words s.words s.page_directory i 1024 f k (omega (arith, out)) in
    let page : i * 4096 / 4096 ≡ i = omega arith in
    let quiet : for_range 1024 0 (release_table (i * 4096 / 4096)) t ≡ t =
      rw page (release_shared t i (λ k lt. ground (arith, own i k, own s.page_directory k, out))) in
    rw (e, destroy_lem (i * 4096) t (omega arith) (omega (arith, out)) quiet)
      (rw got.address at ((pmm_free_page-pmm_alloc_page i valid got).0 j))
