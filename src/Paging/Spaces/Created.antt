-- ===== src/Paging/Spaces/Created.antt =====
-- The spaces of `paging_create_address_space` of src/paging.c: what they map, and that nothing leaks.
use microkernel_os.Prelude.{
  ℕ, ◌+◌, ◌*◌, ◌/◌, ◌^◌, ◌<◌, ◌≡◌, ◌≢◌, ◌⊎◌, ◌↔◌, ◌∙◌, refl, sym, ap, true, false, ◌||◌, Option,
  none, some, inl, inr, arith, ◌==◌, Bool-cases, Option-cases, for_range, for_range_inv,
  option_case,
}
use microkernel_os.Pmm.{bm_test, pmm_free_page, pmm_get_free_pages}
use microkernel_os.Pmm.Invariant.{IsValid, used-le-total}
use microkernel_os.Paging.{Paging, page_user, or_flag, is_present, pd_index, pt_index}
use microkernel_os.Paging.Words.{walk}
use microkernel_os.Paging.Kernel.{IsKernel}
use microkernel_os.Paging.User.Fresh.{IsReserved}
use microkernel_os.Paging.Spaces.{
  clone_entry, paging_create_address_space, release_table, paging_destroy_address_space,
}
use microkernel_os.Paging.Spaces.Clone.{IsCopy, IsCloned}
use microkernel_os.Paging.Spaces.Clone.Failure.{IsUndone, free_round, start-IsUndone, undone_bits}
use microkernel_os.Paging.Spaces.Create.{Made, Unmade, create_cases}

-- A call with a result was one that made a space.
Made-of : (s : Paging) → Made s ⊎ Unmade s → (paging_create_address_space s).0 ≢ 0 → Made s
Made-of s (inl m) ne = m
Made-of s (inr u) ne = absurd (ne u.0)

-- `paging_create_address_space` returns NULL exactly when fewer than 1025 pages are free, one for the directory
-- and one for each table. Each of the kernel's tables is in its place, they and page 0 are marked as in use, and the
-- allocator's counter agrees with its bitmap.
pub paging_create_address_space-eq-null :
    (s : Paging)
    → IsKernel s
    → IsReserved s
    → IsValid s.pmm
    → bm_test s.pmm 0 ≡ true
    → ((paging_create_address_space s).0 ≡ 0) ↔ (pmm_get_free_pages s.pmm < 1025)
unfolding pmm_get_free_pages
paging_create_address_space-eq-null s k r valid zero_used =
    elim (create_cases s k r valid zero_used) [
      | inl (i, t, ne, e, c) ↦
          let a : (paging_create_address_space s).0 ≡ i * 4096 = ap (λ (x : ℕ × Paging). x.0) e in
          (
            λ z. absurd (omega (arith, a, z, ne)),
            λ small. absurd (omega (arith, small, c.counted, c.total_same, used-le-total c.valid)),
          )
      | inr (z, small, back) ↦
          (λ z'. omega (arith, small, used-le-total valid, valid.in_bitmap), λ small'. z)
    ]

clone_present : (e : ℕ) → is_present (clone_entry e) ≡ is_present e
clone_present e = ground arith

-- Translation through a copied table.
walk_copy :
    (s t : Paging) (i v : ℕ)
    → IsKernel s
    → v < 2 ^ 32
    → IsCopy s t i (pd_index v)
    → walk t.words i v
      ≡ option_case (walk s.words s.page_directory v) none (λ e. some (or_flag page_user e))
walk_copy s t i v k lt c =
    let d : ℕ = pd_index v in
    let p : ℕ = pt_index v in
    let own : s.words s.page_directory d ≡ (s.page_tables + d) * 4096 + 7 =
      k.linked d (omega arith) in
    let e1 : is_present (t.words i d) ≡ true = rw c.entry (ground arith) in
    let e2 : t.words (t.words i d / 4096) p ≡ clone_entry (s.words (s.page_tables + d) p) =
      c.copied p (omega arith) in
    let e3 : is_present (s.words s.page_directory d) ≡ true = rw own (ground arith) in
    let e4 : s.words (s.words s.page_directory d / 4096) p ≡ s.words (s.page_tables + d) p =
      ap (λ f. s.words f p) (ap (λ x. x / 4096) own ∙ omega arith) in
    let same : is_present (clone_entry (s.words (s.page_tables + d) p))
        ≡ is_present (s.words (s.page_tables + d) p) =
      clone_present _ in
    elim (Bool-cases (is_present (s.words (s.page_tables + d) p))) [
      | inl e ↦ rw (e1, e2, e3, e4, same, e)
      | inr e ↦ rw (e1, e2, e3, e4, same, e)
    ]

-- The entry that a new space has for an address.
walk_created :
    (s : Paging) (v : ℕ)
    → IsKernel s
    → IsReserved s
    → IsValid s.pmm
    → bm_test s.pmm 0 ≡ true
    → v < 2 ^ 32
    → (paging_create_address_space s).0 ≢ 0
    → walk (paging_create_address_space s).1.words ((paging_create_address_space s).0 / 4096) v
      ≡ option_case (walk s.words s.page_directory v) none (λ e. some (or_flag page_user e))
walk_created s v k r valid zero_used lt made =
    let (i, t, ne, e, c) = Made-of s (create_cases s k r valid zero_used) made in
    let page : i * 4096 / 4096 ≡ i = omega arith in
    rw (e, page) (walk_copy s t i v k lt (c.copies (pd_index v) (omega arith)))

-- The page of an address in a directory, if it has one.
abbrev pub page_of : (words : ℕ → ℕ → ℕ) (pd v : ℕ) → Option ℕ
page_of words pd v = option_case (walk words pd v) none (λ e. some (e / 4096))

page_of_copy :
    (w w' : ℕ → ℕ → ℕ) (pd pd' v : ℕ)
    → walk w pd v ≡ option_case (walk w' pd' v) none (λ e. some (or_flag page_user e))
    → page_of w pd v ≡ page_of w' pd' v
page_of_copy w w' pd pd' v h = elim (Option-cases (walk w' pd' v)) [
  | inl e ↦ rw (h, e) refl
  | inr (x, e) ↦ rw (h, e) (ap some (or_user_page x))
]
  where
    or_user_page : (x : ℕ) → or_flag page_user x / 4096 ≡ x / 4096
    or_user_page x = ground arith

-- A space that `paging_create_address_space` made translates each address to the physical page that the kernel's
-- directory has for it, and maps nothing that this directory does not map. Each of the kernel's tables is in its
-- place, they and page 0 are marked as in use, and the allocator's counter agrees with its bitmap. Who may use the
-- pages is not part of this.
pub walk-paging_create_address_space :
    (s : Paging) (v : ℕ)
    → IsKernel s
    → IsReserved s
    → IsValid s.pmm
    → bm_test s.pmm 0 ≡ true
    → v < 2 ^ 32
    → (paging_create_address_space s).0 ≢ 0
    → page_of (paging_create_address_space s).1.words ((paging_create_address_space s).0 / 4096) v
      ≡ page_of s.words s.page_directory v
walk-paging_create_address_space s v k r valid zero_used lt made =
    page_of_copy (paging_create_address_space s).1.words s.words
      ((paging_create_address_space s).0 / 4096) s.page_directory v
      (walk_created s v k r valid zero_used lt made)

-- The loop of `paging_destroy_address_space` frees each of the tables.
release_round :
    (s0 s t : Paging) (pd n : ℕ)
    → IsReserved s0
    → n < 1024
    → t.words t.page_directory n ≡ (s0.page_tables + n) * 4096 + 7
    → IsCopy s0 s pd n
    → IsUndone s0 s pd n t
    → release_table pd n t ≡ record t { pmm = pmm_free_page t.pmm (t.words pd n / 4096 * 4096) }
unfolding release_table
release_round s0 s t pd n r lt own c u =
    let e : t.words pd n ≡ s.words pd n = ap (λ w. w pd n) u.words_same in
    let there : is_present (t.words pd n) ≡ true = rw (e, c.entry) (ground arith) in
    let used : bm_test s0.pmm (s0.page_tables + n) ≡ true = r.tables_used n lt in
    let ne : t.words pd n / 4096 ≢ s0.page_tables + n =
      λ x. absurd (ground (arith, c.fresh, used, sym (ap (λ w. w / 4096) e) ∙ x)) in
    let differ : (t.words pd n / 4096 == t.words t.page_directory n / 4096) ≡ false =
      rw own (ground (arith, ne)) in
    rw (there, differ)

release_all :
    (s0 s : Paging) (pd : ℕ)
    → IsKernel s0
    → IsReserved s0
    → IsCloned s0 pd 1024 s
    → IsUndone s0 s pd 1024 (for_range 1024 0 (release_table pd) s)
release_all s0 s pd k r c =
    for_range_inv (λ n (t : Paging). IsUndone s0 s pd n t) (release_table pd) 1024 0 s
      (λ n t lo hi u.
        let lt : n < 1024 = omega arith in
        let own : t.words t.page_directory n ≡ (s0.page_tables + n) * 4096 + 7 =
          rw (u.words_same, u.directory_same, c.directory_same)
            (c.kept s0.page_directory n r.directory_used ∙ k.linked n lt) in
        rw (release_round s0 s t pd n r lt own (c.copies n lt) u)
          (free_round s0 s t pd n (c.copies n lt) u))
      (start-IsUndone s0 s pd 1024 c)

destroy_lem :
    (pd : ℕ) (s : Paging)
    → pd ≢ 0
    → pd ≢ s.page_directory
    → paging_destroy_address_space (pd * 4096) s ≡ record (for_range 1024 0 (release_table pd) s) {
      pmm = pmm_free_page (for_range 1024 0 (release_table pd) s).pmm (pd * 4096);
    }
unfolding paging_destroy_address_space
destroy_lem pd s ne ne' =
    let e1 : (pd * 4096 == 0 || pd * 4096 == s.page_directory * 4096) ≡ false = ground arith in
    let e2 : pd * 4096 / 4096 ≡ pd = omega arith in rw (e1, e2)

destroy_none : (t : Paging) → paging_destroy_address_space 0 t ≡ t
unfolding paging_destroy_address_space
destroy_none t = refl

-- Creating a space and destroying it leaves every page as free or as used as it was, and a creation that runs out of
-- memory and returns NULL leaves them so itself: the directory and the up to 1024 tables all go back, and none of
-- the kernel's does. Each of the kernel's tables is in its place, they and page 0 are marked as in use, and the
-- allocator's counter agrees with its bitmap.
pub paging_destroy_address_space-paging_create_address_space :
    (s : Paging) (j : ℕ)
    → IsKernel s
    → IsReserved s
    → IsValid s.pmm
    → bm_test s.pmm 0 ≡ true
    → bm_test
        (paging_destroy_address_space
          (paging_create_address_space s).0
          (paging_create_address_space s).1).pmm
        j
      ≡ bm_test s.pmm j
paging_destroy_address_space-paging_create_address_space s j k r valid zero_used =
    elim (create_cases s k r valid zero_used) [
      | inl (i, t, ne, e, c) ↦
          let other : i ≢ t.page_directory =
            λ x. absurd (ground (arith, c.pd_free, r.directory_used, x ∙ c.directory_same)) in
          rw (e, destroy_lem i t ne other)
            (undone_bits s (t) (for_range 1024 0 (release_table i) t) i 1024 c
              (release_all s t i k r c) j)
      | inr (z, small, back) ↦ rw (z, destroy_none (paging_create_address_space s).1) (back j)
    ]
