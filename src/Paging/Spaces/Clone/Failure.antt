-- ===== src/Paging/Spaces/Clone/Failure.antt =====
-- When memory runs out, `paging_create_address_space` of src/paging.c gives back what it took.
use microkernel_os.Prelude.{
  ℕ, ◌+◌, ◌*◌, ◌/◌, ◌<◌, ◌≡◌, ◌⊎◌, ◌∙◌, refl, sym, true, false, inl, inr, arith, ◌==◌,
  if◌then◌else◌, Bool-cases, for_range_inv,
}
use microkernel_os.Pmm.{bm_test, pmm_free_page}
use microkernel_os.Pmm.Invariant.{IsValid}
use microkernel_os.Pmm.Alloc.{pmm_free_page_lem}
use microkernel_os.Paging.{Paging, is_present}
use microkernel_os.Paging.Spaces.{undo_clone}
use microkernel_os.Paging.Spaces.Clone.{table_of, IsCopy, IsCloned}

-- The tables of the first `n` entries are free again.
pub record IsUndone (s0 s : Paging) (pd n : ℕ) (t : Paging) : Type 0 where
  pub words_same : t.words ≡ s.words
  pub directory_same : t.page_directory ≡ s.page_directory
  pub tables_same : t.page_tables ≡ s.page_tables
  pub valid : IsValid t.pmm
  pub total_same : t.pmm.total_pages ≡ s.pmm.total_pages
  pub within : (f : ℕ) → bm_test t.pmm f ≡ true → bm_test s.pmm f ≡ true
  pub kept : (f : ℕ) → bm_test s0.pmm f ≡ true → bm_test t.pmm f ≡ true
  pub freed : (j : ℕ) → j < n → bm_test t.pmm (table_of s.words pd j) ≡ false
  pub pd_taken : bm_test t.pmm pd ≡ true

-- The body of the loop, where the entry is present.
pub free_round :
    (s0 s t : Paging) (pd n : ℕ)
    → IsCopy s0 s pd n
    → IsUndone s0 s pd n t
    → IsUndone s0 s pd (n + 1) (record t { pmm = pmm_free_page t.pmm (t.words pd n / 4096 * 4096) })
free_round s0 s t pd n c u =
    let table : ℕ = table_of s.words pd n in
    let e : t.words pd n / 4096 * 4096 ≡ table * 4096 = rw u.words_same in
    let page : table * 4096 / 4096 ≡ table = omega arith in
    let gone = pmm_free_page_lem (t.words pd n / 4096 * 4096) u.valid in
    let bits : (f : ℕ)
        → bm_test (pmm_free_page t.pmm (t.words pd n / 4096 * 4096)) f
          ≡ (if table == f then false else bm_test t.pmm f) =
      λ f. gone.2 f ∙ rw (e, page) (ground (arith, c.in_range, u.total_same)) in
    record {
      words_same = u.words_same;
      directory_same = u.directory_same;
      tables_same = u.tables_same;
      valid = gone.0;
      total_same = gone.1 ∙ u.total_same;
      within = λ f x. ground (arith, bits f, u.within f, x);
      kept = λ f x. ground (arith, bits f, u.kept f x, c.fresh, x);
      freed = λ j lt. ground (arith, bits (table_of s.words pd j), u.freed j);
      pd_taken = ground (arith, bits pd, u.pd_taken, c.other);
    }

pub start-IsUndone : (s0 s : Paging) (pd n : ℕ) → IsCloned s0 pd n s → IsUndone s0 s pd 0 s
start-IsUndone s0 s pd n c = record {
  words_same = refl;
  directory_same = refl;
  tables_same = refl;
  valid = c.valid;
  total_same = refl;
  within = λ f x. x;
  kept = c.grows;
  freed = λ j lt. absurd (omega arith);
  pd_taken = c.pd_taken;
}

pub undo_clone-IsUndone :
    (s0 s : Paging) (pd n : ℕ) → IsCloned s0 pd n s → IsUndone s0 s pd n (undo_clone pd n s)
unfolding undo_clone
undo_clone-IsUndone s0 s pd n c =
    let e : 0 + n ≡ n = omega arith in
    rw e at (
      for_range_inv (λ k (t : Paging). IsUndone s0 s pd k t)
        (λ j (t : Paging).
          if is_present (t.words pd j)
          then record t { pmm = pmm_free_page t.pmm (t.words pd j / 4096 * 4096) }
          else t)
        n 0 s
        (λ k t lo hi u.
          let copy = c.copies k (omega arith) in
          let there : is_present (t.words pd k) ≡ true =
            rw (u.words_same, copy.entry) (ground arith) in
          rw there (free_round s0 s t pd k copy u))
        (start-IsUndone s0 s pd n c))

-- With the page of the directory the bits are what they were before the call.
pub undone_bits :
    (s0 s t : Paging) (pd n : ℕ)
    → IsCloned s0 pd n s
    → IsUndone s0 s pd n t
    → (f : ℕ) → bm_test (pmm_free_page t.pmm (pd * 4096)) f ≡ bm_test s0.pmm f
undone_bits s0 s t pd n c u f =
    let page : pd * 4096 / 4096 ≡ pd = omega arith in
    let bits : bm_test (pmm_free_page t.pmm (pd * 4096)) f
        ≡ (if pd == f then false else bm_test t.pmm f) =
      (pmm_free_page_lem (pd * 4096) u.valid).2 f
      ∙ rw page (ground (arith, c.pd_range, u.total_same)) in
    elim (Bool-cases (bm_test s0.pmm f)) [
      | inl e ↦ ground (arith, bits, u.kept f e, e, c.pd_free)
      | inr e ↦ elim (Bool-cases (bm_test t.pmm f)) [
        | inr g ↦ ground (arith, bits, g, e)
        | inl g ↦ bits ∙ rw (gone e g (c.exact f (u.within f g))) (sym e)
      ]
    ]
  where
    gone :
        bm_test s0.pmm f ≡ false
        → bm_test t.pmm f ≡ true
        → (bm_test s0.pmm f ≡ true) ⊎ ((f ≡ pd) ⊎ ((j : ℕ) × (j < n) × (table_of s.words pd j ≡ f)))
        → (if pd == f then false else bm_test t.pmm f) ≡ false
    gone e g (inl x) = absurd (ground (arith, x, e))
    gone e g (inr (inl x)) = ground arith
    gone e g (inr (inr (j, lt, x))) = absurd (ground (arith, u.freed j lt, x, g))
