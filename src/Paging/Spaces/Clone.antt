-- ===== src/Paging/Spaces/Clone.antt =====
-- The loop of `paging_create_address_space` of src/paging.c: which pages it takes, and what it puts into them.
pub mod Failure
use microkernel_os.Prelude.{
  ℕ, zero, suc, ◌+◌, ◌-◌, ◌*◌, ◌/◌, ◌%◌, ◌^◌, ◌≤◌, ◌<◌, ◌≡◌, ◌≢◌, ◌⊎◌, ◌↔◌, ◌∙◌, refl, sym, ap,
  fun_ext, Bool, true, false, not, ◌&&◌, ◌||◌, Option, none, some, List, [], ◌∷◌, ◌++◌, map, inl,
  inr, arith, ltb, leb, ◌==◌, if◌then◌else◌, Bool-cases, Option-cases, Table, update, first_from,
  count_from, for_range, IsFirst, first_from-IsFirst, first_from-none, first_from_eq,
  first_from_congr, count_from_congr, count_from-flip, count_from-le, count_from-lt_of_miss,
  count_from_all, for_range_inv, below_suc, length, get_or, take, drop, replicate, length-append,
  length-replicate, length-drop, lt→ltb, leb→le, ltb→lt, ==_iff, if-intro, option_case,
  option_case-intro,
}
use microkernel_os.Pmm.{Pmm, bm_test, pmm_alloc_page, pmm_free_page}
use microkernel_os.Pmm.Invariant.{IsValid}
use microkernel_os.Pmm.Alloc.{Allocated, pmm_alloc_page_lem, pmm_free_page_lem}
use microkernel_os.Paging.{
  Paging, page_present, page_write, page_user, or_flag, is_present, pd_index, pt_index, poke,
}
use microkernel_os.Paging.Words.{walk}
use microkernel_os.Paging.Kernel.{IsKernel}
use microkernel_os.Paging.User.Laws.{IsOutside}
use microkernel_os.Paging.User.Fresh.{IsReserved, free-IsOutside}
use microkernel_os.Paging.Spaces.{
  clone_entry, clone_table, clone_tables, undo_clone, paging_create_address_space,
}

-- The words that the copy of one table leaves.
clone_table_lem :
    (from to f k : ℕ) (w : ℕ → ℕ → ℕ)
    → from ≢ to
    → clone_table from to w f k ≡ (if to == f && ltb k 1024 then clone_entry (w from k) else w f k)
unfolding clone_table
clone_table_lem from to f k w ne =
    (for_range_inv
        (λ j (v : ℕ → ℕ → ℕ).
          (f : ℕ)
          → (k : ℕ) → v f k ≡ (if to == f && ltb k j then clone_entry (w from k) else w f k))
        (λ j (v : ℕ → ℕ → ℕ). poke to j (clone_entry (v from j)) v) 1024 0 w
        (λ j v lo hi h f k. ground (arith, h f k, h from j)) (λ f k. ground arith))
      f k
    ∙ ground arith

-- The page of the table that entry `j` of the directory in page `pd` leads to.
abbrev pub table_of : (ℕ → ℕ → ℕ) → (pd j : ℕ) → ℕ
table_of w pd j = w pd j / 4096

-- Entry `j` of the new directory: a table in a page that was free, with the kernel's entries.
pub record IsCopy (s0 s : Paging) (pd j : ℕ) : Type 0 where
  pub entry : s.words pd j ≡ table_of s.words pd j * 4096 + 7
  pub fresh : bm_test s0.pmm (table_of s.words pd j) ≡ false
  pub taken : bm_test s.pmm (table_of s.words pd j) ≡ true
  pub in_range : table_of s.words pd j < s.pmm.total_pages
  pub other : table_of s.words pd j ≢ pd
  pub copied :
      (k : ℕ)
      → k < 1024
      → s.words (table_of s.words pd j) k ≡ clone_entry (s0.words (s0.page_tables + j) k)

-- The state behind `n` rounds, where `s0` is the one before the call and `pd` the page of the directory.
pub record IsCloned (s0 : Paging) (pd n : ℕ) (s : Paging) : Type 0 where
  pub directory_same : s.page_directory ≡ s0.page_directory
  pub tables_same : s.page_tables ≡ s0.page_tables
  pub valid : IsValid s.pmm
  pub counted : s.pmm.used_pages ≡ s0.pmm.used_pages + 1 + n
  pub total_same : s.pmm.total_pages ≡ s0.pmm.total_pages
  pub pd_free : bm_test s0.pmm pd ≡ false
  pub pd_taken : bm_test s.pmm pd ≡ true
  pub pd_range : pd < s.pmm.total_pages
  pub grows : (f : ℕ) → bm_test s0.pmm f ≡ true → bm_test s.pmm f ≡ true
  pub kept : (f k : ℕ) → bm_test s0.pmm f ≡ true → s.words f k ≡ s0.words f k
  pub copies : (j : ℕ) → j < n → IsCopy s0 s pd j
  pub exact :
      (f : ℕ)
      → bm_test s.pmm f ≡ true
      → (bm_test s0.pmm f ≡ true) ⊎ ((f ≡ pd) ⊎ ((j : ℕ) × (j < n) × (table_of s.words pd j ≡ f)))

-- The state behind a round that took page `i`.
abbrev pub cloned_next : (s : Paging) (pd n i : ℕ) (m : Pmm) → Paging
cloned_next s pd n i m = record s {
  pmm = m;
  words = poke pd n (i * 4096 + 7) (clone_table (s.page_tables + n) i s.words);
}

module _ (s0 s : Paging) (pd n i : ℕ) (r : IsReserved s0) (c : IsCloned s0 pd n s) (lt : n < 1024)
    (got : Allocated s.pmm (pmm_alloc_page s.pmm) i) where
  abbrev next : Paging
  next = cloned_next s pd n i (pmm_alloc_page s.pmm).1

  not_pd : i ≢ pd
  not_pd e = absurd (ground (arith, got.was_free, c.pd_taken, e))

  pub was_free0 : bm_test s0.pmm i ≡ false
  was_free0 = elim (Bool-cases (bm_test s0.pmm i)) [
    | inl e ↦ absurd (ground (arith, c.grows i e, got.was_free))
    | inr e ↦ e
  ]

  source_used : bm_test s0.pmm (s.page_tables + n) ≡ true
  source_used = rw c.tables_same (r.tables_used n lt)

  source_not : s.page_tables + n ≢ i
  source_not e = absurd (ground (arith, source_used, was_free0, e))

  next_words :
      (f k : ℕ)
      → next.words f k ≡ (
          if pd == f && n == k
          then i * 4096 + 7
          else if i == f && ltb k 1024
          then clone_entry (s0.words (s0.page_tables + n) k)
          else s.words f k)
  next_words f k =
      let source : s.words (s.page_tables + n) k ≡ s0.words (s0.page_tables + n) k =
        c.kept (s.page_tables + n) k source_used ∙ rw c.tables_same in
      ap (λ e. if pd == f && n == k then i * 4096 + 7 else e)
        (clone_table_lem (s.page_tables + n) i f k s.words source_not ∙ rw source)

  IsCopy-kept : (j : ℕ) → j < n → IsCopy s0 s pd j → IsCopy s0 next pd j
  IsCopy-kept j small h =
      let e : next.words pd j ≡ s.words pd j = next_words pd j ∙ ground (arith, not_pd, small) in
      let ne : table_of s.words pd j ≢ i = λ x. absurd (ground (arith, h.taken, got.was_free, x)) in
      record {
        entry = rw e h.entry;
        fresh = rw e h.fresh;
        taken = rw e (got.bits (table_of s.words pd j) ∙ ground (arith, h.taken));
        in_range = rw (e, got.total_kept) h.in_range;
        other = rw e h.other;
        copied = λ k below.
            rw e (
              next_words (table_of s.words pd j) k ∙ ground (arith, h.copied k below, ne, h.other));
      }

  IsCopy-new : IsCopy s0 next pd n
  IsCopy-new =
      let e : next.words pd n ≡ i * 4096 + 7 = next_words pd n ∙ ground arith in
      let e1 : (i * 4096 + 7) / 4096 ≡ i = omega arith in
      record {
        entry = rw (e, e1);
        fresh = rw (e, e1) was_free0;
        taken = rw (e, e1) (got.bits i ∙ ground arith);
        in_range = rw (e, e1, got.total_kept) got.in_range;
        other = rw (e, e1) not_pd;
        copied = λ k below. rw (e, e1) (next_words i k ∙ ground (arith, not_pd));
      }

  table_kept : (j : ℕ) → j < n → table_of next.words pd j ≡ table_of s.words pd j
  table_kept j small = ap (λ e. e / 4096) (next_words pd j ∙ ground (arith, not_pd, small))

  table_new : table_of next.words pd n ≡ i
  table_new = ap (λ e. e / 4096) (next_words pd n) ∙ ground arith

  -- What the pages in use are.
  abbrev Origin : ℕ → Type 0
  Origin f =
      (bm_test s0.pmm f ≡ true)
      ⊎ ((f ≡ pd) ⊎ ((j : ℕ) × (j < n + 1) × (table_of next.words pd j ≡ f)))

  exact_old :
      (f : ℕ)
      → (bm_test s0.pmm f ≡ true) ⊎ ((f ≡ pd) ⊎ ((j : ℕ) × (j < n) × (table_of s.words pd j ≡ f)))
      → Origin f
  exact_old f (inl u) = inl u
  exact_old f (inr (inl e)) = inr (inl e)
  exact_old f (inr (inr (j, small, e))) = inr (inr (j, omega arith, table_kept j small ∙ e))

  exact_round : (f : ℕ) → bm_test next.pmm f ≡ true → Origin f
  exact_round f u = elim (Bool-cases (i == f)) [
    | inl e ↦ inr (inr (n, omega arith, table_new ∙ ground (arith, e)))
    | inr e ↦ exact_old f (c.exact f (ground (arith, got.bits f, u, e)))
  ]

  pub round-IsCloned : IsCloned s0 pd (n + 1) next
  round-IsCloned = record {
    directory_same = c.directory_same;
    tables_same = c.tables_same;
    valid = got.valid;
    counted = omega (arith, got.used_more, c.counted);
    total_same = got.total_kept ∙ c.total_same;
    pd_free = c.pd_free;
    pd_taken = got.bits pd ∙ ground (arith, c.pd_taken);
    pd_range = rw got.total_kept c.pd_range;
    grows = λ f u. got.bits f ∙ ground (arith, c.grows f u);
    kept = λ f k u. next_words f k ∙ ground (arith, c.kept f k u, c.pd_free, was_free0, u);
    copies = λ j small. elim (Bool-cases (j == n)) [
      | inl e ↦ let e' : j ≡ n = ground arith in rw e' IsCopy-new
      | inr e ↦ IsCopy-kept j (ground arith) (c.copies j (ground arith))
    ];
    exact = exact_round;
  }
