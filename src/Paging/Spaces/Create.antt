-- ===== src/Paging/Spaces/Create.antt =====
-- `paging_create_address_space` of src/paging.c: the space that it makes, and what is left when memory runs out.
use microkernel_os.Prelude.{
  ℕ, zero, suc, ◌+◌, ◌*◌, ◌/◌, ◌<◌, ◌≡◌, ◌≢◌, ◌⊎◌, ◌∙◌, refl, ap, Bool, true, false, inl, inr,
  arith, ◌==◌, if◌then◌else◌, Bool-cases,
}
use microkernel_os.Pmm.{Pmm, bm_test, pmm_alloc_page, pmm_free_page, pmm_get_free_pages}
use microkernel_os.Pmm.Invariant.{IsValid, used-le-total}
use microkernel_os.Pmm.Alloc.{Allocated, pmm_alloc_page_lem, pmm_alloc_page-eq-null}
use microkernel_os.Paging.{Paging, page_present, page_write, page_user, is_present}
use microkernel_os.Paging.Kernel.{IsKernel}
use microkernel_os.Paging.User.Fresh.{IsReserved}
use microkernel_os.Paging.Spaces.{clone_tables, undo_clone, paging_create_address_space}
use microkernel_os.Paging.Spaces.Clone.{IsCloned, cloned_next, round-IsCloned, was_free0}
use microkernel_os.Paging.Spaces.Clone.Failure.{undo_clone-IsUndone, undone_bits}

-- How the loop ends.
abbrev Outcome : (s0 : Paging) (pd : ℕ) (out : Bool × Paging) → Type 0
Outcome s0 pd out =
    ((out.0 ≡ true) × IsCloned s0 pd 1024 out.1)
    ⊎ ((out.0 ≡ false)
        × (s0.pmm.total_pages < s0.pmm.used_pages + 1025)
        × ((f : ℕ) → bm_test (pmm_free_page out.1.pmm (pd * 4096)) f ≡ bm_test s0.pmm f))

-- One round where the entry is present.
present_round :
    (rounds n pd i : ℕ) (s : Paging) (m : Pmm)
    → is_present (s.words s.page_directory n) ≡ true
    → pmm_alloc_page s.pmm ≡ (i * 4096, m)
    → clone_tables (suc rounds) n pd s ≡ (
        if i * 4096 == 0
        then (false, undo_clone pd n (record s { pmm = m }))
        else clone_tables rounds (n + 1) pd (cloned_next s pd n i m))
unfolding clone_tables
present_round rounds n pd i s m there e =
    let e1 : i * 4096 / 4096 ≡ i = omega arith in
    let e2 : i * 4096 + page_present + page_write + page_user ≡ i * 4096 + 7 = omega arith in
    rw (there, e, e1, e2)

module _ (s0 : Paging) (pd : ℕ) (k : IsKernel s0) (r : IsReserved s0)
    (zero_used : bm_test s0.pmm 0 ≡ true) where
  entry_present :
      (n : ℕ) (s : Paging)
      → n < 1024
      → IsCloned s0 pd n s
      → is_present (s.words s.page_directory n) ≡ true
  entry_present n s lt c =
      let e : s.words s.page_directory n ≡ (s0.page_tables + n) * 4096 + 7 =
        rw c.directory_same (c.kept s0.page_directory n r.directory_used ∙ k.linked n lt) in
      rw e (ground arith)

  -- Memory runs out in round `n` only if it had no room for all.
  no_room :
      (n : ℕ) (s : Paging)
      → n < 1024
      → IsCloned s0 pd n s
      → pmm_alloc_page s.pmm ≡ (0, s.pmm)
      → s0.pmm.total_pages < s0.pmm.used_pages + 1025
  unfolding pmm_get_free_pages
  no_room n s lt c full =
      let none_free : pmm_get_free_pages s.pmm ≡ 0 =
        (pmm_alloc_page-eq-null c.valid (c.grows 0 zero_used)).0 (ap (λ (x : ℕ × Pmm). x.0) full) in
      omega (arith, none_free, used-le-total c.valid, c.valid.in_bitmap, c.counted, c.total_same)

  run_clone :
      (rounds n : ℕ) (s : Paging)
      → n + rounds ≡ 1024
      → IsCloned s0 pd n s
      → Outcome s0 pd (clone_tables rounds n pd s)
  unfolding clone_tables
  run_clone zero n s e c = inl (refl, (let e' : n ≡ 1024 = omega arith in rw e' at c))
  run_clone (suc rounds) n s e c =
      let lt : n < 1024 = omega arith in
      let there = entry_present n s lt c in
      elim (pmm_alloc_page_lem c.valid) [
        | inl (full, all) ↦ rw (present_round rounds n pd 0 s s.pmm there full) (
            inr (
              refl,
              no_room n s lt c full,
              undone_bits s0 s (undo_clone pd n s) pd n c (undo_clone-IsUndone s0 s pd n c),
            ))
        | inr (i, got) ↦
            let fresh : bm_test s0.pmm i ≡ false = was_free0 s0 s pd n i r c lt got in
            let some_page : (i * 4096 == 0) ≡ false = ground (arith, fresh, zero_used) in
            let next : Paging = cloned_next s pd n i (pmm_alloc_page s.pmm).1 in
            rw
              (
                present_round rounds n pd i s (pmm_alloc_page s.pmm).1 there
                    (ap (λ a. (a, (pmm_alloc_page s.pmm).1)) got.address),
                some_page,
              )
              (run_clone rounds (n + 1) next (omega arith) (round-IsCloned s0 s pd n i r c lt got))
      ]

-- The state in front of the loop.
start-IsCloned :
    (s : Paging) (i : ℕ)
    → Allocated s.pmm (pmm_alloc_page s.pmm) i
    → IsCloned s i 0 (record s { pmm = (pmm_alloc_page s.pmm).1 })
start-IsCloned s i got = record {
  directory_same = refl;
  tables_same = refl;
  valid = got.valid;
  counted = omega (arith, got.used_more);
  total_same = got.total_kept;
  pd_free = got.was_free;
  pd_taken = got.bits i ∙ ground arith;
  pd_range = rw got.total_kept got.in_range;
  grows = λ f u. got.bits f ∙ ground (arith, u);
  kept = λ f k u. refl;
  copies = λ j lt. absurd (omega arith);
  exact = λ f u. elim (Bool-cases (i == f)) [
    | inl e ↦ inr (inl (ground (arith, e)))
    | inr e ↦ inl (ground (arith, got.bits f, u, e))
  ];
}

-- How a call ends: with a space in page `i`, or with NULL and the pages as they were.
abbrev pub Made : Paging → Type 0
Made s =
    (i : ℕ) × (t : Paging) × (i ≢ 0)
    × (paging_create_address_space s ≡ (i * 4096, t))
    × IsCloned s i 1024 t

abbrev pub Unmade : Paging → Type 0
Unmade s =
    ((paging_create_address_space s).0 ≡ 0)
    × (s.pmm.total_pages < s.pmm.used_pages + 1025)
    × ((f : ℕ) → bm_test (paging_create_address_space s).1.pmm f ≡ bm_test s.pmm f)

create_step :
    (s : Paging) (i : ℕ) (m : Pmm) (ok : Bool) (t : Paging)
    → pmm_alloc_page s.pmm ≡ (i * 4096, m)
    → i ≢ 0
    → clone_tables 1024 0 i (record s { pmm = m }) ≡ (ok, t)
    → paging_create_address_space s
      ≡ (if ok then (i * 4096, t) else (0, record t { pmm = pmm_free_page t.pmm (i * 4096) }))
unfolding paging_create_address_space
create_step s i m ok t e ne run =
    let e1 : i * 4096 / 4096 ≡ i = omega arith in
    let e2 : (i * 4096 == 0) ≡ false = ground arith in rw (e, e1, run, e2)

create_full :
    (s : Paging) → pmm_alloc_page s.pmm ≡ (0, s.pmm) → paging_create_address_space s ≡ (0, s)
unfolding paging_create_address_space
create_full s e = rw e

full_room :
    (s : Paging)
    → IsValid s.pmm
    → bm_test s.pmm 0 ≡ true
    → pmm_alloc_page s.pmm ≡ (0, s.pmm)
    → s.pmm.total_pages < s.pmm.used_pages + 1025
unfolding pmm_get_free_pages
full_room s valid zero_used full =
    let none_free : pmm_get_free_pages s.pmm ≡ 0 =
      (pmm_alloc_page-eq-null valid zero_used).0 (ap (λ (x : ℕ × Pmm). x.0) full) in
    omega (arith, none_free, used-le-total valid, valid.in_bitmap)

pub create_cases :
    (s : Paging)
    → IsKernel s
    → IsReserved s
    → IsValid s.pmm
    → bm_test s.pmm 0 ≡ true
    → Made s ⊎ Unmade s
create_cases s k r valid zero_used = elim (pmm_alloc_page_lem valid) [
  | inl (full, all) ↦
      inr (rw (create_full s full), full_room s valid zero_used full, λ f. rw (create_full s full))
  | inr (i, got) ↦
      let m : Pmm = (pmm_alloc_page s.pmm).1 in
      let ne : i ≢ 0 = λ e. absurd (ground (arith, got.was_free, zero_used, e)) in
      let out : Bool × Paging = clone_tables 1024 0 i (record s { pmm = m }) in
      let made = create_step s i m out.0 out.1 (ap (λ a. (a, m)) got.address) ne refl in
      elim (run_clone s i k r zero_used 1024 0 (record s { pmm = m }) (omega arith)
        (start-IsCloned s i got)) [
          | inl (done, c) ↦ inl (i, out.1, ne, (rw done at made), c)
          | inr (failed, small, back) ↦
              let e = rw failed at made in inr (rw e, small, λ f. rw e (back f))
        ]
]
