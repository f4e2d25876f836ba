-- ===== src/Paging/User/Fresh.antt =====
-- `paging_map_user` of src/paging.c where the target has no page table for the address yet.
use microkernel_os.Prelude.{
  ℕ, ◌+◌, ◌-◌, ◌*◌, ◌/◌, ◌%◌, ◌≤◌, ◌<◌, ◌≡◌, ◌≢◌, ◌⊎◌, ap, true, false, ◌&&◌, none, some, inl, inr,
  arith, ltb, leb, ◌==◌, if◌then◌else◌, Bool-cases,
}
use microkernel_os.Pmm.{Pmm, bm_test, pmm_alloc_page}
use microkernel_os.Pmm.Invariant.{IsValid}
use microkernel_os.Pmm.Alloc.{Allocated, pmm_alloc_page_lem}
use microkernel_os.Paging.{
  Paging, page_present, page_write, page_user, is_present, pd_index, pt_index, poke, clear_page,
  paging_unmap_page,
}
use microkernel_os.Paging.Words.{walk}
use microkernel_os.Paging.Kernel.{IsKernel, poke-IsKernel}
use microkernel_os.Paging.User.{user_table, link_new_table, final_flags, paging_map_user}
use microkernel_os.Paging.User.Laws.{
  IsOutside, map_pd_eq, map_pt_eq, window-pd, window-pt, outside-IsKernel, write_user_entry_lem,
  present_entry,
}

-- The kernel's tables are in use.
pub record IsReserved (s : Paging) : Type 0 where
  pub directory_used : bm_test s.pmm s.page_directory ≡ true
  pub tables_used : (t : ℕ) → t < 1024 → bm_test s.pmm (s.page_tables + t) ≡ true

-- So a page that is free is none of them.
pub free-IsOutside : (s : Paging) (f : ℕ) → IsReserved s → bm_test s.pmm f ≡ false → IsOutside s f
free-IsOutside s f r free = (λ e. absurd (ground (arith, r.directory_used, free, e)), in_range)
  where
    in_range : (f < s.page_tables) ⊎ (s.page_tables + 1024 ≤ f)
    in_range = elim (Bool-cases (leb s.page_tables f && ltb f (s.page_tables + 1024))) [
      | inl e ↦
          let same : s.page_tables + (f - s.page_tables) ≡ f = ground (arith, e) in
          let used : bm_test s.pmm f ≡ true =
            rw same at (r.tables_used (f - s.page_tables) (ground (arith, e))) in
          absurd (ground (arith, used, free))
      | inr e ↦ ground (arith, e)
    ]

clear-IsKernel :
    (s : Paging) (f : ℕ)
    → IsOutside s f
    → IsKernel s
    → IsKernel (record s { words = clear_page f s.words })
clear-IsKernel s f out k = record {
  apart = k.apart;
  linked = λ u small. ground (arith, k.linked u small, out);
}

-- The words when a table in page frame `i` is new.
abbrev linked_words : (a target i d : ℕ) → (ℕ → ℕ → ℕ) → ℕ → ℕ → ℕ
linked_words a target i d w =
    poke a 513 0 (poke target d (i * 4096 + 7) (clear_page i (poke a 513 (i * 4096 + 3) w)))

linked-IsKernel :
    (s : Paging) (m : Pmm) (target i d : ℕ)
    → IsKernel s
    → IsOutside s target
    → IsOutside s i
    → IsKernel (record s { pmm = m; words = linked_words (s.page_tables + 255) target i d s.words })
linked-IsKernel s m target i d k out out_new =
    let s1 : Paging = record s {
      pmm = m;
      words = poke (s.page_tables + 255) 513 (i * 4096 + 3) s.words;
    } in
    let k1 : IsKernel s1 =
      poke-IsKernel (record s { pmm = m }) 255 513 (i * 4096 + 3) (omega arith)
        (record { apart = k.apart; linked = k.linked }) in
    let s2 : Paging = record s1 { words = clear_page i s1.words } in
    let s3 : Paging = record s2 { words = poke target d (i * 4096 + 7) s2.words } in
    poke-IsKernel s3 255 513 0 (omega arith)
      (outside-IsKernel s2 target d (i * 4096 + 7) out (clear-IsKernel s1 i out_new k1))

user_table_missing :
    (virt : ℕ) (s : Paging) (target i : ℕ) (m : Pmm)
    → IsKernel s
    → s.words (s.page_tables + 255) 512 ≡ target * 4096 + 3
    → is_present (s.words target (pd_index virt)) ≡ false
    → pmm_alloc_page s.pmm ≡ (i * 4096, m)
    → IsOutside s i
    → user_table virt s ≡ record s {
      pmm = m;
      words = linked_words (s.page_tables + 255) target i (pd_index virt) s.words;
    }
unfolding user_table link_new_table paging_unmap_page
user_table_missing virt s target i m k e p alloc out =
    let s1 : Paging = record s { pmm = m } in
    let k1 : IsKernel s1 = record { apart = k.apart; linked = k.linked } in
    let s2 : Paging = record s1 { words = poke (s.page_tables + 255) 513 (i * 4096 + 3) s.words } in
    let k2 : IsKernel s2 = poke-IsKernel s1 255 513 (i * 4096 + 3) (omega arith) k1 in
    let s3 : Paging = record s2 { words = clear_page i s2.words } in
    let k3 : IsKernel s3 = clear-IsKernel s2 i out k2 in
    let flags : i * 4096 + page_present + page_write + page_user ≡ i * 4096 + 7 = omega arith in
    rw (
      window-pd s target k e,
      p,
      alloc,
      map_pt_eq s1 i k1,
      window-pt s2 i k2 (ground arith),
      window-pd s3 target k3 (ground (arith, out, e)),
      flags,
    )

-- The words behind `paging_map_user` with a new table.
abbrev fresh_words : (a target i d p e : ℕ) → (ℕ → ℕ → ℕ) → ℕ → ℕ → ℕ
fresh_words a target i d p e w = poke a 512 0 (
    poke a 513 0 (
      poke i p e
        (poke a 513 (i * 4096 + 3) (linked_words a target i d (poke a 512 (target * 4096 + 3) w)))))

map_user_missing :
    (target virt phys flags i : ℕ) (m : Pmm) (s : Paging)
    → IsKernel s
    → IsOutside s target
    → is_present (s.words target (pd_index virt)) ≡ false
    → pmm_alloc_page s.pmm ≡ (i * 4096, m)
    → IsOutside s i
    → i ≢ target
    → paging_map_user (target * 4096) virt phys flags s ≡ record s {
      pmm = m;
      words =
          fresh_words
            (s.page_tables + 255)
            target
            i
            (pd_index virt)
            (pt_index virt)
            (phys / 4096 * 4096 + final_flags virt flags % 4096)
            s.words;
    }
unfolding paging_map_user paging_unmap_page
map_user_missing target virt phys flags i m s k out p alloc out_new ne =
    let a : ℕ = s.page_tables + 255 in
    let s1 : Paging = record s { words = poke a 512 (target * 4096 + 3) s.words } in
    let k1 : IsKernel s1 = poke-IsKernel s 255 512 (target * 4096 + 3) (omega arith) k in
    let s2 : Paging = record s1 {
      pmm = m;
      words = linked_words a target i (pd_index virt) s1.words;
    } in
    let k2 : IsKernel s2 = linked-IsKernel s1 m target i (pd_index virt) k1 out out_new in
    rw (
      map_pd_eq s target k,
      user_table_missing virt s1 target i m k1 (ground arith) (ground (arith, out, p)) alloc
          out_new,
      write_user_entry_lem virt phys flags s2 target i k2 (ground (arith, out, out_new))
          (ground (arith, out, ne)),
    )

read_fresh :
    (a target i d p e k : ℕ) (w : ℕ → ℕ → ℕ)
    → i ≢ a
    → i ≢ target
    → fresh_words a target i d p e w i k ≡ (if p == k then e else 0)
read_fresh a target i d p e k w ne ne' = ground arith

read_link :
    (a target i d p e : ℕ) (w : ℕ → ℕ → ℕ)
    → target ≢ a
    → i ≢ target
    → fresh_words a target i d p e w target d ≡ i * 4096 + 7
read_link a target i d p e w ne ne' = ground arith

-- What the processor finds through a directory's entry for a table that holds one entry.
walk_one :
    (w : ℕ → ℕ → ℕ) (pd v d p i e : ℕ)
    → pd_index v ≡ d
    → w pd d ≡ i * 4096 + 7
    → w i (pt_index v) ≡ (if p == pt_index v then e else 0)
    → is_present e ≡ true
    → walk w pd v ≡ (if p == pt_index v then some e else none)
walk_one w pd v d p i e e1 e2 e3 there =
    let e4 : (i * 4096 + 7) / 4096 ≡ i = omega arith in
    let e5 : is_present (i * 4096 + 7) ≡ true = ground arith in
    elim (Bool-cases (p == pt_index v)) [
      | inl e6 ↦ rw (e1, e2, e4, e5, e3, e6, there)
      | inr e6 ↦ rw (e1, e2, e4, e5, e3, e6)
    ]

-- Where the target has no page table for the address, `paging_map_user` takes a free page for one, clears it and
-- links it: in the 4 MB around the address the processor then finds the one page and nothing else. Memory is
-- not full, each of the kernel's tables is in its place, they and the target are marked as in use, and the
-- target is none of them.
pub walk-paging_map_user_new :
    (target virt phys flags v : ℕ) (s : Paging)
    → IsKernel s
    → IsReserved s
    → IsValid s.pmm
    → bm_test s.pmm target ≡ true
    → IsOutside s target
    → is_present (s.words target (pd_index virt)) ≡ false
    → (pmm_alloc_page s.pmm).0 ≢ 0
    → pd_index v ≡ pd_index virt
    → walk (paging_map_user (target * 4096) virt phys flags s).words target v ≡ (
        if pt_index virt == pt_index v
        then some (phys / 4096 * 4096 + final_flags virt flags % 4096)
        else none)
walk-paging_map_user_new target virt phys flags v s k r valid used out p room near =
    elim (pmm_alloc_page_lem valid) [
      | inl (none_left, full) ↦ absurd (room (ap (λ (x : ℕ × Pmm). x.0) none_left))
      | inr (i, got) ↦ at_page i got
    ]
  where
    at_page :
        (i : ℕ)
        → Allocated s.pmm (pmm_alloc_page s.pmm) i
        → walk (paging_map_user (target * 4096) virt phys flags s).words target v ≡ (
            if pt_index virt == pt_index v
            then some (phys / 4096 * 4096 + final_flags virt flags % 4096)
            else none)
    at_page i got =
        let out_new : IsOutside s i = free-IsOutside s i r got.was_free in
        let ne : i ≢ target = λ e. absurd (ground (arith, got.was_free, used, e)) in
        let a : ℕ = s.page_tables + 255 in
        let e : ℕ = phys / 4096 * 4096 + final_flags virt flags % 4096 in
        let alloc : pmm_alloc_page s.pmm ≡ (i * 4096, (pmm_alloc_page s.pmm).1) =
          ap (λ n. (n, (pmm_alloc_page s.pmm).1)) got.address in
        rw
          (map_user_missing target virt phys flags i (pmm_alloc_page s.pmm).1 s k out p alloc
            out_new ne)
          (walk_one (fresh_words a target i (pd_index virt) (pt_index virt) e s.words) target v
            (pd_index virt) (pt_index virt) i e near
            (read_link a target i (pd_index virt) (pt_index virt) e s.words (omega (arith, out)) ne)
            (read_fresh a target i (pd_index virt) (pt_index virt) e (pt_index v) s.words
              (omega (arith, out_new)) ne)
            (present_entry virt phys flags))
