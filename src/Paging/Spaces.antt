-- ===== src/Paging/Spaces.antt =====
-- Address spaces of src/paging.c: `paging_create_address_space` copies the kernel's tables,
-- `paging_create_isolated_space` shares them, and `paging_destroy_address_space` gives a space back.
pub mod Isolated
pub mod Clone
pub mod Create
pub mod Created
use microkernel_os.Prelude.{
  ℕ, zero, suc, ◌+◌, ◌-◌, ◌*◌, ◌/◌, ◌%◌, ◌^◌, ◌≤◌, ◌<◌, ◌≡◌, ◌≢◌, ◌⊎◌, ◌↔◌, ◌∙◌, refl, sym, ap,
  fun_ext, Bool, true, false, not, ◌&&◌, ◌||◌, Option, none, some, List, [], ◌∷◌, ◌++◌, map, inl,
  inr, arith, ltb, leb, ◌==◌, if◌then◌else◌, Bool-cases, Option-cases, Table, update, first_from,
  count_from, for_range, IsFirst, first_from-IsFirst, first_from-none, first_from_eq,
  first_from_congr, count_from_congr, count_from-flip, count_from-le, count_from-lt_of_miss,
  count_from_all, for_range_inv, below_suc, length, get_or, take, drop, replicate, length-append,
  length-replicate, length-drop, lt→ltb, leb→le, ltb→lt, ==_iff, if-intro, option_case,
  option_case-intro,
}
use microkernel_os.Pmm.{Pmm, pmm_alloc_page, pmm_free_page}
use microkernel_os.Paging.{Paging, page_present, page_write, page_user, or_flag, is_present, poke}

-- The body of the loop of `paging_create_isolated_space`.
pub share_entry : (directory pd i : ℕ) → (ℕ → ℕ → ℕ) → ℕ → ℕ → ℕ
share_entry directory pd i w =
    let w1 = poke pd i (w directory i) w in if leb 256 i && ltb i 768 then poke pd i 0 w1 else w1

-- `paging_create_isolated_space`: the kernel's directory without the entries 256 to 767.
unfoldable pub paging_create_isolated_space : Paging → ℕ × Paging
paging_create_isolated_space s =
    let (pd, m) = pmm_alloc_page s.pmm in
    if pd == 0 then (0, record s { pmm = m }) else (
      pd,
      record s {
        pmm = m;
        words = for_range 1024 0 (share_entry s.page_directory (pd / 4096)) s.words;
      },
    )

-- The body of the loop of `paging_destroy_address_space`, for the directory in page frame `pd`.
unfoldable pub release_table : (pd i : ℕ) → Paging → Paging
release_table pd i s =
    let e : ℕ = s.words pd i in
    let shared : ℕ = s.words s.page_directory i in
    if not (is_present e)
    then s
    else if e / 4096 == shared / 4096
    then s
    else record s { pmm = pmm_free_page s.pmm (e / 4096 * 4096) }

unfoldable pub paging_destroy_address_space : (pd : ℕ) → Paging → Paging
paging_destroy_address_space pd s =
    if pd == 0 || pd == s.page_directory * 4096
    then s
    else let t = for_range 1024 0 (release_table (pd / 4096)) s in
      record t { pmm = pmm_free_page t.pmm pd }

-- The copy of one page table by `paging_create_address_space`: present entries, with user access.
abbrev pub clone_entry : ℕ → ℕ
clone_entry e = if is_present e then or_flag page_user e else 0

unfoldable pub clone_table : (from to : ℕ) → (ℕ → ℕ → ℕ) → ℕ → ℕ → ℕ
clone_table from to w =
    for_range 1024 0 (λ j (v : ℕ → ℕ → ℕ). poke to j (clone_entry (v from j)) v) w

-- The tables that were made so far go back, when memory runs out.
unfoldable pub undo_clone : (pd i : ℕ) → Paging → Paging
undo_clone pd i s =
    for_range i 0
      (λ j (t : Paging).
        if is_present (t.words pd j)
        then record t { pmm = pmm_free_page t.pmm (t.words pd j / 4096 * 4096) }
        else t)
      s

-- The loop of `paging_create_address_space` from entry `i` on; it says whether it went through.
unfoldable pub clone_tables : (rounds i pd : ℕ) → Paging → Bool × Paging
clone_tables zero i pd s = (true, s)
clone_tables (suc rounds) i pd s =
    let (new_pt, m) = pmm_alloc_page s.pmm in
    let w = clone_table (s.page_tables + i) (new_pt / 4096) s.words in
    let next : Paging = record s {
      pmm = m;
      words = poke pd i (new_pt + page_present + page_write + page_user) w;
    } in
    let skipped = clone_tables rounds (i + 1) pd (record s { words = poke pd i 0 s.words }) in
    let cloned = clone_tables rounds (i + 1) pd next in
    if not (is_present (s.words s.page_directory i))
    then skipped
    else if new_pt == 0
    then (false, undo_clone pd i (record s { pmm = m }))
    else cloned

unfoldable pub paging_create_address_space : Paging → ℕ × Paging
paging_create_address_space s =
    let (pd, m) = pmm_alloc_page s.pmm in
    let out = clone_tables 1024 0 (pd / 4096) (record s { pmm = m }) in
    if pd == 0
    then (0, record s { pmm = m })
    else if out.0
    then (pd, out.1)
    else (0, record out.1 { pmm = pmm_free_page out.1.pmm pd })
