-- ===== src/Paging/Words.antt =====
-- Two-level translation, as the processor does it, and the loops that fill tables.
use microkernel_os.Prelude.{
  ℕ, ◌+◌, ◌*◌, ◌/◌, ◌≤◌, ◌<◌, ◌≡◌, ◌≢◌, ◌⊎◌, ◌∙◌, ◌&&◌, Option, none, some, inl, inr, arith, ltb,
  ◌==◌, if◌then◌else◌, Bool-cases, for_range, for_range_inv,
}
use microkernel_os.Paging.{is_present, pd_index, pt_index, init_entry, init_table, clear_page}

-- The page-table entry that the directory in page frame `pd` gives for an address.
abbrev pub walk : (ℕ → ℕ → ℕ) → (pd virt : ℕ) → Option ℕ
walk w pd virt =
    let pde : ℕ = w pd (pd_index virt) in
    let pte : ℕ = w (pde / 4096) (pt_index virt) in
    if is_present pde && is_present pte then some pte else none

-- The entry for page `i` in the tables that map each page of memory to itself.
abbrev pub own_entry : (ram i : ℕ) → ℕ
own_entry ram i = if ltb i ram then i * 4096 + 7 else 0

-- The words that the inner loop of `paging_init` leaves.
init_entry_lem :
    (tables ram t f k : ℕ) (w : ℕ → ℕ → ℕ)
    → for_range 1024 0 (init_entry tables ram t) (clear_page (tables + t) w) f k ≡ (
        if tables + t == f then (if ltb k 1024 then own_entry ram (t * 1024 + k) else 0) else w f k)
unfolding init_entry
init_entry_lem tables ram t f k w =
    for_range_inv
      (λ n (v : ℕ → ℕ → ℕ). v f k ≡ (
        if tables + t == f then (if ltb k n then own_entry ram (t * 1024 + k) else 0) else w f k))
      (init_entry tables ram t) 1024 0 (clear_page (tables + t) w)
      (λ n v lo hi h. ground (arith, h)) (ground arith)

-- The page frames of the directory and of the tables are apart.
abbrev pub IsLayout : (directory tables : ℕ) → Type 0
IsLayout directory tables = (directory < tables) ⊎ (tables + 1024 ≤ directory)

init_table_lem :
    (directory tables ram t f k : ℕ) (w : ℕ → ℕ → ℕ)
    → k < 1024
    → directory ≢ tables + t
    → init_table directory tables ram t w f k ≡ (
        if directory == f && t == k
        then (tables + t) * 4096 + 7
        else if tables + t == f
        then own_entry ram (t * 1024 + k)
        else w f k)
unfolding init_table
init_table_lem directory tables ram t f k w lt ne =
    ground (arith, init_entry_lem tables ram t f k w)

-- The entries of the directory that `paging_init` leaves.
pub init-directory :
    (directory tables ram t : ℕ) (w : ℕ → ℕ → ℕ)
    → IsLayout directory tables
    → t < 1024
    → for_range 1024 0 (init_table directory tables ram) (clear_page directory w) directory t
      ≡ (tables + t) * 4096 + 7
init-directory directory tables ram t w apart lt =
    for_range_inv (λ n (v : ℕ → ℕ → ℕ). t < n → v directory t ≡ (tables + t) * 4096 + 7)
      (init_table directory tables ram) 1024 0 (clear_page directory w)
      (λ n v lo hi h below.
        ground (arith, h, init_table_lem directory tables ram n directory t v lt))
      (λ below. absurd (omega arith)) lt

init-tables_step :
    (directory tables ram t k n : ℕ) (v : ℕ → ℕ → ℕ)
    → IsLayout directory tables
    → t < 1024
    → k < 1024
    → n < 1024
    → (t < n → v (tables + t) k ≡ own_entry ram (t * 1024 + k))
    → t < n + 1
    → init_table directory tables ram n v (tables + t) k ≡ own_entry ram (t * 1024 + k)
init-tables_step directory tables ram t k n v apart lt small hi h below =
    elim (Bool-cases (n == t)) [
      | inl e ↦
          let e' : n ≡ t = ground arith in
          rw e' (
            init_table_lem directory tables ram t (tables + t) k v small (omega arith)
            ∙ ground arith)
      | inr e ↦
          init_table_lem directory tables ram n (tables + t) k v small (omega arith)
          ∙ ground (arith, h)
    ]

-- The entries of its tables.
pub init-tables :
    (directory tables ram t k : ℕ) (w : ℕ → ℕ → ℕ)
    → IsLayout directory tables
    → t < 1024
    → k < 1024
    → for_range 1024 0 (init_table directory tables ram) (clear_page directory w) (tables + t) k
      ≡ own_entry ram (t * 1024 + k)
init-tables directory tables ram t k w apart lt small =
    for_range_inv (λ n (v : ℕ → ℕ → ℕ). t < n → v (tables + t) k ≡ own_entry ram (t * 1024 + k))
      (init_table directory tables ram) 1024 0 (clear_page directory w)
      (λ n v lo hi h below. init-tables_step directory tables ram t k n v apart lt small hi h below)
      (λ below. absurd (omega arith)) lt
