-- ===== src/Pmm.antt =====
-- The physical memory manager, src/pmm.c and include/pmm.h: one bit for each 4 KB page.
-- The static variables are a record, and a function that changes them returns the new one. The
-- counters are `uint32_t` and wrap; a page address is a number, and 0 is NULL.
pub mod Bitmap
pub mod Invariant
pub mod Alloc
pub mod Ranges
mod Tests
use microkernel_os.Prelude.{
  ℕ, ◌+◌, ◌-◌, ◌*◌, ◌/◌, ◌%◌, ◌^◌, Bool, true, false, none, some, not, ◌&&◌, ltb, if◌then◌else◌,
  Table, update, first_from, for_range,
}
use microkernel_os.Prelude.Bits.{test_bit, set_bit, clear_bit}

abbrev pub page_size : ℕ
page_size = 4096

abbrev pub max_pages : ℕ
max_pages = 1024 * 256

abbrev pub bitmap_size : ℕ
bitmap_size = max_pages / 32

pub record Pmm : Type 0 where
  pub bitmap : Table ℕ
  pub total_pages : ℕ
  pub used_pages : ℕ

pub bm_set : Pmm → ℕ → Pmm
bm_set m p = record m { bitmap = update m.bitmap (p / 32) (set_bit (m.bitmap (p / 32)) (p % 32)) }

pub bm_clear : Pmm → ℕ → Pmm
bm_clear m p = record m {
  bitmap = update m.bitmap (p / 32) (clear_bit (m.bitmap (p / 32)) (p % 32));
}

unfoldable pub bm_test : Pmm → ℕ → Bool
bm_test m p = test_bit (m.bitmap (p / 32)) (p % 32)

-- `used_pages++` and `used_pages--`
abbrev pub used_inc : Pmm → Pmm
used_inc m = record m { used_pages = (m.used_pages + 1) % 2 ^ 32 }

abbrev pub used_dec : Pmm → Pmm
used_dec m = record m { used_pages = (m.used_pages + (2 ^ 32 - 1)) % 2 ^ 32 }

-- The body of the second loop of `pmm_init`.
pub release_page : ℕ → Pmm → Pmm
release_page i m = used_dec (bm_clear m i)

-- The first page behind `_kernel_end`.
abbrev pub kernel_pages : ℕ → ℕ
kernel_pages kernel_end = (kernel_end + page_size - 1) % 2 ^ 32 / page_size

-- The state behind the first loop of `pmm_init`: every page is in use.
pub reserve_all : Pmm → ℕ → Pmm
reserve_all m mem_size_kb =
    let total = mem_size_kb / 4 in
    let capped = if ltb max_pages total then max_pages else total in
    let fill = for_range bitmap_size 0 (λ i (b : Table ℕ). update b i (2 ^ 32 - 1)) m.bitmap in
    record m { bitmap = fill; total_pages = capped; used_pages = capped }

-- `kernel_end` is the address of the linker's symbol `_kernel_end`.
pub pmm_init : (kernel_end : ℕ) → Pmm → (mem_size_kb : ℕ) → Pmm
pmm_init kernel_end m mem_size_kb =
    let s = reserve_all m mem_size_kb in
    let start = kernel_pages kernel_end in for_range (s.total_pages - start) start release_page s

unfoldable pub pmm_alloc_page : Pmm → ℕ × Pmm
pmm_alloc_page m = elim (first_from m.total_pages 0 (λ i. not (bm_test m i))) [
  | none ↦ (0, m)
  | some i ↦ (i * page_size % 2 ^ 32, used_inc (bm_set m i))
]

pub pmm_free_page : Pmm → ℕ → Pmm
pmm_free_page m addr =
    let page = addr / page_size in
    if ltb page m.total_pages && bm_test m page then used_dec (bm_clear m page) else m

-- The body of the loop of `pmm_reserve_range`.
pub reserve_page : ℕ → Pmm → Pmm
reserve_page i m = if bm_test m i then m else used_inc (bm_set m i)

-- The page behind the range. Both sums are of `uint32_t`.
abbrev pub last_page : Pmm → ℕ → ℕ → ℕ
last_page m start_addr size =
    let last = (start_addr + size + page_size - 1) % 2 ^ 32 / page_size in
    if ltb m.total_pages last then m.total_pages else last

pub pmm_reserve_range : Pmm → ℕ → ℕ → Pmm
pmm_reserve_range m start_addr size =
    let first = start_addr / page_size in
    for_range (last_page m start_addr size - first) first reserve_page m

unfoldable pub pmm_get_free_pages : Pmm → ℕ
pmm_get_free_pages m = (m.total_pages + 2 ^ 32 - m.used_pages) % 2 ^ 32

pub pmm_get_total_pages : Pmm → ℕ
pmm_get_total_pages m = m.total_pages

pub pmm_get_used_pages : Pmm → ℕ
pmm_get_used_pages m = m.used_pages
