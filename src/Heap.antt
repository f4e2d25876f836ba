-- ===== src/Heap.antt =====
-- The kernel's heap, src/heap.c: blocks in one range of memory, each behind a header of 20 bytes that
-- links it to its neighbours. `header` is what the memory holds where a header may stand, and `bytes`
-- the rest of it; no block's bytes are where a header is.
pub mod Blocks
pub mod Chain
pub mod Alloc
pub mod Search
pub mod Merge
pub mod Release
pub mod Merged
pub mod Refines
pub mod Live
pub mod Space
pub mod Client
pub mod Runs
mod Tests
use microkernel_os.Prelude.{
  ℕ, zero, suc, ◌+◌, ◌-◌, ◌*◌, ◌/◌, ◌%◌, ◌^◌, ◌≤◌, ◌<◌, ◌≡◌, ◌≢◌, ◌⊎◌, ◌↔◌, ◌∙◌, refl, sym, ap,
  fun_ext, Bool, true, false, not, ◌&&◌, ◌||◌, Option, none, some, List, [], ◌∷◌, ◌++◌, map, inl,
  inr, arith, ltb, leb, ◌==◌, if◌then◌else◌, Bool-cases, Option-cases, Table, update, first_from,
  count_from, for_range, IsFirst, first_from-IsFirst, first_from-none, first_from_eq,
  first_from_congr, count_from_congr, count_from-flip, count_from-le, count_from-lt_of_miss,
  count_from_all, for_range_inv, below_suc, length, get_or, take, drop, replicate, length-append,
  length-replicate, length-drop, lt→ltb, leb→le, ltb→lt, ==_iff, if-intro, option_case,
  option_case-intro,
}

-- `sizeof(block_header_t)` on a 32-bit machine
abbrev pub header_size : ℕ
header_size = 20

abbrev pub heap_magic : ℕ
heap_magic = 0xDEADBEEF

-- `block_header_t`
pub record Header : Type 0 where
  pub magic : ℕ
  pub size : ℕ
  pub free : Bool
  pub next : ℕ
  pub prev : ℕ

pub record Heap : Type 0 where
  pub header : Table Header
  pub bytes : Table ℕ
  pub heap_start : ℕ
  pub heap_total : ℕ

unfoldable pub heap_init : (start size : ℕ) → Heap → Heap
heap_init start size h = record h {
  header = update h.header start (record {
    magic = heap_magic;
    size = (size + 2 ^ 32 - header_size) % 2 ^ 32;
    free = true;
    next = 0;
    prev = 0;
  });
  heap_start = start;
  heap_total = size;
}

-- Single assignments through a header pointer.
abbrev pub set_size : ℕ → ℕ → Table Header → Table Header
set_size p v m = let b : Header = m p in update m p (record b { size = v })

abbrev pub set_free : ℕ → Bool → Table Header → Table Header
set_free p v m = let b : Header = m p in update m p (record b { free = v })

abbrev pub set_next : ℕ → ℕ → Table Header → Table Header
set_next p v m = let b : Header = m p in update m p (record b { next = v })

abbrev pub set_prev : ℕ → ℕ → Table Header → Table Header
set_prev p v m = let b : Header = m p in update m p (record b { prev = v })

unfoldable pub split_block : (block size : ℕ) → Table Header → Table Header
split_block block size m =
    let b : Header = m block in
    let new_block : ℕ = (block + header_size + size) % 2 ^ 32 in
    let m1 = update m new_block (record {
      magic = heap_magic;
      size = (b.size + 2 ^ 33 - size - header_size) % 2 ^ 32;
      free = true;
      next = b.next;
      prev = block;
    }) in
    let m2 = if b.next == 0 then m1 else set_prev b.next new_block m1 in
    if ltb b.size ((size + header_size + 16) % 2 ^ 32)
    then m
    else set_size block size (set_next block new_block m2)

-- One round of the loop of `merge_free`.
pub absorb : (block : ℕ) → Table Header → Table Header
absorb block m =
    let b : Header = m block in
    let c : Header = m b.next in
    let m1 = set_next block c.next (set_size block ((b.size + header_size + c.size) % 2 ^ 32) m) in
    if c.next == 0 then m1 else set_prev c.next block m1

-- The loop of `merge_free`; each round takes a block away.
pub merge_free : (fuel block : ℕ) → Table Header → Table Header
merge_free zero block m = m
merge_free (suc fuel) block m =
    let rest = merge_free fuel block (absorb block m) in
    if not ((m block).next == 0) && (m (m block).next).free then rest else m

-- The loop of `kmalloc`: the first free block that is large enough.
unfoldable pub find_fit : (fuel : ℕ) → Table Header → (size curr : ℕ) → Option ℕ
find_fit zero m size curr = none
find_fit (suc fuel) m size curr =
    let rest = find_fit fuel m size (m curr).next in
    if curr == 0 then none else if (m curr).free && leb size (m curr).size then some curr else rest

-- `(size + 7) & ~7`
abbrev pub round_up : ℕ → ℕ
round_up size = (size + 7) % 2 ^ 32 / 8 * 8

-- What `kmalloc` does to the headers when it takes a block.
abbrev pub take_block : (block size : ℕ) → Table Header → Table Header
take_block block size m = set_free block false (split_block block size m)

-- The heap has at most one block for each of its bytes, so its size is fuel enough.
unfoldable pub kmalloc : ℕ → Heap → ℕ × Heap
kmalloc size h =
    if size == 0
    then (0, h)
    else option_case (find_fit h.heap_total h.header (round_up size) h.heap_start) (0, h)
        (λ curr. (
          (curr + header_size) % 2 ^ 32,
          record h { header = take_block curr (round_up size) h.header },
        ))

unfoldable pub kcalloc : (count size : ℕ) → Heap → ℕ × Heap
kcalloc count size h =
    let n : ℕ = count * size % 2 ^ 32 in
    let (ptr, h') = kmalloc n h in
    if ptr == 0
    then (ptr, h')
    else (ptr, record h' { bytes = λ x. if leb ptr x && ltb x (ptr + n) then 0 else h'.bytes x })

-- What `kfree` does to the headers at a block.
pub release_block : (fuel block : ℕ) → Table Header → Table Header
release_block fuel block m =
    let m1 = set_free block true m in
    let before : ℕ = (m1 block).prev in
    merge_free fuel (if not (before == 0) && (m1 before).free then before else block) m1

unfoldable pub kfree : ℕ → Heap → Heap
kfree ptr h =
    let block : ℕ = (ptr + 2 ^ 32 - header_size) % 2 ^ 32 in
    if ptr == 0
    then h
    else if not ((h.header block).magic == heap_magic)
    then h
    else record h { header = release_block h.heap_total block h.header }

-- The loops of `heap_free_space` and `heap_used_space`: the sizes of the blocks with the given flag.
unfoldable pub sum_sizes : (fuel : ℕ) → Table Header → Bool → (curr total : ℕ) → ℕ
sum_sizes zero m flag curr total = total
sum_sizes (suc fuel) m flag curr total =
    let b : Header = m curr in
    let hit : Bool = if flag then b.free else not b.free in
    let rest = sum_sizes fuel m flag b.next (if hit then (total + b.size) % 2 ^ 32 else total) in
    if curr == 0 then total else rest

unfoldable pub heap_free_space : Heap → ℕ
heap_free_space h = sum_sizes h.heap_total h.header true h.heap_start 0

unfoldable pub heap_used_space : Heap → ℕ
heap_used_space h = sum_sizes h.heap_total h.header false h.heap_start 0
