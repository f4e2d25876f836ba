-- ===== src/Heap/Refines.antt =====
-- `kmalloc` and `kfree` of src/heap.c do to the memory what `alloc` and `release` do to the list of blocks
-- that it holds.
use microkernel_os.Prelude.{
  ℕ, ◌+◌, ◌-◌, ◌%◌, ◌^◌, ◌≤◌, ◌<◌, ◌≡◌, ◌≢◌, ◌∙◌, refl, true, false, Option, none, some, List, [],
  ◌∷◌, inl, inr, arith, ◌==◌, Bool-cases, Option-cases, Table, length,
}
use microkernel_os.Heap.{
  Heap, Header, header_size, heap_magic, heap_init, take_block, find_fit, round_up, kmalloc,
  release_block, kfree,
}
use microkernel_os.Heap.Blocks.{Block, behind, alloc, release, IsMerged, IsUsed, here, later}
use microkernel_os.Heap.Chain.{link, IsChain, IsChain-le}
use microkernel_os.Heap.Search.{Agree, nowhere, at_block, find_fit-Agree}
use microkernel_os.Heap.Release.{release-IsRewrite, link-release}
use microkernel_os.Heap.Merged.{alloc-Takes, Takes-IsMerged, Takes-IsUsed, release-IsMerged}

-- The heap `h` is the list of blocks `bs`.
pub record IsHeap (h : Heap) (bs : List Block) : Type 0 where
  pub start : 16 ≤ h.heap_start
  pub range : h.heap_start + h.heap_total < 2 ^ 32
  pub head : link bs h.heap_start ≡ h.heap_start
  pub chain : IsChain h.header 0 h.heap_start bs (h.heap_start + h.heap_total)
  pub merged : IsMerged bs

-- What `kmalloc` answers when the search of the list gives this.
abbrev pub Answer : Option (ℕ × List Block) → Heap → ℕ × Heap → Type 0
Answer none h r = r ≡ (0, h)
Answer (some (t, bs)) h r = (r.0 ≡ t + header_size) × IsHeap r.1 bs

-- `heap_init` makes one free block of the range.
pub heap_init-IsHeap :
    (start size : ℕ) (h : Heap)
    → 16 ≤ start
    → header_size ≤ size
    → start + size < 2 ^ 32
    → IsHeap (heap_init start size h) (record { size = size - header_size; free = true } ∷ [])
unfolding heap_init
heap_init-IsHeap start size h lo room hi = record {
  start = lo;
  range = hi;
  head = refl;
  chain = (ground arith, omega arith);
  merged = (refl, tt);
}

pub blocks-le : (h : Heap) (bs : List Block) → IsHeap h bs → length bs ≤ h.heap_total
blocks-le h bs v = omega (arith, IsChain-le h.header 0 h.heap_start bs _ v.chain)

kmalloc_miss :
    (size : ℕ) (h : Heap)
    → find_fit h.heap_total h.header (round_up size) h.heap_start ≡ none
    → kmalloc size h ≡ (0, h)
unfolding kmalloc
kmalloc_miss size h e = rw e (ground arith)

pub kmalloc_zero : (size : ℕ) (h : Heap) → (size == 0) ≡ true → kmalloc size h ≡ (0, h)
unfolding kmalloc
kmalloc_zero size h e = rw e

kmalloc_hit :
    (size : ℕ) (h : Heap) (t : ℕ)
    → size ≢ 0
    → find_fit h.heap_total h.header (round_up size) h.heap_start ≡ some t
    → t + header_size < 2 ^ 32
    → kmalloc size h
      ≡ (t + header_size, record h { header = take_block t (round_up size) h.header })
unfolding kmalloc
kmalloc_hit size h t ne e lt =
    let e1 : (size == 0) ≡ false = ground arith in
    let e2 : (t + header_size) % 2 ^ 32 ≡ t + header_size = omega arith in rw (e1, e, e2)

-- The header of a block in use.
pub header-IsUsed :
    (m : Table Header) (prev a : ℕ) (bs : List Block) (stop t : ℕ)
    → IsChain m prev a bs stop
    → IsUsed t a bs
    → ((m t).magic ≡ heap_magic) × (t + header_size ≤ stop)
header-IsUsed m prev a [] stop t h u = elim u [ ]
header-IsUsed m prev a (b ∷ bs) stop t h (here e) =
    (rw h.0, omega (arith, IsChain-le m a (behind a b) bs stop h.1))
header-IsUsed m prev a (b ∷ bs) stop t h (later u) = header-IsUsed m a (behind a b) bs stop t h.1 u

-- In memory that holds a list of blocks, `kmalloc` of a size other than 0 takes the first free block that is
-- large enough for the size, rounded up to a multiple of 8 in 32 bits, and answers the address behind its
-- header; a larger block is cut, and where no block fits the answer is NULL and nothing changes.
pub kmalloc-Answer :
    (size : ℕ) (h : Heap) (bs : List Block)
    → IsHeap h bs
    → size ≢ 0
    → Answer (alloc (round_up size) h.heap_start bs) h (kmalloc size h)
kmalloc-Answer size h bs v ne = go (
    find_fit-Agree h.header h.heap_total (round_up size) 0 h.heap_start bs
      (h.heap_start + h.heap_total) (blocks-le h bs v) v.start v.range v.chain)
  where
    go :
        Agree h.header h.heap_total (round_up size) 0 h.heap_start bs (h.heap_start + h.heap_total)
        → Answer (alloc (round_up size) h.heap_start bs) h (kmalloc size h)
    go (nowhere e found) = rw e (kmalloc_miss size h (rw (← v.head) found))
    go (at_block t bs' e found same there) =
        let taken = alloc-Takes (round_up size) h.heap_start bs t bs' e in
        let u =
          header-IsUsed _ 0 h.heap_start bs' _ t there.0
            (Takes-IsUsed (round_up size) t h.heap_start bs bs' taken) in
        rw (e, kmalloc_hit size h t ne (rw (← v.head) found) (omega (arith, u.1, v.range)))
          (
            refl,
            record {
              start = v.start;
              range = v.range;
              head = same h.heap_start ∙ v.head;
              chain = there.0;
              merged = Takes-IsMerged (round_up size) t h.heap_start bs bs' taken v.merged;
            },
          )

-- The range of the heap stays.
pub kmalloc-heap_start : (size : ℕ) (h : Heap) → (kmalloc size h).1.heap_start ≡ h.heap_start
unfolding kmalloc
kmalloc-heap_start size h = elim (Bool-cases (size == 0)) [
  | inl e ↦ rw e
  | inr e ↦ elim (Option-cases (find_fit h.heap_total h.header (round_up size) h.heap_start)) [
    | inl f ↦ rw (e, f)
    | inr (t, f) ↦ rw (e, f)
  ]
]

kfree_hit :
    (t : ℕ) (h : Heap)
    → (h.header t).magic ≡ heap_magic
    → t + header_size < 2 ^ 32
    → kfree (t + header_size) h ≡ record h { header = release_block h.heap_total t h.header }
unfolding kfree
kfree_hit t h e lt =
    let e1 : (t + header_size + 2 ^ 32 - header_size) % 2 ^ 32 ≡ t = omega arith in
    let e2 : (t + header_size == 0) ≡ false = ground arith in rw (e1, e2, e)

release_head : (a : ℕ) (bs : List Block) (t : ℕ) → IsUsed t a bs → link (release t a bs) a ≡ a
release_head a [] t u = elim u [ ]
release_head a (b ∷ bs) t u = link-release a b bs a t u

pub kfree-heap_start : (ptr : ℕ) (h : Heap) → (kfree ptr h).heap_start ≡ h.heap_start
unfolding kfree
kfree-heap_start ptr h = ground arith

-- `kfree` of the address that `kmalloc` answered for a block in use makes the block free, and one with the
-- free blocks around it.
pub kfree-IsHeap :
    (t : ℕ) (h : Heap) (bs : List Block)
    → IsHeap h bs
    → IsUsed t h.heap_start bs
    → IsHeap (kfree (t + header_size) h) (release t h.heap_start bs)
kfree-IsHeap t h bs v u =
    let used = header-IsUsed h.header 0 h.heap_start bs _ t v.chain u in
    let there =
      release-IsRewrite h.header h.heap_total 0 h.heap_start bs (h.heap_start + h.heap_total) t
        (blocks-le h bs v) (omega (arith, v.start)) v.range (λ e. inl refl) v.chain u in
    rw (kfree_hit t h used.0 (omega (arith, used.1, v.range))) (record {
      start = v.start;
      range = v.range;
      head = release_head h.heap_start bs t u;
      chain = there.0;
      merged = release-IsMerged h.heap_start bs t u v.merged;
    })
