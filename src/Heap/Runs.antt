-- ===== src/Heap/Runs.antt =====
-- Any sequence of calls of `kmalloc` and `kfree` in src/heap.c does what it does to the list of blocks.
use microkernel_os.Prelude.{
  ℕ, ◌+◌, ◌≡◌, ◌∙◌, refl, Option, none, some, List, [], ◌∷◌, inl, inr, arith, ◌==◌, if◌then◌else◌,
  Bool-cases, option_case,
}
use microkernel_os.Heap.{Heap, header_size, round_up, kmalloc, kfree}
use microkernel_os.Heap.Blocks.{Block, release, alloc, IsUsed}
use microkernel_os.Heap.Refines.{
  IsHeap, Answer, kmalloc-Answer, kmalloc_zero, kfree-IsHeap, kmalloc-heap_start, kfree-heap_start,
}

-- A call; `free t` frees the block whose header stands at `t`.
pub data Request : Type 0 where
  malloc : ℕ → Request
  free : ℕ → Request

unfoldable pub serve : Request → Heap → Heap
serve (malloc size) h = (kmalloc size h).1
serve (free t) h = kfree (t + header_size) h

unfoldable pub serve_blocks : (start : ℕ) → Request → List Block → List Block
serve_blocks start (malloc size) bs =
    if size == 0 then bs else option_case (alloc (round_up size) start bs) bs (λ r. r.1)
serve_blocks start (free t) bs = release t start bs

unfoldable pub run : List Request → Heap → Heap
run [] h = h
run (r ∷ rs) h = run rs (serve r h)

unfoldable pub run_blocks : (start : ℕ) → List Request → List Block → List Block
run_blocks start [] bs = bs
run_blocks start (r ∷ rs) bs = run_blocks start rs (serve_blocks start r bs)

-- The requests free blocks in use only.
pub data IsProper (start : ℕ) : List Request → List Block → Type 0 where
  done : {bs : List Block} → IsProper start [] bs
  mallocs :
      {size : ℕ} {rs : List Request} {bs : List Block}
      → IsProper start rs (serve_blocks start (malloc size) bs)
      → IsProper start (malloc size ∷ rs) bs
  frees :
      {t : ℕ} {rs : List Request} {bs : List Block}
      → IsUsed t start bs
      → IsProper start rs (serve_blocks start (free t) bs)
      → IsProper start (free t ∷ rs) bs

Answer-IsHeap :
    (h : Heap) (bs : List Block) (o : Option (ℕ × List Block)) (r : ℕ × Heap)
    → IsHeap h bs
    → Answer o h r
    → IsHeap r.1 (option_case o bs (λ s. s.1))
Answer-IsHeap h bs none r v e = rw e v
Answer-IsHeap h bs (some s) r v a = a.1

serve-IsHeap_malloc :
    (size : ℕ) (h : Heap) (bs : List Block)
    → IsHeap h bs
    → IsHeap (kmalloc size h).1 (serve_blocks h.heap_start (malloc size) bs)
unfolding serve_blocks
serve-IsHeap_malloc size h bs v = elim (Bool-cases (size == 0)) [
  | inl e ↦ rw (kmalloc_zero size h e) (rw e v)
  | inr e ↦ rw e (
      Answer-IsHeap h bs (alloc (round_up size) h.heap_start bs) (kmalloc size h) v
        (kmalloc-Answer size h bs v (ground (arith, e))))
]

run_lem :
    (start : ℕ) (rs : List Request) (h : Heap) (bs : List Block)
    → h.heap_start ≡ start
    → IsProper start rs bs
    → IsHeap h bs
    → IsHeap (run rs h) (run_blocks start rs bs)
unfolding run run_blocks serve serve_blocks
run_lem start [] h bs e p v = v
run_lem start (malloc size ∷ rs) h bs e (mallocs p) v =
    run_lem start rs (kmalloc size h).1 _ (kmalloc-heap_start size h ∙ e) p
      (rw (← e) (serve-IsHeap_malloc size h bs v))
run_lem start (free t ∷ rs) h bs e (frees u p) v =
    run_lem start rs (kfree (t + header_size) h) _ (kfree-heap_start (t + header_size) h ∙ e) p
      (rw (← e) (kfree-IsHeap t h bs v (rw e u)))

-- From memory that holds a list of blocks, a whole run of calls, each `kfree` of a block in use, leaves the
-- memory as the blocks that the run on the list leaves.
pub run-IsHeap :
    (rs : List Request) (h : Heap) (bs : List Block)
    → IsProper h.heap_start rs bs
    → IsHeap h bs
    → IsHeap (run rs h) (run_blocks h.heap_start rs bs)
run-IsHeap rs h bs p v = run_lem h.heap_start rs h bs refl p v
