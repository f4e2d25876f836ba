-- ===== src/Heap/Tests.antt =====
-- The heap of src/heap.c at concrete inputs.
use microkernel_os.Prelude.{◌+◌, ◌≤◌, ◌≡◌, ◌⊎◌, refl, true, false, some, List, [], ◌∷◌, arith}
use microkernel_os.Heap.{Heap, header_size, heap_init, find_fit, split_block, kmalloc, kfree}
use microkernel_os.Heap.Blocks.{Block, alloc, release, coalesce, IsUsed, here}
use microkernel_os.Heap.Refines.{IsHeap, Answer, heap_init-IsHeap, kmalloc-Answer}
use microkernel_os.Heap.Live.{IsAt, at_head, in_tail}
use microkernel_os.Heap.Client.{kfree-kmalloc, kmalloc-apart, kfree-keeps}
use microkernel_os.Heap.Runs.{
  malloc, free, run, run_blocks, serve_blocks, done, mallocs, frees, run-IsHeap,
}

abbrev no_heap : Heap
no_heap = record {
  header = λ x. record { magic = 0; size = 0; free = false; next = 0; prev = 0 };
  bytes = λ x. 0;
  heap_start = 0;
  heap_total = 0;
}

-- A fresh heap of 1000 bytes, and its only block.
abbrev fresh : Heap
fresh = heap_init 4096 1000 no_heap

abbrev one_block : List Block
one_block = record { size = 980; free = true } ∷ []

fresh-IsHeap : IsHeap fresh one_block
fresh-IsHeap = heap_init-IsHeap 4096 1000 no_heap (omega arith) (omega arith) (omega arith)

-- The blocks after a request of 10 bytes.
abbrev two_blocks : List Block
two_blocks = record { size = 16; free = false } ∷ record { size = 944; free = true } ∷ []

abbrev busy : Heap
busy = (kmalloc 10 fresh).1

busy-IsHeap : IsHeap busy two_blocks
unfolding heap_init alloc
busy-IsHeap =
    let a : Answer (some (4096, two_blocks)) fresh (kmalloc 10 fresh) =
      kmalloc-Answer 10 fresh one_block fresh-IsHeap (ground arith) in
    a.1

first-IsUsed : IsUsed 4096 4096 two_blocks
first-IsUsed = here refl

busy_start : busy.heap_start ≡ 4096
unfolding heap_init kmalloc find_fit split_block
busy_start = refl

-- What a second request gets.
second : (kmalloc 20 busy).0 ≡ 4152
unfolding heap_init kmalloc find_fit split_block
second = refl

kmalloc-Answer_example :
    Answer
      (some (
        4132,
        record { size = 16; free = false }
            ∷ record { size = 24; free = false }
            ∷ record { size = 900; free = true }
            ∷ [],
      ))
      busy
      (kmalloc 20 busy)
unfolding heap_init alloc kmalloc find_fit split_block
kmalloc-Answer_example = kmalloc-Answer 20 busy two_blocks busy-IsHeap (ground arith)

kfree-kmalloc_example : IsHeap (kfree (kmalloc 20 busy).0 (kmalloc 20 busy).1) two_blocks
kfree-kmalloc_example = kfree-kmalloc 20 busy two_blocks busy-IsHeap (ground arith)

kmalloc-apart_example :
    ((kmalloc 20 busy).0 + 20 ≤ 4096) ⊎ (4132 + header_size ≤ (kmalloc 20 busy).0)
unfolding heap_init kmalloc find_fit split_block
kmalloc-apart_example =
    kmalloc-apart 20 busy two_blocks busy-IsHeap (ground arith) (omega arith)
      (ground (arith, second)) 4096 (record { size = 16; free = false }) refl at_head

-- Three blocks of which the first two are in use.
abbrev three_blocks : List Block
three_blocks =
    record { size = 16; free = false }
    ∷ record { size = 24; free = false }
    ∷ record { size = 900; free = true }
    ∷ []

abbrev full : Heap
full = (kmalloc 20 busy).1

full-IsHeap : IsHeap full three_blocks
unfolding heap_init alloc kmalloc find_fit split_block
full-IsHeap =
    let a : Answer (some (4132, three_blocks)) busy (kmalloc 20 busy) =
      kmalloc-Answer 20 busy two_blocks busy-IsHeap (ground arith) in
    a.1

kfree-keeps_example :
    (bs' : List Block) × (IsHeap (kfree 4116 full) bs'
      × IsAt 4132 (record { size = 24; free = false }) full.heap_start bs')
unfolding heap_init kmalloc find_fit split_block
kfree-keeps_example =
    kfree-keeps 4096 full three_blocks full-IsHeap (here refl) 4132
      (record { size = 24; free = false }) refl (ground arith) (in_tail at_head)

run-IsHeap_example : IsHeap (run (malloc 10 ∷ free 4096 ∷ []) fresh) one_block
unfolding heap_init run_blocks serve_blocks alloc release coalesce
run-IsHeap_example =
    run-IsHeap (malloc 10 ∷ free 4096 ∷ []) fresh one_block (mallocs (frees (here refl) done))
      fresh-IsHeap
