-- ===== src/Heap/Space.antt =====
-- `heap_free_space` and `heap_used_space` of src/heap.c: the bytes of the blocks in the list.
use microkernel_os.Prelude.{
  ℕ, zero, suc, ◌+◌, ◌*◌, ◌%◌, ◌^◌, ◌≤◌, ◌<◌, ◌≡◌, ◌≢◌, ◌∙◌, refl, Bool, true, false, not, List, [],
  ◌∷◌, arith, ◌==◌, if◌then◌else◌, Table, length,
}
use microkernel_os.Heap.{Header, Heap, header_size, sum_sizes, heap_free_space, heap_used_space}
use microkernel_os.Heap.Blocks.{Block, behind}
use microkernel_os.Heap.Chain.{link, IsChain, IsChain-le}
use microkernel_os.Heap.Refines.{IsHeap, blocks-le}

-- The sizes of the blocks with the given flag.
pub total : Bool → List Block → ℕ
total flag [] = 0
total flag (b ∷ bs) = (if (if flag then b.free else not b.free) then b.size else 0) + total flag bs

sum_sizes_null :
    (m : Table Header) (fuel : ℕ) (flag : Bool) (acc : ℕ) → sum_sizes fuel m flag 0 acc ≡ acc
unfolding sum_sizes
sum_sizes_null m zero flag acc = refl
sum_sizes_null m (suc fuel) flag acc = refl

add_if :
    (c : Bool) (acc s : ℕ)
    → acc + s < 2 ^ 32
    → (if c then (acc + s) % 2 ^ 32 else acc) ≡ acc + (if c then s else 0)
add_if c acc s lt = ground arith

sum_sizes_lem :
    (m : Table Header) (fuel prev a : ℕ) (bs : List Block) (stop : ℕ) (flag : Bool) (acc : ℕ)
    → length bs ≤ fuel
    → a ≢ 0
    → acc + stop < a + 2 ^ 32
    → IsChain m prev a bs stop
    → sum_sizes fuel m flag (link bs a) acc ≡ acc + total flag bs
unfolding sum_sizes total
sum_sizes_lem m fuel prev a [] stop flag acc le pos lt h =
    sum_sizes_null m fuel flag acc ∙ omega arith
sum_sizes_lem m zero prev a (b ∷ bs) stop flag acc le pos lt h = absurd (omega arith)
sum_sizes_lem m (suc fuel) prev a (b ∷ bs) stop flag acc le pos lt h =
    let more : ℕ = if (if flag then b.free else not b.free) then b.size else 0 in
    let e0 : (a == 0) ≡ false = ground arith in
    let e1 : (if (if flag then b.free else not b.free) then (acc + b.size) % 2 ^ 32 else acc)
        ≡ acc + more =
      add_if _ acc b.size (omega (arith, IsChain-le m a (behind a b) bs stop h.1)) in
    let rest =
      sum_sizes_lem m fuel a (behind a b) bs stop flag (acc + more) (omega arith) (omega arith)
        (ground arith) h.1 in
    rw (e0, h.0, e1, rest) (omega arith)

total_both :
    (m : Table Header) (prev a : ℕ) (bs : List Block) (stop : ℕ)
    → IsChain m prev a bs stop
    → a + total true bs + total false bs + length bs * header_size ≡ stop
unfolding total
total_both m prev a [] stop h = omega arith
total_both m prev a (b ∷ bs) stop h = ground (arith, total_both m a (behind a b) bs stop h.1)

-- In memory that holds a list of blocks, the free bytes, the bytes in use and a header for each block make up
-- the heap.
pub heap_space_lem :
    (h : Heap) (bs : List Block)
    → IsHeap h bs
    → heap_free_space h + heap_used_space h + length bs * header_size ≡ h.heap_total
unfolding heap_free_space heap_used_space
heap_space_lem h bs v =
    let sum = λ (flag : Bool).
      (rw v.head at (
        sum_sizes_lem h.header h.heap_total 0 h.heap_start bs _ flag 0 (blocks-le h bs v)
          (omega (arith, v.start)) (omega (arith, v.range)) v.chain)) in
    omega (arith, sum true, sum false, total_both h.header 0 h.heap_start bs _ v.chain)
