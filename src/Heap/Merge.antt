-- ===== src/Heap/Merge.antt =====
-- `merge_free` on the headers of a list of blocks.
use microkernel_os.Prelude.{
  ℕ, zero, suc, ◌+◌, ◌%◌, ◌^◌, ◌≤◌, ◌<◌, ◌≡◌, ◌≢◌, refl, true, false, not, ◌&&◌, List, [], ◌∷◌, inl,
  inr, arith, ◌==◌, Bool-cases, Table, length,
}
use microkernel_os.Heap.{Header, header_size, set_size, set_next, set_prev, absorb, merge_free}
use microkernel_os.Heap.Blocks.{Block, behind, coalesce}
use microkernel_os.Heap.Chain.{IsChain, IsChain-le, IsChain-update_below, IsChain-set_prev}
use microkernel_os.Heap.Alloc.{IsRewrite, IsRewrite-eq, IsRewrite-trans}

-- A block with the block behind it.
abbrev with_next : Block → Block → Block
with_next b c = record b { size = b.size + header_size + c.size }

-- The header of a block that takes up its neighbour.
abbrev absorb_headers : (a size next : ℕ) → Table Header → Table Header
absorb_headers a size next m = set_next a next (set_size a size m)

absorb_last :
    (m : Table Header) (a size next : ℕ)
    → a ≢ next
    → (m a).next ≡ next
    → (m next).next ≡ 0
    → (m a).size + header_size + (m next).size ≡ size
    → size < 2 ^ 32
    → absorb a m ≡ absorb_headers a size 0 m
unfolding absorb
absorb_last m a size next ne h1 h2 h3 lt =
    let e : ((m a).size + header_size + (m next).size) % 2 ^ 32 ≡ size = omega arith in
    rw (h1, h2, e)

absorb_inner :
    (m : Table Header) (a size next after : ℕ)
    → a ≢ next
    → (m a).next ≡ next
    → (m next).next ≡ after
    → after ≢ 0
    → (m a).size + header_size + (m next).size ≡ size
    → size < 2 ^ 32
    → absorb a m ≡ set_prev after a (absorb_headers a size after m)
unfolding absorb
absorb_inner m a size next after ne h1 h2 pos h3 lt =
    let e : ((m a).size + header_size + (m next).size) % 2 ^ 32 ≡ size = omega arith in
    let e2 : (after == 0) ≡ false = ground arith in rw (h1, h2, e, e2)

-- One round of `merge_free` makes one block of two.
absorb-IsRewrite :
    (m : Table Header) (prev a : ℕ) (b c : Block) (cs : List Block) (stop : ℕ)
    → stop < 2 ^ 32
    → IsChain m prev a (b ∷ c ∷ cs) stop
    → IsRewrite m (absorb a m) prev a (with_next b c ∷ cs) stop
absorb-IsRewrite m prev a b c [] stop lt h =
    IsRewrite-eq m _ (absorb_headers a (b.size + header_size + c.size) 0 m) prev a _
      (with_next b c ∷ []) stop
      (absorb_last m a (b.size + header_size + c.size) (behind a b) (omega arith) (rw h.0)
        (rw h.1.0) (rw (h.0, h.1.0)) (omega (arith, h.1.1)))
      refl ((ground (arith, h.0), omega (arith, h.1.1)), λ x below. ground arith)
absorb-IsRewrite m prev a b c (d ∷ ds) stop lt h =
    let le = IsChain-le m (behind a b) (behind (behind a b) c) (d ∷ ds) stop h.1.1 in
    let size : ℕ = b.size + header_size + c.size in
    let after : ℕ = behind (behind a b) c in
    let m1 : Table Header = absorb_headers a size after m in
    let e : behind a (with_next b c) ≡ after = omega arith in
    let kept : IsChain m1 (behind a b) after (d ∷ ds) stop =
      IsChain-update_below (set_size a size m) (behind a b) after (d ∷ ds) stop a _ (omega arith)
        (IsChain-update_below m (behind a b) after (d ∷ ds) stop a _ (omega arith) h.1.1) in
    let tail : IsChain (set_prev after a m1) a after (d ∷ ds) stop =
      IsChain-set_prev m1 (behind a b) after d ds stop a kept in
    IsRewrite-eq m _ (set_prev after a m1) prev a _ (with_next b c ∷ d ∷ ds) stop
      (absorb_inner m a size (behind a b) after (omega arith) (rw h.0) (rw h.1.0) (omega arith)
        (rw (h.0, h.1.0)) (omega arith))
      refl ((ground (arith, h.0), rw e tail), λ x below. ground arith)

merge_free_done :
    (m : Table Header) (fuel a : ℕ)
    → (not ((m a).next == 0) && (m (m a).next).free) ≡ false
    → merge_free fuel a m ≡ m
unfolding merge_free
merge_free_done m zero a e = refl
merge_free_done m (suc fuel) a e = rw e

merge_free_round :
    (m : Table Header) (fuel a : ℕ)
    → (not ((m a).next == 0) && (m (m a).next).free) ≡ true
    → merge_free (suc fuel) a m ≡ merge_free fuel a (absorb a m)
unfolding merge_free
merge_free_round m fuel a e = rw e

-- With fuel for each block behind it, `merge_free` takes up the free blocks behind a block.
pub merge-IsRewrite :
    (m : Table Header) (fuel prev a : ℕ) (b : Block) (bs : List Block) (stop : ℕ)
    → length bs ≤ fuel
    → stop < 2 ^ 32
    → IsChain m prev a (b ∷ bs) stop
    → IsRewrite m (merge_free fuel a m) prev a (coalesce b bs) stop
unfolding coalesce
merge-IsRewrite m fuel prev a b [] stop le lt h =
    IsRewrite-eq m _ m prev a _ (b ∷ []) stop (merge_free_done m fuel a (rw h.0)) refl
      (h, λ x below. refl)
merge-IsRewrite m zero prev a b (c ∷ cs) stop le lt h = absurd (omega arith)
merge-IsRewrite m (suc fuel) prev a b (c ∷ cs) stop le lt h = elim (Bool-cases c.free) [
  | inl e ↦
      let one = absorb-IsRewrite m prev a b c cs stop lt h in
      IsRewrite-eq m _ (merge_free fuel a (absorb a m)) prev a _ (coalesce (with_next b c) cs) stop
        (merge_free_round m fuel a (ground (arith, h.0, h.1.0))) (rw e)
        (IsRewrite-trans m _ _ prev a (with_next b c ∷ cs) (coalesce (with_next b c) cs) stop one
          (merge-IsRewrite (absorb a m) fuel prev a (with_next b c) cs stop (omega arith) lt one.0))
  | inr e ↦
      IsRewrite-eq m _ m prev a _ (b ∷ c ∷ cs) stop
        (merge_free_done m (suc fuel) a (ground (arith, h.0, h.1.0))) (rw e) (h, λ x below. refl)
]
