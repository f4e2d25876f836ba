-- ===== src/Heap/Search.antt =====
-- The loop of `kmalloc` finds the block that a search of the list of blocks finds.
use microkernel_os.Prelude.{
  ℕ, zero, suc, ◌+◌, ◌^◌, ◌≤◌, ◌<◌, ◌≡◌, ◌≢◌, ◌∙◌, refl, true, false, ◌&&◌, none, some, List, [],
  ◌∷◌, inl, inr, arith, ltb, leb, Bool-cases, Table, length,
}
use microkernel_os.Heap.{Header, header_size, take_block, find_fit}
use microkernel_os.Heap.Blocks.{Block, behind, cut, fits, alloc, alloc_here, alloc_next, alloc_nil}
use microkernel_os.Heap.Chain.{link, header_of, IsChain, IsChain-le}
use microkernel_os.Heap.Alloc.{IsRewrite, cons-IsRewrite, take-IsRewrite}

-- How the loop of `kmalloc` and the search of the list agree.
pub data Agree (m : Table Header) (fuel n prev a : ℕ) (bs : List Block) (stop : ℕ) : Type 0 where
  nowhere :
      alloc n a bs ≡ none → find_fit fuel m n (link bs a) ≡ none → Agree m fuel n prev a bs stop
  at_block :
      (t : ℕ) (bs' : List Block)
      → alloc n a bs ≡ some (t, bs')
      → find_fit fuel m n (link bs a) ≡ some t
      → ((x : ℕ) → link bs' x ≡ link bs x)
      → IsRewrite m (take_block t n m) prev a bs' stop
      → Agree m fuel n prev a bs stop

link-cut : (n : ℕ) (b : Block) (bs : List Block) (x : ℕ) → link (cut n b bs) x ≡ x
link-cut n b bs x = elim (Bool-cases (ltb b.size (n + header_size + 16))) [
  | inl e ↦ rw e
  | inr e ↦ rw e
]

pub find_fit_next :
    (m : Table Header) (fuel n a : ℕ)
    → a ≢ 0
    → ((m a).free && leb n (m a).size) ≡ false
    → find_fit (suc fuel) m n a ≡ find_fit fuel m n (m a).next
unfolding find_fit
find_fit_next m fuel n a h e = ground (arith, h, e)

find_fit_here :
    (m : Table Header) (fuel n a : ℕ)
    → a ≢ 0
    → ((m a).free && leb n (m a).size) ≡ true
    → find_fit (suc fuel) m n a ≡ some a
unfolding find_fit
find_fit_here m fuel n a h e = ground (arith, h, e)

find_fit_null : (m : Table Header) (fuel n : ℕ) → find_fit fuel m n 0 ≡ none
unfolding find_fit
find_fit_null m zero n = refl
find_fit_null m (suc fuel) n = refl

-- A block that does not fit stands before what the search does.
Agree-skip :
    (m : Table Header) (fuel n prev a : ℕ) (b : Block) (bs : List Block) (stop : ℕ)
    → a ≢ 0
    → fits n b ≡ false
    → m a ≡ header_of prev a b bs
    → Agree m fuel n a (behind a b) bs stop
    → Agree m (suc fuel) n prev a (b ∷ bs) stop
Agree-skip m fuel n prev a b bs stop pos e h (nowhere none_left not_found) =
    nowhere (alloc_next n a b bs e ∙ rw none_left)
      (find_fit_next m fuel n a pos (rw h e) ∙ rw (h, not_found))
Agree-skip m fuel n prev a b bs stop pos e h (at_block t bs' one found same there) =
    at_block t (b ∷ bs') (alloc_next n a b bs e ∙ rw one)
      (find_fit_next m fuel n a pos (rw h e) ∙ rw (h, found)) (λ x. refl)
      (cons-IsRewrite m _ prev a b bs bs' stop h (same (behind a b)) there)

-- With fuel for each block the loop finds what the search finds.
pub find_fit-Agree :
    (m : Table Header) (fuel n prev a : ℕ) (bs : List Block) (stop : ℕ)
    → length bs ≤ fuel
    → 16 ≤ a
    → stop < 2 ^ 32
    → IsChain m prev a bs stop
    → Agree m fuel n prev a bs stop
find_fit-Agree m fuel n prev a [] stop le pos lt h =
    nowhere (alloc_nil n a) (find_fit_null m fuel n)
find_fit-Agree m zero n prev a (b ∷ bs) stop le pos lt h = absurd (omega arith)
find_fit-Agree m (suc fuel) n prev a (b ∷ bs) stop le pos lt h = elim (Bool-cases (fits n b)) [
  | inl e ↦
      at_block a (cut n b bs) (alloc_here n a b bs e)
        (find_fit_here m fuel n a (omega arith) (rw h.0 e)) (link-cut n b bs)
        (take-IsRewrite m prev a b bs stop n (ground arith) lt
          (ground (arith, IsChain-le m a (behind a b) bs stop h.1)) h)
  | inr e ↦
      Agree-skip m fuel n prev a b bs stop (omega arith) e h.0
        (find_fit-Agree m fuel n a (behind a b) bs stop (omega arith) (omega arith) lt h.1)
]
