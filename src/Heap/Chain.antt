-- ===== src/Heap/Chain.antt =====
-- The headers of src/heap.c that stand for a list of blocks, and what changes of them leave alone.
use microkernel_os.Prelude.{
  ℕ, ◌+◌, ◌*◌, ◌≤◌, ◌<◌, ◌≡◌, ◌≢◌, ◌∙◌, refl, Bool, List, [], ◌∷◌, arith, ◌==◌, Table, update,
  length,
}
use microkernel_os.Heap.{Header, header_size, heap_magic, set_free, set_prev}
use microkernel_os.Heap.Blocks.{Block, behind}

-- The `next` of a block before `bs`, whose address is `x`.
abbrev pub link : List Block → ℕ → ℕ
link [] x = 0
link (b ∷ bs) x = x

abbrev pub header_of : (prev a : ℕ) → Block → List Block → Header
header_of prev a b bs = record {
  magic = heap_magic;
  size = b.size;
  free = b.free;
  next = link bs (behind a b);
  prev = prev;
}

-- From `a` up to `stop` the memory holds the blocks `bs`, one behind another, and `prev` before them.
abbrev pub IsChain : Table Header → (prev a : ℕ) → List Block → (stop : ℕ) → Type 0
IsChain m prev a [] stop = a ≡ stop
IsChain m prev a (b ∷ bs) stop = (m a ≡ header_of prev a b bs) × IsChain m a (behind a b) bs stop

-- The headers below `a` are the same.
abbrev pub SameBelow : ℕ → Table Header → Table Header → Type 0
SameBelow a m m' = (x : ℕ) → x < a → m' x ≡ m x

pub IsChain-le :
    (m : Table Header) (prev a : ℕ) (bs : List Block) (stop : ℕ)
    → IsChain m prev a bs stop
    → a + length bs * header_size ≤ stop
IsChain-le m prev a [] stop h = omega arith
IsChain-le m prev a (b ∷ bs) stop h = omega (arith, IsChain-le m a (behind a b) bs stop h.1)

-- A chain reads the memory in its range only.
pub IsChain-agree :
    (m m' : Table Header) (prev a : ℕ) (bs : List Block) (stop : ℕ)
    → ((x : ℕ) → a ≤ x → x < stop → m' x ≡ m x)
    → IsChain m prev a bs stop
    → IsChain m' prev a bs stop
IsChain-agree m m' prev a [] stop same h = h
IsChain-agree m m' prev a (b ∷ bs) stop same h = (
  same a (omega arith) (omega (arith, IsChain-le m a (behind a b) bs stop h.1)) ∙ h.0,
  IsChain-agree m m' a (behind a b) bs stop (λ x lo hi. same x (omega arith) hi) h.1,
)

-- So a write below it leaves it alone.
pub IsChain-update_below :
    (m : Table Header) (prev a : ℕ) (bs : List Block) (stop p : ℕ) (v : Header)
    → p < a
    → IsChain m prev a bs stop
    → IsChain (update m p v) prev a bs stop
IsChain-update_below m prev a bs stop p v lt h =
    IsChain-agree m (update m p v) prev a bs stop (λ x lo hi. ground arith) h

-- The assignment of the flag of the first block.
pub IsChain-set_free :
    (m : Table Header) (prev a : ℕ) (b : Block) (bs : List Block) (stop : ℕ) (flag : Bool)
    → IsChain m prev a (b ∷ bs) stop
    → IsChain (set_free a flag m) prev a (record b { free = flag } ∷ bs) stop
IsChain-set_free m prev a b bs stop flag h =
    (ground (arith, h.0), IsChain-update_below m a (behind a b) bs stop a _ (omega arith) h.1)

-- The assignment of the `prev` of the first block.
pub IsChain-set_prev :
    (m : Table Header) (prev a : ℕ) (b : Block) (bs : List Block) (stop prev' : ℕ)
    → IsChain m prev a (b ∷ bs) stop
    → IsChain (set_prev a prev' m) prev' a (b ∷ bs) stop
IsChain-set_prev m prev a b bs stop prev' h =
    (ground (arith, h.0), IsChain-update_below m a (behind a b) bs stop a _ (omega arith) h.1)

-- The address of a further block is not NULL, and the code's test for one is right.
pub link_zero : (bs : List Block) (x : ℕ) → x ≢ 0 → (link bs x == 0) ≡ (length bs == 0)
link_zero [] x h = refl
link_zero (b ∷ bs) x h = ground arith
