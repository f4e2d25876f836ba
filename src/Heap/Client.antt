-- ===== src/Heap/Client.antt =====
-- What a client of src/heap.c relies on: blocks in use stay apart and stay where they are, and a block that
-- is freed is as good as never taken.
use microkernel_os.Prelude.{
  ℕ, ◌+◌, ◌-◌, ◌^◌, ◌≤◌, ◌≡◌, ◌≢◌, ◌⊎◌, refl, false, Option, none, some, List, [], ◌∷◌, arith,
  Table,
}
use microkernel_os.Heap.{Header, Heap, header_size, round_up, kmalloc, kfree}
use microkernel_os.Heap.Chain.{IsChain, IsChain-le}
use microkernel_os.Heap.Blocks.{Block, behind, release, alloc, IsUsed}
use microkernel_os.Heap.Merged.{
  Takes, whole, front, further, alloc-Takes, Takes-IsUsed, release-Takes,
}
use microkernel_os.Heap.Refines.{IsHeap, Answer, kmalloc-Answer, kfree-IsHeap, kmalloc-heap_start}
use microkernel_os.Heap.Live.{IsAt, Takes-apart, Takes-keeps, release-keeps}

-- What a call of `kmalloc` did.
data Call (size : ℕ) (h : Heap) (bs : List Block) : Type 0 where
  got :
      (t : ℕ) (bs' : List Block)
      → Takes (round_up size) t h.heap_start bs bs'
      → (kmalloc size h).0 ≡ t + header_size
      → IsHeap (kmalloc size h).1 bs'
      → Call size h bs
  null : kmalloc size h ≡ (0, h) → Call size h bs

kmalloc-Call : (size : ℕ) (h : Heap) (bs : List Block) → IsHeap h bs → size ≢ 0 → Call size h bs
kmalloc-Call size h bs v ne =
    go (alloc (round_up size) h.heap_start bs) refl (kmalloc-Answer size h bs v ne)
  where
    go :
        (r : Option (ℕ × List Block))
        → alloc (round_up size) h.heap_start bs ≡ r
        → Answer r h (kmalloc size h)
        → Call size h bs
    go none e a = null a
    go (some (t, bs')) e a = got t bs' (alloc-Takes (round_up size) h.heap_start bs t bs' e) a.0 a.1

IsHeap-eq : (h h' : Heap) (bs bs' : List Block) → h' ≡ h → bs ≡ bs' → IsHeap h bs → IsHeap h' bs'
IsHeap-eq h h' bs bs' e f v = rw (e, ← f) v

-- In memory that holds a list of blocks, a block that `kmalloc` gave for a size other than 0 and `kfree` took
-- back leaves the heap with the blocks it had before.
pub kfree-kmalloc :
    (size : ℕ) (h : Heap) (bs : List Block)
    → IsHeap h bs
    → size ≢ 0
    → IsHeap (kfree (kmalloc size h).0 (kmalloc size h).1) bs
unfolding kfree
kfree-kmalloc size h bs v ne = go (kmalloc-Call size h bs v ne)
  where
    go : Call size h bs → IsHeap (kfree (kmalloc size h).0 (kmalloc size h).1) bs
    go (null e) = rw e v
    go (got t bs' k e v') =
        let same = kmalloc-heap_start size h in
        let u : IsUsed t (kmalloc size h).1.heap_start bs' =
          rw same (Takes-IsUsed (round_up size) t h.heap_start bs bs' k) in
        let back : release t (kmalloc size h).1.heap_start bs' ≡ bs =
          rw same (release-Takes (round_up size) t h.heap_start bs bs' k v.merged) in
        IsHeap-eq _ _ _ _ (rw e) back (kfree-IsHeap t (kmalloc size h).1 bs' v' u)

Takes-inside :
    (m : Table Header) (n t prev a : ℕ) (bs bs' : List Block) (stop : ℕ)
    → IsChain m prev a bs stop
    → Takes n t a bs bs'
    → (a ≤ t) × (t + header_size + n ≤ stop)
Takes-inside m n t prev a [] bs' stop h k = elim k [ ]
Takes-inside m n t prev a (b ∷ bs) _ stop h (whole e le lt) =
    omega (arith, IsChain-le m a (behind a b) bs stop h.1)
Takes-inside m n t prev a (b ∷ bs) _ stop h (front e le) =
    omega (arith, IsChain-le m a (behind a b) bs stop h.1)
Takes-inside m n t prev a (b ∷ bs) (_ ∷ bs') stop h (further e k) =
    let there = Takes-inside m n t a (behind a b) bs bs' stop h.1 k in
    (omega (arith, there.0), there.1)

-- What `kmalloc` gives lies inside the heap, behind its first header, and is as large as was asked for. The
-- size must leave room to round it up.
pub kmalloc-inside :
    (size : ℕ) (h : Heap) (bs : List Block)
    → IsHeap h bs
    → size ≢ 0
    → size ≤ 2 ^ 32 - 8
    → (kmalloc size h).0 ≢ 0
    → (h.heap_start + header_size ≤ (kmalloc size h).0)
      × ((kmalloc size h).0 + size ≤ h.heap_start + h.heap_total)
kmalloc-inside size h bs v ne le some_block = go (kmalloc-Call size h bs v ne)
  where
    go :
        Call size h bs
        → (h.heap_start + header_size ≤ (kmalloc size h).0)
          × ((kmalloc size h).0 + size ≤ h.heap_start + h.heap_total)
    go (null e) = absurd (some_block (rw e))
    go (got t bs' k e v') =
        let there = Takes-inside h.header (round_up size) t 0 h.heap_start bs bs' _ v.chain k in
        (omega (arith, there.0), omega (arith, there.1))

-- In memory that holds a list of blocks, what `kmalloc` gives for a size from 1 to 2^32 - 8 meets no block in
-- use, neither its header nor its bytes.
pub kmalloc-apart :
    (size : ℕ) (h : Heap) (bs : List Block)
    → IsHeap h bs
    → size ≢ 0
    → size ≤ 2 ^ 32 - 8
    → (kmalloc size h).0 ≢ 0
    → (u : ℕ) (c : Block) → c.free ≡ false
    → IsAt u c h.heap_start bs
    → ((kmalloc size h).0 + size ≤ u) ⊎ (behind u c + header_size ≤ (kmalloc size h).0)
kmalloc-apart size h bs v ne le some_block u c used i = go (kmalloc-Call size h bs v ne)
  where
    go :
        Call size h bs
        → ((kmalloc size h).0 + size ≤ u) ⊎ (behind u c + header_size ≤ (kmalloc size h).0)
    go (null e) = absurd (some_block (rw e))
    go (got t bs' k e v') =
        ground (arith, Takes-apart (round_up size) t h.heap_start bs bs' u c k used i)

-- A block in use stays where it is when `kmalloc` takes another.
kmalloc-keeps :
    (size : ℕ) (h : Heap) (bs : List Block)
    → IsHeap h bs
    → size ≢ 0
    → (u : ℕ) (c : Block) → c.free ≡ false
    → IsAt u c h.heap_start bs
    → (bs' : List Block) × (IsHeap (kmalloc size h).1 bs' × IsAt u c h.heap_start bs')
kmalloc-keeps size h bs v ne u c used i = go (kmalloc-Call size h bs v ne)
  where
    go :
        Call size h bs
        → (bs' : List Block) × (IsHeap (kmalloc size h).1 bs' × IsAt u c h.heap_start bs')
    go (null e) = (bs, (rw e v, i))
    go (got t bs' k e v') =
        (bs', (v', Takes-keeps (round_up size) t h.heap_start bs bs' u c k used i))

-- In memory that holds a list of blocks, `kfree` of a block in use leaves every other block in use where it is.
pub kfree-keeps :
    (t : ℕ) (h : Heap) (bs : List Block)
    → IsHeap h bs
    → IsUsed t h.heap_start bs
    → (u : ℕ) (c : Block) → c.free ≡ false
    → u ≢ t
    → IsAt u c h.heap_start bs
    → (bs' : List Block) × (IsHeap (kfree (t + header_size) h) bs' × IsAt u c h.heap_start bs')
kfree-keeps t h bs v x u c used ne i = (
  release t h.heap_start bs,
  (kfree-IsHeap t h bs v x, release-keeps h.heap_start bs t u c x used ne i),
)
