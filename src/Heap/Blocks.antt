-- ===== src/Heap/Blocks.antt =====
-- The heap of src/heap.c as the list of its blocks, in the order of their addresses: what `kmalloc` and
-- `kfree` mean, with no pointers.
use microkernel_os.Prelude.{
  ℕ, ◌+◌, ◌-◌, ◌≤◌, ◌<◌, ◌≡◌, ◌≢◌, refl, Bool, true, false, ◌&&◌, Option, none, some, List, [], ◌∷◌,
  arith, ltb, leb, ◌==◌, if◌then◌else◌, option_case,
}
use microkernel_os.Heap.{header_size}

pub record Block : Type 0 where
  pub size : ℕ
  pub free : Bool

-- The address behind a block at `a`.
abbrev pub behind : ℕ → Block → ℕ
behind a b = a + header_size + b.size

-- A block as a front of `n` bytes and a free rest.
abbrev pub in_two : ℕ → Bool → Block → List Block → List Block
in_two n flag b bs =
    record { size = n; free = flag } ∷ record { size = b.size - n - header_size; free = true } ∷ bs

-- A block is cut in two if the rest is worth a header and 16 bytes; the front is taken.
abbrev pub cut : ℕ → Block → List Block → List Block
cut n b bs =
    if ltb b.size (n + header_size + 16)
    then record b { free = false } ∷ bs
    else in_two n false b bs

abbrev pub fits : ℕ → Block → Bool
fits n b = b.free && leb n b.size

-- First fit: the address of the block that is taken, and the blocks behind it.
unfoldable pub alloc : (n a : ℕ) → List Block → Option (ℕ × List Block)
alloc n a [] = none
alloc n a (b ∷ bs) =
    let rest = option_case (alloc n (behind a b) bs) none (λ r. some (r.0, b ∷ r.1)) in
    if fits n b then some (a, cut n b bs) else rest

pub alloc_nil : (n a : ℕ) → alloc n a [] ≡ none
unfolding alloc
alloc_nil n a = refl

pub alloc_here :
    (n a : ℕ) (b : Block) (bs : List Block)
    → fits n b ≡ true
    → alloc n a (b ∷ bs) ≡ some (a, cut n b bs)
unfolding alloc
alloc_here n a b bs e = rw e

pub alloc_next :
    (n a : ℕ) (b : Block) (bs : List Block)
    → fits n b ≡ false
    → alloc n a (b ∷ bs) ≡ option_case (alloc n (behind a b) bs) none (λ r. some (r.0, b ∷ r.1))
unfolding alloc
alloc_next n a b bs e = rw e

-- A block with the free blocks that follow it.
unfoldable pub coalesce : Block → List Block → List Block
coalesce b [] = b ∷ []
coalesce b (c ∷ cs) =
    let merged = coalesce (record b { size = b.size + header_size + c.size }) cs in
    if c.free then merged else b ∷ c ∷ cs

abbrev pub freed : Block → Block
freed b = record b { free = true }

-- The block at address `t` becomes free, and one with its free neighbours.
unfoldable pub release : (t a : ℕ) → List Block → List Block
release t a [] = []
release t a (b ∷ []) = if a == t then freed b ∷ [] else b ∷ []
release t a (b ∷ c ∷ cs) =
    let rest = release t (behind a b) (c ∷ cs) in
    if a == t
    then coalesce (freed b) (c ∷ cs)
    else if b.free && behind a b == t
    then coalesce b (freed c ∷ cs)
    else b ∷ rest

abbrev pub head_free : List Block → Bool
head_free [] = false
head_free (b ∷ bs) = b.free

-- No two free blocks are neighbours.
abbrev pub IsMerged : List Block → Type 0
IsMerged [] = Unit
IsMerged (b ∷ bs) = ((b.free && head_free bs) ≡ false) × IsMerged bs

-- A block in use stands at address `t`.
pub data IsUsed (t : ℕ) : ℕ → List Block → Type 0 where
  here : {b : Block} {bs : List Block} → b.free ≡ false → IsUsed t t (b ∷ bs)
  later : {a : ℕ} {b : Block} {bs : List Block} → IsUsed t (behind a b) bs → IsUsed t a (b ∷ bs)

pub IsUsed-le : (t a : ℕ) (bs : List Block) → IsUsed t a bs → a ≤ t
IsUsed-le t a [] u = elim u [ ]
IsUsed-le t a (b ∷ bs) (here e) = omega arith
IsUsed-le t a (b ∷ bs) (later u) = omega (arith, IsUsed-le t (behind a b) bs u)

-- The clauses of `release`, by where the block is.
pub release_here :
    (t : ℕ) (b : Block) (bs : List Block) → release t t (b ∷ bs) ≡ coalesce (freed b) bs
unfolding release coalesce
release_here t b [] = ground arith
release_here t b (c ∷ cs) = ground arith

pub release-behind_free :
    (t a : ℕ) (b c : Block) (cs : List Block)
    → b.free ≡ true
    → behind a b ≡ t
    → release t a (b ∷ c ∷ cs) ≡ coalesce b (freed c ∷ cs)
unfolding release
release-behind_free t a b c cs e at_t = ground arith

pub release_later :
    (t a : ℕ) (b c : Block) (cs : List Block)
    → a < t
    → (b.free ≡ true → behind a b ≢ t)
    → release t a (b ∷ c ∷ cs) ≡ b ∷ release t (behind a b) (c ∷ cs)
unfolding release
release_later t a b c cs lt ne = ground arith
