-- ===== src/Heap/Alloc.antt =====
-- `split_block` and the loop of `kmalloc` on the headers of a list of blocks.
use microkernel_os.Prelude.{
  ℕ, ◌+◌, ◌-◌, ◌%◌, ◌^◌, ◌≤◌, ◌<◌, ◌≡◌, ◌≢◌, ◌∙◌, refl, ap, Bool, true, false, List, [], ◌∷◌, inl,
  inr, arith, ltb, ◌==◌, Bool-cases, Table, update,
}
use microkernel_os.Heap.{
  Header, header_size, heap_magic, set_size, set_free, set_next, set_prev, split_block, take_block,
}
use microkernel_os.Heap.Blocks.{Block, behind, cut, in_two}
use microkernel_os.Heap.Chain.{
  link, header_of, IsChain, SameBelow, IsChain-le, IsChain-agree, IsChain-set_free,
}

-- A cut before the last block of a heap.
split_last :
    (m : Table Header) (prev a : ℕ) (b : Block) (stop n : ℕ)
    → n + 36 ≤ b.size
    → stop < 2 ^ 32
    → IsChain m prev a (b ∷ []) stop
    → IsChain (split_block a n m) prev a (in_two n b.free b []) stop
unfolding split_block
split_last m prev a b stop n room lt h =
    (ground (arith, h.0, h.1), (ground (arith, h.0, h.1), omega (arith, h.1)))

split_last_below :
    (m : Table Header) (prev a : ℕ) (b : Block) (stop n : ℕ)
    → n + 36 ≤ b.size
    → stop < 2 ^ 32
    → IsChain m prev a (b ∷ []) stop
    → SameBelow a m (split_block a n m)
unfolding split_block
split_last_below m prev a b stop n room lt h x below = ground (arith, h.0, h.1)

-- The headers when a block is cut that has one behind it.
abbrev split_headers : (a n next : ℕ) → Table Header → Table Header
split_headers a n next m = set_size a n (
    set_next a (a + header_size + n) (
      set_prev next (a + header_size + n) (
        update m (a + header_size + n) (record {
          magic = heap_magic;
          size = (m a).size - n - header_size;
          free = true;
          next = next;
          prev = a;
        }))))

split_eq :
    (m : Table Header) (a n : ℕ)
    → n + 36 ≤ (m a).size
    → a + header_size + (m a).size < 2 ^ 32
    → (m a).next ≢ 0
    → split_block a n m ≡ split_headers a n (m a).next m
unfolding split_block
split_eq m a n room lt link =
    let e1 : ltb (m a).size ((n + header_size + 16) % 2 ^ 32) ≡ false = ground arith in
    let e2 : ((m a).next == 0) ≡ false = ground arith in
    let e3 : (a + header_size + n) % 2 ^ 32 ≡ a + header_size + n = omega arith in
    let e4 : ((m a).size + 2 ^ 33 - n - header_size) % 2 ^ 32 ≡ (m a).size - n - header_size =
      omega arith in
    rw (e1, e2, e3, e4, split_block)

split_elsewhere :
    (m : Table Header) (a n next x : ℕ)
    → x ≢ a
    → x ≢ a + header_size + n
    → x ≢ next
    → split_headers a n next m x ≡ m x
split_elsewhere m a n next x h1 h2 h3 = ground arith

split_inner :
    (m : Table Header) (prev a : ℕ) (b c : Block) (cs : List Block) (stop n : ℕ)
    → n + 36 ≤ b.size
    → stop < 2 ^ 32
    → IsChain m prev a (b ∷ c ∷ cs) stop
    → IsChain (split_headers a n (behind a b) m) prev a (in_two n b.free b (c ∷ cs)) stop
split_inner m prev a b c cs stop n room lt h =
    let le = IsChain-le m (behind a b) (behind (behind a b) c) cs stop h.1.1 in
    let e : behind (a + header_size + n) (record { size = b.size - n - header_size; free = true })
        ≡ behind a b =
      omega arith in
    let tail : IsChain (split_headers a n (behind a b) m) (behind a b) (behind (behind a b) c) cs
        stop =
      IsChain-agree m (split_headers a n (behind a b) m) (behind a b) (behind (behind a b) c) cs
        stop
        (λ x lo hi. split_elsewhere m a n (behind a b) x (omega arith) (omega arith) (omega arith))
        h.1.1 in
    (ground (arith, h.0, le), (ground (arith, h.0, le), (ground (arith, h.1.0, le), rw e tail)))

-- A change of the headers from `a` on, after which they stand for `bs`.
abbrev pub IsRewrite : (m m' : Table Header) → (prev a : ℕ) → List Block → (stop : ℕ) → Type 0
IsRewrite m m' prev a bs stop = IsChain m' prev a bs stop × SameBelow a m m'

pub IsRewrite-eq :
    (m m1 m2 : Table Header) (prev a : ℕ) (bs1 bs2 : List Block) (stop : ℕ)
    → m1 ≡ m2
    → bs1 ≡ bs2
    → IsRewrite m m2 prev a bs2 stop
    → IsRewrite m m1 prev a bs1 stop
IsRewrite-eq m m1 m2 prev a bs1 bs2 stop e f h = rw (e, f) h

split-IsRewrite :
    (m : Table Header) (prev a : ℕ) (b : Block) (bs : List Block) (stop n : ℕ)
    → n + 36 ≤ b.size
    → stop < 2 ^ 32
    → IsChain m prev a (b ∷ bs) stop
    → IsRewrite m (split_block a n m) prev a (in_two n b.free b bs) stop
split-IsRewrite m prev a b [] stop n room lt h =
    (split_last m prev a b stop n room lt h, split_last_below m prev a b stop n room lt h)
split-IsRewrite m prev a b (c ∷ cs) stop n room lt h =
    let le = IsChain-le m prev a (b ∷ c ∷ cs) stop h in
    let le2 = IsChain-le m a (behind a b) (c ∷ cs) stop h.1 in
    let e1 : (m a).size ≡ b.size = rw h.0 in
    let e2 : (m a).next ≡ behind a b = rw h.0 in
    IsRewrite-eq m _ (split_headers a n (behind a b) m) prev a _ (in_two n b.free b (c ∷ cs)) stop
      (split_eq m a n (rw e1 room) (rw e1 (omega arith)) (rw e2 (omega arith)) ∙ rw e2) refl
      (
        split_inner m prev a b c cs stop n room lt h,
        λ x below. split_elsewhere m a n (behind a b) x (omega arith) (omega arith) (omega arith),
      )

pub IsRewrite-trans :
    (m m1 m2 : Table Header) (prev a : ℕ) (bs1 bs2 : List Block) (stop : ℕ)
    → IsRewrite m m1 prev a bs1 stop
    → IsRewrite m1 m2 prev a bs2 stop
    → IsRewrite m m2 prev a bs2 stop
IsRewrite-trans m m1 m2 prev a bs1 bs2 stop h h' = (h'.0, λ x below. h'.1 x below ∙ h.1 x below)

-- A change behind a block that stays.
pub cons-IsRewrite :
    (m m' : Table Header) (prev a : ℕ) (b : Block) (bs bs' : List Block) (stop : ℕ)
    → m a ≡ header_of prev a b bs
    → link bs' (behind a b) ≡ link bs (behind a b)
    → IsRewrite m m' a (behind a b) bs' stop
    → IsRewrite m m' prev a (b ∷ bs') stop
cons-IsRewrite m m' prev a b bs bs' stop h same there =
    ((there.1 a (omega arith) ∙ h ∙ rw same, there.0), λ x below. there.1 x (omega arith))

pub set_free-IsRewrite :
    (m m' : Table Header) (prev a : ℕ) (b : Block) (bs : List Block) (stop : ℕ) (flag : Bool)
    → IsRewrite m m' prev a (b ∷ bs) stop
    → IsRewrite m (set_free a flag m') prev a (record b { free = flag } ∷ bs) stop
set_free-IsRewrite m m' prev a b bs stop flag h =
    (IsChain-set_free m' prev a b bs stop flag h.0, λ x below. ground (arith, h.1 x below))

split_stays :
    (m : Table Header) (a n : ℕ) → (m a).size < n + 36 → n + 36 < 2 ^ 32 → split_block a n m ≡ m
unfolding split_block
split_stays m a n h lt =
    let e : ltb (m a).size ((n + header_size + 16) % 2 ^ 32) ≡ true = ground arith in rw e

-- `kmalloc` on the block that it has found.
pub take-IsRewrite :
    (m : Table Header) (prev a : ℕ) (b : Block) (bs : List Block) (stop n : ℕ)
    → n ≤ b.size
    → stop < 2 ^ 32
    → n + 36 < 2 ^ 32
    → IsChain m prev a (b ∷ bs) stop
    → IsRewrite m (take_block a n m) prev a (cut n b bs) stop
take-IsRewrite m prev a b bs stop n fit lt small h =
    elim (Bool-cases (ltb b.size (n + header_size + 16))) [
      | inl e ↦
          IsRewrite-eq m _ (set_free a false m) prev a _ (record b { free = false } ∷ bs) stop
            (ap (set_free a false) (split_stays m a n (ground (arith, h.0)) small)) (rw e)
            (set_free-IsRewrite m m prev a b bs stop false (h, λ x below. refl))
      | inr e ↦ IsRewrite-eq m _ _ prev a _ (in_two n false b bs) stop refl (rw e) (
          set_free-IsRewrite m (split_block a n m) prev a (record { size = n; free = b.free })
            (record { size = b.size - n - header_size; free = true } ∷ bs) stop false
            (split-IsRewrite m prev a b bs stop n (ground arith) lt h))
    ]
