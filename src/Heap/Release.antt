-- ===== src/Heap/Release.antt =====
-- `kfree` on the headers of a list of blocks: the block becomes free and one with its free neighbours.
use microkernel_os.Prelude.{
  ℕ, ◌+◌, ◌^◌, ◌≤◌, ◌<◌, ◌≡◌, ◌≢◌, ◌⊎◌, ◌∙◌, refl, Bool, true, false, ◌&&◌, List, [], ◌∷◌, inl, inr,
  arith, ◌==◌, Bool-cases, Table, length,
}
use microkernel_os.Heap.{Header, header_size, set_free, merge_free, release_block}
use microkernel_os.Heap.Blocks.{
  Block, behind, coalesce, freed, release, IsUsed, here, later, IsUsed-le, release_here,
  release-behind_free, release_later,
}
use microkernel_os.Heap.Chain.{link, IsChain, IsChain-set_free}
use microkernel_os.Heap.Alloc.{
  IsRewrite, IsRewrite-eq, IsRewrite-trans, cons-IsRewrite, set_free-IsRewrite,
}
use microkernel_os.Heap.Merge.{merge-IsRewrite}

-- The block before the one at `a` is none, or it is in use.
abbrev pub IsStart : Table Header → (prev a : ℕ) → Type 0
IsStart m prev a = (prev ≡ 0) ⊎ ((prev < a) × ((m prev).free ≡ false))

release_block-alone :
    (m : Table Header) (fuel prev t : ℕ)
    → (m t).prev ≡ prev
    → IsStart m prev t
    → release_block fuel t m ≡ merge_free fuel t (set_free t true m)
unfolding release_block
release_block-alone m fuel prev t h s = ground (arith, h, s)

release_block-joined :
    (m : Table Header) (fuel prev t : ℕ)
    → (m t).prev ≡ prev
    → prev ≢ 0
    → prev ≢ t
    → (m prev).free ≡ true
    → release_block fuel t m ≡ merge_free fuel prev (set_free t true m)
unfolding release_block
release_block-joined m fuel prev t h pos ne e = ground (arith, h, e)

link-coalesce : (b : Block) (bs : List Block) (x : ℕ) → link (coalesce b bs) x ≡ x
unfolding coalesce
link-coalesce b [] x = refl
link-coalesce b (c ∷ cs) x = elim (Bool-cases c.free) [
  | inl e ↦ rw e (link-coalesce (record b { size = b.size + header_size + c.size }) cs x)
  | inr e ↦ rw e
]

pub link-release :
    (a : ℕ) (b : Block) (bs : List Block) (x t : ℕ)
    → IsUsed t a (b ∷ bs)
    → link (release t a (b ∷ bs)) x ≡ x
link-release a b bs x t (here e) = rw (release_here t b bs) (link-coalesce (freed b) bs x)
link-release a b [] x t (later u) = elim u [ ]
link-release a b (c ∷ cs) x t (later u) = elim (Bool-cases (b.free && behind a b == t)) [
  | inl e ↦
      rw (release-behind_free t a b c cs (ground (arith, e)) (ground (arith, e)))
        (link-coalesce b (freed c ∷ cs) x)
  | inr e ↦ rw (
      release_later t a b c cs (omega (arith, IsUsed-le t (behind a b) (c ∷ cs) u))
        (ground (arith, e)))
]

set_free-other : (m : Table Header) (p x : ℕ) (flag : Bool) → p ≢ x → set_free p flag m x ≡ m x
set_free-other m p x flag ne = ground arith

-- The block to free follows a free one: it is joined with the one before.
release-joined :
    (m : Table Header) (fuel prev a : ℕ) (b c : Block) (cs : List Block) (stop : ℕ)
    → length (c ∷ cs) ≤ fuel
    → a ≢ 0
    → stop < 2 ^ 32
    → b.free ≡ true
    → IsChain m prev a (b ∷ c ∷ cs) stop
    → IsRewrite m (release_block fuel (behind a b) m) prev a (coalesce b (freed c ∷ cs)) stop
release-joined m fuel prev a b c cs stop le pos lt e h =
    let t : ℕ = behind a b in
    let m1 : Table Header = set_free t true m in
    let chain : IsChain m1 prev a (b ∷ freed c ∷ cs) stop =
      (set_free-other m t a true (omega arith) ∙ h.0, IsChain-set_free m a t c cs stop true h.1) in
    let merged = merge-IsRewrite m1 fuel prev a b (freed c ∷ cs) stop (omega arith) lt chain in
    IsRewrite-eq m _ (merge_free fuel a m1) prev a _ (coalesce b (freed c ∷ cs)) stop
      (release_block-joined m fuel a t (rw h.1.0) pos (omega arith) (rw (h.0, e))) refl
      (merged.0, λ x below. merged.1 x below ∙ set_free-other m t x true (omega arith))

-- With fuel for each block, `kfree` does what the list says.
pub release-IsRewrite :
    (m : Table Header) (fuel prev a : ℕ) (bs : List Block) (stop t : ℕ)
    → length bs ≤ fuel
    → a ≢ 0
    → stop < 2 ^ 32
    → (a ≡ t → IsStart m prev a)
    → IsChain m prev a bs stop
    → IsUsed t a bs
    → IsRewrite m (release_block fuel t m) prev a (release t a bs) stop
release-IsRewrite m fuel prev a [] stop t le pos lt s h u = elim u [ ]
release-IsRewrite m fuel prev a (b ∷ bs) stop t le pos lt s h (here e) =
    let m1 : Table Header = set_free a true m in
    let start = set_free-IsRewrite m m prev a b bs stop true (h, λ x below. refl) in
    IsRewrite-eq m _ (merge_free fuel a m1) prev a _ (coalesce (freed b) bs) stop
      (release_block-alone m fuel prev a (rw h.0) (s refl)) (release_here a b bs)
      (IsRewrite-trans m m1 _ prev a (freed b ∷ bs) (coalesce (freed b) bs) stop start
        (merge-IsRewrite m1 fuel prev a (freed b) bs stop (omega arith) lt start.0))
release-IsRewrite m fuel prev a (b ∷ []) stop t le pos lt s h (later u) = elim u [ ]
release-IsRewrite m fuel prev a (b ∷ c ∷ cs) stop t le pos lt s h (later u) =
    let beyond = IsUsed-le t (behind a b) (c ∷ cs) u in
    elim (Bool-cases (b.free && behind a b == t)) [
      | inl e ↦
          let at_t : behind a b ≡ t = ground (arith, e) in
          IsRewrite-eq m _ (release_block fuel (behind a b) m) prev a _ (coalesce b (freed c ∷ cs))
            stop (rw at_t) (release-behind_free t a b c cs (ground (arith, e)) at_t)
            (release-joined m fuel prev a b c cs stop (omega arith) pos lt (ground (arith, e)) h)
      | inr e ↦
          IsRewrite-eq m _ (release_block fuel t m) prev a _ (b ∷ release t (behind a b) (c ∷ cs))
            stop refl (release_later t a b c cs (omega arith) (ground (arith, e)))
            (cons-IsRewrite m _ prev a b (c ∷ cs) (release t (behind a b) (c ∷ cs)) stop h.0
              (link-release (behind a b) c cs (behind a b) t u)
              (release-IsRewrite m fuel a (behind a b) (c ∷ cs) stop t (omega arith) (omega arith)
                lt (λ at_t. inr (omega arith, ground (arith, e, h.0))) h.1 u))
    ]
