-- ===== src/Heap/Merged.antt =====
-- No two free blocks of the heap of src/heap.c are neighbours: taking and releasing a block keep that, and
-- a block that is taken and released leaves the list as it was.
use microkernel_os.Prelude.{
  ℕ, ◌+◌, ◌-◌, ◌≤◌, ◌<◌, ◌≡◌, ◌≢◌, ◌∙◌, refl, sym, ap, Bool, true, false, ◌&&◌, Option, none, some,
  List, [], ◌∷◌, inl, inr, arith, ltb, ◌==◌, Bool-cases, option_case,
}
use microkernel_os.Heap.{header_size}
use microkernel_os.Heap.Blocks.{
  Block, behind, cut, in_two, fits, alloc, alloc_nil, alloc_here, alloc_next, coalesce, freed,
  release, release_here, release-behind_free, release_later, head_free, IsMerged, IsUsed, here,
  later, IsUsed-le,
}

-- The ways in which a block at `t` is taken.
pub data Takes (n t : ℕ) : ℕ → List Block → List Block → Type 0 where
  whole :
      {b : Block} {bs : List Block}
      → b.free ≡ true
      → n ≤ b.size
      → b.size < n + 36
      → Takes n t t (b ∷ bs) (record b { free = false } ∷ bs)
  front :
      {b : Block} {bs : List Block}
      → b.free ≡ true
      → n + 36 ≤ b.size
      → Takes n t t (b ∷ bs) (in_two n false b bs)
  further :
      {a : ℕ} {b : Block} {bs bs' : List Block}
      → fits n b ≡ false
      → Takes n t (behind a b) bs bs'
      → Takes n t a (b ∷ bs) (b ∷ bs')

abbrev pub Outcome : ℕ → ℕ → List Block → Option (ℕ × List Block) → Type 0
Outcome n a bs none = Unit
Outcome n a bs (some r) = Takes n r.0 a bs r.1

outcome-further :
    (n a : ℕ) (b : Block) (bs : List Block)
    → fits n b ≡ false
    → (r : Option (ℕ × List Block)) → Outcome n (behind a b) bs r
    → Outcome n a (b ∷ bs) (option_case r none (λ r. some (r.0, b ∷ r.1)))
outcome-further n a b bs e none h = tt
outcome-further n a b bs e (some (t, bs')) h = further e h

outcome-first :
    (n a : ℕ) (b : Block) (bs : List Block) → fits n b ≡ true → Takes n a a (b ∷ bs) (cut n b bs)
outcome-first n a b bs e = elim (Bool-cases (ltb b.size (n + header_size + 16))) [
  | inl small ↦ rw small (whole (ground (arith, e)) (ground (arith, e)) (ground arith))
  | inr large ↦ rw large (front (ground (arith, e)) (ground arith))
]

pub alloc-Outcome : (n a : ℕ) (bs : List Block) → Outcome n a bs (alloc n a bs)
alloc-Outcome n a [] = rw (alloc_nil n a) tt
alloc-Outcome n a (b ∷ bs) = elim (Bool-cases (fits n b)) [
  | inl e ↦ rw (alloc_here n a b bs e) (outcome-first n a b bs e)
  | inr e ↦
      rw (alloc_next n a b bs e)
        (outcome-further n a b bs e (alloc n (behind a b) bs) (alloc-Outcome n (behind a b) bs))
]

pub alloc-Takes :
    (n a : ℕ) (bs : List Block) (t : ℕ) (bs' : List Block)
    → alloc n a bs ≡ some (t, bs')
    → Takes n t a bs bs'
alloc-Takes n a bs t bs' e = rw e at (alloc-Outcome n a bs)

-- What is taken was free, so the blocks around it are not.
Takes-head :
    (n t a : ℕ) (bs bs' : List Block)
    → Takes n t a bs bs'
    → head_free bs ≡ false
    → head_free bs' ≡ false
Takes-head n t a _ _ (whole e le lt) h = refl
Takes-head n t a _ _ (front e le) h = refl
Takes-head n t a _ _ (further e k) h = h

pub Takes-IsMerged :
    (n t a : ℕ) (bs bs' : List Block) → Takes n t a bs bs' → IsMerged bs → IsMerged bs'
Takes-IsMerged n t a _ _ (whole e le lt) m = (refl, m.1)
Takes-IsMerged n t a _ _ (front e le) m = (refl, (ground (arith, e, m.0), m.1))
Takes-IsMerged n t a (b ∷ bs) (_ ∷ bs') (further e k) m = (
  ground (arith, Takes-head n t (behind a b) bs bs' k, m.0),
  Takes-IsMerged n t (behind a b) bs bs' k m.1,
)

pub Takes-IsUsed : (n t a : ℕ) (bs bs' : List Block) → Takes n t a bs bs' → IsUsed t a bs'
Takes-IsUsed n t a _ _ (whole e le lt) = here refl
Takes-IsUsed n t a _ _ (front e le) = here refl
Takes-IsUsed n t a (b ∷ bs) (_ ∷ bs') (further e k) = later (Takes-IsUsed n t (behind a b) bs bs' k)

-- `coalesce` stops at a block in use.
pub coalesce_stop : (b : Block) (bs : List Block) → head_free bs ≡ false → coalesce b bs ≡ b ∷ bs
unfolding coalesce
coalesce_stop b [] e = refl
coalesce_stop b (c ∷ cs) e = rw e

pub coalesce_step :
    (b c : Block) (cs : List Block)
    → c.free ≡ true
    → coalesce b (c ∷ cs) ≡ coalesce (record b { size = b.size + header_size + c.size }) cs
unfolding coalesce
coalesce_step b c cs e = rw e

Takes-first : (n t a : ℕ) (bs bs' : List Block) → Takes n t a bs bs' → a ≡ t → head_free bs ≡ true
Takes-first n t a _ _ (whole e le lt) at_t = e
Takes-first n t a _ _ (front e le) at_t = e
Takes-first n t a (b ∷ bs) (_ ∷ bs') (further e k) at_t =
    absurd (omega (arith, IsUsed-le t (behind a b) bs' (Takes-IsUsed n t (behind a b) bs bs' k)))

pub release_cons :
    (a : ℕ) (b : Block) (bs : List Block) (t : ℕ)
    → IsUsed t (behind a b) bs
    → (b.free ≡ true → behind a b ≢ t)
    → release t a (b ∷ bs) ≡ b ∷ release t (behind a b) bs
release_cons a b [] t u ne = elim u [ ]
release_cons a b (c ∷ cs) t u ne =
    release_later t a b c cs (omega (arith, IsUsed-le t (behind a b) (c ∷ cs) u)) ne

block_eq :
    (b : Block) (s : ℕ) (f : Bool) → s ≡ b.size → f ≡ b.free → record { size = s; free = f } ≡ b
block_eq b s f e1 e2 = rw (e1, e2)

-- A block that was taken comes back as it was.
pub release-Takes :
    (n t a : ℕ) (bs bs' : List Block) → Takes n t a bs bs' → IsMerged bs → release t a bs' ≡ bs
release-Takes n t a _ _ (whole {b = b} {bs = bs} e le lt) m =
    release_here t (record b { free = false }) bs
    ∙ coalesce_stop (freed (record b { free = false })) bs (ground (arith, e, m.0))
    ∙ ap (λ f. record { size = b.size; free = f } ∷ bs) (sym e)
release-Takes n t a _ _ (front {b = b} {bs = bs} e le) m =
    let rest : Block = record { size = b.size - n - header_size; free = true } in
    release_here t (record { size = n; free = false }) (rest ∷ bs)
    ∙ coalesce_step (record { size = n; free = true }) rest bs refl
    ∙ coalesce_stop (record { size = n + header_size + (b.size - n - header_size); free = true }) bs
        (ground (arith, e, m.0))
    ∙ ap (λ f. f ∷ bs) (block_eq b _ true (omega arith) (sym e))
release-Takes n t a (b ∷ bs) (_ ∷ bs') (further e k) m =
    release_cons a b bs' t (Takes-IsUsed n t (behind a b) bs bs' k)
      (λ f at_t. ground (arith, m.0, Takes-first n t (behind a b) bs bs' k at_t))
    ∙ ap (λ cs. b ∷ cs) (release-Takes n t (behind a b) bs bs' k m.1)

coalesce-IsMerged : (b : Block) (bs : List Block) → IsMerged bs → IsMerged (coalesce b bs)
coalesce-IsMerged b [] m = rw (coalesce_stop b [] refl) (ground arith, tt)
coalesce-IsMerged b (c ∷ cs) m = elim (Bool-cases c.free) [
  | inl e ↦
      rw (coalesce_step b c cs e)
        (coalesce-IsMerged (record b { size = b.size + header_size + c.size }) cs m.1)
  | inr e ↦ rw (coalesce_stop b (c ∷ cs) e) (ground (arith, e), m)
]

head_free-release :
    (t a : ℕ) (bs : List Block)
    → IsUsed t a bs
    → a ≢ t
    → head_free bs ≡ false
    → head_free (release t a bs) ≡ false
head_free-release t a _ (here e) ne f = absurd (ne refl)
head_free-release t a (b ∷ bs) (later u) ne f = rw (release_cons a b bs t u (ground (arith, f))) f

pub release-IsMerged :
    (a : ℕ) (bs : List Block) (t : ℕ) → IsUsed t a bs → IsMerged bs → IsMerged (release t a bs)
release-IsMerged a [] t u m = elim u [ ]
release-IsMerged a (b ∷ bs) t (here e) m =
    rw (release_here a b bs) (coalesce-IsMerged (freed b) bs m.1)
release-IsMerged a (b ∷ []) t (later u) m = elim u [ ]
release-IsMerged a (b ∷ c ∷ cs) t (later u) m = elim (Bool-cases (b.free && behind a b == t)) [
  | inl e ↦
      rw
        (
          release-behind_free t a b c cs (ground (arith, e)) (ground (arith, e)),
          coalesce_step b (freed c) cs refl,
        )
        (coalesce-IsMerged (record b { size = b.size + header_size + c.size }) cs m.1.1)
  | inr e ↦ rw (release_cons a b (c ∷ cs) t u (ground (arith, e))) (
    ground (arith, e, m.0, head_free-release t (behind a b) (c ∷ cs) u),
    release-IsMerged (behind a b) (c ∷ cs) t u m.1,
  )
]
