-- ===== src/Heap/Live.antt =====
-- The blocks of src/heap.c that are in use: none is lost, moved or given out twice.
use microkernel_os.Prelude.{
  ℕ, ◌+◌, ◌≤◌, ◌≡◌, ◌≢◌, ◌⊎◌, refl, true, false, ◌&&◌, List, [], ◌∷◌, inl, inr, arith, ◌==◌,
  Bool-cases,
}
use microkernel_os.Heap.{header_size}
use microkernel_os.Heap.Blocks.{
  Block, behind, coalesce, freed, release, release_here, release-behind_free, IsUsed, here, later,
  IsUsed-le,
}
use microkernel_os.Heap.Merged.{
  Takes, whole, front, further, Takes-IsUsed, coalesce_stop, coalesce_step, release_cons,
}

-- The block `c` stands at the address `t`.
pub data IsAt (t : ℕ) (c : Block) : ℕ → List Block → Type 0 where
  at_head : {bs : List Block} → IsAt t c t (c ∷ bs)
  in_tail : {a : ℕ} {b : Block} {bs : List Block} → IsAt t c (behind a b) bs → IsAt t c a (b ∷ bs)

IsAt-le : (t : ℕ) (c : Block) (a : ℕ) (bs : List Block) → IsAt t c a bs → a ≤ t
IsAt-le t c a _ at_head = omega arith
IsAt-le t c a (b ∷ bs) (in_tail i) = omega (arith, IsAt-le t c (behind a b) bs i)

pub IsAt-IsUsed :
    (t : ℕ) (c : Block) (a : ℕ) (bs : List Block) → c.free ≡ false → IsAt t c a bs → IsUsed t a bs
IsAt-IsUsed t c a _ e at_head = here e
IsAt-IsUsed t c a (b ∷ bs) e (in_tail i) = later (IsAt-IsUsed t c (behind a b) bs e i)

-- A list of blocks may be read from the same address, however it is written.
IsAt-from :
    (t : ℕ) (c : Block) (a a' : ℕ) (bs : List Block) → a' ≡ a → IsAt t c a bs → IsAt t c a' bs
IsAt-from t c a a' bs e i = rw e i

-- A block that is taken does not meet one in use, and has room for the size.
pub Takes-apart :
    (n t a : ℕ) (bs bs' : List Block) (u : ℕ) (c : Block)
    → Takes n t a bs bs'
    → c.free ≡ false
    → IsAt u c a bs
    → (t + header_size + n ≤ u) ⊎ (behind u c ≤ t)
Takes-apart n t a _ _ u c (whole e le lt) used at_head = absurd (ground (arith, e, used))
Takes-apart n t a _ _ u c (whole {b = b} {bs = bs} e le lt) used (in_tail i) =
    inl (omega (arith, IsAt-le u c (behind t b) bs i))
Takes-apart n t a _ _ u c (front e le) used at_head = absurd (ground (arith, e, used))
Takes-apart n t a _ _ u c (front {b = b} {bs = bs} e le) used (in_tail i) =
    inl (omega (arith, IsAt-le u c (behind t b) bs i))
Takes-apart n t a (b ∷ bs) (_ ∷ bs') u c (further e k) used at_head =
    inr (IsUsed-le t (behind a b) bs' (Takes-IsUsed n t (behind a b) bs bs' k))
Takes-apart n t a (b ∷ bs) (_ ∷ bs') u c (further e k) used (in_tail i) =
    Takes-apart n t (behind a b) bs bs' u c k used i

pub Takes-keeps :
    (n t a : ℕ) (bs bs' : List Block) (u : ℕ) (c : Block)
    → Takes n t a bs bs'
    → c.free ≡ false
    → IsAt u c a bs
    → IsAt u c a bs'
Takes-keeps n t a _ _ u c (whole e le lt) used at_head = absurd (ground (arith, e, used))
Takes-keeps n t a _ _ u c (whole e le lt) used (in_tail i) = in_tail i
Takes-keeps n t a _ _ u c (front e le) used at_head = absurd (ground (arith, e, used))
Takes-keeps n t a _ _ u c (front {b = b} {bs = bs} e le) used (in_tail i) =
    in_tail (in_tail (IsAt-from u c (behind t b) _ bs (omega arith) i))
Takes-keeps n t a (b ∷ bs) (_ ∷ bs') u c (further e k) used at_head = at_head
Takes-keeps n t a (b ∷ bs) (_ ∷ bs') u c (further e k) used (in_tail i) =
    in_tail (Takes-keeps n t (behind a b) bs bs' u c k used i)

-- What is in use after a block was taken is that block or was in use before.
Takes-only :
    (n t a : ℕ) (bs bs' : List Block) (u : ℕ) (c : Block)
    → Takes n t a bs bs'
    → c.free ≡ false
    → u ≢ t
    → IsAt u c a bs'
    → IsAt u c a bs
Takes-only n t a _ _ u c (whole e le lt) used ne at_head = absurd (ne refl)
Takes-only n t a _ _ u c (whole e le lt) used ne (in_tail i) = in_tail i
Takes-only n t a _ _ u c (front e le) used ne at_head = absurd (ne refl)
Takes-only n t a _ _ u c (front e le) used ne (in_tail at_head) = absurd (ground (arith, used))
Takes-only n t a _ _ u c (front {b = b} {bs = bs} e le) used ne (in_tail (in_tail i)) =
    in_tail (IsAt-from u c _ (behind t b) bs (omega arith) i)
Takes-only n t a (b ∷ bs) (_ ∷ bs') u c (further e k) used ne at_head = at_head
Takes-only n t a (b ∷ bs) (_ ∷ bs') u c (further e k) used ne (in_tail i) =
    in_tail (Takes-only n t (behind a b) bs bs' u c k used ne i)

-- `coalesce` takes up free blocks only.
coalesce-keeps :
    (a : ℕ) (b : Block) (bs : List Block) (u : ℕ) (c : Block)
    → c.free ≡ false
    → IsAt u c (behind a b) bs
    → IsAt u c a (coalesce b bs)
coalesce-keeps a b [] u c used i = elim i [ ]
coalesce-keeps a b (d ∷ ds) u c used i = elim (Bool-cases d.free) [
  | inl e ↦ rw (coalesce_step b d ds e) (
      coalesce-keeps a (record b { size = b.size + header_size + d.size }) ds u c used
        (IsAt-from u c (behind (behind a b) d) _ ds (omega arith)
          (skip_free a b d ds u c used e i)))
  | inr e ↦ rw (coalesce_stop b (d ∷ ds) e) (in_tail i)
]
  where
    skip_free :
        (a : ℕ) (b d : Block) (ds : List Block) (u : ℕ) (c : Block)
        → c.free ≡ false
        → d.free ≡ true
        → IsAt u c (behind a b) (d ∷ ds)
        → IsAt u c (behind (behind a b) d) ds
    skip_free a b d ds u c used e at_head = absurd (ground (arith, e, used))
    skip_free a b d ds u c used e (in_tail i) = i

joined-keeps :
    (a : ℕ) (b d : Block) (ds : List Block) (u : ℕ) (c : Block)
    → c.free ≡ false
    → b.free ≡ true
    → u ≢ behind a b
    → IsAt u c a (b ∷ d ∷ ds)
    → IsAt u c a (coalesce b (freed d ∷ ds))
joined-keeps a b d ds u c used e ne at_head = absurd (ground (arith, e, used))
joined-keeps a b d ds u c used e ne (in_tail at_head) = absurd (ne refl)
joined-keeps a b d ds u c used e ne (in_tail (in_tail i)) = rw (coalesce_step b (freed d) ds refl) (
    coalesce-keeps a (record b { size = b.size + header_size + d.size }) ds u c used
      (IsAt-from u c (behind (behind a b) d) _ ds (omega arith) i))

cons-keeps :
    (a : ℕ) (b : Block) (bs bs' : List Block) (u : ℕ) (c : Block)
    → (IsAt u c (behind a b) bs → IsAt u c (behind a b) bs')
    → IsAt u c a (b ∷ bs)
    → IsAt u c a (b ∷ bs')
cons-keeps a b bs bs' u c f at_head = at_head
cons-keeps a b bs bs' u c f (in_tail i) = in_tail (f i)

pub release-keeps :
    (a : ℕ) (bs : List Block) (t u : ℕ) (c : Block)
    → IsUsed t a bs
    → c.free ≡ false
    → u ≢ t
    → IsAt u c a bs
    → IsAt u c a (release t a bs)
release-keeps a [] t u c x used ne i = elim i [ ]
release-keeps a (b ∷ bs) t u c (here e) used ne at_head = absurd (ne refl)
release-keeps a (b ∷ bs) t u c (here e) used ne (in_tail i) =
    rw (release_here a b bs) (coalesce-keeps a (freed b) bs u c used i)
release-keeps a (b ∷ []) t u c (later x) used ne i = elim x [ ]
release-keeps a (b ∷ d ∷ ds) t u c (later x) used ne i =
    elim (Bool-cases (b.free && behind a b == t)) [
      | inl e ↦
          rw (release-behind_free t a b d ds (ground (arith, e)) (ground (arith, e)))
            (joined-keeps a b d ds u c used (ground (arith, e)) (ground (arith, e)) i)
      | inr e ↦
          rw (release_cons a b (d ∷ ds) t x (ground (arith, e)))
            (cons-keeps a b (d ∷ ds) _ u c (release-keeps (behind a b) (d ∷ ds) t u c x used ne) i)
    ]
