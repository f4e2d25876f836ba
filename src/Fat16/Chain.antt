-- ===== src/Fat16/Chain.antt =====
-- Chains of clusters in the table of src/fat16.c, and `fat_free_chain`.
use microkernel_os.Prelude.{
  ℕ, zero, suc, ◌≤◌, ◌≡◌, ◌∙◌, refl, sym, ap, Bool, true, false, ◌||◌, List, [], ◌∷◌, ◌++◌, inl,
  inr, arith, ◌==◌, if◌then◌else◌, Bool-cases, length,
}
use microkernel_os.Fat16.{Volume, Disk, is_link, fat_read_entry, fat_write_entry, fat_free_chain}
use microkernel_os.Fat16.Entries.{
  IsMirrored, write-IsMirrored, IsVolume, IsCluster, read-write, write-data,
}

unfoldable pub occurs : ℕ → List ℕ → Bool
occurs b [] = false
occurs b (c ∷ cs) = b == c || occurs b cs

pub occurs-append : (b : ℕ) (cs ds : List ℕ) → occurs b (cs ++ ds) ≡ (occurs b cs || occurs b ds)
unfolding occurs
occurs-append b [] ds = refl
occurs-append b (c ∷ cs) ds = rw (occurs-append b cs ds) (ground arith)

-- From `c` the links lead through the clusters of the list to `z`.
unfoldable pub IsPath : (v : Volume) (d : Disk) (c : ℕ) → List ℕ → (z : ℕ) → Type 0
IsPath v d c [] z = c ≡ z
IsPath v d c (x ∷ xs) z = (c ≡ x) × (2 ≤ x) × IsCluster v x × IsPath v d (fat_read_entry v d x) xs z

-- A chain ends with a number that is no link.
unfoldable pub IsChain : (v : Volume) (d : Disk) (c : ℕ) → List ℕ → Type 0
IsChain v d c cs = (z : ℕ) × IsPath v d c cs z × (0xFFF8 ≤ z)

-- A path says something of its clusters' entries only.
pub IsPath-frame :
    (v : Volume) (d d' : Disk) (c : ℕ) (cs : List ℕ) (z : ℕ)
    → ((b : ℕ) → IsCluster v b → occurs b cs ≡ true → fat_read_entry v d' b ≡ fat_read_entry v d b)
    → IsPath v d c cs z
    → IsPath v d' c cs z
unfolding occurs IsPath
IsPath-frame v d d' c [] z same p = p
IsPath-frame v d d' c (x ∷ xs) z same (e, lo, hi, p) =
    let here : fat_read_entry v d' x ≡ fat_read_entry v d x = same x hi (ground arith) in
    (
      e,
      lo,
      hi,
      rw here (
          IsPath-frame v d d' (fat_read_entry v d x) xs z (λ b lt o. same b lt (ground (arith, o)))
            p),
    )

pub IsPath-append :
    (v : Volume) (d : Disk) (c : ℕ) (cs : List ℕ) (y z : ℕ)
    → IsPath v d c cs y
    → 2 ≤ y
    → IsCluster v y
    → fat_read_entry v d y ≡ z
    → IsPath v d c (cs ++ (y ∷ [])) z
unfolding IsPath
IsPath-append v d c [] y z p lo hi e = (p, lo, hi, e)
IsPath-append v d c (x ∷ xs) y z (e', lo', hi', p) lo hi e =
    (e', lo', hi', IsPath-append v d (fat_read_entry v d x) xs y z p lo hi e)

module _ (v : Volume) (iv : IsVolume v) where
  -- Two chains from one cluster are the same.
  IsPath-unique :
      (d : Disk) (c : ℕ) (xs ys : List ℕ) (y z : ℕ)
      → IsPath v d c xs y
      → 0xFFF8 ≤ y
      → IsPath v d c ys z
      → 0xFFF8 ≤ z
      → length xs ≡ length ys
  unfolding IsPath
  IsPath-unique d c [] [] y z p ly q lz = refl
  IsPath-unique d c [] (w ∷ ys) y z p ly (e, lo, hi, q) lz =
      absurd (omega (arith, p, e, iv.clusters))
  IsPath-unique d c (x ∷ xs) [] y z (e, lo, hi, p) ly q lz =
      absurd (omega (arith, q, e, iv.clusters))
  IsPath-unique d c (x ∷ xs) (w ∷ ys) y z (e, lo, hi, p) ly (e', lo', hi', q) lz =
      let same : w ≡ x = sym e' ∙ e in
      let q' : IsPath v d (fat_read_entry v d x) ys z = rw same at q in
      ap (λ n. suc n) (IsPath-unique d (fat_read_entry v d x) xs ys y z p ly q' lz)

  -- From a cluster of a path the rest of the path goes on.
  IsPath-rest :
      (d : Disk) (c b : ℕ) (cs : List ℕ) (z : ℕ)
      → IsPath v d c cs z
      → occurs b cs ≡ true
      → (bs : List ℕ) × IsPath v d b bs z × (length bs ≤ length cs)
  unfolding IsPath occurs
  IsPath-rest d c b [] z p o = absurd cc
  IsPath-rest d c b (x ∷ xs) z (e, lo, hi, p) o = elim (Bool-cases (b == x)) [
    | inl h ↦ let same : b ≡ x = ground (arith, h) in (x ∷ xs, (same, lo, hi, p), omega arith)
    | inr h ↦
        let (bs, q, le) = IsPath-rest d (fat_read_entry v d x) b xs z p (ground (arith, h, o)) in
        (bs, q, omega (arith, le))
  ]

  -- No chain comes back to its first cluster.
  pub IsPath-fresh :
      (d : Disk) (c x : ℕ) (xs : List ℕ) (z : ℕ)
      → IsPath v d c (x ∷ xs) z
      → 0xFFF8 ≤ z
      → occurs x xs ≡ false
  unfolding IsPath
  IsPath-fresh d c x xs z (e, lo, hi, p) end = elim (Bool-cases (occurs x xs)) [
    | inr o ↦ o
    | inl o ↦
        let (bs, q, le) = IsPath-rest d (fat_read_entry v d x) x xs z p o in
        absurd (omega (arith, le, IsPath-unique d x bs (x ∷ xs) z z q end (refl, lo, hi, p) end))
  ]

  -- `fat_free_chain` makes the clusters of a chain free, leaves all other entries and the files' data alone, and keeps
  -- the copies of the table equal.
  pub fat_free_chain_lem :
      (fuel : ℕ) (d : Disk) (c : ℕ) (cs : List ℕ)
      → length cs ≤ fuel
      → IsChain v d c cs
      → ((b : ℕ)
          → IsCluster v b
          → fat_read_entry v (fat_free_chain fuel v c d) b
            ≡ (if occurs b cs then 0 else fat_read_entry v d b))
        × ((s k : ℕ) → v.data_start_lba ≤ s → fat_free_chain fuel v c d s k ≡ d s k)
        × (IsMirrored v d → IsMirrored v (fat_free_chain fuel v c d))
  unfolding fat_free_chain occurs IsPath IsChain
  fat_free_chain_lem zero d c [] le h = (λ b lt. refl, λ s k lo. refl, λ m. m)
  fat_free_chain_lem zero d c (x ∷ xs) le h = absurd (omega arith)
  fat_free_chain_lem (suc fuel) d c [] le (z, p, end) =
      let stop : is_link c ≡ false = ground (arith, p, end) in
      (λ b lt. rw stop, λ s k lo. rw stop, λ m. rw stop m)
  fat_free_chain_lem (suc fuel) d c (x ∷ xs) le (z, (e, lo, hi, p), end) =
      let go : is_link x ≡ true = ground (arith, lo, hi, iv.clusters) in
      let fresh : occurs x xs ≡ false = IsPath-fresh d x x xs z (refl, lo, hi, p) end in
      let d1 : Disk = fat_write_entry v x 0 d in
      let entries : (b : ℕ)
          → IsCluster v b
          → fat_read_entry v d1 b ≡ (if x == b then 0 else fat_read_entry v d b) =
        λ b lt. read-write v iv x 0 b d hi lt (omega arith) in
      let kept : IsPath v d1 (fat_read_entry v d x) xs z =
        IsPath-frame v d d1 (fat_read_entry v d x) xs z
          (λ b lt o. entries b lt ∙ (let ne : (x == b) ≡ false = other x b xs fresh o in rw ne))
          p in
      let (rest, outside, both) =
        fat_free_chain_lem fuel d1 (fat_read_entry v d x) xs (omega arith) (z, kept, end) in
      (
        λ b lt. rw (e, go) (rest b lt ∙ rw (entries b lt) (ground arith)),
        λ s k le'. rw (e, go) (outside s k le' ∙ write-data v iv x 0 s k d hi le'),
        λ m. rw (e, go) (both (write-IsMirrored v iv x 0 d hi m)),
      )
    where
      other : (x b : ℕ) (xs : List ℕ) → occurs x xs ≡ false → occurs b xs ≡ true → (x == b) ≡ false
      other x b xs f o = elim (Bool-cases (x == b)) [
        | inr h ↦ h
        | inl h ↦ let same : b ≡ x = ground (arith, h) in absurd (ground (arith, (rw same at o), f))
      ]
