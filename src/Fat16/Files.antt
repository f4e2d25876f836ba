-- ===== src/Fat16/Files.antt =====
-- What writing a file of src/fat16.c means for reading it, for the other files and for the free space.
use microkernel_os.Prelude.{
  ℕ, ◌+◌, ◌^◌, ◌≤◌, ◌<◌, ◌≡◌, ◌≢◌, ◌⊎◌, ◌∙◌, refl, sym, true, false, List, [], ◌∷◌, inl, inr, arith,
  ltb, ◌==◌, if◌then◌else◌, Bool-cases, length,
}
use microkernel_os.Fat16.{
  stored, Volume, Disk, chain_fuel, fat_read_entry, cluster_to_lba, fat_free_chain, clusters_needed,
  write_contents, read_contents,
}
use microkernel_os.Fat16.Entries.{IsMirrored, IsVolume, IsCluster}
use microkernel_os.Fat16.Chain.{occurs, IsPath, IsChain, IsPath-frame, fat_free_chain_lem}
use microkernel_os.Fat16.Grow.{free_count}
use microkernel_os.Fat16.Place.{lba_lem}
use microkernel_os.Fat16.Store.{off_path}
use microkernel_os.Fat16.Fetch.{read_loop_lem}
use microkernel_os.Fat16.Contents.{IsWritten, IsRefused, write_contents_lem}

-- No cluster of a chain is free.
chain_used :
    (v : Volume) (d : Disk) (c x : ℕ) (cs : List ℕ) (z : ℕ)
    → IsPath v d c cs z
    → 0xFFF8 ≤ z
    → occurs x cs ≡ true
    → (2 ≤ x) × IsCluster v x × (fat_read_entry v d x ≢ 0)
unfolding IsPath occurs
chain_used v d c x [] z p end o = absurd cc
chain_used v d c x (b ∷ bs) z (e, lo, hi, p) end o = elim (Bool-cases (x == b)) [
  | inl h ↦ let same : x ≡ b = ground (arith, h) in rw same (lo, hi, goes_on bs p)
  | inr h ↦ chain_used v d (fat_read_entry v d b) x bs z p end (ground (arith, h, o))
]
  where
    goes_on : (ys : List ℕ) → IsPath v d (fat_read_entry v d b) ys z → fat_read_entry v d b ≢ 0
    goes_on [] q e' = absurd (omega (arith, q, e', end))
    goes_on (y ∷ ys) (e2, lo2, hi2, rest) e' = absurd (omega (arith, e2, lo2, e'))

module _ (v : Volume) (iv : IsVolume v) (size : ℕ) (src : ℕ → ℕ) (d : Disk)
    (fits : size + v.cluster_size ≤ 2 ^ 32) where
  abbrev after : Disk
  after = (write_contents v size src d).1

  -- With enough clusters free the call succeeds.
  enough :
      clusters_needed v size ≤ free_count v d
      → IsWritten v iv size src d (write_contents v size src d)
  enough room = elim (write_contents_lem v iv size src d fits) [
    | inl w ↦ w
    | inr r ↦ absurd (omega (arith, room, r.shortage))
  ]

  read_lem :
      (w : IsWritten v iv size src d (write_contents v size src d)) (max_size : ℕ) (buf : ℕ → ℕ)
      → let out = read_contents v after w.first size max_size buf in
        (out.0 ≡ (if ltb size max_size then size else max_size))
        × ((k : ℕ) → k < size → k < max_size → out.1 k ≡ src k)
  unfolding read_contents IsChain
  read_lem w max_size buf =
      let to_read : ℕ = if ltb size max_size then size else max_size in
      let (z, p, end) = w.chain in
      let f =
        read_loop_lem v iv size src after to_read (ground arith) chain_fuel 0 w.first w.cs z
          (record { ok = true; read_total = 0; dst = buf }) w.short p w.holds (omega arith)
          (ground (arith, w.room)) refl refl (λ k lt. absurd (omega arith)) in
      (f.all_read, λ k lt lt'. f.bytes k (ground (arith, lt, lt')))

  -- What is written can be read: where enough clusters are free, `fat16_write_file` stores the whole file, and
  -- reading it from its first cluster gives the number of its bytes, or of the buffer's if that is smaller, and
  -- those bytes. The volume has at most 65,518 clusters, its table covers them and lies in front of their data, it
  -- has no bad sectors, and the size with one cluster more is at most 2^32.
  pub read_contents-write_contents :
      (max_size : ℕ) (buf : ℕ → ℕ)
      → clusters_needed v size ≤ free_count v d
      → (first : ℕ) × ((write_contents v size src d).0 ≡ stored first size)
        × ((read_contents v after first size max_size buf).0
            ≡ (if ltb size max_size then size else max_size))
        × ((k : ℕ)
            → k < size
            → k < max_size
            → (read_contents v after first size max_size buf).1 k ≡ src k)
  read_contents-write_contents max_size buf room =
      let w = enough room in let r = read_lem w max_size buf in (w.first, w.result, r.0, r.1)

  -- The clusters of a chain that there was before are none of the new ones.
  old_cluster :
      (w : IsWritten v iv size src d (write_contents v size src d)) (c x : ℕ) (cs : List ℕ) (z : ℕ)
      → IsPath v d c cs z
      → 0xFFF8 ≤ z
      → occurs x cs ≡ true
      → occurs x w.cs ≡ false
  old_cluster w c x cs z p end o = elim (Bool-cases (occurs x w.cs)) [
    | inr h ↦ h
    | inl h ↦ let (lo, hi, ne) = chain_used v d c x cs z p end o in absurd (ne (w.were_free x hi h))
  ]

  kept_lem :
      IsWritten v iv size src d (write_contents v size src d)
        ⊎ IsRefused v iv size d (write_contents v size src d)
      → (c : ℕ) (cs : List ℕ) → IsChain v d c cs
      → IsChain v after c cs
        × ((x t k : ℕ)
            → occurs x cs ≡ true
            → t < v.sectors_per_cluster
            → after (cluster_to_lba v x + t) k ≡ d (cluster_to_lba v x + t) k)
  unfolding IsChain
  kept_lem (inr r) c cs (z, p, end) = (
    (z, IsPath-frame v d after c cs z (λ b lt o. r.entries b lt) p, end),
    λ x t k o lt.
        let (lo, hi, ne) = chain_used v d c x cs z p end o in
        r.sectors (cluster_to_lba v x + t) k (omega (arith, (lba_lem v iv x lo hi).0)),
  )
  kept_lem (inl w) c cs (z, p, end) = (
    (
      z,
      IsPath-frame v d after c cs z (λ b lt o. w.entries b lt (old_cluster w c b cs z p end o)) p,
      end,
    ),
    λ x t k o lt.
        let (lo, hi, ne) = chain_used v d c x cs z p end o in
        let (y, p', end') = w.chain in
        w.sectors (cluster_to_lba v x + t) k (omega (arith, (lba_lem v iv x lo hi).0)) (
          off_path v iv size src after w.first x (cluster_to_lba v x + t) w.cs y lo hi (omega arith)
            (omega arith) p' (old_cluster w c x cs z p end o)),
  )

  -- Writing a file harms no other: each chain that there was before is still there, with the same bytes in its
  -- clusters, whether the call succeeds or fails. The volume has at most 65,518 clusters, its table covers them and
  -- lies in front of their data, it has no bad sectors, and the size with one cluster more is at most 2^32.
  pub write_contents-keeps :
      (c : ℕ) (cs : List ℕ)
      → IsChain v d c cs
      → IsChain v after c cs
        × ((x t k : ℕ)
            → occurs x cs ≡ true
            → t < v.sectors_per_cluster
            → after (cluster_to_lba v x + t) k ≡ d (cluster_to_lba v x + t) k)
  write_contents-keeps c cs h = kept_lem (write_contents_lem v iv size src d fits) c cs h

  freed_lem :
      (w : IsWritten v iv size src d (write_contents v size src d)) (b : ℕ)
      → IsCluster v b
      → fat_read_entry v (fat_free_chain chain_fuel v w.first after) b ≡ fat_read_entry v d b
  freed_lem w b lt =
      (fat_free_chain_lem v iv chain_fuel after w.first w.cs w.short w.chain).0 b lt
      ∙ elim (Bool-cases (occurs b w.cs)) [
        | inl o ↦ rw o (sym (w.were_free b lt o))
        | inr o ↦ rw o (w.entries b lt o)
      ]

  -- Where enough clusters are free, writing a file and freeing its chain, as `fat16_delete_file` does, leaves every
  -- entry of the table as it was. The volume has at most 65,518 clusters, its table covers them and lies in front
  -- of their data, it has no bad sectors, and the size with one cluster more is at most 2^32.
  pub fat_free_chain-write_contents :
      clusters_needed v size ≤ free_count v d
      → (first : ℕ) × ((write_contents v size src d).0 ≡ stored first size)
        × ((b : ℕ)
            → IsCluster v b
            → fat_read_entry v (fat_free_chain chain_fuel v first after) b ≡ fat_read_entry v d b)
  fat_free_chain-write_contents room = let w = enough room in (w.first, w.result, freed_lem w)

  kept-IsMirrored :
      IsWritten v iv size src d (write_contents v size src d)
        ⊎ IsRefused v iv size d (write_contents v size src d)
      → IsMirrored v d
      → IsMirrored v after
  kept-IsMirrored (inl w) m = w.mirrored m
  kept-IsMirrored (inr r) m = r.mirrored m

  -- The two copies of the table stay equal: when a file is written, whether that succeeds or fails, and when a
  -- chain of up to 65,536 clusters is freed. The volume has at most 65,518 clusters, its table covers them and lies
  -- in front of their data, it has no bad sectors, and the size with one cluster more is at most 2^32.
  pub copies-IsMirrored :
      (c : ℕ) (cs : List ℕ)
      → IsChain v d c cs
      → length cs ≤ chain_fuel
      → IsMirrored v d
      → IsMirrored v after × IsMirrored v (fat_free_chain chain_fuel v c d)
  copies-IsMirrored c cs h le m = (
    kept-IsMirrored (write_contents_lem v iv size src d fits) m,
    (fat_free_chain_lem v iv chain_fuel d c cs le h).2 m,
  )
