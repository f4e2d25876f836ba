-- ===== src/Fat16/Store.antt =====
-- The loop of `fat16_write_file` of src/fat16.c that puts the bytes of a file into the clusters of its chain.
use microkernel_os.Prelude.{
  ℕ, zero, suc, ◌+◌, ◌-◌, ◌*◌, ◌%◌, ◌^◌, ◌≤◌, ◌<◌, ◌≡◌, ◌⊎◌, ◌∙◌, refl, sym, true, false, ◌&&◌,
  List, [], ◌∷◌, inl, inr, arith, ltb, leb, ◌==◌, if◌then◌else◌, Bool-cases, for_range,
  for_range_inv, length, if-intro,
}
use mathlib.Core.Path.{subst}
use microkernel_os.Fat16.{
  Volume, Disk, is_link, fat_read_entry, cluster_to_lba, chunk_of, Writing, write_step, write_loop,
}
use microkernel_os.Fat16.Entries.{IsVolume, IsCluster, entry_of_table, table_first}
use microkernel_os.Fat16.Chain.{occurs, IsPath, IsPath-frame, IsPath-fresh}
use microkernel_os.Fat16.Place.{lba_lem, lba_apart}

-- How far `sectors` sectors lead from `from`.
abbrev pub up_to : (from sectors size : ℕ) → ℕ
up_to from sectors size = if ltb (from + 512 * sectors) size then from + 512 * sectors else size

-- The bytes that sector `t` of a cluster gets.
abbrev pub sector_data : (size from t : ℕ) → (ℕ → ℕ) → ℕ → ℕ
sector_data size from t src k =
    if ltb k (chunk_of size (from + 512 * t)) then src (from + 512 * t + k) else 0

-- The state behind `s` sectors.
pub record IsWriting (size from lba : ℕ) (src : ℕ → ℕ) (d : Disk) (s : ℕ) (w : Writing)
    : Type 0 where
  pub fine : w.ok ≡ true
  pub far : w.written ≡ up_to from s size
  pub bytes :
      (q k : ℕ)
      → w.disk q k ≡ (
          if leb lba q && ltb q (lba + s) && ltb (from + 512 * (q - lba)) size
          then sector_data size from (q - lba) src k
          else d q k)

-- The bytes of a file from `from` on are in the clusters of the list.
unfoldable pub Holds :
    (v : Volume) (size : ℕ) (src : ℕ → ℕ) (d : Disk) → List ℕ → (from : ℕ) → Type 0
Holds v size src d [] from = Unit {0}
Holds v size src d (x ∷ xs) from =
    ((t j : ℕ)
      → t < v.sectors_per_cluster
      → j < 512
      → from + 512 * t + j < size
      → d (cluster_to_lba v x + t) j ≡ src (from + 512 * t + j))
    × Holds v size src d xs (up_to from v.sectors_per_cluster size)

-- No sector of these clusters is `q`.
unfoldable pub IsElsewhere : (v : Volume) (q : ℕ) → List ℕ → Type 0
IsElsewhere v q [] = Unit {0}
IsElsewhere v q (x ∷ xs) =
    ((q < cluster_to_lba v x) ⊎ (cluster_to_lba v x + v.sectors_per_cluster ≤ q))
    × IsElsewhere v q xs

module _ (v : Volume) (iv : IsVolume v) (size : ℕ) (src : ℕ → ℕ) where
  write_step-IsWriting :
      (from lba s : ℕ) (d : Disk) (w : Writing)
      → from ≤ size
      → v.works (lba + s) ≡ true
      → lba + s < 2 ^ 32
      → IsWriting size from lba src d s w
      → IsWriting size from lba src d (s + 1) (write_step v lba size src s w)
  unfolding write_step
  write_step-IsWriting from lba s d w le works lt i =
      let e : (lba + s) % 2 ^ 32 ≡ lba + s = omega arith in
      elim (Bool-cases (ltb (from + 512 * s) size)) [
        | inl h ↦
            let far : w.written ≡ from + 512 * s = i.far ∙ rw h in
            rw (i.fine, far, h, e, works)
              (record {
                fine = refl;
                far = ground (arith, h);
                bytes = λ q k. elim (Bool-cases (q == lba + s)) [
                  | inl g ↦
                      let same : q ≡ lba + s = ground (arith, g) in
                      let t : lba + s - lba ≡ s = omega arith in rw (same, t) (ground (arith, h))
                  | inr g ↦ ground (arith, g, i.bytes q k)
                ];
              })
        | inr h ↦
            let far : w.written ≡ size = i.far ∙ rw h in
            let still : ltb w.written size ≡ false = ground (arith, far) in
            rw (i.fine, still)
              (record {
                fine = refl;
                far = ground (arith, far, h);
                bytes = λ q k. i.bytes q k ∙ ground (arith, h);
              })
      ]

  -- One cluster, from `from` on.
  cluster-IsWriting :
      (from c : ℕ) (d : Disk)
      → from ≤ size
      → 2 ≤ c
      → IsCluster v c
      → IsWriting size from (cluster_to_lba v c) src d v.sectors_per_cluster (
          for_range v.sectors_per_cluster 0
            (write_step v (cluster_to_lba v c) size src)
            (record { ok = true; written = from; disk = d }))
  cluster-IsWriting from c d le lo hi =
      let lba : ℕ = cluster_to_lba v c in
      let place = lba_lem v iv c lo hi in
      let all_sectors : 0 + v.sectors_per_cluster ≡ v.sectors_per_cluster = omega arith in
      rw all_sectors at (
        for_range_inv (IsWriting size from lba src d) (write_step v lba size src)
          v.sectors_per_cluster 0 (record { ok = true; written = from; disk = d })
          (λ s w lo' hi' i.
            write_step-IsWriting from lba s d w le
              (iv.works_all (lba + s) (omega (arith, place.0, table_first v iv))
                (omega (arith, place.1)))
              (omega (arith, place.1, iv.range)) i)
          (record { fine = refl; far = ground (arith, le); bytes = λ q k. ground arith }))

  -- What the loop leaves.
  pub record IsStored (cs : List ℕ) (from : ℕ) (d : Disk) (w : Writing) : Type 0 where
    pub fine : w.ok ≡ true
    pub all_written : w.written ≡ size
    pub holds : Holds v size src w.disk cs from
    pub elsewhere : (q k : ℕ) → IsElsewhere v q cs → w.disk q k ≡ d q k

  Holds-end : (d : Disk) (cs : List ℕ) (from : ℕ) → size ≤ from → Holds v size src d cs from
  unfolding Holds
  Holds-end d [] from le = tt
  Holds-end d (x ∷ xs) from le = (
    λ t j lt lt' lt''. absurd (omega arith),
    Holds-end d xs (up_to from v.sectors_per_cluster size) (ground (arith, le)),
  )

  -- The sectors of a cluster that is not on a path.
  pub off_path :
      (d : Disk) (c x q : ℕ) (cs : List ℕ) (z : ℕ)
      → 2 ≤ x
      → IsCluster v x
      → cluster_to_lba v x ≤ q
      → q < cluster_to_lba v x + v.sectors_per_cluster
      → IsPath v d c cs z
      → occurs x cs ≡ false
      → IsElsewhere v q cs
  unfolding IsPath occurs IsElsewhere
  off_path d c x q [] z lo hi le lt p o = tt
  off_path d c x q (b ∷ bs) z lo hi le lt (e, lo', hi', p) o = (
    lba_apart v iv x b q lo hi lo' hi' (ground (arith, o)) le lt,
    off_path d (fat_read_entry v d b) x q bs z lo hi le lt p (ground (arith, o)),
  )

  Writing-eq :
      (w : Writing) (n : ℕ)
      → w.ok ≡ true
      → w.written ≡ n
      → w ≡ record { ok = true; written = n; disk = w.disk }
  Writing-eq w n e e' = λ i. record { ok = e i; written = e' i; disk = w.disk }

  write_stop :
      (fuel c : ℕ) (w : Writing)
      → (is_link c && ltb w.written size) ≡ false
      → write_loop fuel v size src c w ≡ w
  unfolding write_loop
  write_stop zero c w e = refl
  write_stop (suc fuel) c w e = rw e

  stopped-IsStored :
      (fuel from c : ℕ) (cs : List ℕ) (d : Disk)
      → from ≡ size
      → IsStored cs from d
          (write_loop fuel v size src c (record { ok = true; written = from; disk = d }))
  stopped-IsStored fuel from c cs d e =
      let full : (is_link c && ltb from size) ≡ false = ground (arith, e) in
      rw (write_stop fuel c (record { ok = true; written = from; disk = d }) full) (record {
        fine = refl;
        all_written = e;
        holds = Holds-end d cs from (omega arith);
        elsewhere = λ q k h. refl;
      })

  -- One cluster and the rest of the chain.
  next-IsStored :
      (from c : ℕ) (cs : List ℕ) (z : ℕ) (d : Disk) (w1 w : Writing)
      → 2 ≤ c
      → IsCluster v c
      → IsPath v d (fat_read_entry v d c) cs z
      → occurs c cs ≡ false
      → IsWriting size from (cluster_to_lba v c) src d v.sectors_per_cluster w1
      → IsStored cs (up_to from v.sectors_per_cluster size) w1.disk w
      → IsStored (c ∷ cs) from d w
  unfolding Holds IsElsewhere
  next-IsStored from c cs z d w1 w lo hi p fresh i rest = record {
    fine = rest.fine;
    all_written = rest.all_written;
    holds = (
      λ t j lt lt' lt''.
          let q : ℕ = cluster_to_lba v c + t in
          let back : q - cluster_to_lba v c ≡ t = omega arith in
          rest.elsewhere q j
            (off_path d (fat_read_entry v d c) c q cs z lo hi (omega arith) (omega arith) p fresh)
          ∙ i.bytes q j
          ∙ rw back (ground (arith, lt, lt', lt'')),
      rest.holds,
    );
    elsewhere = λ q k h. rest.elsewhere q k h.1 ∙ i.bytes q k ∙ ground (arith, h.0);
  }

  write_go :
      (fuel c : ℕ) (w : Writing)
      → (is_link c && ltb w.written size) ≡ true
      → (for_range v.sectors_per_cluster 0 (write_step v (cluster_to_lba v c) size src) w).ok ≡ true
      → write_loop (suc fuel) v size src c w
        ≡ write_loop fuel v size src
            (fat_read_entry v
              (for_range v.sectors_per_cluster 0
                (write_step v (cluster_to_lba v c) size src)
                w).disk
              c)
            (for_range v.sectors_per_cluster 0 (write_step v (cluster_to_lba v c) size src) w)
  unfolding write_loop
  write_go fuel c w e fine =
      let w1 = for_range v.sectors_per_cluster 0 (write_step v (cluster_to_lba v c) size src) w in
      let rest = write_loop fuel v size src (fat_read_entry v w1.disk c) w1 in
      rw e
        (if-intro (λ o. o ≡ rest) w1.ok rest w1 (λ t. refl) (λ f. absurd (ground (arith, fine, f))))

  -- A file whose bytes fit into the clusters of a chain is written in full, each byte into its place, and the
  -- sectors of no other cluster change.
  pub write_loop_lem :
      (fuel from c : ℕ) (cs : List ℕ) (z : ℕ) (d : Disk)
      → length cs ≤ fuel
      → IsPath v d c cs z
      → 0xFFF8 ≤ z
      → from ≤ size
      → size ≤ from + length cs * v.cluster_size
      → IsStored cs from d
          (write_loop fuel v size src c (record { ok = true; written = from; disk = d }))
  unfolding IsPath
  write_loop_lem fuel from c [] z d le p end lo room =
      stopped-IsStored fuel from c [] d (omega arith)
  write_loop_lem zero from c (x ∷ xs) z d le p end lo room = absurd (omega arith)
  write_loop_lem (suc fuel) from c (x ∷ xs) z d le (e, lo', hi', p) end lo room =
      elim (Bool-cases (ltb from size)) [
        | inr h ↦ stopped-IsStored (suc fuel) from c (x ∷ xs) d (ground (arith, h, lo))
        | inl h ↦
            let go : is_link x ≡ true = ground (arith, lo', hi', iv.clusters) in
            let w1 =
              for_range v.sectors_per_cluster 0 (write_step v (cluster_to_lba v x) size src)
                (record { ok = true; written = from; disk = d }) in
            let i = cluster-IsWriting from x d lo lo' hi' in
            let next : ℕ = up_to from v.sectors_per_cluster size in
            let table : (q k : ℕ) → q < v.data_start_lba → w1.disk q k ≡ d q k =
              λ q k lt. i.bytes q k ∙ ground (arith, (lba_lem v iv x lo' hi').0, lt) in
            let same : (b : ℕ) → IsCluster v b → fat_read_entry v w1.disk b ≡ fat_read_entry v d b =
              λ b lt. entry_of_table v iv d w1.disk b lt table in
            let p' : IsPath v w1.disk (fat_read_entry v w1.disk x) xs z =
              rw (same x hi')
                (IsPath-frame v d w1.disk (fat_read_entry v d x) xs z (λ b lt o. same b lt) p) in
            let fresh = IsPath-fresh v iv d x x xs z (refl, lo', hi', p) end in
            let room' : size ≤ next + length xs * v.cluster_size = ground (arith, room, iv.size) in
            let rest =
              write_loop_lem fuel next (fat_read_entry v w1.disk x) xs z w1.disk (omega arith) p'
                end (ground (arith, lo)) room' in
            rw
              (
                e,
                write_go fuel x (record { ok = true; written = from; disk = d })
                    (ground (arith, go, h)) i.fine,
              )
              (next-IsStored from x xs z d w1 _ lo' hi' p fresh i (
                subst
                  (λ u.
                    IsStored xs next w1.disk
                      (write_loop fuel v size src (fat_read_entry v w1.disk x) u))
                  (sym (Writing-eq w1 next i.fine i.far)) rest))
      ]
