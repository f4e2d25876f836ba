-- ===== src/Fat16/Fetch.antt =====
-- The loop of `fat16_read_file` of src/fat16.c, over a chain that holds the bytes of a file.
use microkernel_os.Prelude.{
  ℕ, zero, suc, ◌+◌, ◌-◌, ◌*◌, ◌%◌, ◌^◌, ◌≤◌, ◌<◌, ◌≡◌, ◌∙◌, refl, true, false, ◌&&◌, List, [], ◌∷◌,
  inl, inr, arith, ltb, Bool-cases, for_range, for_range_inv, length, if-intro,
}
use microkernel_os.Fat16.{
  Volume, Disk, is_link, fat_read_entry, cluster_to_lba, Reading, read_step, read_loop,
}
use microkernel_os.Fat16.Entries.{IsVolume, IsCluster, table_first}
use microkernel_os.Fat16.Chain.{IsPath}
use microkernel_os.Fat16.Place.{lba_lem}
use microkernel_os.Fat16.Store.{up_to, Holds}

-- The state behind `s` sectors.
record IsReading (to_read from : ℕ) (src : ℕ → ℕ) (s : ℕ) (r : Reading) : Type 0 where
  pub fine : r.ok ≡ true
  pub far : r.read_total ≡ up_to from s to_read
  pub bytes : (k : ℕ) → k < up_to from s to_read → r.dst k ≡ src k

-- What the loop leaves.
pub record IsFetched (to_read : ℕ) (src : ℕ → ℕ) (r : Reading) : Type 0 where
  pub fine : r.ok ≡ true
  pub all_read : r.read_total ≡ to_read
  pub bytes : (k : ℕ) → k < to_read → r.dst k ≡ src k

module _ (v : Volume) (iv : IsVolume v) (size : ℕ) (src : ℕ → ℕ) (d : Disk) (to_read : ℕ)
    (small : to_read ≤ size) where
  read_step-IsReading :
      (from lba s : ℕ) (r : Reading)
      → from ≤ to_read
      → v.works (lba + s) ≡ true
      → lba + s < 2 ^ 32
      → ((j : ℕ) → j < 512 → from + 512 * s + j < size → d (lba + s) j ≡ src (from + 512 * s + j))
      → IsReading to_read from src s r
      → IsReading to_read from src (s + 1) (read_step v d lba to_read s r)
  unfolding read_step
  read_step-IsReading from lba s r le works lt there i =
      let e : (lba + s) % 2 ^ 32 ≡ lba + s = omega arith in
      elim (Bool-cases (ltb (from + 512 * s) to_read)) [
        | inl h ↦
            let far : r.read_total ≡ from + 512 * s = i.far ∙ rw h in
            rw (i.fine, far, h, e, works)
              (record {
                fine = refl;
                far = ground (arith, h);
                bytes = λ k lt'. elim (Bool-cases (ltb k (from + 512 * s))) [
                  | inl g ↦ ground (arith, g, h, i.bytes k)
                  | inr g ↦
                      let back : from + 512 * s + (k - (from + 512 * s)) ≡ k = ground (arith, g) in
                      let byte : d (lba + s) (k - (from + 512 * s)) ≡ src k = rw back at (
                        there (k - (from + 512 * s)) (ground (arith, g, h, lt'))
                          (ground (arith, back, small, h, lt'))) in
                      ground (arith, g, h, lt', byte)
                ];
              })
        | inr h ↦
            let far : r.read_total ≡ to_read = i.far ∙ rw h in
            let still : ltb r.read_total to_read ≡ false = ground (arith, far) in
            rw (i.fine, still)
              (record {
                fine = refl;
                far = ground (arith, far, h);
                bytes = λ k lt'. i.bytes k (ground (arith, h, lt'));
              })
      ]

  cluster-IsReading :
      (from c : ℕ) (r : Reading)
      → from < to_read
      → 2 ≤ c
      → IsCluster v c
      → ((t j : ℕ)
          → t < v.sectors_per_cluster
          → j < 512
          → from + 512 * t + j < size
          → d (cluster_to_lba v c + t) j ≡ src (from + 512 * t + j))
      → r.ok ≡ true
      → r.read_total ≡ from
      → ((k : ℕ) → k < from → r.dst k ≡ src k)
      → IsReading to_read from src v.sectors_per_cluster
          (for_range v.sectors_per_cluster 0 (read_step v d (cluster_to_lba v c) to_read) r)
  cluster-IsReading from c r le lo hi there fine far bytes =
      let lba : ℕ = cluster_to_lba v c in
      let place = lba_lem v iv c lo hi in
      let all_sectors : 0 + v.sectors_per_cluster ≡ v.sectors_per_cluster = omega arith in
      rw all_sectors at (
        for_range_inv (IsReading to_read from src) (read_step v d lba to_read) v.sectors_per_cluster
          0 r
          (λ s r' lo' hi' i.
            read_step-IsReading from lba s r' (omega arith)
              (iv.works_all (lba + s) (omega (arith, place.0, table_first v iv))
                (omega (arith, place.1)))
              (omega (arith, place.1, iv.range)) (λ j lt lt'. there s j (omega arith) lt lt') i)
          (record {
            fine = fine;
            far = ground (arith, far, le);
            bytes = λ k lt. bytes k (ground (arith, lt));
          }))

  read_stop :
      (fuel c : ℕ) (r : Reading)
      → (is_link c && ltb r.read_total to_read) ≡ false
      → read_loop fuel v d to_read c r ≡ r
  unfolding read_loop
  read_stop zero c r e = refl
  read_stop (suc fuel) c r e = rw e

  read_go :
      (fuel c : ℕ) (r : Reading)
      → (is_link c && ltb r.read_total to_read) ≡ true
      → (for_range v.sectors_per_cluster 0 (read_step v d (cluster_to_lba v c) to_read) r).ok ≡ true
      → read_loop (suc fuel) v d to_read c r
        ≡ read_loop fuel v d to_read
            (fat_read_entry v d c)
            (for_range v.sectors_per_cluster 0 (read_step v d (cluster_to_lba v c) to_read) r)
  unfolding read_loop
  read_go fuel c r e fine =
      let r1 = for_range v.sectors_per_cluster 0 (read_step v d (cluster_to_lba v c) to_read) r in
      let rest = read_loop fuel v d to_read (fat_read_entry v d c) r1 in
      rw e
        (if-intro (λ o. o ≡ rest) r1.ok rest r1 (λ t. refl) (λ f. absurd (ground (arith, fine, f))))

  stopped-IsFetched :
      (fuel c : ℕ) (r : Reading)
      → r.ok ≡ true
      → r.read_total ≡ to_read
      → ((k : ℕ) → k < to_read → r.dst k ≡ src k)
      → IsFetched to_read src (read_loop fuel v d to_read c r)
  stopped-IsFetched fuel c r fine far bytes =
      let full : (is_link c && ltb r.read_total to_read) ≡ false = ground (arith, far) in
      rw (read_stop fuel c r full) (record { fine = fine; all_read = far; bytes = bytes })

  -- The loop goes on from the next cluster if there is more to read.
  resume :
      (fuel from c : ℕ) (r1 : Reading)
      → IsReading to_read from src v.sectors_per_cluster r1
      → (ltb (from + 512 * v.sectors_per_cluster) to_read ≡ true
          → IsFetched to_read src (read_loop fuel v d to_read c r1))
      → IsFetched to_read src (read_loop fuel v d to_read c r1)
  resume fuel from c r1 i again =
      elim (Bool-cases (ltb (from + 512 * v.sectors_per_cluster) to_read)) [
        | inr g ↦
            stopped-IsFetched fuel c r1 i.fine (i.far ∙ rw g)
              (λ k lt. i.bytes k (ground (arith, g, lt)))
        | inl g ↦ again g
      ]

  -- Over a chain that holds the bytes of a file, the loop reads them.
  pub read_loop_lem :
      (fuel from c : ℕ) (cs : List ℕ) (z : ℕ) (r : Reading)
      → length cs ≤ fuel
      → IsPath v d c cs z
      → Holds v size src d cs from
      → from ≤ to_read
      → to_read ≤ from + length cs * v.cluster_size
      → r.ok ≡ true
      → r.read_total ≡ from
      → ((k : ℕ) → k < from → r.dst k ≡ src k)
      → IsFetched to_read src (read_loop fuel v d to_read c r)
  unfolding IsPath Holds
  read_loop_lem fuel from c [] z r le p h lo room fine far bytes =
      stopped-IsFetched fuel c r fine (omega arith) (λ k lt. bytes k (omega arith))
  read_loop_lem zero from c (x ∷ xs) z r le p h lo room fine far bytes = absurd (omega arith)
  read_loop_lem (suc fuel) from c (x ∷ xs) z r le (e, lo', hi', p) (here, later) lo room fine far
        bytes =
      elim (Bool-cases (ltb from to_read)) [
        | inr g ↦
            stopped-IsFetched (suc fuel) c r fine (ground (arith, g, lo, far))
              (λ k lt. bytes k (ground (arith, g, lo, lt)))
        | inl g ↦
            let go : (is_link x && ltb r.read_total to_read) ≡ true =
              ground (arith, lo', hi', iv.clusters, far, g) in
            let r1 =
              for_range v.sectors_per_cluster 0 (read_step v d (cluster_to_lba v x) to_read) r in
            let i = cluster-IsReading from x r (ground (arith, g)) lo' hi' here fine far bytes in
            let n : ℕ = up_to from v.sectors_per_cluster size in
            rw (e, read_go fuel x r go i.fine)
              (resume fuel from (fat_read_entry v d x) r1 i (λ more.
                let next : up_to from v.sectors_per_cluster to_read ≡ n =
                  ground (arith, more, small) in
                read_loop_lem fuel n (fat_read_entry v d x) xs z r1 (omega arith) p later
                  (ground (arith, more, small)) (ground (arith, room, iv.size)) i.fine
                  (i.far ∙ next) (λ k lt. i.bytes k (rw next lt))))
      ]
