-- ===== src/Fat16/Place.antt =====
-- Where src/fat16.c keeps the data of a cluster: `cluster_to_lba`.
use microkernel_os.Prelude.{
  ℕ, ◌+◌, ◌-◌, ◌*◌, ◌%◌, ◌^◌, ◌≤◌, ◌<◌, ◌≡◌, ◌≢◌, ◌⊎◌, refl, inl, inr, arith, ltb, Bool-cases,
  ltb→lt,
}
use native.Mathlib.Nat.{mul-le-mul_right}
use microkernel_os.Fat16.{Volume, cluster_to_lba}
use microkernel_os.Fat16.Entries.{IsVolume, IsCluster}

module _ (v : Volume) (iv : IsVolume v) where
  -- The sectors of a cluster lie in the data area.
  pub lba_lem :
      (c : ℕ)
      → 2 ≤ c
      → IsCluster v c
      → (v.data_start_lba ≤ cluster_to_lba v c)
        × (cluster_to_lba v c + v.sectors_per_cluster
            ≤ v.data_start_lba + v.total_clusters * v.sectors_per_cluster)
        × (cluster_to_lba v c ≡ v.data_start_lba + (c - 2) * v.sectors_per_cluster)
  unfolding cluster_to_lba
  lba_lem c lo hi =
      let e : (c + 2 ^ 32 - 2) % 2 ^ 32 ≡ c - 2 = omega (arith, iv.clusters) in
      let le : (c - 2 + 1) * v.sectors_per_cluster ≤ v.total_clusters * v.sectors_per_cluster =
        mul-le-mul_right v.sectors_per_cluster (omega arith) in
      let e2 : (v.data_start_lba + (c - 2) * v.sectors_per_cluster) % 2 ^ 32
          ≡ v.data_start_lba + (c - 2) * v.sectors_per_cluster =
        omega (arith, le, iv.range) in
      rw (e, e2) (omega arith, omega (arith, le), refl)

  -- Those of two clusters are apart.
  pub lba_apart :
      (c b s : ℕ)
      → 2 ≤ c
      → IsCluster v c
      → 2 ≤ b
      → IsCluster v b
      → c ≢ b
      → cluster_to_lba v c ≤ s
      → s < cluster_to_lba v c + v.sectors_per_cluster
      → (s < cluster_to_lba v b) ⊎ (cluster_to_lba v b + v.sectors_per_cluster ≤ s)
  lba_apart c b s lo hi lo' hi' ne le lt = elim (Bool-cases (ltb c b)) [
    | inl h ↦
        let le' : (c - 2 + 1) * v.sectors_per_cluster ≤ (b - 2) * v.sectors_per_cluster =
          mul-le-mul_right v.sectors_per_cluster (omega (arith, ltb→lt c b h)) in
        inl (omega (arith, le', (lba_lem c lo hi).2, (lba_lem b lo' hi').2))
    | inr h ↦
        let less : b < c = ground (arith, h, ne) in
        let le' : (b - 2 + 1) * v.sectors_per_cluster ≤ (c - 2) * v.sectors_per_cluster =
          mul-le-mul_right v.sectors_per_cluster (omega arith) in
        inr (omega (arith, le', (lba_lem c lo hi).2, (lba_lem b lo' hi').2))
  ]
