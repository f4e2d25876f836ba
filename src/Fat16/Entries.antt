-- ===== src/Fat16/Entries.antt =====
-- The file allocation table of src/fat16.c as a map from clusters to entries.
use microkernel_os.Prelude.{
  ℕ, ◌+◌, ◌*◌, ◌/◌, ◌%◌, ◌^◌, ◌≤◌, ◌<◌, ◌≡◌, ◌≢◌, ◌⊎◌, ◌∙◌, refl, sym, Bool, true, false, ◌&&◌,
  ◌||◌, inl, inr, arith, ltb, ◌==◌, if◌then◌else◌, Bool-cases, Option-cases, first_from,
  first_from-IsFirst, first_from-none,
}
use microkernel_os.Fat16.{
  Volume, Disk, get16, put16, entry_sector, entry_index, fat_read_entry, fat_write_entry,
  fat_alloc_cluster,
}

-- A volume whose table covers its clusters and lies in front of their data, on a drive without bad sectors there.
pub record IsVolume (v : Volume) : Type 0 where
  pub covers : v.total_clusters + 2 ≤ v.fat_size_sectors * 256
  pub clusters : v.total_clusters + 2 ≤ 0xFFF0
  pub order :
      ((v.num_fats ≡ 1) × (v.fat_start_lba + v.fat_size_sectors ≤ v.data_start_lba))
      ⊎ ((v.num_fats ≡ 2) × (v.fat_start_lba + 2 * v.fat_size_sectors ≤ v.data_start_lba))
  pub range : v.data_start_lba + v.total_clusters * v.sectors_per_cluster < 2 ^ 32
  pub spread : (1 ≤ v.sectors_per_cluster) × (v.sectors_per_cluster < 256)
  pub size : v.cluster_size ≡ v.sectors_per_cluster * 512
  pub works_all :
      (s : ℕ)
      → v.fat_start_lba ≤ s
      → s < v.data_start_lba + v.total_clusters * v.sectors_per_cluster
      → v.works s ≡ true

-- A cluster of the volume.
abbrev pub IsCluster : Volume → ℕ → Type 0
IsCluster v c = c < v.total_clusters + 2

-- Where there are two copies of the table, they agree.
unfoldable pub IsMirrored : Volume → Disk → Type 0
IsMirrored v d =
    v.num_fats ≡ 2
    → (q k : ℕ) → v.fat_start_lba ≤ q
    → q < v.fat_start_lba + v.fat_size_sectors
    → d (q + v.fat_size_sectors) k ≡ d q k

-- What a call that found a cluster has done: the lowest free one ends a chain of its own.
pub record Taken (v : Volume) (d : Disk) (out : ℕ × Disk) (c : ℕ) : Type 0 where
  pub number : out.0 ≡ c
  pub range : (2 ≤ c) × (c < v.total_clusters + 2)
  pub free : fat_read_entry v d c ≡ 0
  pub lowest : (b : ℕ) → 2 ≤ b → b < c → fat_read_entry v d b ≢ 0
  pub entries :
      (b : ℕ)
      → IsCluster v b
      → fat_read_entry v out.1 b ≡ (if c == b then 0xFFFF else fat_read_entry v d b)
  pub data_same : (s k : ℕ) → v.data_start_lba ≤ s → out.1 s k ≡ d s k
  pub mirrored : IsMirrored v d → IsMirrored v out.1

-- The two bytes of an entry, and those of another.
get-put :
    (c b x : ℕ) (buf : ℕ → ℕ)
    → x < 65536
    → b / 256 ≡ c / 256
    → get16 (put16 (entry_index c) x buf) (entry_index b)
      ≡ (if c == b then x else get16 buf (entry_index b))
get-put c b x buf small near = elim (Bool-cases (c == b)) [
  | inl e ↦ let same : c ≡ b = ground (arith, e) in rw same (ground arith)
  | inr e ↦
      let differ : c ≢ b = ground (arith, e) in
      let ne : entry_index b ≢ entry_index c = omega (arith, near, differ) in
      let ne1 : entry_index b + 1 ≢ entry_index c = omega arith in
      let ne2 : entry_index b ≢ entry_index c + 1 = omega arith in ground (arith, e, ne, ne1, ne2)
]

module _ (v : Volume) (iv : IsVolume v) where
  table_end : v.fat_start_lba + v.fat_size_sectors ≤ v.data_start_lba
  table_end = elim iv.order [ inl o ↦ o.1 | inr o ↦ omega (arith, o.1) ]

  pub table_first : v.fat_start_lba ≤ v.data_start_lba
  table_first = omega (arith, table_end)

  sector_below : (c : ℕ) → IsCluster v c → c / 256 < v.fat_size_sectors
  sector_below c lt = omega (arith, iv.covers)

  sector_lem : (c : ℕ) → IsCluster v c → entry_sector v c ≡ v.fat_start_lba + c / 256
  sector_lem c lt = omega (arith, sector_below c lt, table_end, iv.range)

  sector_works : (c : ℕ) → IsCluster v c → v.works (v.fat_start_lba + c / 256) ≡ true
  sector_works c lt =
      iv.works_all (v.fat_start_lba + c / 256) (omega arith)
        (omega (arith, sector_below c lt, table_end))

  mirror_lem :
      (c : ℕ)
      → IsCluster v c
      → v.fat_start_lba + 2 * v.fat_size_sectors ≤ v.data_start_lba
      → (v.works (v.fat_start_lba + c / 256 + v.fat_size_sectors) ≡ true)
        × ((v.fat_start_lba + c / 256 + v.fat_size_sectors) % 2 ^ 32
            ≡ v.fat_start_lba + c / 256 + v.fat_size_sectors)
  mirror_lem c lt end = (
    iv.works_all (v.fat_start_lba + c / 256 + v.fat_size_sectors) (omega arith)
        (omega (arith, sector_below c lt, end)),
    omega (arith, sector_below c lt, end, iv.range),
  )

  -- Reading an entry reads two bytes of the first copy of the table.
  pub read_lem :
      (d : Disk) (c : ℕ)
      → IsCluster v c
      → fat_read_entry v d c ≡ get16 (d (v.fat_start_lba + c / 256)) (entry_index c)
  unfolding fat_read_entry
  read_lem d c lt = rw (sector_lem c lt, sector_works c lt)

  -- Writing one writes the sector to both copies.
  write_lem :
      (c x : ℕ) (d : Disk) (s k : ℕ)
      → IsCluster v c
      → fat_write_entry v c x d s k ≡ (
          if s == v.fat_start_lba + c / 256
            || (s == v.fat_start_lba + c / 256 + v.fat_size_sectors && ltb 1 v.num_fats)
          then put16 (entry_index c) x (d (v.fat_start_lba + c / 256)) k
          else d s k)
  unfolding fat_write_entry
  write_lem c x d s k lt = elim iv.order [
    | inl o ↦ rw (sector_lem c lt, sector_works c lt, o.0) (ground arith)
    | inr o ↦
        let (works, e) = mirror_lem c lt o.1 in
        rw (sector_lem c lt, e, sector_works c lt, works, o.0) (ground arith)
  ]

  -- In the first copy only the entry's sector changes.
  first_copy :
      (c x b k : ℕ) (d : Disk)
      → IsCluster v c
      → IsCluster v b
      → fat_write_entry v c x d (v.fat_start_lba + b / 256) k ≡ (
          if b / 256 == c / 256
          then put16 (entry_index c) x (d (v.fat_start_lba + b / 256)) k
          else d (v.fat_start_lba + b / 256) k)
  first_copy c x b k d lt lt' =
      let apart : (v.fat_start_lba + b / 256 == v.fat_start_lba + c / 256 + v.fat_size_sectors)
          ≡ false =
        ground (arith, sector_below b lt') in
      elim (Bool-cases (b / 256 == c / 256)) [
        | inl e ↦
            let same : b / 256 ≡ c / 256 = ground (arith, e) in
            write_lem c x d (v.fat_start_lba + b / 256) k lt ∙ rw same (ground arith)
        | inr e ↦ write_lem c x d (v.fat_start_lba + b / 256) k lt ∙ rw apart (ground (arith, e))
      ]

  -- The entries are a map: reading gives back what was written last.
  pub read-write :
      (c x b : ℕ) (d : Disk)
      → IsCluster v c
      → IsCluster v b
      → x < 65536
      → fat_read_entry v (fat_write_entry v c x d) b ≡ (if c == b then x else fat_read_entry v d b)
  read-write c x b d lt lt' small =
      let sector : ℕ = v.fat_start_lba + b / 256 in
      rw
        (
          read_lem (fat_write_entry v c x d) b lt',
          read_lem d b lt',
          first_copy c x b (entry_index b) d lt lt',
          first_copy c x b (entry_index b + 1) d lt lt',
        )
        (elim (Bool-cases (b / 256 == c / 256)) [
          | inl e ↦ rw e (get-put c b x (d sector) small (ground (arith, e)))
          | inr e ↦ rw e (ground (arith, e))
        ])

  -- The files' data is behind the table.
  pub write-data :
      (c x s k : ℕ) (d : Disk)
      → IsCluster v c
      → v.data_start_lba ≤ s
      → fat_write_entry v c x d s k ≡ d s k
  write-data c x s k d lt le = elim iv.order [
    | inl o ↦ write_lem c x d s k lt ∙ rw o.0 (ground (arith, sector_below c lt, o.1))
    | inr o ↦ write_lem c x d s k lt ∙ rw o.0 (ground (arith, sector_below c lt, o.1))
  ]

  -- Disks with the same sectors in front of the data have the same entries.
  pub entry_of_table :
      (d d' : Disk) (c : ℕ)
      → IsCluster v c
      → ((q k : ℕ) → q < v.data_start_lba → d' q k ≡ d q k)
      → fat_read_entry v d' c ≡ fat_read_entry v d c
  entry_of_table d d' c lt same =
      let below : v.fat_start_lba + c / 256 < v.data_start_lba =
        omega (arith, sector_below c lt, table_end) in
      rw (
        read_lem d' c lt,
        read_lem d c lt,
        same (v.fat_start_lba + c / 256) (entry_index c) below,
        same (v.fat_start_lba + c / 256) (entry_index c + 1) below,
      )

  -- Both copies get the entry.
  pub write-IsMirrored :
      (c x : ℕ) (d : Disk) → IsCluster v c → IsMirrored v d → IsMirrored v (fat_write_entry v c x d)
  unfolding IsMirrored
  write-IsMirrored c x d lt m two q k lo hi =
      let below = sector_below c lt in
      write_lem c x d (q + v.fat_size_sectors) k lt
      ∙ ground (arith, m two q k lo hi, below, two, lo, hi)
      ∙ sym (write_lem c x d q k lt)

  pub table-IsMirrored :
      (d d' : Disk)
      → ((q k : ℕ) → q < v.data_start_lba → d' q k ≡ d q k)
      → IsMirrored v d
      → IsMirrored v d'
  unfolding IsMirrored
  table-IsMirrored d d' same m two q k lo hi = elim iv.order [
    | inl o ↦ absurd (omega (arith, o.0, two))
    | inr o ↦
        same (q + v.fat_size_sectors) k (omega (arith, o.1))
        ∙ m two q k lo hi
        ∙ sym (same q k (omega (arith, o.1)))
  ]

  -- `fat_alloc_cluster` returns 0 exactly when no cluster is free, and then changes nothing. Otherwise it takes
  -- the lowest free cluster, makes it the end of a chain, and leaves the other entries and the files' data alone.
  pub fat_alloc_cluster_lem :
      (d : Disk)
      → ((fat_alloc_cluster v d ≡ (0, d))
          × ((b : ℕ) → 2 ≤ b → IsCluster v b → fat_read_entry v d b ≢ 0))
        ⊎ ((c : ℕ) × Taken v d (fat_alloc_cluster v d) c)
  unfolding fat_alloc_cluster
  fat_alloc_cluster_lem d =
      let test : ℕ → Bool = λ c. fat_read_entry v d c == 0 in
      elim (Option-cases (first_from v.total_clusters 2 test)) [
        | inl e ↦ inl (rw e, λ b lo lt. ground (arith, first_from-none v.total_clusters 2 test e b))
        | inr (c, e) ↦
            let f = first_from-IsFirst v.total_clusters 2 c test e in
            let lt : IsCluster v c = omega (arith, f.below) in
            inr (
              c,
              rw e (record {
                number = refl;
                range = (f.above, lt);
                free = ground (arith, f.hit);
                lowest = λ b lo hi. ground (arith, f.missed b);
                entries = λ b lt'. read-write c 0xFFFF b d lt lt' (omega arith);
                data_same = λ s k le. write-data c 0xFFFF s k d lt le;
                mirrored = write-IsMirrored c 0xFFFF d lt;
              }),
            )
      ]
