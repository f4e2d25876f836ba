-- ===== src/Fat16.antt =====
-- The FAT16 file system of src/fat16.c: the file allocation table, chains of clusters, and the bytes of files.
-- A drive holds the bytes of each sector by its number, and `works` says for which sectors the calls of src/ata.c
-- succeed. `sector_buf` is only written before it is read, and left out.
pub mod Entries
pub mod Chain
pub mod Grow
pub mod Alloc
pub mod Place
pub mod Store
pub mod Fetch
pub mod Contents
pub mod Files
mod Tests
use microkernel_os.Prelude.{
  ℕ, zero, suc, ◌+◌, ◌-◌, ◌*◌, ◌/◌, ◌%◌, ◌^◌, ◌≤◌, ◌<◌, ◌≡◌, ◌≢◌, ◌⊎◌, ◌↔◌, ◌∙◌, refl, sym, ap,
  fun_ext, Bool, true, false, not, ◌&&◌, ◌||◌, Option, none, some, List, [], ◌∷◌, ◌++◌, map, inl,
  inr, arith, ltb, leb, ◌==◌, if◌then◌else◌, Bool-cases, Option-cases, Table, update, first_from,
  count_from, for_range, IsFirst, first_from-IsFirst, first_from-none, first_from_eq,
  first_from_congr, count_from_congr, count_from-flip, count_from-le, count_from-lt_of_miss,
  count_from_all, for_range_inv, below_suc, length, get_or, take, drop, replicate, length-append,
  length-replicate, length-drop, lt→ltb, leb→le, ltb→lt, ==_iff, if-intro, option_case,
  option_case-intro,
}

-- `fs_info`, as far as it is read below, with the drive's answers.
pub record Volume : Type 0 where
  pub sectors_per_cluster : ℕ
  pub num_fats : ℕ
  pub fat_size_sectors : ℕ
  pub fat_start_lba : ℕ
  pub data_start_lba : ℕ
  pub cluster_size : ℕ
  pub total_clusters : ℕ
  pub works : ℕ → Bool

-- The bytes of each sector.
abbrev pub Disk : Type 0
Disk = ℕ → ℕ → ℕ

abbrev pub fat16_sector_size : ℕ
fat16_sector_size = 512

-- `*(uint16_t*)(buf + idx)`, and an assignment to it.
abbrev pub get16 : (ℕ → ℕ) → (idx : ℕ) → ℕ
get16 buf idx = buf idx % 256 + 256 * (buf (idx + 1) % 256)

abbrev pub put16 : (idx value : ℕ) → (ℕ → ℕ) → ℕ → ℕ
put16 idx value buf k =
    if k == idx then value % 256 else if k == idx + 1 then value / 256 else buf k

-- `ata_write_sector` of a buffer.
abbrev pub write_sector : (lba : ℕ) → (ℕ → ℕ) → Disk → Disk
write_sector lba buf d s k = if s == lba then buf k else d s k

-- The sector of the table that holds the entry of a cluster, and the place in it.
abbrev pub entry_sector : Volume → (cluster : ℕ) → ℕ
entry_sector v cluster = (v.fat_start_lba + cluster * 2 / fat16_sector_size) % 2 ^ 32

abbrev pub entry_index : (cluster : ℕ) → ℕ
entry_index cluster = cluster * 2 % fat16_sector_size

unfoldable pub fat_read_entry : Volume → Disk → (cluster : ℕ) → ℕ
fat_read_entry v d cluster =
    if v.works (entry_sector v cluster)
    then get16 (d (entry_sector v cluster)) (entry_index cluster)
    else 0xFFFF

unfoldable pub fat_write_entry : Volume → (cluster value : ℕ) → Disk → Disk
fat_write_entry v cluster value d =
    let sector : ℕ = entry_sector v cluster in
    let fat2_sector : ℕ = (sector + v.fat_size_sectors) % 2 ^ 32 in
    let buf = put16 (entry_index cluster) value (d sector) in
    let d1 = if v.works sector then write_sector sector buf d else d in
    let d2 = if v.works fat2_sector then write_sector fat2_sector buf d1 else d1 in
    if not (v.works sector) then d else if ltb 1 v.num_fats then d2 else d1

-- The first free cluster, or 0. The counter has 16 bits, so the code needs `total_clusters + 2` to be one of them.
unfoldable pub fat_alloc_cluster : Volume → Disk → ℕ × Disk
fat_alloc_cluster v d =
    option_case (first_from v.total_clusters 2 (λ c. fat_read_entry v d c == 0)) (0, d)
      (λ c. (c, fat_write_entry v c 0xFFFF d))

-- A number that a chain may go on with.
abbrev pub is_link : ℕ → Bool
is_link c = leb 2 c && ltb c 0xFFF8

-- The loop of `fat_free_chain`.
unfoldable pub fat_free_chain : (fuel : ℕ) → Volume → (c : ℕ) → Disk → Disk
fat_free_chain zero v c d = d
fat_free_chain (suc fuel) v c d =
    let rest = fat_free_chain fuel v (fat_read_entry v d c) (fat_write_entry v c 0 d) in
    if is_link c then rest else d

unfoldable pub cluster_to_lba : Volume → (cluster : ℕ) → ℕ
cluster_to_lba v cluster =
    (v.data_start_lba + (cluster + 2 ^ 32 - 2) % 2 ^ 32 * v.sectors_per_cluster) % 2 ^ 32

-- More than the clusters that a volume has.
abbrev pub chain_fuel : ℕ
chain_fuel = 65536

-- The loop of `fat16_write_file` that takes the clusters; `none` is its `return -1`, with all given back.
unfoldable pub alloc_chain : (rounds i first prev : ℕ) → Volume → Disk → Option ℕ × Disk
alloc_chain zero i first prev v d = (some first, d)
alloc_chain (suc rounds) i first prev v d =
    let (c, d1) = fat_alloc_cluster v d in
    let undone = if first == 0 then d1 else fat_free_chain chain_fuel v first d1 in
    let d2 = if i == 0 then d1 else fat_write_entry v prev c d1 in
    let rest = alloc_chain rounds (i + 1) (if i == 0 then c else first) c v d2 in
    if c == 0 then (none, undone) else rest

-- `clusters_needed`
abbrev pub clusters_needed : Volume → (size : ℕ) → ℕ
clusters_needed v size =
    let n : ℕ = (size + v.cluster_size + 2 ^ 32 - 1) % 2 ^ 32 / v.cluster_size in
    if n == 0 then 1 else n

-- `size - done`, but at most a sector.
abbrev pub chunk_of : (size done : ℕ) → ℕ
chunk_of size done = if ltb 512 (size - done) then 512 else size - done

-- The variables of the loop that writes the data; `ok` is false where a sector could not be written.
pub record Writing : Type 0 where
  pub ok : Bool
  pub written : ℕ
  pub disk : Disk

-- The body of its inner loop, for sector `s` of the cluster at `lba`.
unfoldable pub write_step : Volume → (lba size : ℕ) → (ℕ → ℕ) → (s : ℕ) → Writing → Writing
write_step v lba size src s w =
    let sector : ℕ = (lba + s) % 2 ^ 32 in
    let chunk : ℕ = chunk_of size w.written in
    let sec_buf : ℕ → ℕ = λ k. if ltb k chunk then src (w.written + k) else 0 in
    if not (w.ok && ltb w.written size)
    then w
    else if not (v.works sector)
    then record w { ok = false }
    else record {
      ok = true;
      written = w.written + chunk;
      disk = write_sector sector sec_buf w.disk;
    }

unfoldable pub write_loop :
    (fuel : ℕ) → Volume → (size : ℕ) → (ℕ → ℕ) → (cluster : ℕ) → Writing → Writing
write_loop zero v size src cluster w = w
write_loop (suc fuel) v size src cluster w =
    let w1 =
      for_range v.sectors_per_cluster 0 (write_step v (cluster_to_lba v cluster) size src) w in
    let rest = write_loop fuel v size src (fat_read_entry v w1.disk cluster) w1 in
    if not (is_link cluster && ltb w.written size) then w else if w1.ok then rest else w1

-- How the part of `fat16_write_file` between its two searches of the directory ends: with `return -1`, with a
-- `return` in the middle of the data, or with all sectors done, when the code goes on to make the directory's entry.
pub data Stored : Type 0 where
  no_room : Stored
  cut_short : (written : ℕ) → Stored
  stored : (first_cluster written : ℕ) → Stored

unfoldable pub write_contents : Volume → (size : ℕ) → (ℕ → ℕ) → Disk → Stored × Disk
write_contents v size src d =
    let (first, d1) = alloc_chain (clusters_needed v size) 0 0 0 v d in
    option_case first (no_room, d1)
      (λ c.
        let w = write_loop chain_fuel v size src c (record { ok = true; written = 0; disk = d1 }) in
        (if w.ok then stored c w.written else cut_short w.written, w.disk))

-- The variables of the loop of `fat16_read_file`.
pub record Reading : Type 0 where
  pub ok : Bool
  pub read_total : ℕ
  pub dst : ℕ → ℕ

unfoldable pub read_step : Volume → Disk → (lba to_read : ℕ) → (s : ℕ) → Reading → Reading
read_step v d lba to_read s r =
    let sector : ℕ = (lba + s) % 2 ^ 32 in
    let chunk : ℕ = chunk_of to_read r.read_total in
    if not (r.ok && ltb r.read_total to_read)
    then r
    else if not (v.works sector)
    then record r { ok = false }
    else record {
      ok = true;
      read_total = r.read_total + chunk;
      dst = λ k.
          if leb r.read_total k && ltb k (r.read_total + chunk)
          then d sector (k - r.read_total)
          else r.dst k;
    }

unfoldable pub read_loop :
    (fuel : ℕ) → Volume → Disk → (to_read : ℕ) → (cluster : ℕ) → Reading → Reading
read_loop zero v d to_read cluster r = r
read_loop (suc fuel) v d to_read cluster r =
    let r1 =
      for_range v.sectors_per_cluster 0 (read_step v d (cluster_to_lba v cluster) to_read) r in
    let rest = read_loop fuel v d to_read (fat_read_entry v d cluster) r1 in
    if not (is_link cluster && ltb r.read_total to_read) then r else if r1.ok then rest else r1

-- `fat16_read_file` behind its search of the directory: the number of bytes, and the buffer.
unfoldable pub read_contents :
    Volume → Disk → (cluster file_size max_size : ℕ) → (ℕ → ℕ) → ℕ × (ℕ → ℕ)
read_contents v d cluster file_size max_size buf =
    let to_read : ℕ = if ltb file_size max_size then file_size else max_size in
    let r =
      read_loop chain_fuel v d to_read cluster (record { ok = true; read_total = 0; dst = buf }) in
    (r.read_total, r.dst)
