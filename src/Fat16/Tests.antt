-- ===== src/Fat16/Tests.antt =====
-- The file system of src/fat16.c at concrete inputs.
use microkernel_os.Prelude.{
  ℕ, ◌+◌, ◌%◌, ◌<◌, ◌≡◌, ◌⊎◌, refl, true, ◌||◌, [], ◌∷◌, inr, arith, ltb, ◌==◌, if◌then◌else◌,
  first_from, count_from,
}
use microkernel_os.Fat16.{
  stored, Volume, Disk, chain_fuel, fat_read_entry, fat_alloc_cluster, fat_free_chain,
  cluster_to_lba, write_contents, read_contents,
}
use microkernel_os.Fat16.Entries.{IsMirrored, IsVolume, IsCluster}
use microkernel_os.Fat16.Chain.{occurs, IsPath, IsChain}
use microkernel_os.Fat16.Grow.{free_count}
use microkernel_os.Fat16.Contents.{IsWritten, IsRefused, write_contents_lem}
use microkernel_os.Fat16.Files.{
  copies-IsMirrored, read_contents-write_contents, write_contents-keeps,
  fat_free_chain-write_contents,
}

-- Five clusters of two sectors, numbered from 2, behind two copies of a table of one sector.
abbrev small_volume : Volume
small_volume = record {
  sectors_per_cluster = 2;
  num_fats = 2;
  fat_size_sectors = 1;
  fat_start_lba = 1;
  data_start_lba = 4;
  cluster_size = 1024;
  total_clusters = 5;
  works = λ s. ltb s 100;
}

small_volume-IsVolume : IsVolume small_volume
small_volume-IsVolume = record {
  covers = omega arith;
  clusters = omega arith;
  order = inr (refl, omega arith);
  range = omega arith;
  spread = (omega arith, omega arith);
  size = refl;
  works_all = λ s lo hi. ground arith;
}

-- One file, in the clusters 2 and 3, full of sevens.
abbrev one_file : Disk
one_file s k =
    if s == 1 || s == 2 then (if k == 4 then 3 else if k == 6 || k == 7 then 255 else 0) else 7

one_file-IsChain : IsChain small_volume one_file 2 (2 ∷ 3 ∷ [])
unfolding IsChain IsPath fat_read_entry
one_file-IsChain =
    (0xFFFF, (refl, omega arith, omega arith, (refl, omega arith, omega arith, refl)), omega arith)

three_free : free_count small_volume one_file ≡ 3
unfolding free_count fat_read_entry count_from
three_free = refl

-- The third cluster from 2 on is the first free one.
next_cluster : (fat_alloc_cluster small_volume one_file).0 ≡ 4
unfolding fat_alloc_cluster fat_read_entry first_from
next_cluster = refl

write_contents_lem_example :
    IsWritten small_volume small_volume-IsVolume 1500
      (λ k. k % 256)
      one_file
      (write_contents small_volume 1500 (λ k. k % 256) one_file)
    ⊎ IsRefused small_volume small_volume-IsVolume 1500 one_file
        (write_contents small_volume 1500 (λ k. k % 256) one_file)
write_contents_lem_example =
    write_contents_lem small_volume small_volume-IsVolume 1500 (λ k. k % 256) one_file (omega arith)

read_contents-write_contents_example :
    let out = write_contents small_volume 1500 (λ k. k % 256) one_file in
    (first : ℕ) × (out.0 ≡ stored first 1500)
    × ((read_contents small_volume out.1 first 1500 1200 (λ k. 0)).0 ≡ 1200)
    × ((k : ℕ)
        → k < 1500
        → k < 1200
        → (read_contents small_volume out.1 first 1500 1200 (λ k. 0)).1 k ≡ k % 256)
read_contents-write_contents_example =
    read_contents-write_contents small_volume small_volume-IsVolume 1500 (λ k. k % 256) one_file
      (omega arith) 1200 (λ k. 0) (omega (arith, three_free))

write_contents-keeps_example :
    let d = (write_contents small_volume 1500 (λ k. k % 256) one_file).1 in
    IsChain small_volume d 2 (2 ∷ 3 ∷ [])
    × ((x t k : ℕ)
        → occurs x (2 ∷ 3 ∷ []) ≡ true
        → t < 2
        → d (cluster_to_lba small_volume x + t) k ≡ one_file (cluster_to_lba small_volume x + t) k)
write_contents-keeps_example =
    write_contents-keeps small_volume small_volume-IsVolume 1500 (λ k. k % 256) one_file
      (omega arith) 2 (2 ∷ 3 ∷ []) one_file-IsChain

fat_free_chain-write_contents_example :
    let out = write_contents small_volume 1500 (λ k. k % 256) one_file in
    (first : ℕ) × (out.0 ≡ stored first 1500)
    × ((b : ℕ)
        → IsCluster small_volume b
        → fat_read_entry small_volume (fat_free_chain chain_fuel small_volume first out.1) b
          ≡ fat_read_entry small_volume one_file b)
fat_free_chain-write_contents_example =
    fat_free_chain-write_contents small_volume small_volume-IsVolume 1500 (λ k. k % 256) one_file
      (omega arith) (omega (arith, three_free))

one_file-IsMirrored : IsMirrored small_volume one_file
unfolding IsMirrored
one_file-IsMirrored two q k lo hi = let e : q ≡ 1 = omega arith in rw e

copies-IsMirrored_example :
    IsMirrored small_volume (write_contents small_volume 1500 (λ k. k % 256) one_file).1
    × IsMirrored small_volume (fat_free_chain chain_fuel small_volume 2 one_file)
copies-IsMirrored_example =
    copies-IsMirrored small_volume small_volume-IsVolume 1500 (λ k. k % 256) one_file (omega arith)
      2 (2 ∷ 3 ∷ []) one_file-IsChain (omega arith) one_file-IsMirrored
