-- ===== src/Fat16/Contents.antt =====
-- The bytes of a file of src/fat16.c: `fat16_write_file` and `fat16_read_file` without their searches of directories.
use microkernel_os.Prelude.{
  ℕ, ◌+◌, ◌-◌, ◌*◌, ◌/◌, ◌%◌, ◌^◌, ◌≤◌, ◌<◌, ◌≡◌, ◌⊎◌, ◌∙◌, refl, ap, true, false, none, some, List,
  [], ◌∷◌, inl, inr, arith, if◌then◌else◌, count_from-le, length,
}
use native.Mathlib.Nat.{div-add-mod, mod-lt}
use microkernel_os.Fat16.{
  Stored, no_room, cut_short, stored, Volume, Disk, chain_fuel, fat_read_entry, alloc_chain,
  clusters_needed, write_loop, write_contents,
}
use microkernel_os.Fat16.Entries.{IsMirrored, table-IsMirrored, IsVolume, IsCluster, entry_of_table}
use microkernel_os.Fat16.Chain.{occurs, IsPath, IsChain, IsPath-frame}
use microkernel_os.Fat16.Grow.{free_test, free_count}
use microkernel_os.Fat16.Alloc.{IsNewChain, alloc_chain_lem}
use microkernel_os.Fat16.Place.{lba_lem}
use microkernel_os.Fat16.Store.{Holds, IsElsewhere, write_loop_lem}

-- The clusters that are taken hold the file.
needed_lem :
    (v : Volume) (size : ℕ)
    → 1 ≤ v.cluster_size
    → size + v.cluster_size ≤ 2 ^ 32
    → (1 ≤ clusters_needed v size) × (size ≤ clusters_needed v size * v.cluster_size)
needed_lem v size some_size fits =
    let a : ℕ = size + v.cluster_size - 1 in
    let e : (size + v.cluster_size + 2 ^ 32 - 1) % 2 ^ 32 ≡ a = omega arith in
    let whole = div-add-mod a v.cluster_size in
    let left = mod-lt a some_size in
    let room : size ≤ a / v.cluster_size * v.cluster_size = omega (arith, whole, left) in
    rw e (ground (arith, room))

module _ (v : Volume) (iv : IsVolume v) where
  some_bytes : 1 ≤ v.cluster_size
  some_bytes = omega (arith, iv.size, iv.spread.0)

  -- The table lies in no cluster.
  table-IsElsewhere :
      (d : Disk) (c q : ℕ) (cs : List ℕ) (z : ℕ)
      → q < v.data_start_lba
      → IsPath v d c cs z
      → IsElsewhere v q cs
  unfolding IsPath IsElsewhere
  table-IsElsewhere d c q [] z lt p = tt
  table-IsElsewhere d c q (x ∷ xs) z lt (e, lo, hi, p) = (
    inl (omega (arith, (lba_lem v iv x lo hi).0)),
    table-IsElsewhere d (fat_read_entry v d x) q xs z lt p,
  )

  short_chain :
      (d0 d : Disk) (first : ℕ) (cs : List ℕ) → IsNewChain v d0 d first cs → length cs ≤ chain_fuel
  unfolding free_count
  short_chain d0 d first cs new =
      omega (arith, new.room, count_from-le v.total_clusters 2 (free_test v d0), iv.clusters)

  -- What a call that found room has done.
  pub record IsWritten (size : ℕ) (src : ℕ → ℕ) (d : Disk) (out : Stored × Disk) : Type 0 where
    pub first : ℕ
    pub cs : List ℕ
    pub result : out.0 ≡ stored first size
    pub chain : IsChain v out.1 first cs
    pub short : length cs ≤ chain_fuel
    pub room : size ≤ length cs * v.cluster_size
    pub holds : Holds v size src out.1 cs 0
    pub were_free : (b : ℕ) → IsCluster v b → occurs b cs ≡ true → fat_read_entry v d b ≡ 0
    pub entries :
        (b : ℕ)
        → IsCluster v b
        → occurs b cs ≡ false
        → fat_read_entry v out.1 b ≡ fat_read_entry v d b
    pub sectors : (q k : ℕ) → v.data_start_lba ≤ q → IsElsewhere v q cs → out.1 q k ≡ d q k
    pub mirrored : IsMirrored v d → IsMirrored v out.1

  store_lem :
      (size : ℕ) (src : ℕ → ℕ) (d d1 : Disk) (first : ℕ) (cs : List ℕ)
      → size ≤ length cs * v.cluster_size
      → IsNewChain v d d1 first cs
      → let w =
          write_loop chain_fuel v size src first (record { ok = true; written = 0; disk = d1 }) in
        IsWritten size src d (if w.ok then stored first w.written else cut_short w.written, w.disk)
  unfolding IsChain
  store_lem size src d d1 first cs room new =
      let (z, p, end) = new.chain in
      let short = short_chain d d1 first cs new in
      let s =
        write_loop_lem v iv size src chain_fuel 0 first cs z d1 short p end (omega arith)
          (omega (arith, room)) in
      let w =
        write_loop chain_fuel v size src first (record { ok = true; written = 0; disk = d1 }) in
      let table : (q k : ℕ) → q < v.data_start_lba → w.disk q k ≡ d1 q k =
        λ q k lt. s.elsewhere q k (table-IsElsewhere d1 first q cs z lt p) in
      let same : (b : ℕ) → IsCluster v b → fat_read_entry v w.disk b ≡ fat_read_entry v d1 b =
        λ b lt. entry_of_table v iv d1 w.disk b lt table in
      record {
        first = first;
        cs = cs;
        result = rw s.fine (ap (λ n. stored first n) s.all_written);
        chain = (z, IsPath-frame v d1 w.disk first cs z (λ b lt o. same b lt) p, end);
        short = short;
        room = room;
        holds = s.holds;
        were_free = new.was_free;
        entries = λ b lt o. same b lt ∙ new.others b lt o;
        sectors = λ q k le h. s.elsewhere q k h ∙ new.data_same q k le;
        mirrored = λ m. table-IsMirrored v iv d1 w.disk table (new.mirrored m);
      }

  -- Without room nothing is written, and the table is as it was.
  pub record IsRefused (size : ℕ) (d : Disk) (out : Stored × Disk) : Type 0 where
    pub result : out.0 ≡ no_room
    pub shortage : free_count v d < clusters_needed v size
    pub entries : (b : ℕ) → IsCluster v b → fat_read_entry v out.1 b ≡ fat_read_entry v d b
    pub sectors : (q k : ℕ) → v.data_start_lba ≤ q → out.1 q k ≡ d q k
    pub mirrored : IsMirrored v d → IsMirrored v out.1

  contents_none :
      (size : ℕ) (src : ℕ → ℕ) (d : Disk)
      → (alloc_chain (clusters_needed v size) 0 0 0 v d).0 ≡ none
      → write_contents v size src d ≡ (no_room, (alloc_chain (clusters_needed v size) 0 0 0 v d).1)
  unfolding write_contents
  contents_none size src d e = rw e

  contents_some :
      (size : ℕ) (src : ℕ → ℕ) (d : Disk) (first : ℕ)
      → (alloc_chain (clusters_needed v size) 0 0 0 v d).0 ≡ some first
      → write_contents v size src d ≡ (
          let w = write_loop chain_fuel v size src first (record {
            ok = true;
            written = 0;
            disk = (alloc_chain (clusters_needed v size) 0 0 0 v d).1;
          }) in
          (if w.ok then stored first w.written else cut_short w.written, w.disk))
  unfolding write_contents
  contents_some size src d first e = rw e

  -- The two ways `fat16_write_file` goes once the directory is searched, on a volume of at most 65,518 clusters
  -- whose table covers them and lies in front of their data, without bad sectors, and for a size that with one
  -- cluster more is at most 2^32: either fewer clusters are free than the file needs, and then it fails and leaves
  -- the table and every byte of the data area as they were; or all bytes are written, into a new chain of clusters
  -- that were free, and all other entries and sectors stay as they were.
  pub write_contents_lem :
      (size : ℕ) (src : ℕ → ℕ) (d : Disk)
      → size + v.cluster_size ≤ 2 ^ 32
      → IsWritten size src d (write_contents v size src d)
        ⊎ IsRefused size d (write_contents v size src d)
  write_contents_lem size src d fits =
      let n : ℕ = clusters_needed v size in
      let need = needed_lem v size some_bytes fits in
      elim (alloc_chain_lem v iv n d need.0) [
        | inl (first, cs, made, len, new) ↦
            rw (contents_some size src d first made)
              (inl (store_lem size src d (alloc_chain n 0 0 0 v d).1 first cs (rw len need.1) new))
        | inr (failed, none_made) ↦ rw (contents_none size src d failed) (
            inr (record {
              result = refl;
              shortage = none_made.short;
              entries = none_made.entries;
              sectors = none_made.data_same;
              mirrored = none_made.mirrored;
            }))
      ]
