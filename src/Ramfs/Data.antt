-- ===== src/Ramfs/Data.antt =====
-- The operations of src/ramfs.c on a file's data: write, append, read and delete.
pub mod Laws
use microkernel_os.Prelude.{
  ℕ, zero, suc, ◌+◌, ◌-◌, ◌*◌, ◌/◌, ◌%◌, ◌^◌, ◌≤◌, ◌<◌, ◌≡◌, ◌≢◌, ◌⊎◌, ◌↔◌, ◌∙◌, refl, sym, ap,
  fun_ext, Bool, true, false, not, ◌&&◌, ◌||◌, Option, none, some, List, [], ◌∷◌, ◌++◌, map, inl,
  inr, arith, ltb, leb, ◌==◌, if◌then◌else◌, Bool-cases, Option-cases, Table, update, first_from,
  count_from, for_range, IsFirst, first_from-IsFirst, first_from-none, first_from_eq,
  first_from_congr, count_from_congr, count_from-flip, count_from-le, count_from-lt_of_miss,
  count_from_all, for_range_inv, below_suc, length, get_or, take, drop, replicate, length-append,
  length-replicate, length-drop, lt→ltb, leb→le, ltb→lt, ==_iff, if-intro, option_case,
  option_case-intro,
}
use microkernel_os.CString.{strcmp, strlen}
use microkernel_os.Heap.{Heap, kmalloc, kfree}
use microkernel_os.Ramfs.Path.{ramfs_resolve_path, match_disk, match_disk_content, slash}
use microkernel_os.Ramfs.{
  Node, NodeType, file, dir, is_dir, Driver, ProcFiles, error, ramfs_max_files, ramfs_max_data,
  ramfs_find, create_node,
}

-- `memcpy(dst, src, n)` into a block, from bytes outside of the heap.
pub copy_into : (dst : ℕ) → (src : Table ℕ) → (n : ℕ) → Heap → Heap
copy_into dst src n h = record h {
  bytes = for_range n 0 (λ i m. update m (dst + i) (src i)) h.bytes;
}

-- `memcpy(dst, src, n)` from one block to another.
pub copy_block : (dst src n : ℕ) → Heap → Heap
copy_block dst src n h = record h {
  bytes = for_range n 0 (λ i m. update m (dst + i) (m (src + i))) h.bytes;
}

-- The bytes that a copy out of a block reads.
pub bytes_at : (m : Table ℕ) → (a n : ℕ) → List ℕ
bytes_at m a zero = []
bytes_at m a (suc n) = m a ∷ bytes_at m (a + 1) n

abbrev pub has_child : Table Node → ℕ → Option ℕ
has_child nodes idx =
    first_from ramfs_max_files 0 (λ i. (nodes i).active && (nodes i).parent == idx)

module _ {Disk : Type 0} (fat16 ntfs : Driver Disk) (proc : ProcFiles) where
  -- The state: the nodes, the working directory, the heap and the disks.
  pub record Fs : Type 0 where
    pub nodes : Table Node
    pub cwd : List ℕ
    pub heap : Heap
    pub disk : Disk

  abbrev put_node : Fs → ℕ → Node → Fs
  put_node s i n = record s { nodes = update s.nodes i n }

  -- `if (p) kfree(p)`
  abbrev pub free_block : ℕ → Heap → Heap
  free_block block h = if block == 0 then h else kfree block h

  -- A path on a mounted disk goes to its driver, FAT16 first, and any other one to `other`.
  abbrev pub on_disk : {A : Type 0} → Fs → ℕ → (Driver Disk → A) → A → A
  on_disk s d use_driver other =
      if d == 0
      then other
      else if fat16.on s.disk (d - 1)
      then use_driver fat16
      else if ntfs.on s.disk (d - 1)
      then use_driver ntfs
      else other

  pub ramfs_create : (now : ℕ) → List ℕ → NodeType → Fs → ℕ × Fs
  ramfs_create now path t s =
      let (d, rest) = match_disk_content (ramfs_resolve_path s.cwd path) in
      let (code, nodes') = create_node now s.cwd path t s.nodes in
      on_disk s (if is_dir t then d else 0)
        (λ v. let (r, disk') = v.mkdir rest s.disk in (r, record s { disk = disk' }))
        (code, record s { nodes = nodes' })

  -- The block that a write of `size` bytes goes to.
  pub make_room : ℕ → Node → Heap → Option Node × Heap
  make_room size n h =
      let (block, h') = kmalloc size (free_block n.data_block h) in
      if not (ltb n.capacity size)
      then (some n, h)
      else if block == 0
      then (none, h')
      else (some (record n { data_block = block; capacity = size }), h')

  -- `n->size = size; n->modified = now`
  pub fill_node : (now : ℕ) → Node → ℕ → Node
  fill_node now n size = record n { size = size; modified = now }

  -- The end of `ramfs_write`, at a node.
  pub write_node : (now : ℕ) → ℕ → List ℕ → ℕ → Fs → ℕ × Fs
  write_node now idx bytes size s =
      let n : Node = s.nodes idx in
      let cut : ℕ = if ltb ramfs_max_data size then ramfs_max_data else size in
      let (room, heap') = make_room cut n s.heap in
      if is_dir n.type
      then (error 1, s)
      else option_case room
          (
            error 5,
            record s {
              nodes = update s.nodes idx (record n { data_block = 0; capacity = 0; size = 0 });
              heap = heap';
            },
          )
          (λ m. (
            cut,
            record s {
              nodes = update s.nodes idx (fill_node now m cut);
              heap = copy_into m.data_block (λ i. get_or bytes i 0) cut heap';
            },
          ))

  pub ramfs_write : (now : ℕ) → List ℕ → List ℕ → ℕ → Fs → ℕ × Fs
  ramfs_write now path bytes size s =
      let (d, rest) = match_disk_content (ramfs_resolve_path s.cwd path) in
      let (code, s1) = ramfs_create now path file s in
      on_disk s d
        (λ v.
          let (r, disk') = v.write_file rest bytes size s.disk in (r, record s { disk = disk' }))
        (option_case (ramfs_find s.nodes s.cwd path)
          (if leb (2 ^ 31) code then (code, s1) else write_node now code bytes size s1)
          (λ idx. write_node now idx bytes size s))

  -- `ramfs_append` at a file's node. The sum of the sizes is of `uint32_t`.
  pub append_node : (now : ℕ) → ℕ → List ℕ → ℕ → Fs → ℕ × Fs
  append_node now idx bytes size s =
      let n : Node = s.nodes idx in
      let sum : ℕ = (n.size + size) % 2 ^ 32 in
      let new_size : ℕ = if ltb ramfs_max_data sum then ramfs_max_data else sum in
      let to_add : ℕ = (new_size + 2 ^ 32 - n.size) % 2 ^ 32 in
      let finish : Node → Heap → ℕ × Fs = λ m h. (
        to_add,
        record s {
          nodes = update s.nodes idx (record m { size = new_size; modified = now });
          heap = copy_into (m.data_block + n.size) (λ i. get_or bytes i 0) to_add h;
        },
      ) in
      let (block, heap') = kmalloc new_size s.heap in
      let moved : Heap =
        if not (n.data_block == 0) && ltb 0 n.size
        then copy_block block n.data_block n.size heap'
        else heap' in
      if ltb n.capacity new_size
      then if block == 0
        then (error 5, record s { heap = heap' })
        else finish (record n { data_block = block; capacity = new_size })
            (free_block n.data_block moved)
      else finish n s.heap

  pub ramfs_append : (now : ℕ) → List ℕ → List ℕ → ℕ → Fs → ℕ × Fs
  ramfs_append now path bytes size s =
      option_case (ramfs_find s.nodes s.cwd path) (ramfs_write now path bytes size s) (λ idx.
        if is_dir (s.nodes idx).type then (error 1, s) else append_node now idx bytes size s)

  -- `ramfs_read`: the result and the bytes that it leaves in the caller's buffer.
  pub ramfs_read : List ℕ → ℕ → Fs → ℕ × List ℕ
  ramfs_read path max s =
      let resolved = ramfs_resolve_path s.cwd path in
      let (d, rest) = match_disk resolved in
      if proc.is_virtual resolved
      then proc.read resolved max
      else on_disk s d (λ v. v.read_file rest max s.disk)
          (option_case (ramfs_find s.nodes s.cwd path) (error 1, [])
            (λ idx.
              let n : Node = s.nodes idx in
              let to_read : ℕ = if ltb n.size max then n.size else max in
              if is_dir n.type
              then (error 1, [])
              else if n.data_block == 0
              then (0, [])
              else (to_read, bytes_at s.heap.bytes n.data_block to_read)))

  pub ramfs_delete : List ℕ → Fs → ℕ × Fs
  ramfs_delete path s =
      let (d, rest) = match_disk_content (ramfs_resolve_path s.cwd path) in
      on_disk s d
        (λ v. let (r, disk') = v.delete_file rest s.disk in (r, record s { disk = disk' }))
        (option_case (ramfs_find s.nodes s.cwd path) (error 1, s)
          (λ idx.
            let n : Node = s.nodes idx in
            let removed : Node = record n { data_block = 0; capacity = 0; active = false } in
            if idx == 0
            then (error 1, s)
            else if is_dir n.type && option_case (has_child s.nodes idx) false (λ i. true)
            then (error 2, s)
            else (
              0,
              record s {
                nodes = update s.nodes idx removed;
                heap = free_block n.data_block s.heap;
              },
            )))

  -- The type and the size of a path on a drive.
  pub stat_on_disk : Fs → List ℕ → Driver Disk → ℕ × Option (NodeType × ℕ)
  stat_on_disk s rest v =
      let size : ℕ = v.file_size s.disk rest in
      if strcmp rest (slash ∷ []) == 0 || v.has_dir s.disk rest
      then (0, some (dir, 0))
      else if ltb size (2 ^ 31)
      then (0, some (file, size))
      else (error 1, none)

  -- `ramfs_stat` with room for both answers.
  pub ramfs_stat : List ℕ → Fs → ℕ × Option (NodeType × ℕ)
  ramfs_stat path s =
      let resolved = ramfs_resolve_path s.cwd path in
      let (d, rest) = match_disk resolved in
      if proc.is_virtual resolved && ltb 5 (strlen resolved)
      then proc.stat resolved
      else on_disk s d (stat_on_disk s rest) (
          option_case (ramfs_find s.nodes s.cwd path) (error 1, none)
            (λ idx. (0, some ((s.nodes idx).type, (s.nodes idx).size))))
