-- ===== src/Ramfs/Data/Laws.antt =====
-- What src/ramfs.c writes is what it reads back.
use microkernel_os.Prelude.{
  ℕ, suc, ◌+◌, ◌≤◌, ◌<◌, ◌≡◌, ◌⊎◌, ◌∙◌, refl, sym, ap, false, none, some, List, [], ◌∷◌, inl, inr,
  arith, ltb, ◌==◌, if◌then◌else◌, Bool-cases, Table, update, length, get_or,
}
use microkernel_os.Prelude.Copy.{write_bytes}
use microkernel_os.Heap.{Heap, kmalloc}
use microkernel_os.Ramfs.Path.{ramfs_resolve_path, match_disk, match_disk_content}
use microkernel_os.Ramfs.{Node, is_dir, Driver, ProcFiles, error, ramfs_max_data, ramfs_find}
use microkernel_os.Ramfs.Lookup.{IsSameTree, ramfs_find-same}
use microkernel_os.Ramfs.Data.{
  copy_into, bytes_at, Fs, make_room, fill_node, write_node, ramfs_write, ramfs_read, free_block,
}

bytes_at-eq :
    (m : Table ℕ) (xs : List ℕ) (a : ℕ)
    → ((i : ℕ) → i < length xs → m (a + i) ≡ get_or xs i 0)
    → bytes_at m a (length xs) ≡ xs
unfolding bytes_at
bytes_at-eq m [] a h = refl
bytes_at-eq m (x ∷ xs) a h =
    let e : a + 0 ≡ a = omega arith in
    let first : m a ≡ x = sym (ap m e) ∙ h 0 (omega arith) in
    rw
      (
        first,
        bytes_at-eq m xs (a + 1) (λ i lt.
            let e' : a + 1 + i ≡ a + suc i = omega arith in ap m e' ∙ h (suc i) (omega arith)),
      )
      refl

-- A copy into a block is what is read from it.
bytes_at-copy_into :
    (a : ℕ) (xs : List ℕ) (size : ℕ) (h : Heap)
    → length xs ≡ size
    → bytes_at (copy_into a (λ i. get_or xs i 0) size h).bytes a size ≡ xs
unfolding copy_into
bytes_at-copy_into a xs size h len =
    let w =
      write_bytes size (λ i. a + i) (λ i. get_or xs i 0) h.bytes
        (λ i j li lj ne. omega (arith, ne)) in
    let m : Table ℕ = (copy_into a (λ i. get_or xs i 0) size h).bytes in
    sym (ap (bytes_at m a) len) ∙ bytes_at-eq m xs a (λ i lt. w.done i (omega arith))

no_bytes :
    (bytes : List ℕ) (size : ℕ)
    → length bytes ≡ size
    → size ≡ 0
    → ◌≡◌ {A = ℕ × List ℕ} (0, []) (size, bytes)
no_bytes [] size len z = ap {B = ℕ × List ℕ} (λ (k : ℕ). (k, [])) (sym z)
no_bytes (x ∷ xs) size len z = absurd (omega arith)

module _ {Disk : Type 0} (fat16 ntfs : Driver Disk) (proc : ProcFiles) where
  -- The path names the file in slot `idx`, and neither a disk nor a process file. Without a block it has no room.
  pub record IsLocalFile (s : Fs fat16 ntfs proc) (path : List ℕ) (idx : ℕ) : Type 0 where
    pub no_disk : (match_disk (ramfs_resolve_path s.cwd path)).0 ≡ 0
    pub no_content : (match_disk_content (ramfs_resolve_path s.cwd path)).0 ≡ 0
    pub no_process : proc.is_virtual (ramfs_resolve_path s.cwd path) ≡ false
    pub found : ramfs_find s.nodes s.cwd path ≡ some idx
    pub is_file : is_dir (s.nodes idx).type ≡ false
    pub stored : (s.nodes idx).data_block ≡ 0 → (s.nodes idx).capacity ≡ 0

  -- A read of a local file: the first bytes of its block, up to its size and to `max`.
  read_local :
      (s : Fs fat16 ntfs proc) (path : List ℕ) (idx max : ℕ)
      → IsLocalFile s path idx
      → ramfs_read fat16 ntfs proc path max s ≡ (
          let n : Node = s.nodes idx in
          let to_read : ℕ = if ltb n.size max then n.size else max in
          if n.data_block == 0
          then (0, [])
          else (to_read, bytes_at s.heap.bytes n.data_block to_read))
  unfolding ramfs_read
  read_local s path idx max l = rw (l.no_process, l.no_disk, l.found, l.is_file) refl

  write_local :
      (now : ℕ) (s : Fs fat16 ntfs proc) (path bytes : List ℕ) (idx size : ℕ)
      → IsLocalFile s path idx
      → ramfs_write fat16 ntfs proc now path bytes size s
        ≡ write_node fat16 ntfs proc now idx bytes size s
  unfolding ramfs_write
  write_local now s path bytes idx size l = rw (l.no_content, l.found) refl

  -- A node that has the room for a write, and is otherwise the old one.
  record HasRoom (n : Node) (size : ℕ) (m : Node) : Type 0 where
    room : size ≤ m.capacity
    stored : m.data_block ≡ 0 → m.capacity ≡ 0
    same_active : m.active ≡ n.active
    same_parent : m.parent ≡ n.parent
    same_name : m.name ≡ n.name
    same_type : m.type ≡ n.type

  -- What a write to the file in slot `idx` leaves.
  record Filled (s : Fs fat16 ntfs proc) (idx : ℕ) (bytes : List ℕ) (size : ℕ)
      (t : Fs fat16 ntfs proc) : Type 0 where
    same_cwd : t.cwd ≡ s.cwd
    same_tree : IsSameTree s.nodes t.nodes
    same_type : (t.nodes idx).type ≡ (s.nodes idx).type
    held : (t.nodes idx).size ≡ size
    room : size ≤ (t.nodes idx).capacity
    contents : bytes_at t.heap.bytes (t.nodes idx).data_block size ≡ bytes
    stored : (t.nodes idx).data_block ≡ 0 → (t.nodes idx).capacity ≡ 0

  -- The file's block is too small, and `kmalloc` has no other once it is given back.
  pub record NoMemory (s : Fs fat16 ntfs proc) (idx size : ℕ) : Type 0 where
    pub small : (s.nodes idx).capacity < size
    pub refused : (kmalloc size (free_block fat16 ntfs proc (s.nodes idx).data_block s.heap)).0 ≡ 0

  make_room-HasRoom :
      (size idx : ℕ) (s : Fs fat16 ntfs proc)
      → ((s.nodes idx).data_block ≡ 0 → (s.nodes idx).capacity ≡ 0)
      → (((make_room fat16 ntfs proc size (s.nodes idx) s.heap).0 ≡ none) × NoMemory s idx size)
        ⊎ ((m : Node) × (((make_room fat16 ntfs proc size (s.nodes idx) s.heap).0 ≡ some m)
              × HasRoom (s.nodes idx) size m))
  unfolding make_room
  make_room-HasRoom size idx s st =
      let n : Node = s.nodes idx in
      let got : ℕ = (kmalloc size (free_block fat16 ntfs proc n.data_block s.heap)).0 in
      elim (Bool-cases (ltb n.capacity size)) [
        | inr h ↦ rw h (
            inr (
              n,
              (
                refl,
                record {
                  room = ground arith;
                  stored = st;
                  same_active = refl;
                  same_parent = refl;
                  same_name = refl;
                  same_type = refl;
                },
              ),
            ))
        | inl h ↦ elim (Bool-cases (got == 0)) [
          | inl e ↦ rw (h, e) (inl (refl, record { small = ground arith; refused = ground arith }))
          | inr e ↦
              rw (h, e)
                (inr (
                  record n { data_block = got; capacity = size },
                  (
                    refl,
                    record {
                      room = omega arith;
                      stored = λ z. absurd (ground (arith, e, z));
                      same_active = refl;
                      same_parent = refl;
                      same_name = refl;
                      same_type = refl;
                    },
                  ),
                ))
        ]
      ]

  fill_node-Filled :
      (now : ℕ) (s : Fs fat16 ntfs proc) (bytes : List ℕ) (idx size : ℕ) (m : Node) (h' : Heap)
      → length bytes ≡ size
      → HasRoom (s.nodes idx) size m
      → Filled s idx bytes size (record s {
        nodes = update s.nodes idx (fill_node fat16 ntfs proc now m size);
        heap = copy_into m.data_block (λ i. get_or bytes i 0) size h';
      })
  unfolding fill_node
  fill_node-Filled now s bytes idx size m h' len h =
      let block : (update s.nodes idx (fill_node fat16 ntfs proc now m size) idx).data_block
          ≡ m.data_block =
        ground arith in
      record {
        same_cwd = refl;
        same_tree = record {
          active = λ i. ground (arith, h.same_active);
          parent = λ i. ground (arith, h.same_parent);
          name = λ i. ground (arith, h.same_name);
        };
        same_type = ground (arith, h.same_type);
        held = ground arith;
        room = ground (arith, h.room);
        contents = rw block (bytes_at-copy_into m.data_block bytes size h' len);
        stored = λ z. ground (arith, h.stored);
      }

  write_node-Filled :
      (now : ℕ) (s : Fs fat16 ntfs proc) (bytes : List ℕ) (idx size : ℕ)
      → length bytes ≡ size
      → size ≤ ramfs_max_data
      → is_dir (s.nodes idx).type ≡ false
      → ((s.nodes idx).data_block ≡ 0 → (s.nodes idx).capacity ≡ 0)
      → let out = write_node fat16 ntfs proc now idx bytes size s in
        ((out.0 ≡ error 5) × NoMemory s idx size) ⊎ ((out.0 ≡ size) × Filled s idx bytes size out.1)
  unfolding write_node
  write_node-Filled now s bytes idx size len small is_file st =
      let whole : ltb ramfs_max_data size ≡ false = ground arith in
      elim (make_room-HasRoom size idx s st) [
        | inl (e, short) ↦ rw (whole, is_file, e) (inl (refl, short))
        | inr (m, (e, room)) ↦
            rw (whole, is_file, e) (inr (refl, fill_node-Filled now s bytes idx size m _ len room))
      ]

  -- The file is local behind the write, too.
  still_local :
      (s t : Fs fat16 ntfs proc) (path bytes : List ℕ) (idx size : ℕ)
      → IsLocalFile s path idx
      → Filled s idx bytes size t
      → IsLocalFile t path idx
  still_local s t path bytes idx size l w = record {
    no_disk = rw w.same_cwd l.no_disk;
    no_content = rw w.same_cwd l.no_content;
    no_process = rw w.same_cwd l.no_process;
    found = rw w.same_cwd (ramfs_find-same w.same_tree s.cwd path ∙ l.found);
    is_file = ap is_dir w.same_type ∙ l.is_file;
    stored = w.stored;
  }

  -- A write of at most 50 MB to an existing file in memory either stores it, and a read that asks for enough gives
  -- back exactly the bytes written, or it answers -5: then the file's block was too small, and the heap gave no
  -- other block once that one was given back. A file without a block has the capacity 0.
  pub ramfs_read-ramfs_write :
      (now : ℕ) (s : Fs fat16 ntfs proc) (path bytes : List ℕ) (idx size max : ℕ)
      → IsLocalFile s path idx
      → length bytes ≡ size
      → size ≤ ramfs_max_data
      → size ≤ max
      → let out = ramfs_write fat16 ntfs proc now path bytes size s in
        ((out.0 ≡ error 5) × NoMemory s idx size)
        ⊎ ((out.0 ≡ size) × (ramfs_read fat16 ntfs proc path max out.1 ≡ (size, bytes)))
  ramfs_read-ramfs_write now s path bytes idx size max l len small enough =
      rw (write_local now s path bytes idx size l)
        (elim (write_node-Filled now s bytes idx size len small l.is_file l.stored) [
          | inl e ↦ inl e
          | inr (e, w) ↦ inr (e, read_back w)
        ])
    where
      t : Fs fat16 ntfs proc
      t = (write_node fat16 ntfs proc now idx bytes size s).1

      read_back : Filled s idx bytes size t → ramfs_read fat16 ntfs proc path max t ≡ (size, bytes)
      read_back w =
          let n : Node = t.nodes idx in
          let all : (if ltb n.size max then n.size else max) ≡ size = ground (arith, w.held) in
          read_local t path idx max (still_local s t path bytes idx size l w)
          ∙ elim (Bool-cases (n.data_block == 0)) [
            | inl e ↦ rw e (no_bytes bytes size len (ground (arith, w.stored, w.room)))
            | inr e ↦ rw (e, all) (ap (λ (r : List ℕ). (size, r)) w.contents)
          ]
