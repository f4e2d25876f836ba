-- ===== src/Ramfs.antt =====
-- The in-memory file system, src/ramfs.c and include/ramfs.h. A file's data is a block of the
-- kernel heap of src/heap.c: `data_block` is its address, 0 for NULL. The two disk drivers and the process files
-- are interfaces.
pub mod Path
pub mod Lookup
pub mod Data
pub mod Names
mod Tests
use microkernel_os.Prelude.{
  ℕ, zero, suc, ◌+◌, ◌-◌, ◌*◌, ◌/◌, ◌%◌, ◌^◌, ◌≤◌, ◌<◌, ◌≡◌, ◌≢◌, ◌⊎◌, ◌↔◌, ◌∙◌, refl, sym, ap,
  fun_ext, Bool, true, false, not, ◌&&◌, ◌||◌, Option, none, some, List, [], ◌∷◌, ◌++◌, map, inl,
  inr, arith, ltb, leb, ◌==◌, if◌then◌else◌, Bool-cases, Option-cases, Table, update, first_from,
  count_from, for_range, IsFirst, first_from-IsFirst, first_from-none, first_from_eq,
  first_from_congr, count_from_congr, count_from-flip, count_from-le, count_from-lt_of_miss,
  count_from_all, for_range_inv, below_suc, length, get_or, take, drop, replicate, length-append,
  length-replicate, length-drop, lt→ltb, leb→le, ltb→lt, ==_iff, if-intro, option_case,
  option_case-intro,
}
use microkernel_os.CString.{strcmp, strcpy, strncpy, set_char, strlen, text}
use microkernel_os.Ramfs.Path.{
  ramfs_resolve_path, match_disk, match_disk_content, parse_path, scan_component, skip_slash, slash,
}

abbrev pub ramfs_max_files : ℕ
ramfs_max_files = 64

abbrev pub ramfs_max_name : ℕ
ramfs_max_name = 32

abbrev pub ramfs_max_data : ℕ
ramfs_max_data = 50 * 1024 * 1024

-- `ramfs_type_t`
pub data NodeType : Type 0 where
  file dir : NodeType

abbrev pub is_dir : NodeType → Bool
is_dir dir = true
is_dir file = false

-- `ramfs_node_t`; the parent of the root is -1.
pub record Node : Type 0 where
  pub active : Bool
  pub name : List ℕ
  pub type : NodeType
  pub data_block : ℕ
  pub size : ℕ
  pub capacity : ℕ
  pub parent : ℕ
  pub created : ℕ
  pub modified : ℕ

-- A disk driver, src/fat16.c or src/ntfs.c: `on d i` says that it is mounted on drive `i`.
pub record Driver (Disk : Type 0) : Type 0 where
  pub on : Disk → ℕ → Bool
  pub mkdir : List ℕ → Disk → ℕ × Disk
  pub write_file : List ℕ → List ℕ → ℕ → Disk → ℕ × Disk
  pub read_file : List ℕ → ℕ → Disk → ℕ × List ℕ
  pub delete_file : List ℕ → Disk → ℕ × Disk
  pub has_dir : Disk → List ℕ → Bool
  pub file_size : Disk → List ℕ → ℕ

-- src/procfs.c
pub record ProcFiles : Type 0 where
  pub is_virtual : List ℕ → Bool
  pub read : List ℕ → ℕ → ℕ × List ℕ
  pub stat : List ℕ → ℕ × Option (NodeType × ℕ)

-- An `int32_t` of -n.
abbrev pub error : ℕ → ℕ
error n = 2 ^ 32 - n

abbrev pub zero_node : Node
zero_node = record {
  active = false;
  name = replicate ramfs_max_name 0;
  type = file;
  data_block = 0;
  size = 0;
  capacity = 0;
  parent = 0;
  created = 0;
  modified = 0;
}

pub ramfs_init : (now : ℕ) → Table Node
ramfs_init now =
    update (λ i. zero_node) 0
      (record zero_node {
        active = true;
        name = strcpy (replicate ramfs_max_name 0) (slash ∷ []);
        type = dir;
        parent = error 1;
        created = now;
        modified = now;
      })

-- The child of a directory with the name.
abbrev pub child_slot : Table Node → ℕ → List ℕ → Option ℕ
child_slot nodes parent name =
    first_from ramfs_max_files 0
      (λ i. (nodes i).active && (nodes i).parent == parent && strcmp (nodes i).name name == 0)

-- Where one component of a path leads.
pub step_component : Table Node → ℕ → List ℕ → Option ℕ
step_component nodes current component =
    let up : ℕ = (nodes current).parent in
    if strcmp component (b'.' ∷ []) == 0
    then some current
    else if strcmp component (b'.' ∷ b'.' ∷ []) == 0
    then some (if ltb up (2 ^ 31) then up else current)
    else child_slot nodes current component

-- The loop of `ramfs_find`: each round takes at least one byte, so the path's length is fuel enough.
pub find_loop : (fuel : ℕ) → Table Node → (current : ℕ) → List ℕ → Option ℕ
find_loop zero nodes current s = some current
find_loop (suc fuel) nodes current [] = some current
find_loop (suc fuel) nodes current (c ∷ s) =
    let (component, rest) = scan_component 31 (c ∷ s) in
    option_case (step_component nodes current component) none
      (λ i. find_loop fuel nodes i (skip_slash rest))

-- `ramfs_find`; `none` for -1.
pub ramfs_find : Table Node → (cwd path : List ℕ) → Option ℕ
ramfs_find nodes cwd path =
    let resolved = ramfs_resolve_path cwd path in
    if strcmp resolved (slash ∷ []) == 0
    then some 0
    else find_loop (length resolved) nodes 0 (drop 1 resolved)

-- `parse_path` with its search: the parent and the name.
pub find_parent : Table Node → (cwd path : List ℕ) → Option ℕ × List ℕ
find_parent nodes cwd path =
    let (above, name) = parse_path (ramfs_resolve_path cwd path) in
    (option_case above (some 0) (λ p. ramfs_find nodes cwd p), name)

-- The node that `ramfs_create` fills in, and the search for a free one, which begins at 1.
abbrev pub new_node : Node → List ℕ → NodeType → ℕ → ℕ → Node
new_node n name t parent now = record {
  active = true;
  name = strcpy n.name name;
  type = t;
  data_block = 0;
  size = 0;
  capacity = 0;
  parent = parent;
  created = now;
  modified = now;
}

abbrev pub free_node : Table Node → Option ℕ
free_node nodes = first_from (ramfs_max_files - 1) 1 (λ i. not (nodes i).active)

-- `ramfs_create` behind its look at the disks.
pub create_node : (now : ℕ) → (cwd path : List ℕ) → NodeType → Table Node → ℕ × Table Node
create_node now cwd path t nodes =
    let (above, name) = find_parent nodes cwd path in
    option_case above (error 1, nodes)
      λ parent.
        if strlen name == 0
        then (error 1, nodes)
        else if not (is_dir (nodes parent).type)
        then (error 2, nodes)
        else option_case (child_slot nodes parent name)
            (option_case (free_node nodes) (error 4, nodes)
              (λ i. (i, update nodes i (new_node (nodes i) name t parent now))))
            (λ i. (error 3, nodes))

pub ramfs_file_count : Table Node → ℕ
ramfs_file_count nodes = count_from ramfs_max_files 0 (λ i. (nodes i).active)

pub ramfs_total_size : Table Node → ℕ
ramfs_total_size nodes =
    for_range ramfs_max_files 0
      (λ i s.
        if (nodes i).active && not (is_dir (nodes i).type)
        then (s + (nodes i).size) % 2 ^ 32
        else s)
      0

pub ramfs_set_cwd : Table Node → (cwd path : List ℕ) → List ℕ
ramfs_set_cwd nodes cwd path =
    let resolved = ramfs_resolve_path cwd path in
    option_case (ramfs_find nodes cwd resolved) cwd
      (λ i. if is_dir (nodes i).type then resolved else cwd)

pub ramfs_rename : (now : ℕ) → (cwd old_path new_path : List ℕ) → Table Node → ℕ × Table Node
ramfs_rename now cwd old_path new_path nodes =
    let (above, name) = find_parent nodes cwd new_path in
    option_case (ramfs_find nodes cwd old_path) (error 1, nodes)
      λ src.
        if src == 0
        then (error 1, nodes)
        else option_case above (error 2, nodes)
            λ parent.
              let n : Node = nodes src in
              if strlen name == 0
              then (error 2, nodes)
              else if not (is_dir (nodes parent).type)
              then (error 3, nodes)
              else option_case (child_slot nodes parent name)
                  (
                    0,
                    update nodes src (record n {
                      name = set_char (strncpy n.name name 31) 31 0;
                      parent = parent;
                      modified = now;
                    }),
                  )
                  (λ i. (error 4, nodes))

-- `ramfs_get_node`, with the index where the code returns a pointer.
pub ramfs_get_node : Table Node → ℕ → Option ℕ
ramfs_get_node nodes idx =
    if not (ltb idx ramfs_max_files)
    then none
    else if not (nodes idx).active
    then none
    else some idx
