-- ===== src/Ramfs/Tests.antt =====
-- The theorems on src/ramfs.c at a root directory with one empty file, and runs of the paths.
use microkernel_os.Prelude.{
  ℕ, ◌≡◌, ◌⊎◌, refl, true, false, none, some, List, [], ◌∷◌, arith, ◌==◌, if◌then◌else◌, Table,
  first_from, drop,
}
use microkernel_os.Heap.{Heap, heap_init}
use microkernel_os.Ramfs.Path.{ramfs_resolve_path, match_disk, match_disk_content, slash}
use microkernel_os.Ramfs.{
  Node, file, dir, Driver, ProcFiles, error, ramfs_find, find_loop, zero_node, step_component,
}
use microkernel_os.CString.{strcmp, strncmp, text}
use microkernel_os.Ramfs.Lookup.{find_loop-fuel}
use microkernel_os.Ramfs.Path.{scan_component}
use microkernel_os.Ramfs.Data.{Fs, ramfs_write, ramfs_read}
use microkernel_os.Ramfs.Data.Laws.{IsLocalFile, NoMemory, ramfs_read-ramfs_write}

-- A heap of 4096 bytes, drives without a disk, and no process files.
abbrev blank : Heap
blank = record {
  header = λ x. record { magic = 0; size = 0; free = false; next = 0; prev = 0 };
  bytes = λ x. 0;
  heap_start = 0;
  heap_total = 0;
}

abbrev heap : Heap
heap = heap_init 8192 4096 blank

abbrev no_disk : Driver (Unit {0})
no_disk = record {
  on = λ d i. false;
  mkdir = λ p d. (0, d);
  write_file = λ p b n d. (0, d);
  read_file = λ p n d. (0, []);
  delete_file = λ p d. (0, d);
  has_dir = λ d p. false;
  file_size = λ d p. 0;
}

abbrev no_process : ProcFiles
no_process = record { is_virtual = λ p. false; read = λ p n. (0, []); stat = λ p. (0, none) }

-- The path `/log`, of the file in node 1.
abbrev log : List ℕ
log = slash ∷ b'l' ∷ b'o' ∷ b'g' ∷ []

abbrev nodes : Table Node
nodes i =
    if i == 0
    then record zero_node { active = true; type = dir; parent = error 1 }
    else if i == 1
    then record zero_node { active = true; name = b'l' ∷ b'o' ∷ b'g' ∷ 0 ∷ []; type = file }
    else zero_node

abbrev fs : Fs no_disk no_disk no_process
fs = record { nodes = nodes; cwd = slash ∷ []; heap = heap; disk = tt }

log_found : ramfs_find nodes (slash ∷ []) log ≡ some 1
unfolding ramfs_find ramfs_resolve_path find_loop step_component strcmp first_from scan_component
    text
log_found = refl

log-IsLocalFile : IsLocalFile no_disk no_disk no_process fs log 1
unfolding ramfs_resolve_path match_disk match_disk_content strncmp text
log-IsLocalFile = record {
  no_disk = refl;
  no_content = refl;
  no_process = refl;
  found = log_found;
  is_file = refl;
  stored = λ e. refl;
}

ramfs_read-ramfs_write_example :
    (((ramfs_write no_disk no_disk no_process 5 log (7 ∷ 8 ∷ []) 2 fs).0 ≡ error 5)
      × NoMemory no_disk no_disk no_process fs 1 2)
    ⊎ (((ramfs_write no_disk no_disk no_process 5 log (7 ∷ 8 ∷ []) 2 fs).0 ≡ 2)
        × (ramfs_read no_disk no_disk no_process log 10
              (ramfs_write no_disk no_disk no_process 5 log (7 ∷ 8 ∷ []) 2 fs).1
            ≡ (2, 7 ∷ 8 ∷ [])))
ramfs_read-ramfs_write_example =
    ramfs_read-ramfs_write no_disk no_disk no_process 5 fs log (7 ∷ 8 ∷ []) 1 2 10 log-IsLocalFile
      refl (omega arith) (omega arith)

find_loop-fuel_example : find_loop 3 nodes 0 (drop 1 log) ≡ find_loop 9 nodes 0 (drop 1 log)
find_loop-fuel_example = find_loop-fuel nodes 3 9 0 (drop 1 log) (omega arith) (omega arith)
