-- ===== src/Ramfs/Names.antt =====
-- `ramfs_get_path` of src/ramfs.c: the path of a node from the names on its way to the root.
use microkernel_os.Prelude.{
  ℕ, zero, suc, ◌+◌, ◌^◌, ◌≤◌, ◌<◌, not, ◌&&◌, ◌||◌, List, [], ◌∷◌, ◌++◌, arith, ltb, ◌==◌,
  if◌then◌else◌, Table, length, length-append, if-intro,
}
use microkernel_os.CString.{text, strlen}
use microkernel_os.CString.Compare.{strlen-text}
use microkernel_os.Ramfs.Path.{slash}
use microkernel_os.Ramfs.{Node, ramfs_max_files}

-- The first loop, with the rounds left: the names from the node upwards.
pub path_parts : (rounds : ℕ) → Table Node → ℕ → List (List ℕ)
path_parts zero nodes cur = []
path_parts (suc rounds) nodes cur =
    let rest = path_parts rounds nodes (nodes cur).parent in
    if ltb 0 cur && ltb cur (2 ^ 31) then (nodes cur).name ∷ rest else []

-- The second loop, from the top: a part that does not fit is left out.
pub join_parts : (max : ℕ) → List (List ℕ) → List ℕ
join_parts max [] = []
join_parts max (part ∷ parts) =
    let buf = join_parts max parts in
    if ltb (length buf + strlen part + 2) max then buf ++ slash ∷ text part else buf

pub ramfs_get_path : Table Node → (idx max : ℕ) → List ℕ
ramfs_get_path nodes idx max =
    if not (ltb idx ramfs_max_files) || not (nodes idx).active
    then []
    else if idx == 0
    then slash ∷ []
    else let buf : List ℕ = join_parts max (path_parts 8 nodes idx) in
      if length buf == 0 then slash ∷ [] else buf

length-join_parts :
    (max : ℕ) (parts : List (List ℕ)) → 2 ≤ max → length (join_parts max parts) + 1 ≤ max
unfolding join_parts
length-join_parts max [] h = omega arith
length-join_parts max (part ∷ parts) h =
    let buf : List ℕ = join_parts max parts in
    if-intro (λ (r : List ℕ). length r + 1 ≤ max) (ltb (length buf + strlen part + 2) max) _ _
      (λ e.
        let room : length buf + strlen part + 2 < max = ground (arith, e) in
        omega (arith, room, strlen-text part, length-append buf (slash ∷ text part)))
      (λ e. length-join_parts max parts h)

-- The path with its NUL fits into a buffer of `max` bytes, of at least 2.
pub length-ramfs_get_path :
    (nodes : Table Node) (idx max : ℕ) → 2 ≤ max → length (ramfs_get_path nodes idx max) + 1 ≤ max
unfolding ramfs_get_path
length-ramfs_get_path nodes idx max h =
    let buf : List ℕ = join_parts max (path_parts 8 nodes idx) in
    if-intro fits (not (ltb idx ramfs_max_files) || not (nodes idx).active) _ _ (λ e. omega arith)
      λ e.
        if-intro fits (idx == 0) _ _ (λ z. omega arith)
          λ nz.
            if-intro fits (length buf == 0) _ _ (λ z. omega arith)
              (λ some_text. length-join_parts max (path_parts 8 nodes idx) h)
  where
    fits : List ℕ → Type 0
    fits out = length out + 1 ≤ max
