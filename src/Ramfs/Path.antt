-- ===== src/Ramfs/Path.antt =====
-- Paths of src/ramfs.c: resolution against the working directory, and the mount points /disk and
-- /disk2. A path is the text of a C string.
pub mod Scan
use microkernel_os.Prelude.{
  ℕ, zero, suc, ◌+◌, ◌-◌, ◌*◌, ◌/◌, ◌%◌, ◌^◌, ◌≤◌, ◌<◌, ◌≡◌, ◌≢◌, ◌⊎◌, ◌↔◌, ◌∙◌, refl, sym, ap,
  fun_ext, Bool, true, false, not, ◌&&◌, ◌||◌, Option, none, some, List, [], ◌∷◌, ◌++◌, map, inl,
  inr, arith, ltb, leb, ◌==◌, if◌then◌else◌, Bool-cases, Option-cases, Table, update, first_from,
  count_from, for_range, IsFirst, first_from-IsFirst, first_from-none, first_from_eq,
  first_from_congr, count_from_congr, count_from-flip, count_from-le, count_from-lt_of_miss,
  count_from_all, for_range_inv, below_suc, length, get_or, take, drop, replicate, length-append,
  length-replicate, length-drop, lt→ltb, leb→le, ltb→lt, ==_iff, if-intro, option_case,
  option_case-intro,
}
use microkernel_os.CString.{text, char_at, tail, strncmp}

abbrev pub slash : ℕ
slash = b'/'

abbrev pub disk2_name : List ℕ
disk2_name = slash ∷ b'd' ∷ b'i' ∷ b's' ∷ b'k' ∷ b'2' ∷ []

abbrev pub disk_name : List ℕ
disk_name = slash ∷ b'd' ∷ b'i' ∷ b's' ∷ b'k' ∷ []

-- `s[strlen(s) - 1]`
abbrev pub last_char : List ℕ → ℕ
last_char s = get_or s (length s - 1) 0

-- `ramfs_resolve_path`, where the path fits into the caller's buffer of 128 bytes.
unfoldable pub ramfs_resolve_path : (cwd input : List ℕ) → List ℕ
ramfs_resolve_path cwd input =
    let base : List ℕ =
      if last_char (text cwd) == slash then text cwd else text cwd ++ slash ∷ [] in
    let full : List ℕ = if char_at input == slash then text input else base ++ text input in
    if ltb 1 (length full) && last_char full == slash then take (length full - 1) full else full

-- `match_disk`: the drive's index plus 1, or 0, and the path on the drive.
unfoldable pub match_disk : List ℕ → ℕ × List ℕ
match_disk s =
    let on_disk2 = strncmp s disk2_name 6 == 0 in
    let on_disk = strncmp s disk_name 5 == 0 in
    if on_disk2 && get_or s 6 0 == 0
    then (2, slash ∷ [])
    else if on_disk2 && get_or s 6 0 == slash
    then (2, drop 6 s)
    else if on_disk && get_or s 5 0 == 0
    then (1, slash ∷ [])
    else if on_disk && get_or s 5 0 == slash
    then (1, drop 5 s)
    else (0, [])

-- `match_disk_content`, which leaves out the mount points themselves.
unfoldable pub match_disk_content : List ℕ → ℕ × List ℕ
match_disk_content s =
    if strncmp s (disk2_name ++ slash ∷ []) 7 == 0 && not (get_or s 7 0 == 0)
    then (2, drop 6 s)
    else if strncmp s (disk_name ++ slash ∷ []) 6 == 0 && not (get_or s 6 0 == 0)
    then (1, drop 5 s)
    else (0, [])

-- The offset of the last slash, or 0: the loop of `parse_path`, at offset `i`.
pub last_slash_from : (i best : ℕ) → List ℕ → ℕ
last_slash_from i best [] = best
last_slash_from i best (c ∷ s) = last_slash_from (i + 1) (if c == slash then i else best) s

-- `parse_path` up to its search: the path of the parent, `none` for the root, and the file's name.
pub parse_path : List ℕ → Option (List ℕ) × List ℕ
parse_path resolved =
    let at : ℕ = last_slash_from 0 0 resolved in
    let name : List ℕ = drop (at + 1) resolved in
    if at == 0 && char_at resolved == slash
    then (none, name)
    else (some (take (if at == 0 then 1 else at) resolved), name)

-- The inner loop of `ramfs_find`: one component of at most `room` bytes, and what is behind it.
unfoldable pub scan_component : (room : ℕ) → List ℕ → List ℕ × List ℕ
scan_component zero s = ([], s)
scan_component (suc room) [] = ([], [])
scan_component (suc room) (c ∷ s) =
    let (component, rest) = scan_component room s in
    if c == slash then ([], c ∷ s) else (c ∷ component, rest)

abbrev pub skip_slash : List ℕ → List ℕ
skip_slash s = if char_at s == slash then tail s else s
