-- ===== src/Ramfs/Path/Scan.antt =====
-- Each round of the loop of `ramfs_find` in src/ramfs.c shortens the path.
use microkernel_os.Prelude.{ℕ, zero, suc, ◌≤◌, List, [], ◌∷◌, arith, ◌==◌, length, if-intro}
use microkernel_os.Ramfs.Path.{scan_component, skip_slash, slash}

-- One component, with the slash behind it, is at least one byte.
length-scan_component :
    (room : ℕ) (path : List ℕ) → length (scan_component room path).1 ≤ length path
unfolding scan_component
length-scan_component zero path = omega arith
length-scan_component (suc room) [] = omega arith
length-scan_component (suc room) (c ∷ path) = ground (arith, length-scan_component room path)

skip_slash-le : (path : List ℕ) → length (skip_slash path) ≤ length path
skip_slash-le [] = ground arith
skip_slash-le (c ∷ path) = ground arith

pub round-shorter :
    (room c : ℕ) (path : List ℕ)
    → length (skip_slash (scan_component (suc room) (c ∷ path)).1) ≤ length path
unfolding scan_component
round-shorter room c path =
    if-intro (λ (r : List ℕ × List ℕ). length (skip_slash r.1) ≤ length path) (c == slash) _ _
      (λ e. ground (arith, e))
      (λ e.
        let rest : List ℕ = (scan_component room path).1 in
        omega (arith, skip_slash-le rest, length-scan_component room path))
