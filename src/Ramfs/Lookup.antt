-- ===== src/Ramfs/Lookup.antt =====
-- What `ramfs_find` of src/ramfs.c reads of the nodes, and that its loop ends.
use microkernel_os.Prelude.{
  ℕ, zero, suc, ◌≤◌, ◌≡◌, refl, ap, fun_ext, Option, none, List, [], ◌∷◌, arith, Table,
  first_from_congr, length, drop, option_case,
}
use microkernel_os.Ramfs.Path.{ramfs_resolve_path, scan_component, skip_slash}
use microkernel_os.Ramfs.Path.Scan.{round-shorter}
use microkernel_os.Ramfs.{Node, ramfs_max_files, child_slot, step_component, find_loop, ramfs_find}

-- The nodes have the same names at the same places.
pub record IsSameTree (s t : Table Node) : Type 0 where
  pub active : (i : ℕ) → (t i).active ≡ (s i).active
  pub parent : (i : ℕ) → (t i).parent ≡ (s i).parent
  pub name : (i : ℕ) → (t i).name ≡ (s i).name

module _ {s t : Table Node} (same : IsSameTree s t) where
  step_component-same :
      (current : ℕ) (component : List ℕ)
      → step_component t current component ≡ step_component s current component
  unfolding step_component
  step_component-same current component = rw (children, same.parent current) refl
    where
      children : child_slot t current component ≡ child_slot s current component
      children =
          first_from_congr ramfs_max_files 0 _ _
            (λ j lo hi. rw (same.active j, same.parent j, same.name j) refl)

  find_loop-same :
      (fuel current : ℕ) (path : List ℕ)
      → find_loop fuel t current path ≡ find_loop fuel s current path
  unfolding find_loop
  find_loop-same zero current path = refl
  find_loop-same (suc fuel) current [] = refl
  find_loop-same (suc fuel) current (c ∷ path) =
      rw (step_component-same current (scan_component 31 (c ∷ path)).0) (
        ap
          (λ (f : ℕ → Option ℕ).
            option_case (step_component s current (scan_component 31 (c ∷ path)).0) none f)
          (fun_ext (λ i. find_loop-same fuel i (skip_slash (scan_component 31 (c ∷ path)).1))))

  pub ramfs_find-same : (cwd path : List ℕ) → ramfs_find t cwd path ≡ ramfs_find s cwd path
  unfolding ramfs_find
  ramfs_find-same cwd path =
      rw
        (find_loop-same (length (ramfs_resolve_path cwd path)) 0
          (drop 1 (ramfs_resolve_path cwd path)))
        refl

-- The loop of `ramfs_find` ends: with the length of the path as fuel it has the result that it has
-- with any more.
pub find_loop-fuel :
    (nodes : Table Node) (given needed current : ℕ) (path : List ℕ)
    → length path ≤ given
    → length path ≤ needed
    → find_loop given nodes current path ≡ find_loop needed nodes current path
unfolding find_loop
find_loop-fuel nodes zero zero current path h k = refl
find_loop-fuel nodes zero (suc needed) current [] h k = refl
find_loop-fuel nodes zero needed current (c ∷ path) h k = absurd (omega arith)
find_loop-fuel nodes (suc given) zero current [] h k = refl
find_loop-fuel nodes given zero current (c ∷ path) h k = absurd (omega arith)
find_loop-fuel nodes (suc given) (suc needed) current [] h k = refl
find_loop-fuel nodes (suc given) (suc needed) current (c ∷ path) h k =
    let rest : List ℕ = skip_slash (scan_component 31 (c ∷ path)).1 in
    let shorter : length rest ≤ length path = round-shorter 30 c path in
    ap
      (λ (f : ℕ → Option ℕ).
        option_case (step_component nodes current (scan_component 31 (c ∷ path)).0) none f)
      (fun_ext (λ i.
        find_loop-fuel nodes given needed i rest (omega (arith, shorter)) (omega (arith, shorter))))
