-- ===== src/Task/Schedule/Fair.antt =====
-- What the choice of `find_next_task` in src/task.c promises: priority first, then round-robin.
use microkernel_os.Prelude.{
  ℕ, ◌+◌, ◌-◌, ◌%◌, ◌≤◌, ◌<◌, ◌≡◌, ◌∙◌, refl, true, ◌&&◌, none, some, inl, inr, arith, ltb,
  if◌then◌else◌, Bool-cases, Table,
}
use mathlib.Core.Path.{subst}
use microkernel_os.Task.State.{can_run, Task, max_tasks}
use microkernel_os.Task.Schedule.{Best, round_slot, search_best, choose_task}
use microkernel_os.Task.Schedule.Choice.{
  is_candidate, Searched, unfound, found, search_best-Searched,
}

-- How many slots behind `current` the slot `i` comes in the round-robin order.
abbrev pub distance : ℕ → ℕ → ℕ
distance current i = (i + max_tasks - (current + 1) % max_tasks) % max_tasks

pub round_slot-distance :
    (current i : ℕ) → i < max_tasks → round_slot current (distance current i) ≡ i
round_slot-distance current i h = omega arith

pub distance-round_slot :
    (current n : ℕ) → n < max_tasks → distance current (round_slot current n) ≡ n
distance-round_slot current n h = omega arith

-- A slot that is as good as any: a candidate of the least priority number, and the first such one
-- in the round-robin order.
pub record IsBest (tasks : Table Task) (current r : ℕ) : Type 0 where
  pub in_table : r < max_tasks
  pub candidate : is_candidate tasks current r ≡ true
  pub least :
      (j : ℕ)
      → j < max_tasks
      → is_candidate tasks current j ≡ true
      → (tasks r).priority ≤ (tasks j).priority
  pub first :
      (j : ℕ)
      → j < max_tasks
      → is_candidate tasks current j ≡ true
      → (tasks j).priority ≡ (tasks r).priority
      → distance current r ≤ distance current j

-- The choice when the search stopped with `b`.
choose : Table Task → ℕ → Best → ℕ
choose tasks current b = elim b.slot [
  | some i ↦ i
  | none ↦ if (tasks current).active && can_run (tasks current).state then current else 0
]

choose_task-choose :
    (tasks : Table Task) (current : ℕ)
    → choose_task tasks current ≡ choose tasks current (search_best tasks current)
unfolding choose_task choose
choose_task-choose tasks current = refl

module _ (tasks : Table Task) (current : ℕ) where
  -- What holds of the slot of each round holds of every slot.
  at_slot :
      (P : ℕ → Type 0)
      → ((n : ℕ) → n < max_tasks → P (round_slot current n))
      → (j : ℕ) → j < max_tasks
      → P j
  at_slot P h j lt =
      subst P (round_slot-distance current j lt) (h (distance current j) (omega arith))

  earlier :
      (j : ℕ)
      → j < max_tasks
      → (m : ℕ)
      → ((n : ℕ)
          → n < m
          → is_candidate tasks current (round_slot current n) ≡ true
          → (tasks (round_slot current m)).priority < (tasks (round_slot current n)).priority)
      → distance current j < m
      → is_candidate tasks current j ≡ true
      → (tasks (round_slot current m)).priority < (tasks j).priority
  earlier j lt m first h =
      subst
        (λ i.
          is_candidate tasks current i ≡ true
          → (tasks (round_slot current m)).priority < (tasks i).priority)
        (round_slot-distance current j lt) (first (distance current j) h)

  Searched-IsBest :
      (b : Best)
      → Searched tasks current max_tasks b
      → (j : ℕ) → j < max_tasks
      → is_candidate tasks current j ≡ true
      → (tasks j).priority < 0xFFFFFFFF
      → IsBest tasks current (choose tasks current b)
  unfolding choose
  Searched-IsBest b (unfound none_below) j lt cand small = absurd (
      omega (
        arith,
        at_slot (λ i. is_candidate tasks current i ≡ true → 0xFFFFFFFF ≤ (tasks i).priority)
            none_below j lt cand,
      ))
  Searched-IsBest b (found m lt cand small least first) j lt' cand' small' = record {
    in_table = omega arith;
    candidate = cand;
    least =
        at_slot
          (λ i.
            is_candidate tasks current i ≡ true
            → (tasks (round_slot current m)).priority ≤ (tasks i).priority)
          least;
    first = λ i hi c e. elim (Bool-cases (ltb (distance current i) m)) [
      | inl h ↦ absurd (omega (arith, earlier i hi m first (ground arith) c))
      | inr h ↦ ground (arith, distance-round_slot current m lt)
    ];
  }

  Searched-fallback :
      (b : Best)
      → Searched tasks current max_tasks b
      → ((j : ℕ)
          → j < max_tasks
          → is_candidate tasks current j ≡ true
          → 0xFFFFFFFF ≤ (tasks j).priority)
      → choose tasks current b
        ≡ (if (tasks current).active && can_run (tasks current).state then current else 0)
  unfolding choose
  Searched-fallback b (unfound none_below) none_small = refl
  Searched-fallback b (found m lt cand small least first) none_small =
      absurd (omega (arith, none_small (round_slot current m) (omega arith) cand))

-- If another task can run and has a priority number below 0xFFFFFFFF, `find_next_task` chooses among
-- the other tasks that can run one of the least priority number, and of those the next in the
-- round-robin order.
pub choose_task-IsBest :
    (tasks : Table Task) (current j : ℕ)
    → j < max_tasks
    → is_candidate tasks current j ≡ true
    → (tasks j).priority < 0xFFFFFFFF
    → IsBest tasks current (choose_task tasks current)
choose_task-IsBest tasks current j lt cand small = rw (choose_task-choose tasks current) (
    Searched-IsBest tasks current (search_best tasks current) (search_best-Searched tasks current) j
      lt cand small)

-- If no other task can run, `find_next_task` stays with the current task if that can run, and else
-- falls back to task 0, whatever its state.
pub choose_task-fallback :
    (tasks : Table Task) (current : ℕ)
    → ((j : ℕ)
        → j < max_tasks
        → is_candidate tasks current j ≡ true
        → 0xFFFFFFFF ≤ (tasks j).priority)
    → choose_task tasks current
      ≡ (if (tasks current).active && can_run (tasks current).state then current else 0)
choose_task-fallback tasks current none_small =
    choose_task-choose tasks current
    ∙ Searched-fallback tasks current (search_best tasks current)
        (search_best-Searched tasks current) none_small

-- The choice is a slot of the table.
pub choose_task-lt :
    (tasks : Table Task) (current : ℕ) → current < max_tasks → choose_task tasks current < max_tasks
unfolding choose
choose_task-lt tasks current h =
    rw (choose_task-choose tasks current)
      (in_table (search_best tasks current) (search_best-Searched tasks current))
  where
    in_table : (b : Best) → Searched tasks current max_tasks b → choose tasks current b < max_tasks
    in_table b (unfound none_below) = ground arith
    in_table b (found m lt cand small least first) = omega arith
