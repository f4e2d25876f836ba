-- ===== src/Task/Schedule/Choice.antt =====
-- Which task `find_next_task` of src/task.c chooses.
use microkernel_os.Prelude.{
  ℕ, ◌+◌, ◌≤◌, ◌<◌, ◌≡◌, refl, ap, Bool, true, not, ◌&&◌, some, inl, inr, arith, ltb, ◌==◌,
  if◌then◌else◌, Bool-cases, Table, update, for_range, for_range_inv, below_suc,
}
use microkernel_os.Task.State.{can_run, Task, Sched, max_tasks}
use microkernel_os.Task.Schedule.{
  wake_task, wake_sleepers, Best, no_best, round_slot, consider, search_best,
}

abbrev wake_body : ℕ → ℕ → Sched → Sched
wake_body now i r = record r { tasks = update r.tasks i (wake_task now (r.tasks i)) }

-- What the first loop has done after `k` rounds.
record Woken (now : ℕ) (s : Sched) (k : ℕ) (r : Sched) : Type 0 where
  before : (j : ℕ) → j < k → r.tasks j ≡ wake_task now (s.tasks j)
  after : (j : ℕ) → k ≤ j → r.tasks j ≡ s.tasks j
  rest : r ≡ record s { tasks = r.tasks }

wake_body-Woken :
    (now k : ℕ) (s r : Sched) → Woken now s k r → Woken now s (k + 1) (wake_body now k r)
wake_body-Woken now k s r w = record {
  before = λ j lt. ground (arith, w.before j, w.after k);
  after = λ j le. ground (arith, w.after j);
  rest =
      ap (λ (t : Sched). record t { tasks = update r.tasks k (wake_task now (r.tasks k)) }) w.rest;
}

-- The first loop of `find_next_task` wakes exactly the active sleepers whose tick has come, and
-- changes nothing else.
pub wake_sleepers_lem :
    (now : ℕ) (s : Sched)
    → (wake_sleepers now s ≡ record s { tasks = (wake_sleepers now s).tasks })
      × ((j : ℕ) → j < max_tasks → (wake_sleepers now s).tasks j ≡ wake_task now (s.tasks j))
unfolding wake_sleepers
wake_sleepers_lem now s = (loop.rest, λ j lt. loop.before j lt)
  where
    loop : Woken now s max_tasks (for_range max_tasks 0 (wake_body now) s)
    loop =
        for_range_inv (λ k r. Woken now s k r) (wake_body now) max_tasks 0 s
          (λ k r lo hi w. wake_body-Woken now k s r w)
          (record { before = λ j lt. absurd (omega arith); after = λ j le. refl; rest = refl })

-- A slot that may be chosen: another task's, and it can run.
abbrev pub is_candidate : Table Task → ℕ → ℕ → Bool
is_candidate tasks current i = not (i == current) && ((tasks i).active && can_run (tasks i).state)

-- The outcome of the search after `k` rounds.
pub data Searched (tasks : Table Task) (current k : ℕ) : Best → Type 0 where
  unfound :
      ((n : ℕ)
        → n < k
        → is_candidate tasks current (round_slot current n) ≡ true
        → 0xFFFFFFFF ≤ (tasks (round_slot current n)).priority)
      → Searched tasks current k no_best
  found :
      (m : ℕ)
      → m < k
      → is_candidate tasks current (round_slot current m) ≡ true
      → (tasks (round_slot current m)).priority < 0xFFFFFFFF
      → ((n : ℕ)
          → n < k
          → is_candidate tasks current (round_slot current n) ≡ true
          → (tasks (round_slot current m)).priority ≤ (tasks (round_slot current n)).priority)
      → ((n : ℕ)
          → n < m
          → is_candidate tasks current (round_slot current n) ≡ true
          → (tasks (round_slot current m)).priority < (tasks (round_slot current n)).priority)
      → Searched tasks current k (record {
        slot = some (round_slot current m);
        prio = (tasks (round_slot current m)).priority;
      })

-- A round takes its slot if that is a candidate of a lower priority number.
consider_lem :
    (tasks : Table Task) (current k : ℕ) (b : Best)
    → consider tasks current k b ≡ (
        if is_candidate tasks current (round_slot current k)
          && ltb (tasks (round_slot current k)).priority b.prio
        then record {
          slot = some (round_slot current k);
          prio = (tasks (round_slot current k)).priority;
        }
        else b)
unfolding consider
consider_lem tasks current k b = ground arith

module _ (tasks : Table Task) (current k : ℕ) where
  -- The bound on the candidates of the rounds so far, and of the next.
  abbrev Bounded : ℕ → ℕ → Type 0
  Bounded bound n =
      is_candidate tasks current (round_slot current n) ≡ true
      → bound ≤ (tasks (round_slot current n)).priority

  consider-unfound :
      ((n : ℕ) → n < k → Bounded 0xFFFFFFFF n)
      → Searched tasks current (k + 1) (consider tasks current k no_best)
  consider-unfound none_below =
      rw (consider_lem tasks current k no_best)
        (elim (Bool-cases (
          is_candidate tasks current (round_slot current k)
          && ltb (tasks (round_slot current k)).priority 0xFFFFFFFF)) [
            | inl e ↦ rw e (
                found k (omega arith) (ground arith) (ground arith)
                  (below_suc (Bounded (tasks (round_slot current k)).priority) k
                    (λ n lt c. ground (arith, none_below n lt c)) (λ c. omega arith))
                  (λ n lt c. ground (arith, none_below n lt c)))
            | inr e ↦
                rw e (unfound (below_suc (Bounded 0xFFFFFFFF) k none_below (λ c. ground arith)))
          ])

  consider-found :
      (m : ℕ)
      → m < k
      → is_candidate tasks current (round_slot current m) ≡ true
      → (tasks (round_slot current m)).priority < 0xFFFFFFFF
      → ((n : ℕ) → n < k → Bounded (tasks (round_slot current m)).priority n)
      → ((n : ℕ)
          → n < m
          → is_candidate tasks current (round_slot current n) ≡ true
          → (tasks (round_slot current m)).priority < (tasks (round_slot current n)).priority)
      → Searched tasks current (k + 1) (
          consider tasks current k (record {
            slot = some (round_slot current m);
            prio = (tasks (round_slot current m)).priority;
          }))
  consider-found m lt cand small least first =
      rw
        (consider_lem tasks current k (record {
          slot = some (round_slot current m);
          prio = (tasks (round_slot current m)).priority;
        }))
        (elim (Bool-cases (
          is_candidate tasks current (round_slot current k)
          && ltb (tasks (round_slot current k)).priority (tasks (round_slot current m)).priority)) [
            | inl e ↦ rw e (
                found k (omega arith) (ground arith) (ground arith)
                  (below_suc (Bounded (tasks (round_slot current k)).priority) k
                    (λ n lt' c. ground (arith, least n lt' c)) (λ c. omega arith))
                  (λ n lt' c. ground (arith, least n lt' c)))
            | inr e ↦ rw e (
                found m (omega arith) cand small
                  (below_suc (Bounded (tasks (round_slot current m)).priority) k least
                    (λ c. ground arith))
                  first)
          ])

consider-Searched :
    (tasks : Table Task) (current k : ℕ) (b : Best)
    → Searched tasks current k b
    → Searched tasks current (k + 1) (consider tasks current k b)
consider-Searched tasks current k b (unfound none_below) =
    consider-unfound tasks current k none_below
consider-Searched tasks current k b (found m lt cand small least first) =
    consider-found tasks current k m lt cand small least first

pub search_best-Searched :
    (tasks : Table Task) (current : ℕ)
    → Searched tasks current max_tasks (search_best tasks current)
unfolding search_best
search_best-Searched tasks current =
    for_range_inv (λ k b. Searched tasks current k b) (consider tasks current) max_tasks 0 no_best
      (λ k b lo hi h. consider-Searched tasks current k b h)
      (unfound (λ n lt. absurd (omega arith)))
