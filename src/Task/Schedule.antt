-- ===== src/Task/Schedule.antt =====
-- Choosing the next task and switching to it: `find_next_task`, `task_timer_tick`,
-- `task_preempt_check`, `task_schedule`, `task_yield` and `task_sleep` of src/task.c.
pub mod Choice
pub mod Fair
pub mod Running
use microkernel_os.Prelude.{
  ℕ, zero, suc, ◌+◌, ◌-◌, ◌*◌, ◌/◌, ◌%◌, ◌^◌, ◌≤◌, ◌<◌, ◌≡◌, ◌≢◌, ◌⊎◌, ◌↔◌, ◌∙◌, refl, sym, ap,
  fun_ext, Bool, true, false, not, ◌&&◌, ◌||◌, Option, none, some, List, [], ◌∷◌, ◌++◌, map, inl,
  inr, arith, ltb, leb, ◌==◌, if◌then◌else◌, Bool-cases, Option-cases, Table, update, first_from,
  count_from, for_range, IsFirst, first_from-IsFirst, first_from-none, first_from_eq,
  count_from_congr, count_from-flip, count_from-le, count_from-lt_of_miss, count_from_all,
  for_range_inv, below_suc, length, get_or, take, drop, replicate, length-append, length-replicate,
  length-drop, lt→ltb, leb→le, ltb→lt, ==_iff, if-intro, option_case, option_case-intro,
}
use microkernel_os.Task.State.{
  TaskState, ready, running, sleeping, blocked, terminated, is_sleeping, is_running, is_blocked,
  can_run, Task, Sched, max_tasks, inc32, put,
}

abbrev pub wake_task : ℕ → Task → Task
wake_task now t =
    if t.active && is_sleeping t.state && leb t.wake_tick now then record t { state = ready } else t

-- The first loop of `find_next_task`.
pub wake_sleepers : (now : ℕ) → Sched → Sched
wake_sleepers now s =
    for_range max_tasks 0
      (λ i (r : Sched). record r { tasks = update r.tasks i (wake_task now (r.tasks i)) }) s

-- `best` and `best_prio`; the index is `none` for -1.
pub record Best : Type 0 where
  pub slot : Option ℕ
  pub prio : ℕ

abbrev pub no_best : Best
no_best = record { slot = none; prio = 0xFFFFFFFF }

-- The slot that round `n` of the second loop looks at.
abbrev pub round_slot : ℕ → ℕ → ℕ
round_slot current n = ((current + 1) % max_tasks + n) % max_tasks

-- One round of that loop.
pub consider : Table Task → (current n : ℕ) → Best → Best
consider tasks current n b =
    let i : ℕ = round_slot current n in
    if i == current
    then b
    else if (tasks i).active && can_run (tasks i).state && ltb (tasks i).priority b.prio
    then record { slot = some i; prio = (tasks i).priority }
    else b

pub search_best : Table Task → ℕ → Best
search_best tasks current = for_range max_tasks 0 (consider tasks current) no_best

-- The end of `find_next_task`.
pub choose_task : Table Task → ℕ → ℕ
choose_task tasks current = elim (search_best tasks current).slot [
  | some i ↦ i
  | none ↦ if (tasks current).active && can_run (tasks current).state then current else 0
]

pub find_next_task : (now current : ℕ) → Sched → ℕ × Sched
find_next_task now current s = let s' = wake_sleepers now s in (choose_task s'.tasks current, s')

-- `do_switch_context`: the kernel stack of a ring 3 task, and the page directory if it changes.
pub do_switch_context : (kernel_pd current next : ℕ) → Sched → Sched
do_switch_context kernel_pd current next s =
    let t : Task = s.tasks next in
    let u : Task = s.tasks current in
    let new_pd : ℕ = if t.page_directory == 0 then kernel_pd else t.page_directory in
    let cur_pd : ℕ = if u.page_directory == 0 then kernel_pd else u.page_directory in
    record s {
      tss_esp0 =
          if t.is_user && not (t.kernel_stack_top == 0) then t.kernel_stack_top else s.tss_esp0;
      cr3 = if new_pd == cur_pd then s.cr3 else new_pd;
    }

-- A running task goes back to the ready ones.
abbrev pub preempt : Task → Task
preempt t = if is_running t.state then record t { state = ready } else t

-- The switch at the end of `task_timer_tick`: `regs` is the address of the interrupt frame.
pub tick_switch : (kernel_pd regs current next : ℕ) → Sched → Sched
tick_switch kernel_pd regs current next s =
    let t : Task = s.tasks current in
    let left : Task = preempt (record t { saved_esp = regs }) in
    let tasks1 : Table Task = update s.tasks current left in
    let n : Task = tasks1 next in
    let entered : Task = record n {
      state = running;
      ticks_left = n.quantum;
      switches = inc32 n.switches;
    } in
    let s1 = do_switch_context kernel_pd current next (record s {
      tasks = update tasks1 next entered;
      total_ctx_switches = inc32 s.total_ctx_switches;
    }) in
    record s1 {
      current_task = some next;
      switch_new_esp = entered.saved_esp;
      switch_pending = true;
    }

-- `task_timer_tick` where the quantum is used up or the task cannot go on.
pub tick_choose : (kernel_pd now regs current : ℕ) → Sched → Sched
tick_choose kernel_pd now regs current s =
    let (next, s1) = find_next_task now current s in
    let t : Task = s1.tasks current in
    if next == current
    then put s1 current (record t { ticks_left = t.quantum })
    else tick_switch kernel_pd regs current next s1

-- `task_timer_tick` on the task that runs.
pub tick_task : (kernel_pd now regs current : ℕ) → Sched → Sched
tick_task kernel_pd now regs current s =
    let t : Task = s.tasks current in
    let t1 : Task = record t { cpu_ticks = inc32 t.cpu_ticks; total_ticks = inc32 t.total_ticks } in
    let left : ℕ = t1.ticks_left - 1 in
    if not s.preemptive_enabled
    then put s current t1
    else if not (can_run t1.state)
    then tick_choose kernel_pd now regs current (put s current t1)
    else if ltb 0 left
    then put s current (record t1 { ticks_left = left })
    else tick_choose kernel_pd now regs current (put s current (record t1 { ticks_left = left }))

-- `now` is the timer's count.
pub task_timer_tick : (kernel_pd now regs : ℕ) → Sched → Sched
task_timer_tick kernel_pd now regs s = option_case s.current_task s (λ current.
    if not s.scheduler_enabled || ltb 0 s.sched_lock_count
    then s
    else tick_task kernel_pd now regs current s)

pub task_preempt_check : Sched → ℕ × Sched
task_preempt_check s =
    if s.switch_pending
    then (s.switch_new_esp, record s { switch_pending = false; switch_new_esp = 0 })
    else (0, s)

-- The switch at the end of `task_schedule`, up to the exchange of the processor's registers.
pub schedule_switch : (kernel_pd current next : ℕ) → Sched → Sched
schedule_switch kernel_pd current next s =
    let tasks1 : Table Task = update s.tasks current (preempt (s.tasks current)) in
    let n : Task = tasks1 next in
    let entered : Task = record n {
      state = running;
      cpu_ticks = inc32 n.cpu_ticks;
      ticks_left = n.quantum;
      switches = inc32 n.switches;
    } in
    let s1 = do_switch_context kernel_pd current next (record s {
      tasks = update tasks1 next entered;
      total_ctx_switches = inc32 s.total_ctx_switches;
    }) in
    record s1 { current_task = some next }

pub schedule_task : (kernel_pd now current : ℕ) → Sched → Sched
schedule_task kernel_pd now current s =
    let (next, s1) = find_next_task now current s in
    let t : Task = s1.tasks current in
    if next == current
    then put s1 current (record t { cpu_ticks = inc32 t.cpu_ticks })
    else schedule_switch kernel_pd current next s1

pub task_schedule : (kernel_pd now : ℕ) → Sched → Sched
task_schedule kernel_pd now s =
    option_case s.current_task s
      (λ current. if s.scheduler_enabled then schedule_task kernel_pd now current s else s)

-- `task_yield` up to its `hlt`: the rest is the timer's work.
unfoldable pub task_yield : Sched → Sched
task_yield s =
    option_case s.current_task s
      (λ c. let t : Task = s.tasks c in put s c (record t { ticks_left = 0 }))

-- The tick at which a sleep of `ms` milliseconds ends, at 100 ticks a second.
abbrev pub sleep_until : (now ms : ℕ) → ℕ
sleep_until now ms = (now + ms * 100 % 2 ^ 32 / 1000) % 2 ^ 32

unfoldable pub task_sleep : (now : ℕ) → Sched → ℕ → Sched
task_sleep now s ms = option_case s.current_task s (λ c.
    let t : Task = s.tasks c in
    task_yield (put s c (record t { state = sleeping; wake_tick = sleep_until now ms })))
