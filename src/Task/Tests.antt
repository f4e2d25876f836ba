-- ===== src/Task/Tests.antt =====
-- The theorems on src/task.c at a table of three tasks.
use microkernel_os.Prelude.{
  ℕ, ◌≤◌, ◌<◌, ◌≡◌, refl, true, false, some, [], arith, ◌==◌, if◌then◌else◌, Table,
}
use microkernel_os.Task.State.{
  TaskState, ready, running, sleeping, Task, Sched, max_tasks, zero_task,
}
use microkernel_os.Heap.{Heap}
use microkernel_os.Paging.Samples.{memory}
use microkernel_os.Task.Create.{
  Pool, task_create, task_create_user, task_create_from_elf, task_exit, task_kill,
}
use microkernel_os.Task.Create.Running.{changes-IsScheduled}
use microkernel_os.Task.Schedule.{
  choose_task, task_timer_tick, task_schedule, task_yield, task_sleep,
}
use microkernel_os.Task.Schedule.Choice.{is_candidate}
use microkernel_os.Task.Schedule.Fair.{IsBest, choose_task-IsBest}
use microkernel_os.Task.Schedule.Running.{IsScheduled, switches-IsScheduled}

abbrev task : ℕ → TaskState → ℕ → Task
task pid st prio = record zero_task {
  id = pid;
  state = st;
  active = true;
  priority = prio;
  quantum = 10;
  ticks_left = 1;
}

-- Task 0 runs, task 1 and task 2 wait with the same priority, and task 3 sleeps.
abbrev table : Table Task
table i =
    if i == 0
    then task 1 running 10
    else if i == 1
    then task 2 ready 5
    else if i == 2
    then task 3 ready 5
    else if i == 3
    then record (task 4 sleeping 1) { wake_tick = 50 }
    else zero_task

abbrev blank : Sched
blank = record {
  tasks = table;
  current_task = some 0;
  next_pid = 5;
  scheduler_enabled = true;
  preemptive_enabled = true;
  default_quantum = 10;
  sched_lock_count = 0;
  switch_new_esp = 0;
  switch_pending = false;
  total_ctx_switches = 0;
  cr3 = 0;
  tss_esp0 = 0;
  memory = λ a. 0;
}

blank-IsScheduled : IsScheduled blank
blank-IsScheduled = record {
  current_in = λ c e. ground arith;
  one_running = λ i lt r. ground arith;
}

choose_task-IsBest_example : IsBest table 0 (choose_task table 0)
choose_task-IsBest_example = choose_task-IsBest table 0 2 (omega arith) refl (omega arith)

-- The only task, task 0, sleeps.
abbrev asleep : Table Task
asleep i = if i == 0 then task 1 sleeping 10 else zero_task

no_other :
    (j : ℕ) → j < max_tasks → is_candidate asleep 0 j ≡ true → 0xFFFFFFFF ≤ (asleep j).priority
no_other j lt c = ground arith

switches-IsScheduled_example :
    IsScheduled (task_timer_tick 4096 60 8192 blank)
    × IsScheduled (task_schedule 4096 60 blank)
    × IsScheduled (task_yield blank)
    × IsScheduled (task_sleep 60 blank 20)
switches-IsScheduled_example = switches-IsScheduled 4096 60 8192 20 blank blank-IsScheduled

-- A heap without a block, and the pages of the small memory.
abbrev no_heap : Heap
no_heap = record {
  header = λ x. record { magic = 0; size = 0; free = false; next = 0; prev = 0 };
  bytes = λ x. 0;
  heap_start = 0;
  heap_total = 0;
}

abbrev pool : Pool
pool = record { heap = no_heap; paging = memory }

changes-IsScheduled_example :
    IsScheduled (task_create [] 64 5 blank pool).1
    × IsScheduled (task_create_user [] 64 5 false blank pool).1
    × IsScheduled (task_create_from_elf [] 64 8192 4096 12288 4096 5 false blank).1
    × IsScheduled (task_exit 4096 blank pool).0
    × IsScheduled (task_kill 4096 2 blank pool).0
changes-IsScheduled_example =
    changes-IsScheduled [] 64 5 false 8192 4096 12288 4096 4096 2 blank pool blank-IsScheduled
