-- ===== src/Task/Schedule/Running.antt =====
-- At most one task runs, and it is the current one, under `task_timer_tick`, `task_schedule`, `task_yield` and
-- `task_sleep` of src/task.c.
use microkernel_os.Prelude.{
  ℕ, ◌-◌, ◌<◌, ◌≡◌, ◌∙◌, sym, ap, true, not, ◌||◌, some, arith, ltb, ◌==◌, if-intro,
  option_case-intro,
}
use microkernel_os.Task.State.{is_running, can_run, Task, Sched, max_tasks, put, task_init}
use microkernel_os.Task.Schedule.{
  wake_task, wake_sleepers, choose_task, find_next_task, do_switch_context, tick_switch,
  tick_choose, tick_task, task_timer_tick, schedule_switch, schedule_task, task_schedule,
  task_yield, task_sleep,
}
use microkernel_os.Task.Schedule.Choice.{wake_sleepers_lem}
use microkernel_os.Task.Schedule.Fair.{choose_task-lt}

-- The current task is a slot of the table, and no other slot is in the state RUNNING.
pub record IsScheduled (s : Sched) : Type 0 where
  pub current_in : (c : ℕ) → s.current_task ≡ some c → c < max_tasks
  pub one_running :
      (i : ℕ) → i < max_tasks → is_running (s.tasks i).state ≡ true → s.current_task ≡ some i

wake_task-running : (now : ℕ) (t : Task) → is_running (wake_task now t).state ≡ is_running t.state
wake_task-running now t = ground arith

wake_sleepers-current : (now : ℕ) (s : Sched) → (wake_sleepers now s).current_task ≡ s.current_task
wake_sleepers-current now s = ap (λ (r : Sched). r.current_task) (wake_sleepers_lem now s).0

wake_sleepers-IsScheduled :
    (now : ℕ) (s : Sched) → IsScheduled s → IsScheduled (wake_sleepers now s)
wake_sleepers-IsScheduled now s v = record {
  current_in = λ c e. v.current_in c (sym (wake_sleepers-current now s) ∙ e);
  one_running = λ i lt h.
      wake_sleepers-current now s
      ∙ v.one_running i lt (
          sym (wake_task-running now (s.tasks i))
          ∙ ap (λ (t : Task). is_running t.state) (sym ((wake_sleepers_lem now s).1 i lt))
          ∙ h);
}

-- A change of the current task that does not set it running keeps the invariant.
pub put-IsScheduled :
    (s : Sched) (c : ℕ) (t : Task)
    → (is_running t.state ≡ true → is_running (s.tasks c).state ≡ true)
    → IsScheduled s
    → IsScheduled (put s c t)
put-IsScheduled s c t h v = record {
  current_in = v.current_in;
  one_running = λ i lt r. ground (arith, v.one_running i lt);
}

tick_switch-IsScheduled :
    (kernel_pd regs current next : ℕ) (s : Sched)
    → next < max_tasks
    → s.current_task ≡ some current
    → IsScheduled s
    → IsScheduled (tick_switch kernel_pd regs current next s)
unfolding tick_switch do_switch_context
tick_switch-IsScheduled kernel_pd regs current next s lt e v = record {
  current_in = λ c e'. ground arith;
  one_running = λ i hi r. ground (arith, v.one_running i hi);
}

tick_choose-IsScheduled :
    (kernel_pd now regs current : ℕ) (s : Sched)
    → s.current_task ≡ some current
    → IsScheduled s
    → IsScheduled (tick_choose kernel_pd now regs current s)
unfolding tick_choose find_next_task
tick_choose-IsScheduled kernel_pd now regs current s e v =
    if-intro IsScheduled (choose_task s1.tasks current == current) _ _
      (λ same. put-IsScheduled s1 current _ (λ r. r) v1)
      λ other.
        tick_switch-IsScheduled kernel_pd regs current (choose_task s1.tasks current) s1
          (choose_task-lt s1.tasks current (v.current_in current e))
          (wake_sleepers-current now s ∙ e) v1
  where
    s1 : Sched
    s1 = wake_sleepers now s

    v1 : IsScheduled s1
    v1 = wake_sleepers-IsScheduled now s v

tick_task-IsScheduled :
    (kernel_pd now regs current : ℕ) (s : Sched)
    → s.current_task ≡ some current
    → IsScheduled s
    → IsScheduled (tick_task kernel_pd now regs current s)
unfolding tick_task
tick_task-IsScheduled kernel_pd now regs current s e v =
    if-intro IsScheduled (not s.preemptive_enabled) _ _
      (λ off. put-IsScheduled s current _ (λ r. r) v)
      λ on.
        if-intro IsScheduled (not (can_run (s.tasks current).state)) _ _
          (λ stop.
            tick_choose-IsScheduled kernel_pd now regs current _ e
              (put-IsScheduled s current _ (λ r. r) v))
          λ go.
            if-intro IsScheduled (ltb 0 ((s.tasks current).ticks_left - 1)) _ _
              (λ more. put-IsScheduled s current _ (λ r. r) v)
              λ over.
                tick_choose-IsScheduled kernel_pd now regs current _ e
                  (put-IsScheduled s current _ (λ r. r) v)

-- A timer tick, whether it switches or not, keeps the current task in the table and every other task
-- out of the state RUNNING.
pub task_timer_tick-IsScheduled :
    (kernel_pd now regs : ℕ) (s : Sched)
    → IsScheduled s
    → IsScheduled (task_timer_tick kernel_pd now regs s)
unfolding task_timer_tick
task_timer_tick-IsScheduled kernel_pd now regs s v =
    option_case-intro IsScheduled s.current_task _ _ (λ e. v)
      λ c e.
        if-intro IsScheduled (not s.scheduler_enabled || ltb 0 s.sched_lock_count) _ _ (λ off. v)
          (λ on. tick_task-IsScheduled kernel_pd now regs c s e v)

schedule_switch-IsScheduled :
    (kernel_pd current next : ℕ) (s : Sched)
    → next < max_tasks
    → s.current_task ≡ some current
    → IsScheduled s
    → IsScheduled (schedule_switch kernel_pd current next s)
unfolding schedule_switch do_switch_context
schedule_switch-IsScheduled kernel_pd current next s lt e v = record {
  current_in = λ c e'. ground arith;
  one_running = λ i hi r. ground (arith, v.one_running i hi);
}

schedule_task-IsScheduled :
    (kernel_pd now current : ℕ) (s : Sched)
    → s.current_task ≡ some current
    → IsScheduled s
    → IsScheduled (schedule_task kernel_pd now current s)
unfolding schedule_task find_next_task
schedule_task-IsScheduled kernel_pd now current s e v =
    if-intro IsScheduled (choose_task s1.tasks current == current) _ _
      (λ same. put-IsScheduled s1 current _ (λ r. r) v1)
      λ other.
        schedule_switch-IsScheduled kernel_pd current (choose_task s1.tasks current) s1
          (choose_task-lt s1.tasks current (v.current_in current e))
          (wake_sleepers-current now s ∙ e) v1
  where
    s1 : Sched
    s1 = wake_sleepers now s

    v1 : IsScheduled s1
    v1 = wake_sleepers-IsScheduled now s v

-- `task_schedule`, whether it switches or not, keeps the current task in the table and every other
-- task out of the state RUNNING.
pub task_schedule-IsScheduled :
    (kernel_pd now : ℕ) (s : Sched) → IsScheduled s → IsScheduled (task_schedule kernel_pd now s)
unfolding task_schedule
task_schedule-IsScheduled kernel_pd now s v =
    option_case-intro IsScheduled s.current_task _ _ (λ e. v)
      λ c e.
        if-intro IsScheduled s.scheduler_enabled _ _
          (λ on. schedule_task-IsScheduled kernel_pd now c s e v) (λ off. v)

pub task_yield-IsScheduled : (s : Sched) → IsScheduled s → IsScheduled (task_yield s)
unfolding task_yield
task_yield-IsScheduled s v =
    option_case-intro IsScheduled s.current_task _ _ (λ e. v)
      (λ c e. put-IsScheduled s c _ (λ r. r) v)

-- `task_sleep` keeps the current task in the table and every other task out of the state RUNNING.
pub task_sleep-IsScheduled :
    (now ms : ℕ) (s : Sched) → IsScheduled s → IsScheduled (task_sleep now s ms)
unfolding task_sleep
task_sleep-IsScheduled now ms s v =
    option_case-intro IsScheduled s.current_task _ _ (λ e. v)
      (λ c e. task_yield-IsScheduled _ (put-IsScheduled s c _ (λ r. ground arith) v))

pub task_init-IsScheduled : (s : Sched) → IsScheduled (task_init s)
unfolding task_init
task_init-IsScheduled s = record {
  current_in = λ c e. ground arith;
  one_running = λ i lt r. ground arith;
}

-- The timer tick, `task_schedule`, `task_yield` and `task_sleep`, whether they switch or not, keep the
-- current task in the table and every other task out of the state RUNNING.
pub switches-IsScheduled :
    (kernel_pd now regs ms : ℕ) (s : Sched)
    → IsScheduled s
    → IsScheduled (task_timer_tick kernel_pd now regs s)
      × IsScheduled (task_schedule kernel_pd now s)
      × IsScheduled (task_yield s)
      × IsScheduled (task_sleep now s ms)
switches-IsScheduled kernel_pd now regs ms s v = (
  task_timer_tick-IsScheduled kernel_pd now regs s v,
  task_schedule-IsScheduled kernel_pd now s v,
  task_yield-IsScheduled s v,
  task_sleep-IsScheduled now ms s v,
)
