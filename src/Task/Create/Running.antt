-- ===== src/Task/Create/Running.antt =====
-- The creation and the end of tasks in src/task.c, and which task runs.
use microkernel_os.Prelude.{
  ℕ, ◌≡◌, refl, Bool, false, not, ◌&&◌, List, inl, inr, arith, ◌==◌, Bool-cases, Option-cases,
  update, first_from, if-intro, option_case-intro,
}
use microkernel_os.Task.State.{
  is_running, Task, Sched, max_tasks, task_stack_size, kernel_stack_size,
}
use microkernel_os.Task.Frame.{setup_kernel_stack, setup_user_stack}
use microkernel_os.Task.Create.{
  Pool, take_block, take_space, free_slot, start_kernel_task, start_user_task, start_elf_task,
  task_create, task_create_user, task_create_from_elf, task_exit, task_kill,
}
use microkernel_os.Task.Schedule.Running.{IsScheduled}

start_kernel_task-IsScheduled :
    (s : Sched) (slot : ℕ) (name : List ℕ) (entry priority stack : ℕ)
    → IsScheduled s
    → IsScheduled (start_kernel_task s slot name entry priority stack)
unfolding start_kernel_task setup_kernel_stack
start_kernel_task-IsScheduled s slot name entry priority stack v = record {
  current_in = v.current_in;
  one_running = λ i lt r. ground (arith, v.one_running i lt);
}

start_user_task-IsScheduled :
    (s : Sched) (slot : ℕ) (name : List ℕ) (entry priority : ℕ) (io : Bool)
    (user_stack kernel_stack pd : ℕ)
    → IsScheduled s
    → IsScheduled (start_user_task s slot name entry priority io user_stack kernel_stack pd)
unfolding start_user_task setup_user_stack
start_user_task-IsScheduled s slot name entry priority io user_stack kernel_stack pd v = record {
  current_in = v.current_in;
  one_running = λ i lt r. ground (arith, v.one_running i lt);
}

abbrev Kept : ℕ × Sched × Pool → Type 0
Kept out = IsScheduled out.1

task_create-IsScheduled :
    (name : List ℕ) (entry priority : ℕ) (s : Sched) (p : Pool)
    → IsScheduled s
    → Kept (task_create name entry priority s p)
unfolding task_create
task_create-IsScheduled name entry priority s p v =
    let (stack, p1) = take_block task_stack_size p in
    elim (Option-cases (free_slot s)) [
      | inl e ↦ rw (e, task_create) v
      | inr (slot, e) ↦ elim (Bool-cases (stack == 0)) [
        | inl z ↦ rw (e, z, task_create) v
        | inr n ↦
            rw (e, n, task_create)
              (start_kernel_task-IsScheduled s slot name entry priority stack v)
      ]
    ]

task_create_user-IsScheduled :
    (name : List ℕ) (entry priority : ℕ) (io : Bool) (s : Sched) (p : Pool)
    → IsScheduled s
    → Kept (task_create_user name entry priority io s p)
unfolding task_create_user
task_create_user-IsScheduled name entry priority io s p v =
    let (stack1, p1) = take_block task_stack_size p in
    let (stack2, p2) = take_block kernel_stack_size p1 in
    let (pd, p3) = take_space p2 in
    elim (Option-cases (free_slot s)) [
      | inl e ↦ rw (e, task_create_user) v
      | inr (slot, e) ↦ elim (Bool-cases (stack1 == 0)) [
        | inl z1 ↦ rw (e, z1, task_create_user) v
        | inr n1 ↦ elim (Bool-cases (stack2 == 0)) [
          | inl z2 ↦ rw (e, n1, z2, task_create_user) v
          | inr n2 ↦ elim (Bool-cases (pd == 0)) [
            | inl z3 ↦ rw (e, n1, n2, z3, task_create_user) v
            | inr n3 ↦
                rw (e, n1, n2, n3, task_create_user)
                  (start_user_task-IsScheduled s slot name entry priority io stack1 stack2 pd v)
          ]
        ]
      ]
    ]

-- Ending the task in a slot.
ended-IsScheduled :
    (s : Sched) (slot cr3' : ℕ) (t : Task)
    → is_running t.state ≡ false
    → IsScheduled s
    → IsScheduled (record s { tasks = update s.tasks slot t; cr3 = cr3' })
ended-IsScheduled s slot cr3' t h v = record {
  current_in = v.current_in;
  one_running = λ i lt r. ground (arith, v.one_running i lt);
}

abbrev Left : Sched × Pool → Type 0
Left out = IsScheduled out.0

task_exit-IsScheduled :
    (kernel_pd : ℕ) (s : Sched) (p : Pool) → IsScheduled s → Left (task_exit kernel_pd s p)
unfolding task_exit
task_exit-IsScheduled kernel_pd s p v =
    option_case-intro Left s.current_task _ _ (λ e. v)
      λ c e. if-intro Left (c == 0) _ _ (λ h. v) (λ h. ended-IsScheduled s c _ _ refl v)

task_kill-IsScheduled :
    (kernel_pd id : ℕ) (s : Sched) (p : Pool) → IsScheduled s → Left (task_kill kernel_pd id s p)
unfolding task_kill
task_kill-IsScheduled kernel_pd id s p v =
    elim (Option-cases
      (first_from max_tasks 0 (λ i. (s.tasks i).active && (s.tasks i).id == id && not (i == 0)))) [
        | inl e ↦ rw (e, task_kill) v
        | inr (i, e) ↦ rw (e, task_kill) (ended-IsScheduled s i _ _ refl v)
      ]

task_create_from_elf-IsScheduled :
    (name : List ℕ) (entry top pd kstack_base kstack_size priority : ℕ) (io : Bool) (s : Sched)
    → IsScheduled s
    → IsScheduled (task_create_from_elf name entry top pd kstack_base kstack_size priority io s).1
unfolding task_create_from_elf start_elf_task
task_create_from_elf-IsScheduled name entry top pd kstack_base kstack_size priority io s v =
    elim (Option-cases (free_slot s)) [
      | inl e ↦ rw (e, task_create_from_elf) v
      | inr (slot, e) ↦
          rw (e, task_create_from_elf)
            (record {
              current_in = v.current_in;
              one_running = λ i lt r. ground (arith, v.one_running i lt);
            })
    ]

-- Making a task, by `task_create`, `task_create_user` or `task_create_from_elf`, and ending one, by `task_exit` up to
-- its yield or by `task_kill`, keep it so that at most one slot is RUNNING and it is the current one: also where no slot
-- or no memory is left, and where the current task ends or is killed.
pub changes-IsScheduled :
    (name : List ℕ) (entry priority : ℕ) (io : Bool)
    (user_top pd kstack_base kstack_size kernel_pd id : ℕ) (s : Sched) (p : Pool)
    → IsScheduled s
    → IsScheduled (task_create name entry priority s p).1
      × IsScheduled (task_create_user name entry priority io s p).1
      × IsScheduled
          (task_create_from_elf name entry user_top pd kstack_base kstack_size priority io s).1
      × IsScheduled (task_exit kernel_pd s p).0
      × IsScheduled (task_kill kernel_pd id s p).0
changes-IsScheduled name entry priority io user_top pd kstack_base kstack_size kernel_pd id s p v =
    (
      task_create-IsScheduled name entry priority s p v,
      task_create_user-IsScheduled name entry priority io s p v,
      task_create_from_elf-IsScheduled name entry user_top pd kstack_base kstack_size priority io s
          v,
      task_exit-IsScheduled kernel_pd s p v,
      task_kill-IsScheduled kernel_pd id s p v,
    )
