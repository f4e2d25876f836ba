-- ===== src/Task/Create.antt =====
-- Creating and ending tasks: `task_create`, `task_create_user`, `task_create_from_elf`, `task_exit`
-- and `task_kill` of src/task.c, over the kernel's heap and its page tables.
pub mod Running
use microkernel_os.Prelude.{
  ℕ, zero, suc, ◌+◌, ◌-◌, ◌*◌, ◌/◌, ◌%◌, ◌^◌, ◌≤◌, ◌<◌, ◌≡◌, ◌≢◌, ◌⊎◌, ◌↔◌, ◌∙◌, refl, sym, ap,
  fun_ext, Bool, true, false, not, ◌&&◌, ◌||◌, Option, none, some, List, [], ◌∷◌, ◌++◌, map, inl,
  inr, arith, ltb, leb, ◌==◌, if◌then◌else◌, Bool-cases, Option-cases, Table, update, first_from,
  count_from, for_range, IsFirst, first_from-IsFirst, first_from-none, first_from_eq,
  first_from_congr, count_from_congr, count_from-flip, count_from-le, count_from-lt_of_miss,
  count_from_all, for_range_inv, below_suc, length, get_or, take, drop, replicate, length-append,
  length-replicate, length-drop, lt→ltb, leb→le, ltb→lt, ==_iff, if-intro, option_case,
  option_case-intro,
}
use microkernel_os.Heap.{Heap, kmalloc, kfree}
use microkernel_os.Paging.{Paging}
use microkernel_os.Paging.Spaces.{paging_create_address_space, paging_destroy_address_space}
use microkernel_os.Task.State.{
  ready, terminated, Task, Sched, max_tasks, task_stack_size, kernel_stack_size, zero_task,
  task_name, inc32,
}
use microkernel_os.Task.Frame.{push_words, user_frame, setup_kernel_stack, setup_user_stack}

-- The heap of src/heap.c and the page tables of src/paging.c, which tasks take their memory from.
pub record Pool : Type 0 where
  pub heap : Heap
  pub paging : Paging

abbrev pub take_block : ℕ → Pool → ℕ × Pool
take_block n p = let (a, h) = kmalloc n p.heap in (a, record p { heap = h })

abbrev give_block : ℕ → Pool → Pool
give_block a p = record p { heap = kfree a p.heap }

abbrev pub take_space : Pool → ℕ × Pool
take_space p = let (pd, t) = paging_create_address_space p.paging in (pd, record p { paging = t })

abbrev give_space : ℕ → Pool → Pool
give_space pd p = record p { paging = paging_destroy_address_space pd p.paging }

-- An `int32_t` of -1.
abbrev pub minus_one : ℕ
minus_one = 2 ^ 32 - 1

-- The first slot that is not active.
pub free_slot : Sched → Option ℕ
free_slot s = first_from max_tasks 0 (λ i. not (s.tasks i).active)

-- The fields that the three functions fill in the same way.
abbrev pub new_task : Sched → List ℕ → ℕ → Task
new_task s name priority = record zero_task {
  id = s.next_pid;
  name = task_name name;
  state = ready;
  active = true;
  priority = priority;
  quantum = s.default_quantum;
  ticks_left = s.default_quantum;
}

-- The task with its frame goes into the slot, and the next number is used up.
abbrev pub install : Sched → ℕ → Task × Table ℕ → Sched
install s slot (t, mem) = record s {
  tasks = update s.tasks slot t;
  next_pid = inc32 s.next_pid;
  memory = mem;
}

-- The end of `task_create`, with the slot and the stack at hand.
pub start_kernel_task : Sched → ℕ → List ℕ → ℕ → ℕ → (stack : ℕ) → Sched
start_kernel_task s slot name entry priority stack = install s slot (
    setup_kernel_stack s.memory
      (record (new_task s name priority) { stack_base = stack; stack_size = task_stack_size })
      entry)

-- The end of `task_create_user`.
unfoldable pub start_user_task :
    Sched → ℕ → List ℕ → ℕ → ℕ → Bool → (user_stack kernel_stack pd : ℕ) → Sched
start_user_task s slot name entry priority io user_stack kernel_stack pd = install s slot (
    setup_user_stack s.memory
      (record (new_task s name priority) {
        stack_base = user_stack;
        stack_size = task_stack_size;
        is_user = true;
        io_privileged = io;
        page_directory = pd;
        kernel_stack_base = kernel_stack;
        kernel_stack_top = (kernel_stack + kernel_stack_size) % 2 ^ 32;
      })
      entry)

-- `task_create_from_elf`: the address space and the stacks are the loader's.
pub start_elf_task :
    Sched → ℕ → List ℕ → (entry user_stack_top pd kstack_base kstack_size : ℕ) → ℕ → Bool → Sched
start_elf_task s slot name entry user_stack_top pd kstack_base kstack_size priority io =
    let kernel_top : ℕ = (kstack_base + kstack_size) % 2 ^ 32 in
    let (sp, mem) = push_words (user_frame entry user_stack_top io) (kernel_top, s.memory) in
    install s slot (
      record (new_task s name priority) {
        stack_base = (user_stack_top + 2 ^ 32 - 4 * 4096) % 2 ^ 32;
        stack_size = 4 * 4096;
        is_user = true;
        io_privileged = io;
        page_directory = pd;
        kernel_stack_base = kstack_base;
        kernel_stack_top = kernel_top;
        saved_esp = sp;
      },
      mem,
    )

pub task_create_from_elf :
    List ℕ → (entry user_stack_top pd kstack_base kstack_size : ℕ) → ℕ → Bool → Sched → ℕ × Sched
task_create_from_elf name entry user_stack_top pd kstack_base kstack_size priority io s =
    elim (free_slot s) [
      | none ↦ (minus_one, s)
      | some slot ↦ (
        s.next_pid,
        start_elf_task s slot name entry user_stack_top pd kstack_base kstack_size priority io,
      )
    ]

pub task_create : List ℕ → ℕ → ℕ → Sched → Pool → ℕ × Sched × Pool
task_create name entry priority s p = elim (free_slot s) [
  | none ↦ (minus_one, s, p)
  | some slot ↦
      let (stack, p') = take_block task_stack_size p in
      if stack == 0
      then (minus_one, s, p')
      else (s.next_pid, start_kernel_task s slot name entry priority stack, p')
]

unfoldable pub task_create_user : List ℕ → ℕ → ℕ → Bool → Sched → Pool → ℕ × Sched × Pool
task_create_user name entry priority io s p = elim (free_slot s) [
  | none ↦ (minus_one, s, p)
  | some slot ↦
      let (user_stack, p1) = take_block task_stack_size p in
      if user_stack == 0
      then (minus_one, s, p1)
      else let (kernel_stack, p2) = take_block kernel_stack_size p1 in
        if kernel_stack == 0
        then (minus_one, s, give_block user_stack p2)
        else let (pd, p3) = take_space p2 in
          if pd == 0 then (minus_one, s, give_block kernel_stack (give_block user_stack p3)) else (
            s.next_pid,
            start_user_task s slot name entry priority io user_stack kernel_stack pd,
            p3,
          )
]

-- `kfree` of a stack that lies below the user addresses, if there is one.
abbrev pub free_user_stack : ℕ → Pool → Pool
free_user_stack base p =
    if base == 0 then p else if ltb base 0x40000000 then give_block base p else p

abbrev pub free_kernel_stack : ℕ → Pool → Pool
free_kernel_stack base p = if base == 0 then p else give_block base p

abbrev pub free_space : ℕ → Pool → Pool
free_space pd p = if pd == 0 then p else give_space pd p

-- What `task_exit` and `task_kill` give back of a task.
pub release_task : Task → Pool → Pool
release_task t p =
    free_space t.page_directory
      (free_kernel_stack t.kernel_stack_base (free_user_stack t.stack_base p))

-- `task_exit` up to its `task_yield`, which does not return. `kernel_pd` is the address of the
-- kernel's page directory. Task 0 does not exit.
unfoldable pub task_exit : (kernel_pd : ℕ) → Sched → Pool → Sched × Pool
task_exit kernel_pd s p =
    option_case s.current_task (s, p)
      λ c.
        let t : Task = s.tasks c in
        let ended : Task = record t {
          state = terminated;
          active = false;
          page_directory = 0;
          ticks_left = 0;
        } in
        let cr3' : ℕ = if t.page_directory == 0 then s.cr3 else kernel_pd in
        if c == 0
        then (s, p)
        else (record s { tasks = update s.tasks c ended; cr3 = cr3' }, release_task t p)

-- The slot that `task_kill` ends: the first active one with the number, but for slot 0.
pub task_kill : (kernel_pd : ℕ) → ℕ → Sched → Pool → Sched × Pool
task_kill kernel_pd id s p =
    elim (first_from max_tasks 0
      (λ i. (s.tasks i).active && (s.tasks i).id == id && not (i == 0))) [
        | none ↦ (s, p)
        | some i ↦
            let t : Task = s.tasks i in
            let ended : Task = record t {
              state = terminated;
              active = false;
              page_directory = 0;
            } in
            let cr3' : ℕ =
              if t.page_directory == 0
              then s.cr3
              else if s.cr3 == t.page_directory
              then kernel_pd
              else s.cr3 in
            (record s { tasks = update s.tasks i ended; cr3 = cr3' }, release_task t p)
      ]
