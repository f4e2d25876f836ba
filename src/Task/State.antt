-- ===== src/Task/State.antt =====
-- The data of src/task.c: the task table, the scheduler's variables and the processor's registers
-- that it writes. Numbers are `uint32_t`, an address is a number, and 0 is NULL.
use microkernel_os.Prelude.{
  ℕ, ◌+◌, ◌-◌, ◌%◌, ◌^◌, ◌≡◌, Bool, true, false, ◌&&◌, Option, some, List, ◌∷◌, ltb, ◌==◌,
  if◌then◌else◌, Table, update, first_from, count_from, replicate,
}
use microkernel_os.CString.{strncpy, set_char}

abbrev pub max_tasks : ℕ
max_tasks = 32

abbrev pub task_stack_size : ℕ
task_stack_size = 8192

abbrev pub kernel_stack_size : ℕ
kernel_stack_size = 4096

abbrev pub task_name_len : ℕ
task_name_len = 32

-- `task_state_t`
pub data TaskState : Type 0 where
  ready running sleeping blocked terminated : TaskState

-- The `BLOCKED_` codes of include/ipc.h.
pub data BlockedOn : Type 0 where
  nothing send receive sendrec : BlockedOn

-- `message_t`: the union is its 56 raw bytes.
pub record Message : Type 0 where
  pub sender : ℕ
  pub type : ℕ
  pub raw : List ℕ

-- `task_regs_t`
pub record Regs : Type 0 where
  pub eax : ℕ
  pub ebx : ℕ
  pub ecx : ℕ
  pub edx : ℕ
  pub esi : ℕ
  pub edi : ℕ
  pub ebp : ℕ
  pub esp : ℕ
  pub eip : ℕ
  pub eflags : ℕ

-- `task_t`. `msg_buf` is the address of a message.
pub record Task : Type 0 where
  pub id : ℕ
  pub name : List ℕ
  pub state : TaskState
  pub regs : Regs
  pub stack_base : ℕ
  pub stack_size : ℕ
  pub wake_tick : ℕ
  pub cpu_ticks : ℕ
  pub priority : ℕ
  pub active : Bool
  pub quantum : ℕ
  pub ticks_left : ℕ
  pub saved_esp : ℕ
  pub total_ticks : ℕ
  pub switches : ℕ
  pub page_directory : ℕ
  pub is_user : Bool
  pub kernel_stack_base : ℕ
  pub kernel_stack_top : ℕ
  pub blocked_on : BlockedOn
  pub send_to : ℕ
  pub receive_from : ℕ
  pub msg_buf : ℕ
  pub io_privileged : Bool
  pub owned_irqs : ℕ
  pub ipc_msg : Message

-- The static variables of src/task.c, with the registers and the memory that it writes:
-- `current_task` is `none` for -1, `cr3` the active page directory, `tss_esp0` the field of the TSS,
-- and `memory` the 32-bit word at each address.
pub record Sched : Type 0 where
  pub tasks : Table Task
  pub current_task : Option ℕ
  pub next_pid : ℕ
  pub scheduler_enabled : Bool
  pub preemptive_enabled : Bool
  pub default_quantum : ℕ
  pub sched_lock_count : ℕ
  pub switch_new_esp : ℕ
  pub switch_pending : Bool
  pub total_ctx_switches : ℕ
  pub cr3 : ℕ
  pub tss_esp0 : ℕ
  pub memory : Table ℕ

-- `x++` on a `uint32_t`
abbrev pub inc32 : ℕ → ℕ
inc32 x = (x + 1) % 2 ^ 32

abbrev pub no_regs : Regs
no_regs = record {
  eax = 0;
  ebx = 0;
  ecx = 0;
  edx = 0;
  esi = 0;
  edi = 0;
  ebp = 0;
  esp = 0;
  eip = 0;
  eflags = 0;
}

abbrev pub no_message : Message
no_message = record { sender = 0; type = 0; raw = replicate 56 0 }

-- `memset(t, 0, sizeof(task_t))`: state 0 is `TASK_READY`.
abbrev pub zero_task : Task
zero_task = record {
  id = 0;
  name = replicate task_name_len 0;
  state = ready;
  regs = no_regs;
  stack_base = 0;
  stack_size = 0;
  wake_tick = 0;
  cpu_ticks = 0;
  priority = 0;
  active = false;
  quantum = 0;
  ticks_left = 0;
  saved_esp = 0;
  total_ticks = 0;
  switches = 0;
  page_directory = 0;
  is_user = false;
  kernel_stack_base = 0;
  kernel_stack_top = 0;
  blocked_on = nothing;
  send_to = 0;
  receive_from = 0;
  msg_buf = 0;
  io_privileged = false;
  owned_irqs = 0;
  ipc_msg = no_message;
}

-- `strncpy(t->name, name, TASK_NAME_LEN - 1); t->name[TASK_NAME_LEN - 1] = 0`
abbrev pub task_name : List ℕ → List ℕ
task_name name = set_char (strncpy (replicate task_name_len 0) name 31) 31 0

abbrev pub is_sleeping : TaskState → Bool
is_sleeping sleeping = true
is_sleeping _ = false

abbrev pub is_running : TaskState → Bool
is_running running = true
is_running _ = false

abbrev pub is_blocked : TaskState → Bool
is_blocked blocked = true
is_blocked _ = false

-- `TASK_READY` or `TASK_RUNNING`
abbrev pub can_run : TaskState → Bool
can_run ready = true
can_run running = true
can_run _ = false

abbrev pub IsRunnable : Task → Type 0
IsRunnable t = (t.active && can_run t.state) ≡ true

-- `tasks[i] = t`
abbrev pub put : Sched → ℕ → Task → Sched
put s i t = record s { tasks = update s.tasks i t }

-- `kernel` and its NUL in a name buffer.
abbrev kernel_name : List ℕ
kernel_name = b'k' ∷ b'e' ∷ b'r' ∷ b'n' ∷ b'e' ∷ b'l' ∷ replicate 26 0

-- `task_init`: the kernel is task 0 and runs.
unfoldable pub task_init : Sched → Sched
task_init s =
    let kernel : Task = record zero_task {
      id = s.next_pid;
      name = kernel_name;
      state = running;
      active = true;
      priority = 10;
      quantum = s.default_quantum;
      ticks_left = s.default_quantum;
      io_privileged = true;
    } in
    record s {
      tasks = update (λ i. zero_task) 0 kernel;
      next_pid = inc32 s.next_pid;
      current_task = some 0;
      scheduler_enabled = true;
    }

-- `task_get_by_pid`: the slot of the first active task with the number.
unfoldable pub task_get_by_pid : Sched → ℕ → Option ℕ
task_get_by_pid s pid = first_from max_tasks 0 (λ i. (s.tasks i).active && (s.tasks i).id == pid)

pub task_get_current : Sched → Option ℕ
task_get_current s = s.current_task

pub task_count : Sched → ℕ
task_count s = count_from max_tasks 0 (λ i. (s.tasks i).active)

pub task_set_quantum : Sched → ℕ → Sched
task_set_quantum s ticks =
    let raised : ℕ = if ltb ticks 1 then 1 else ticks in
    record s { default_quantum = if ltb 1000 raised then 1000 else raised }

pub task_set_preemptive : Sched → Bool → Sched
task_set_preemptive s enabled = record s { preemptive_enabled = enabled }

pub task_lock_scheduler : Sched → Sched
task_lock_scheduler s = record s { sched_lock_count = inc32 s.sched_lock_count }

pub task_unlock_scheduler : Sched → Sched
task_unlock_scheduler s =
    if ltb 0 s.sched_lock_count then record s { sched_lock_count = s.sched_lock_count - 1 } else s

pub task_get_quantum : Sched → ℕ
task_get_quantum s = s.default_quantum

pub task_is_preemptive : Sched → Bool
task_is_preemptive s = s.preemptive_enabled

pub task_total_switches : Sched → ℕ
task_total_switches s = s.total_ctx_switches
