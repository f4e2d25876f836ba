-- ===== src/Ipc/Tests.antt =====
-- The theorems on src/ipc.c at a client, number 7 in slot 0, and a server, number 9 in slot 1.
use microkernel_os.Prelude.{
  ℕ, ◌+◌, ◌*◌, ◌%◌, ◌^◌, ◌<◌, ◌≡◌, refl, true, false, none, some, List, [], ◌∷◌, arith, ltb, ◌==◌,
  if◌then◌else◌, Table, first_from,
}
use microkernel_os.Task.State.{
  TaskState, ready, running, blocked, BlockedOn, nothing, send, receive, Task, zero_task,
  task_get_by_pid,
}
use microkernel_os.Ipc.{
  Ipc, returned, waits, find_blocked_sender, pid_any, ipc_send, ipc_receive, ipc_sendrec, ipc_reply,
  ipc_notify, message_size, byte_at,
}
use microkernel_os.Ipc.Services.{Service, zero_service}
use microkernel_os.Ipc.Blocking.{IsConsistent, After, calls-IsConsistent}
use microkernel_os.Ipc.Bytes.{signed}
use microkernel_os.Ipc.Send.{IsCall}
use microkernel_os.Ipc.Receive.{IsQuiet}
use microkernel_os.Ipc.Delivery.{run_task, place_in, IsLone, IsPassed, ipc_receive-ipc_send}
use microkernel_os.Ipc.Meeting.{IsReached, ipc_send-ipc_receive}

abbrev task : ℕ → TaskState → BlockedOn → Task
task pid st why = record zero_task {
  id = pid;
  state = st;
  active = true;
  blocked_on = why;
  receive_from = pid_any;
  send_to = 7;
  msg_buf = 200;
}

-- The client's and the server's page directories have the first 4096 bytes in common.
abbrev places : ℕ → ℕ → ℕ
places space a = if ltb a 4096 then a else a + space * 2 ^ 32

-- The task in slot `c` runs in its address space.
abbrev scene : (c space : ℕ) → (client server : TaskState) → Ipc
scene c space client server = record {
  sched = record {
    tasks = λ i.
        if i == 0
        then task 7 client nothing
        else if i == 1
        then task 9 server nothing
        else zero_task;
    current_task = some c;
    next_pid = 10;
    scheduler_enabled = true;
    preemptive_enabled = true;
    default_quantum = 10;
    sched_lock_count = 0;
    switch_new_esp = 0;
    switch_pending = false;
    total_ctx_switches = 0;
    cr3 = space;
    tss_esp0 = 0;
    memory = λ a. 0;
  };
  place = places;
  memory = λ a. a % 256;
  pending_notify = λ i. if i == 30 then 1 else 0;
  notify_msg = λ i. (λ j. 5);
  total_messages = 0;
  services = λ i. zero_service;
}

-- The client runs, or the server.
abbrev busy : Ipc
busy = scene 0 5 running ready

abbrev serving : Ipc
serving = scene 1 6 ready running

busy-IsCall : IsCall busy 9 256 0 1
unfolding task_get_by_pid first_from
busy-IsCall = record { caller = refl; buffer = omega arith; target = refl }

busy-IsLone : IsLone busy 9 pid_any 0 1
unfolding find_blocked_sender first_from
busy-IsLone = record {
  in_table = omega arith;
  alive = refl;
  listens = refl;
  apart = omega arith;
  alone = refl;
  quiet = refl;
}

busy-IsPassed : IsPassed busy 256 8192 6
busy-IsPassed = record {
  shared = λ i lt. ground arith;
  spread = λ i j li lj ne. ground arith;
  spread' = λ i j li lj ne. ground arith;
  apart = λ i j li lj. ground arith;
}

ipc_receive-ipc_send_example :
    ((ipc_send 9 256 busy).0 ≡ waits)
    × (((ipc_send 9 256 busy).1.sched.tasks 0).state ≡ blocked)
    × (((ipc_send 9 256 busy).1.sched.tasks 0).blocked_on ≡ send)
    × ((ipc_receive pid_any 8192 (run_task 1 6 (ipc_send 9 256 busy).1)).0 ≡ returned 0)
    × ((i : ℕ)
        → i < message_size
        → (ipc_receive pid_any 8192 (run_task 1 6 (ipc_send 9 256 busy).1)).1.memory
            (place_in busy 6 8192 i)
          ≡ signed 7 (λ j. busy.memory (byte_at busy 256 j)) i)
    × (((ipc_receive pid_any 8192 (run_task 1 6 (ipc_send 9 256 busy).1)).1.sched.tasks 0).state
        ≡ ready)
    × (((ipc_receive pid_any 8192 (run_task 1 6 (ipc_send 9 256 busy).1)).1.sched.tasks
          0).blocked_on
        ≡ nothing)
ipc_receive-ipc_send_example =
    ipc_receive-ipc_send pid_any 8192 6 busy-IsCall busy-IsLone busy-IsPassed refl (omega arith)

serving-IsQuiet : IsQuiet serving 256 1
serving-IsQuiet = record { caller = refl; buffer = omega arith; quiet = refl }

server_slot : task_get_by_pid serving.sched 9 ≡ some 1
unfolding task_get_by_pid first_from
server_slot = refl

serving-IsReached : IsReached serving 8192 256 5
serving-IsReached = record {
  shared = λ i lt. ground arith;
  spread = λ i j li lj ne. ground arith;
  spread' = λ i j li lj ne. ground arith;
  apart = λ i j li lj. ground arith;
}

no_sender : find_blocked_sender serving.sched 9 pid_any ≡ none
unfolding find_blocked_sender first_from
no_sender = refl

ipc_send-ipc_receive_example :
    ((ipc_receive pid_any 256 serving).0 ≡ waits)
    × (((ipc_receive pid_any 256 serving).1.sched.tasks 1).state ≡ blocked)
    × (((ipc_receive pid_any 256 serving).1.sched.tasks 1).blocked_on ≡ receive)
    × ((ipc_send 9 8192 (run_task 0 5 (ipc_receive pid_any 256 serving).1)).0 ≡ returned 0)
    × ((i : ℕ)
        → i < message_size
        → (ipc_send 9 8192 (run_task 0 5 (ipc_receive pid_any 256 serving).1)).1.memory
            (byte_at serving 256 i)
          ≡ signed 7 (λ j. serving.memory (place_in serving 5 8192 j)) i)
    × (((ipc_send 9 8192 (run_task 0 5 (ipc_receive pid_any 256 serving).1)).1.sched.tasks 1).state
        ≡ ready)
    × (((ipc_send 9 8192 (run_task 0 5 (ipc_receive pid_any 256 serving).1)).1.sched.tasks
          1).blocked_on
        ≡ nothing)
ipc_send-ipc_receive_example =
    ipc_send-ipc_receive pid_any 9 8192 0 5 serving-IsQuiet server_slot (omega arith)
      serving-IsReached no_sender refl (omega arith)

busy-IsConsistent : IsConsistent busy.sched
busy-IsConsistent = record {
  coherent = λ i a. ground arith;
  scheduled = record { current_in = λ c e. ground arith; one_running = λ i lt r. ground arith };
}

calls-IsConsistent_example :
    After (ipc_send 9 256 busy)
    × After (ipc_sendrec 9 256 busy)
    × After (ipc_receive 9 256 busy)
    × After (ipc_reply 9 256 busy)
    × After (ipc_notify 9 256 busy)
calls-IsConsistent_example = calls-IsConsistent 9 256 busy busy-IsConsistent

-- The name `vfs`, and a registry without entries.
abbrev vfs : List ℕ
vfs = b'v' ∷ b'f' ∷ b's' ∷ []

abbrev empty : Table Service
empty i = zero_service
