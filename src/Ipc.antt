-- ===== src/Ipc.antt =====
-- Synchronous message passing, src/ipc.c and include/ipc.h, over the task table of src/task.c.
-- A `message_t*` is an address in the space of the task that runs, 0 is NULL: `place` says where in `memory` an
-- address lies under the page directory in CR3, and messages are copied byte by byte, so that buffers may be shared
-- between spaces or overlap. Buffers do not reach the kernel's own variables, and each address is mapped. A call that reaches `task_yield` has the outcome `waits`: the caller is
-- off the processor until its state changes, and the call then returns 0.
pub mod Services
pub mod Send
pub mod Receive
pub mod Blocking
pub mod Bytes
pub mod Delivery
pub mod Meeting
mod Tests
use microkernel_os.Prelude.{
  ℕ, zero, suc, ◌+◌, ◌-◌, ◌*◌, ◌/◌, ◌%◌, ◌^◌, ◌≤◌, ◌<◌, ◌≡◌, ◌≢◌, ◌⊎◌, ◌↔◌, ◌∙◌, refl, sym, ap,
  fun_ext, Bool, true, false, not, ◌&&◌, ◌||◌, Option, none, some, List, [], ◌∷◌, ◌++◌, map, inl,
  inr, arith, ltb, leb, ◌==◌, if◌then◌else◌, Bool-cases, Option-cases, Table, update, first_from,
  count_from, for_range, IsFirst, first_from-IsFirst, first_from-none, first_from_eq,
  first_from_congr, count_from_congr, count_from-flip, count_from-le, count_from-lt_of_miss,
  count_from_all, for_range_inv, below_suc, length, get_or, take, drop, replicate, length-append,
  length-replicate, length-drop, lt→ltb, leb→le, ltb→lt, ==_iff, if-intro, option_case,
  option_case-intro,
}
use microkernel_os.Task.State.{
  ready, blocked, is_blocked, BlockedOn, nothing, send, receive, sendrec, Task, Sched, max_tasks,
  inc32, put, task_get_by_pid, task_get_current,
}
use microkernel_os.Task.Schedule.{task_yield}
use microkernel_os.Ipc.Services.{Service, zero_service}

-- The static variables of src/ipc.c, with the task table, the page tables and the memory. A message in `notify_msg`
-- is the table of its bytes.
pub record Ipc : Type 0 where
  pub sched : Sched
  pub place : (page_directory address : ℕ) → ℕ
  pub memory : Table ℕ
  pub pending_notify : Table ℕ
  pub notify_msg : Table (Table ℕ)
  pub total_messages : ℕ
  pub services : Table Service

pub data Outcome : Type 0 where
  returned : ℕ → Outcome
  waits : Outcome

abbrev pub pid_any : ℕ
pid_any = 0xFFFFFFFF

-- An `int32_t` of -n.
abbrev pub error : ℕ → ℕ
error n = 2 ^ 32 - n

pub ipc_init : Ipc → Ipc
ipc_init k = record k { services = λ i. zero_service; pending_notify = λ i. 0; total_messages = 0 }

-- `sizeof(message_t)`; the field `sender` is its first four bytes.
abbrev pub message_size : ℕ
message_size = 64

-- Where byte `i` of the buffer at `msg` lies, in the address space of the task that runs.
abbrev pub byte_at : Ipc → (msg i : ℕ) → ℕ
byte_at k msg i = k.place k.sched.cr3 ((msg + i) % 2 ^ 32)

-- `copy_message`
abbrev pub copy_message : (src dst : ℕ) → Ipc → Ipc
copy_message src dst k = record k {
  memory =
      for_range message_size 0 (λ i m. update m (byte_at k dst i) (m (byte_at k src i))) k.memory;
}

-- `msg->sender = pid`
abbrev pub stamp : (msg pid : ℕ) → Ipc → Ipc
stamp msg pid k = record k {
  memory = for_range 4 0 (λ i m. update m (byte_at k msg i) (pid / 256 ^ i % 256)) k.memory;
}

abbrev pub count_message : Ipc → Ipc
count_message k = record k { total_messages = inc32 k.total_messages }

abbrev pub put_task : Ipc → ℕ → Task → Ipc
put_task k i t = record k { sched = put k.sched i t }

-- `state = TASK_READY; blocked_on = BLOCKED_NONE`
abbrev pub unblock : Task → Task
unblock t = record t { state = ready; blocked_on = nothing }

abbrev pub is_receive : BlockedOn → Bool
is_receive receive = true
is_receive _ = false

abbrev pub is_sendrec : BlockedOn → Bool
is_sendrec sendrec = true
is_sendrec _ = false

abbrev pub is_sending : BlockedOn → Bool
is_sending send = true
is_sending sendrec = true
is_sending _ = false

-- Is the task blocked in `ipc_receive`, or in `ipc_sendrec`?
abbrev pub in_receive : Task → Bool
in_receive t = is_blocked t.state && is_receive t.blocked_on

abbrev pub in_sendrec : Task → Bool
in_sendrec t = is_blocked t.state && is_sendrec t.blocked_on

-- Does the task wait for a message from `pid`?
abbrev pub accepts : Task → ℕ → Bool
accepts t pid = in_receive t && (t.receive_from == pid_any || t.receive_from == pid)

-- A task that `find_blocked_sender` may return.
abbrev pub is_sender_for : (receiver from : ℕ) → Task → Bool
is_sender_for receiver from t =
    t.active
    && is_blocked t.state
    && is_sending t.blocked_on
    && t.send_to == receiver
    && (from == pid_any || t.id == from)

pub find_blocked_sender : Sched → (receiver from : ℕ) → Option ℕ
find_blocked_sender s receiver from =
    first_from max_tasks 0 (λ i. is_sender_for receiver from (s.tasks i))

-- The caller in slot `c` goes to sleep on `why`, with its buffer.
unfoldable pub block_sender : (c : ℕ) → BlockedOn → (dest_pid msg : ℕ) → Ipc → Ipc
block_sender c why dest_pid msg k =
    let t : Task = k.sched.tasks c in
    let k1 =
      put_task k c
        (record t { state = blocked; blocked_on = why; send_to = dest_pid; msg_buf = msg }) in
    record k1 { sched = task_yield k1.sched }

-- Delivery to the waiting task in slot `d`: its buffer, the sender, and the task is ready.
unfoldable pub deliver : (d msg pid : ℕ) → Ipc → Ipc
deliver d msg pid k =
    let t : Task = k.sched.tasks d in
    put_task (stamp t.msg_buf pid (copy_message msg t.msg_buf k)) d (unblock t)

-- The part that `ipc_send` and `ipc_sendrec` share: the caller and the destination, or an error.
abbrev pub with_parties : (dest_pid msg : ℕ) → Ipc → (ℕ → ℕ → Outcome × Ipc) → Outcome × Ipc
with_parties dest_pid msg k body =
    option_case k.sched.current_task (returned (error 1), k)
      λ c.
        if msg == 0
        then (returned (error 1), k)
        else option_case (task_get_by_pid k.sched dest_pid) (returned (error 2), k) (body c)

unfoldable pub ipc_send : (dest_pid msg : ℕ) → Ipc → Outcome × Ipc
ipc_send dest_pid msg k = with_parties dest_pid msg k λ c d.
    let pid : ℕ = (k.sched.tasks c).id in
    let k1 = count_message (stamp msg pid k) in
    if accepts (k.sched.tasks d) pid
    then (returned 0, deliver d msg pid k1)
    else (waits, block_sender c send dest_pid msg k1)

unfoldable pub ipc_sendrec : (dest_pid msg : ℕ) → Ipc → Outcome × Ipc
ipc_sendrec dest_pid msg k = with_parties dest_pid msg k λ c d.
    let pid : ℕ = (k.sched.tasks c).id in
    let k1 = count_message (stamp msg pid k) in
    if accepts (k.sched.tasks d) pid
    then (waits, block_sender c sendrec dest_pid msg (deliver d msg pid k1))
    else (waits, block_sender c sendrec dest_pid msg k1)

-- The sender in slot `i` is found: a plain send is over, a `sendrec` waits on for its reply.
unfoldable pub take_message : (i msg : ℕ) → Ipc → Ipc
take_message i msg k =
    let t : Task = k.sched.tasks i in
    let k1 = stamp msg t.id (copy_message t.msg_buf msg k) in
    put_task k1 i (
      if is_sendrec t.blocked_on
      then record t { blocked_on = sendrec; state = blocked }
      else unblock t)

-- The notification that waits for the task goes into its buffer.
unfoldable pub take_notify : (idx msg : ℕ) → Ipc → Ipc
take_notify idx msg k = record k {
  memory =
      for_range message_size 0 (λ i m. update m (byte_at k msg i) (k.notify_msg idx i)) k.memory;
  pending_notify = update k.pending_notify idx 0;
}

unfoldable pub block_receiver : (c from_pid msg : ℕ) → Ipc → Ipc
block_receiver c from_pid msg k =
    let t : Task = k.sched.tasks c in
    let k1 = put_task k c (record t {
      state = blocked;
      blocked_on = receive;
      receive_from = from_pid;
      msg_buf = msg;
    }) in
    record k1 { sched = task_yield k1.sched }

unfoldable pub ipc_receive : (from_pid msg : ℕ) → Ipc → Outcome × Ipc
ipc_receive from_pid msg k =
    option_case k.sched.current_task (returned (error 1), k)
      λ c.
        let pid : ℕ = (k.sched.tasks c).id in
        let idx : ℕ = pid % max_tasks in
        if msg == 0
        then (returned (error 1), k)
        else if not (k.pending_notify idx == 0)
        then (returned 0, take_notify idx msg k)
        else option_case (find_blocked_sender k.sched pid from_pid)
            (waits, block_receiver c from_pid msg k) λ i. (returned 0, take_message i msg k)

unfoldable pub ipc_reply : (dest_pid msg : ℕ) → Ipc → Outcome × Ipc
ipc_reply dest_pid msg k = with_parties dest_pid msg k λ c d.
    let pid : ℕ = (k.sched.tasks c).id in
    let t : Task = k.sched.tasks d in
    if in_sendrec t
    then (
      returned 0,
      count_message (put_task (copy_message msg t.msg_buf (stamp msg pid k)) d (unblock t)),
    )
    else (returned (error 3), k)

unfoldable pub ipc_notify : (dest_pid msg : ℕ) → Ipc → Outcome × Ipc
ipc_notify dest_pid msg k =
    option_case (task_get_by_pid k.sched dest_pid) (returned (error 2), k)
      λ d.
        let t : Task = k.sched.tasks d in
        let k1 = count_message (stamp msg 0 k) in
        let idx : ℕ = dest_pid % max_tasks in
        if in_receive t
        then (returned 0, put_task (copy_message msg t.msg_buf k1) d (unblock t))
        else (
          returned 0,
          record k1 {
            notify_msg = update k1.notify_msg idx (λ i. k1.memory (byte_at k1 msg i));
            pending_notify = update k1.pending_notify idx 1;
          },
        )
