-- ===== src/Ipc/Receive.antt =====
-- `ipc_receive` of src/ipc.c: which sender it takes, and when it waits.
use microkernel_os.Prelude.{ℕ, ◌%◌, ◌≡◌, ◌≢◌, refl, true, none, some, arith}
use microkernel_os.Task.State.{max_tasks}
use microkernel_os.Task.Schedule.{task_yield}
use microkernel_os.Ipc.{
  Ipc, returned, waits, in_receive, find_blocked_sender, ipc_receive, take_message, block_receiver,
}

-- A call of `ipc_receive` by the task in slot `c`, with a buffer and no notification for it.
pub record IsQuiet (k : Ipc) (msg c : ℕ) : Type 0 where
  pub caller : k.sched.current_task ≡ some c
  pub buffer : msg ≢ 0
  pub quiet : k.pending_notify ((k.sched.tasks c).id % max_tasks) ≡ 0

module _ {k : Ipc} {msg c : ℕ} (from_pid : ℕ) (call : IsQuiet k msg c) where
  pub ipc_receive_found :
      {i : ℕ}
      → find_blocked_sender k.sched (k.sched.tasks c).id from_pid ≡ some i
      → ipc_receive from_pid msg k ≡ (returned 0, take_message i msg k)
  unfolding ipc_receive
  ipc_receive_found e = ground (arith, call.caller, call.buffer, call.quiet)

  pub ipc_receive_unfound :
      find_blocked_sender k.sched (k.sched.tasks c).id from_pid ≡ none
      → ipc_receive from_pid msg k ≡ (waits, block_receiver c from_pid msg k)
  unfolding ipc_receive
  ipc_receive_unfound e = ground (arith, call.caller, call.buffer, call.quiet)

  -- With no notification and no sender for the caller, `ipc_receive` blocks the caller, which listens to
  -- the tasks that it asked for and gets its message in the buffer of the call.
  pub ipc_receive-waits :
      find_blocked_sender k.sched (k.sched.tasks c).id from_pid ≡ none
      → ((ipc_receive from_pid msg k).0 ≡ waits)
        × (in_receive ((ipc_receive from_pid msg k).1.sched.tasks c) ≡ true)
        × (((ipc_receive from_pid msg k).1.sched.tasks c).receive_from ≡ from_pid)
        × (((ipc_receive from_pid msg k).1.sched.tasks c).msg_buf ≡ msg)
  unfolding block_receiver task_yield
  ipc_receive-waits e =
      rw (ipc_receive_unfound e) (
        refl,
        ground (arith, call.caller),
        ground (arith, call.caller),
        ground (arith, call.caller),
      )
