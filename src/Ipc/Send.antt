-- ===== src/Ipc/Send.antt =====
-- What `ipc_send`, `ipc_sendrec` and `ipc_reply` of src/ipc.c do with the two tasks.
use microkernel_os.Prelude.{ℕ, ◌≡◌, ◌≢◌, refl, true, false, some, arith}
use microkernel_os.Task.State.{blocked, BlockedOn, send, sendrec, task_get_by_pid}
use microkernel_os.Task.Schedule.{task_yield}
use microkernel_os.Ipc.{
  Ipc, returned, waits, copy_message, stamp, count_message, put_task, unblock, in_sendrec, accepts,
  block_sender, deliver, ipc_send, ipc_sendrec, ipc_reply,
}

-- The caller in slot `c` with the buffer `msg` addresses the active task in slot `d`.
pub record IsCall (k : Ipc) (dest_pid msg c d : ℕ) : Type 0 where
  pub caller : k.sched.current_task ≡ some c
  pub buffer : msg ≢ 0
  pub target : task_get_by_pid k.sched dest_pid ≡ some d

-- What a send that does not meet its receiver has done: the caller is blocked with its message.
pub record Blocked (k : Ipc) (dest_pid msg c : ℕ) (why : BlockedOn) (k' : Ipc) : Type 0 where
  pub asleep : (k'.sched.tasks c).state ≡ blocked
  pub reason : (k'.sched.tasks c).blocked_on ≡ why
  pub destination : (k'.sched.tasks c).send_to ≡ dest_pid
  pub holds_buffer : (k'.sched.tasks c).msg_buf ≡ msg
  pub identity :
      ((k'.sched.tasks c).id ≡ (k.sched.tasks c).id)
      × ((k'.sched.tasks c).active ≡ (k.sched.tasks c).active)
  pub others : (j : ℕ) → j ≢ c → k'.sched.tasks j ≡ k.sched.tasks j
  pub caller_kept : k'.sched.current_task ≡ k.sched.current_task
  pub notes_kept : (i : ℕ) → k'.pending_notify i ≡ k.pending_notify i

module _ {k : Ipc} {dest_pid msg c d : ℕ} (call : IsCall k dest_pid msg c d) where
  -- The state behind the stamp and the count that both sends begin with.
  abbrev pub stamped : Ipc
  stamped = count_message (stamp msg (k.sched.tasks c).id k)

  pub ipc_send_met :
      accepts (k.sched.tasks d) (k.sched.tasks c).id ≡ true
      → ipc_send dest_pid msg k ≡ (returned 0, deliver d msg (k.sched.tasks c).id stamped)
  unfolding ipc_send
  ipc_send_met acc = ground (arith, call.caller, call.buffer, call.target)

  pub ipc_send_unmet :
      accepts (k.sched.tasks d) (k.sched.tasks c).id ≡ false
      → ipc_send dest_pid msg k ≡ (waits, block_sender c send dest_pid msg stamped)
  unfolding ipc_send
  ipc_send_unmet acc = ground (arith, call.caller, call.buffer, call.target)

  pub block_sender-Blocked :
      (why : BlockedOn) → Blocked k dest_pid msg c why (block_sender c why dest_pid msg stamped)
  unfolding block_sender task_yield
  block_sender-Blocked why = record {
    asleep = ground (arith, call.caller);
    reason = ground (arith, call.caller);
    destination = ground (arith, call.caller);
    holds_buffer = ground (arith, call.caller);
    identity = (ground (arith, call.caller), ground (arith, call.caller));
    others = λ j ne. ground (arith, call.caller);
    caller_kept = ground (arith, call.caller);
    notes_kept = λ i. refl;
  }

  -- `ipc_send` to a task that does not wait for the caller blocks the caller, which keeps the stamped
  -- message in its buffer; no other task changes.
  pub ipc_send-Blocked :
      accepts (k.sched.tasks d) (k.sched.tasks c).id ≡ false
      → ((ipc_send dest_pid msg k).0 ≡ waits)
        × Blocked k dest_pid msg c send (ipc_send dest_pid msg k).1
  ipc_send-Blocked acc = rw (ipc_send_unmet acc) (refl, block_sender-Blocked send)

  pub ipc_sendrec_met :
      accepts (k.sched.tasks d) (k.sched.tasks c).id ≡ true
      → ipc_sendrec dest_pid msg k
        ≡ (waits, block_sender c sendrec dest_pid msg (deliver d msg (k.sched.tasks c).id stamped))
  unfolding ipc_sendrec
  ipc_sendrec_met acc = ground (arith, call.caller, call.buffer, call.target)

  pub ipc_sendrec_unmet :
      accepts (k.sched.tasks d) (k.sched.tasks c).id ≡ false
      → ipc_sendrec dest_pid msg k ≡ (waits, block_sender c sendrec dest_pid msg stamped)
  unfolding ipc_sendrec
  ipc_sendrec_unmet acc = ground (arith, call.caller, call.buffer, call.target)

  -- The state behind a reply.
  abbrev pub replied : Ipc
  replied = count_message (
      put_task (copy_message msg (k.sched.tasks d).msg_buf (stamp msg (k.sched.tasks c).id k)) d
        (unblock (k.sched.tasks d)))

  pub ipc_reply_waiting :
      in_sendrec (k.sched.tasks d) ≡ true → ipc_reply dest_pid msg k ≡ (returned 0, replied)
  unfolding ipc_reply
  ipc_reply_waiting w = ground (arith, call.caller, call.buffer, call.target)
