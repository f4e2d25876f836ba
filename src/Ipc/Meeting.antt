-- ===== src/Ipc/Meeting.antt =====
-- A receive that waits and the send that ends it, src/ipc.c.
use microkernel_os.Prelude.{
  ℕ, ◌<◌, ◌≡◌, ◌≢◌, ◌∙◌, refl, sym, ap, true, ◌&&◌, ◌||◌, none, some, inl, inr, arith, ltb, ◌==◌,
  Bool-cases, first_from_congr,
}
use microkernel_os.Task.State.{ready, blocked, nothing, receive, Task, max_tasks, task_get_by_pid}
use microkernel_os.Task.Schedule.{task_yield}
use microkernel_os.Ipc.{
  Ipc, returned, waits, accepts, find_blocked_sender, ipc_send, ipc_receive, pid_any, message_size,
  byte_at, block_receiver, deliver, count_message, stamp,
}
use microkernel_os.Prelude.Copy.{IsSpread, IsApart}
use microkernel_os.Ipc.Bytes.{signed, stamp_bytes, copy_stamp_bytes}
use microkernel_os.Ipc.Send.{IsCall, stamped, ipc_send_met}
use microkernel_os.Ipc.Receive.{IsQuiet, ipc_receive_unfound}
use microkernel_os.Ipc.Delivery.{run_task, place_in}

-- What a receive that finds no sender has done: the caller in slot `d` is blocked with its buffer.
record Listening (k : Ipc) (from_pid msg d : ℕ) (k' : Ipc) : Type 0 where
  pub asleep : (k'.sched.tasks d).state ≡ blocked
  pub reason : (k'.sched.tasks d).blocked_on ≡ receive
  pub source : (k'.sched.tasks d).receive_from ≡ from_pid
  pub holds_buffer : (k'.sched.tasks d).msg_buf ≡ msg
  pub identity :
      ((k'.sched.tasks d).id ≡ (k.sched.tasks d).id)
      × ((k'.sched.tasks d).active ≡ (k.sched.tasks d).active)
  pub others : (j : ℕ) → j ≢ d → k'.sched.tasks j ≡ k.sched.tasks j

block_receiver-Listening :
    (k : Ipc) (from_pid msg d : ℕ)
    → k.sched.current_task ≡ some d
    → Listening k from_pid msg d (block_receiver d from_pid msg k)
unfolding block_receiver task_yield
block_receiver-Listening k from_pid msg d e = record {
  asleep = ground (arith, e);
  reason = ground (arith, e);
  source = ground (arith, e);
  holds_buffer = ground (arith, e);
  identity = (ground (arith, e), ground (arith, e));
  others = λ j ne. ground (arith, e);
}

-- A task number leads to the same slot.
same_slot :
    (k k' : Ipc) (from_pid msg d pid : ℕ)
    → Listening k from_pid msg d k'
    → task_get_by_pid k'.sched pid ≡ task_get_by_pid k.sched pid
unfolding task_get_by_pid
same_slot k k' from_pid msg d pid l =
    first_from_congr max_tasks 0 (λ i. (k'.sched.tasks i).active && (k'.sched.tasks i).id == pid)
      (λ i. (k.sched.tasks i).active && (k.sched.tasks i).id == pid)
      (λ j lo hi. elim (Bool-cases (j == d)) [
        | inl e ↦ let e' : j ≡ d = ground arith in rw (e', l.identity.0, l.identity.1) refl
        | inr e ↦
            let same : k'.sched.tasks j ≡ k.sched.tasks j = l.others j (ground arith) in
            rw same refl
      ])

-- A delivery, with the buffer of the task in slot `d`.
deliver_bytes :
    (k : Ipc) (d msg buf pid i : ℕ)
    → (k.sched.tasks d).msg_buf ≡ buf
    → IsSpread message_size (byte_at k buf)
    → IsApart message_size (byte_at k msg) (byte_at k buf)
    → i < message_size
    → (deliver d msg pid k).memory (byte_at k buf i)
      ≡ signed pid (λ n. k.memory (byte_at k msg n)) i
unfolding deliver
deliver_bytes k d msg buf pid i e spread apart lt =
    rw e (copy_stamp_bytes k msg buf pid i spread apart lt)

-- A delivery behind the stamp and the count.
deliver-signed :
    (k : Ipc) (d msg buf pid i : ℕ)
    → (k.sched.tasks d).msg_buf ≡ buf
    → IsSpread message_size (byte_at k msg)
    → IsSpread message_size (byte_at k buf)
    → IsApart message_size (byte_at k msg) (byte_at k buf)
    → i < message_size
    → (deliver d msg pid (count_message (stamp msg pid k))).memory (byte_at k buf i)
      ≡ signed pid (λ n. k.memory (byte_at k msg n)) i
deliver-signed k d msg buf pid i e spread spread' apart lt =
    deliver_bytes (count_message (stamp msg pid k)) d msg buf pid i e spread' apart lt
    ∙ elim (Bool-cases (ltb i 4)) [
      | inl e ↦ rw e refl
      | inr e ↦ rw e (stamp_bytes k msg pid i spread lt ∙ rw e refl)
    ]

deliver_wakes :
    (k : Ipc) (d msg pid : ℕ)
    → (((deliver d msg pid k).sched.tasks d).state ≡ ready)
      × (((deliver d msg pid k).sched.tasks d).blocked_on ≡ nothing)
unfolding deliver
deliver_wakes k d msg pid = (ground arith, ground arith)

-- In the address space `space`, `msg` is a buffer apart from the buffer `msg'` of the task that runs, which lies at
-- the same place there; no byte of them is at two addresses.
pub record IsReached (k : Ipc) (msg msg' space : ℕ) : Type 0 where
  pub shared : (i : ℕ) → i < message_size → place_in k space msg' i ≡ byte_at k msg' i
  pub spread : IsSpread message_size (place_in k space msg)
  pub spread' : IsSpread message_size (place_in k space msg')
  pub apart : IsApart message_size (place_in k space msg) (place_in k space msg')

module _ {k : Ipc} {msg' d : ℕ} (from_pid dest_pid msg c space : ℕ) (call : IsQuiet k msg' d)
    (target : task_get_by_pid k.sched dest_pid ≡ some d) (apart : c ≢ d)
    (buffers : IsReached k msg msg' space) where
  -- The receiver is blocked, and the sender runs.
  abbrev listening : Ipc
  listening = block_receiver d from_pid msg' k

  abbrev turned : Ipc
  turned = run_task c space listening

  asleep : Listening k from_pid msg' d listening
  asleep = block_receiver-Listening k from_pid msg' d call.caller

  sender_same : listening.sched.tasks c ≡ k.sched.tasks c
  sender_same = asleep.others c apart

  turned-IsCall : msg ≢ 0 → IsCall turned dest_pid msg c d
  unfolding block_receiver task_yield task_get_by_pid
  turned-IsCall some_msg = record {
    caller = refl;
    buffer = some_msg;
    target = same_slot k listening from_pid msg' d dest_pid asleep ∙ target;
  }

  turned-accepts :
      (from_pid == pid_any || (k.sched.tasks c).id == from_pid) ≡ true
      → accepts (turned.sched.tasks d) (turned.sched.tasks c).id ≡ true
  turned-accepts listens =
      ground (arith, asleep.asleep, asleep.reason, asleep.source, sender_same, listens)

  turned_bytes :
      (some_msg : msg ≢ 0) (i : ℕ)
      → i < message_size
      → (deliver d msg (turned.sched.tasks c).id (stamped (turned-IsCall some_msg))).memory
          (byte_at k msg' i)
        ≡ signed (k.sched.tasks c).id (λ j. k.memory (place_in k space msg j)) i
  unfolding block_receiver
  turned_bytes some_msg i lt =
      let pid : ℕ = (turned.sched.tasks c).id in
      ap (deliver d msg pid (stamped (turned-IsCall some_msg))).memory (sym (buffers.shared i lt))
      ∙ deliver-signed turned d msg msg' pid i asleep.holds_buffer buffers.spread buffers.spread'
          buffers.apart lt
      ∙ ap (λ p. signed p (λ j. k.memory (place_in k space msg j)) i) (ap Task.id sender_same)

  -- If no sender and no notification waits for the caller, `ipc_receive` blocks the caller. When another task runs
  -- that the receive listens to, in its own address space, its `ipc_send` to the receiver returns 0 at once and has
  -- put the 64 bytes of the message, with the sender's number in the first four, into the receiver's buffer, and the
  -- receiver is ready. Neither buffer is NULL. The receiver's buffer is shared by the two spaces and apart from the
  -- sender's, and no byte of them is at two addresses.
  pub ipc_send-ipc_receive :
      find_blocked_sender k.sched (k.sched.tasks d).id from_pid ≡ none
      → (from_pid == pid_any || (k.sched.tasks c).id == from_pid) ≡ true
      → msg ≢ 0
      → let (o1, k1) = ipc_receive from_pid msg' k in
        let (o, k2) = ipc_send dest_pid msg (run_task c space k1) in
        (o1 ≡ waits)
        × ((k1.sched.tasks d).state ≡ blocked)
        × ((k1.sched.tasks d).blocked_on ≡ receive)
        × (o ≡ returned 0)
        × ((i : ℕ)
            → i < message_size
            → k2.memory (byte_at k msg' i)
              ≡ signed (k.sched.tasks c).id (λ j. k.memory (place_in k space msg j)) i)
        × ((k2.sched.tasks d).state ≡ ready)
        × ((k2.sched.tasks d).blocked_on ≡ nothing)
  ipc_send-ipc_receive alone listens some_msg =
      rw
        (
          ipc_receive_unfound from_pid call alone,
          ipc_send_met (turned-IsCall some_msg) (turned-accepts listens),
        )
        (
          refl,
          asleep.asleep,
          asleep.reason,
          refl,
          turned_bytes some_msg,
          (deliver_wakes _ d msg _).0,
          (deliver_wakes _ d msg _).1,
        )
