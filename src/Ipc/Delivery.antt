-- ===== src/Ipc/Delivery.antt =====
-- A blocked send and the receive that ends it, src/ipc.c: one message goes from buffer to buffer.
use microkernel_os.Prelude.{
  ℕ, ◌+◌, ◌%◌, ◌^◌, ◌<◌, ◌≡◌, ◌≢◌, ◌∙◌, refl, true, false, ◌&&◌, ◌||◌, none, some, inl, inr, arith,
  ltb, ◌==◌, Bool-cases, IsFirst, first_from-IsFirst, first_from-none, first_from_eq,
}
use microkernel_os.Task.State.{ready, blocked, nothing, send, Sched, max_tasks, task_get_by_pid}
use microkernel_os.Ipc.{
  Ipc, returned, waits, accepts, find_blocked_sender, ipc_send, ipc_receive, is_sender_for, pid_any,
  message_size, byte_at, block_sender, take_message,
}
use microkernel_os.Prelude.Copy.{IsSpread, IsApart}
use microkernel_os.Ipc.Bytes.{signed, stamp_bytes, copy_stamp_bytes}
use microkernel_os.Ipc.Send.{IsCall, Blocked, stamped, ipc_send_unmet, block_sender-Blocked}
use microkernel_os.Ipc.Receive.{IsQuiet, ipc_receive_found}

-- The scheduler has switched to slot `d`, whose address space is `space`.
abbrev pub run_task : (d space : ℕ) → Ipc → Ipc
run_task d space k =
    let s : Sched = k.sched in record k { sched = record s { current_task = some d; cr3 = space } }

-- Where byte `i` of a buffer lies in the address space `space`.
abbrev pub place_in : Ipc → (space msg i : ℕ) → ℕ
place_in k space msg i = k.place space ((msg + i) % 2 ^ 32)

pub task_get_by_pid-eq :
    (s : Sched) (pid d : ℕ) → task_get_by_pid s pid ≡ some d → (s.tasks d).id ≡ pid
unfolding task_get_by_pid
task_get_by_pid-eq s pid d e =
    let f = first_from-IsFirst max_tasks 0 d (λ i. (s.tasks i).active && (s.tasks i).id == pid) e in
    ground (arith, f.hit)

-- The sender in slot `c` is alone, and the receiver in slot `d` listens to it.
pub record IsLone (k : Ipc) (dest_pid from_pid c d : ℕ) : Type 0 where
  pub in_table : c < max_tasks
  pub alive : (k.sched.tasks c).active ≡ true
  pub listens : (from_pid == pid_any || (k.sched.tasks c).id == from_pid) ≡ true
  pub apart : c ≢ d
  pub alone : find_blocked_sender k.sched dest_pid from_pid ≡ none
  pub quiet : k.pending_notify (dest_pid % max_tasks) ≡ 0

-- The buffer `msg` of the task that runs lies at the same place in the address space `space`, and there `msg'` is a
-- buffer apart from it; no byte of them is at two addresses.
pub record IsPassed (k : Ipc) (msg msg' space : ℕ) : Type 0 where
  pub shared : (i : ℕ) → i < message_size → place_in k space msg i ≡ byte_at k msg i
  pub spread : IsSpread message_size (byte_at k msg)
  pub spread' : IsSpread message_size (place_in k space msg')
  pub apart : IsApart message_size (place_in k space msg) (place_in k space msg')

-- The copy of a receive, with the buffer and the number of its sender.
take_message_bytes :
    (k : Ipc) (i msg buf pid j : ℕ)
    → (k.sched.tasks i).msg_buf ≡ buf
    → (k.sched.tasks i).id ≡ pid
    → IsSpread message_size (byte_at k msg)
    → IsApart message_size (byte_at k buf) (byte_at k msg)
    → j < message_size
    → (take_message i msg k).memory (byte_at k msg j)
      ≡ signed pid (λ n. k.memory (byte_at k buf n)) j
unfolding take_message
take_message_bytes k i msg buf pid j e1 e2 spread apart lt =
    rw (e1, e2) (copy_stamp_bytes k buf msg pid j spread apart lt)

-- A plain sender is ready behind a receive.
take_message_wakes :
    (k : Ipc) (i msg : ℕ)
    → (k.sched.tasks i).blocked_on ≡ send
    → (((take_message i msg k).sched.tasks i).state ≡ ready)
      × (((take_message i msg k).sched.tasks i).blocked_on ≡ nothing)
unfolding take_message
take_message_wakes k i msg e = rw e (ground arith, ground arith)

module _ {k : Ipc} {dest_pid msg c d : ℕ} (from_pid msg' space : ℕ)
    (call : IsCall k dest_pid msg c d) (lone : IsLone k dest_pid from_pid c d)
    (buffers : IsPassed k msg msg' space) where
  sender_found :
      (k' : Ipc)
      → Blocked k dest_pid msg c send k'
      → IsFirst max_tasks 0 (λ j. is_sender_for dest_pid from_pid (k'.sched.tasks j)) c
  unfolding find_blocked_sender
  sender_found k' b = record {
    above = omega arith;
    below = omega (arith, lone.in_table);
    hit = ground (arith, b.asleep, b.reason, b.destination, b.identity, lone.alive, lone.listens);
    missed = λ j lo hi. ground (
      arith,
      b.others j,
      first_from-none max_tasks 0 (λ i. is_sender_for dest_pid from_pid (k.sched.tasks i))
          lone.alone j,
      lone.in_table,
    );
  }

  -- The sender is blocked, and the receiver runs.
  abbrev waiting : Ipc
  waiting = block_sender c send dest_pid msg (stamped call)

  abbrev turned : Ipc
  turned = run_task d space waiting

  asleep : Blocked k dest_pid msg c send waiting
  asleep = block_sender-Blocked call send

  awake_id : (waiting.sched.tasks d).id ≡ dest_pid
  awake_id =
      ground (arith, asleep.others d, lone.apart, task_get_by_pid-eq k.sched dest_pid d call.target)

  turned-IsQuiet : msg' ≢ 0 → IsQuiet turned msg' d
  turned-IsQuiet some_msg = record {
    caller = refl;
    buffer = some_msg;
    quiet = rw awake_id (asleep.notes_kept _ ∙ lone.quiet);
  }

  turned_found : find_blocked_sender turned.sched (turned.sched.tasks d).id from_pid ≡ some c
  unfolding find_blocked_sender
  turned_found = first_from_eq max_tasks 0 c _ (rw awake_id (sender_found waiting asleep))

  turned_bytes :
      (i : ℕ)
      → i < message_size
      → (take_message c msg' turned).memory (place_in k space msg' i)
        ≡ signed (k.sched.tasks c).id (λ j. k.memory (byte_at k msg j)) i
  unfolding block_sender
  turned_bytes i lt =
      take_message_bytes turned c msg' msg (k.sched.tasks c).id i asleep.holds_buffer
        asleep.identity.0 buffers.spread' buffers.apart lt
      ∙ elim (Bool-cases (ltb i 4)) [
        | inl e ↦ rw e refl
        | inr e ↦
            rw (e, buffers.shared i lt)
              (stamp_bytes k msg (k.sched.tasks c).id i buffers.spread lt ∙ rw e refl)
      ]

  -- If the receiver does not wait for the caller, `ipc_send` blocks the caller. When the receiver runs, in its own
  -- address space, its next `ipc_receive` returns 0 and has put the 64 bytes of the message, with the sender's number
  -- in the first four, into its buffer, and the sender is ready. The caller is another task than the receiver, the
  -- receive listens to it, no other sender and no notification waits for the receiver, and neither buffer is NULL.
  -- The sender's buffer is shared by the two spaces and apart from the receiver's, and no byte of them is at two addresses.
  pub ipc_receive-ipc_send :
      accepts (k.sched.tasks d) (k.sched.tasks c).id ≡ false
      → msg' ≢ 0
      → let (o1, k1) = ipc_send dest_pid msg k in
        let (o, k2) = ipc_receive from_pid msg' (run_task d space k1) in
        (o1 ≡ waits)
        × ((k1.sched.tasks c).state ≡ blocked)
        × ((k1.sched.tasks c).blocked_on ≡ send)
        × (o ≡ returned 0)
        × ((i : ℕ)
            → i < message_size
            → k2.memory (place_in k space msg' i)
              ≡ signed (k.sched.tasks c).id (λ j. k.memory (byte_at k msg j)) i)
        × ((k2.sched.tasks c).state ≡ ready)
        × ((k2.sched.tasks c).blocked_on ≡ nothing)
  ipc_receive-ipc_send busy some_msg =
      rw
        (
          ipc_send_unmet call busy,
          ipc_receive_found from_pid (turned-IsQuiet some_msg) turned_found,
        )
        (
          refl,
          asleep.asleep,
          asleep.reason,
          refl,
          turned_bytes,
          (take_message_wakes turned c msg' asleep.reason).0,
          (take_message_wakes turned c msg' asleep.reason).1,
        )
