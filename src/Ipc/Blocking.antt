-- ===== src/Ipc/Blocking.antt =====
-- The blocking state of the tasks under the calls of src/ipc.c: a task is in the state BLOCKED exactly
-- when it has a reason, and at most one task runs.
use microkernel_os.Prelude.{
  ℕ, ◌%◌, ◌≡◌, refl, Bool, true, false, not, arith, ◌==◌, if-intro, option_case-intro,
}
use microkernel_os.Task.State.{
  is_blocked, is_running, BlockedOn, nothing, send, sendrec, Task, Sched, max_tasks, put,
  task_get_by_pid,
}
use microkernel_os.Task.Schedule.{task_yield}
use microkernel_os.Task.Schedule.Running.{IsScheduled, put-IsScheduled}
use microkernel_os.Ipc.{
  Ipc, Outcome, in_receive, in_sendrec, accepts, find_blocked_sender, block_sender, deliver,
  ipc_send, ipc_sendrec, take_message, take_notify, block_receiver, ipc_receive, ipc_reply,
  ipc_notify,
}

abbrev pub has_reason : BlockedOn → Bool
has_reason nothing = false
has_reason _ = true

-- The task is blocked exactly when `blocked_on` names a reason.
abbrev pub IsCoherent : Task → Type 0
IsCoherent t = is_blocked t.state ≡ has_reason t.blocked_on

pub record IsConsistent (s : Sched) : Type 0 where
  pub coherent : (i : ℕ) → (s.tasks i).active ≡ true → IsCoherent (s.tasks i)
  pub scheduled : IsScheduled s

-- Replacing a task by a coherent one that does not start to run keeps the table consistent.
pub put-IsConsistent :
    (s : Sched) (i : ℕ) (t : Task)
    → (t.active ≡ true → IsCoherent t)
    → (is_running t.state ≡ true → is_running (s.tasks i).state ≡ true)
    → IsConsistent s
    → IsConsistent (put s i t)
put-IsConsistent s i t h r v = record {
  coherent = λ j a. ground (arith, v.coherent j);
  scheduled = put-IsScheduled s i t r v.scheduled;
}

task_yield-IsConsistent : (s : Sched) → IsConsistent s → IsConsistent (task_yield s)
unfolding task_yield
task_yield-IsConsistent s v =
    option_case-intro IsConsistent s.current_task _ _ (λ e. v)
      (λ c e. put-IsConsistent s c _ (λ a. v.coherent c a) (λ r. r) v)

-- The state that a call leaves.
abbrev pub After : Outcome × Ipc → Type 0
After out = IsConsistent out.1.sched

block_sender-IsConsistent :
    (c : ℕ) (why : BlockedOn) (dest_pid msg : ℕ) (k : Ipc)
    → has_reason why ≡ true
    → IsConsistent k.sched
    → IsConsistent (block_sender c why dest_pid msg k).sched
unfolding block_sender
block_sender-IsConsistent c why dest_pid msg k h v =
    task_yield-IsConsistent _
      (put-IsConsistent k.sched c _ (λ a. ground arith) (λ r. ground arith) v)

deliver-IsConsistent :
    (d msg pid : ℕ) (k : Ipc) → IsConsistent k.sched → IsConsistent (deliver d msg pid k).sched
unfolding deliver
deliver-IsConsistent d msg pid k v = put-IsConsistent k.sched d _ (λ a. refl) (λ r. ground arith) v

-- `ipc_send` keeps the task table consistent, whether it delivers, blocks the caller or fails: the
-- active tasks in the state BLOCKED are those with a reason, and at most the current task is RUNNING.
pub ipc_send-IsConsistent :
    (dest_pid msg : ℕ) (k : Ipc) → IsConsistent k.sched → After (ipc_send dest_pid msg k)
unfolding ipc_send
ipc_send-IsConsistent dest_pid msg k v =
    option_case-intro After k.sched.current_task _ _ (λ e. v)
      λ c e.
        if-intro After (msg == 0) _ _ (λ null. v)
          λ some_msg.
            option_case-intro After (task_get_by_pid k.sched dest_pid) _ _ (λ e. v)
              λ d e.
                if-intro After (accepts (k.sched.tasks d) (k.sched.tasks c).id) _ _
                  (λ met. deliver-IsConsistent d msg _ _ v)
                  (λ busy. block_sender-IsConsistent c send dest_pid msg _ refl v)

-- `ipc_sendrec` keeps the task table consistent, whether it delivers or not before it blocks the
-- caller, or fails: the active tasks in the state BLOCKED are those with a reason, and at most the
-- current task is RUNNING.
pub ipc_sendrec-IsConsistent :
    (dest_pid msg : ℕ) (k : Ipc) → IsConsistent k.sched → After (ipc_sendrec dest_pid msg k)
unfolding ipc_sendrec
ipc_sendrec-IsConsistent dest_pid msg k v =
    option_case-intro After k.sched.current_task _ _ (λ e. v)
      λ c e.
        if-intro After (msg == 0) _ _ (λ null. v)
          λ some_msg.
            option_case-intro After (task_get_by_pid k.sched dest_pid) _ _ (λ e. v)
              λ d e.
                if-intro After (accepts (k.sched.tasks d) (k.sched.tasks c).id) _ _
                  (λ met.
                    block_sender-IsConsistent c sendrec dest_pid msg _ refl
                      (deliver-IsConsistent d msg _ _ v))
                  (λ busy. block_sender-IsConsistent c sendrec dest_pid msg _ refl v)

take_message-IsConsistent :
    (i msg : ℕ) (k : Ipc) → IsConsistent k.sched → IsConsistent (take_message i msg k).sched
unfolding take_message
take_message-IsConsistent i msg k v =
    put-IsConsistent k.sched i _ (λ a. ground arith) (λ r. ground arith) v

block_receiver-IsConsistent :
    (c from_pid msg : ℕ) (k : Ipc)
    → IsConsistent k.sched
    → IsConsistent (block_receiver c from_pid msg k).sched
unfolding block_receiver
block_receiver-IsConsistent c from_pid msg k v =
    task_yield-IsConsistent _ (put-IsConsistent k.sched c _ (λ a. refl) (λ r. ground arith) v)

-- `ipc_receive` keeps the task table consistent, whether it takes a notification or a message, blocks
-- the caller or fails: the active tasks in the state BLOCKED are those with a reason, and at most the
-- current task is RUNNING.
pub ipc_receive-IsConsistent :
    (from_pid msg : ℕ) (k : Ipc) → IsConsistent k.sched → After (ipc_receive from_pid msg k)
unfolding ipc_receive take_notify
ipc_receive-IsConsistent from_pid msg k v =
    option_case-intro After k.sched.current_task _ _ (λ e. v)
      λ c e.
        if-intro After (msg == 0) _ _ (λ null. v)
          λ some_msg.
            if-intro After (not (k.pending_notify ((k.sched.tasks c).id % max_tasks) == 0)) _ _
              (λ n. v)
              λ quiet.
                option_case-intro After (find_blocked_sender k.sched (k.sched.tasks c).id from_pid)
                  _ _ (λ e. block_receiver-IsConsistent c from_pid msg k v)
                  (λ i e. take_message-IsConsistent i msg k v)

-- `ipc_reply` keeps the task table consistent, whether it delivers or fails: the active tasks in the
-- state BLOCKED are those with a reason, and at most the current task is RUNNING.
pub ipc_reply-IsConsistent :
    (dest_pid msg : ℕ) (k : Ipc) → IsConsistent k.sched → After (ipc_reply dest_pid msg k)
unfolding ipc_reply
ipc_reply-IsConsistent dest_pid msg k v =
    option_case-intro After k.sched.current_task _ _ (λ e. v)
      λ c e.
        if-intro After (msg == 0) _ _ (λ null. v)
          λ some_msg.
            option_case-intro After (task_get_by_pid k.sched dest_pid) _ _ (λ e. v)
              λ d e.
                if-intro After (in_sendrec (k.sched.tasks d)) _ _
                  (λ waiting. put-IsConsistent k.sched d _ (λ a. refl) (λ r. ground arith) v)
                  (λ other. v)

-- `ipc_notify` keeps the task table consistent, whether it delivers, stores the notification or fails:
-- the active tasks in the state BLOCKED are those with a reason, and at most the current task is
-- RUNNING.
pub ipc_notify-IsConsistent :
    (dest_pid msg : ℕ) (k : Ipc) → IsConsistent k.sched → After (ipc_notify dest_pid msg k)
unfolding ipc_notify
ipc_notify-IsConsistent dest_pid msg k v =
    option_case-intro After (task_get_by_pid k.sched dest_pid) _ _ (λ e. v)
      λ d e.
        if-intro After (in_receive (k.sched.tasks d)) _ _
          (λ waiting. put-IsConsistent k.sched d _ (λ a. refl) (λ r. ground arith) v) (λ other. v)

-- The five calls keep the task table consistent, whether they deliver, block the caller or fail: an active task is in
-- the state BLOCKED exactly when it has a reason, and at most one slot is RUNNING, the current one.
pub calls-IsConsistent :
    (pid msg : ℕ) (k : Ipc)
    → IsConsistent k.sched
    → After (ipc_send pid msg k)
      × After (ipc_sendrec pid msg k)
      × After (ipc_receive pid msg k)
      × After (ipc_reply pid msg k)
      × After (ipc_notify pid msg k)
calls-IsConsistent pid msg k v = (
  ipc_send-IsConsistent pid msg k v,
  ipc_sendrec-IsConsistent pid msg k v,
  ipc_receive-IsConsistent pid msg k v,
  ipc_reply-IsConsistent pid msg k v,
  ipc_notify-IsConsistent pid msg k v,
)
