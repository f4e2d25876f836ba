-- ===== src/Task/Frame.antt =====
-- The first interrupt frame of a task: `setup_kernel_stack` and `setup_user_stack` of src/task.c
-- push it word by word, and the `iret` path reads it back as the `registers_t` of include/idt.h.
use Prim.Native.Nat.{bit_or}
use microkernel_os.Prelude.{
  ℕ, ◌+◌, ◌-◌, ◌*◌, ◌%◌, ◌^◌, Bool, List, [], ◌∷◌, if◌then◌else◌, Table, update,
}
use microkernel_os.Task.State.{Task, Regs}

abbrev pub seg_kcode : ℕ
seg_kcode = 0x08

abbrev pub seg_kdata : ℕ
seg_kdata = 0x10

abbrev pub seg_ucode : ℕ
seg_ucode = 0x1B

abbrev pub seg_udata : ℕ
seg_udata = 0x23

-- The stack pointer four bytes lower.
abbrev pub lower : ℕ → ℕ
lower sp = (sp + 2 ^ 32 - 4) % 2 ^ 32

-- `*(--sp) = w` for each word in turn.
pub push_words : List ℕ → ℕ × Table ℕ → ℕ × Table ℕ
push_words [] (sp, mem) = (sp, mem)
push_words (w ∷ ws) (sp, mem) = push_words ws (lower sp, update mem (lower sp) w)

-- The words that `setup_kernel_stack` pushes, the highest address first.
pub kernel_frame : ℕ → List ℕ
kernel_frame entry =
    0x202 ∷ seg_kcode ∷ entry ∷ 0 ∷ 32 ∷ 0 ∷ 0 ∷ 0 ∷ 0 ∷ 0 ∷ 0 ∷ 0 ∷ 0 ∷ seg_kdata ∷ []

-- EFLAGS with IF, and with IOPL 3 for an I/O privileged server.
abbrev pub user_eflags : Bool → ℕ
user_eflags io = if io then bit_or 0x202 (3 * 2 ^ 12) else 0x202

pub user_frame : (entry user_esp : ℕ) → Bool → List ℕ
user_frame entry user_esp io =
    seg_udata
    ∷ user_esp
    ∷ user_eflags io
    ∷ seg_ucode
    ∷ entry
    ∷ 0
    ∷ 32
    ∷ 0
    ∷ 0
    ∷ 0
    ∷ 0
    ∷ 0
    ∷ 0
    ∷ 0
    ∷ 0
    ∷ seg_udata
    ∷ []

-- The task with its frame on the stack, and the memory that holds it.
unfoldable pub setup_kernel_stack : Table ℕ → Task → ℕ → Task × Table ℕ
setup_kernel_stack mem t entry =
    let stack_top : ℕ = (t.stack_base + t.stack_size) % 2 ^ 32 in
    let (sp, mem') = push_words (kernel_frame entry) (stack_top, mem) in
    let r : Regs = t.regs in
    (
      record t {
        saved_esp = sp;
        regs = record r { esp = sp; ebp = stack_top; eip = entry; eflags = 0x202 };
      },
      mem',
    )

unfoldable pub setup_user_stack : Table ℕ → Task → ℕ → Task × Table ℕ
setup_user_stack mem t entry =
    let user_esp : ℕ = (t.stack_base + t.stack_size) % 2 ^ 32 in
    let (sp, mem') =
      push_words (user_frame entry user_esp t.io_privileged) (t.kernel_stack_top, mem) in
    (record t { saved_esp = sp }, mem')
