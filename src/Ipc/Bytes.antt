-- ===== src/Ipc/Bytes.antt =====
-- The bytes that src/ipc.c leaves in the buffers of messages.
use microkernel_os.Prelude.{
  ℕ, ◌/◌, ◌%◌, ◌^◌, ◌<◌, ◌≡◌, ◌∙◌, refl, inl, inr, arith, ltb, if◌then◌else◌, Bool-cases,
}
use microkernel_os.Prelude.Copy.{IsSpread, IsApart, write_bytes, copy_bytes}
use microkernel_os.Ipc.{Ipc, message_size, byte_at, stamp, copy_message}

-- The bytes of a message with the sender's number in its first four.
abbrev pub signed : (pid : ℕ) → (ℕ → ℕ) → ℕ → ℕ
signed pid message i = if ltb i 4 then pid / 256 ^ i % 256 else message i

-- `msg->sender = pid`, seen in the buffer.
pub stamp_bytes :
    (k : Ipc) (msg pid i : ℕ)
    → IsSpread message_size (byte_at k msg)
    → i < message_size
    → (stamp msg pid k).memory (byte_at k msg i) ≡ signed pid (λ j. k.memory (byte_at k msg j)) i
stamp_bytes k msg pid i spread lt =
    let w =
      write_bytes 4 (byte_at k msg) (λ j. pid / 256 ^ j % 256) k.memory
        (λ a b la lb. spread a b (omega arith) (omega arith)) in
    elim (Bool-cases (ltb i 4)) [
      | inl e ↦ rw e (w.done i (ground arith))
      | inr e ↦
          rw e (w.others (byte_at k msg i) (λ j lj. spread i j lt (omega arith) (ground arith)))
    ]

-- The copy of a message with the number of its sender, seen in the buffer that it is copied to.
pub copy_stamp_bytes :
    (k : Ipc) (src dst pid i : ℕ)
    → IsSpread message_size (byte_at k dst)
    → IsApart message_size (byte_at k src) (byte_at k dst)
    → i < message_size
    → (stamp dst pid (copy_message src dst k)).memory (byte_at k dst i)
      ≡ signed pid (λ j. k.memory (byte_at k src j)) i
copy_stamp_bytes k src dst pid i spread apart lt =
    let w = copy_bytes message_size (byte_at k src) (byte_at k dst) k.memory spread apart in
    stamp_bytes (copy_message src dst k) dst pid i spread lt
    ∙ elim (Bool-cases (ltb i 4)) [ inl e ↦ rw e refl | inr e ↦ rw e (w.done i lt) ]
