-- ===== src/CString/Tests.antt =====
-- The theorems on the string helpers of include/types.h at short strings.
use microkernel_os.Prelude.{ℕ, List, [], ◌∷◌, arith}
use microkernel_os.CString.{IsBytes}

-- `vga` in a buffer with a byte behind the NUL, and `vfs`.
abbrev vga : List ℕ
vga = b'v' ∷ b'g' ∷ b'a' ∷ 0 ∷ 7 ∷ []

abbrev vfs : List ℕ
vfs = b'v' ∷ b'f' ∷ b's' ∷ []

vga-IsBytes : IsBytes vga
vga-IsBytes = omega arith

vfs-IsBytes : IsBytes vfs
vfs-IsBytes = omega arith
