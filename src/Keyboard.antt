-- ===== src/Keyboard.antt =====
-- The keyboard, src/keyboard.c and include/keyboard.h: the ring buffer of characters and the handler that turns
-- scan codes into them. `inb(0x60)` is the handler's argument; a `char` is its 8-bit pattern.
pub mod Fifo
pub mod Callback
pub mod Line
mod Tests
use microkernel_os.Prelude.{
  ℕ, zero, suc, ◌+◌, ◌-◌, ◌*◌, ◌/◌, ◌%◌, ◌^◌, ◌≤◌, ◌<◌, ◌≡◌, ◌≢◌, ◌⊎◌, ◌↔◌, ◌∙◌, refl, sym, ap,
  fun_ext, Bool, true, false, not, ◌&&◌, ◌||◌, Option, none, some, List, [], ◌∷◌, ◌++◌, map, inl,
  inr, arith, ltb, leb, ◌==◌, if◌then◌else◌, Bool-cases, Option-cases, Table, update, first_from,
  count_from, for_range, IsFirst, first_from-IsFirst, first_from-none, first_from_eq,
  first_from_congr, count_from_congr, count_from-flip, count_from-le, count_from-lt_of_miss,
  count_from_all, for_range_inv, below_suc, length, get_or, take, drop, replicate, length-append,
  length-replicate, length-drop, lt→ltb, leb→le, ltb→lt, ==_iff, if-intro, option_case,
  option_case-intro,
}

abbrev pub key_buf_size : ℕ
key_buf_size = 256

pub record Keyboard : Type 0 where
  pub key_buffer : Table ℕ
  pub key_head : ℕ
  pub key_tail : ℕ
  pub shift_held : Bool
  pub ctrl_held : Bool
  pub alt_held : Bool
  pub caps_lock : Bool
  pub extended : Bool

-- The characters of the scan codes; the rest of each array is 0.
abbrev pub scancode_lower : List ℕ
scancode_lower =
    0 ∷ 27 ∷ 49 ∷ 50 ∷ 51 ∷ 52 ∷ 53 ∷ 54 ∷ 55 ∷ 56 ∷ 57 ∷ 48 ∷ 45 ∷ 61 ∷ 8 ∷ 9 ∷ 113 ∷ 119 ∷ 101
    ∷ 114 ∷ 116 ∷ 121 ∷ 117 ∷ 105 ∷ 111 ∷ 112 ∷ 91 ∷ 93 ∷ 10 ∷ 0 ∷ 97 ∷ 115 ∷ 100 ∷ 102 ∷ 103 ∷ 104
    ∷ 106 ∷ 107 ∷ 108 ∷ 59 ∷ 39 ∷ 96 ∷ 0 ∷ 35 ∷ 122 ∷ 120 ∷ 99 ∷ 118 ∷ 98 ∷ 110 ∷ 109 ∷ 44 ∷ 46 ∷ 47
    ∷ 0 ∷ 42 ∷ 0 ∷ 32 ∷ 0 ∷ 0 ∷ 0 ∷ 0 ∷ 0 ∷ 0 ∷ 0 ∷ 0 ∷ 0 ∷ 0 ∷ 0 ∷ 0 ∷ 0 ∷ 55 ∷ 56 ∷ 57 ∷ 45 ∷ 52
    ∷ 53 ∷ 54 ∷ 43 ∷ 49 ∷ 50 ∷ 51 ∷ 48 ∷ 46 ∷ 0 ∷ 0 ∷ 92 ∷ 0 ∷ 0 ∷ []

abbrev pub scancode_upper : List ℕ
scancode_upper =
    0 ∷ 27 ∷ 33 ∷ 34 ∷ 156 ∷ 36 ∷ 37 ∷ 94 ∷ 38 ∷ 42 ∷ 40 ∷ 41 ∷ 95 ∷ 43 ∷ 8 ∷ 9 ∷ 81 ∷ 87 ∷ 69 ∷ 82
    ∷ 84 ∷ 89 ∷ 85 ∷ 73 ∷ 79 ∷ 80 ∷ 123 ∷ 125 ∷ 10 ∷ 0 ∷ 65 ∷ 83 ∷ 68 ∷ 70 ∷ 71 ∷ 72 ∷ 74 ∷ 75 ∷ 76
    ∷ 58 ∷ 64 ∷ 126 ∷ 0 ∷ 126 ∷ 90 ∷ 88 ∷ 67 ∷ 86 ∷ 66 ∷ 78 ∷ 77 ∷ 60 ∷ 62 ∷ 63 ∷ 0 ∷ 42 ∷ 0 ∷ 32
    ∷ 0 ∷ 0 ∷ 0 ∷ 0 ∷ 0 ∷ 0 ∷ 0 ∷ 0 ∷ 0 ∷ 0 ∷ 0 ∷ 0 ∷ 0 ∷ 55 ∷ 56 ∷ 57 ∷ 45 ∷ 52 ∷ 53 ∷ 54 ∷ 43 ∷ 49
    ∷ 50 ∷ 51 ∷ 48 ∷ 46 ∷ 0 ∷ 0 ∷ 124 ∷ 0 ∷ 0 ∷ []

unfoldable pub buf_put : (c : ℕ) → Keyboard → Keyboard
buf_put c k =
    let next : ℕ = (k.key_head + 1) % key_buf_size in
    if next == k.key_tail
    then k
    else record k { key_buffer = update k.key_buffer k.key_head c; key_head = next }

-- The character of the second byte of an extended scan code, if it has one.
abbrev pub extended_key : ℕ → Option ℕ
extended_key sc =
    if sc == 0x48
    then some 0x80
    else if sc == 0x50
    then some 0x81
    else if sc == 0x4B
    then some 0x82
    else if sc == 0x4D
    then some 0x83
    else if sc == 0x47
    then some 0x84
    else if sc == 0x4F
    then some 0x85
    else if sc == 0x49
    then some 0x86
    else if sc == 0x51
    then some 0x87
    else if sc == 0x53
    then some 0x88
    else if sc == 0x52
    then some 0x89
    else none

-- A key is let go.
pub release_key : (released : ℕ) → Keyboard → Keyboard
release_key released k = record k {
  shift_held = if released == 0x2A || released == 0x36 then false else k.shift_held;
  ctrl_held = if released == 0x1D then false else k.ctrl_held;
  alt_held = if released == 0x38 then false else k.alt_held;
}

abbrev pub is_lower : ℕ → Bool
is_lower c = leb 97 c && leb c 122

abbrev pub xor : Bool → Bool → Bool
xor true b = not b
xor false b = b

-- The character of a key that is neither a modifier nor a function key; 0 is none.
-- The test for Ctrl+L in the code never passes, since the one before it takes every letter.
pub plain_key : (sc : ℕ) → Keyboard → ℕ
plain_key sc k =
    let c : ℕ = get_or scancode_lower sc 0 in
    if k.ctrl_held && is_lower c
    then c - 97 + 1
    else if if is_lower c then xor k.shift_held k.caps_lock else k.shift_held
    then get_or scancode_upper sc 0
    else c

-- A key goes down, by its scan code below 128.
pub press_key : (sc : ℕ) → Keyboard → Keyboard
press_key sc k =
    if sc == 0x2A || sc == 0x36
    then record k { shift_held = true }
    else if sc == 0x1D
    then record k { ctrl_held = true }
    else if sc == 0x38
    then record k { alt_held = true }
    else if sc == 0x3A
    then record k { caps_lock = not k.caps_lock }
    else if leb 0x3B sc && leb sc 0x44
    then buf_put (0x90 + (sc - 0x3B)) k
    else if sc == 0x57
    then buf_put 0x9A k
    else if sc == 0x58
    then buf_put 0x9B k
    else if plain_key sc k == 0
    then k
    else buf_put (plain_key sc k) k

pub keyboard_callback : (sc : ℕ) → Keyboard → Keyboard
keyboard_callback sc k =
    if sc == 0xE0
    then record k { extended = true }
    else if k.extended
    then option_case (extended_key sc) (record k { extended = false })
        (λ c. buf_put c (record k { extended = false }))
    else if leb 0x80 sc
    then release_key (sc % 0x80) k
    else press_key sc k

unfoldable pub keyboard_haskey : Keyboard → Bool
keyboard_haskey k = not (k.key_head == k.key_tail)

-- The oldest character leaves the buffer.
abbrev pub take_char : Keyboard → ℕ × Keyboard
take_char k = (k.key_buffer k.key_tail, record k { key_tail = (k.key_tail + 1) % key_buf_size })

-- `none` where the call goes on waiting.
pub keyboard_getchar : Keyboard → Option (ℕ × Keyboard)
keyboard_getchar k = if keyboard_haskey k then some (take_char k) else none

unfoldable pub keyboard_trychar : Keyboard → ℕ × Keyboard
keyboard_trychar k = if keyboard_haskey k then take_char k else (0, k)
