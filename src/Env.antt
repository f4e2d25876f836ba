-- ===== src/Env.antt =====
-- Environment variables, src/env.c and include/env.h. `Table Var` is the array `vars`.
pub mod Store
pub mod Expand
mod Tests
use microkernel_os.Prelude.{
  ℕ, zero, suc, ◌+◌, ◌-◌, ◌*◌, ◌/◌, ◌%◌, ◌^◌, ◌≤◌, ◌<◌, ◌≡◌, ◌≢◌, ◌⊎◌, ◌↔◌, ◌∙◌, refl, sym, ap,
  fun_ext, Bool, true, false, not, ◌&&◌, ◌||◌, Option, none, some, List, [], ◌∷◌, ◌++◌, map, inl,
  inr, arith, ltb, leb, ◌==◌, if◌then◌else◌, Bool-cases, Option-cases, Table, update, first_from,
  count_from, for_range, IsFirst, first_from-IsFirst, first_from-none, first_from_eq,
  first_from_congr, count_from_congr, count_from-flip, count_from-le, count_from-lt_of_miss,
  count_from_all, for_range_inv, below_suc, length, get_or, take, drop, replicate, length-append,
  length-replicate, length-drop, lt→ltb, leb→le, ltb→lt, ==_iff, if-intro, option_case,
  option_case-intro,
}
use microkernel_os.CString.{strncpy, char_at, tail}
use microkernel_os.CString.Names.{is_named}

abbrev pub env_max_vars : ℕ
env_max_vars = 64

abbrev pub env_key_len : ℕ
env_key_len = 32

abbrev pub env_val_len : ℕ
env_val_len = 128

pub record Var : Type 0 where
  pub key : List ℕ
  pub val : List ℕ
  pub active : Bool

-- An entry behind the `memset` of `env_init`.
abbrev pub zero_var : Var
zero_var = record { key = replicate env_key_len 0; val = replicate env_val_len 0; active = false }

abbrev pub key_slot : Table Var → List ℕ → Option ℕ
key_slot t key = first_from env_max_vars 0 (λ i. is_named (t i).active (t i).key key)

abbrev pub free_var : Table Var → Option ℕ
free_var t = first_from env_max_vars 0 (λ i. not (t i).active)

-- The value's buffer, or `none` for NULL.
pub env_get : Table Var → List ℕ → Option (List ℕ)
env_get t key = option_case (key_slot t key) none (λ i. some (t i).val)

abbrev pub set_val : Var → List ℕ → Var
set_val e value = record e { val = strncpy e.val value 127 }

abbrev pub new_var : Var → List ℕ → List ℕ → Var
new_var e key value = record {
  key = strncpy e.key key 31;
  val = strncpy e.val value 127;
  active = true;
}

pub env_set : List ℕ → List ℕ → Table Var → Table Var
env_set key value t =
    option_case (key_slot t key)
      (option_case (free_var t) t (λ i. update t i (new_var (t i) key value)))
      (λ i. update t i (set_val (t i) value))

pub env_unset : List ℕ → Table Var → Table Var
env_unset key t =
    option_case (key_slot t key) t
      (λ i. let e : Var = t i in update t i (record e { active = false }))

pub env_count : Table Var → ℕ
env_count t = count_from env_max_vars 0 (λ i. (t i).active)

-- `env_init`: the settings of a fresh system, 92 is the backslash.
pub default_vars : List (List ℕ × List ℕ)
default_vars =
    ((b'P' ∷ b'A' ∷ b'T' ∷ b'H' ∷ []), (b'/' ∷ b'b' ∷ b'i' ∷ b'n' ∷ []))
    ∷ ((b'H' ∷ b'O' ∷ b'M' ∷ b'E' ∷ []), (b'/' ∷ b'h' ∷ b'o' ∷ b'm' ∷ b'e' ∷ []))
    ∷ ((b'U' ∷ b'S' ∷ b'E' ∷ b'R' ∷ []), (b'r' ∷ b'o' ∷ b'o' ∷ b't' ∷ []))
    ∷ (
      (b'H' ∷ b'O' ∷ b'S' ∷ b'T' ∷ b'N' ∷ b'A' ∷ b'M' ∷ b'E' ∷ []),
      (b'm' ∷ b'i' ∷ b'c' ∷ b'r' ∷ b'o' ∷ b'k' ∷ b'e' ∷ b'r' ∷ b'n' ∷ b'e' ∷ b'l' ∷ []),
    )
    ∷ (
      (b'S' ∷ b'H' ∷ b'E' ∷ b'L' ∷ b'L' ∷ []),
      (b'/' ∷ b'b' ∷ b'i' ∷ b'n' ∷ b'/' ∷ b's' ∷ b'h' ∷ []),
    )
    ∷ (
      (b'P' ∷ b'S' ∷ b'1' ∷ []),
      (92 ∷ b'u' ∷ b'@' ∷ 92 ∷ b'h' ∷ b':' ∷ 92 ∷ b'w' ∷ b'$' ∷ b' ' ∷ []),
    )
    ∷ ((b'T' ∷ b'E' ∷ b'R' ∷ b'M' ∷ []), (b'v' ∷ b'g' ∷ b'a' ∷ []))
    ∷ ((b'E' ∷ b'D' ∷ b'I' ∷ b'T' ∷ b'O' ∷ b'R' ∷ []), (b'e' ∷ b'd' ∷ b'i' ∷ b't' ∷ []))
    ∷ (
      (b'V' ∷ b'E' ∷ b'R' ∷ b'S' ∷ b'I' ∷ b'O' ∷ b'N' ∷ []),
      (b'0' ∷ b'.' ∷ b'2' ∷ b'.' ∷ b'0' ∷ []),
    )
    ∷ []

pub set_all : List (List ℕ × List ℕ) → Table Var → Table Var
set_all [] t = t
set_all ((key, value) ∷ settings) t = set_all settings (env_set key value t)

pub env_init : Table Var
env_init = set_all default_vars (λ i. zero_var)

-- `isalpha(c) || c == '_' || isdigit(c)`
abbrev pub is_name_char : ℕ → Bool
is_name_char c =
    leb b'a' c && leb c b'z' || leb b'A' c && leb c b'Z' || c == b'_' || leb b'0' c && leb c b'9'

-- The inner loop of `env_expand`, with the room left in `name`: the name and the rest of the input.
pub scan_name : (room : ℕ) → (braced : Bool) → List ℕ → List ℕ × List ℕ
scan_name zero braced s = ([], s)
scan_name (suc room) braced [] = ([], [])
scan_name (suc room) braced (c ∷ s) =
    let (name, rest) = scan_name room braced s in
    if c == 0
    then ([], c ∷ s)
    else if braced && c == b'}'
    then ([], s)
    else if not braced && not (is_name_char c)
    then ([], c ∷ s)
    else (c ∷ name, rest)

-- A reference behind its `$`: the name and the rest of the input.
abbrev pub scan_reference : List ℕ → List ℕ × List ℕ
scan_reference s = if char_at s == b'{' then scan_name 31 true (tail s) else scan_name 31 false s

-- At most `room` bytes of a string.
pub copy_text : (room : ℕ) → List ℕ → List ℕ
copy_text zero s = []
copy_text (suc room) [] = []
copy_text (suc room) (c ∷ s) = let rest = copy_text room s in if c == 0 then [] else c ∷ rest

-- What a value adds to the output; NULL adds nothing.
pub value_text : (room : ℕ) → Option (List ℕ) → List ℕ
value_text room none = []
value_text room (some v) = copy_text room v

-- The outer loop of `env_expand`, with the room left in the output: each round takes at least one
-- byte of the input, so that its length is fuel enough.
pub expand_loop : (fuel : ℕ) → Table Var → (room : ℕ) → List ℕ → List ℕ
expand_loop zero t room s = []
expand_loop (suc fuel) t zero s = []
expand_loop (suc fuel) t (suc room) [] = []
expand_loop (suc fuel) t (suc room) (c ∷ s) =
    let (name, after) = scan_reference s in
    let value = value_text (suc room) (env_get t name) in
    let referred = value ++ expand_loop fuel t (suc room - length value) after in
    let copied = c ∷ expand_loop fuel t room s in
    if c == 0 then [] else if c == b'$' then referred else copied

-- The text that `env_expand` writes; `max - 1` is of `size_t`.
pub env_expand : Table Var → List ℕ → (max : ℕ) → List ℕ
env_expand t input max = expand_loop (length input) t ((max + 2 ^ 32 - 1) % 2 ^ 32) input
