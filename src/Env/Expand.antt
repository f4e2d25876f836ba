-- ===== src/Env/Expand.antt =====
-- `env_expand` of src/env.c: its output fits, it ends, and what it copies and replaces.
use microkernel_os.Prelude.{
  ℕ, zero, suc, ◌+◌, ◌-◌, ◌%◌, ◌^◌, ◌≤◌, ◌<◌, ◌≡◌, ◌≢◌, ◌∙◌, refl, sym, ap, Bool, true, false,
  Option, none, some, List, [], ◌∷◌, ◌++◌, inl, inr, arith, ◌==◌, Option-cases, Table,
  first_from-IsFirst, first_from-none, length, take, length-append, if-intro,
}
use microkernel_os.CString.{text}
use microkernel_os.CString.Names.{is_named}
use microkernel_os.Env.{
  Var, env_max_vars, key_slot, env_get, scan_name, scan_reference, copy_text, value_text,
  expand_loop, env_expand,
}

length-copy_text : (room : ℕ) (s : List ℕ) → length (copy_text room s) ≤ room
unfolding copy_text
length-copy_text zero s = omega arith
length-copy_text (suc room) [] = omega arith
length-copy_text (suc room) (c ∷ s) = ground (arith, length-copy_text room s)

pub copy_text-take : (room : ℕ) (s : List ℕ) → copy_text room s ≡ take room (text s)
unfolding copy_text text
copy_text-take zero s = refl
copy_text-take (suc room) [] = refl
copy_text-take (suc room) (c ∷ s) = ground (arith, copy_text-take room s)

length-value_text : (room : ℕ) (o : Option (List ℕ)) → length (value_text room o) ≤ room
unfolding value_text
length-value_text room none = omega arith
length-value_text room (some v) = length-copy_text room v

length-expand_loop :
    (fuel : ℕ) (t : Table Var) (room : ℕ) (s : List ℕ) → length (expand_loop fuel t room s) ≤ room
unfolding expand_loop
length-expand_loop zero t room s = omega arith
length-expand_loop (suc fuel) t zero s = omega arith
length-expand_loop (suc fuel) t (suc room) [] = omega arith
length-expand_loop (suc fuel) t (suc room) (c ∷ s) =
    if-intro fits (c == 0) _ _ (λ e. omega arith)
      λ e.
        if-intro fits (c == b'$') _ _
          (λ h. omega (
            arith,
            length-append value (expand_loop fuel t (suc room - length value) after),
            length-value_text (suc room) (env_get t name),
            length-expand_loop fuel t (suc room - length value) after,
          ))
          (λ h. omega (arith, length-expand_loop fuel t room s))
  where
    fits : List ℕ → Type 0
    fits out = length out ≤ suc room

    name : List ℕ
    name = (scan_reference s).0

    after : List ℕ
    after = (scan_reference s).1

    value : List ℕ
    value = value_text (suc room) (env_get t name)

-- The output with its NUL fits into a buffer of `max` bytes, if that is not empty.
pub length-env_expand :
    (t : Table Var) (input : List ℕ) (max : ℕ)
    → 1 ≤ max
    → max < 2 ^ 32
    → length (env_expand t input max) + 1 ≤ max
unfolding env_expand
length-env_expand t input max lo hi =
    omega (arith, length-expand_loop (length input) t ((max + 2 ^ 32 - 1) % 2 ^ 32) input)

-- Without a `$` the text is copied as far as it fits.
abbrev pub IsPlain : List ℕ → Type 0
IsPlain [] = Unit
IsPlain (c ∷ s) = (c ≢ b'$') × IsPlain s

expand_loop-plain :
    (fuel : ℕ) (t : Table Var) (room : ℕ) (s : List ℕ)
    → length s ≤ fuel
    → IsPlain s
    → expand_loop fuel t room s ≡ take room (text s)
unfolding expand_loop text
expand_loop-plain zero t zero s h p = refl
expand_loop-plain zero t (suc room) [] h p = refl
expand_loop-plain zero t (suc room) (c ∷ s) h p = absurd (omega arith)
expand_loop-plain (suc fuel) t zero s h p = refl
expand_loop-plain (suc fuel) t (suc room) [] h p = refl
expand_loop-plain (suc fuel) t (suc room) (c ∷ s) h p =
    ground (arith, p.0, expand_loop-plain fuel t room s (omega arith) p.1)

-- A text without `$` is copied, cut where the buffer is full.
pub env_expand-plain :
    (t : Table Var) (input : List ℕ) (max : ℕ)
    → 1 ≤ max
    → max < 2 ^ 32
    → IsPlain input
    → env_expand t input max ≡ take (max - 1) (text input)
unfolding env_expand
env_expand-plain t input max lo hi p =
    let room : (max + 2 ^ 32 - 1) % 2 ^ 32 ≡ max - 1 = omega arith in
    rw room (expand_loop-plain (length input) t (max - 1) input (omega arith) p)

length-scan_name :
    (room : ℕ) (braced : Bool) (s : List ℕ) → length (scan_name room braced s).1 ≤ length s
unfolding scan_name
length-scan_name zero braced s = omega arith
length-scan_name (suc room) braced [] = omega arith
length-scan_name (suc room) braced (c ∷ s) = ground (arith, length-scan_name room braced s)

length-scan_reference : (s : List ℕ) → length (scan_reference s).1 ≤ length s
length-scan_reference [] = ground (arith, length-scan_name 31 true [], length-scan_name 31 false [])
length-scan_reference (c ∷ s) =
    ground (arith, length-scan_name 31 true s, length-scan_name 31 false (c ∷ s))

-- Fuel of the input's length is enough: more gives the same output.
expand_loop-fuel :
    (given needed : ℕ) (t : Table Var) (room : ℕ) (s : List ℕ)
    → length s ≤ given
    → length s ≤ needed
    → expand_loop given t room s ≡ expand_loop needed t room s
unfolding expand_loop
expand_loop-fuel zero zero t room s h k = refl
expand_loop-fuel zero (suc needed) t zero [] h k = refl
expand_loop-fuel zero (suc needed) t (suc room) [] h k = refl
expand_loop-fuel zero (suc needed) t room (c ∷ s) h k = absurd (omega arith)
expand_loop-fuel (suc given) zero t zero [] h k = refl
expand_loop-fuel (suc given) zero t (suc room) [] h k = refl
expand_loop-fuel (suc given) zero t room (c ∷ s) h k = absurd (omega arith)
expand_loop-fuel (suc given) (suc needed) t zero s h k = refl
expand_loop-fuel (suc given) (suc needed) t (suc room) [] h k = refl
expand_loop-fuel (suc given) (suc needed) t (suc room) (c ∷ s) h k =
    let after : List ℕ = (scan_reference s).1 in
    let left : ℕ = suc room - length (value_text (suc room) (env_get t (scan_reference s).0)) in
    let shorter : length after ≤ length s = length-scan_reference s in
    rw
      (
        expand_loop-fuel given needed t room s (omega arith) (omega arith),
        expand_loop-fuel given needed t left after (omega arith) (omega arith),
      )
      refl

abbrev pub IsReference : List ℕ → Type 0
IsReference [] = Unit
IsReference (c ∷ s) = (c ≢ 0) × ((c ≢ b'}') × IsReference s)

scan_name-braced :
    (room : ℕ) (name rest : List ℕ)
    → length name < room
    → IsReference name
    → scan_name room true (name ++ b'}' ∷ rest) ≡ (name, rest)
unfolding scan_name
scan_name-braced zero name rest h r = absurd (omega arith)
scan_name-braced (suc room) [] rest h r = refl
scan_name-braced (suc room) (c ∷ name) rest h r =
    ground (arith, r.0, r.1.0, scan_name-braced room name rest (omega arith) r.1.1)

-- One round of the loop at a reference.
expand_loop-reference :
    (fuel : ℕ) (t : Table Var) (room : ℕ) (name rest : List ℕ)
    → length name < 31
    → IsReference name
    → let value = value_text (suc room) (env_get t name) in
      expand_loop (suc fuel) t (suc room) (b'$' ∷ b'{' ∷ name ++ b'}' ∷ rest)
      ≡ value ++ expand_loop fuel t (suc room - length value) rest
unfolding expand_loop
expand_loop-reference fuel t room name rest short r =
    rw (scan_name-braced 31 name rest short r) refl

-- What the table shows for a name where `room` bytes are left: the text of the first variable of the name, cut to
-- them, and nothing if no entry has the name.
pub data IsShown (t : Table Var) (name : List ℕ) (room : ℕ) (value : List ℕ) : Type 0 where
  absent :
      ((i : ℕ) → i < env_max_vars → is_named (t i).active (t i).key name ≡ false)
      → value ≡ []
      → IsShown t name room value
  present :
      (i : ℕ)
      → i < env_max_vars
      → is_named (t i).active (t i).key name ≡ true
      → ((j : ℕ) → j < i → is_named (t j).active (t j).key name ≡ false)
      → value ≡ take room (text (t i).val)
      → IsShown t name room value

value_text-IsShown :
    (t : Table Var) (name : List ℕ) (room : ℕ)
    → IsShown t name room (value_text room (env_get t name))
unfolding env_get value_text
value_text-IsShown t name room = elim (Option-cases (key_slot t name)) [
  | inl e ↦
      absent (λ i lt. first_from-none env_max_vars 0 _ e i (omega arith) (omega (arith, lt)))
        (rw e refl)
  | inr (i, e) ↦
      let f = first_from-IsFirst env_max_vars 0 i _ e in
      present i (omega (arith, f.below)) f.hit (λ j lt. f.missed j (omega arith) lt)
        (rw e (copy_text-take room (t i).val))
]

expand_value :
    (t : Table Var) (name rest : List ℕ) (max : ℕ)
    → 1 < max
    → max < 2 ^ 32
    → length name < 31
    → IsReference name
    → let value = value_text (max - 1) (env_get t name) in
      env_expand t (b'$' ∷ b'{' ∷ name ++ b'}' ∷ rest) max
      ≡ value ++ env_expand t rest (max - length value)
unfolding env_expand
expand_value t name rest zero lo hi short r = absurd (omega arith)
expand_value t name rest (suc zero) lo hi short r = absurd (omega arith)
expand_value t name rest (suc (suc room)) lo hi short r =
    let whole : List ℕ = b'{' ∷ name ++ b'}' ∷ rest in
    let value : List ℕ = value_text (suc room) (env_get t name) in
    let cut : length value ≤ suc room = length-value_text (suc room) (env_get t name) in
    let before : (suc (suc room) + 2 ^ 32 - 1) % 2 ^ 32 ≡ suc room = omega arith in
    let behind : (suc (suc room) - length value + 2 ^ 32 - 1) % 2 ^ 32 ≡ suc room - length value =
      omega (arith, cut) in
    let enough : length rest ≤ length whole = omega (arith, length-append name (b'}' ∷ rest)) in
    let pred : suc (suc room) - 1 ≡ suc room = omega arith in
    rw pred (
      ap (λ n. expand_loop (suc (length whole)) t n (b'$' ∷ whole)) before
      ∙ expand_loop-reference (length whole) t room name rest short r
      ∙ ap (λ out. value ++ out)
          (expand_loop-fuel (length whole) (length rest) t (suc room - length value) rest enough
              (omega arith)
            ∙ ap (λ n. expand_loop (length rest) t n rest) (sym behind)))

-- A reference `${NAME}` is replaced by the text of the first variable of the name, cut where the buffer is full, or
-- by nothing if there is none, and the expansion goes on behind it in the room that is left. The name has fewer
-- than 31 bytes, none of them NUL or a closing brace, and the buffer has more than one byte.
pub env_expand-reference :
    (t : Table Var) (name rest : List ℕ) (max : ℕ)
    → 1 < max
    → max < 2 ^ 32
    → length name < 31
    → IsReference name
    → (value : List ℕ) × IsShown t name (max - 1) value
      × (env_expand t (b'$' ∷ b'{' ∷ name ++ b'}' ∷ rest) max
          ≡ value ++ env_expand t rest (max - length value))
env_expand-reference t name rest max lo hi short r = (
  value_text (max - 1) (env_get t name),
  value_text-IsShown t name (max - 1),
  expand_value t name rest max lo hi short r,
)
