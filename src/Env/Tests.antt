-- ===== src/Env/Tests.antt =====
-- The theorems on src/env.c at short names and values, and runs of `env_expand`.
use microkernel_os.Prelude.{ℕ, ◌-◌, ◌≡◌, ◌⊎◌, refl, none, List, [], ◌∷◌, ◌++◌, arith, Table, length}
use microkernel_os.CString.{text}
use microkernel_os.Env.{Var, zero_var, env_max_vars, env_get, env_count, env_set, env_expand}
use microkernel_os.Env.Store.{IsEnv, IsSetting, Assigned, env_set_lem}
use microkernel_os.Env.Expand.{IsShown, env_expand-reference}

-- `USER` and `root`.
abbrev user : List ℕ
user = b'U' ∷ b'S' ∷ b'E' ∷ b'R' ∷ []

abbrev root : List ℕ
root = b'r' ∷ b'o' ∷ b'o' ∷ b't' ∷ []

abbrev empty : Table Var
empty i = zero_var

empty-IsEnv : IsEnv empty
empty-IsEnv = record {
  keys = λ i. record { bytes = omega arith; size = refl; ends = refl };
  vals = λ i. record { bytes = omega arith; size = refl; ends = refl };
}

user-IsSetting : IsSetting user root
unfolding text
user-IsSetting = record { key_bytes = omega arith; short = omega arith; value_bytes = omega arith }

-- `${USER}root` in a buffer of 16 bytes.
env_expand-reference_example :
    (value : List ℕ) × IsShown (env_set user root empty) user (16 - 1) value
    × (env_expand (env_set user root empty) (b'$' ∷ b'{' ∷ user ++ b'}' ∷ root) 16
        ≡ value ++ env_expand (env_set user root empty) root (16 - length value))
env_expand-reference_example =
    env_expand-reference (env_set user root empty) user root 16 (omega arith) (omega arith)
      (omega arith) (omega arith)

env_set_lem_example :
    Assigned user root empty (env_set user root empty)
    ⊎ ((env_set user root empty ≡ empty)
        × (env_count empty ≡ env_max_vars)
        × (env_get empty user ≡ none))
env_set_lem_example = env_set_lem user root empty-IsEnv user-IsSetting
