-- ===== src/Env/Store.antt =====
-- `env_set`, `env_get` and `env_unset` of src/env.c as a map from names to texts.
use microkernel_os.Prelude.{
  ℕ, ◌≤◌, ◌<◌, ◌≡◌, ◌≢◌, ◌⊎◌, ◌∙◌, refl, sym, true, false, Option, none, some, List, inl, inr,
  arith, ◌==◌, Option-cases, Table, update, first_from-IsFirst, first_from-none, count_from_all,
  length, take, if-intro, option_case,
}
use microkernel_os.CString.{strncpy, text, IsBytes}
use microkernel_os.CString.Names.{
  is_named, is_named-same, is_named-other, is_named-apart, IsBuffer, strncpy-IsBuffer,
  text-strncpy_fits, found-update, found-update_read,
}
use microkernel_os.CString.Copy.{text-strncpy_kept}
use microkernel_os.Env.{
  Var, env_max_vars, key_slot, free_var, env_get, set_val, new_var, env_set, env_count,
}

-- The buffers of the table end with a NUL, which `env_set` relies on and never writes.
pub record IsEnv (t : Table Var) : Type 0 where
  pub keys : (i : ℕ) → IsBuffer 31 (t i).key
  pub vals : (i : ℕ) → IsBuffer 127 (t i).val

-- A name that fits into an entry, and a value.
pub record IsSetting (key value : List ℕ) : Type 0 where
  pub key_bytes : IsBytes key
  pub short : length (text key) ≤ 31
  pub value_bytes : IsBytes value

-- The text of a variable.
abbrev pub env_text : Table Var → List ℕ → Option (List ℕ)
env_text t key = option_case (env_get t key) none (λ v. some (text v))

-- What setting the variable has done.
pub record Assigned (key value : List ℕ) (t t' : Table Var) : Type 0 where
  pub assigned : env_text t' key ≡ some (take 127 (text value))
  pub others :
      (other : List ℕ) → IsBytes other → text other ≢ text key → env_get t' other ≡ env_get t other
  pub env : IsEnv t'

module _ {t : Table Var} (key value : List ℕ) (v : IsEnv t) (fits : IsSetting key value) where
  write-Assigned :
      (i : ℕ) (e : Var)
      → i < env_max_vars
      → is_named e.active e.key key ≡ true
      → text e.val ≡ take 127 (text value)
      → IsBuffer 31 e.key
      → IsBuffer 127 e.val
      → ((j : ℕ) → j < i → is_named (t j).active (t j).key key ≡ false)
      → ((other : List ℕ)
          → IsBytes other
          → text other ≢ text key
          → (is_named e.active e.key other ≡ false)
            × (is_named (t i).active (t i).key other ≡ false))
      → Assigned key value t (update t i e)
  unfolding env_get
  write-Assigned i e lt hit held kb vb missed apart = record {
    assigned =
        rw (found-update Var.active Var.key env_max_vars i t e key lt hit missed)
          (ground (arith, held));
    others = λ other bytes ne.
        let (new, old) = apart other bytes ne in
        found-update_read Var.active Var.key (λ u. some u.val) none env_max_vars i t e other new
          old;
    env = record {
      keys =
          λ j. if-intro (λ (u : Var). IsBuffer 31 u.key) (i == j) e (t j) (λ h. kb) (λ h. v.keys j);
      vals = λ j.
          if-intro (λ (u : Var). IsBuffer 127 u.val) (i == j) e (t j) (λ h. vb) (λ h. v.vals j);
    };
  }

  held_value : (i : ℕ) → text (strncpy (t i).val value 127) ≡ take 127 (text value)
  held_value i =
      text-strncpy_kept (t i).val value 127 (omega (arith, (v.vals i).size)) (v.vals i).ends

  known-Assigned :
      (i : ℕ) → key_slot t key ≡ some i → Assigned key value t (update t i (set_val (t i) value))
  known-Assigned i found_at =
      let f = first_from-IsFirst env_max_vars 0 i _ found_at in
      let e : Var = t i in
      write-Assigned i (set_val e value) (omega (arith, f.below)) f.hit (held_value i) (v.keys i)
        (strncpy-IsBuffer 127 e.val value (v.vals i) fits.value_bytes)
        (λ j lt. f.missed j (omega arith) lt)
        λ other b ne.
          let gone =
            is_named-apart e.active e.key key other (v.keys i).bytes fits.key_bytes b f.hit ne in
          (gone, gone)

  new-Assigned :
      (i : ℕ)
      → key_slot t key ≡ none
      → free_var t ≡ some i
      → Assigned key value t (update t i (new_var (t i) key value))
  new-Assigned i absent free_at =
      let f = first_from-IsFirst env_max_vars 0 i _ free_at in
      let e : Var = t i in
      let buffer = strncpy-IsBuffer 31 e.key key (v.keys i) fits.key_bytes in
      let held = text-strncpy_fits 31 e.key key (v.keys i) fits.short in
      write-Assigned i (new_var e key value) (omega (arith, f.below))
        (is_named-same _ key buffer.bytes fits.key_bytes held) (held_value i) buffer
        (strncpy-IsBuffer 127 e.val value (v.vals i) fits.value_bytes)
        (λ j lt. first_from-none env_max_vars 0 _ absent j (omega arith) (omega (arith, f.below)))
        λ other b ne. (
          is_named-other true _ other buffer.bytes b (λ h. ne (sym h ∙ held)),
          ground (arith, f.hit),
        )

-- `env_set` either stores the value, cut after 127 bytes, and leaves every other variable as it was,
-- or it silently changes nothing, because all 64 entries are taken by other names. The names and values in the table
-- end with a NUL in their buffers, and the name has at most 31 bytes.
pub env_set_lem :
    {t : Table Var} (key value : List ℕ)
    → IsEnv t
    → IsSetting key value
    → Assigned key value t (env_set key value t)
      ⊎ ((env_set key value t ≡ t) × (env_count t ≡ env_max_vars) × (env_get t key ≡ none))
unfolding env_set env_count env_get
env_set_lem {t} key value v fits = elim (Option-cases (key_slot t key)) [
  | inr (i, e) ↦ rw e (inl (known-Assigned key value v fits i e))
  | inl e ↦ rw e (elim (Option-cases (free_var t)) [
    | inr (i, h) ↦ rw h (inl (new-Assigned key value v fits i e h))
    | inl h ↦ rw h (
        inr (
          refl,
          count_from_all env_max_vars 0 _
              (λ j lo hi. ground (arith, first_from-none env_max_vars 0 _ h j lo hi)),
          refl,
        ))
  ])
]
