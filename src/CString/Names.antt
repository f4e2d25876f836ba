-- ===== src/CString/Names.antt =====
-- Tables that are searched with `strcmp` on a name field: the services of src/ipc.c, the variables of
-- src/env.c and the accounts of src/login.c.
use microkernel_os.Prelude.{
  ℕ, zero, suc, ◌+◌, ◌≤◌, ◌<◌, ◌≡◌, ◌≢◌, ◌∙◌, refl, sym, Bool, true, false, ◌&&◌, Option, some,
  List, [], ◌∷◌, inl, inr, arith, ◌==◌, Option-cases, Table, update, first_from, first_from-IsFirst,
  first_from_eq, first_from_congr, length, get_or, if-intro, option_case,
}
use microkernel_os.CString.{strcmp, strncpy, set_char, zero_fill, text, IsBytes}
use microkernel_os.CString.Compare.{strcmp-eq-zero}
use microkernel_os.CString.Copy.{text-strncpy_kept, take-all, length-strncpy, length-set_char}

-- `e.active && strcmp(e.name, key) == 0`
abbrev pub is_named : Bool → List ℕ → List ℕ → Bool
is_named active name key = active && strcmp name key == 0

pub is_named-same :
    (name key : List ℕ)
    → IsBytes name
    → IsBytes key
    → text name ≡ text key
    → is_named true name key ≡ true
is_named-same name key hn hk e = ground (arith, (strcmp-eq-zero name key hn hk).1 e)

pub is_named-other :
    (active : Bool) (name key : List ℕ)
    → IsBytes name
    → IsBytes key
    → text name ≢ text key
    → is_named active name key ≡ false
is_named-other active name key hn hk ne = ground (arith, (strcmp-eq-zero name key hn hk).0)

pub is_named-apart :
    (active : Bool) (name key other : List ℕ)
    → IsBytes name
    → IsBytes key
    → IsBytes other
    → is_named active name key ≡ true
    → text other ≢ text key
    → is_named active name other ≡ false
is_named-apart active name key other hn hk ho hit ne =
    is_named-other active name other hn ho
      (λ e. ne (sym e ∙ (strcmp-eq-zero name key hn hk).0 (ground (arith, hit))))

IsBytes-zero_fill : (dst : List ℕ) (n : ℕ) → IsBytes dst → IsBytes (zero_fill dst n)
unfolding zero_fill
IsBytes-zero_fill dst zero h = h
IsBytes-zero_fill [] (suc n) h = h
IsBytes-zero_fill (d ∷ dst) (suc n) h = (omega arith, IsBytes-zero_fill dst n h.1)

IsBytes-strncpy :
    (dst src : List ℕ) (n : ℕ) → IsBytes dst → IsBytes src → IsBytes (strncpy dst src n)
unfolding strncpy
IsBytes-strncpy dst src zero hd hs = hd
IsBytes-strncpy [] src (suc n) hd hs = hd
IsBytes-strncpy (d ∷ dst) [] (suc n) hd hs = IsBytes-zero_fill (d ∷ dst) (suc n) hd
IsBytes-strncpy (d ∷ dst) (c ∷ src) (suc n) hd hs =
    if-intro IsBytes (c == 0) _ _ (λ e. IsBytes-zero_fill (d ∷ dst) (suc n) hd)
      (λ e. (hs.0, IsBytes-strncpy dst src n hd.1 hs.1))

IsBytes-set_char : (s : List ℕ) (i v : ℕ) → IsBytes s → v < 256 → IsBytes (set_char s i v)
unfolding set_char
IsBytes-set_char [] i v h hv = h
IsBytes-set_char (c ∷ s) zero v h hv = (hv, h.1)
IsBytes-set_char (c ∷ s) (suc i) v h hv = (h.0, IsBytes-set_char s i v h.1 hv)

get_or-zero_fill : (dst : List ℕ) (n : ℕ) → get_or (zero_fill dst n) n 0 ≡ get_or dst n 0
unfolding zero_fill
get_or-zero_fill dst zero = refl
get_or-zero_fill [] (suc n) = refl
get_or-zero_fill (d ∷ dst) (suc n) = get_or-zero_fill dst n

get_or-strncpy : (dst src : List ℕ) (n : ℕ) → get_or (strncpy dst src n) n 0 ≡ get_or dst n 0
unfolding strncpy
get_or-strncpy dst src zero = refl
get_or-strncpy [] src (suc n) = refl
get_or-strncpy (d ∷ dst) [] (suc n) = get_or-zero_fill (d ∷ dst) (suc n)
get_or-strncpy (d ∷ dst) (c ∷ src) (suc n) =
    ground (arith, get_or-zero_fill (d ∷ dst) (suc n), get_or-strncpy dst src n)

get_or-set_char : (s : List ℕ) (i : ℕ) → get_or (set_char s i 0) i 0 ≡ 0
unfolding set_char
get_or-set_char [] i = refl
get_or-set_char (c ∷ s) zero = refl
get_or-set_char (c ∷ s) (suc i) = get_or-set_char s i

-- A name buffer of `n + 1` bytes that ends with a NUL.
pub record IsBuffer (n : ℕ) (s : List ℕ) : Type 0 where
  pub bytes : IsBytes s
  pub size : length s ≡ n + 1
  pub ends : get_or s n 0 ≡ 0

-- `strncpy(buf, src, n)` leaves a buffer a buffer, with the first `n` bytes of the text.
pub strncpy-IsBuffer :
    (n : ℕ) (dst src : List ℕ) → IsBuffer n dst → IsBytes src → IsBuffer n (strncpy dst src n)
strncpy-IsBuffer n dst src b h = record {
  bytes = IsBytes-strncpy dst src n b.bytes h;
  size = length-strncpy dst src n ∙ b.size;
  ends = get_or-strncpy dst src n ∙ b.ends;
}

pub terminate-IsBuffer : (n : ℕ) (s : List ℕ) → IsBuffer n s → IsBuffer n (set_char s n 0)
terminate-IsBuffer n s b = record {
  bytes = IsBytes-set_char s n 0 b.bytes (omega arith);
  size = length-set_char s n 0 ∙ b.size;
  ends = get_or-set_char s n;
}

pub text-strncpy_fits :
    (n : ℕ) (dst src : List ℕ)
    → IsBuffer n dst
    → length (text src) ≤ n
    → text (strncpy dst src n) ≡ text src
text-strncpy_fits n dst src b h =
    text-strncpy_kept dst src n (omega (arith, b.size)) b.ends ∙ take-all n (text src) h

module _ {A : Type 0} (active : A → Bool) (name : A → List ℕ) where
  -- The first slot that holds the name.
  abbrev pub found : ℕ → Table A → List ℕ → Option ℕ
  found n t key = first_from n 0 (λ i. is_named (active (t i)) (name (t i)) key)

  -- Writing the entry of a name makes the search for that name find it, if no slot before has it.
  pub found-update :
      (n i : ℕ) (t : Table A) (v : A) (key : List ℕ)
      → i < n
      → is_named (active v) (name v) key ≡ true
      → ((j : ℕ) → j < i → is_named (active (t j)) (name (t j)) key ≡ false)
      → found n (update t i v) key ≡ some i
  found-update n i t v key lt hit missed = first_from_eq n 0 i _ (record {
    above = omega arith;
    below = omega arith;
    hit = ground (arith, hit);
    missed = λ j lo hi. ground (arith, missed j hi);
  })

  -- It does not change the search for a name that fits the old and the new entry alike.
  pub found-update_other :
      (n i : ℕ) (t : Table A) (v : A) (key : List ℕ)
      → is_named (active v) (name v) key ≡ is_named (active (t i)) (name (t i)) key
      → found n (update t i v) key ≡ found n t key
  found-update_other n i t v key e = first_from_congr n 0 _ _ (λ j lo hi. ground (arith, e))

  -- So a lookup of any other name reads what it read before.
  pub found-update_read {κ} :
      {B : Type κ} (read : A → B) (miss : B) (n i : ℕ) (t : Table A) (v : A) (key : List ℕ)
      → is_named (active v) (name v) key ≡ false
      → is_named (active (t i)) (name (t i)) key ≡ false
      → option_case (found n (update t i v) key) miss (λ j. read (update t i v j))
        ≡ option_case (found n t key) miss (λ j. read (t j))
  found-update_read read miss n i t v key new old =
      let same : found n (update t i v) key ≡ found n t key =
        found-update_other n i t v key (new ∙ sym old) in
      rw same (elim (Option-cases (found n t key)) [
        | inl e ↦ rw e refl
        | inr (j, e) ↦
            let f = first_from-IsFirst n 0 j _ e in
            let apart : (i == j) ≡ false = ground (arith, f.hit) in rw e (rw apart refl)
      ])
