-- ===== src/CString/Copy.antt =====
-- `strncpy` and `strcpy` of include/types.h: the text that arrives in the buffer.
use microkernel_os.Prelude.{
  ℕ, zero, suc, ◌+◌, ◌≤◌, ◌<◌, ◌≡◌, refl, ap, List, [], ◌∷◌, ◌++◌, inl, inr, arith, ◌==◌,
  Bool-cases, length, get_or, take,
}
use microkernel_os.CString.{tail, zero_fill, strncpy, set_char, text, strcpy, strcat}

pub length-zero_fill : (dst : List ℕ) (n : ℕ) → length (zero_fill dst n) ≡ length dst
unfolding zero_fill
length-zero_fill dst zero = refl
length-zero_fill [] (suc n) = refl
length-zero_fill (d ∷ dst) (suc n) = omega (arith, length-zero_fill dst n)

pub length-strncpy : (dst src : List ℕ) (n : ℕ) → length (strncpy dst src n) ≡ length dst
unfolding strncpy
length-strncpy dst src zero = refl
length-strncpy [] src (suc n) = refl
length-strncpy (d ∷ dst) src (suc n) =
    ground (arith, length-strncpy dst (tail src) n, length-zero_fill (d ∷ dst) (suc n))

pub length-set_char : (s : List ℕ) (i v : ℕ) → length (set_char s i v) ≡ length s
unfolding set_char
length-set_char [] i v = refl
length-set_char (c ∷ s) zero v = refl
length-set_char (c ∷ s) (suc i) v = omega (arith, length-set_char s i v)

text-zero_fill : (dst : List ℕ) (n : ℕ) → 0 < length dst → 0 < n → text (zero_fill dst n) ≡ []
unfolding text zero_fill
text-zero_fill dst zero h k = absurd (omega arith)
text-zero_fill [] (suc n) h k = absurd (omega arith)
text-zero_fill (d ∷ dst) (suc n) h k = refl

-- `strncpy(dst, src, n); dst[n] = 0;` leaves the first `n` bytes of the text.
pub text-strncpy :
    (dst src : List ℕ) (n : ℕ)
    → n < length dst
    → text (set_char (strncpy dst src n) n 0) ≡ take n (text src)
unfolding text strncpy set_char zero_fill
text-strncpy [] src n h = absurd (omega arith)
text-strncpy (d ∷ dst) src zero h = refl
text-strncpy (d ∷ dst) [] (suc n) h = refl
text-strncpy (d ∷ dst) (c ∷ src) (suc n) h = ground (arith, text-strncpy dst src n)

-- A buffer that has a NUL at `n` keeps it under `strncpy(dst, src, n)`.
pub text-strncpy_kept :
    (dst src : List ℕ) (n : ℕ)
    → n < length dst
    → get_or dst n 0 ≡ 0
    → text (strncpy dst src n) ≡ take n (text src)
unfolding text strncpy zero_fill
text-strncpy_kept [] src n h z = absurd (omega arith)
text-strncpy_kept (d ∷ dst) src zero h z = ground arith
text-strncpy_kept (d ∷ dst) [] (suc n) h z = refl
text-strncpy_kept (d ∷ dst) (c ∷ src) (suc n) h z = ground (arith, text-strncpy_kept dst src n)

pub take-all : (n : ℕ) (s : List ℕ) → length s ≤ n → take n s ≡ s
take-all zero [] h = refl
take-all (suc n) [] h = refl
take-all zero (x ∷ s) h = absurd (omega arith)
take-all (suc n) (x ∷ s) h = ap (λ t. x ∷ t) (take-all n s (omega arith))

text-strcpy : (dst src : List ℕ) → length (text src) < length dst → text (strcpy dst src) ≡ text src
unfolding text strcpy
text-strcpy [] src h = absurd (omega arith)
text-strcpy (d ∷ dst) [] h = refl
text-strcpy (d ∷ dst) (c ∷ src) h = elim (Bool-cases (c == 0)) [
  | inl e ↦ rw e refl
  | inr e ↦ let rest = text-strcpy dst src (ground (arith, h)) in ground (arith, rest)
]

-- `strcat` joins the texts, if the buffer has room for both and the NUL.
pub text-strcat :
    (dst src : List ℕ)
    → length (text dst) + length (text src) < length dst
    → text (strcat dst src) ≡ text dst ++ text src
unfolding text strcat
text-strcat [] src h = absurd (omega arith)
text-strcat (d ∷ dst) src h = elim (Bool-cases (d == 0)) [
  | inl e ↦ rw e (text-strcpy (d ∷ dst) src (ground (arith, h)))
  | inr e ↦ let rest = text-strcat dst src (ground (arith, h)) in ground (arith, rest)
]
