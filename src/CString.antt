-- ===== src/CString.antt =====
-- The string helpers of include/types.h. A `char` array or a string argument is a list of bytes; the
-- end of the list reads as the terminating NUL. An `int` is its 32-bit pattern.
pub mod Compare
pub mod Copy
pub mod Names
mod Tests
use microkernel_os.Prelude.{
  ℕ, zero, suc, ◌+◌, ◌-◌, ◌*◌, ◌/◌, ◌%◌, ◌^◌, ◌≤◌, ◌<◌, ◌≡◌, ◌≢◌, ◌⊎◌, ◌↔◌, ◌∙◌, refl, sym, ap,
  fun_ext, Bool, true, false, not, ◌&&◌, ◌||◌, Option, none, some, List, [], ◌∷◌, ◌++◌, map, inl,
  inr, arith, ltb, leb, ◌==◌, if◌then◌else◌, Bool-cases, Option-cases, Table, update, first_from,
  count_from, for_range, IsFirst, first_from-IsFirst, first_from-none, first_from_eq,
  first_from_congr, count_from_congr, count_from-flip, count_from-le, count_from-lt_of_miss,
  count_from_all, for_range_inv, below_suc, length, get_or, take, drop, replicate, length-append,
  length-replicate, length-drop, lt→ltb, leb→le, ltb→lt, ==_iff, if-intro, option_case,
  option_case-intro,
}

-- `*s` and `s + 1`
abbrev pub char_at : List ℕ → ℕ
char_at [] = 0
char_at (c ∷ s) = c

abbrev pub tail : List ℕ → List ℕ
tail [] = []
tail (c ∷ s) = s

pub strlen : List ℕ → ℕ
strlen [] = 0
strlen (c ∷ s) = if c == 0 then 0 else suc (strlen s)

-- The difference of two `unsigned char`, as an `int`.
abbrev pub char_diff : ℕ → ℕ → ℕ
char_diff x y = (x + 2 ^ 32 - y) % 2 ^ 32

unfoldable pub strcmp : List ℕ → List ℕ → ℕ
strcmp [] b = char_diff 0 (char_at b)
strcmp (x ∷ a) b =
    if x == 0 || not (x == char_at b) then char_diff x (char_at b) else strcmp a (tail b)

-- The loop of `strncmp`, with the bytes left to compare.
unfoldable pub strncmp : List ℕ → List ℕ → ℕ → ℕ
strncmp a b zero = 0
strncmp a b (suc n) =
    let rest = strncmp (tail a) (tail b) n in
    if not (char_at a == char_at b) || char_at a == 0
    then char_diff (char_at a) (char_at b)
    else rest

-- `memset(dst, 0, n)`: at most the array is written.
pub zero_fill : List ℕ → ℕ → List ℕ
zero_fill dst zero = dst
zero_fill [] (suc n) = []
zero_fill (d ∷ dst) (suc n) = 0 ∷ zero_fill dst n

-- What runs past the end of `dst` is not modelled: callers pass an `n` below its length.
pub strncpy : List ℕ → List ℕ → ℕ → List ℕ
strncpy dst src zero = dst
strncpy [] src (suc n) = []
strncpy (d ∷ dst) src (suc n) =
    let copied = char_at src ∷ strncpy dst (tail src) n in
    if char_at src == 0 then zero_fill (d ∷ dst) (suc n) else copied

-- `strcpy` writes the string and its NUL over the front of `dst`.
pub strcpy : List ℕ → List ℕ → List ℕ
strcpy [] src = []
strcpy (d ∷ dst) src =
    let copied = char_at src ∷ strcpy dst (tail src) in if char_at src == 0 then 0 ∷ dst else copied

-- The NUL of `dst` is where the bytes of `src` go.
unfoldable pub strcat : List ℕ → List ℕ → List ℕ
strcat [] src = []
strcat (d ∷ dst) src =
    let rest = d ∷ strcat dst src in if d == 0 then strcpy (d ∷ dst) src else rest

-- The string from the first byte `c` on, or `none` for NULL.
pub strchr : List ℕ → ℕ → Option (List ℕ)
strchr [] c = if c == 0 then some [] else none
strchr (x ∷ s) c =
    let rest = strchr s c in
    if x == 0
    then (if c == 0 then some (x ∷ s) else none)
    else if x == c % 256
    then some (x ∷ s)
    else rest

-- The loop of `memcmp`, with the bytes left to compare.
pub memcmp : List ℕ → List ℕ → ℕ → ℕ
memcmp a b zero = 0
memcmp a b (suc n) =
    let rest = memcmp (tail a) (tail b) n in
    if not (char_at a == char_at b) then char_diff (char_at a) (char_at b) else rest

pub isdigit : ℕ → Bool
isdigit c = leb b'0' c && leb c b'9'

pub isalpha : ℕ → Bool
isalpha c = leb b'a' c && leb c b'z' || leb b'A' c && leb c b'Z'

pub isspace : ℕ → Bool
isspace c = c == 32 || c == 9 || c == 10 || c == 13

pub tolower : ℕ → ℕ
tolower c = if leb b'A' c && leb c b'Z' then c + 32 else c

pub toupper : ℕ → ℕ
toupper c = if leb b'a' c && leb c b'z' then c - 32 else c

-- The three loops of `atoi`, on 32 bits.
pub skip_spaces : List ℕ → List ℕ
skip_spaces [] = []
skip_spaces (c ∷ s) = let rest = skip_spaces s in if isspace c then rest else c ∷ s

pub digits_from : ℕ → List ℕ → ℕ
digits_from n [] = n
digits_from n (c ∷ s) =
    let rest = digits_from ((n * 10 + (c - b'0')) % 2 ^ 32) s in if isdigit c then rest else n

pub atoi : List ℕ → ℕ
atoi s =
    let t : List ℕ = skip_spaces s in
    if char_at t == b'-'
    then (2 ^ 32 - digits_from 0 (tail t)) % 2 ^ 32
    else if char_at t == b'+'
    then digits_from 0 (tail t)
    else digits_from 0 t

-- `a[i] = v` on a `char` array.
pub set_char : List ℕ → ℕ → ℕ → List ℕ
set_char [] i v = []
set_char (c ∷ s) zero v = v ∷ s
set_char (c ∷ s) (suc i) v = c ∷ set_char s i v

-- The bytes in front of the NUL: what a C string means.
unfoldable pub text : List ℕ → List ℕ
text [] = []
text (c ∷ s) = if c == 0 then [] else c ∷ text s

abbrev pub IsBytes : List ℕ → Type 0
IsBytes [] = Unit
IsBytes (c ∷ s) = (c < 256) × IsBytes s
