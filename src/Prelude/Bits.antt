-- ===== src/Prelude/Bits.antt =====
-- The bits of a word, and what the C idioms `w |= 1 << k` and `w &= ~(1 << k)` do to them.
use Prim.Native.Nat.{
  ℕ, zero, suc, ◌+◌, ◌-◌, ◌*◌, ◌/◌, ◌%◌, ◌^◌, ◌≤◌, ◌<◌, min, max, bit_and, bit_or, digits, bitwise,
  bit_and-bitwise, bit_or-bitwise,
}
use mathlib.Core.Path.{◌≡◌, refl, ◌∙◌}
use mathlib.Core.Bool.{Bool, true, false, ◌&&◌, ◌||◌}
use native.Mathlib.Omega.{arith}
use native.Mathlib.Nat.{pow-suc, le_refl}
use microkernel_os.Prelude.Tests.{◌==◌, if◌then◌else◌}

-- `(w >> k) & 1`
unfoldable pub test_bit : ℕ → ℕ → Bool
test_bit w zero = w % 2 == 1
test_bit w (suc k) = test_bit (w / 2) k

-- The native operations go over the binary digits on fuel; one step of them needs none.
module _ (rest : ℕ → ℕ) (on_digits : ℕ → ℕ → ℕ) where
  digits_fuel :
      (given needed x y : ℕ)
      → x ≤ needed
      → x ≤ given
      → digits rest on_digits given x y ≡ digits rest on_digits needed x y
  digits_fuel zero zero x y lo hi = refl
  digits_fuel zero (suc needed) zero y lo hi = refl
  digits_fuel zero (suc needed) (suc x) y lo hi = absurd (omega arith)
  digits_fuel (suc given) zero zero y lo hi = refl
  digits_fuel (suc given) zero (suc x) y lo hi = absurd (omega arith)
  digits_fuel (suc given) (suc needed) zero y lo hi = refl
  digits_fuel (suc given) (suc needed) (suc x) y lo hi =
      rw (digits_fuel given needed (suc x / 2) (y / 2) (omega arith) (omega arith))

  lowest_digit :
      (x y : ℕ)
      → bitwise rest on_digits (suc x) y
        ≡ bitwise rest on_digits (suc x / 2) (y / 2) * 2 + on_digits (suc x % 2) (y % 2)
  lowest_digit x y =
      omega (arith, digits_fuel x (suc x / 2) (suc x / 2) (y / 2) (le_refl _) (omega arith))

bit_or_digit : (a b : ℕ) → bit_or a b ≡ bit_or (a / 2) (b / 2) * 2 + max (a % 2) (b % 2)
bit_or_digit zero b = simp bit_or-bitwise (omega arith)
bit_or_digit (suc a) b = simp bit_or-bitwise (lowest_digit (λ y. y) max a b)

bit_and_digit : (a b : ℕ) → bit_and a b ≡ bit_and (a / 2) (b / 2) * 2 + min (a % 2) (b % 2)
bit_and_digit zero b = simp bit_and-bitwise (omega arith)
bit_and_digit (suc a) b = simp bit_and-bitwise (lowest_digit (λ y. 0) min a b)

bit_or-half : (a b : ℕ) → bit_or a b / 2 ≡ bit_or (a / 2) (b / 2)
bit_or-half a b = omega (arith, bit_or_digit a b)

bit_and-half : (a b : ℕ) → bit_and a b / 2 ≡ bit_and (a / 2) (b / 2)
bit_and-half a b = omega (arith, bit_and_digit a b)

pub test_bit-bit_or : (k a b : ℕ) → test_bit (bit_or a b) k ≡ (test_bit a k || test_bit b k)
unfolding test_bit
test_bit-bit_or zero a b = ground (arith, bit_or_digit a b)
test_bit-bit_or (suc k) a b = rw (bit_or-half a b) (test_bit-bit_or k (a / 2) (b / 2))

pub test_bit-bit_and : (k a b : ℕ) → test_bit (bit_and a b) k ≡ (test_bit a k && test_bit b k)
unfolding test_bit
test_bit-bit_and zero a b = ground (arith, bit_and_digit a b)
test_bit-bit_and (suc k) a b = rw (bit_and-half a b) (test_bit-bit_and k (a / 2) (b / 2))

test_bit-zero : (j : ℕ) → test_bit 0 j ≡ false
unfolding test_bit
test_bit-zero zero = refl
test_bit-zero (suc j) = test_bit-zero j

-- `1 << k`
pub test_bit-pow : (k j : ℕ) → test_bit (2 ^ k) j ≡ (k == j)
unfolding test_bit
test_bit-pow zero zero = refl
test_bit-pow zero (suc j) = ground (arith, test_bit-zero j)
test_bit-pow (suc k) zero = ground (arith, pow-suc 2 k)
test_bit-pow (suc k) (suc j) =
    let half : 2 ^ suc k / 2 ≡ 2 ^ k = omega (arith, pow-suc 2 k) in
    rw half (test_bit-pow k j ∙ ground arith)

-- `~x` in `n` bits
pub test_bit-complement :
    (n k x : ℕ)
    → k < n
    → x < 2 ^ n
    → test_bit (2 ^ n - 1 - x) k ≡ (if test_bit x k then false else true)
unfolding test_bit
test_bit-complement zero k x h lt = absurd (omega arith)
test_bit-complement (suc n) zero x h lt = ground (arith, pow-suc 2 n)
test_bit-complement (suc n) (suc k) x h lt =
    let half : (2 ^ suc n - 1 - x) / 2 ≡ 2 ^ n - 1 - x / 2 = omega (arith, pow-suc 2 n) in
    rw half (test_bit-complement n k (x / 2) (omega arith) (omega (arith, pow-suc 2 n)))

pow-lt-pow : (k n : ℕ) → k < n → 2 ^ k < 2 ^ n
pow-lt-pow k zero h = absurd (omega arith)
pow-lt-pow zero (suc zero) h = omega arith
pow-lt-pow zero (suc (suc n)) h =
    omega (arith, pow-suc 2 (suc n), pow-lt-pow zero (suc n) (omega arith))
pow-lt-pow (suc k) (suc n) h = omega (arith, pow-suc 2 k, pow-suc 2 n, pow-lt-pow k n (omega arith))

-- `w | (1 << k)`
unfoldable pub set_bit : ℕ → ℕ → ℕ
set_bit w k = bit_or w (2 ^ k)

-- `w & ~(1 << k)` on a word of 32 bits
unfoldable pub clear_bit : ℕ → ℕ → ℕ
clear_bit w k = bit_and w (2 ^ 32 - 1 - 2 ^ k)

pub test_bit-set_bit :
    (w k j : ℕ) → test_bit (set_bit w k) j ≡ (if k == j then true else test_bit w j)
unfolding set_bit
test_bit-set_bit w k j = ground (arith, test_bit-bit_or j w (2 ^ k), test_bit-pow k j)

pub test_bit-clear_bit :
    (w k j : ℕ)
    → k < 32
    → j < 32
    → test_bit (clear_bit w k) j ≡ (if k == j then false else test_bit w j)
unfolding clear_bit
test_bit-clear_bit w k j hk hj = ground (
  arith,
  test_bit-bit_and j w (2 ^ 32 - 1 - 2 ^ k),
  test_bit-complement 32 j (2 ^ k) hj (pow-lt-pow k 32 hk),
  test_bit-pow k j,
)

-- Every bit of `0xFFFFFFFF` is set.
pub test_bit-all_ones : (j : ℕ) → j < 32 → test_bit (2 ^ 32 - 1) j ≡ true
test_bit-all_ones j h = ground (arith, test_bit-complement 32 j 0 h (omega arith), test_bit-zero j)
