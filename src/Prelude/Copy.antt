-- ===== src/Prelude/Copy.antt =====
-- Loops that write or copy the bytes of a buffer.
use Prim.Native.Nat.{ℕ, ◌+◌, ◌<◌}
use mathlib.Core.Path.{◌≡◌, refl, subst}
use mathlib.Core.Logic.{◌≢◌, inl, inr}
use native.Mathlib.Omega.{arith}
use microkernel_os.Prelude.Tests.{◌==◌, Bool-cases}
use microkernel_os.Prelude.Arrays.{Table, update, for_range, for_range_inv}

-- The first `n` bytes of a buffer lie at different places.
abbrev pub IsSpread : (n : ℕ) → (ℕ → ℕ) → Type 0
IsSpread n dst = (i j : ℕ) → i < n → j < n → i ≢ j → dst i ≢ dst j

-- Two buffers have no place in common.
abbrev pub IsApart : (n : ℕ) → (ℕ → ℕ) → (ℕ → ℕ) → Type 0
IsApart n src dst = (i j : ℕ) → i < n → j < n → src i ≢ dst j

-- What is written after `k` of `n` bytes.
pub record Written (n : ℕ) (dst value : ℕ → ℕ) (m : Table ℕ) (k : ℕ) (m' : Table ℕ) : Type 0 where
  pub done : (i : ℕ) → i < k → m' (dst i) ≡ value i
  pub others : (a : ℕ) → ((i : ℕ) → i < n → a ≢ dst i) → m' a ≡ m a

Written-step :
    (n : ℕ) (dst value : ℕ → ℕ) (m : Table ℕ) (k : ℕ) (t : Table ℕ)
    → IsSpread n dst
    → k < n
    → Written n dst value m k t
    → Written n dst value m (k + 1) (update t (dst k) (value k))
Written-step n dst value m k t spread lt w = record {
  done = λ i h. elim (Bool-cases (i == k)) [
    | inl e ↦ let e' : i ≡ k = ground arith in ground (arith, e')
    | inr e ↦ ground (arith, w.done i, spread k i lt)
  ];
  others = λ a ne. ground (arith, w.others a ne, ne k lt);
}

-- Writing given bytes.
pub write_bytes :
    (n : ℕ) (dst value : ℕ → ℕ) (m : Table ℕ)
    → IsSpread n dst
    → Written n dst value m n (for_range n 0 (λ i t. update t (dst i) (value i)) m)
write_bytes n dst value m spread =
    let e : 0 + n ≡ n = omega arith in
    subst (λ k. Written n dst value m k (for_range n 0 (λ i t. update t (dst i) (value i)) m)) e
      (for_range_inv (Written n dst value m) (λ i t. update t (dst i) (value i)) n 0 m
        (λ k t lo hi w. Written-step n dst value m k t spread (omega arith) w)
        (record { done = λ i h. absurd (omega arith); others = λ a ne. refl }))

-- Copying bytes from a buffer that is apart.
pub copy_bytes :
    (n : ℕ) (src dst : ℕ → ℕ) (m : Table ℕ)
    → IsSpread n dst
    → IsApart n src dst
    → Written n dst (λ i. m (src i)) m n (for_range n 0 (λ i t. update t (dst i) (t (src i))) m)
copy_bytes n src dst m spread apart =
    let e : 0 + n ≡ n = omega arith in
    subst
      (λ k.
        Written n dst (λ i. m (src i)) m k (for_range n 0 (λ i t. update t (dst i) (t (src i))) m))
      e
      (for_range_inv (Written n dst (λ i. m (src i)) m) (λ i t. update t (dst i) (t (src i))) n 0 m
        (λ k t lo hi w.
          let same : t (src k) ≡ m (src k) =
            w.others (src k) (λ i lt. apart k i (omega arith) lt) in
          rw same (Written-step n dst (λ i. m (src i)) m k t spread (omega arith) w))
        (record { done = λ i h. absurd (omega arith); others = λ a ne. refl }))
