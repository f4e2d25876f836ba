-- ===== src/Pmm/Bitmap.antt =====
-- The bits of the page bitmap under the operations of src/pmm.c.
use microkernel_os.Prelude.{
  ℕ, ◌+◌, ◌-◌, ◌/◌, ◌%◌, ◌^◌, ◌<◌, ◌≡◌, refl, true, false, arith, ◌==◌, if◌then◌else◌, Table,
  update, for_range, for_range_inv,
}
use microkernel_os.Prelude.Bits.{test_bit-set_bit, test_bit-clear_bit}
use microkernel_os.Pmm.{Pmm, bitmap_size, bm_set, bm_clear, bm_test, used_inc, used_dec}

pub bm_test-bm_set :
    (m : Pmm) (p q : ℕ) → bm_test (bm_set m p) q ≡ (if p == q then true else bm_test m q)
unfolding bm_test bm_set
bm_test-bm_set m p q = ground (arith, test_bit-set_bit (m.bitmap (p / 32)) (p % 32) (q % 32))

pub bm_test-bm_clear :
    (m : Pmm) (p q : ℕ) → bm_test (bm_clear m p) q ≡ (if p == q then false else bm_test m q)
unfolding bm_test bm_clear
bm_test-bm_clear m p q = ground (arith, test_bit-clear_bit (m.bitmap (p / 32)) (p % 32) (q % 32))

-- The loop that fills the bitmap has set every word below its end.
pub fill-ones :
    (b : Table ℕ) (j : ℕ)
    → j < bitmap_size
    → for_range bitmap_size 0 (λ i (t : Table ℕ). update t i (2 ^ 32 - 1)) b j ≡ 2 ^ 32 - 1
fill-ones b j h =
    for_range_inv (λ n (t : Table ℕ). (k : ℕ) → k < n → t k ≡ 2 ^ 32 - 1)
      (λ i t. update t i (2 ^ 32 - 1)) bitmap_size 0 b (λ i t lo hi ih k lt. ground (arith, ih k))
      (λ k lt. absurd (omega arith)) j h

-- The same with the counter that each change of a bit moves.
pub bm_test-take :
    (m : Pmm) (p q : ℕ) → bm_test (used_inc (bm_set m p)) q ≡ (if p == q then true else bm_test m q)
unfolding bm_test bm_set
bm_test-take m p q = ground (arith, bm_test-bm_set m p q)

pub bm_test-drop :
    (m : Pmm) (p q : ℕ)
    → bm_test (used_dec (bm_clear m p)) q ≡ (if p == q then false else bm_test m q)
unfolding bm_test bm_clear
bm_test-drop m p q = ground (arith, bm_test-bm_clear m p q)

pub total-take : (m : Pmm) (p : ℕ) → (used_inc (bm_set m p)).total_pages ≡ m.total_pages
unfolding bm_set
total-take m p = refl

pub total-drop : (m : Pmm) (p : ℕ) → (used_dec (bm_clear m p)).total_pages ≡ m.total_pages
unfolding bm_clear
total-drop m p = refl

pub used-take : (m : Pmm) (p : ℕ) → (used_inc (bm_set m p)).used_pages ≡ (m.used_pages + 1) % 2 ^ 32
unfolding bm_set
used-take m p = refl

pub used-drop :
    (m : Pmm) (p : ℕ)
    → (used_dec (bm_clear m p)).used_pages ≡ (m.used_pages + (2 ^ 32 - 1)) % 2 ^ 32
unfolding bm_clear
used-drop m p = refl
