-- ===== src/Prelude/Arrays.antt =====
-- Fixed C arrays as functions from the index, and the loops that scan them: the first index that
-- passes a test, and how many indices do.
use Prim.Native.Nat.{ℕ, zero, suc, ◌+◌, ◌≤◌, ◌<◌}
use mathlib.Core.Path.{◌≡◌, refl, sym, subst}
use mathlib.Core.Logic.{◌≢◌, inl, inr}
use mathlib.Core.Bool.{Bool, true, false}
use mathlib.Core.Option.{Option, none, some}
use native.Mathlib.Omega.{arith}
use microkernel_os.Prelude.Tests.{◌==◌, if◌then◌else◌, Bool-cases}

abbrev pub Table {ℓ} : Type ℓ → Type ℓ
Table A = ℕ → A

-- `a[i] = v`
abbrev pub update {ℓ} : {A : Type ℓ} → Table A → ℕ → A → Table A
update a i v j = if i == j then v else a j

-- `for (k = i; k < i + n; k++) if (p(k)) return k;`, with `none` where the loop runs out.
unfoldable pub first_from : ℕ → ℕ → (ℕ → Bool) → Option ℕ
first_from zero i p = none
first_from (suc n) i p = let rest = first_from n (i + 1) p in if p i then some i else rest

-- `for (k = i; k < i + n; k++) if (p(k)) c++;`
unfoldable pub count_from : ℕ → ℕ → (ℕ → Bool) → ℕ
count_from zero i p = 0
count_from (suc n) i p = (if p i then 1 else 0) + count_from n (i + 1) p

-- `for (k = i; k < i + n; k++) s = body(k, s);`
unfoldable pub for_range {ℓ} : {S : Type ℓ} (rounds first : ℕ) (step : ℕ → S → S) → S → S
for_range zero first step now = now
for_range (suc left) first step now = for_range left (first + 1) step (step first now)

-- What a scan that stopped at `k` says of the test.
pub record IsFirst (n i : ℕ) (p : ℕ → Bool) (k : ℕ) : Type 0 where
  pub above : i ≤ k
  pub below : k < i + n
  pub hit : p k ≡ true
  pub missed : (j : ℕ) → i ≤ j → j < k → p j ≡ false

missed-extend :
    (p : ℕ → Bool) (i k : ℕ)
    → p i ≡ false
    → ((j : ℕ) → i + 1 ≤ j → j < k → p j ≡ false)
    → (j : ℕ) → i ≤ j
    → j < k
    → p j ≡ false
missed-extend p i k h rest j lo hi = elim (Bool-cases (i == j)) [
  | inl e ↦ ground arith
  | inr e ↦ rest j (ground arith) hi
]

IsFirst-suc :
    (n i k : ℕ) (p : ℕ → Bool) → p i ≡ false → IsFirst n (i + 1) p k → IsFirst (suc n) i p k
IsFirst-suc n i k p h f = record {
  above = omega (arith, f.above);
  below = omega (arith, f.below);
  hit = f.hit;
  missed = missed-extend p i k h f.missed;
}

-- A scan that stops has found the first index that passes.
pub first_from-IsFirst : (n i k : ℕ) (p : ℕ → Bool) → first_from n i p ≡ some k → IsFirst n i p k
unfolding first_from
first_from-IsFirst zero i k p e = cc
first_from-IsFirst (suc n) i k p e = elim (Bool-cases (p i)) [
  | inl h ↦ ground arith
  | inr h ↦ IsFirst-suc n i k p h (first_from-IsFirst n (i + 1) k p (ground arith))
]

-- A scan that runs out has seen every index fail.
pub first_from-none :
    (n i : ℕ) (p : ℕ → Bool) → first_from n i p ≡ none → (j : ℕ) → i ≤ j → j < i + n → p j ≡ false
unfolding first_from
first_from-none zero i p e j lo hi = absurd (omega arith)
first_from-none (suc n) i p e j lo hi = elim (Bool-cases (p i)) [
  | inl h ↦ ground arith
  | inr h ↦
      missed-extend p i (i + suc n) h
        (λ j' lo' hi'. first_from-none n (i + 1) p (ground arith) j' lo' (omega arith)) j lo hi
]

-- The scan stops at the first index that passes, whatever it finds there.
pub first_from_eq : (n i k : ℕ) (p : ℕ → Bool) → IsFirst n i p k → first_from n i p ≡ some k
unfolding first_from
first_from_eq zero i k p f = absurd (omega (arith, f.above, f.below))
first_from_eq (suc n) i k p f = elim (Bool-cases (i == k)) [
  | inl e ↦ ground (arith, f.hit)
  | inr e ↦ ground (arith, f.above, f.below, f.missed i, first_from_eq n (i + 1) k p (later e))
]
  where
    later : (i == k) ≡ false → IsFirst n (i + 1) p k
    later e = record {
      above = ground (arith, f.above);
      below = omega (arith, f.below);
      hit = f.hit;
      missed = λ j lo hi. f.missed j (omega arith) hi;
    }

-- Tests that agree on the range make the scan stop at the same index.
pub first_from_congr :
    (n i : ℕ) (p q : ℕ → Bool)
    → ((j : ℕ) → i ≤ j → j < i + n → p j ≡ q j)
    → first_from n i p ≡ first_from n i q
unfolding first_from
first_from_congr zero i p q same = refl
first_from_congr (suc n) i p q same =
    ground (
      arith,
      same i,
      first_from_congr n (i + 1) p q (λ j lo hi. same j (omega arith) (omega arith)),
    )

-- Tests that agree on the range give the same count.
pub count_from_congr :
    (n i : ℕ) (p q : ℕ → Bool)
    → ((j : ℕ) → i ≤ j → j < i + n → p j ≡ q j)
    → count_from n i p ≡ count_from n i q
unfolding count_from
count_from_congr zero i p q same = refl
count_from_congr (suc n) i p q same =
    ground (
      arith,
      same i,
      count_from_congr n (i + 1) p q (λ j lo hi. same j (omega arith) (omega arith)),
    )

-- One index that passes where it failed adds one to the count.
pub count_from-flip :
    (n i k : ℕ) (p q : ℕ → Bool)
    → i ≤ k
    → k < i + n
    → p k ≡ false
    → q k ≡ true
    → ((j : ℕ) → j ≢ k → p j ≡ q j)
    → count_from n i q ≡ count_from n i p + 1
unfolding count_from
count_from-flip zero i k p q lo hi hp hq same = absurd (omega arith)
count_from-flip (suc n) i k p q lo hi hp hq same = elim (Bool-cases (i == k)) [
  | inl e ↦ ground (arith, count_from_congr n (i + 1) p q (λ j lo' hi'. same j (ground arith)))
  | inr e ↦
      ground
        (arith, same i, count_from-flip n (i + 1) k p q (ground arith) (omega arith) hp hq same)
]

pub count_from-le : (n i : ℕ) (p : ℕ → Bool) → count_from n i p ≤ n
unfolding count_from
count_from-le zero i p = omega arith
count_from-le (suc n) i p = ground (arith, count_from-le n (i + 1) p)

-- A count below the length of the range leaves an index that fails.
pub count_from-lt_of_miss :
    (n i k : ℕ) (p : ℕ → Bool) → i ≤ k → k < i + n → p k ≡ false → count_from n i p < n
unfolding count_from
count_from-lt_of_miss zero i k p lo hi h = absurd (omega arith)
count_from-lt_of_miss (suc n) i k p lo hi h = elim (Bool-cases (i == k)) [
  | inl e ↦ ground (arith, count_from-le n (i + 1) p)
  | inr e ↦ ground (arith, count_from-lt_of_miss n (i + 1) k p (ground arith) (omega arith) h)
]

-- If every index passes, the count is the length of the range.
pub count_from_all :
    (n i : ℕ) (p : ℕ → Bool) → ((j : ℕ) → i ≤ j → j < i + n → p j ≡ true) → count_from n i p ≡ n
unfolding count_from
count_from_all zero i p all = refl
count_from_all (suc n) i p all =
    ground (arith, all i, count_from_all n (i + 1) p (λ j lo hi. all j (omega arith) (omega arith)))

-- The invariant rule of a counted loop.
pub for_range_inv {ℓ κ} :
    {S : Type ℓ} (Inv : ℕ → S → Type κ) (step : ℕ → S → S) (rounds first : ℕ) (now : S)
    → ((k : ℕ) (t : S) → first ≤ k → k < first + rounds → Inv k t → Inv (k + 1) (step k t))
    → Inv first now
    → Inv (first + rounds) (for_range rounds first step now)
unfolding for_range
for_range_inv Inv step zero first now keep h =
    let e : first ≡ first + 0 = omega arith in subst (λ k. Inv k now) e h
for_range_inv Inv step (suc left) first now keep h =
    let e : first + 1 + left ≡ first + suc left = omega arith in
    subst (λ k. Inv k (for_range left (first + 1) step (step first now))) e
      (for_range_inv Inv step left (first + 1) (step first now)
        (λ k t lo hi. keep k t (omega arith) (omega arith))
        (keep first now (omega arith) (omega arith) h))

-- A fact about every number below `k` and about `k` is one about every number below `k + 1`.
pub below_suc {ℓ} :
    (P : ℕ → Type ℓ) (k : ℕ) → ((n : ℕ) → n < k → P n) → P k → (n : ℕ) → n < k + 1 → P n
below_suc P k h hk n lt = elim (Bool-cases (n == k)) [
  | inl e ↦ let e' : n ≡ k = ground arith in subst P (sym e') hk
  | inr e ↦ h n (ground arith)
]
