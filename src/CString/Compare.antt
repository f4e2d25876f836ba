-- ===== src/CString/Compare.antt =====
-- `strcmp` and `strlen` of include/types.h against the text that a C string holds.
use microkernel_os.Prelude.{ℕ, ◌≡◌, ◌↔◌, refl, List, [], ◌∷◌, arith, length}
use microkernel_os.CString.{strlen, strcmp, text, IsBytes}

pub strlen-text : (s : List ℕ) → strlen s ≡ length (text s)
unfolding strlen text
strlen-text [] = refl
strlen-text (c ∷ s) = ground (arith, strlen-text s)

-- `strcmp` returns 0 exactly when the two strings hold the same text.
pub strcmp-eq-zero : (a b : List ℕ) → IsBytes a → IsBytes b → (strcmp a b ≡ 0) ↔ (text a ≡ text b)
unfolding strcmp text
strcmp-eq-zero [] [] ha hb = (λ h. refl, λ h. refl)
strcmp-eq-zero [] (y ∷ b) ha hb = (λ h. ground arith, λ h. ground arith)
strcmp-eq-zero (x ∷ a) [] ha hb = (λ h. ground arith, λ h. ground arith)
strcmp-eq-zero (x ∷ a) (y ∷ b) ha hb = (
  λ h. ground (arith, (strcmp-eq-zero a b ha.1 hb.1).0),
  λ h. ground (arith, (strcmp-eq-zero a b ha.1 hb.1).1),
)
