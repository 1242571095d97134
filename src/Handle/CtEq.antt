-- ===== src/Handle/CtEq.antt =====
-- The constant-time comparison of src/backend/nfs/handle.rs.
use anymount.Prelude.{ℕ, ◌≡◌, ◌↔◌, refl, ap₂, true, List, [], ◌∷◌, length, arith}
use anymount.Prelude.{bit_or, bit_xor}
use anymount.Prelude.Bits.{bit_or-eq-zero, bit_xor-eq-zero, bit_xor_self}
use anymount.Handle.Defs.{diff_loop, ct_eq}

-- The accumulator never goes back to 0.
diff_loop-eq-zero :
    (d : ℕ) (xs ys : List ℕ) → length xs ≡ length ys → diff_loop d xs ys ≡ 0 → (d ≡ 0) × (xs ≡ ys)
unfolding diff_loop
diff_loop-eq-zero d [] [] e h = (h, refl)
diff_loop-eq-zero d [] (y ∷ ys) e h = absurd (omega arith)
diff_loop-eq-zero d (x ∷ xs) [] e h = absurd (omega arith)
diff_loop-eq-zero d (x ∷ xs) (y ∷ ys) e h =
    let (z, tails) = diff_loop-eq-zero (bit_or d (bit_xor x y)) xs ys (omega arith) h in
    let (d0, x0) = bit_or-eq-zero d (bit_xor x y) z in (d0, ap₂ ◌∷◌ (bit_xor-eq-zero x y x0) tails)

diff_loop_self : (xs : List ℕ) → diff_loop 0 xs xs ≡ 0
unfolding diff_loop
diff_loop_self [] = refl
diff_loop_self (x ∷ xs) = rw bit_xor_self (diff_loop_self xs)

-- `ct_eq` answers true exactly on equal byte strings, of whatever lengths.
pub ct_eq_iff : (a b : List ℕ) → (ct_eq a b ≡ true) ↔ (a ≡ b)
unfolding ct_eq
ct_eq_iff a b =
    (λ h. ground (arith, diff_loop-eq-zero 0 a b), λ h. rw h (ground (arith, diff_loop_self b)))
