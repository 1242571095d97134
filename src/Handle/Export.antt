-- ===== src/Handle/Export.antt =====
-- The export value: its text, and who matches it.
use anymount.Prelude.{ℕ, ◌*◌, ◌/◌, ◌%◌, ◌<◌, ◌≡◌, ◌↔◌, refl, ap, true}
use anymount.Prelude.{◌&&◌, ◌||◌, leb, List, [], ◌∷◌, length, All, IsByte, arith}
use anymount.Handle.Defs.{hex_digit, to_hex, export_from_secret, matches}
use anymount.Handle.CtEq.{ct_eq_iff}

pub length-to_hex : (bs : List ℕ) → length (to_hex bs) ≡ 2 * length bs
unfolding to_hex
length-to_hex [] = omega arith
length-to_hex (b ∷ bs) = omega (arith, length-to_hex bs)

-- A lowercase hexadecimal digit.
abbrev pub IsLowerHex : ℕ → Type 0
IsLowerHex c = ((leb b'0' c && leb c b'9') || (leb b'a' c && leb c b'f')) ≡ true

to_hex-IsLowerHex : (bs : List ℕ) → All IsByte bs → All IsLowerHex (to_hex bs)
unfolding to_hex hex_digit
to_hex-IsLowerHex [] h = tt
to_hex-IsLowerHex (b ∷ bs) h = (ground arith, (ground arith, to_hex-IsLowerHex bs h.1))

hex_digit_inj : (c d : ℕ) → c < 16 → d < 16 → hex_digit c ≡ hex_digit d → c ≡ d
unfolding hex_digit
hex_digit_inj c d hc hd e = ground arith

to_hex_inj : (xs ys : List ℕ) → All IsByte xs → All IsByte ys → to_hex xs ≡ to_hex ys → xs ≡ ys
unfolding to_hex
to_hex_inj [] [] hx hy e = refl
to_hex_inj [] (y ∷ ys) hx hy e = cc
to_hex_inj (x ∷ xs) [] hx hy e = cc
to_hex_inj (x ∷ xs) (y ∷ ys) hx hy e = ground (
  arith,
  hex_digit_inj (x / 16) (y / 16),
  hex_digit_inj (x % 16) (y % 16),
  to_hex_inj xs ys hx.1 hy.1,
)

-- The export value of a 16-byte secret is 32 lowercase hexadecimal digits.
pub export_from_secret_shape :
    (secret : List ℕ)
    → length secret ≡ 16
    → All IsByte secret
    → (length (export_from_secret secret).hex ≡ 32) × All IsLowerHex (export_from_secret secret).hex
unfolding export_from_secret
export_from_secret_shape secret hl hb =
    (omega (arith, length-to_hex secret), to_hex-IsLowerHex secret hb)

-- The text of one secret matches the export value of another exactly when they are the same
-- secret.
pub matches-export_iff :
    (s t : List ℕ)
    → All IsByte s
    → All IsByte t
    → (matches (export_from_secret s) (export_from_secret t).hex ≡ true) ↔ (t ≡ s)
unfolding matches export_from_secret
matches-export_iff s t hs ht = (
  λ h. to_hex_inj t s ht hs ((ct_eq_iff (to_hex t) (to_hex s)).0 h),
  λ e. (ct_eq_iff (to_hex t) (to_hex s)).1 (ap to_hex e),
)
