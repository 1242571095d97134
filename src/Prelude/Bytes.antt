-- ===== src/Prelude/Bytes.antt =====
-- Rust's `to_be_bytes`, `to_le_bytes`, `from_be_bytes` and `from_le_bytes` on a width of `k` bytes.
use Prim.Native.Nat.{ℕ, zero, suc, ◌+◌, ◌*◌, ◌/◌, ◌%◌, ◌^◌, ◌<◌}
use mathlib.Core.Path.{◌≡◌, refl, ap, ◌∙◌}
use mathlib.Core.List.{List, [], ◌∷◌, reverse_aux, reverse, reverse-reverse}
use native.Mathlib.Nat.{pow-suc}
use native.Mathlib.Omega.{arith}
use anymount.Prelude.Lists.{length, All}

abbrev pub IsByte : ℕ → Type 0
IsByte b = b < 256

unfoldable pub to_le_bytes : ℕ → ℕ → List ℕ
to_le_bytes zero v = []
to_le_bytes (suc k) v = (v % 256) ∷ to_le_bytes k (v / 256)

unfoldable pub from_le_bytes : List ℕ → ℕ
from_le_bytes [] = 0
from_le_bytes (b ∷ bs) = b + 256 * from_le_bytes bs

unfoldable pub to_be_bytes : ℕ → ℕ → List ℕ
unfolding to_le_bytes
to_be_bytes k v = reverse (to_le_bytes k v)

unfoldable pub from_be_bytes : List ℕ → ℕ
unfolding from_le_bytes
from_be_bytes bs = from_le_bytes (reverse bs)

pub length-to_le_bytes : (k v : ℕ) → length (to_le_bytes k v) ≡ k
unfolding to_le_bytes
length-to_le_bytes zero v = refl
length-to_le_bytes (suc k) v = ap suc (length-to_le_bytes k (v / 256))

pub to_le_bytes-IsByte : (k v : ℕ) → All IsByte (to_le_bytes k v)
unfolding to_le_bytes
to_le_bytes-IsByte zero v = tt
to_le_bytes-IsByte (suc k) v = (omega arith, to_le_bytes-IsByte k (v / 256))

pub from_le_bytes-to_le_bytes : (k v : ℕ) → v < 256 ^ k → from_le_bytes (to_le_bytes k v) ≡ v
unfolding to_le_bytes from_le_bytes
from_le_bytes-to_le_bytes zero v h = omega arith
from_le_bytes-to_le_bytes (suc k) v h =
    omega (arith, from_le_bytes-to_le_bytes k (v / 256) (omega (arith, pow-suc 256 k)))

pub to_le_bytes-from_le_bytes :
    (bs : List ℕ) → All IsByte bs → to_le_bytes (length bs) (from_le_bytes bs) ≡ bs
unfolding to_le_bytes from_le_bytes
to_le_bytes-from_le_bytes [] h = refl
to_le_bytes-from_le_bytes (b ∷ bs) (hb, hbs) =
    let rest : ℕ = from_le_bytes bs in
    ground (arith, to_le_bytes-from_le_bytes bs hbs, low b rest, high b rest)
  where
    low : (b r : ℕ) → b < 256 → (b + 256 * r) % 256 ≡ b
    low b r h = omega arith

    high : (b r : ℕ) → b < 256 → (b + 256 * r) / 256 ≡ r
    high b r h = omega arith

pub from_be_bytes-to_be_bytes : (k v : ℕ) → v < 256 ^ k → from_be_bytes (to_be_bytes k v) ≡ v
from_be_bytes-to_be_bytes k v h =
    unfold from_be_bytes to_be_bytes in
    ap from_le_bytes (reverse-reverse (to_le_bytes k v)) ∙ from_le_bytes-to_le_bytes k v h

length-reverse_onto : (xs ys : List ℕ) → length (reverse_aux xs ys) ≡ length xs + length ys
length-reverse_onto [] ys = omega arith
length-reverse_onto (x ∷ xs) ys = omega (arith, length-reverse_onto xs (x ∷ ys))

pub length-to_be_bytes : (k v : ℕ) → length (to_be_bytes k v) ≡ k
unfolding to_be_bytes
length-to_be_bytes k v =
    omega (arith, length-reverse_onto (to_le_bytes k v) [], length-to_le_bytes k v)

All-reverse_onto {κ} :
    (P : ℕ → Type κ) (xs ys : List ℕ) → All P xs → All P ys → All P (reverse_aux xs ys)
All-reverse_onto P [] ys hx hy = hy
All-reverse_onto P (x ∷ xs) ys hx hy = All-reverse_onto P xs (x ∷ ys) hx.1 (hx.0, hy)

pub to_be_bytes-IsByte : (k v : ℕ) → All IsByte (to_be_bytes k v)
unfolding to_be_bytes
to_be_bytes-IsByte k v = All-reverse_onto IsByte (to_le_bytes k v) [] (to_le_bytes-IsByte k v) tt

pub to_be_bytes-from_be_bytes :
    (bs : List ℕ) → All IsByte bs → to_be_bytes (length bs) (from_be_bytes bs) ≡ bs
unfolding to_be_bytes from_be_bytes
to_be_bytes-from_be_bytes bs h =
    let e : length bs ≡ length (reverse bs) = omega (arith, length-reverse_onto bs []) in
    rw (e, to_le_bytes-from_le_bytes (reverse bs) (All-reverse_onto IsByte bs [] h tt))
      (reverse-reverse bs)

pub from_le_bytes-lt : (bs : List ℕ) → All IsByte bs → from_le_bytes bs < 256 ^ length bs
unfolding from_le_bytes
from_le_bytes-lt [] h = omega arith
from_le_bytes-lt (b ∷ bs) (hb, hbs) =
    omega (arith, from_le_bytes-lt bs hbs, pow-suc 256 (length bs))

pub from_be_bytes-lt : (bs : List ℕ) → All IsByte bs → from_be_bytes bs < 256 ^ length bs
unfolding from_be_bytes
from_be_bytes-lt bs h =
    let e : length (reverse bs) ≡ length bs = omega (arith, length-reverse_onto bs []) in
    rw e at (from_le_bytes-lt (reverse bs) (All-reverse_onto IsByte bs [] h tt))
