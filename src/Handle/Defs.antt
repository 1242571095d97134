-- ===== src/Handle/Defs.antt =====
-- src/backend/nfs/handle.rs
use anymount.Prelude.{ℕ, ◌+◌, ◌-◌, ◌/◌, ◌%◌, Bool, false, not, ◌||◌, Option, none, some}
use anymount.Prelude.{List, [], ◌∷◌, ◌++◌, length, take, drop, replicate, ltb, ◌==◌, if◌then◌else◌}
use anymount.Prelude.{bit_or, bit_xor, to_be_bytes, from_be_bytes}
use anymount.Types.{Ino}

abbrev pub encoded_len : ℕ
encoded_len = 24

abbrev pub cookieverf_value : List ℕ
cookieverf_value = replicate 8 0

-- The loop over `a.iter().zip(b.iter())`, which ends with the shorter list.
unfoldable pub diff_loop : ℕ → List ℕ → List ℕ → ℕ
diff_loop diff [] ys = diff
diff_loop diff (x ∷ xs) [] = diff
diff_loop diff (x ∷ xs) (y ∷ ys) = diff_loop (bit_or diff (bit_xor x y)) xs ys

unfoldable pub ct_eq : List ℕ → List ℕ → Bool
ct_eq a b = if not (length a == length b) then false else diff_loop 0 a b == 0

pub record FileHandle3 : Type 0 where
  pub secret : List ℕ

unfoldable pub from_secret : List ℕ → FileHandle3
from_secret secret = record { secret = secret }

-- The 16 bytes of the secret and the 8 of the inode fill the array of `encoded_len` bytes.
unfoldable pub encode : FileHandle3 → Ino → List ℕ
encode h ino = h.secret ++ to_be_bytes 8 ino

unfoldable pub resolve : FileHandle3 → List ℕ → Option Ino
resolve h bytes =
    if not (length bytes == encoded_len) || not (ct_eq (take 16 bytes) h.secret)
    then none
    else some (from_be_bytes (take 8 (drop 16 bytes)))

unfoldable pub cookieverf : FileHandle3 → List ℕ
cookieverf h = cookieverf_value

-- The text is its ASCII bytes.
pub record ExportSecret : Type 0 where
  pub hex : List ℕ

unfoldable pub hex_digit : ℕ → ℕ
hex_digit d = if ltb d 10 then b'0' + d else b'a' + (d - 10)

-- `format!("{b:02x}")` on each byte, collected.
unfoldable pub to_hex : List ℕ → List ℕ
to_hex [] = []
to_hex (b ∷ bs) = hex_digit (b / 16) ∷ hex_digit (b % 16) ∷ to_hex bs

unfoldable pub export_from_secret : List ℕ → ExportSecret
export_from_secret secret = record { hex = to_hex secret }

unfoldable pub matches : ExportSecret → List ℕ → Bool
matches e candidate = ct_eq candidate e.hex
