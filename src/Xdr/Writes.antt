-- ===== src/Xdr/Writes.antt =====
-- What each method of `Writer` appends, and how long that is.
use anymount.Prelude.{ℕ, ◌+◌, ◌-◌, ◌%◌, ◌^◌, ◌≡◌, ap, ◌∙◌, Bool, List, ◌++◌}
use anymount.Prelude.{length, replicate, length-append, length-replicate, append_assoc, arith}
use anymount.Prelude.{to_be_bytes, length-to_be_bytes}
use anymount.Xdr.Defs.{Writer, write_u32, write_u64, write_bool, write_opaque_fixed, pad_len}
use anymount.Xdr.Defs.{write_opaque_var, write_string}

-- The bytes of an `opaque` of known length, and of an `opaque<>` behind its length word.
abbrev pub padded : List ℕ → List ℕ
padded bytes = bytes ++ replicate (pad_len (length bytes)) 0

abbrev pub counted : List ℕ → List ℕ
counted bytes = to_be_bytes 4 (length bytes % 2 ^ 32) ++ padded bytes

pub length-padded :
    (bytes : List ℕ) → length (padded bytes) ≡ (length bytes + 3) - (length bytes + 3) % 4
unfolding pad_len
length-padded bytes =
    rw (length-append bytes (replicate ((4 - length bytes % 4) % 4) 0), length-replicate)
      (omega arith)

pub length-counted :
    (bytes : List ℕ) → length (counted bytes) ≡ 4 + ((length bytes + 3) - (length bytes + 3) % 4)
length-counted bytes =
    rw (length-append (to_be_bytes 4 (length bytes % 2 ^ 32)) (padded bytes), length-to_be_bytes)
      (omega (arith, length-padded bytes))

pub write_opaque_fixed-padded :
    (bytes : List ℕ) (w : Writer) → write_opaque_fixed bytes w ≡ w ++ padded bytes
unfolding write_opaque_fixed pad_len
write_opaque_fixed-padded bytes w = append_assoc w bytes _

pub write_opaque_var-counted :
    (bytes : List ℕ) (w : Writer) → write_opaque_var bytes w ≡ w ++ counted bytes
unfolding write_opaque_var write_u32
write_opaque_var-counted bytes w =
    write_opaque_fixed-padded bytes _ ∙ append_assoc w (to_be_bytes 4 (length bytes % 2 ^ 32)) _

pub length-write_u32 : (v : ℕ) (w : Writer) → length (write_u32 v w) ≡ length w + 4
unfolding write_u32
length-write_u32 v w = omega (arith, length-append w (to_be_bytes 4 v), length-to_be_bytes 4 v)

pub length-write_u64 : (v : ℕ) (w : Writer) → length (write_u64 v w) ≡ length w + 8
unfolding write_u64
length-write_u64 v w = omega (arith, length-append w (to_be_bytes 8 v), length-to_be_bytes 8 v)

pub length-write_bool : (v : Bool) (w : Writer) → length (write_bool v w) ≡ length w + 4
unfolding write_bool
length-write_bool v w = length-write_u32 _ w

pub length-write_opaque_fixed :
    (bytes : List ℕ) (w : Writer)
    → length (write_opaque_fixed bytes w) ≡ length w + ((length bytes + 3) - (length bytes + 3) % 4)
length-write_opaque_fixed bytes w =
    ap (λ (b : List ℕ). length b) (write_opaque_fixed-padded bytes w)
    ∙ omega (arith, length-append w (padded bytes), length-padded bytes)

pub length-write_opaque_var :
    (bytes : List ℕ) (w : Writer)
    → length (write_opaque_var bytes w)
      ≡ length w + 4 + ((length bytes + 3) - (length bytes + 3) % 4)
length-write_opaque_var bytes w =
    ap (λ (b : List ℕ). length b) (write_opaque_var-counted bytes w)
    ∙ omega (arith, length-append w (counted bytes), length-counted bytes)

abbrev pub IsAligned : Writer → Type 0
IsAligned w = length w % 4 ≡ 0

-- Every method of the writer keeps the buffer a whole number of four-byte units, whatever the
-- length of the bytes that it is given.
pub writes-IsAligned :
    (w : Writer) (v : ℕ) (b : Bool) (bytes : List ℕ)
    → IsAligned w
    → IsAligned (write_u32 v w)
      × IsAligned (write_u64 v w)
      × IsAligned (write_bool b w)
      × IsAligned (write_opaque_fixed bytes w)
      × IsAligned (write_opaque_var bytes w)
      × IsAligned (write_string bytes w)
unfolding write_string
writes-IsAligned w v b bytes h = omega (
  arith,
  length-write_u32 v w,
  length-write_u64 v w,
  length-write_bool b w,
  length-write_opaque_fixed bytes w,
  length-write_opaque_var bytes w,
)
