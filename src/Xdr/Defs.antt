-- ===== src/Xdr/Defs.antt =====
-- src/backend/nfs/xdr.rs: `Reader` and `Writer`.
use anymount.Prelude.{ℕ, ◌+◌, ◌-◌, ◌%◌, ◌^◌, Bool, not, ◌&&◌, Option, none, some}
use anymount.Prelude.{List, [], ◌++◌, length, take, drop, replicate, ltb, leb, ◌==◌}
use anymount.Prelude.{if◌then◌else◌, to_be_bytes, from_be_bytes}
use anymount.Types.{OsStr}

pub record Reader : Type 0 where
  pub buf : List ℕ
  pub pos : ℕ

-- What a method of `&mut Reader` returns.
abbrev pub Read : Type 0 → Type 0
Read A = Reader → Option A × Reader

abbrev pub pure : {A : Type 0} → A → Read A
pure a r = (some a, r)

abbrev pub fail : {A : Type 0} → Read A
fail r = (none, r)

-- `let Some(a) = m else { e }; k`, and the `?` operator as its case.
abbrev pub let_some {ℓ} :
    {A : Type 0} {B : Type ℓ} → Option A × Reader → (Reader → B) → (A → Reader → B) → B
let_some (none, r) e k = e r
let_some (some a, r) e k = k a r

infixl 5 ◌>>=◌ ◌>>◌
abbrev pub ◌>>=◌ : {A B : Type 0} → Read A → (A → Read B) → Read B
◌>>=◌ m f r = let_some (m r) (λ r'. (none, r')) f

abbrev pub ◌>>◌ : {A B : Type 0} → Read A → Read B → Read B
m >> k = m >>= λ _. k

unfoldable pub new_reader : List ℕ → Reader
new_reader buf = record { buf = buf; pos = 0 }

-- `Reader::take`: the sum may not overflow a usize, and the slice must lie in the buffer.
unfoldable pub take_bytes : ℕ → Read (List ℕ)
take_bytes n r =
    let stop = r.pos + n in
    if ltb stop (2 ^ 64) && leb stop (length r.buf)
    then (some (take n (drop r.pos r.buf)), record r { pos = stop })
    else (none, r)

unfoldable pub read_u32 : Read ℕ
read_u32 = do b ← take_bytes 4; pure (from_be_bytes b)

unfoldable pub read_u64 : Read ℕ
read_u64 = do b ← take_bytes 8; pure (from_be_bytes b)

unfoldable pub read_bool : Read Bool
read_bool = do v ← read_u32; pure (not (v == 0))

unfoldable pub read_opaque_fixed : ℕ → Read (List ℕ)
read_opaque_fixed n = take_bytes n

unfoldable pub pad_len : ℕ → ℕ
pad_len len = (4 - len % 4) % 4

unfoldable pub read_opaque_var : ℕ → Read (List ℕ)
read_opaque_var max = do
  len ← read_u32
  (if ltb max len
      then fail
      else do data_bytes ← take_bytes len; take_bytes (pad_len len); pure data_bytes)

unfoldable pub read_string : ℕ → Read OsStr
read_string max = read_opaque_var max

unfoldable pub skip : ℕ → Read (Unit {0})
skip n = do take_bytes n; pure tt

unfoldable pub skip_opaque_auth : Read (Unit {0})
skip_opaque_auth = do
  flavor ← read_u32
  len ← read_u32
  (if ltb 400 len then fail else do skip len; skip (pad_len len))

-- `Writer` has one field, its bytes.
abbrev pub Writer : Type 0
Writer = List ℕ

abbrev pub new_writer : Writer
new_writer = []

unfoldable pub write_u32 : ℕ → Writer → Writer
write_u32 v w = w ++ to_be_bytes 4 v

unfoldable pub write_u64 : ℕ → Writer → Writer
write_u64 v w = w ++ to_be_bytes 8 v

unfoldable pub write_bool : Bool → Writer → Writer
write_bool v w = write_u32 (if v then 1 else 0) w

unfoldable pub write_opaque_fixed : List ℕ → Writer → Writer
write_opaque_fixed bytes w = (w ++ bytes) ++ replicate ((4 - length bytes % 4) % 4) 0

unfoldable pub write_opaque_var : List ℕ → Writer → Writer
write_opaque_var bytes w = write_opaque_fixed bytes (write_u32 (length bytes % 2 ^ 32) w)

unfoldable pub write_string : OsStr → Writer → Writer
write_string s w = write_opaque_var s w

unfoldable pub extend_from : Writer → Writer → Writer
extend_from other w = w ++ other
