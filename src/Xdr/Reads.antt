-- ===== src/Xdr/Reads.antt =====
-- How the methods of `Reader` move the cursor, whatever the bytes are.
use anymount.Prelude.{
  ℕ, ◌+◌, ◌≤◌, ◌≡◌, refl, ap, Bool, true, false, ltb, if◌then◌else◌, Option, none, some, List,
  arith,
}
use anymount.Prelude.{length, take, drop, from_be_bytes, length-take, length-drop}
use anymount.Xdr.Defs.{Reader, Read, let_some, ◌>>=◌}
use anymount.Xdr.Defs.{take_bytes, read_u32, read_u64, read_bool, read_opaque_fixed, pad_len}
use anymount.Xdr.Defs.{read_opaque_var, read_string, skip, skip_opaque_auth}

-- The cursor stays inside the buffer.
abbrev pub InBounds : Reader → Type 0
InBounds r = r.pos ≤ length r.buf

-- The buffer is the same, and the cursor has not gone back and is not past the end.
abbrev pub Advanced : Reader → Reader → Type 0
Advanced r r' = (r'.buf ≡ r.buf) × (r.pos ≤ r'.pos) × (r'.pos ≤ length r.buf)

abbrev Advances : {A : Type 0} → Read A → Type 0
Advances m = (r : Reader) → InBounds r → Advanced r (m r).1

Advanced-trans : (r s t : Reader) → Advanced r s → Advanced s t → Advanced r t
Advanced-trans r s t p q = ground (arith, ap (λ (b : List ℕ). length b) p.0)

take_bytes-Advances : (n : ℕ) → Advances (take_bytes n)
unfolding take_bytes
take_bytes-Advances n r h = ground arith

>>=-Advances :
    {A B : Type 0} (m : Read A) (f : A → Read B)
    → Advances m
    → ((a : A) → Advances (f a))
    → Advances (m >>= f)
>>=-Advances {A} m f hm hf r h = go (m r) (hm r h)
  where
    go : (x : Option A × Reader) → Advanced r x.1 → Advanced r (let_some x (λ r'. (none, r')) f).1
    go (none, r') k = k
    go (some a, r') k =
        Advanced-trans r r' (f a r').1 k
          (hf a r' (omega (arith, k, ap (λ (b : List ℕ). length b) k.0)))

stay : (r : Reader) → InBounds r → Advanced r r
stay r h = (refl, omega arith, h)

if-Advances :
    {A : Type 0} (b : Bool) (m n : Read A) → Advances m → Advances n → Advances (if b then m else n)
if-Advances true m n hm hn = hm
if-Advances false m n hm hn = hn

read_u32-Advances : Advances read_u32
unfolding read_u32
read_u32-Advances = >>=-Advances (take_bytes 4) _ (take_bytes-Advances 4) (λ b. stay)

read_u64-Advances : Advances read_u64
unfolding read_u64
read_u64-Advances = >>=-Advances (take_bytes 8) _ (take_bytes-Advances 8) (λ b. stay)

read_bool-Advances : Advances read_bool
unfolding read_bool
read_bool-Advances = >>=-Advances read_u32 _ read_u32-Advances (λ v. stay)

read_opaque_var-Advances : (max : ℕ) → Advances (read_opaque_var max)
unfolding read_opaque_var
read_opaque_var-Advances max = >>=-Advances read_u32 _ read_u32-Advances λ len.
    if-Advances (ltb max len) _ _ stay (
      >>=-Advances (take_bytes len) _ (take_bytes-Advances len)
        λ bytes. >>=-Advances (take_bytes (pad_len len)) _ (take_bytes-Advances _) λ pad. stay)

skip-Advances : (n : ℕ) → Advances (skip n)
unfolding skip
skip-Advances n = >>=-Advances (take_bytes n) _ (take_bytes-Advances n) (λ b. stay)

skip_opaque_auth-Advances : Advances skip_opaque_auth
unfolding skip_opaque_auth
skip_opaque_auth-Advances = >>=-Advances read_u32 _ read_u32-Advances λ flavor.
    >>=-Advances read_u32 _ read_u32-Advances λ len.
      if-Advances (ltb 400 len) _ _ stay
        (>>=-Advances (skip len) _ (skip-Advances len) λ u. skip-Advances (pad_len len))

-- On any bytes and at any cursor inside the buffer, every method of the reader, failing or not,
-- leaves the buffer as it is, never moves the cursor back and never past the end.
pub reads-Advanced :
    (r : Reader) (max n : ℕ)
    → InBounds r
    → Advanced r (read_u32 r).1
      × Advanced r (read_u64 r).1
      × Advanced r (read_bool r).1
      × Advanced r (read_opaque_fixed n r).1
      × Advanced r (read_opaque_var max r).1
      × Advanced r (read_string max r).1
      × Advanced r (skip_opaque_auth r).1
unfolding read_opaque_fixed read_string
reads-Advanced r max n h = (
  read_u32-Advances r h,
  read_u64-Advances r h,
  read_bool-Advances r h,
  take_bytes-Advances n r h,
  read_opaque_var-Advances max r h,
  read_opaque_var-Advances max r h,
  skip_opaque_auth-Advances r h,
)

-- What an `opaque<max>` that was read is: its length is within the limit, its bytes stand in the
-- buffer behind a length word, and the cursor has passed the word, the bytes and the padding.
pub read_opaque_var_takes :
    (r : Reader) (max : ℕ) (bytes : List ℕ) (r' : Reader)
    → read_opaque_var max r ≡ (some bytes, r')
    → (length bytes ≤ max)
      × (bytes ≡ take (length bytes) (drop (r.pos + 4) r.buf))
      × (r'.pos ≡ r.pos + 4 + length bytes + pad_len (length bytes))
      × (r'.pos ≤ length r.buf)
unfolding read_opaque_var read_u32 take_bytes
read_opaque_var_takes r max bytes r' h =
    let len : ℕ = from_be_bytes (take 4 (drop r.pos r.buf)) in
    ground (arith, length-take len (drop (r.pos + 4) r.buf), length-drop (r.pos + 4) r.buf)
