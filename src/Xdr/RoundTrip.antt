-- ===== src/Xdr/RoundTrip.antt =====
-- The reader of src/backend/nfs/xdr.rs on what the writer wrote.
use anymount.Prelude.{
  ℕ, ◌+◌, ◌%◌, ◌^◌, ◌≤◌, ◌<◌, ◌≡◌, refl, ap, ◌∙◌, Bool, true, false, not, if◌then◌else◌, ◌==◌,
}
use anymount.Prelude.{Option, some, List, ◌++◌, append_assoc, arith}
use anymount.Prelude.{length, length-append, take-append_length, drop-append_length}
use anymount.Prelude.{replicate, length-replicate, to_be_bytes, length-to_be_bytes}
use anymount.Prelude.{from_be_bytes-to_be_bytes}
use anymount.Xdr.Defs.{Reader, Writer, take_bytes, read_u32, read_u64, read_bool, read_opaque_var}
use anymount.Xdr.Defs.{◌>>=◌, pad_len, write_u32, write_u64, write_bool}
use anymount.Xdr.Defs.{write_opaque_var}
use anymount.Xdr.Writes.{counted, write_opaque_var-counted, length-write_u32, length-write_u64}

-- A reader over `before ++ after` that stands between the two.
abbrev pub at : List ℕ → List ℕ → Reader
at before after = record { buf = before ++ after; pos = length before }

-- The whole buffer can be indexed by a usize.
abbrev pub Fits : Reader → Type 0
Fits r = length r.buf < 2 ^ 64

pub take_bytes-at :
    (before bytes after : List ℕ)
    → Fits (at before (bytes ++ after))
    → take_bytes (length bytes) (at before (bytes ++ after))
      ≡ (some bytes, at (before ++ bytes) after)
unfolding take_bytes
take_bytes-at before bytes after h = ground (
  arith,
  length-append before (bytes ++ after),
  length-append bytes after,
  length-append before bytes,
  drop-append_length before (bytes ++ after),
  take-append_length bytes after,
  append_assoc before bytes after,
)

pub Fits-next :
    (before bytes after : List ℕ)
    → Fits (at before (bytes ++ after))
    → Fits (at (before ++ bytes) after)
Fits-next before bytes after h = rw (append_assoc before bytes after) h

pub read_u32-at :
    (before after : List ℕ) (v : ℕ)
    → v < 2 ^ 32
    → Fits (at before (to_be_bytes 4 v ++ after))
    → read_u32 (at before (to_be_bytes 4 v ++ after))
      ≡ (some v, at (before ++ to_be_bytes 4 v) after)
unfolding read_u32
read_u32-at before after v hv h = ground (
  arith,
  length-to_be_bytes 4 v,
  from_be_bytes-to_be_bytes 4 v hv,
  take_bytes-at before (to_be_bytes 4 v) after h,
)

-- The word of a flag.
abbrev pub flag : Bool → ℕ
flag b = if b then 1 else 0

flag_word : (b : Bool) → (flag b < 2 ^ 32) × (not (flag b == 0) ≡ b)
flag_word true = (omega arith, refl)
flag_word false = (omega arith, refl)

pub read_bool-at :
    (before after : List ℕ) (b : Bool)
    → Fits (at before (to_be_bytes 4 (flag b) ++ after))
    → read_bool (at before (to_be_bytes 4 (flag b) ++ after))
      ≡ (some b, at (before ++ to_be_bytes 4 (flag b)) after)
unfolding read_bool
read_bool-at before after b fits =
    rw (◌>>=◌, read_u32-at before after (flag b) (flag_word b).0 fits, (flag_word b).1)

pub read_u64-at :
    (before after : List ℕ) (v : ℕ)
    → v < 2 ^ 64
    → Fits (at before (to_be_bytes 8 v ++ after))
    → read_u64 (at before (to_be_bytes 8 v ++ after))
      ≡ (some v, at (before ++ to_be_bytes 8 v) after)
unfolding read_u64
read_u64-at before after v hv h = ground (
  arith,
  length-to_be_bytes 8 v,
  from_be_bytes-to_be_bytes 8 v hv,
  take_bytes-at before (to_be_bytes 8 v) after h,
)

-- The same, with the word, the bytes and the padding of the `opaque<>` apart.
opaque_parts :
    (before after bytes pad : List ℕ) (max : ℕ)
    → length bytes ≤ max
    → max < 2 ^ 32
    → length pad ≡ pad_len (length bytes)
    → let word = to_be_bytes 4 (length bytes % 2 ^ 32) in
      Fits (at before (word ++ (bytes ++ (pad ++ after))))
      → read_opaque_var max (at before (word ++ (bytes ++ (pad ++ after))))
        ≡ (some bytes, at (((before ++ word) ++ bytes) ++ pad) after)
unfolding read_opaque_var
opaque_parts before after bytes pad max hb hm hp h =
    let word : List ℕ = to_be_bytes 4 (length bytes % 2 ^ 32) in
    let h1 : Fits (at (before ++ word) (bytes ++ (pad ++ after))) =
      rw (append_assoc before word (bytes ++ (pad ++ after))) h in
    let h2 : Fits (at ((before ++ word) ++ bytes) (pad ++ after)) =
      rw (append_assoc (before ++ word) bytes (pad ++ after)) h1 in
    ground (
      arith,
      read_u32-at before (bytes ++ (pad ++ after)) (length bytes % 2 ^ 32),
      take_bytes-at (before ++ word) bytes (pad ++ after) h1,
      take_bytes-at ((before ++ word) ++ bytes) pad after h2,
    )

pub read_opaque_var-at :
    (before after bytes : List ℕ) (max : ℕ)
    → length bytes ≤ max
    → max < 2 ^ 32
    → Fits (at before (counted bytes ++ after))
    → read_opaque_var max (at before (counted bytes ++ after))
      ≡ (some bytes, at (before ++ counted bytes) after)
read_opaque_var-at before after bytes max hb hm h =
    let word : List ℕ = to_be_bytes 4 (length bytes % 2 ^ 32) in
    let pad : List ℕ = replicate (pad_len (length bytes)) 0 in
    let split : counted bytes ++ after ≡ word ++ (bytes ++ (pad ++ after)) =
      append_assoc word (bytes ++ pad) after ∙ ap (◌++◌ word) (append_assoc bytes pad after) in
    let join : ((before ++ word) ++ bytes) ++ pad ≡ before ++ counted bytes =
      append_assoc (before ++ word) bytes pad ∙ append_assoc before word (bytes ++ pad) in
    rw (split, ← join)
      (opaque_parts before after bytes pad max hb hm (length-replicate _ 0) (rw split at h))

-- The reader that stands behind what `w` holds, in the buffer `buf`.
abbrev pub cursor : Writer → List ℕ → Reader
cursor w buf = record { buf = buf; pos = length w }

module _ {A : Type 0} (m : Reader → Option A × Reader) (a : A) (enc : List ℕ) where
  written :
      ((before after : List ℕ)
        → Fits (at before (enc ++ after))
        → m (at before (enc ++ after)) ≡ (some a, at (before ++ enc) after))
      → (w w' : Writer) (after : List ℕ) → w' ≡ w ++ enc
      → Fits (cursor w (w' ++ after))
      → m (cursor w (w' ++ after)) ≡ (some a, cursor w' (w' ++ after))
  written law w w' after e h =
      rw (e, append_assoc w enc after)
        (rw (append_assoc w enc after) at (law w after (rw (e, append_assoc w enc after) at h)))

word_back :
    (w after : Writer) (v : ℕ)
    → v < 2 ^ 32
    → length w + 8 + length after < 2 ^ 64
    → read_u32 (cursor w (write_u32 v w ++ after))
      ≡ (some v, cursor (write_u32 v w) (write_u32 v w ++ after))
word_back w after v hv h =
    written read_u32 v (to_be_bytes 4 v) (λ before behind. read_u32-at before behind v hv) w
      (write_u32 v w) after (unfold write_u32 in refl)
      (omega (arith, length-append (write_u32 v w) after, length-write_u32 v w))

flag_back :
    (w after : Writer) (b : Bool)
    → length w + 8 + length after < 2 ^ 64
    → read_bool (cursor w (write_bool b w ++ after))
      ≡ (some b, cursor (write_bool b w) (write_bool b w ++ after))
unfolding read_bool write_bool
flag_back w after true h = rw (word_back w after 1 (omega arith) h)
flag_back w after false h = rw (word_back w after 0 (omega arith) h)

-- A number or a flag read where it was written is the one written, and the cursor then stands
-- behind it, whatever precedes and follows.
pub read-write_word :
    (w after : Writer) (v u : ℕ) (b : Bool)
    → v < 2 ^ 32
    → u < 2 ^ 64
    → length w + 8 + length after < 2 ^ 64
    → (read_u32 (cursor w (write_u32 v w ++ after))
        ≡ (some v, cursor (write_u32 v w) (write_u32 v w ++ after)))
      × (read_u64 (cursor w (write_u64 u w ++ after))
          ≡ (some u, cursor (write_u64 u w) (write_u64 u w ++ after)))
      × (read_bool (cursor w (write_bool b w ++ after))
          ≡ (some b, cursor (write_bool b w) (write_bool b w ++ after)))
read-write_word w after v u b hv hu h = (
  word_back w after v hv h,
  written read_u64 u (to_be_bytes 8 u) (λ before behind. read_u64-at before behind u hu) w
      (write_u64 u w) after (unfold write_u64 in refl)
      (omega (arith, length-append (write_u64 u w) after, length-write_u64 u w)),
  flag_back w after b h,
)

-- An `opaque<max>` read where it was written is the one written, if it is within the limit, and
-- the cursor then stands behind its padding.
pub read-write_opaque_var :
    (w after : Writer) (bytes : List ℕ) (max : ℕ)
    → length bytes ≤ max
    → max < 2 ^ 32
    → length (write_opaque_var bytes w) + length after < 2 ^ 64
    → read_opaque_var max (cursor w (write_opaque_var bytes w ++ after))
      ≡ (some bytes, cursor (write_opaque_var bytes w) (write_opaque_var bytes w ++ after))
read-write_opaque_var w after bytes max hb hm h =
    written (read_opaque_var max) bytes (counted bytes)
      (λ before behind. read_opaque_var-at before behind bytes max hb hm) w
      (write_opaque_var bytes w) after (write_opaque_var-counted bytes w)
      (omega (arith, length-append (write_opaque_var bytes w) after))
