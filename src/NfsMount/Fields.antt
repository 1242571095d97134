-- ===== src/NfsMount/Fields.antt =====
-- A buffer of words and counted byte strings, as src/backend/nfs/xdr.rs writes one, field by field.
use anymount.Prelude.{
  ℕ, ◌+◌, ◌-◌, ◌%◌, ◌^◌, ◌≤◌, ◌<◌, ◌≡◌, refl, sym, ap, ◌∙◌, some, List, [], ◌∷◌, ◌++◌, length,
  arith,
}
use anymount.Prelude.{append_assoc, append-nil, length-append, All, to_be_bytes, length-to_be_bytes}
use anymount.Xdr.{Read, pure, ◌>>=◌, read_u32, read_opaque_var, Writer, write_u32, write_opaque_var}
use anymount.Xdr.Writes.{counted, length-counted, write_opaque_var-counted}
use anymount.Xdr.RoundTrip.{at, Fits, read_u32-at, read_opaque_var-at}

-- A field of the buffer, and its kind.
pub data Field : Type 0 where
  word : ℕ → Field
  opaque : List ℕ → Field

pub data Shape : Type 0 where
  a_word an_opaque : Shape

abbrev pub bytes_of : Field → List ℕ
bytes_of (word v) = to_be_bytes 4 v
bytes_of (opaque bytes) = counted bytes

unfoldable pub all_bytes : List Field → List ℕ
all_bytes [] = []
all_bytes (f ∷ fs) = bytes_of f ++ all_bytes fs

-- A field is within what its length word can say.
abbrev pub Sized : Field → Type 0
Sized (word v) = v < 2 ^ 32
Sized (opaque bytes) = length bytes < 2 ^ 32

abbrev pub shape_of : Field → Shape
shape_of (word v) = a_word
shape_of (opaque bytes) = an_opaque

unfoldable pub shapes_of : List Field → List Shape
shapes_of [] = []
shapes_of (f ∷ fs) = shape_of f ∷ shapes_of fs

-- A reader that takes the fields one by one.
unfoldable pub read_field : Shape → Read Field
read_field a_word = do v ← read_u32; pure (word v)
read_field an_opaque = do bytes ← read_opaque_var (2 ^ 32 - 1); pure (opaque bytes)

unfoldable pub read_fields : List Shape → Read (List Field)
read_fields [] = pure []
read_fields (k ∷ ks) = do f ← read_field k; fs ← read_fields ks; pure (f ∷ fs)

read_field-at :
    (f : Field) (before after : List ℕ)
    → Sized f
    → Fits (at before (bytes_of f ++ after))
    → read_field (shape_of f) (at before (bytes_of f ++ after))
      ≡ (some f, at (before ++ bytes_of f) after)
unfolding read_field
read_field-at (word v) before after h fits = rw (◌>>=◌, read_u32-at before after v h fits)
read_field-at (opaque bytes) before after h fits =
    rw (◌>>=◌, read_opaque_var-at before after bytes (2 ^ 32 - 1) (omega arith) (omega arith) fits)

pub read_fields-at :
    (fs : List Field) (before : List ℕ)
    → All Sized fs
    → length (before ++ all_bytes fs) < 2 ^ 64
    → read_fields (shapes_of fs) (at before (all_bytes fs))
      ≡ (some fs, at (before ++ all_bytes fs) [])
unfolding read_fields all_bytes shapes_of
read_fields-at [] before h fits =
    ap (λ (b : List ℕ). (some (let n : List Field = [] in n), at b [])) (sym (append-nil before))
read_fields-at (f ∷ fs) before (h, hs) fits =
    let same : before ++ (bytes_of f ++ all_bytes fs) ≡ (before ++ bytes_of f) ++ all_bytes fs =
      sym (append_assoc before (bytes_of f) (all_bytes fs)) in
    rw (◌>>=◌, read_field-at f before (all_bytes fs) h fits)
      (rw (read_fields-at fs (before ++ bytes_of f) hs (rw same at fits)) (rw same))

-- The writer that puts the fields one by one.
unfoldable pub write_fields : List Field → Writer → Writer
write_fields [] w = w
write_fields (word v ∷ fs) w = write_fields fs (write_u32 v w)
write_fields (opaque bytes ∷ fs) w = write_fields fs (write_opaque_var bytes w)

pub write_fields-all_bytes : (fs : List Field) (w : Writer) → write_fields fs w ≡ w ++ all_bytes fs
unfolding write_fields all_bytes
write_fields-all_bytes [] w = sym (append-nil w)
write_fields-all_bytes (word v ∷ fs) w =
    write_fields-all_bytes fs (write_u32 v w)
    ∙ unfold write_u32 in append_assoc w (to_be_bytes 4 v) (all_bytes fs)
write_fields-all_bytes (opaque bytes ∷ fs) w =
    write_fields-all_bytes fs (write_opaque_var bytes w)
    ∙ ap (λ (b : List ℕ). b ++ all_bytes fs) (write_opaque_var-counted bytes w)
    ∙ append_assoc w (counted bytes) (all_bytes fs)

pub length-all_bytes : (fs : List Field) → length (all_bytes fs) % 4 ≡ 0
unfolding all_bytes
length-all_bytes [] = refl
length-all_bytes (word v ∷ fs) = omega (
  arith,
  length-all_bytes fs,
  length-append (to_be_bytes 4 v) (all_bytes fs),
  length-to_be_bytes 4 v,
)
length-all_bytes (opaque bytes ∷ fs) =
    omega (
      arith,
      length-all_bytes fs,
      length-append (counted bytes) (all_bytes fs),
      length-counted bytes,
    )

abbrev pub room_of : Field → ℕ
room_of (word v) = 4
room_of (opaque bytes) = length bytes + 8

abbrev pub room : List Field → ℕ
room [] = 0
room (f ∷ fs) = room_of f + room fs

pub length-all_bytes-room : (fs : List Field) → length (all_bytes fs) ≤ room fs
unfolding all_bytes
length-all_bytes-room [] = omega arith
length-all_bytes-room (word v ∷ fs) = omega (
  arith,
  length-all_bytes-room fs,
  length-append (to_be_bytes 4 v) (all_bytes fs),
  length-to_be_bytes 4 v,
)
length-all_bytes-room (opaque bytes ∷ fs) = omega (
  arith,
  length-all_bytes-room fs,
  length-append (counted bytes) (all_bytes fs),
  length-counted bytes,
)

pub all_bytes-append : (fs gs : List Field) → all_bytes (fs ++ gs) ≡ all_bytes fs ++ all_bytes gs
unfolding all_bytes
all_bytes-append [] gs = refl
all_bytes-append (f ∷ fs) gs =
    ap (◌++◌ (bytes_of f)) (all_bytes-append fs gs)
    ∙ sym (append_assoc (bytes_of f) (all_bytes fs) (all_bytes gs))
