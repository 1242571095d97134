-- ===== src/MountProto/Mnt.antt =====
-- Which path MNT of src/backend/nfs/mount_proto.rs answers with the root handle.
use anymount.Prelude.{ℕ, ◌≡◌, ◌↔◌, true, IsByte, refl, ap, ◌∙◌, some, List, [], ◌∷◌, ◌++◌}
use anymount.Prelude.{
  length, ◌==◌, Bool-cases, Option-cases, inl, inr, arith, ◌|>◌, ◌≢◌, All, ==_iff, ==_refl,
}
use anymount.Types.{root_ino}
use anymount.Xdr.Writes.{length-write_u32, length-write_opaque_var}
use anymount.Handle.{ct_eq}
use anymount.Handle.CtEq.{ct_eq_iff}
use anymount.Handle.Export.{IsLowerHex, export_from_secret_shape}
use anymount.Xdr.{write_u32, write_opaque_var, new_writer}
use anymount.Handle.{FileHandle3, encode, ExportSecret, matches, export_from_secret}
use anymount.Rpc.{ProcOutcome, success_with}
use anymount.MountProto.Defs.{mnt_path, mnt_segment, refuse, mnt3_ok, mnt3err_noent, mnt3err_acces}
use anymount.MountProto.Defs.{
  strip_prefix, first_segment, export_prefix, is_utf8, all_hexdigits, is_ascii_hexdigit,
}

strip_prefix-append : (p s : List ℕ) → strip_prefix p (p ++ s) ≡ some s
unfolding strip_prefix
strip_prefix-append [] s = refl
strip_prefix-append (b ∷ p) s = rw (==_refl b) (strip_prefix-append p s)

strip_prefix-some : (p s rest : List ℕ) → strip_prefix p s ≡ some rest → s ≡ p ++ rest
unfolding strip_prefix
strip_prefix-some [] s rest h = ground arith
strip_prefix-some (b ∷ p) [] rest h = ground arith
strip_prefix-some (b ∷ p) (c ∷ s) rest h = ground (arith, ==_iff b c, strip_prefix-some p s rest)

-- What may stand behind the segment that is checked: nothing, or a label behind a slash.
unfoldable pub AtSlash : List ℕ → Type 0
AtSlash [] = Unit {0}
AtSlash (b ∷ bs) = b ≡ b'/'

first_segment_split :
    (rest : List ℕ) → (label : List ℕ) × (rest ≡ first_segment rest ++ label) × AtSlash label
unfolding first_segment AtSlash
first_segment_split [] = ([], refl, tt)
first_segment_split (b ∷ bs) = elim (Bool-cases (b == b'/')) [
  | inl h ↦ (b ∷ bs, rw h, (==_iff b b'/').0 h)
  | inr h ↦
      (let ih = first_segment_split bs in (ih.0, rw h (ap (λ (x : List ℕ). b ∷ x) ih.1), ih.2))
]

first_segment-append :
    (segment label : List ℕ)
    → All (λ (b : ℕ). b ≢ b'/') segment
    → AtSlash label
    → first_segment (segment ++ label) ≡ segment
unfolding first_segment AtSlash
first_segment-append [] [] a h = refl
first_segment-append [] (b ∷ bs) a h = rw h
first_segment-append (b ∷ segment) label a h =
    ground (arith, ==_iff b b'/', first_segment-append segment label a.1 h)

-- The answer that carries the root handle.
abbrev pub granted : FileHandle3 → ProcOutcome
granted handle = success_with (
    new_writer
    |> write_u32 mnt3_ok
    |> write_opaque_var (encode handle root_ino)
    |> write_u32 1
    |> write_u32 1)

abbrev results_len : ProcOutcome → ℕ
results_len (success_with w) = length w
results_len o = 0

refuse-granted : (stat : ℕ) (handle : FileHandle3) → refuse stat ≢ granted handle
refuse-granted stat handle e =
    let id' = encode handle root_ino in
    let v = write_opaque_var id' (write_u32 mnt3_ok new_writer) in
    let same : length (write_u32 stat new_writer) ≡ length (write_u32 1 (write_u32 1 v)) =
      ap results_len e in
    omega (
      arith,
      length-write_u32 stat new_writer,
      length-write_u32 mnt3_ok new_writer,
      length-write_opaque_var id' (write_u32 mnt3_ok new_writer),
      length-write_u32 1 v,
      length-write_u32 1 (write_u32 1 v),
    )

mnt_segment-granted :
    (e : ExportSecret) (handle : FileHandle3) (hex : List ℕ)
    → mnt_segment e handle hex ≡ granted handle
    → hex ≡ e.hex
unfolding mnt_segment matches
mnt_segment-granted e handle hex h = elim (Bool-cases (ct_eq hex e.hex)) [
  | inl t ↦ (ct_eq_iff hex e.hex).0 t
  | inr f ↦ ground (arith, refuse-granted mnt3err_acces handle, refuse-granted mnt3err_noent handle)
]

-- A path that is granted is of this form.
abbrev pub Named : ExportSecret → List ℕ → Type 0
Named e path =
    (is_utf8 path ≡ true)
    × ((label : List ℕ) × (path ≡ export_prefix ++ (e.hex ++ label)) × AtSlash label)

granted-Named :
    (e : ExportSecret) (handle : FileHandle3) (path : List ℕ)
    → mnt_path e handle path ≡ granted handle
    → Named e path
unfolding mnt_path
granted-Named e handle path h = elim (Bool-cases (is_utf8 path)) [
  | inr bad ↦ absurd (refuse-granted mnt3err_noent handle (rw bad at h))
  | inl utf8 ↦ elim (Option-cases (strip_prefix export_prefix path)) [
    | inl none_left ↦ absurd (refuse-granted mnt3err_noent handle (rw (utf8, none_left) at h))
    | inr (rest, left) ↦
        (let whole = strip_prefix-some export_prefix path rest left in
          let split = first_segment_split rest in
          let same = mnt_segment-granted e handle (first_segment rest) (rw (utf8, left) at h) in
          (
            utf8,
            (
              split.0,
              whole
                  ∙ ap (λ (x : List ℕ). export_prefix ++ x)
                      (split.1 ∙ ap (λ (x : List ℕ). x ++ split.0) same),
              split.2,
            ),
          ))
  ]
]

-- The export value passes the checks of the segment.
hex_accepted :
    (hex : List ℕ) → All IsLowerHex hex → All (λ (b : ℕ). b ≢ b'/') hex × (all_hexdigits hex ≡ true)
unfolding all_hexdigits is_ascii_hexdigit
hex_accepted [] h = (tt, refl)
hex_accepted (b ∷ hex) h =
    let (rest, digits) = hex_accepted hex h.1 in
    let first = h.0 in ((ground (arith, first), rest), ground (arith, first, digits))

Named-granted :
    (e : ExportSecret) (handle : FileHandle3) (path : List ℕ)
    → length e.hex ≡ 32
    → All IsLowerHex e.hex
    → Named e path
    → mnt_path e handle path ≡ granted handle
unfolding mnt_path mnt_segment matches
Named-granted e handle path len lower (utf8, named) =
    let (label, form, slash) = named in
    let (no_slash, digits) = hex_accepted e.hex lower in
    let left : strip_prefix export_prefix path ≡ some (e.hex ++ label) =
      ap (strip_prefix export_prefix) form ∙ strip_prefix-append export_prefix (e.hex ++ label) in
    let match = (ct_eq_iff e.hex e.hex).1 refl in
    rw (utf8, left, first_segment-append e.hex label no_slash slash, len, digits, match)

-- MNT hands out the root handle exactly to the paths of valid UTF-8 that are `/export/`, this mount's
-- export value in lowercase, and nothing more or a label behind a slash.
pub mnt_iff :
    (secret : List ℕ) (handle : FileHandle3) (path : List ℕ)
    → length secret ≡ 16
    → All IsByte secret
    → (mnt_path (export_from_secret secret) handle path ≡ granted handle)
      ↔ Named (export_from_secret secret) path
mnt_iff secret handle path hl hb =
    let (len, lower) = export_from_secret_shape secret hl hb in
    (
      granted-Named (export_from_secret secret) handle path,
      Named-granted (export_from_secret secret) handle path len lower,
    )
