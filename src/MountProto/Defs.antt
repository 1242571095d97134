-- ===== src/MountProto/Defs.antt =====
-- src/backend/nfs/mount_proto.rs. Texts are their bytes.
use anymount.Prelude.{ℕ, ◌-◌, Bool, true, false, not, ◌&&◌, ◌||◌, Option, none, some, List, [], ◌∷◌}
use anymount.Prelude.{length, leb, ltb, ◌==◌, if◌then◌else◌, ◌|>◌}
use anymount.Types.{OsStr, root_ino}
use anymount.Xdr.{Reader, new_writer, let_some, read_string, write_u32, write_bool}
use anymount.Xdr.{write_opaque_var}
use anymount.Handle.{FileHandle3, encode, ExportSecret, matches}
use anymount.Rpc.{ProcOutcome, success_with, proc_unavail, garbage_args}

abbrev pub mnt3_ok : ℕ
mnt3_ok = 0

abbrev pub mnt3err_noent : ℕ
mnt3err_noent = 2

abbrev pub mnt3err_acces : ℕ
mnt3err_acces = 13

abbrev pub mntpathlen : ℕ
mntpathlen = 1024

-- `/export/`
abbrev pub export_prefix : List ℕ
export_prefix = b'/' ∷ b'e' ∷ b'x' ∷ b'p' ∷ b'o' ∷ b'r' ∷ b't' ∷ b'/' ∷ []

-- `OsStr::to_str` asks for valid UTF-8. While it is read, `need` continuation bytes are missing,
-- the first of them between `low` and `high`.
pub record Utf8 : Type 0 where
  pub need : ℕ
  pub low : ℕ
  pub high : ℕ

abbrev within : ℕ → ℕ → ℕ → Bool
within low high b = leb low b && leb b high

abbrev utf8_lead : ℕ → Option Utf8
utf8_lead b =
    if ltb b 0x80
    then some (record { need = 0; low = 0x80; high = 0xbf })
    else if within 0xc2 0xdf b
    then some (record { need = 1; low = 0x80; high = 0xbf })
    else if b == 0xe0
    then some (record { need = 2; low = 0xa0; high = 0xbf })
    else if b == 0xed
    then some (record { need = 2; low = 0x80; high = 0x9f })
    else if within 0xe1 0xef b
    then some (record { need = 2; low = 0x80; high = 0xbf })
    else if b == 0xf0
    then some (record { need = 3; low = 0x90; high = 0xbf })
    else if b == 0xf4
    then some (record { need = 3; low = 0x80; high = 0x8f })
    else if within 0xf1 0xf3 b
    then some (record { need = 3; low = 0x80; high = 0xbf })
    else none

abbrev utf8_next : Utf8 → ℕ → Option Utf8
utf8_next u b =
    if u.need == 0
    then utf8_lead b
    else if within u.low u.high b
    then some (record { need = u.need - 1; low = 0x80; high = 0xbf })
    else none

unfoldable pub utf8_from : Utf8 → List ℕ → Bool
utf8_from u [] = u.need == 0
utf8_from u (b ∷ bs) = elim (utf8_next u b) [ none ↦ false | some u' ↦ utf8_from u' bs ]

unfoldable pub is_utf8 : List ℕ → Bool
is_utf8 s = utf8_from (record { need = 0; low = 0x80; high = 0xbf }) s

-- `str::strip_prefix`
unfoldable pub strip_prefix : List ℕ → List ℕ → Option (List ℕ)
strip_prefix [] s = some s
strip_prefix (p ∷ ps) [] = none
strip_prefix (p ∷ ps) (b ∷ bs) = let rest = strip_prefix ps bs in if p == b then rest else none

-- `rest.split_once('/').map_or(rest, |(hex, _label)| hex)`
unfoldable pub first_segment : List ℕ → List ℕ
first_segment [] = []
first_segment (b ∷ bs) = let rest = first_segment bs in if b == b'/' then [] else b ∷ rest

unfoldable pub is_ascii_hexdigit : ℕ → Bool
is_ascii_hexdigit b =
    (leb b'0' b && leb b b'9') || ((leb b'a' b && leb b b'f') || (leb b'A' b && leb b b'F'))

unfoldable pub all_hexdigits : List ℕ → Bool
all_hexdigits [] = true
all_hexdigits (b ∷ bs) = is_ascii_hexdigit b && all_hexdigits bs

abbrev pub refuse : ℕ → ProcOutcome
refuse stat = success_with (new_writer |> write_u32 stat)

unfoldable pub mnt_segment : ExportSecret → FileHandle3 → List ℕ → ProcOutcome
mnt_segment export handle hex =
    if not (length hex == 32) || not (all_hexdigits hex)
    then refuse mnt3err_noent
    else if not (matches export hex)
    then refuse mnt3err_acces
    else success_with (
        new_writer
        |> write_u32 mnt3_ok
        |> write_opaque_var (encode handle root_ino)
        |> write_u32 1
        |> write_u32 1)

unfoldable pub mnt_path : ExportSecret → FileHandle3 → OsStr → ProcOutcome
mnt_path export handle dirpath =
    if not (is_utf8 dirpath)
    then refuse mnt3err_noent
    else elim (strip_prefix export_prefix dirpath) [
      | none ↦ refuse mnt3err_noent
      | some rest ↦ mnt_segment export handle (first_segment rest)
    ]

unfoldable pub mnt : ExportSecret → FileHandle3 → Reader → ProcOutcome
mnt export handle r =
    let_some (read_string mntpathlen r) (λ r. garbage_args)
      λ dirpath r. mnt_path export handle dirpath

unfoldable pub umnt : Reader → ProcOutcome
umnt r =
    let_some (read_string mntpathlen r) (λ r. garbage_args) λ dirpath r. success_with new_writer

unfoldable pub export_list : Reader → ProcOutcome
export_list r = success_with (new_writer |> write_bool false)

unfoldable pub dispatch : ℕ → Reader → ExportSecret → FileHandle3 → ProcOutcome
dispatch proc r export handle =
    if proc == 0
    then success_with new_writer
    else if proc == 1
    then mnt export handle r
    else if proc == 3
    then umnt r
    else if proc == 5
    then export_list r
    else proc_unavail
