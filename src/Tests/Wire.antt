-- ===== src/Tests/Wire.antt =====
-- The wire formats, the handles and the errors at concrete inputs.
use anymount.Prelude.{ℕ, ◌<◌, ◌^◌, ◌≡◌, ◌↔◌, refl, true, List, [], ◌∷◌, some, err}
use anymount.Prelude.{to_be_bytes, arith, length, ◌++◌}
use anymount.Error.{
  FsError, not_found, context_of, Ntstatus, non_unix, io_error, ErrorKind, to_nfsstat3, to_ntstatus,
  to_errno, innermost,
}
use anymount.Error.Laws.{codes-innermost}
use anymount.Stream.{Stream, chunk, failed}
use anymount.Xdr.{
  Reader, read_u32, read_u64, read_bool, read_opaque_fixed, read_opaque_var, read_string,
}
use anymount.Xdr.{skip_opaque_auth}
use anymount.Xdr.Reads.{Advanced, reads-Advanced}
use anymount.Handle.{resolve, encode, ct_eq}
use anymount.Handle.CtEq.{ct_eq_iff}
use anymount.Handle.Laws.{resolve_iff}
use anymount.Rpc.{read_message}
use anymount.Rpc.Chunks.{bytes_of}
use anymount.Rpc.Timeout.{read_message_drops}
use anymount.Tests.Fixtures.{handle}

abbrev opaque : Reader
opaque = record { buf = 0 ∷ 0 ∷ 0 ∷ 1 ∷ 65 ∷ 0 ∷ 0 ∷ 0 ∷ []; pos = 0 }

abbrev left : List ℕ
left = 1 ∷ 2 ∷ []

abbrev right : List ℕ
right = 1 ∷ 3 ∷ []

ct_eq_iff_example : (ct_eq left right ≡ true) ↔ (left ≡ right)
ct_eq_iff_example = ct_eq_iff left right

-- Two bytes of a header word in two chunks.
abbrev two_bytes : Stream
two_bytes = chunk 128 [] ∷ chunk 0 [] ∷ []

two_arrived : length (bytes_of two_bytes) < 4
unfolding bytes_of
two_arrived = omega arith

read_message_drops_example :
    read_message (two_bytes ++ (failed (io_error ErrorKind.timed_out "t") ∷ chunk 1 (9 ∷ []) ∷ []))
    ≡ (err (io_error ErrorKind.timed_out "t"), chunk 1 (9 ∷ []) ∷ [])
read_message_drops_example =
    read_message_drops two_bytes (io_error ErrorKind.timed_out "t") (chunk 1 (9 ∷ []) ∷ []) tt
      two_arrived

abbrev windows : Ntstatus
windows = record {
  access_denied = 0xC000_0022;
  cloud_file_unsuccessful = 0xC000_CF0E;
  invalid_parameter = 0xC000_000D;
  not_supported = 0xC000_00BB;
  object_name_not_found = 0xC000_0034;
}

abbrev wrapped : FsError
wrapped = context_of (context_of not_found "stat") "open"

codes-innermost_example :
    (to_nfsstat3 wrapped ≡ to_nfsstat3 (innermost wrapped))
    × (to_ntstatus windows wrapped ≡ to_ntstatus windows (innermost wrapped))
    × (to_errno non_unix wrapped ≡ to_errno non_unix (innermost wrapped))
codes-innermost_example = codes-innermost windows non_unix wrapped

reads-Advanced_example :
    Advanced opaque (read_u32 opaque).1
    × Advanced opaque (read_u64 opaque).1
    × Advanced opaque (read_bool opaque).1
    × Advanced opaque (read_opaque_fixed 2 opaque).1
    × Advanced opaque (read_opaque_var 64 opaque).1
    × Advanced opaque (read_string 64 opaque).1
    × Advanced opaque (skip_opaque_auth opaque).1
reads-Advanced_example = reads-Advanced opaque 64 2 (omega arith)

abbrev letter : List ℕ
letter = 65 ∷ []

abbrev behind : Reader
behind = record { buf = 0 ∷ 0 ∷ 0 ∷ 1 ∷ 65 ∷ 0 ∷ 0 ∷ 0 ∷ []; pos = 8 }

resolve_iff_example :
    (resolve handle (encode handle 2) ≡ some 2)
    ↔ ((encode handle 2 ≡ encode handle 2) × (2 < 2 ^ 64))
unfolding encode to_be_bytes
resolve_iff_example = resolve_iff handle (encode handle 2) 2 refl (omega arith)

abbrev pieces : Stream
pieces = chunk 128 (0 ∷ []) ∷ chunk 0 (2 ∷ 8 ∷ []) ∷ chunk 9 (1 ∷ []) ∷ []
