-- ===== src/NfsMount/Args.antt =====
-- src/backend/nfs/mount_args.rs. A text is its bytes; the timeout is its seconds and nanoseconds.
use anymount.Prelude.{
  ℕ, ◌+◌, ◌*◌, ◌/◌, ◌%◌, ◌^◌, bit_or, List, [], ◌∷◌, ◌++◌, length, if◌then◌else◌, ◌==◌, ◌|>◌,
}
use anymount.Xdr.{Writer, new_writer, write_u32, write_opaque_var, write_opaque_fixed}

abbrev pub argsversion_xdr : ℕ
argsversion_xdr = 88

abbrev pub xdrargs_version_0 : ℕ
xdrargs_version_0 = 0

abbrev pub mattr_bitmap_len : ℕ
mattr_bitmap_len = 2

abbrev pub mflag_bitmap_len : ℕ
mflag_bitmap_len = 1

abbrev pub header_len : ℕ
header_len = 7 * 4

abbrev pub mnt_rdonly : ℕ
mnt_rdonly = 1

-- `ticotsord`
abbrev pub socket_type_local : List ℕ
socket_type_local = b't' ∷ b'i' ∷ b'c' ∷ b'o' ∷ b't' ∷ b's' ∷ b'o' ∷ b'r' ∷ b'd' ∷ []

abbrev pub sun_path_max : ℕ
sun_path_max = 104

-- The modules `mattr` and `mflag`.
abbrev pub mattr_set : List ℕ
mattr_set = 0 ∷ 1 ∷ 14 ∷ 17 ∷ 18 ∷ 20 ∷ 21 ∷ 22 ∷ 23 ∷ 29 ∷ []

abbrev pub mflag_soft : ℕ
mflag_soft = 0

abbrev pub mflag_resvport : ℕ
mflag_resvport = 2

abbrev pub mflag_callumnt : ℕ
mflag_callumnt = 5

pub record LocalMountArgs : Type 0 where
  pub socket_path : List ℕ
  pub root_handle : List ℕ
  pub label : List ℕ
  pub timeout_secs : ℕ
  pub timeout_nanos : ℕ
  pub soft_retry_count : ℕ

unfoldable pub bit : ℕ → ℕ
bit n = 2 ^ n % 2 ^ 32

-- The two words of the bitmap; the loop sets a bit in one of them.
unfoldable pub bitmap_loop : List ℕ → ℕ × ℕ → ℕ × ℕ
bitmap_loop [] words = words
bitmap_loop (a ∷ attrs) (word0, word1) = bitmap_loop attrs (
    if a / 32 == 0
    then (bit_or word0 (bit (a % 32)), word1)
    else (word0, bit_or word1 (bit (a % 32))))

unfoldable pub attr_bitmap : ℕ × ℕ
attr_bitmap = bitmap_loop mattr_set (0, 0)

unfoldable pub mntfrom : LocalMountArgs → List ℕ
mntfrom args = args.socket_path ++ (b':' ∷ b'/' ∷ args.label)

unfoldable pub encode_values : LocalMountArgs → Writer
encode_values args =
    new_writer
    |> write_u32 mflag_bitmap_len
    |> write_u32 (bit_or (bit_or (bit mflag_soft) (bit mflag_resvport)) (bit mflag_callumnt))
    |> write_u32 mflag_bitmap_len
    |> write_u32 (bit mflag_soft)
    |> write_u32 3
    |> write_opaque_var socket_type_local
    |> write_u32 (args.timeout_secs % 2 ^ 32)
    |> write_u32 args.timeout_nanos
    |> write_u32 args.soft_retry_count
    |> write_opaque_var args.root_handle
    |> write_u32 1
    |> write_u32 1
    |> write_opaque_var args.socket_path
    |> write_u32 1
    |> write_opaque_var args.socket_path
    |> write_u32 0
    |> write_u32 1
    |> write_opaque_var args.label
    |> write_u32 0
    |> write_u32 mnt_rdonly
    |> write_opaque_var (mntfrom args)
    |> write_opaque_var args.socket_path

unfoldable pub encode : LocalMountArgs → List ℕ
encode args =
    let values = encode_values args in
    new_writer
    |> write_u32 argsversion_xdr
    |> write_u32 ((header_len + length values) % 2 ^ 32)
    |> write_u32 xdrargs_version_0
    |> write_u32 mattr_bitmap_len
    |> write_u32 attr_bitmap.0
    |> write_u32 attr_bitmap.1
    |> write_u32 (length values % 2 ^ 32)
    |> write_opaque_fixed values
