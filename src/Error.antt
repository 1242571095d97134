-- ===== src/Error.antt =====
-- src/error.rs: the error type that every backend shares, and its conversions.
-- An i32 is its 32-bit pattern. The numbers of `libc` and of the `windows` crate are parameters.
pub mod Laws
use Prim.Native.String.{◌++◌ as ◌<>◌}
use anymount.Prelude.{ℕ, String, Option, none, some, ◌==◌, if◌then◌else◌}
use mathlib.Core.Option.{get_or}

-- The kinds of `std::io::Error` that the crate names, and the rest.
pub data ErrorKind : Type 0 where
  not_found permission_denied invalid_input unsupported other_kind : ErrorKind
  unexpected_eof would_block timed_out interrupted : ErrorKind
  unnamed : ℕ → ErrorKind

pub record IoError : Type 0 where
  pub kind : ErrorKind
  pub raw_os_error : Option ℕ
  pub message : String

-- `io::Error::new`
abbrev pub io_error : ErrorKind → String → IoError
io_error k m = record { kind = k; raw_os_error = none; message = m }

pub data FsError : Type 0 where
  not_found permission_denied not_a_directory is_a_directory : FsError
  invalid_argument no_xattr read_only : FsError
  unsupported : String → FsError
  io : IoError → FsError
  other : String → FsError
  context_of : FsError → String → FsError

-- The `#[error("...")]` texts.
unfoldable pub to_string : FsError → String
to_string not_found = "no such file or directory"
to_string permission_denied = "permission denied"
to_string not_a_directory = "not a directory"
to_string is_a_directory = "is a directory"
to_string invalid_argument = "invalid argument"
to_string no_xattr = "no such extended attribute"
to_string read_only = "read-only filesystem"
to_string (unsupported what) = "operation not supported: " <> what
to_string (io e) = "i/o error: " <> e.message
to_string (other msg) = msg
to_string (context_of errno_as msg) = msg

unfoldable pub context : FsError → String → FsError
context e msg = context_of e msg

unfoldable pub to_nfsstat3 : FsError → ℕ
to_nfsstat3 not_found = 2
to_nfsstat3 permission_denied = 13
to_nfsstat3 not_a_directory = 20
to_nfsstat3 is_a_directory = 21
to_nfsstat3 invalid_argument = 22
to_nfsstat3 no_xattr = 10_004
to_nfsstat3 read_only = 30
to_nfsstat3 (unsupported what) = 10_004
to_nfsstat3 (io e) = 5
to_nfsstat3 (other msg) = 10_006
to_nfsstat3 (context_of errno_as msg) = to_nfsstat3 errno_as

-- The `STATUS_*` constants of `windows::Win32::Foundation`.
pub record Ntstatus : Type 0 where
  pub access_denied : ℕ
  pub cloud_file_unsuccessful : ℕ
  pub invalid_parameter : ℕ
  pub not_supported : ℕ
  pub object_name_not_found : ℕ

-- `windows::core::Error`, and its `From`; `E_ACCESSDENIED` is a parameter.
pub record WindowsError : Type 0 where
  pub code : ℕ
  pub message : String

unfoldable pub from_windows : ℕ → WindowsError → FsError
from_windows e_accessdenied e =
    if e.code == e_accessdenied then permission_denied else other e.message

unfoldable pub to_ntstatus : Ntstatus → FsError → ℕ
to_ntstatus nt not_found = nt.object_name_not_found
to_ntstatus nt permission_denied = nt.access_denied
to_ntstatus nt invalid_argument = nt.invalid_parameter
to_ntstatus nt (unsupported what) = nt.not_supported
to_ntstatus nt no_xattr = nt.not_supported
to_ntstatus nt not_a_directory = nt.cloud_file_unsuccessful
to_ntstatus nt is_a_directory = nt.cloud_file_unsuccessful
to_ntstatus nt read_only = nt.cloud_file_unsuccessful
to_ntstatus nt (io e) = nt.cloud_file_unsuccessful
to_ntstatus nt (other msg) = nt.cloud_file_unsuccessful
to_ntstatus nt (context_of errno_as msg) = to_ntstatus nt errno_as

-- The `E*` constants of `libc` on one target; `no_xattr` is ENODATA, ENOATTR or ENOTSUP.
pub record Libc : Type 0 where
  pub enoent : ℕ
  pub eacces : ℕ
  pub enotdir : ℕ
  pub eisdir : ℕ
  pub einval : ℕ
  pub enoxattr : ℕ
  pub erofs : ℕ
  pub enosys : ℕ
  pub eio : ℕ

-- Off Unix the source writes out Linux's numbers.
abbrev pub non_unix : Libc
non_unix = record {
  enoent = 2;
  eacces = 13;
  enotdir = 20;
  eisdir = 21;
  einval = 22;
  enoxattr = 61;
  erofs = 30;
  enosys = 38;
  eio = 5;
}

unfoldable pub to_errno : Libc → FsError → ℕ
to_errno c not_found = c.enoent
to_errno c permission_denied = c.eacces
to_errno c not_a_directory = c.enotdir
to_errno c is_a_directory = c.eisdir
to_errno c invalid_argument = c.einval
to_errno c no_xattr = c.enoxattr
to_errno c read_only = c.erofs
to_errno c (unsupported what) = c.enosys
to_errno c (io e) = get_or e.raw_os_error c.eio
to_errno c (other msg) = c.eio
to_errno c (context_of errno_as msg) = to_errno c errno_as

unfoldable pub innermost : FsError → FsError
innermost (context_of errno_as msg) = innermost errno_as
innermost e = e

unfoldable pub unwrap_io : FsError → IoError
unwrap_io (io inner) = inner
unwrap_io (context_of errno_as msg) = unwrap_io errno_as
unwrap_io e = io_error other_kind (to_string e)

-- `impl From<FsError> for io::Error`; `none` is the arm that returns the `io::Error` whole.
io_kind : FsError → Option ErrorKind
io_kind not_found = some not_found
io_kind permission_denied = some permission_denied
io_kind not_a_directory = some invalid_input
io_kind is_a_directory = some invalid_input
io_kind invalid_argument = some invalid_input
io_kind read_only = some permission_denied
io_kind (unsupported what) = some unsupported
io_kind no_xattr = some unsupported
io_kind (io e) = none
io_kind e = some other_kind

unfoldable pub to_io_error : FsError → IoError
unfolding io_kind innermost unwrap_io to_string
to_io_error e = elim (io_kind (innermost e)) [
  | none ↦ unwrap_io e
  | some kind ↦ io_error kind (to_string e)
]
