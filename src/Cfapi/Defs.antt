-- ===== src/Cfapi/Defs.antt =====
-- src/backend/cfapi.rs: the callbacks. An i64 is its 64-bit pattern. What the platform is handed by
-- `CfExecute` is a list of operations beside the state of the filesystem; the result of the call is
-- only logged by the source, and so are the errors of `release`.
use anymount.Prelude.{ℕ, ◌+◌, ◌*◌, ◌/◌, ◌%◌, ◌^◌, Bool, Option, none, some}
use anymount.Prelude.{List, [], ◌∷◌, ◌++◌, ok, err, length, ltb, ◌==◌}
use anymount.Prelude.{if◌then◌else◌, to_le_bytes, from_le_bytes}
use anymount.Types.{
  Ino, root_ino, OsStr, FileKind, file, directory, SystemTime, since_epoch, before_epoch, FileAttr,
}
use anymount.Error.{invalid_argument, Ntstatus, to_ntstatus}
use anymount.Fs.{ReadOnlyFs, Step, pure, ◌>>=◌, ◌>>◌, FsResult}
use anymount.Readdir.{Sink, accepted, Entry, Emitted, emit, omit}

abbrev pub transfer_chunk : ℕ
transfer_chunk = 1024 * 1024

-- `CF_FS_METADATA`, its attributes as the two that are used.
pub data Attributes : Type 0 where
  attribute_directory attribute_readonly : Attributes

pub record FsMetadata : Type 0 where
  pub creation_time : ℕ
  pub last_access_time : ℕ
  pub last_write_time : ℕ
  pub change_time : ℕ
  pub file_attributes : Attributes
  pub file_size : ℕ

-- `CF_PLACEHOLDER_CREATE_INFO`, with what its pointers point at.
pub record CreateInfo : Type 0 where
  pub relative_file_name : List ℕ
  pub fs_metadata : FsMetadata
  pub file_identity : List ℕ

pub data Operation : Type 0 where
  transfer_data : List ℕ → ℕ → ℕ → ℕ → Operation
  transfer_placeholders : List CreateInfo → ℕ → Operation

-- `to_filetime`: 100 ns since 1601; the sum wraps as in a release build.
unfoldable pub to_filetime : SystemTime → ℕ
to_filetime (since_epoch secs nanos) =
    (116_444_736_000_000_000 + secs * 10_000_000 + nanos / 100) % 2 ^ 64
to_filetime (before_epoch secs nanos) = 0

abbrev pub attributes_of : FileKind → Attributes
attributes_of directory = attribute_directory
attributes_of file = attribute_readonly

unfoldable pub to_fs_metadata : FileAttr → FsMetadata
to_fs_metadata attr = record {
  creation_time = to_filetime attr.ctime;
  last_access_time = to_filetime attr.atime;
  last_write_time = to_filetime attr.mtime;
  change_time = to_filetime attr.ctime;
  file_attributes = attributes_of attr.kind;
  file_size = attr.size;
}

unfoldable pub to_create_info : List ℕ → List ℕ → FileAttr → CreateInfo
to_create_info name_wide id_bytes attr = record {
  relative_file_name = name_wide;
  fs_metadata = to_fs_metadata attr;
  file_identity = id_bytes;
}

-- A null pointer is an identity of no bytes.
unfoldable pub decode_ino : List ℕ → Option Ino
decode_ino identity = if length identity == 8 then some (from_le_bytes identity) else none

pub record PreparedEntry : Type 0 where
  pub identity : List ℕ
  pub name : List ℕ
  pub attr : FileAttr

unfoldable pub descriptors : List PreparedEntry → List CreateInfo
descriptors [] = []
descriptors (e ∷ es) = to_create_info e.name e.identity e.attr ∷ descriptors es

-- The sink of `list_placeholders`.
unfoldable pub push_entry : Entry → List (Ino × OsStr) → Sink × List (Ino × OsStr)
push_entry e listed = (accepted, listed ++ ((e.ino, e.name) ∷ []))

-- Signed `<` and `<= 0`.
unfoldable pub slt : ℕ → ℕ → Bool
slt a b = ltb ((a + 2 ^ 63) % 2 ^ 64) ((b + 2 ^ 63) % 2 ^ 64)

unfoldable pub is_positive : ℕ → Bool
is_positive a = slt 0 a

module _ (F : ReadOnlyFs) where
  -- The filesystem and the operations that the platform has been handed.
  abbrev pub World : Type 0
  World = F.State × List Operation

  abbrev pub lift : {A : Type 0} → Step F.State A → Step World A
  lift m (s, ops) = let (a, s') = m s in (a, (s', ops))

  abbrev pub execute : Operation → Step World (Unit {0})
  execute op (s, ops) = (tt, (s, ops ++ (op ∷ [])))

-- In UTF-16, as `encode_wide` of the platform gives it.
abbrev pub to_wide : (OsStr → List ℕ) → OsStr → List ℕ
to_wide encode_wide s = encode_wide s ++ (0 ∷ [])

module _ (F : ReadOnlyFs) (encode_wide : OsStr → List ℕ) (nt : Ntstatus) where
  -- The loop over the entries listed; one whose `getattr` fails is left out.
  unfoldable pub prepare : List (Ino × OsStr) → Step F.State (List PreparedEntry)
  prepare [] = pure []
  prepare ((ino, name) ∷ listed) = do
    attr ← F.getattr ino
    entries ← prepare listed
    (elim attr [
      | ok a ↦ pure (
          record { identity = to_le_bytes 8 ino; name = to_wide encode_wide name; attr = a }
          ∷ entries)
      | err e ↦ pure entries
    ])

  abbrev pub after_listing :
      Emitted (List (Ino × OsStr)) → Step F.State (Option (FsResult (List PreparedEntry)))
  after_listing (none, listed) = pure none
  after_listing (some (err e), listed) = pure (some (err e))
  after_listing (some (ok eof), listed) = do entries ← prepare listed; pure (some (ok entries))

  -- `fuel` is that of `emit`.
  unfoldable pub list_placeholders : ℕ → Ino → Step F.State (Option (FsResult (List PreparedEntry)))
  list_placeholders fuel dir = do
    out ← emit F (λ e t. pure (push_entry e t)) fuel dir 0 omit []
    after_listing out

  abbrev pub answer_listing :
      Option (FsResult (List PreparedEntry)) → Step (World F) (Option (Unit {0}))
  answer_listing none = pure none
  answer_listing (some (ok entries)) = do
    execute F (transfer_placeholders (descriptors entries) 0)
    pure (some tt)
  answer_listing (some (err e)) = do
    execute F (transfer_placeholders [] (to_ntstatus nt e))
    pure (some tt)

  unfoldable pub fetch_dir : ℕ → Option Ino → Step (World F) (Option (Unit {0}))
  fetch_dir fuel none = do
    execute F (transfer_placeholders [] (to_ntstatus nt invalid_argument))
    pure (some tt)
  fetch_dir fuel (some dir) = do
    listing ← lift F (list_placeholders fuel dir)
    answer_listing listing

  -- An empty identity is the root's; `none` when the fuel of `emit` has run out.
  unfoldable pub handle_fetch_placeholders : ℕ → List ℕ → Step (World F) (Option (Unit {0}))
  handle_fetch_placeholders fuel identity =
      fetch_dir fuel (if length identity == 0 then some root_ino else decode_ino identity)
