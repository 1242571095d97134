-- ===== src/Fuse/Defs.antt =====
-- src/backend/fuse.rs: the adapter, one function per callback. What a callback tells the kernel is a
-- value of `Reply`; a directory's buffer is `fuser`'s, so its `add` is a parameter.
use anymount.Prelude.{ℕ, ◌+◌, ◌*◌, ◌/◌, ◌%◌, ◌^◌, min, Bool, true, false, Option, none, some}
use anymount.Prelude.{
  List, [], ◌∷◌, ◌++◌, ok, err, length, take, replicate, ltb, ◌==◌, if◌then◌else◌,
}
use anymount.Types.{
  Ino, FileHandle, OsStr, FileKind, file, directory, SystemTime, unix_epoch, FileAttr, StatFs,
}
use anymount.Error.{FsError, Libc, to_errno}
use anymount.Fs.{ReadOnlyFs, Step, pure, ◌>>=◌, ◌>>◌, read_into}
use anymount.Readdir.{Sink, accepted, full, Entry, Emitted, emit, synthesize}

-- In seconds.
abbrev pub ttl : ℕ
ttl = 60

abbrev pub generation : ℕ
generation = 0

abbrev pub max_read : ℕ
max_read = 16 * 1024 * 1024

pub data FileType : Type 0 where
  regular_file directory_file : FileType

-- `fuser::FileAttr`
pub record FuserAttr : Type 0 where
  pub ino : Ino
  pub size : ℕ
  pub blocks : ℕ
  pub atime : SystemTime
  pub mtime : SystemTime
  pub ctime : SystemTime
  pub crtime : SystemTime
  pub kind : FileType
  pub perm : ℕ
  pub nlink : ℕ
  pub uid : ℕ
  pub gid : ℕ
  pub rdev : ℕ
  pub blksize : ℕ
  pub flags : ℕ

pub data Reply : Type 0 where
  reply_entry : ℕ → FuserAttr → ℕ → Reply
  reply_attr : ℕ → FuserAttr → Reply
  reply_opened : FileHandle → ℕ → Reply
  reply_data : List ℕ → Reply
  reply_statfs : StatFs → Reply
  reply_size : ℕ → Reply
  reply_ok : Reply
  reply_error : ℕ → Reply

unfoldable pub to_fuser_kind : FileKind → FileType
to_fuser_kind file = regular_file
to_fuser_kind directory = directory_file

-- `blocks` is `div_ceil(512)`.
unfoldable pub to_fuser_attr : FileAttr → FuserAttr
to_fuser_attr attr = record {
  ino = attr.ino;
  size = attr.size;
  blocks = (attr.size + 511) / 512;
  atime = attr.atime;
  mtime = attr.mtime;
  ctime = attr.ctime;
  crtime = unix_epoch;
  kind = to_fuser_kind attr.kind;
  perm = attr.perm;
  nlink = attr.nlink;
  uid = attr.uid;
  gid = attr.gid;
  rdev = 0;
  blksize = 512;
  flags = 0;
}

pub data XattrReply : Type 0 where
  size_only : ℕ → XattrReply
  whole too_large : XattrReply

unfoldable pub xattr_reply : ℕ → ℕ → XattrReply
xattr_reply len size =
    if size == 0 then size_only (len % 2 ^ 32) else if ltb size len then too_large else whole

abbrev pub answer_xattr : ℕ → List ℕ → XattrReply → Reply
answer_xattr erange bytes (size_only len) = reply_size len
answer_xattr erange bytes too_large = reply_error erange
answer_xattr erange bytes whole = reply_data bytes

unfoldable pub reply_xattr : ℕ → List ℕ → ℕ → Reply
reply_xattr erange bytes size = answer_xattr erange bytes (xattr_reply (length bytes) size)

unfoldable pub read_buffer_len : ℕ → ℕ
read_buffer_len size = min size max_read

-- The buffer of `listxattr`: each name and a zero byte.
unfoldable pub xattr_names : List OsStr → List ℕ
xattr_names [] = []
xattr_names (name ∷ names) = name ++ (0 ∷ xattr_names names)

-- `erange` is `Errno::ERANGE`.
module _ (F : ReadOnlyFs) (c : Libc) (erange : ℕ) where
  abbrev pub error : {A : Type 0} → FsError → Step A Reply
  error e = pure (reply_error (to_errno c e))

  unfoldable pub lookup : Ino → OsStr → Step F.State Reply
  lookup parent name = do
    found ← F.lookup parent name
    (elim found [
      | ok attr ↦ pure (reply_entry ttl (to_fuser_attr attr) generation)
      | err e ↦ error e
    ])

  unfoldable pub getattr : Ino → Step F.State Reply
  getattr ino = do
    found ← F.getattr ino
    (elim found [ ok attr ↦ pure (reply_attr ttl (to_fuser_attr attr)) | err e ↦ error e ])

  unfoldable pub open_file : Ino → Step F.State Reply
  open_file ino = do
    opened ← F.open_file ino
    (elim opened [ ok fh ↦ pure (reply_opened fh 0) | err e ↦ error e ])

  -- `truncate` keeps at most what the buffer has.
  unfoldable pub read : FileHandle → ℕ → ℕ → Step F.State Reply
  read fh offset size = do
    (n, buf) ← read_into F fh offset (replicate (read_buffer_len size) 0)
    (elim n [ ok n ↦ pure (reply_data (take (min n (length buf)) buf)) | err e ↦ error e ])

  unfoldable pub release : FileHandle → Step F.State Reply
  release fh = do F.release fh; pure reply_ok

  unfoldable pub forget : Ino → ℕ → Step F.State (Unit {0})
  forget ino nlookup = F.forget ino nlookup

  unfoldable pub statfs : Step F.State Reply
  statfs = do answer ← F.statfs; (elim answer [ ok s ↦ pure (reply_statfs s) | err e ↦ error e ])

  unfoldable pub listxattr : Ino → ℕ → Step F.State Reply
  listxattr ino size = do
    listed ← F.listxattr ino
    (elim listed [
      | ok names ↦ pure (reply_xattr erange (xattr_names names) size)
      | err e ↦ error e
    ])

  unfoldable pub getxattr : Ino → OsStr → ℕ → Step F.State Reply
  getxattr ino name size = do
    found ← F.getxattr ino name
    (elim found [ ok value ↦ pure (reply_xattr erange value size) | err e ↦ error e ])

-- The answer of `readdir`: the buffer, or an error's number.
pub data DirReply (B : Type 0) : Type 0 where
  listed : B → DirReply B
  failed : ℕ → DirReply B

-- `ReplyDirectory::add` is true if the entry did not fit.
abbrev pub sink_of : Bool → Sink
sink_of true = full
sink_of false = accepted

module _ {B : Type 0} (add : B → Ino → ℕ → FileType → OsStr → Bool × B) where
  unfoldable pub add_entry : Entry → B → Sink × B
  add_entry e reply =
      let (no_room, reply') = add reply e.ino e.cookie (to_fuser_kind e.kind) e.name in
      (sink_of no_room, reply')

module _ (F : ReadOnlyFs) (c : Libc) where
  abbrev pub answer_readdir : {B : Type 0} → Emitted B → Option (DirReply B)
  answer_readdir (none, reply) = none
  answer_readdir (some (ok eof), reply) = some (listed reply)
  answer_readdir (some (err e), reply) = some (failed (to_errno c e))

  -- `fuel` is that of `emit`.
  unfoldable pub readdir :
      {B : Type 0}
      → (B → Ino → ℕ → FileType → OsStr → Bool × B)
      → ℕ
      → Ino
      → ℕ
      → B
      → Step F.State (Option (DirReply B))
  readdir add fuel ino offset reply = do
    outcome ← emit F (λ e t. pure (add_entry add e t)) fuel ino offset synthesize reply
    pure (answer_readdir outcome)
