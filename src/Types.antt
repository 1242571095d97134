-- ===== src/Types.antt =====
-- src/types.rs: inodes, handles, attributes, directory entries.
-- An `Ino` and a `FileHandle` wrap a u64 and are that number here. A file name (`OsStr`) is its
-- bytes, as on Unix. A `SystemTime` is a distance in seconds and nanoseconds from the Unix epoch,
-- with the times before it apart, because `duration_since` fails on those.
use anymount.Prelude.{ℕ, List}

abbrev pub Ino : Type 0
Ino = ℕ

abbrev pub root_ino : Ino
root_ino = 1

abbrev pub FileHandle : Type 0
FileHandle = ℕ

abbrev pub OsStr : Type 0
OsStr = List ℕ

pub data FileKind : Type 0 where
  file directory : FileKind

pub data SystemTime : Type 0 where
  since_epoch : ℕ → ℕ → SystemTime
  before_epoch : ℕ → ℕ → SystemTime

abbrev pub unix_epoch : SystemTime
unix_epoch = since_epoch 0 0

pub record FileAttr : Type 0 where
  pub ino : Ino
  pub kind : FileKind
  pub size : ℕ
  pub perm : ℕ
  pub nlink : ℕ
  pub uid : ℕ
  pub gid : ℕ
  pub atime : SystemTime
  pub mtime : SystemTime
  pub ctime : SystemTime

-- `getuid` and `getgid`, which the operating system answers.
pub record Owner : Type 0 where
  pub current_uid : ℕ
  pub current_gid : ℕ

-- `FileAttr::file` and `FileAttr::dir`
unfoldable pub file_attr : Owner → Ino → ℕ → FileAttr
file_attr owner i bytes = record {
  ino = i;
  kind = file;
  size = bytes;
  perm = 0o444;
  nlink = 1;
  uid = owner.current_uid;
  gid = owner.current_gid;
  atime = unix_epoch;
  mtime = unix_epoch;
  ctime = unix_epoch;
}

unfoldable pub dir_attr : Owner → Ino → FileAttr
dir_attr owner i = record {
  ino = i;
  kind = directory;
  size = 0;
  perm = 0o555;
  nlink = 2;
  uid = owner.current_uid;
  gid = owner.current_gid;
  atime = unix_epoch;
  mtime = unix_epoch;
  ctime = unix_epoch;
}

pub record DirEntry : Type 0 where
  pub ino : Ino
  pub name : OsStr
  pub kind : FileKind

pub record StatFs : Type 0 where
  pub blocks : ℕ
  pub bfree : ℕ
  pub bavail : ℕ
  pub files : ℕ
  pub ffree : ℕ
  pub bsize : ℕ
  pub namelen : ℕ
  pub frsize : ℕ

unfoldable pub statfs_default : StatFs
statfs_default = record {
  blocks = 0;
  bfree = 0;
  bavail = 0;
  files = 0;
  ffree = 0;
  bsize = 512;
  namelen = 255;
  frsize = 512;
}
