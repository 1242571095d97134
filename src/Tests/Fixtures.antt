-- ===== src/Tests/Fixtures.antt =====
-- The inputs of the tests.
use anymount.Prelude.{ℕ, refl, List, [], ◌∷◌, ok, err, drop, append-nil}
use anymount.Types.{Ino, Owner, file, FileAttr, unix_epoch, DirEntry, statfs_default}
use anymount.Error.{not_found}
use anymount.Fs.{ReadOnlyFs}
use anymount.Handle.{FileHandle3}
use anymount.Readdir.Listing.{Lists}
use anymount.NfsProto.{Ctx}

abbrev pub secret : List ℕ
secret = 1 ∷ 2 ∷ 3 ∷ 4 ∷ 5 ∷ 6 ∷ 7 ∷ 8 ∷ 9 ∷ 10 ∷ 11 ∷ 12 ∷ 13 ∷ 14 ∷ 15 ∷ 255 ∷ []

abbrev pub handle : FileHandle3
handle = record { secret = secret }

abbrev pub ctx : Ctx
ctx = record { handle = handle; fsid = 1 }

abbrev pub attr_at : Ino → FileAttr
attr_at i = record {
  ino = i;
  kind = file;
  size = 3;
  perm = 0o444;
  nlink = 1;
  uid = 0;
  gid = 0;
  atime = unix_epoch;
  mtime = unix_epoch;
  ctime = unix_epoch;
}

abbrev pub entries : List DirEntry
entries = record { ino = 2; name = b'a' ∷ []; kind = file } ∷ []

-- A directory with one file, which opens as the handle 7 and holds the bytes 97, 98, 99.
abbrev pub one_file : ReadOnlyFs
one_file = record {
  State = Unit {0};
  lookup = λ i n s. (err not_found, s);
  getattr = λ i s. (ok (attr_at i), s);
  readdir = λ i o s. (ok (drop o entries), s);
  open_file = λ i s. (ok 7, s);
  read_at = λ fh o b s. ((ok 3, 97 ∷ 98 ∷ 99 ∷ []), s);
  release = λ fh s. (ok tt, s);
  forget = λ i n s. (tt, s);
  listxattr = λ i s. (ok [], s);
  getxattr = λ i n s. (err not_found, s);
  statfs = λ s. (ok statfs_default, s);
}

abbrev pub one_file_lists : Lists one_file 1 entries
one_file_lists = record {
  page_at = λ o s. drop o entries;
  answers = λ o s. refl;
  pages = λ o s. record { more = []; front = append-nil (drop o entries); ends = λ e. e };
}

abbrev pub owner : Owner
owner = record { current_uid = 501; current_gid = 20 }
