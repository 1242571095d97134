-- ===== src/NfsProto/Attrs.antt =====
-- src/backend/nfs/nfs_proto.rs: the constants, the call's context, and the attribute encoders.
use anymount.Prelude.{ℕ, ◌%◌, ◌^◌, true, false, ok, err, ◌|>◌}
use anymount.Types.{Ino, FileKind, file, directory, SystemTime, since_epoch, before_epoch, FileAttr}
use anymount.Fs.{ReadOnlyFs, Step, pure, ◌>>=◌}
use anymount.Xdr.{Writer, write_u32, write_u64, write_bool}
use anymount.Handle.{FileHandle3}

abbrev pub nfs3_ok : ℕ
nfs3_ok = 0

abbrev pub nfs3err_noent : ℕ
nfs3err_noent = 2

abbrev pub nfs3err_rofs : ℕ
nfs3err_rofs = 30

abbrev pub nfs3err_toosmall : ℕ
nfs3err_toosmall = 10005

abbrev pub nfs3err_notsupp : ℕ
nfs3err_notsupp = 10004

abbrev pub ftype_reg : ℕ
ftype_reg = 1

abbrev pub ftype_dir : ℕ
ftype_dir = 2

abbrev pub rtmax : ℕ
rtmax = 1048576

abbrev pub fsf3_homogeneous : ℕ
fsf3_homogeneous = 8

abbrev pub dirlist_overhead : ℕ
dirlist_overhead = 128

-- `Ctx`; the filesystem, whose type the record depends on, is an argument beside it.
pub record Ctx : Type 0 where
  pub handle : FileHandle3
  pub fsid : ℕ

-- `duration_since(UNIX_EPOCH).unwrap_or_default()`: a time before the epoch is 0.
unfoldable pub write_nfstime3 : SystemTime → Writer → Writer
write_nfstime3 (since_epoch secs nanos) w = w |> write_u32 (secs % 2 ^ 32) |> write_u32 nanos
write_nfstime3 (before_epoch secs nanos) w = w |> write_u32 0 |> write_u32 0

abbrev pub ftype : FileKind → ℕ
ftype file = ftype_reg
ftype directory = ftype_dir

unfoldable pub write_fattr3 : FileAttr → ℕ → Writer → Writer
write_fattr3 attr fsid w =
    w
    |> write_u32 (ftype attr.kind)
    |> write_u32 attr.perm
    |> write_u32 attr.nlink
    |> write_u32 attr.uid
    |> write_u32 attr.gid
    |> write_u64 attr.size
    |> write_u64 attr.size
    |> write_u32 0
    |> write_u32 0
    |> write_u64 fsid
    |> write_u64 attr.ino
    |> write_nfstime3 attr.atime
    |> write_nfstime3 attr.mtime
    |> write_nfstime3 attr.ctime

unfoldable pub write_post_op_attr_ok : FileAttr → ℕ → Writer → Writer
write_post_op_attr_ok attr fsid w = w |> write_bool true |> write_fattr3 attr fsid

unfoldable pub write_post_op_attr_absent : Writer → Writer
write_post_op_attr_absent w = write_bool false w

unfoldable pub write_post_op_attr_best_effort :
    (F : ReadOnlyFs) → Ctx → Ino → Writer → Step F.State Writer
write_post_op_attr_best_effort F ctx ino w = do
  attr ← F.getattr ino
  (elim attr [
    | ok a ↦ pure (write_post_op_attr_ok a ctx.fsid w)
    | err e ↦ pure (write_post_op_attr_absent w)
  ])

unfoldable pub write_wcc_data_zero : Writer → Writer
write_wcc_data_zero w = w |> write_bool false |> write_bool false
