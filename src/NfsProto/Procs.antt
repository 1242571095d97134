-- ===== src/NfsProto/Procs.antt =====
-- src/backend/nfs/nfs_proto.rs: the handlers, but those of READDIR3 and READDIRPLUS3.
-- A handler reads its arguments from the reader, and answers by a step on the state of the
-- filesystem.
use anymount.Prelude.{ℕ, ◌+◌, ◌-◌, ◌*◌, ◌^◌, Bool, true, false, Option, none, some, List}
use anymount.Prelude.{ok, err, length, take, replicate, leb, if◌then◌else◌, ◌|>◌, bit_and}
use anymount.Types.{Ino, FileHandle, FileAttr}
use anymount.Error.{FsError, to_nfsstat3}
use anymount.Fs.{ReadOnlyFs, Step, pure, ◌>>=◌, FsResult, read_into}
use anymount.Xdr.{Reader, Writer, new_writer, let_some, read_u32, read_u64, read_opaque_var}
use anymount.Xdr.{read_string, write_u32, write_u64, write_bool, write_opaque_var}
use anymount.Handle.{encode, resolve}
use anymount.Rpc.{ProcOutcome, success_with, garbage_args}
use anymount.NfsProto.Attrs.{Ctx, nfs3_ok, nfs3err_noent, nfs3err_rofs, nfs3err_notsupp, rtmax}
use anymount.NfsProto.Attrs.{fsf3_homogeneous, write_fattr3, write_post_op_attr_ok}
use anymount.NfsProto.Attrs.{write_post_op_attr_absent, write_post_op_attr_best_effort}
use anymount.NfsProto.Attrs.{write_wcc_data_zero}

unfoldable pub reject_rofs_wcc : Reader → ProcOutcome
reject_rofs_wcc r = success_with (new_writer |> write_u32 nfs3err_rofs |> write_wcc_data_zero)

unfoldable pub reject_notsupp_wcc : Reader → ProcOutcome
reject_notsupp_wcc r = success_with (new_writer |> write_u32 nfs3err_notsupp |> write_wcc_data_zero)

unfoldable pub reject_rofs_rename : Reader → ProcOutcome
reject_rofs_rename r =
    success_with
      (new_writer |> write_u32 nfs3err_rofs |> write_wcc_data_zero |> write_wcc_data_zero)

unfoldable pub reject_rofs_link : Reader → ProcOutcome
reject_rofs_link r =
    success_with
      (new_writer |> write_u32 nfs3err_rofs |> write_post_op_attr_absent |> write_wcc_data_zero)

unfoldable pub reject_notsupp_readlink : Reader → ProcOutcome
reject_notsupp_readlink r =
    success_with (new_writer |> write_u32 nfs3err_notsupp |> write_post_op_attr_absent)

-- `min` on ℕ.
abbrev pub min_of : ℕ → ℕ → ℕ
min_of a b = if leb a b then a else b

-- `u64::saturating_add` and `u64::saturating_mul`
abbrev pub saturating_add : ℕ → ℕ → ℕ
saturating_add a b = min_of (a + b) (2 ^ 64 - 1)

abbrev pub saturating_mul : ℕ → ℕ → ℕ
saturating_mul a b = min_of (a * b) (2 ^ 64 - 1)

-- The answer to a handle that does not resolve, of every procedure but GETATTR3.
abbrev pub stale : ProcOutcome
stale = success_with (new_writer |> write_u32 nfs3err_noent |> write_post_op_attr_absent)

module _ (F : ReadOnlyFs) (ctx : Ctx) where
  abbrev pub garbage : {A : Type 0} → A → Step F.State ProcOutcome
  garbage x = pure garbage_args

  -- The end of most handlers: the status of an error, and the attributes if there are any.
  abbrev pub answer_error : FsError → Ino → Step F.State ProcOutcome
  answer_error e ino = do
    w ← write_post_op_attr_best_effort F ctx ino (new_writer |> write_u32 (to_nfsstat3 e))
    pure (success_with w)

  unfoldable pub getattr_ino : Option Ino → Step F.State ProcOutcome
  getattr_ino none = pure (success_with (new_writer |> write_u32 nfs3err_noent))
  getattr_ino (some ino) = do
    attr ← F.getattr ino
    (elim attr [
      | ok a ↦ pure (success_with (new_writer |> write_u32 nfs3_ok |> write_fattr3 a ctx.fsid))
      | err e ↦ pure (success_with (new_writer |> write_u32 (to_nfsstat3 e)))
    ])

  unfoldable pub getattr : Reader → Step F.State ProcOutcome
  getattr r = let_some (read_opaque_var 64 r) garbage λ fh r. getattr_ino (resolve ctx.handle fh)

  unfoldable pub lookup_in : List ℕ → Option Ino → Step F.State ProcOutcome
  lookup_in name none = pure stale
  lookup_in name (some dir) = do
    found ← F.lookup dir name
    (elim found [
      | ok a ↦ do
        w ← write_post_op_attr_best_effort F ctx dir (
            new_writer
            |> write_u32 nfs3_ok
            |> write_opaque_var (encode ctx.handle a.ino)
            |> write_post_op_attr_ok a ctx.fsid)
        pure (success_with w)
      | err e ↦ answer_error e dir
    ])

  unfoldable pub lookup : Reader → Step F.State ProcOutcome
  lookup r = let_some (read_opaque_var 64 r) garbage λ dirfh r.
      let_some (read_string 1024 r) garbage λ name r. lookup_in name (resolve ctx.handle dirfh)

  -- The mask is READ | LOOKUP | EXECUTE.
  unfoldable pub access_of : ℕ → Option Ino → Step F.State ProcOutcome
  access_of requested none = pure stale
  access_of requested (some ino) = do
    attr ← F.getattr ino
    (elim attr [
      | ok a ↦ pure (
          success_with (
            new_writer
            |> write_u32 nfs3_ok
            |> write_post_op_attr_ok a ctx.fsid
            |> write_u32 (bit_and requested 35)))
      | err e ↦
          pure (success_with (new_writer |> write_u32 (to_nfsstat3 e) |> write_post_op_attr_absent))
    ])

  unfoldable pub access : Reader → Step F.State ProcOutcome
  access r = let_some (read_opaque_var 64 r) garbage λ fh r.
      let_some (read_u32 r) garbage λ requested r. access_of requested (resolve ctx.handle fh)

  -- A failed release is only logged.
  unfoldable pub release_logging : FileHandle → Step F.State (Unit {0})
  release_logging fh = do released ← F.release fh; pure tt

  abbrev pub read_attr : Option FileAttr → Writer → Writer
  read_attr (some a) w = write_post_op_attr_ok a ctx.fsid w
  read_attr none w = write_post_op_attr_absent w

  abbrev pub attr_ok : FsResult FileAttr → Option FileAttr
  attr_ok (ok a) = some a
  attr_ok (err e) = none

  abbrev pub read_eof : ℕ → ℕ → Option FileAttr → Bool
  read_eof offset n (some a) = leb a.size (saturating_add offset n)
  read_eof offset n none = false

  abbrev pub read_ok : ℕ → Option FileAttr → ℕ → List ℕ → Writer
  read_ok offset attr n buf =
      new_writer
      |> write_u32 nfs3_ok
      |> read_attr attr
      |> write_u32 n
      |> write_bool (read_eof offset n attr)
      |> write_opaque_var (take n buf)

  -- READ3's success arm, on the count that `read_at` returned and the buffer behind it.
  unfoldable pub read_done : Ino → FileHandle → ℕ → ℕ → List ℕ → Step F.State ProcOutcome
  read_done ino fh offset got buf = do
    u ← release_logging fh
    attr ← F.getattr ino
    pure (success_with (read_ok offset (attr_ok attr) (min_of got (length buf)) buf))

  unfoldable pub read_opened : Ino → ℕ → ℕ → FsResult FileHandle → Step F.State ProcOutcome
  read_opened ino offset count (err e) = answer_error e ino
  read_opened ino offset count (ok fh) = do
    (n, buf) ← read_into F fh offset (replicate count 0)
    (elim n [
      | ok got ↦ read_done ino fh offset got buf
      | err e ↦ do u ← release_logging fh; answer_error e ino
    ])

  unfoldable pub read_ino : ℕ → ℕ → Option Ino → Step F.State ProcOutcome
  read_ino offset count none = pure stale
  read_ino offset count (some ino) = do
    opened ← F.open_file ino
    read_opened ino offset count opened

  unfoldable pub read : Reader → Step F.State ProcOutcome
  read r = let_some (read_opaque_var 64 r) garbage λ fh r. let_some (read_u64 r) garbage λ offset r.
      let_some (read_u32 r) garbage
        λ count r. read_ino offset (min_of count rtmax) (resolve ctx.handle fh)

  unfoldable pub fsstat_of : Option Ino → Step F.State ProcOutcome
  fsstat_of none = pure stale
  fsstat_of (some ino) = do
    answer ← F.statfs
    (elim answer [
      | ok s ↦ do
        w ← write_post_op_attr_best_effort F ctx ino (new_writer |> write_u32 nfs3_ok)
        pure (
            success_with (
              w
              |> write_u64 (saturating_mul s.blocks s.frsize)
              |> write_u64 (saturating_mul s.bfree s.frsize)
              |> write_u64 (saturating_mul s.bavail s.frsize)
              |> write_u64 s.files
              |> write_u64 s.ffree
              |> write_u64 s.ffree
              |> write_u32 (2 ^ 32 - 1)))
      | err e ↦ answer_error e ino
    ])

  unfoldable pub fsstat : Reader → Step F.State ProcOutcome
  fsstat r = let_some (read_opaque_var 64 r) garbage λ fh r. fsstat_of (resolve ctx.handle fh)

  unfoldable pub fsinfo_of : Option Ino → Step F.State ProcOutcome
  fsinfo_of none = pure stale
  fsinfo_of (some ino) = do
    w ← write_post_op_attr_best_effort F ctx ino (new_writer |> write_u32 nfs3_ok)
    pure (
        success_with (
          w
          |> write_u32 rtmax
          |> write_u32 rtmax
          |> write_u32 4096
          |> write_u32 rtmax
          |> write_u32 rtmax
          |> write_u32 4096
          |> write_u32 32768
          |> write_u64 (2 ^ 64 - 1)
          |> write_u32 1
          |> write_u32 0
          |> write_u32 fsf3_homogeneous))

  unfoldable pub fsinfo : Reader → Step F.State ProcOutcome
  fsinfo r = let_some (read_opaque_var 64 r) garbage λ fh r. fsinfo_of (resolve ctx.handle fh)

  unfoldable pub pathconf_of : Option Ino → Step F.State ProcOutcome
  pathconf_of none = pure stale
  pathconf_of (some ino) = do
    w ← write_post_op_attr_best_effort F ctx ino (new_writer |> write_u32 nfs3_ok)
    pure (
        success_with (
          w
          |> write_u32 1
          |> write_u32 255
          |> write_bool true
          |> write_bool true
          |> write_bool false
          |> write_bool true))

  unfoldable pub pathconf : Reader → Step F.State ProcOutcome
  pathconf r = let_some (read_opaque_var 64 r) garbage λ fh r. pathconf_of (resolve ctx.handle fh)
