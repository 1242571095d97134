-- ===== src/NfsProto/Dirs.antt =====
-- src/backend/nfs/nfs_proto.rs: READDIR3, READDIRPLUS3 and the dispatch.
use anymount.Prelude.{ℕ, ◌+◌, ◌-◌, Bool, true, false, not, ◌&&◌, Option, none, some, ok, err}
use anymount.Prelude.{length, ltb, ◌==◌, if◌then◌else◌, ◌|>◌}
use anymount.Types.{Ino, OsStr}
use anymount.Fs.{ReadOnlyFs, Step, pure, ◌>>=◌, FsResult}
use anymount.Xdr.{Read, Reader, Writer, new_writer, let_some, read_u32, read_u64, read_opaque_var}
use anymount.Xdr.{
  read_opaque_fixed, write_u32, write_u64, write_bool, write_opaque_var, write_string,
}
use anymount.Xdr.{write_opaque_fixed, extend_from}
use anymount.Handle.{encode, resolve, cookieverf}
use anymount.Readdir.{Sink, accepted, full, Entry, Emitted, emit, synthesize}
use anymount.Rpc.{ProcOutcome, success_with, proc_unavail, garbage_args}
use anymount.NfsProto.Attrs.{Ctx, nfs3_ok, nfs3err_toosmall, dirlist_overhead}
use anymount.NfsProto.Attrs.{write_fattr3, write_post_op_attr_best_effort}
use anymount.NfsProto.Procs.{stale, answer_error, reject_rofs_wcc, reject_notsupp_wcc}
use anymount.NfsProto.Procs.{reject_rofs_rename, reject_rofs_link, reject_notsupp_readlink}
use anymount.NfsProto.Procs.{getattr, lookup, access, read, fsstat, fsinfo, pathconf}

-- What the closure in `build_dirlist` keeps. `remaining` is an i64 that never is negative.
pub record Packing : Type 0 where
  pub entries : Writer
  pub remaining : ℕ
  pub packed : ℕ

pub record DirList : Type 0 where
  pub entries : Writer
  pub eof : Bool
  pub packed : ℕ

-- The arguments behind the cookie verifier: `dircount` and `maxcount`, or `count`.
unfoldable pub read_budget : Bool → Read ℕ
read_budget true r = let_some (read_u32 r) (λ r. (none, r)) λ dircount r. read_u32 r
read_budget false r = read_u32 r

unfoldable pub pack_if_fits : Writer → Packing → Sink × Packing
pack_if_fits candidate p = if ltb p.remaining (length candidate) then (full, p) else (
  accepted,
  record {
    entries = p.entries |> extend_from candidate;
    remaining = p.remaining - length candidate;
    packed = p.packed + 1;
  },
)

abbrev pub dir_list : Emitted Packing → Option (FsResult DirList)
dir_list (none, p) = none
dir_list (some (err e), p) = some (err e)
dir_list (some (ok eof), p) =
    some (ok (record { entries = p.entries; eof = eof; packed = p.packed }))

abbrev pub dirent_base : Ino → OsStr → ℕ → Writer
dirent_base ino name cookie =
    new_writer |> write_bool true |> write_u64 ino |> write_string name |> write_u64 cookie

module _ (F : ReadOnlyFs) (ctx : Ctx) where
  -- What an entry of READDIRPLUS3 has behind that of READDIR3.
  unfoldable pub encode_plus : Ino → Writer → Step F.State Writer
  encode_plus ino w = do
    attr ← F.getattr ino
    (elim attr [
      | ok a ↦ pure (
          w
          |> write_bool true
          |> write_fattr3 a ctx.fsid
          |> write_bool true
          |> write_opaque_var (encode ctx.handle ino))
      | err e ↦ pure (w |> write_bool false |> write_bool false)
    ])

  unfoldable pub encode_dirent : Ino → OsStr → ℕ → Bool → Step F.State Writer
  encode_dirent ino name cookie plus =
      if plus
      then encode_plus ino (dirent_base ino name cookie)
      else pure (dirent_base ino name cookie)

  -- The closure that `build_dirlist` hands to `emit`.
  unfoldable pub pack : Bool → Entry → Packing → Step F.State (Sink × Packing)
  pack plus e p = do
    candidate ← encode_dirent e.ino e.name e.cookie plus
    pure (pack_if_fits candidate p)

  -- `fuel` is that of `emit`.
  unfoldable pub build_dirlist : ℕ → Ino → ℕ → ℕ → Bool → Step F.State (Option (FsResult DirList))
  build_dirlist fuel dir start_cookie budget plus = do
    out ←
        emit F (pack plus) fuel dir start_cookie synthesize
          (record { entries = new_writer; remaining = budget; packed = 0 })
    pure (dir_list out)

  unfoldable pub readdir_reply : Ino → Option (FsResult DirList) → Step F.State (Option ProcOutcome)
  readdir_reply dir none = pure none
  readdir_reply dir (some (ok list)) =
      if (list.packed == 0) && not list.eof
      then (do
        w ← write_post_op_attr_best_effort F ctx dir (new_writer |> write_u32 nfs3err_toosmall)
        pure (some (success_with w)))
      else (do
        w ← write_post_op_attr_best_effort F ctx dir (new_writer |> write_u32 nfs3_ok)
        pure (
            some (
              success_with (
                w
                |> write_opaque_fixed (cookieverf ctx.handle)
                |> extend_from list.entries
                |> write_bool false
                |> write_bool list.eof))))
  readdir_reply dir (some (err e)) = do w ← answer_error F ctx e dir; pure (some w)

  unfoldable pub readdir_ino : ℕ → ℕ → ℕ → Bool → Option Ino → Step F.State (Option ProcOutcome)
  readdir_ino fuel start_cookie budget plus none = pure (some stale)
  readdir_ino fuel start_cookie budget plus (some dir) = do
    list ← build_dirlist fuel dir start_cookie (budget - dirlist_overhead) plus
    readdir_reply dir list

  -- A reply is `none` when the fuel of `emit` has run out.
  unfoldable pub readdir_common : ℕ → Bool → Reader → Step F.State (Option ProcOutcome)
  readdir_common fuel plus r =
      let bad = λ (r : Reader).
        (let m : Step F.State (Option ProcOutcome) = pure (some garbage_args) in m) in
      let_some (read_opaque_var 64 r) bad λ dirfh r. let_some (read_u64 r) bad λ start_cookie r.
        let_some (read_opaque_fixed 8 r) bad λ cookieverf r.
          let_some (read_budget plus r) bad
            λ budget r. readdir_ino fuel start_cookie budget plus (resolve ctx.handle dirfh)

  abbrev pub answered : Step F.State ProcOutcome → Step F.State (Option ProcOutcome)
  answered m = do o ← m; pure (some o)

  unfoldable pub dispatch : ℕ → ℕ → Reader → Step F.State (Option ProcOutcome)
  dispatch fuel proc r =
      if proc == 0
      then pure (some (success_with new_writer))
      else if proc == 1
      then answered (getattr F ctx r)
      else if proc == 2
      then pure (some (reject_rofs_wcc r))
      else if proc == 3
      then answered (lookup F ctx r)
      else if proc == 4
      then answered (access F ctx r)
      else if proc == 5
      then pure (some (reject_notsupp_readlink r))
      else if proc == 6
      then answered (read F ctx r)
      else if proc == 7
      then pure (some (reject_rofs_wcc r))
      else if proc == 8
      then pure (some (reject_rofs_wcc r))
      else if proc == 9
      then pure (some (reject_rofs_wcc r))
      else if proc == 10
      then pure (some (reject_notsupp_wcc r))
      else if proc == 11
      then pure (some (reject_rofs_wcc r))
      else if proc == 12
      then pure (some (reject_rofs_wcc r))
      else if proc == 13
      then pure (some (reject_rofs_wcc r))
      else if proc == 14
      then pure (some (reject_rofs_rename r))
      else if proc == 15
      then pure (some (reject_rofs_link r))
      else if proc == 16
      then readdir_common fuel false r
      else if proc == 17
      then readdir_common fuel true r
      else if proc == 18
      then answered (fsstat F ctx r)
      else if proc == 19
      then answered (fsinfo F ctx r)
      else if proc == 20
      then answered (pathconf F ctx r)
      else if proc == 21
      then pure (some (reject_rofs_wcc r))
      else pure (some proc_unavail)
