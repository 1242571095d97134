-- ===== src/NfsProto/Budget.antt =====
-- The sizes of the results of READDIR3 and READDIRPLUS3 in src/backend/nfs/nfs_proto.rs.
use anymount.Prelude.{
  ◌++◌, ℕ, ◌+◌, ◌-◌, ◌≤◌, ◌≡◌, refl, ap, Bool, false, not, ◌&&◌, Option, none, some,
}
use anymount.Prelude.{length, length-append, ltb, ok, err, Bool-cases, inl, inr, arith}
use anymount.Prelude.{if◌then◌else◌, ◌==◌}
use anymount.Types.{Ino}
use anymount.Error.{FsError, to_nfsstat3}
use anymount.Fs.{ReadOnlyFs, FsResult}
use anymount.Xdr.{Writer, new_writer, write_u32, write_bool, write_opaque_fixed, extend_from}
use anymount.Xdr.Writes.{length-write_u32, length-write_bool, length-write_opaque_fixed}
use anymount.Handle.{cookieverf}
use anymount.Readdir.{Entry, emit, synthesize, Emitted}
use anymount.Readdir.Keeps.{emit_keeps}
use anymount.Rpc.{ProcOutcome, success_with, proc_unavail, garbage_args}
use anymount.NfsProto.Attrs.{
  Ctx, write_post_op_attr_best_effort, nfs3_ok, nfs3err_toosmall, dirlist_overhead,
}
use anymount.NfsProto.Dirs.{
  Packing, DirList, encode_dirent, pack_if_fits, pack, dir_list, build_dirlist, readdir_reply,
  readdir_ino,
}
use anymount.NfsProto.Lengths.{best_effort_bound}

-- What is packed and what remains make up the budget.
abbrev Balanced : ℕ → Packing → Type 0
Balanced budget p = length p.entries + p.remaining ≡ budget

pack_if_fits-Balanced :
    (budget : ℕ) (w : Writer) (p : Packing)
    → Balanced budget p
    → Balanced budget (pack_if_fits w p).1
unfolding pack_if_fits extend_from
pack_if_fits-Balanced budget w p h = ground (arith, length-append p.entries w)

pack-Balanced :
    (F : ReadOnlyFs) (ctx : Ctx) (plus : Bool) (budget : ℕ) (e : Entry) (p : Packing) (s : F.State)
    → Balanced budget p
    → Balanced budget (pack F ctx plus e p s).0.1
unfolding pack
pack-Balanced F ctx plus budget e p s h =
    pack_if_fits-Balanced budget (encode_dirent F ctx e.ino e.name e.cookie plus s).0 p h

abbrev entries_length : Option (FsResult DirList) → ℕ
entries_length (some (ok l)) = length l.entries
entries_length (some (err e)) = 0
entries_length none = 0

dir_list_bound :
    (budget : ℕ) (out : Emitted Packing) (list : DirList)
    → Balanced budget out.1
    → dir_list out ≡ some (ok list)
    → length list.entries ≤ budget
dir_list_bound budget (none, p) list h e = ground arith
dir_list_bound budget (some (err x), p) list h e = ground arith
dir_list_bound budget (some (ok eof), p) list h e =
    let same : length p.entries ≡ length list.entries = ap entries_length e in omega arith

-- The entries that `build_dirlist` packs fit the budget.
build_dirlist_bound :
    (F : ReadOnlyFs) (ctx : Ctx) (fuel : ℕ) (dir : Ino) (cookie budget : ℕ) (plus : Bool)
    (s : F.State) (list : DirList)
    → (build_dirlist F ctx fuel dir cookie budget plus s).0 ≡ some (ok list)
    → length list.entries ≤ budget
unfolding build_dirlist
build_dirlist_bound F ctx fuel dir cookie budget plus s list h =
    let start : Packing = record { entries = new_writer; remaining = budget; packed = 0 } in
    dir_list_bound budget (emit F (pack F ctx plus) fuel dir cookie synthesize start s).0 list
      (emit_keeps F (pack F ctx plus) (Balanced budget) (pack-Balanced F ctx plus budget) fuel dir
        cookie synthesize start s (omega arith))
      h

-- How many bytes of results an outcome carries.
unfoldable pub outcome_len : Option ProcOutcome → ℕ
outcome_len none = 0
outcome_len (some (success_with w)) = length w
outcome_len (some proc_unavail) = 0
outcome_len (some garbage_args) = 0

module _ (F : ReadOnlyFs) (ctx : Ctx) (dir : Ino) where
  reply_error_len :
      (e : FsError) (s : F.State) → outcome_len (readdir_reply F ctx dir (some (err e)) s).0 ≤ 108
  unfolding readdir_reply outcome_len
  reply_error_len e s = omega (
    arith,
    best_effort_bound F ctx dir (write_u32 (to_nfsstat3 e) new_writer) s,
    length-write_u32 (to_nfsstat3 e) new_writer,
  )

  list_len :
      (l : DirList) (w : Writer)
      → length (
          write_bool l.eof (
            write_bool false
              (extend_from l.entries (write_opaque_fixed (cookieverf ctx.handle) w))))
        ≡ length w + 16 + length l.entries
  unfolding extend_from cookieverf
  list_len l w =
      let v = write_opaque_fixed (cookieverf ctx.handle) w in
      omega (
        arith,
        length-write_opaque_fixed (cookieverf ctx.handle) w,
        length-append v l.entries,
        length-write_bool false (v ++ l.entries),
        length-write_bool l.eof (write_bool false (v ++ l.entries)),
      )

  reply_list_len :
      (l : DirList) (s : F.State)
      → outcome_len (readdir_reply F ctx dir (some (ok l)) s).0 ≤ 108 + length l.entries
  unfolding readdir_reply outcome_len
  reply_list_len l s = elim (Bool-cases ((l.packed == 0) && not l.eof)) [
    | inl small ↦ rw small (
        omega (
          arith,
          best_effort_bound F ctx dir (write_u32 nfs3err_toosmall new_writer) s,
          length-write_u32 nfs3err_toosmall new_writer,
        ))
    | inr fits ↦ rw fits (
        let w = (write_post_op_attr_best_effort F ctx dir (write_u32 nfs3_ok new_writer) s).0 in
        omega (
          arith,
          list_len l w,
          best_effort_bound F ctx dir (write_u32 nfs3_ok new_writer) s,
          length-write_u32 nfs3_ok new_writer,
        ))
  ]

  reply_len :
      (x : Option (FsResult DirList)) (b : ℕ) (s : F.State)
      → ((l : DirList) → x ≡ some (ok l) → length l.entries ≤ b)
      → outcome_len (readdir_reply F ctx dir x s).0 ≤ 108 + b
  unfolding readdir_reply outcome_len
  reply_len none b s h = omega arith
  reply_len (some (err e)) b s h = omega (arith, reply_error_len e s)
  reply_len (some (ok l)) b s h = omega (arith, reply_list_len l s, h l refl)

  -- The results of READDIR3 and READDIRPLUS3 have at most as many bytes as the client named in
  -- `count` or `maxcount`, or 108 if it named less than that, whatever the directory holds, and also
  -- when it cannot be read.
  pub readdir_budget :
      (fuel cookie count : ℕ) (plus : Bool) (s : F.State)
      → let out = readdir_ino F ctx fuel cookie count plus (some dir) s in
        outcome_len out.0 ≤ (if ltb count 108 then 108 else count)
  unfolding readdir_ino
  readdir_budget fuel cookie count plus s =
      let x = build_dirlist F ctx fuel dir cookie (count - dirlist_overhead) plus s in
      ground (
        arith,
        reply_len x.0 (count - dirlist_overhead) x.1 (λ l h.
            build_dirlist_bound F ctx fuel dir cookie (count - dirlist_overhead) plus s l h),
      )
