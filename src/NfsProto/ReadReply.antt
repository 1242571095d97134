-- ===== src/NfsProto/ReadReply.antt =====
-- READ3 of src/backend/nfs/nfs_proto.rs: the handles that it opens, and the counts in its reply.
use anymount.Prelude.{ℕ, ◌≤◌, ◌≡◌, ◌∙◌, Bool, some, List, [], ◌∷◌, ◌++◌}
use anymount.Prelude.{
  ok, err, Result-cases, inl, inr, length, take, replicate, length-take, length-replicate, arith,
  ◌|>◌,
}
use anymount.Types.{Ino, FileHandle}
use anymount.Error.{to_nfsstat3}
use anymount.Fs.{ReadOnlyFs, ◌>>=◌, fill, length-fill, read_into}
use anymount.Fs.Logged.{Call, opened, released, logged}
use anymount.Xdr.{Writer, new_writer, write_u32, write_bool, write_opaque_var}
use anymount.Rpc.{success_with}
use anymount.NfsProto.Attrs.{Ctx, write_post_op_attr_best_effort, nfs3_ok}
use anymount.NfsProto.Procs.{
  read_ino, read_opened, read_done, read_attr, read_eof, attr_ok, release_logging, min_of,
}

module _ (F : ReadOnlyFs) (ctx : Ctx) where
  best_effort_log :
      (ino : Ino) (w : Writer) (s : F.State) (log : List Call)
      → (write_post_op_attr_best_effort (logged F) ctx ino w (s, log)).1.1 ≡ log
  unfolding write_post_op_attr_best_effort
  best_effort_log ino w s log = elim (Result-cases (F.getattr ino s).0) [
    | inl (a, h) ↦ rw (◌>>=◌, h)
    | inr (e, h) ↦ rw (◌>>=◌, h)
  ]

  read_opened_log :
      (ino : Ino) (offset count : ℕ) (fh : FileHandle) (s : F.State) (log : List Call)
      → (read_opened (logged F) ctx ino offset count (ok fh) (s, log)).1.1
        ≡ log ++ (released fh ∷ [])
  unfolding read_opened read_into read_done release_logging
  read_opened_log ino offset count fh s log =
      let got = F.read_at fh offset (replicate count 0) s in
      elim (Result-cases got.0.0) [
        | inl (n, h) ↦ rw (◌>>=◌, h)
        | inr (e, h) ↦
            rw (◌>>=◌, h)
              (best_effort_log ino (write_u32 (to_nfsstat3 e) new_writer) (F.release fh got.1).1
                (log ++ (released fh ∷ [])))
      ]

  -- READ3 releases the handle that it opens, once and after it, whether the read succeeds or not, and
  -- releases nothing when the file cannot be opened.
  pub read_releases :
      (ino : Ino) (offset count : ℕ) (s : F.State) (log : List Call)
      → (read_ino (logged F) ctx offset count (some ino) (s, log)).1.1
        ≡ (elim (F.open_file ino s).0 [
          | ok fh ↦ (log ++ (opened fh ∷ [])) ++ (released fh ∷ [])
          | err e ↦ log
        ])
  unfolding read_ino read_opened
  read_releases ino offset count s log = elim (Result-cases (F.open_file ino s).0) [
    | inl (fh, h) ↦
        rw (◌>>=◌, h)
          (read_opened_log ino offset count fh (F.open_file ino s).1 (log ++ (opened fh ∷ [])))
    | inr (e, h) ↦
        rw (◌>>=◌, h)
          (best_effort_log ino (write_u32 (to_nfsstat3 e) new_writer) (F.open_file ino s).1 log)
  ]

-- When READ3 succeeds, its reply ends in the count word, the end-of-file word and the data, where
-- the count is the length of the data, and is at most what the client asked for and at most what
-- `read_at` claims, also when `read_at` claims more than the buffer holds.
pub read_reply :
    (F : ReadOnlyFs) (ctx : Ctx) (ino : Ino) (offset count : ℕ) (s : F.State) (fh : FileHandle)
    (got : ℕ)
    → (F.open_file ino s).0 ≡ ok fh
    → (F.read_at fh offset (replicate count 0) (F.open_file ino s).1).0.0 ≡ ok got
    → (before : Writer) × (eof : Bool) × (file_data : List ℕ) × ((read_ino F ctx offset count
          (some ino)
          s).0
        ≡ success_with (
            before |> write_u32 (length file_data) |> write_bool eof |> write_opaque_var file_data))
      × (length file_data ≤ count)
      × (length file_data ≤ got)
unfolding read_ino read_opened read_into read_done release_logging
read_reply F ctx ino offset count s fh got h g =
    let out = F.read_at fh offset (replicate count 0) (F.open_file ino s).1 in
    let buf = fill out.0.1 (replicate count 0) in
    let n = min_of got (length buf) in
    let attr = attr_ok F ctx (F.getattr ino (F.release fh out.1).1).0 in
    let size : length buf ≡ count =
      length-fill out.0.1 (replicate count 0) ∙ length-replicate count 0 in
    let len : length (take n buf) ≡ n = ground (arith, length-take n buf) in
    (
      read_attr F ctx attr (write_u32 nfs3_ok new_writer),
      read_eof F ctx offset n attr,
      take n buf,
      rw (◌>>=◌, h, g, len),
      ground (arith, len, size),
      ground (arith, len),
    )
