-- ===== src/NfsProto/Found.antt =====
-- LOOKUP3 of src/backend/nfs/nfs_proto.rs on a name that is there.
use anymount.Prelude.{
  ℕ, ◌≤◌, ◌≡◌, ap, some, inl, inr, Result-cases, List, [], ◌++◌, length, arith, to_be_bytes,
  append_assoc, length-append, length-to_be_bytes,
}
use anymount.Types.{Ino, OsStr}
use anymount.Fs.{ReadOnlyFs, ◌>>=◌}
use anymount.Fs.Contract.{Finds}
use anymount.Xdr.{Writer, write_u32, write_bool, write_opaque_var}
use anymount.Xdr.Writes.{counted, write_opaque_var-counted}
use anymount.Handle.{encode}
use anymount.Rpc.{success_with}
use anymount.NfsProto.Attrs.{
  Ctx, write_fattr3, write_post_op_attr_ok, write_post_op_attr_best_effort,
}
use anymount.NfsProto.Procs.{lookup_in}
use anymount.NfsProto.Lengths.{write_fattr3-append, length-write_fattr3}
use anymount.NfsProto.PostOp.{best_effort-IsPostOp, length-IsPostOp}

best_effort_state :
    (F : ReadOnlyFs) (ctx : Ctx) (ino : Ino) (w : Writer) (s : F.State)
    → (write_post_op_attr_best_effort F ctx ino w s).1 ≡ (F.getattr ino s).1
unfolding write_post_op_attr_best_effort
best_effort_state F ctx ino w s = elim (Result-cases (F.getattr ino s).0) [
  | inl (a, h) ↦ rw (◌>>=◌, h)
  | inr (e, h) ↦ rw (◌>>=◌, h)
]

-- The results are the status and the handle of the inode, with attributes behind them.
pub lookup_in-Finds :
    (F : ReadOnlyFs) (ctx : Ctx) (Inv : F.State → Type 0) (dir : Ino) (name : OsStr) (ino : Ino)
    (s : F.State)
    → Finds F Inv dir name ino
    → Inv s
    → (more : List ℕ) × (length more ≤ 176)
      × ((lookup_in F ctx name (some dir) s).0
          ≡ success_with (to_be_bytes 4 0 ++ (counted (encode ctx.handle ino) ++ more)))
      × Inv (lookup_in F ctx name (some dir) s).1
unfolding lookup_in write_u32 write_bool write_post_op_attr_ok
lookup_in-Finds F ctx Inv dir name ino s law inv =
    let (a, found, same, kept) = law.found s inv in
    let s₁ = (F.lookup dir name s).1 in
    let fh = encode ctx.handle a.ino in
    let x = write_fattr3 a ctx.fsid [] in
    let head : Writer = write_opaque_var fh (to_be_bytes 4 0) in
    let w : Writer = write_fattr3 a ctx.fsid (head ++ to_be_bytes 4 1) in
    let (post, whole, is_post) = best_effort-IsPostOp F ctx dir w s₁ in
    let out : w ++ post ≡ to_be_bytes 4 0 ++ (counted fh ++ (to_be_bytes 4 1 ++ (x ++ post))) =
      rw
        (
          write_fattr3-append a ctx.fsid (head ++ to_be_bytes 4 1),
          write_opaque_var-counted fh (to_be_bytes 4 0),
        )
        (simp append_assoc) in
    (
      to_be_bytes 4 1 ++ (x ++ post),
      omega (
        arith,
        length-append (to_be_bytes 4 1) (x ++ post),
        length-append x post,
        length-to_be_bytes 4 1,
        length-write_fattr3 a ctx.fsid [],
        length-IsPostOp post is_post,
      ),
      rw (◌>>=◌, found, whole, out)
          (ap
            (λ (i : Ino). success_with (
              to_be_bytes 4 0
              ++ (counted (encode ctx.handle i) ++ (to_be_bytes 4 1 ++ (x ++ post)))))
            same),
      rw (◌>>=◌, found, best_effort_state F ctx dir w s₁) (law.keeps s₁ kept),
    )
