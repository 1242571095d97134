-- ===== src/NfsProto/Lengths.antt =====
-- How many bytes the encoders of src/backend/nfs/nfs_proto.rs append.
use anymount.Prelude.{
  Result-cases, inl, inr, ◌%◌, ◌^◌, ℕ, ◌+◌, ◌≤◌, ◌≡◌, true, false, length, arith, List, [], ◌++◌,
  append_assoc, ap, ◌∙◌,
}
use anymount.Types.{Ino, SystemTime, since_epoch, before_epoch, FileAttr}
use anymount.Fs.{ReadOnlyFs, ◌>>=◌}
use anymount.Xdr.{Writer, write_u32, write_u64, write_bool}
use anymount.Xdr.Writes.{length-write_u32, length-write_u64, length-write_bool}
use anymount.NfsProto.Attrs.{Ctx, write_nfstime3, write_fattr3, write_post_op_attr_ok}
use anymount.NfsProto.Attrs.{write_post_op_attr_absent, write_post_op_attr_best_effort}

length-write_nfstime3 : (t : SystemTime) (w : Writer) → length (write_nfstime3 t w) ≡ length w + 8
unfolding write_nfstime3
length-write_nfstime3 (since_epoch secs nanos) w = omega (
  arith,
  length-write_u32 (secs % 2 ^ 32) w,
  length-write_u32 nanos (write_u32 (secs % 2 ^ 32) w),
)
length-write_nfstime3 (before_epoch secs nanos) w =
    omega (arith, length-write_u32 0 w, length-write_u32 0 (write_u32 0 w))

-- The encoding of a file's attributes is the 84 bytes of RFC 1813's `fattr3`, whatever they are.
pub length-write_fattr3 :
    (attr : FileAttr) (fsid : ℕ) (w : Writer) → length (write_fattr3 attr fsid w) ≡ length w + 84
unfolding write_fattr3
length-write_fattr3 attr fsid w =
    simp (length-write_nfstime3, length-write_u32, length-write_u64) (omega arith)

-- Attributes that may be absent take at most 88 bytes.
pub best_effort_bound :
    (F : ReadOnlyFs) (ctx : Ctx) (ino : Ino) (w : Writer) (s : F.State)
    → length (write_post_op_attr_best_effort F ctx ino w s).0 ≤ length w + 88
unfolding write_post_op_attr_best_effort write_post_op_attr_ok write_post_op_attr_absent
best_effort_bound F ctx ino w s = elim (Result-cases (F.getattr ino s).0) [
  | inl (a, h) ↦
      rw (h, ◌>>=◌, length)
        (omega
          (arith, length-write_fattr3 a ctx.fsid (write_bool true w), length-write_bool true w))
  | inr (e, h) ↦ rw (h, ◌>>=◌, length) (omega (arith, length-write_bool false w))
]

write_nfstime3-append :
    (t : SystemTime) (w : Writer) → write_nfstime3 t w ≡ w ++ write_nfstime3 t []
unfolding write_nfstime3 write_u32
write_nfstime3-append (since_epoch secs nanos) w = simp append_assoc
write_nfstime3-append (before_epoch secs nanos) w = simp append_assoc

times-append :
    (a m c : SystemTime) (w : Writer)
    → write_nfstime3 c (write_nfstime3 m (write_nfstime3 a w))
      ≡ w ++ (write_nfstime3 a [] ++ (write_nfstime3 m [] ++ write_nfstime3 c []))
times-append a m c w =
    write_nfstime3-append c (write_nfstime3 m (write_nfstime3 a w))
    ∙ ap (λ (b : List ℕ). b ++ write_nfstime3 c [])
        (write_nfstime3-append m (write_nfstime3 a w)
          ∙ ap (λ (b : List ℕ). b ++ write_nfstime3 m []) (write_nfstime3-append a w))
    ∙ simp append_assoc

-- The attributes are appended, whatever is there before.
pub write_fattr3-append :
    (attr : FileAttr) (fsid : ℕ) (w : Writer)
    → write_fattr3 attr fsid w ≡ w ++ write_fattr3 attr fsid []
unfolding write_fattr3 write_u32 write_u64
write_fattr3-append attr fsid w = simp (times-append, append_assoc)
