-- ===== src/NfsProto/Rejects.antt =====
-- What src/backend/nfs/nfs_proto.rs answers to the procedures that would change the filesystem.
use anymount.Prelude.{ℕ, ◌≡◌, refl, some, List, [], ◌∷◌, ◌++◌, All, replicate, ◌*◌, to_be_bytes}
use anymount.Fs.{ReadOnlyFs}
use anymount.Xdr.{Reader, write_u32, write_bool}
use anymount.Rpc.{success_with}
use anymount.NfsProto.Attrs.{Ctx, write_post_op_attr_absent, write_wcc_data_zero}
use anymount.NfsProto.Procs.{reject_rofs_wcc, reject_notsupp_wcc, reject_rofs_rename}
use anymount.NfsProto.Procs.{reject_rofs_link, reject_notsupp_readlink}
use anymount.NfsProto.Dirs.{dispatch}

-- A procedure's number, the status of RFC 1813 that it is refused with, and the number of absent
-- attributes that the failure arm of its result has.
pub record Refusal : Type 0 where
  pub proc : ℕ
  pub stat : ℕ
  pub absent : ℕ

abbrev refusal : ℕ → ℕ → ℕ → Refusal
refusal proc stat absent = record { proc = proc; stat = stat; absent = absent }

-- SETATTR, READLINK, WRITE, CREATE, MKDIR, SYMLINK, MKNOD, REMOVE, RMDIR, RENAME, LINK, COMMIT.
abbrev pub refusals : List Refusal
refusals =
    refusal 2 30 2
    ∷ refusal 5 10004 1
    ∷ refusal 7 30 2
    ∷ refusal 8 30 2
    ∷ refusal 9 30 2
    ∷ refusal 10 10004 2
    ∷ refusal 11 30 2
    ∷ refusal 12 30 2
    ∷ refusal 13 30 2
    ∷ refusal 14 30 4
    ∷ refusal 15 30 3
    ∷ refusal 21 30 2
    ∷ []

-- Each procedure of NFSv3 that would change the filesystem, and READLINK, is answered by its refusal
-- whatever its arguments are: the status, then a false word for each absent attribute. The
-- filesystem is not called.
pub dispatch_refuses :
    (F : ReadOnlyFs) (ctx : Ctx) (fuel : ℕ) (r : Reader) (s : F.State)
    → All
        (λ (c : Refusal).
          dispatch F ctx fuel c.proc r s
          ≡ (some (success_with (to_be_bytes 4 c.stat ++ replicate (c.absent * 4) 0)), s))
        refusals
unfolding dispatch reject_rofs_wcc reject_notsupp_wcc reject_rofs_rename reject_rofs_link
    reject_notsupp_readlink write_post_op_attr_absent write_wcc_data_zero write_u32 write_bool
    to_be_bytes
dispatch_refuses F ctx fuel r s = (
  refl,
  (refl, (refl, (refl, (refl, (refl, (refl, (refl, (refl, (refl, (refl, (refl, tt))))))))))),
)
