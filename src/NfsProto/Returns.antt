-- ===== src/NfsProto/Returns.antt =====
-- Every call of src/backend/nfs/nfs_proto.rs returns.
use anymount.Prelude.{
  ℕ, ◌+◌, ◌-◌, ◌^◌, ◌<◌, refl, ◌≡◌, Bool, true, false, not, ◌&&◌, Option, none, some, ◌==◌, ok, err,
  if◌then◌else◌,
}
use anymount.Types.{Ino}
use anymount.Fs.{ReadOnlyFs, Step, FsResult}
use anymount.Xdr.{Reader, read_opaque_var, let_some, read_u64, read_opaque_fixed, new_writer}
use anymount.Handle.{resolve}
use anymount.Readdir.{Emitted, synthesize}
use anymount.Readdir.Ends.{Given, Bounded, emit-Given}
use anymount.NfsProto.Attrs.{Ctx, dirlist_overhead}
use anymount.NfsProto.Dirs.{
  Packing, DirList, dir_list, pack, build_dirlist, readdir_reply, dispatch, readdir_common,
  readdir_ino, read_budget,
}

abbrev pub Gives : {S A : Type 0} → Step S (Option A) → Type 0
Gives {S} m = (s : S) → Given (m s).0

pub Gives-if :
    {S A : Type 0} (b : Bool) (m n : Step S (Option A))
    → Gives m
    → Gives n
    → Gives (if b then m else n)
Gives-if true m n y z = y
Gives-if false m n y z = z

Gives-let :
    {S A B : Type 0} (x : Option B × Reader) (bad : Reader → Step S (Option A))
    (k : B → Reader → Step S (Option A))
    → ((r : Reader) → Gives (bad r))
    → ((b : B) (r : Reader) → Gives (k b r))
    → Gives (let_some x bad k)
Gives-let (none, r) bad k h g = h r
Gives-let (some b, r) bad k h g = g b r

dir_list-Given : (out : Emitted Packing) → Given out.0 → Given (dir_list out)
dir_list-Given (some (ok eof), p) h = (_, refl)
dir_list-Given (some (err e), p) h = (_, refl)
dir_list-Given (none, p) (r, h) = absurd (never h)
  where
    never : {A : Type 0} {a : A} → none ≡ some a → ⊥
    never h = cc

module _ (F : ReadOnlyFs) (ctx : Ctx) where
  readdir_reply-Gives :
      (dir : Ino) (list : Option (FsResult DirList))
      → Given list
      → Gives (readdir_reply F ctx dir list)
  unfolding readdir_reply
  readdir_reply-Gives dir (some (err e)) h = λ s. (_, refl)
  readdir_reply-Gives dir (some (ok list)) h =
      Gives-if ((list.packed == 0) && not list.eof) _ _ (λ s. (_, refl)) (λ s. (_, refl))
  readdir_reply-Gives dir none (r, h) = absurd (never h)
    where
      never : {A : Type 0} {a : A} → none ≡ some a → ⊥
      never h = cc

  module _ (limit : ℕ) (bounded : Bounded F limit) (small : limit + 3 < 2 ^ 64) (fuel : ℕ)
      (enough : limit < fuel) where
    readdir_ino-Gives :
        (cookie budget : ℕ) (plus : Bool) (ino : Option Ino)
        → Gives (readdir_ino F ctx fuel cookie budget plus ino)
    unfolding readdir_ino build_dirlist
    readdir_ino-Gives cookie budget plus none s = (_, refl)
    readdir_ino-Gives cookie budget plus (some dir) s =
        readdir_reply-Gives dir _
          (dir_list-Given _ (
            emit-Given F (pack F ctx plus) limit bounded small fuel dir enough cookie synthesize
              (record { entries = new_writer; remaining = budget - dirlist_overhead; packed = 0 })
              s))
          _

    readdir_common-Gives : (plus : Bool) (r : Reader) → Gives (readdir_common F ctx fuel plus r)
    unfolding readdir_common
    readdir_common-Gives plus r =
        Gives-let (read_opaque_var 64 r) _ _ (λ x s. (_, refl))
          λ dirfh r₁.
            Gives-let (read_u64 r₁) _ _ (λ x s. (_, refl))
              λ cookie r₂.
                Gives-let (read_opaque_fixed 8 r₂) _ _ (λ x s. (_, refl))
                  λ verf r₃.
                    Gives-let (read_budget plus r₃) _ _ (λ x s. (_, refl))
                      λ budget r₄. readdir_ino-Gives cookie budget plus (resolve ctx.handle dirfh)

    -- Whatever the procedure and the arguments.
    pub dispatch-Gives : (proc : ℕ) (r : Reader) → Gives (dispatch F ctx fuel proc r)
    unfolding dispatch
    dispatch-Gives proc r =
        Gives-if (proc == 0) _ _ (λ s. (_, refl))
          (Gives-if (proc == 1) _ _ (λ s. (_, refl))
            (Gives-if (proc == 2) _ _ (λ s. (_, refl))
              (Gives-if (proc == 3) _ _ (λ s. (_, refl))
                (Gives-if (proc == 4) _ _ (λ s. (_, refl))
                  (Gives-if (proc == 5) _ _ (λ s. (_, refl))
                    (Gives-if (proc == 6) _ _ (λ s. (_, refl))
                      (Gives-if (proc == 7) _ _ (λ s. (_, refl))
                        (Gives-if (proc == 8) _ _ (λ s. (_, refl))
                          (Gives-if (proc == 9) _ _ (λ s. (_, refl))
                            (Gives-if (proc == 10) _ _ (λ s. (_, refl))
                              (Gives-if (proc == 11) _ _ (λ s. (_, refl))
                                (Gives-if (proc == 12) _ _ (λ s. (_, refl))
                                  (Gives-if (proc == 13) _ _ (λ s. (_, refl))
                                    (Gives-if (proc == 14) _ _ (λ s. (_, refl))
                                      (Gives-if (proc == 15) _ _ (λ s. (_, refl))
                                        (Gives-if (proc == 16) _ _ (readdir_common-Gives false r) (
                                          Gives-if (proc == 17) _ _ (readdir_common-Gives true r) (
                                            Gives-if (proc == 18) _ _ (λ s. (_, refl))
                                              (Gives-if (proc == 19) _ _ (λ s. (_, refl))
                                                (Gives-if (proc == 20) _ _ (λ s. (_, refl))
                                                  (Gives-if (proc == 21) _ _ (λ s. (_, refl))
                                                    (λ s. (_, refl)))))))))))))))))))))))
