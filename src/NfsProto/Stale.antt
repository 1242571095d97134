-- ===== src/NfsProto/Stale.antt =====
-- Calls of src/backend/nfs/nfs_proto.rs with a handle that does not resolve.
use anymount.Prelude.{ℕ, ◌≡◌, refl, ap, Bool, true, false, Option, none, some, List}
use anymount.Prelude.{if◌then◌else◌, ◌==◌}
use anymount.Fs.{ReadOnlyFs, Step, pure}
use anymount.Xdr.{
  Reader, read_opaque_var, let_some, read_u32, read_u64, read_string, read_opaque_fixed,
}
use anymount.Handle.{resolve}
use anymount.Rpc.{ProcOutcome}
use anymount.NfsProto.Attrs.{Ctx}
use anymount.NfsProto.Procs.{
  getattr, lookup, access, read, fsstat, fsinfo, pathconf, getattr_ino, lookup_in, access_of,
  read_ino, fsstat_of, fsinfo_of, pathconf_of,
}
use anymount.NfsProto.Dirs.{dispatch, answered, readdir_common, readdir_ino, read_budget}

-- The same answer from every state of the filesystem, which is left as it was; the answer is `w o`.
abbrev Untouched : {S O A : Type 0} → (O → A) → Step S A → Type 0
Untouched {S} {O} w m = (o : O) × ((s : S) → m s ≡ (w o, s))

Untouched-let :
    {S O A B : Type 0} (w : O → A) (x : Option B × Reader) (bad : O) (k : B → Reader → Step S A)
    → ((b : B) (r : Reader) → x ≡ (some b, r) → Untouched w (k b r))
    → Untouched w (let_some x (λ r. pure (w bad)) k)
Untouched-let w (none, r) bad k h = (bad, λ s. refl)
Untouched-let w (some b, r) bad k h = h b r refl

Untouched-if :
    {S O A : Type 0} (w : O → A) (b : Bool) (m n : Step S A)
    → Untouched w m
    → Untouched w n
    → Untouched w (if b then m else n)
Untouched-if w true m n y z = y
Untouched-if w false m n y z = z

abbrev id_outcome : ProcOutcome → ProcOutcome
id_outcome o = o

module _ (F : ReadOnlyFs) (ctx : Ctx) (r : Reader)
    (unresolved : (fh : List ℕ)
      → (read_opaque_var 64 r).0 ≡ some fh
      → resolve ctx.handle fh ≡ none) where
  no_inode :
      (fh : List ℕ) (r' : Reader)
      → read_opaque_var 64 r ≡ (some fh, r')
      → resolve ctx.handle fh ≡ none
  no_inode fh r' e = unresolved fh (ap (λ (x : Option (List ℕ) × Reader). x.0) e)

  getattr-Untouched : Untouched id_outcome (getattr F ctx r)
  unfolding getattr getattr_ino
  getattr-Untouched =
      Untouched-let id_outcome (read_opaque_var 64 r) _ _
        λ fh r' e. rw (no_inode fh r' e) (_, λ s. refl)

  lookup-Untouched : Untouched id_outcome (lookup F ctx r)
  unfolding lookup lookup_in
  lookup-Untouched = Untouched-let id_outcome (read_opaque_var 64 r) _ _ λ fh r' e.
      Untouched-let id_outcome (read_string 1024 r') _ _
        λ x0 r0 e0. rw (no_inode fh r' e) (_, λ s. refl)

  access-Untouched : Untouched id_outcome (access F ctx r)
  unfolding access access_of
  access-Untouched = Untouched-let id_outcome (read_opaque_var 64 r) _ _ λ fh r' e.
      Untouched-let id_outcome (read_u32 r') _ _ λ x0 r0 e0. rw (no_inode fh r' e) (_, λ s. refl)

  read-Untouched : Untouched id_outcome (read F ctx r)
  unfolding read read_ino
  read-Untouched = Untouched-let id_outcome (read_opaque_var 64 r) _ _ λ fh r' e.
      Untouched-let id_outcome (read_u64 r') _ _ λ x0 r0 e0.
        Untouched-let id_outcome (read_u32 r0) _ _ λ x1 r1 e1. rw (no_inode fh r' e) (_, λ s. refl)

  fsstat-Untouched : Untouched id_outcome (fsstat F ctx r)
  unfolding fsstat fsstat_of
  fsstat-Untouched =
      Untouched-let id_outcome (read_opaque_var 64 r) _ _
        λ fh r' e. rw (no_inode fh r' e) (_, λ s. refl)

  fsinfo-Untouched : Untouched id_outcome (fsinfo F ctx r)
  unfolding fsinfo fsinfo_of
  fsinfo-Untouched =
      Untouched-let id_outcome (read_opaque_var 64 r) _ _
        λ fh r' e. rw (no_inode fh r' e) (_, λ s. refl)

  pathconf-Untouched : Untouched id_outcome (pathconf F ctx r)
  unfolding pathconf pathconf_of
  pathconf-Untouched =
      Untouched-let id_outcome (read_opaque_var 64 r) _ _
        λ fh r' e. rw (no_inode fh r' e) (_, λ s. refl)

  readdir-Untouched : (fuel : ℕ) (plus : Bool) → Untouched some (readdir_common F ctx fuel plus r)
  unfolding readdir_common readdir_ino
  readdir-Untouched fuel plus = Untouched-let some (read_opaque_var 64 r) _ _ λ fh r' e.
      Untouched-let some (read_u64 r') _ _ λ cookie r0 e0.
        Untouched-let some (read_opaque_fixed 8 r0) _ _ λ verf r1 e1.
          Untouched-let some (read_budget plus r1) _ _
            λ budget r2 e2. rw (no_inode fh r' e) (_, λ s. refl)

  answered-Untouched :
      {m : Step F.State ProcOutcome} → Untouched id_outcome m → Untouched some (answered F ctx m)
  answered-Untouched (o, h) = (o, λ s. ap (λ (x : ProcOutcome × F.State). (some x.0, x.1)) (h s))

  -- A call whose first argument is no handle of this mount is answered, whatever its procedure, and
  -- the answer is the same for every state of the filesystem, which is left as it was: neither a
  -- name, nor an attribute, nor a byte of a file is to be had without a handle.
  pub dispatch-Untouched :
      (fuel proc : ℕ)
      → (o : ProcOutcome) × ((s : F.State) → dispatch F ctx fuel proc r s ≡ (some o, s))
  unfolding dispatch
  dispatch-Untouched fuel proc =
      Untouched-if some (proc == 0) _ _ (_, λ s. refl)
        (Untouched-if some (proc == 1) _ _ (answered-Untouched getattr-Untouched) (
          Untouched-if some (proc == 2) _ _ (_, λ s. refl)
            (Untouched-if some (proc == 3) _ _ (answered-Untouched lookup-Untouched) (
              Untouched-if some (proc == 4) _ _ (answered-Untouched access-Untouched) (
                Untouched-if some (proc == 5) _ _ (_, λ s. refl)
                  (Untouched-if some (proc == 6) _ _ (answered-Untouched read-Untouched) (
                    Untouched-if some (proc == 7) _ _ (_, λ s. refl)
                      (Untouched-if some (proc == 8) _ _ (_, λ s. refl)
                        (Untouched-if some (proc == 9) _ _ (_, λ s. refl)
                          (Untouched-if some (proc == 10) _ _ (_, λ s. refl)
                            (Untouched-if some (proc == 11) _ _ (_, λ s. refl)
                              (Untouched-if some (proc == 12) _ _ (_, λ s. refl)
                                (Untouched-if some (proc == 13) _ _ (_, λ s. refl)
                                  (Untouched-if some (proc == 14) _ _ (_, λ s. refl)
                                    (Untouched-if some (proc == 15) _ _ (_, λ s. refl)
                                      (Untouched-if some (proc == 16) _ _
                                        (readdir-Untouched fuel false)
                                        (Untouched-if some (proc == 17) _ _
                                          (readdir-Untouched fuel true)
                                          (Untouched-if some (proc == 18) _ _
                                            (answered-Untouched fsstat-Untouched)
                                            (Untouched-if some (proc == 19) _ _
                                              (answered-Untouched fsinfo-Untouched)
                                              (Untouched-if some (proc == 20) _ _
                                                (answered-Untouched pathconf-Untouched)
                                                (Untouched-if some (proc == 21) _ _ (_, λ s. refl)
                                                  ((_, λ s. refl)))))))))))))))))))))))
