-- ===== src/Fuse/Options.antt =====
-- Which mounts src/backend/fuse.rs makes.
use anymount.Prelude.{
  Bool, true, false, not, ◌&&◌, ◌≡◌, ◌↔◌, ◌⊎◌, refl, sym, ◌∙◌, List, ◌∷◌, inl, inr, if◌then◌else◌,
  Result, ok, err, arith, Bool-cases, Result-cases,
}
use anymount.Types.{OsStr}
use anymount.Error.{FsError, IoError, invalid_argument, context}
use anymount.Fs.{Step}
use anymount.Mount.{MountBuilder, Disk, check}
use anymount.Mount.Checked.{check_iff}
use anymount.Fuse.Session.{caps, MountOption, ro, all, owner, Config, config_of, spawned, mount}

-- What can be asked of this backend.
abbrev pub Mountable : Disk → MountBuilder → Type 0
Mountable disk b =
    (disk.metadata ≡ ok true)
    × (b.nfs_require_local_socket ≡ false)
    × (b.auto_unmount ≡ true → b.allow_other ≡ true)

ok-err : {e : FsError} → ok tt ≡ err e → ⊥
ok-err h = cc

check-Mountable :
    (disk : Disk) (b : MountBuilder)
    → check disk b caps ≡ ok tt
    → (disk.metadata ≡ ok true) × (b.nfs_require_local_socket ≡ false)
check-Mountable disk b h =
    let (usable, honors) = (check_iff disk b caps).0 h in
    (
      usable.0,
      elim (Bool-cases b.nfs_require_local_socket) [
        | inl required ↦ (let e : false ≡ true = honors.2 required in cc)
        | inr not_required ↦ not_required
      ],
    )

Mountable-check : (disk : Disk) (b : MountBuilder) → Mountable disk b → check disk b caps ≡ ok tt
Mountable-check disk b m =
    (check_iff disk b caps).1 ((m.0, λ h. cc), (λ h. refl, λ h. refl, λ h. cc, λ h. refl))

acl_lem : (other : Bool) → (if other then all else owner) ≡ all ↔ other ≡ true
acl_lem true = (λ h. refl, λ h. refl)
acl_lem false = (λ h. cc, λ h. cc)

paired : (a o : Bool) → (a && not o) ≡ false → a ≡ true → o ≡ true
paired a o h k = ground (arith, h, k)

unpaired : (a o : Bool) → (a && not o) ≡ true → (a ≡ true → o ≡ true) → ⊥
unpaired a o h k = ground (arith, h, k)

module _ {W H : Type 0} (spawn_mount : OsStr → Config → Step W (Result H IoError)) where
  -- The platform's mount is called exactly if the mount point is a directory, no local socket is
  -- required, and automatic unmounting is not asked for on a private mount; else the call fails and
  -- touches nothing. When it is called, then with the read-only option first, and for other users
  -- exactly if that was asked for; and its answer is the result.
  pub mount_iff :
      (disk : Disk) (b : MountBuilder) (w : W)
      → ((Mountable disk b)
          × (mount spawn_mount disk b w ≡ (
              let (session, w') = spawn_mount b.mountpoint (config_of b) w in
              (spawned spawn_mount session, w')))
          × ((rest : List MountOption) × ((config_of b).mount_options ≡ ro ∷ rest))
          × ((config_of b).acl ≡ all ↔ b.allow_other ≡ true))
        ⊎ ((Mountable disk b → ⊥) × ((e : FsError) × (mount spawn_mount disk b w ≡ (err e, w))))
  unfolding mount config_of
  mount_iff disk b w = elim (Result-cases (check disk b caps)) [
    | inr (e, failed) ↦
        inr (λ m. ok-err (sym (Mountable-check disk b m) ∙ failed), (e, rw failed refl))
    | inl (u, passed) ↦ elim (Bool-cases (b.auto_unmount && not b.allow_other)) [
      | inl private ↦ inr (
        λ m. unpaired b.auto_unmount b.allow_other private m.2,
        (context invalid_argument "auto_unmount requires allow_other", rw (passed, private) refl),
      )
      | inr fits ↦
          (let (dir, no_socket) = check-Mountable disk b passed in
            inl (
              (dir, no_socket, paired b.auto_unmount b.allow_other fits),
              rw (passed, fits) refl,
              (_, refl),
              acl_lem b.allow_other,
            ))
    ]
  ]
